-- ===== src/Uuid/Tests.antt =====
-- The order of identifiers at the identifiers of the core.
use substance_3d_connector.Base.{◌≡◌, refl}
use substance_3d_connector.Uuid.{
  Sign, compare_uuid, internal_handshake_uuid, internal_connection_closed_uuid,
}

handshake_first :
    compare_uuid internal_handshake_uuid internal_connection_closed_uuid ≡ Sign.negative
unfolding compare_uuid
handshake_first = refl
