-- ===== src/Framework/Uuids/Tests.antt =====
-- Identifiers as texts.
use substance_3d_connector.Base.{◌≡◌, ◌↔◌, refl, arith, true}
use substance_3d_connector.Uuid.{Sign, compare_uuid, internal_handshake_uuid, internal_log_uuid}
use substance_3d_connector.Framework.Schemas.Fields.{codes}
use substance_3d_connector.Framework.Uuids.{uuid_to_string, uuid_from_string, less, equal}
use substance_3d_connector.Framework.Uuids.Order.{less-compare_uuid}
use substance_3d_connector.Framework.Uuids.Texts.{uuid_string_roundtrip}

-- The text of an identifier as its comment in the source has it.
handshake_text :
    uuid_to_string internal_handshake_uuid ≡ codes "02572bc5-2d84-450a-9e01-d22c66b1abb1"
unfolding uuid_to_string
handshake_text = refl

-- A text that is too short leaves the later elements.
short_text : uuid_from_string (codes "0000-00ff-12") ≡ record { e0 = 255; e1 = 0; e2 = 0; e3 = 0 }
unfolding uuid_from_string
short_text = refl

uuid_string_roundtrip_example :
    uuid_from_string (uuid_to_string internal_handshake_uuid) ≡ internal_handshake_uuid
uuid_string_roundtrip_example = uuid_string_roundtrip internal_handshake_uuid (omega arith)

less-compare_uuid_example :
    let a = internal_handshake_uuid in
    let b = internal_log_uuid in
    ((less a b ≡ true) ↔ (compare_uuid a b ≡ Sign.negative))
    × ((equal a b ≡ true) ↔ (compare_uuid a b ≡ Sign.nought))
    × ((equal a b ≡ true) ↔ (a ≡ b))
less-compare_uuid_example = less-compare_uuid internal_handshake_uuid internal_log_uuid
