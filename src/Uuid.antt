-- ===== src/Uuid.antt =====
-- core/src/details/uuid_utils.c, core/src/details/internal_uuids.c: message identifiers.
pub mod Order
mod Tests
use substance_3d_connector.Base.{ℕ, ltb, if◌then◌else◌, List, [], ◌∷◌}

-- `substance_connector_uuid_t`: four uint32_t.
pub record Uuid : Type 0 where
  pub e0 : ℕ
  pub e1 : ℕ
  pub e2 : ℕ
  pub e3 : ℕ

-- The results -1, 0 and 1.
pub data Sign : Type 0 where
  negative nought positive : Sign

-- The loop of `connector_compare_uuid` over the pairs of elements that are left.
unfoldable compare_elements : List (ℕ × ℕ) → Sign
compare_elements [] = Sign.nought
compare_elements ((x, y) ∷ rest) =
    if ltb x y then Sign.negative else if ltb y x then Sign.positive else compare_elements rest

unfoldable pub compare_uuid : Uuid → Uuid → Sign
unfolding compare_elements
compare_uuid a b = compare_elements ((a.e0, b.e0) ∷ (a.e1, b.e1) ∷ (a.e2, b.e2) ∷ (a.e3, b.e3) ∷ [])

abbrev pub internal_handshake_uuid : Uuid
internal_handshake_uuid = record {
  e0 = 0x02572bc5;
  e1 = 0x2d84450a;
  e2 = 0x9e01d22c;
  e3 = 0x66b1abb1;
}

abbrev pub internal_connection_closed_uuid : Uuid
internal_connection_closed_uuid = record {
  e0 = 0x04705ddf;
  e1 = 0x16d44489;
  e2 = 0xaf6c6e3a;
  e3 = 0x93f1959d;
}

abbrev pub internal_log_uuid : Uuid
internal_log_uuid = record { e0 = 0x3f7fa3ce; e1 = 0x164c4661; e2 = 0x8bb6b8c4; e3 = 0xea80c93b }
