-- ===== src/Uuid/Order.antt =====
-- `connector_compare_uuid` is a total order, as `bsearch` needs it.
use substance_3d_connector.Base.{◌≡◌, ◌↔◌, arith}
use substance_3d_connector.Uuid.{Uuid, Sign, compare_uuid}

abbrev flip : Sign → Sign
flip Sign.negative = Sign.positive
flip Sign.nought = Sign.nought
flip Sign.positive = Sign.negative

-- The result is 0 exactly for equal identifiers.
compare_uuid-eq : (a b : Uuid) → (compare_uuid a b ≡ Sign.nought) ↔ (a ≡ b)
unfolding compare_uuid
compare_uuid-eq a b = ground arith

-- Comparing in the other order changes the sign.
compare_uuid-flip : (a b : Uuid) → compare_uuid b a ≡ flip (compare_uuid a b)
unfolding compare_uuid
compare_uuid-flip a b = ground arith

compare_uuid_trans :
    (a b c : Uuid)
    → compare_uuid a b ≡ Sign.negative
    → compare_uuid b c ≡ Sign.negative
    → compare_uuid a c ≡ Sign.negative
unfolding compare_uuid
compare_uuid_trans a b c h k = ground arith

-- `connector_compare_uuid` is a total order on identifiers: the result is 0 exactly for equal ones,
-- exchanging the two changes its sign, and below is transitive.
compare_uuid-order :
    (a b c : Uuid)
    → ((compare_uuid a c ≡ Sign.nought) ↔ (a ≡ c))
      × (compare_uuid c a ≡ flip (compare_uuid a c))
      × (compare_uuid a b ≡ Sign.negative
          → compare_uuid b c ≡ Sign.negative
          → compare_uuid a c ≡ Sign.negative)
compare_uuid-order a b c = (compare_uuid-eq a c, compare_uuid-flip a c, compare_uuid_trans a b c)
