-- ===== src/Framework/Uuids/Order.antt =====
-- The order of the C++ layer is the one of the core.
use substance_3d_connector.Base.{◌≡◌, ◌↔◌, arith, Bool, true, not, ◌&&◌}
use substance_3d_connector.Uuid.{Uuid, Sign, compare_uuid}
use substance_3d_connector.Framework.Uuids.{less, equal}

-- `operator<` holds exactly where `connector_compare_uuid` gives -1, `operator==` exactly where it
-- gives 0, which is for equal identifiers only.
pub less-compare_uuid :
    (a b : Uuid)
    → ((less a b ≡ true) ↔ (compare_uuid a b ≡ Sign.negative))
      × ((equal a b ≡ true) ↔ (compare_uuid a b ≡ Sign.nought))
      × ((equal a b ≡ true) ↔ (a ≡ b))
unfolding less equal compare_uuid
less-compare_uuid a b = (ground arith, ground arith, ground arith)

-- The keys of a std::map are the same where neither is below the other.
abbrev pub equivalent : Uuid → Uuid → Bool
equivalent a b = not (less a b) && not (less b a)

pub equivalent_iff : (a b : Uuid) → (equivalent a b ≡ true) ↔ (a ≡ b)
unfolding less
equivalent_iff a b = ground arith
