-- ===== src/StringMap/Absent.antt =====
-- What a search of the table finds.
use substance_3d_connector.Base.{
  ℕ, zero, suc, ◌<◌, ◌%◌, ◌≡◌, refl, arith, true, List, [], ◌∷◌, Option, none, some, replicate,
  get_elem?,
}
use substance_3d_connector.StringMap.{
  StringMap, string_map_init, string_map_insert, string_map_search, map_bucket_size,
  compute_fnv1a_hash,
}

get_elem?-replicate :
    {A : Type 0} (n : ℕ) (a : A) (i : ℕ) → i < n → get_elem? (replicate n a) i ≡ some a
get_elem?-replicate zero a i h = absurd (omega (arith, h))
get_elem?-replicate (suc n) a zero h = refl
get_elem?-replicate (suc n) a (suc i) h = get_elem?-replicate n a i (omega (arith, h))

-- The table after insertions.
unfoldable insert_all : (ℕ → ℕ) → List (List ℕ × List ℕ) → StringMap → StringMap
insert_all widened [] m = m
insert_all widened ((key, val) ∷ pairs) m =
    insert_all widened pairs (string_map_insert widened m key val).1

abbrev empty_map : StringMap
empty_map = record {
  keys = replicate map_bucket_size none;
  entries = replicate map_bucket_size none;
  bucket_size = map_bucket_size;
}

insert_all-same :
    (widened : ℕ → ℕ) (pairs : List (List ℕ × List ℕ)) (m : StringMap)
    → insert_all widened pairs m ≡ m
unfolding insert_all string_map_insert
insert_all-same widened [] m = refl
insert_all-same widened ((key, val) ∷ pairs) m = insert_all-same widened pairs m

-- A table that was made with memory and then took any insertions finds no key, and a search stays
-- inside the table.
search-absent :
    (widened : ℕ → ℕ) (pairs : List (List ℕ × List ℕ)) (key : List ℕ)
    → (string_map_init true true ≡ some (some empty_map))
      × (string_map_search widened (some (insert_all widened pairs empty_map)) (some key)
          ≡ some none)
unfolding string_map_init string_map_search
search-absent widened pairs key =
    let index : compute_fnv1a_hash widened key % map_bucket_size < map_bucket_size = omega arith in
    (
      refl,
      rw
          (
            insert_all-same widened pairs empty_map,
            get_elem?-replicate {A = Option (List ℕ)} map_bucket_size none _ index,
          )
          refl,
    )
