-- ===== src/StringMap.antt =====
-- core/src/details/string_map.c on a 64-bit machine: a table of strings by an FNV-1a hash of the key,
-- which no other part uses. The conversion of a char to uint64_t is a parameter.
mod Absent
use substance_3d_connector.Base.{
  ℕ, ◌*◌, ◌%◌, ◌^◌, ◌>>=◌, Bool, true, false, List, [], ◌∷◌, Option, none, some, bit_xor, replicate,
  get_elem?, if◌then◌else◌, same_text,
}
use substance_3d_connector.Retcode.{Retcode}

-- CONNECTOR_FNV_OFFSET_BASIS, CONNECTOR_FNV_PRIME and CONNECTOR_MAP_BUCKET_SIZE
abbrev fnv_offset_basis : ℕ
fnv_offset_basis = 0xcbf29ce484222325

abbrev fnv_prime : ℕ
fnv_prime = 0x100000001b3

abbrev map_bucket_size : ℕ
map_bucket_size = 512

-- `connector_string_map_t`; the keys and the entries are halves of one array.
pub record StringMap : Type 0 where
  pub keys : List (Option (List ℕ))
  pub entries : List (Option (List ℕ))
  pub bucket_size : ℕ

-- `connector_string_map_init`, where the flags say whether the allocator has memory for the map and
-- for the table; `none` where a null pointer is cleared.
unfoldable string_map_init : Bool → Bool → Option (Option StringMap)
string_map_init false table = some none
string_map_init true false = none
string_map_init true true = some (
    some (record {
      keys = replicate map_bucket_size none;
      entries = replicate map_bucket_size none;
      bucket_size = map_bucket_size;
    }))

-- `connector_string_map_destroy`, with the keys that it releases.
unfoldable string_map_destroy : Option StringMap → Retcode × List (Option (List ℕ))
string_map_destroy none = (Retcode.error, [])
string_map_destroy (some m) = (Retcode.success, m.keys)

module _ (widened : ℕ → ℕ) where
  -- The loop of `compute_fnv1a_hash`.
  unfoldable fnv1a_loop : List ℕ → ℕ → ℕ
  fnv1a_loop [] hash = hash
  fnv1a_loop (c ∷ str) hash = fnv1a_loop str ((bit_xor hash (widened c) * fnv_prime) % 2 ^ 64)

  -- `compute_fnv1a_hash`
  unfoldable compute_fnv1a_hash : List ℕ → ℕ
  unfolding fnv1a_loop
  compute_fnv1a_hash str = fnv1a_loop str fnv_offset_basis

  -- `hash_to_index`
  abbrev hash_to_index : ℕ → ℕ → ℕ
  hash_to_index hashcode length = hashcode % length

  -- `connector_string_map_insert`, which stores nothing.
  unfoldable string_map_insert : StringMap → List ℕ → List ℕ → Retcode × StringMap
  string_map_insert m key val = (Retcode.success, m)

  -- What a slot gives for a key: a copy of the entry.
  abbrev taken : List ℕ → Option (List ℕ) → Option (List ℕ) → Option (List ℕ)
  taken key none entry = none
  taken key (some other) entry = if same_text other key then entry else none

  -- `connector_string_map_search`; `none` where it reads outside of the table.
  unfoldable string_map_search : Option StringMap → Option (List ℕ) → Option (Option (List ℕ))
  unfolding compute_fnv1a_hash
  string_map_search none key = some none
  string_map_search (some m) none = some none
  string_map_search (some m) (some key) =
      let hash = hash_to_index (compute_fnv1a_hash key) m.bucket_size in
      do slot ← get_elem? m.keys hash; entry ← get_elem? m.entries hash; some (taken key slot entry)
