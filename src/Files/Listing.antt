-- ===== src/Files/Listing.antt =====
-- What a listing of a directory holds.
use substance_3d_connector.Base.{
  ℕ, ◌<◌, ◌≡◌, inl, inr, subst, refl, arith, sym, Bool-cases, leb, ◌>>=◌, if◌then◌else◌, Bool, List,
  [], ◌∷◌, ◌++◌, none, some, length, append_nil, replicate,
}
use mathlib.Core.List.{append_assoc}
use substance_3d_connector.Retcode.{Retcode}
use substance_3d_connector.Files.{
  default_filter, list_directory, FileSystem, Cell, FileList, make_room, append_file_list,
  list_names, walk,
}
use substance_3d_connector.Files.Cells.{entries, Behind, Listed, append-Listed, walked, one_more}

-- The names that the filter accepts.
abbrev pub accepted : (List ℕ → Bool) → List (List ℕ) → List (List ℕ)
accepted filter_op [] = []
accepted filter_op (name ∷ names) =
    if filter_op name then name ∷ accepted filter_op names else accepted filter_op names

list_names-Listed :
    (filter_op : List ℕ → Bool) (more names : List (List ℕ)) (l : FileList) (size : ℕ)
    → size ≡ length names
    → Listed names l
    → Listed (names ++ accepted filter_op more) (list_names filter_op more (l, size)).0
unfolding list_names
list_names-Listed filter_op [] names l size same h =
    subst (λ ns. Listed ns l) (sym (append_nil names)) h
list_names-Listed filter_op (name ∷ more) names l size same h = elim (Bool-cases (filter_op name)) [
  | inl e ↦
      rw (list_names, e)
        (subst (λ ns. Listed ns (list_names filter_op more (append_file_list name l size)).0)
          (append_assoc names (name ∷ []) (accepted filter_op more))
          (list_names-Listed filter_op more (names ++ (name ∷ [])) (append_file_list name l size).0
            (append_file_list name l size).1 (one_more names name size same)
            (subst (λ k. Listed (names ++ (name ∷ [])) (append_file_list name l k).0) (sym same)
              (append-Listed names name l h))))
  | inr e ↦ rw (list_names, e) (list_names-Listed filter_op more names l size same h)
]

abbrev nothing_listed : FileList
nothing_listed = record { elements = none; capacity = 0 }

first-Listed : (name : List ℕ) → Listed (name ∷ []) (append_file_list name nothing_listed 0).0
unfolding append_file_list make_room
first-Listed name = record {
  cells = replicate 15 Cell.null;
  array = refl;
  behind = Behind.first 16 13 refl refl;
}

all-Listed :
    (filter_op : List ℕ → Bool) (names : List (List ℕ))
    → 0 < length (accepted filter_op names)
    → Listed (accepted filter_op names) (list_names filter_op names (nothing_listed, 0)).0
unfolding list_names append_file_list
all-Listed filter_op [] h = absurd (omega arith)
all-Listed filter_op (name ∷ names) h = elim (Bool-cases (filter_op name)) [
  | inl e ↦
      rw (list_names, e)
        (list_names-Listed filter_op names (name ∷ []) (append_file_list name nothing_listed 0).0 1
          refl (first-Listed name))
  | inr e ↦ rw (list_names, e) (all-Listed filter_op names (ground arith))
]

-- The array of a listing with a name is there.
pub list_directory-array :
    {W : Type 0} (fs : FileSystem W) (w : W) (path : List ℕ) (names : List (List ℕ))
    → fs.readdir w path ≡ some names
    → 0 < length (accepted default_filter names)
    → (array : List Cell) × ((list_directory fs w path).1.elements ≡ some array)
unfolding list_directory
list_directory-array fs w path names e h =
    let listed = all-Listed default_filter names h in
    (
      entries (accepted default_filter names) ++ listed.cells,
      rw (list_directory, e, listed.array) refl,
    )

-- What a loop over the array of a listing sees: the names of the directory that do not begin with
-- a dot, in their order, for one to fifteen of them; from sixteen on there is no null pointer behind
-- them, and the loop reads memory that was never written.
pub list_directory-walk :
    {W : Type 0} (fs : FileSystem W) (w : W) (path : List ℕ) (names : List (List ℕ))
    → fs.readdir w path ≡ some names
    → 0 < length (accepted default_filter names)
    → let (code, l) = list_directory fs w path in
      (code ≡ Retcode.success)
      × ((l.elements >>= walk) ≡ (
          if leb (length (accepted default_filter names)) 15
          then some (accepted default_filter names)
          else none))
unfolding list_directory
list_directory-walk fs w path names e h =
    let listed = all-Listed default_filter names h in
    rw (list_directory, e, listed.array)
      (refl, walked (accepted default_filter names) _ _ listed.behind)
