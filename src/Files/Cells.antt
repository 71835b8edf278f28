-- ===== src/Files/Cells.antt =====
-- The array of a listing while names are appended.
use substance_3d_connector.Base.{
  ℕ, zero, suc, ◌+◌, ◌-◌, ◌*◌, ◌≤◌, ◌≡◌, ◌≢◌, inl, inr, subst, refl, arith, ◌∙◌, sym, ap,
  Bool-cases, ◌==◌, ne→==, leb, ◌>>=◌, if◌then◌else◌, Bool, true, false, List, [], ◌∷◌, ◌++◌,
  Option, none, some, length, append_nil, length-append, replicate, set,
}
use mathlib.Core.List.{append_assoc}
use substance_3d_connector.Files.{Cell, FileList, make_room, append_file_list, walk}

abbrev pub entries : List (List ℕ) → List Cell
entries [] = []
entries (name ∷ names) = Cell.entry name ∷ entries names

-- The cells behind the names, for the number of names and the capacity.
pub data Behind (n : ℕ) : ℕ → List Cell → Type 0 where
  first :
      (capacity : ℕ) (k : ℕ)
      → capacity ≡ 16
      → n + suc k ≡ 15
      → Behind n capacity (replicate (suc (suc k)) Cell.null)
  grown :
      (capacity : ℕ)
      → capacity ≡ 32
      → n ≡ 15
      → Behind n capacity (Cell.null ∷ replicate 16 Cell.garbage)
  later :
      (capacity : ℕ) (k : ℕ)
      → n + suc (suc k) ≡ capacity
      → 16 ≤ n
      → Behind n capacity (replicate (suc (suc k)) Cell.garbage)

-- After the names, from the first on.
pub record Listed (names : List (List ℕ)) (l : FileList) : Type 0 where
  pub cells : List Cell
  pub array : l.elements ≡ some (entries names ++ cells)
  pub behind : Behind (length names) l.capacity cells

set-entries :
    (names : List (List ℕ)) (name : List ℕ) (c : Cell) (cells : List Cell)
    → set (entries names ++ (c ∷ cells)) (length names) (Cell.entry name)
      ≡ entries (names ++ (name ∷ [])) ++ cells
set-entries [] name c cells = refl
set-entries (n ∷ names) name c cells = ap (λ l. Cell.entry n ∷ l) (set-entries names name c cells)

true_at : (a b : ℕ) → a ≡ b → (a == b) ≡ true
true_at a b e = ground arith

-- What an append does to the cells behind the names.
record Next (n capacity : ℕ) (cells : List Cell) : Type 0 where
  cell : Cell
  cells' : List Cell
  room :
      (if n + 2 == capacity then cells ++ replicate capacity Cell.garbage else cells)
      ≡ cell ∷ cells'
  behind' : Behind (n + 1) (if n + 2 == capacity then capacity * 2 else capacity) cells'

Next_grown :
    (n capacity : ℕ) (cells : List Cell) (c : Cell) (cells' : List Cell)
    → n + 2 ≡ capacity
    → cells ++ replicate capacity Cell.garbage ≡ c ∷ cells'
    → Behind (n + 1) (capacity * 2) cells'
    → Next n capacity cells
Next_grown n capacity cells c cells' e room b = record {
  cell = c;
  cells' = cells';
  room = rw (true_at (n + 2) capacity e) room;
  behind' = rw (true_at (n + 2) capacity e) b;
}

Next_kept :
    (n capacity : ℕ) (cells : List Cell) (c : Cell) (cells' : List Cell)
    → n + 2 ≢ capacity
    → cells ≡ c ∷ cells'
    → Behind (n + 1) capacity cells'
    → Next n capacity cells
Next_kept n capacity cells c cells' e room b = record {
  cell = c;
  cells' = cells';
  room = rw (ne→== (n + 2) capacity e) room;
  behind' = rw (ne→== (n + 2) capacity e) b;
}

Behind-Next : (n capacity : ℕ) (cells : List Cell) → Behind n capacity cells → Next n capacity cells
Behind-Next n capacity _ (first _ zero e h) =
    Next_grown n capacity _ Cell.null (Cell.null ∷ replicate 16 Cell.garbage) (omega arith)
      (rw e refl) (grown (capacity * 2) (omega arith) (omega arith))
Behind-Next n capacity _ (first _ (suc k) e h) =
    Next_kept n capacity _ Cell.null (replicate (suc (suc k)) Cell.null) (omega arith) refl
      (first capacity k e (omega arith))
Behind-Next n capacity _ (grown _ e h) =
    Next_kept n capacity _ Cell.null (replicate 16 Cell.garbage) (omega arith) refl
      (later capacity 14 (omega arith) (omega arith))
Behind-Next n capacity _ (later _ zero h big) =
    Next_grown n capacity _ Cell.garbage (Cell.garbage ∷ replicate capacity Cell.garbage)
      (omega arith) refl
      (subst (λ k. Behind (n + 1) (capacity * 2) (Cell.garbage ∷ replicate k Cell.garbage))
        {x = suc (capacity - 1)} {y = capacity} (omega arith)
        (later (capacity * 2) (capacity - 1) (omega arith) (omega arith)))
Behind-Next n capacity _ (later _ (suc k) h big) =
    Next_kept n capacity _ Cell.garbage (replicate (suc (suc k)) Cell.garbage) (omega arith) refl
      (later capacity k (omega arith) (omega arith))

length-entries : (names : List (List ℕ)) → length (entries names) ≡ length names
length-entries [] = refl
length-entries (name ∷ names) = ap suc (length-entries names)

module _ (names : List (List ℕ)) (name : List ℕ) (l : FileList) (h : Listed names l) where
  abbrev n : ℕ
  n = length names

  abbrev x : Next n l.capacity h.cells
  x = Behind-Next n l.capacity h.cells h.behind

  abbrev capacity' : ℕ
  capacity' = if n + 2 == l.capacity then l.capacity * 2 else l.capacity

  room_made : make_room l n ≡ (entries names ++ (x.cell ∷ x.cells'), capacity')
  unfolding make_room
  room_made = elim (Bool-cases (n + 2 == l.capacity)) [
    | inl e ↦
        let r : h.cells ++ replicate l.capacity Cell.garbage ≡ x.cell ∷ x.cells' =
          subst
            (λ b.
              (if b then h.cells ++ replicate l.capacity Cell.garbage else h.cells)
              ≡ x.cell ∷ x.cells')
            e x.room in
        rw (make_room, h.array, e)
          (ap (λ c. (c, l.capacity * 2))
            (append_assoc (entries names) h.cells (replicate l.capacity Cell.garbage)
              ∙ ap (λ c. entries names ++ c) r))
    | inr e ↦
        let r : h.cells ≡ x.cell ∷ x.cells' =
          subst
            (λ b.
              (if b then h.cells ++ replicate l.capacity Cell.garbage else h.cells)
              ≡ x.cell ∷ x.cells')
            e x.room in
        rw (make_room, h.array, e) (ap (λ c. (entries names ++ c, l.capacity)) r)
  ]

  -- One append after the first.
  pub append-Listed : Listed (names ++ (name ∷ [])) (append_file_list name l n).0
  unfolding append_file_list
  append-Listed = record {
    cells = x.cells';
    array =
        ap (λ r. some (set r.0 n (Cell.entry name))) room_made
        ∙ ap (λ c. some c) (set-entries names name x.cell x.cells');
    behind =
        subst (λ k. Behind k (make_room l n).1 x.cells') (sym (length-append names (name ∷ [])))
          (subst (λ k. Behind (n + 1) k x.cells') (sym (ap (λ r. r.1) room_made)) x.behind');
  }

through :
    (o : Option (List (List ℕ))) (name : List ℕ) (names : List (List ℕ))
    → ((o >>= λ more. some (names ++ more)) >>= λ names'. some (name ∷ names'))
      ≡ (o >>= λ more. some (name ∷ (names ++ more)))
through none name names = refl
through (some more) name names = refl

unchanged : (o : Option (List (List ℕ))) → o ≡ (o >>= λ more. some more)
unchanged none = refl
unchanged (some more) = refl

walk-entries :
    (names : List (List ℕ)) (cells : List Cell)
    → walk (entries names ++ cells) ≡ (walk cells >>= λ more. some (names ++ more))
unfolding walk
walk-entries [] cells = unchanged (walk cells)
walk-entries (name ∷ names) cells = rw (walk-entries names cells) (through (walk cells) name names)

Behind-walk :
    (n capacity : ℕ) (cells : List Cell)
    → Behind n capacity cells
    → walk cells ≡ (if leb n 15 then some [] else none)
unfolding walk
Behind-walk n capacity _ (first _ k e h) = ground arith
Behind-walk n capacity _ (grown _ e h) = ground arith
Behind-walk n capacity _ (later _ k h big) = ground arith

pub walked :
    (names : List (List ℕ)) (capacity : ℕ) (cells : List Cell)
    → Behind (length names) capacity cells
    → walk (entries names ++ cells) ≡ (if leb (length names) 15 then some names else none)
walked names capacity cells b =
    walk-entries names cells
    ∙ ap (λ o. o >>= λ more. some (names ++ more)) (Behind-walk (length names) capacity cells b)
    ∙ chosen (leb (length names) 15) names
  where
    chosen :
        (b : Bool) (names : List (List ℕ))
        → ((if b then some [] else none) >>= λ more. some (names ++ more))
          ≡ (if b then some names else none)
    chosen true names = ap (λ ns. some ns) (append_nil names)
    chosen false names = refl

pub one_more :
    (names : List (List ℕ)) (name : List ℕ) (size : ℕ)
    → size ≡ length names
    → size + 1 ≡ length (names ++ (name ∷ []))
one_more names name size e = omega (arith, e, length-append names (name ∷ []))
