-- ===== src/LockedQueue/Chain.antt =====
-- A chain of nodes that ends in a null pointer, and the list of its addresses and contents.
use substance_3d_connector.Base.{
  ℕ, ◌≡◌, ◌≢◌, refl, sym, ap, ◌∙◌, List, [], ◌∷◌, ◌++◌, Option, none, some, ==_refl, ne→==,
}
use substance_3d_connector.LockedQueue.{Node, Heap, LockedQueue, put, set_next}

module _ {A : Type 0} where
  -- From the pointer on, the nodes are those of the list, and the last one's successor is null.
  abbrev pub Chain : Heap A → Option ℕ → List (ℕ × A) → Type 0
  Chain h p [] = p ≡ none
  Chain h p ((a, v) ∷ xs) =
      (next : Option ℕ) × (p ≡ some a)
      × (h a ≡ some (record { next = next; contents = v }))
      × Chain h next xs

  -- The address is not that of a node of the list.
  abbrev pub Apart : ℕ → List (ℕ × A) → Type 0
  Apart a [] = Unit
  Apart a ((b, v) ∷ xs) = (a ≢ b) × Apart a xs

  abbrev pub Distinct : List (ℕ × A) → Type 0
  Distinct [] = Unit
  Distinct ((a, v) ∷ xs) = Apart a xs × Distinct xs

  -- The address of the last node.
  abbrev pub last : List (ℕ × A) → Option ℕ
  last [] = none
  last ((a, v) ∷ []) = some a
  last (x ∷ y ∷ xs) = last (y ∷ xs)

  -- The queue holds the list.
  pub record Holds (h : Heap A) (q : LockedQueue) (xs : List (ℕ × A)) : Type 0 where
    pub chain : Chain h q.front xs
    pub ended : q.end ≡ last xs
    pub distinct : Distinct xs

  -- A write elsewhere leaves a chain.
  pub Chain-put :
      (h : Heap A) (a : ℕ) (c : Option (Node A)) (p : Option ℕ) (xs : List (ℕ × A))
      → Apart a xs
      → Chain h p xs
      → Chain (put h a c) p xs
  Chain-put h a c p [] d e = e
  Chain-put h a c p ((b, v) ∷ xs) (ne, d) (next, e, at, rest) =
      (next, e, rw (ne→== b a (λ s. ne (sym s))) at, Chain-put h a c next xs d rest)

  -- The last node of a list that is not empty.
  abbrev pub last_of : ℕ × A → List (ℕ × A) → ℕ × A
  last_of x [] = x
  last_of x (y ∷ xs) = last_of y xs

  pub last-last_of : (x : ℕ × A) (xs : List (ℕ × A)) → last (x ∷ xs) ≡ some (last_of x xs).0
  last-last_of x [] = refl
  last-last_of x (y ∷ xs) = last-last_of y xs

  pub Apart-last_of :
      (a : ℕ) (x : ℕ × A) (xs : List (ℕ × A)) → Apart a (x ∷ xs) → a ≢ (last_of x xs).0
  Apart-last_of a x [] d = d.0
  Apart-last_of a x (y ∷ xs) d = Apart-last_of a y xs d.1

  -- Linking a node that stands alone behind the last one extends the chain by it.
  pub Chain-snoc :
      (h : Heap A) (p : Option ℕ) (x : ℕ × A) (xs : List (ℕ × A)) (a : ℕ) (v : A)
      → Chain h p (x ∷ xs)
      → Distinct (x ∷ xs)
      → Apart a (x ∷ xs)
      → h a ≡ some (record { next = none; contents = v })
      → let (end, w) = last_of x xs in
        (h end ≡ some (record { next = none; contents = w }))
        × Chain
            (put h end (some (record { next = some a; contents = w })))
            p
            ((x ∷ xs) ++ ((a, v) ∷ []))
  Chain-snoc h p (b, w) [] a v (next, e, at, final) d apart node = (
    at ∙ ap (λ n. some (record { next = n; contents = w })) final,
    (some a, e, rw (==_refl b) refl, (none, refl, rw (ne→== a b apart.0) node, refl)),
  )
  Chain-snoc h p (b, w) (y ∷ xs) a v (next, e, at, rest) d apart node =
      let (at_end, chain) = Chain-snoc h next y xs a v rest d.1 apart.1 node in
      (at_end, (next, e, rw (ne→== b (last_of y xs).0 (Apart-last_of b y xs d.0)) at, chain))

  pub Apart-snoc :
      (b a : ℕ) (v : A) (xs : List (ℕ × A)) → b ≢ a → Apart b xs → Apart b (xs ++ ((a, v) ∷ []))
  Apart-snoc b a v [] ne d = (ne, tt)
  Apart-snoc b a v (x ∷ xs) ne d = (d.0, Apart-snoc b a v xs ne d.1)

  pub Distinct-snoc :
      (a : ℕ) (v : A) (xs : List (ℕ × A))
      → Distinct xs
      → Apart a xs
      → Distinct (xs ++ ((a, v) ∷ []))
  Distinct-snoc a v [] d apart = (tt, tt)
  Distinct-snoc a v (x ∷ xs) d apart =
      (Apart-snoc x.0 a v xs (λ e. apart.0 (sym e)) d.0, Distinct-snoc a v xs d.1 apart.1)

  pub last-snoc : (a : ℕ) (v : A) (xs : List (ℕ × A)) → last (xs ++ ((a, v) ∷ [])) ≡ some a
  last-snoc a v [] = refl
  last-snoc a v (x ∷ []) = refl
  last-snoc a v (x ∷ y ∷ xs) = last-snoc a v (y ∷ xs)

  pub set_next-some :
      (h : Heap A) (a : ℕ) (next old : Option ℕ) (v : A)
      → h a ≡ some (record { next = old; contents = v })
      → set_next h a next ≡ some (put h a (some (record { next = next; contents = v })))
  unfolding set_next
  set_next-some h a next old v at = rw (set_next, at) refl
