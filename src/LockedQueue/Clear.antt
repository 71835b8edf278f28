-- ===== src/LockedQueue/Clear.antt =====
-- Clearing the queue releases its nodes and forgets only the front.
use substance_3d_connector.Base.{
  ℕ, suc, ◌≡◌, refl, sym, ◌∙◌, List, [], ◌∷◌, Option, none, some, ==_refl, ne→==, length,
}
use substance_3d_connector.LockedQueue.{
  Node, Heap, LockedQueue, put, set_next, link, enqueue, clear, clear_loop,
}
use substance_3d_connector.LockedQueue.Chain.{
  Chain, Apart, Distinct, Holds, last, last_of, last-last_of, Chain-put, set_next-some,
  Apart-last_of,
}

module _ {A : Type 0} where
  -- The nodes of the list are released.
  abbrev pub Released : Heap A → List (ℕ × A) → Type 0
  Released h [] = Unit
  Released h ((a, v) ∷ xs) = (h a ≡ none) × Released h xs

  Cleared : Heap A → Heap A → List (ℕ × A) → Type 0
  Cleared h h' xs = Released h' xs × ((b : ℕ) → Apart b xs → h' b ≡ h b)

  clear_loop-releases :
      (h : Heap A) (p : Option ℕ) (xs : List (ℕ × A))
      → Chain h p xs
      → Distinct xs
      → (h' : Heap A) × (clear_loop (suc (length xs)) h p ≡ some h') × Cleared h h' xs
  unfolding Cleared clear_loop
  clear_loop-releases h p [] e d = (h, rw e refl, (tt, λ b apart. refl))
  clear_loop-releases h p ((a, v) ∷ xs) (next, e, at, rest) d =
      let (h', done, (freed, same)) =
        clear_loop-releases (put h a none) next xs (Chain-put h a none next xs d.0 rest) d.1 in
      (
        h',
        rw (e, clear_loop, at) done,
        (
          (same a d.0 ∙ rw (==_refl a) refl, freed),
          λ b apart. same b apart.1 ∙ rw (ne→== b a apart.0) refl,
        ),
      )

  pub clear_releases :
      (h : Heap A) (q : LockedQueue) (xs : List (ℕ × A))
      → Holds h q xs
      → (h' : Heap A) × (clear (suc (length xs)) h q
          ≡ some (h', record { front = none; end = last xs }))
        × Released h' xs
        × ((b : ℕ) → Apart b xs → h' b ≡ h b)
  unfolding clear Cleared
  clear_releases h q xs holds =
      let (h', done, (freed, same)) = clear_loop-releases h q.front xs holds.chain holds.distinct in
      (h', rw (done, holds.ended) refl, freed, same)

  -- The loop of a clear of a queue with a list ends within one round more than there are nodes and
  -- touches no released node; it releases the nodes of the list, leaves any other, and the front is
  -- then null, while the end still points at the last of the released nodes.
  clear_refines :
      (h : Heap A) (q : LockedQueue) (xs : List (ℕ × A)) (b : ℕ)
      → Holds h q xs
      → Apart b xs
      → (h' : Heap A) × (clear (suc (length xs)) h q
          ≡ some (h', record { front = none; end = last xs }))
        × Released h' xs
        × (h' b ≡ h b)
  clear_refines h q xs b holds apart =
      let (h', done, freed, same) = clear_releases h q xs holds in (h', done, freed, same b apart)

  Released-last_of :
      (h : Heap A) (x : ℕ × A) (xs : List (ℕ × A)) → Released h (x ∷ xs) → h (last_of x xs).0 ≡ none
  Released-last_of h x [] freed = freed.0
  Released-last_of h x (y ∷ xs) freed = Released-last_of h y xs freed.1

  -- After a clear of a queue that was not empty, the next enqueue writes into a released node.
  pub enqueue-clear_dangles :
      (h : Heap A) (q : LockedQueue) (x : ℕ × A) (xs : List (ℕ × A)) (a : ℕ) (n : Node A)
      → Holds h q (x ∷ xs)
      → Apart a (x ∷ xs)
      → h a ≡ some n
      → (h' : Heap A) × (q' : LockedQueue) × (clear (suc (length (x ∷ xs))) h q ≡ some (h', q'))
        × (h' a ≡ some n)
        × (enqueue h' q' a ≡ none)
  unfolding enqueue link set_next
  enqueue-clear_dangles h q x xs a n holds apart node =
      let (h', done, freed, same) = clear_refines h q (x ∷ xs) a holds apart in
      (
        h',
        record { front = none; end = last (x ∷ xs) },
        done,
        same ∙ node,
        rw
            (
              set_next-some h' a none n.next n.contents (same ∙ node),
              last-last_of x xs,
              set_next,
              ne→== (last_of x xs).0 a (λ e. Apart-last_of a x xs apart (sym e)),
              Released-last_of h' x xs freed,
            )
            refl,
      )
