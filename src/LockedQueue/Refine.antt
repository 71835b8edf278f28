-- ===== src/LockedQueue/Refine.antt =====
-- The queue in its heap against the list of its nodes.
use substance_3d_connector.Base.{
  ℕ, ◌≡◌, refl, sym, List, [], ◌∷◌, ◌++◌, Option, none, some, ==_refl,
}
use substance_3d_connector.LockedQueue.{Heap, LockedQueue, put, link, enqueue, dequeue}
use substance_3d_connector.LockedQueue.Chain.{
  Apart, Holds, last_of, last-last_of, Chain-put, Chain-snoc, set_next-some, Distinct-snoc,
  last-snoc,
}

module _ {A : Type 0} where
  -- An enqueue of a node that the queue does not hold yet never touches a released node, and it
  -- puts the node with its contents behind the others.
  pub enqueue_refines :
      (h : Heap A) (q : LockedQueue) (xs : List (ℕ × A)) (a : ℕ) (next : Option ℕ) (v : A)
      → Holds h q xs
      → Apart a xs
      → h a ≡ some (record { next = next; contents = v })
      → (h' : Heap A) × (q' : LockedQueue) × (enqueue h q a ≡ some (h', q'))
        × Holds h' q' (xs ++ ((a, v) ∷ []))
  unfolding enqueue link
  enqueue_refines h q [] a next v holds apart node = (
    put h a (some (record { next = none; contents = v })),
    record { front = some a; end = some a },
    rw (set_next-some h a none next v node, holds.ended, holds.chain) refl,
    record { chain = (none, refl, rw (==_refl a) refl, refl); ended = refl; distinct = (tt, tt) },
  )
  enqueue_refines h q (x ∷ xs) a next v holds apart node =
      let (next_front, e, at_front, rest) = holds.chain in
      let h1 : Heap A = put h a (some (record { next = none; contents = v })) in
      let (end, w) : ℕ × A = last_of x xs in
      let (at_end, chain) =
        Chain-snoc h1 (some x.0) x xs a v
          (Chain-put h a _ (some x.0) (x ∷ xs) apart (next_front, refl, at_front, rest))
          holds.distinct apart (rw (==_refl a) refl) in
      (
        put h1 (last_of x xs).0 (some (record { next = some a; contents = (last_of x xs).1 })),
        record { front = some x.0; end = some a },
        rw
            (
              set_next-some h a none next v node,
              holds.ended,
              last-last_of x xs,
              set_next-some h1 (last_of x xs).0 (some a) none _ at_end,
              e,
            )
            refl,
        record {
          chain = chain;
          ended = sym (last-snoc a v (x ∷ xs));
          distinct = Distinct-snoc a v (x ∷ xs) holds.distinct apart;
        },
      )

  -- What a dequeue of a queue with the list gives.
  abbrev pub DequeueOf : Heap A → List (ℕ × A) → Option ℕ → LockedQueue → Type 0
  DequeueOf h [] out q = (out ≡ none) × Holds h q []
  DequeueOf h ((a, v) ∷ xs) out q =
      (next : Option ℕ) × (out ≡ some a)
      × (h a ≡ some (record { next = next; contents = v }))
      × Holds h q xs

  -- A dequeue of an empty queue gives no node and changes nothing; otherwise it gives the oldest
  -- node, whose contents are those that were enqueued, and leaves the others in their order.
  pub dequeue_refines :
      (h : Heap A) (q : LockedQueue) (xs : List (ℕ × A))
      → Holds h q xs
      → (out : Option ℕ) × (q' : LockedQueue) × (dequeue h q ≡ some (out, q'))
        × DequeueOf h xs out q'
  unfolding dequeue
  dequeue_refines h q [] holds = (none, q, rw holds.chain refl, (refl, holds))
  dequeue_refines h q ((a, v) ∷ []) holds =
      let (next, e, at, rest) = holds.chain in
      (
        some a,
        record { front = none; end = none },
        rw (dequeue, e, at, rest) refl,
        (next, refl, at, record { chain = refl; ended = refl; distinct = tt }),
      )
  dequeue_refines h q ((a, v) ∷ y ∷ xs) holds =
      let (next, e, at, rest) = holds.chain in
      (
        some a,
        record { front = next; end = q.end },
        rw (dequeue, e, at, rest.1) refl,
        (next, refl, at, record { chain = rest; ended = holds.ended; distinct = holds.distinct.1 }),
      )
