-- ===== src/UintQueue/Calls.antt =====
-- A call of a thread that has the queue to itself, against a bounded first-in first-out list.
use native.Mathlib.Nat.{mod-eq_of_lt, add-mod_right}
use substance_3d_connector.Base.{
  ℕ, zero, suc, ◌+◌, ◌-◌, ◌%◌, ◌^◌, ◌<◌, ◌≡◌, refl, ap, ap₂, sym, ◌∙◌, ◌≢◌, List, [], ◌∷◌, ◌++◌,
  arith, length, get_or, set, length-set, u32, ◌==◌, ne→==, ==_refl, ℕ_discrete,
}
use substance_3d_connector.UintQueue.{
  UintQueue, push, pop, run, push_start, pop_start, push_done, pop_done, convert_to_index,
}
use substance_3d_connector.UintQueue.Fifo
use substance_3d_connector.UintQueue.Inv.{
  IsQuiet, contents, window, length-window, window-set, add-mod-ne,
}

-- `window` matches on `suc`, the code tests for zero.
window-nonzero :
    (array : List ℕ) (size t n : ℕ)
    → n ≢ 0
    → window array size t n ≡ get_or array (t % size) 0 ∷ window array size (t + 1) (n - 1)
window-nonzero array size t zero h = absurd (h refl)
window-nonzero array size t (suc n) h =
    ap₂ (λ a b. get_or array (t % size) 0 ∷ window array size a b) (omega arith) (omega arith)

module _ {q : UintQueue} (v : IsQuiet q) where
  open v use {committed, ordered, room, storage, small}
  open q use {write_index, read_index, size}

  abbrev held : ℕ
  held = write_index - read_index

  -- The test of the push for a full queue sees one free slot left.
  full_test :
      write_index + 1 < 2 ^ 32
      → (convert_to_index (u32 (write_index + 1)) size == convert_to_index read_index size)
        ≡ (write_index + 1 == read_index + size)
  full_test h = rw (mod-eq_of_lt h) (elim (ℕ_discrete (write_index + 1) (read_index + size)) [
    | yes e ↦ rw (e, add-mod_right) (==_refl _ ∙ sym (==_refl _))
    | no e ↦ rw (ne→== _ _ e) (ne→== _ _ (apart e))
  ])
    where
      apart : write_index + 1 ≢ read_index + size → (write_index + 1) % size ≢ read_index % size
      apart e h =
          add-mod-ne read_index (held + 1) size (omega arith) (omega arith)
            (ap (λ k. k % size) (omega arith) ∙ h)

  -- The test of the pop for an empty queue.
  empty_test : (convert_to_index read_index size == convert_to_index q.max_index size) ≡ (held == 0)
  empty_test = rw committed (elim (ℕ_discrete held 0) [
    | yes e ↦ let same : read_index ≡ write_index = omega arith in rw (e, same) (==_refl _)
    | no e ↦ rw (ne→== _ _ e) (ne→== _ _ (apart e))
  ])
    where
      apart : held ≢ 0 → read_index % size ≢ write_index % size
      apart e h =
          add-mod-ne read_index held size (omega arith) (omega arith)
            (ap (λ k. k % size) (omega arith) ∙ sym h)

  length-contents : length (contents q) ≡ held
  length-contents = length-window q.array size read_index held

  -- On a quiet queue, where no call is under way and no index has wrapped, a push alone behaves as the
  -- bounded list, one slot being left unused, and leaves the queue quiet, as long as the write index
  -- stays below `2 ^ 32`.
  pub push_refines :
      (x : ℕ)
      → write_index + 1 < 2 ^ 32
      → let (code, q') = push q x in
        ((code, contents q') ≡ Fifo.push (size - 1) (contents q) x) × IsQuiet q'
  unfolding push Fifo.push
  push_refines x h = ground (
    arith,
    full_test h,
    length-contents,
    mod-eq_of_lt h,
    length-set q.array (convert_to_index write_index size) x,
    added,
  )
    where
      added :
          window (set q.array (write_index % size) x) size read_index (suc held)
          ≡ contents q ++ (x ∷ [])
      added =
          window-set q.array size x read_index held write_index (omega arith) (omega arith) storage

  -- On a quiet queue, where no call is under way and no index has wrapped, a pop alone gives the oldest
  -- element and leaves the rest, or reports an error when the queue is empty; it leaves the queue
  -- quiet.
  pub pop_refines :
      let (code, out, q') = pop q in ((code, out, contents q') ≡ Fifo.pop (contents q)) × IsQuiet q'
  unfolding pop Fifo.pop
  pop_refines = ground (arith, empty_test, window-nonzero q.array size read_index held)

  -- Five accesses complete a push.
  run-push : (x : ℕ) → run 5 (push_start x) q ≡ (push_done (push q x).0, (push q x).1)
  unfolding push run
  run-push x = ground arith

  -- Four complete a pop.
  pub run-pop : run 4 pop_start q ≡ (pop_done (pop q).0 (pop q).1, (pop q).2)
  unfolding pop run
  run-pop = ground arith
