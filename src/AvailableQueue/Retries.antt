-- ===== src/AvailableQueue/Retries.antt =====
-- The retries change nothing for a thread that has the queue to itself.
use substance_3d_connector.Base.{
  ℕ, zero, suc, ◌≡◌, refl, arith, ◌⊎◌, inl, inr, ◌∙◌, sym, ap, none, some,
}
use substance_3d_connector.Retcode.{Retcode}
use substance_3d_connector.UintQueue
use substance_3d_connector.UintQueue.{UintQueue}
use substance_3d_connector.AvailableQueue.{pop, pop_loop}

-- A pop that fails leaves the queue as it was.
pop-fails :
    (q : UintQueue)
    → (UintQueue.pop q ≡ (Retcode.error, none, q)) ⊎ ((UintQueue.pop q).0 ≡ Retcode.success)
unfolding UintQueue.pop
pop-fails q = ground arith

pop_loop-fails :
    (n : ℕ) (q : UintQueue)
    → UintQueue.pop q ≡ (Retcode.error, none, q)
    → pop_loop n q ≡ (Retcode.error, none, q)
unfolding pop_loop
pop_loop-fails zero q e = refl
pop_loop-fails (suc n) q e = rw e (pop_loop-fails n q e)

pop_loop-succeeds :
    (n : ℕ) (q : UintQueue)
    → (UintQueue.pop q).0 ≡ Retcode.success
    → pop_loop (suc n) q ≡ UintQueue.pop q
unfolding pop_loop
pop_loop-succeeds n q e = ground arith

pop_loop-once : (n : ℕ) (q : UintQueue) → pop_loop (suc n) q ≡ UintQueue.pop q
pop_loop-once n q = elim (pop-fails q) [
  | inl e ↦ pop_loop-fails (suc n) q e ∙ sym e
  | inr e ↦ pop_loop-succeeds n q e
]

-- Without other threads the five attempts of a pop give what one gives.
pop-retries :
    (q : UintQueue) → let (code, out, q') = UintQueue.pop q in pop (some q) ≡ (code, out, some q')
unfolding pop
pop-retries q = ap (λ r. (r.0, r.1, some r.2)) (pop_loop-once 4 q)
