-- ===== src/UintQueue/Threads/Fifo.antt =====
-- What holds in every state that any number of threads can reach.
use native.Mathlib.Nat.{mod-lt}
use substance_3d_connector.Base.{
  ℕ, ◌+◌, ◌-◌, ◌%◌, ◌^◌, ◌<◌, ◌≡◌, ◌≢◌, refl, ap, ◌∙◌, ◌++◌, arith, length, take, drop,
  take-append-drop, length-replicate,
}
use substance_3d_connector.UintQueue.{push_store}
use substance_3d_connector.UintQueue.Inv.{add-mod-ne}
use substance_3d_connector.UintQueue.Threads.Defs.{System, init, Reach, start, later, Local, Inv}
use substance_3d_connector.UintQueue.Threads.Moves.{Step-Inv, Step-pushed, Step-size}

init-Inv : (size : ℕ) → 0 < size → Inv (init size)
init-Inv size h = record {
  sound = record {
    written = refl;
    taken = refl;
    behind = omega arith;
    ahead = omega arith;
    room = omega arith;
    storage = length-replicate size 0;
    stored = λ t a b. absurd (omega arith);
    prefix = refl;
  };
  local = λ i. tt;
  single = λ i j t a b. ground arith;
}

-- Every state that threads reach with fewer than 2 ^ 32 pushes so far satisfies the invariant.
pub Reach-Inv :
    {size : ℕ} {s : System} → 0 < size → Reach size s → length s.shared.pushed < 2 ^ 32 → Inv s
Reach-Inv {size} pos start h = init-Inv size pos
Reach-Inv pos (later r st) h = Step-Inv st h (Reach-Inv pos r (omega (arith, Step-pushed st)))

Reach-size : {size : ℕ} {s : System} → Reach size s → s.shared.size ≡ size
Reach-size start = refl
Reach-size (later r st) = Step-size st ∙ Reach-size r

-- Under any interleaving of pushes and pops, as long as fewer than 2 ^ 32 pushes have claimed a
-- ticket, the elements that pops have returned are the first of those pushed, each once and in
-- order, and at most `size - 1` elements that pushes claimed are not yet returned.
pub threads_fifo :
    {size : ℕ} {s : System}
    → 0 < size
    → Reach size s
    → length s.shared.pushed < 2 ^ 32
    → (s.shared.popped ++ drop (length s.shared.popped) s.shared.pushed ≡ s.shared.pushed)
      × (length s.shared.pushed < length s.shared.popped + size)
threads_fifo {s} pos r h =
    (returned_first, omega (arith, Reach-size r, written, taken, behind, ahead, room))
  where
    open (Reach-Inv pos r h).sound use {written, taken, behind, ahead, room, prefix}

    returned_first :
        s.shared.popped ++ drop (length s.shared.popped) s.shared.pushed ≡ s.shared.pushed
    returned_first =
        ap (λ l. l ++ drop (length s.shared.popped) s.shared.pushed)
          (prefix ∙ ap (λ n. take n s.shared.pushed) taken)
        ∙ take-append-drop (length s.shared.popped) s.shared.pushed

-- Two threads that are about to store an element write different slots, both inside the array.
stores_apart :
    {size : ℕ} {s : System}
    → 0 < size
    → Reach size s
    → length s.shared.pushed < 2 ^ 32
    → (i j x y v w : ℕ) → i ≢ j
    → s.pc i ≡ push_store x v
    → s.pc j ≡ push_store y w
    → (v % size ≢ w % size) × (v % size < size) × (length s.shared.array ≡ size)
stores_apart {size} {s} pos r h i j x y v w ne p q =
    let inv = Reach-Inv pos r h in
    let held_v : Local s.shared (push_store x v) = rw p at (inv.local i) in
    let held_w : Local s.shared (push_store y w) = rw q at (inv.local j) in
    ground (
      arith,
      inv.sound,
      inv.single i j v,
      held_v,
      held_w,
      Reach-size r,
      mod-lt v {m = size} pos,
      add-mod-ne v (w - v) size,
      add-mod-ne w (v - w) size,
    )
