-- ===== src/LockedQueue/Tests.antt =====
-- The queue at concrete heaps.
use substance_3d_connector.Base.{
  ℕ, ◌==◌, ◌≡◌, refl, arith, if◌then◌else◌, List, [], ◌∷◌, Option, none, some,
}
use substance_3d_connector.LockedQueue.{Heap, LockedQueue, enqueue, dequeue}
use substance_3d_connector.LockedQueue.Chain.{Holds, Apart}
use substance_3d_connector.LockedQueue.Refine.{enqueue_refines, dequeue_refines, DequeueOf}

-- The nodes 5 and 9 are in the queue, 7 is not.
abbrev heap : Heap ℕ
heap a =
    if a == 5
    then some (record { next = some 9; contents = 50 })
    else if a == 9
    then some (record { next = none; contents = 90 })
    else if a == 7
    then some (record { next = some 1; contents = 70 })
    else none

abbrev queue : LockedQueue
queue = record { front = some 5; end = some 9 }

abbrev cells : List (ℕ × ℕ)
cells = (5, 50) ∷ (9, 90) ∷ []

queue-Holds : Holds heap queue cells
queue-Holds = record {
  chain = (some 9, refl, refl, (none, refl, refl, refl));
  ended = refl;
  distinct = ((ground arith, tt), (tt, tt));
}

apart : Apart 7 cells
apart = (ground arith, (ground arith, tt))

enqueue_refines_example :
    (h' : Heap ℕ) × (q' : LockedQueue) × (enqueue heap queue 7 ≡ some (h', q'))
    × Holds h' q' ((5, 50) ∷ (9, 90) ∷ (7, 70) ∷ [])
enqueue_refines_example = enqueue_refines heap queue cells 7 (some 1) 70 queue-Holds apart refl

dequeue_refines_example :
    (out : Option ℕ) × (q' : LockedQueue) × (dequeue heap queue ≡ some (out, q'))
    × DequeueOf heap cells out q'
dequeue_refines_example = dequeue_refines heap queue cells queue-Holds
