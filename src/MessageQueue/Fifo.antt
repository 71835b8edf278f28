-- ===== src/MessageQueue/Fifo.antt =====
-- A queue of messages gives them in the order in which they came.
use substance_3d_connector.Base.{ℕ, ◌≡◌, refl, ==_refl, List, [], ◌∷◌, ◌++◌, Option, none, some}
use substance_3d_connector.Message.{Message}
use substance_3d_connector.LockedQueue.{Heap, Node, LockedQueue, put}
use substance_3d_connector.LockedQueue.Chain.{Apart, Holds, Chain-put}
use substance_3d_connector.LockedQueue.Refine.{enqueue_refines, dequeue_refines}
use substance_3d_connector.MessageQueue.{enqueue_message, dequeue_message, take_message}

abbrev Cells : Type 0
Cells = List (ℕ × Message)

Holds-put :
    (h : Heap Message) (q : LockedQueue) (xs : Cells) (a : ℕ) (c : Option (Node Message))
    → Apart a xs
    → Holds h q xs
    → Holds (put h a c) q xs
Holds-put h q xs a c apart holds = record {
  chain = Chain-put h a c q.front xs apart holds.chain;
  ended = holds.ended;
  distinct = holds.distinct;
}

-- A message that is enqueued in a node that the queue does not use comes behind the others, and
-- no released node is touched.
pub enqueue_message_refines :
    (h : Heap Message) (q : LockedQueue) (xs : List (ℕ × Message)) (a : ℕ) (m : Message)
    → Holds h q xs
    → Apart a xs
    → (h' : Heap Message) × (q' : LockedQueue) × (enqueue_message h q a m ≡ some (h', q'))
      × Holds h' q' (xs ++ ((a, m) ∷ []))
unfolding enqueue_message
enqueue_message_refines h q xs a m holds apart =
    enqueue_refines (put h a (some (record { next = none; contents = m }))) q xs a none m
      (Holds-put h q xs a _ apart holds) apart (rw (==_refl a) refl)

-- A queue that holds messages gives the oldest one, releases its node and keeps the others in
-- their order.
pub dequeue_message_refines :
    (h : Heap Message) (q : LockedQueue) (xs : List (ℕ × Message)) (a : ℕ) (m : Message)
    → Holds h q ((a, m) ∷ xs)
    → (q' : LockedQueue) × (dequeue_message h q ≡ some (some m, put h a none, q'))
      × Holds (put h a none) q' xs
unfolding dequeue_message take_message
dequeue_message_refines h q xs a m holds =
    let (out, q', done, (next, given, at, rest)) = dequeue_refines h q ((a, m) ∷ xs) holds in
    (q', rw (done, given, take_message, at) refl, Holds-put h q' xs a none holds.distinct.0 rest)
