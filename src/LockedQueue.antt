-- ===== src/LockedQueue.antt =====
-- core/src/details/locked_queue.c: the linked queue under a lock. Every operation holds the lock
-- from its first to its last access, so an operation is one step. The nodes are in a heap; what
-- reads or writes a node that was released gives `none`.
pub mod Chain
pub mod Refine
pub mod Clear
mod Tests
use substance_3d_connector.Base.{ℕ, zero, suc, ◌>>=◌, ◌==◌, Bool, if◌then◌else◌, Option, none, some}

-- `connector_locked_queue_node_t`
pub record Node {ℓ} (A : Type ℓ) : Type ℓ where
  pub next : Option ℕ
  pub contents : A

abbrev pub Heap {ℓ} : Type ℓ → Type ℓ
Heap A = ℕ → Option (Node A)

-- The front and the end of `connector_locked_queue_t`.
pub record LockedQueue : Type 0 where
  pub front : Option ℕ
  pub end : Option ℕ

abbrev or_else : Option ℕ → ℕ → Option ℕ
or_else none node = some node
or_else (some front) node = some front

-- `connector_locked_queue_init`
abbrev pub init : LockedQueue
init = record { front = none; end = none }

-- The queue after its front left, with the successor of that node.
abbrev advance_front : LockedQueue → Option ℕ → LockedQueue
advance_front q none = record { front = none; end = none }
advance_front q (some next) = record q { front = some next }

module _ {ℓ} {A : Type ℓ} where
  abbrev pub put : Heap A → ℕ → Option (Node A) → Heap A
  put h a v k = if k == a then v else h k

  -- `node->next = next`
  unfoldable pub set_next : Heap A → ℕ → Option ℕ → Option (Heap A)
  set_next h a next = elim (h a) [
    | none ↦ none
    | some n ↦ some (put h a (some (record n { next = next })))
  ]

  -- The end's successor is written when there is an end.
  unfoldable pub link : Option ℕ → ℕ → Heap A → Option (Heap A)
  link none node h = some h
  link (some end) node h = set_next h end (some node)

  -- `connector_locked_enqueue`
  unfoldable pub enqueue : Heap A → LockedQueue → ℕ → Option (Heap A × LockedQueue)
  enqueue h q node = do
    h' ← set_next h node none
    h'' ← link q.end node h'
    some (h'', record { front = or_else q.front node; end = some node })

  -- `connector_locked_dequeue`
  unfoldable pub dequeue : Heap A → LockedQueue → Option (Option ℕ × LockedQueue)
  dequeue h q = elim q.front [
    | none ↦ some (none, q)
    | some node ↦ elim (h node) [ none ↦ none | some n ↦ some (some node, advance_front q n.next) ]
  ]

  -- The loop of `connector_locked_queue_clear` from the given front on, for the rounds that are
  -- left, with a handler that releases the node; `none` also when the rounds run out.
  unfoldable pub clear_loop : ℕ → Heap A → Option ℕ → Option (Heap A)
  clear_loop zero h front = none
  clear_loop (suc n) h none = some h
  clear_loop (suc n) h (some node) = elim (h node) [
    | none ↦ none
    | some c ↦ clear_loop n (put h node none) c.next
  ]

  -- `connector_locked_queue_clear`: the end stays what it was.
  unfoldable pub clear : ℕ → Heap A → LockedQueue → Option (Heap A × LockedQueue)
  clear n h q = do h' ← clear_loop n h q.front; some (h', record { front = none; end = q.end })
