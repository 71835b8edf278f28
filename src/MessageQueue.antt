-- ===== src/MessageQueue.antt =====
-- core/src/details/message_queue.c: the queues of inbound and outbound messages. The allocator
-- gives each node the address that is an argument of the call.
pub mod Fifo
pub mod Restart
mod Tests
use substance_3d_connector.Base.{ℕ, ◌>>=◌, Bool, true, false, if◌then◌else◌, Option, none, some}
use substance_3d_connector.Retcode.{Retcode}
use substance_3d_connector.Message.{Message}
use substance_3d_connector.LockedQueue
use substance_3d_connector.LockedQueue.{Heap, Node, LockedQueue, put, enqueue, dequeue, clear}

-- MessageQueueState
pub data QueueState : Type 0 where
  shutdown : QueueState
  init_started : QueueState
  initialized : QueueState
  shutdown_started : QueueState

abbrev pub same : QueueState → QueueState → Bool
same QueueState.shutdown QueueState.shutdown = true
same QueueState.init_started QueueState.init_started = true
same QueueState.initialized QueueState.initialized = true
same QueueState.shutdown_started QueueState.shutdown_started = true
same _ _ = false

-- The static variables, and the heap of the nodes.
pub record Queues : Type 0 where
  pub state : QueueState
  pub inbound : LockedQueue
  pub outbound : LockedQueue
  pub heap : Heap Message

-- `enqueue_message`
unfoldable pub enqueue_message :
    Heap Message → LockedQueue → ℕ → Message → Option (Heap Message × LockedQueue)
enqueue_message h q node message =
    enqueue (put h node (some (record { next = none; contents = message }))) q node

-- The end of `dequeue_message`: the node is released.
unfoldable pub take_message :
    Heap Message → Option ℕ × LockedQueue → Option (Option Message × Heap Message × LockedQueue)
take_message h (none, q) = some (none, h, q)
take_message h (some node, q) = elim (h node) [
  | none ↦ none
  | some n ↦ some (some n.contents, put h node none, q)
]

-- `dequeue_message`
unfoldable pub dequeue_message :
    Heap Message → LockedQueue → Option (Option Message × Heap Message × LockedQueue)
dequeue_message h q = dequeue h q >>= take_message h

-- `connector_enqueue_inbound_message` and its three siblings
unfoldable pub enqueue_inbound : ℕ → Message → Queues → Option Queues
enqueue_inbound node message s = do
  (h, q) ← enqueue_message s.heap s.inbound node message
  some (record s { heap = h; inbound = q })

unfoldable pub enqueue_outbound : ℕ → Message → Queues → Option Queues
enqueue_outbound node message s = do
  (h, q) ← enqueue_message s.heap s.outbound node message
  some (record s { heap = h; outbound = q })

unfoldable acquire_inbound : Queues → Option (Option Message × Queues)
acquire_inbound s = do
  (out, h, q) ← dequeue_message s.heap s.inbound
  some (out, record s { heap = h; inbound = q })

unfoldable pub acquire_outbound : Queues → Option (Option Message × Queues)
acquire_outbound s = do
  (out, h, q) ← dequeue_message s.heap s.outbound
  some (out, record s { heap = h; outbound = q })

-- `connector_init_message_queue_subsystem`
unfoldable pub init_message_queues : Queues → Retcode × Queues
init_message_queues s =
    if same s.state QueueState.shutdown
    then (
      Retcode.success,
      record s {
        state = QueueState.initialized;
        inbound = LockedQueue.init;
        outbound = LockedQueue.init;
      },
    )
    else (Retcode.error, s)

-- Both queues are cleared, with the rounds allowed to the two loops.
unfoldable pub clear_queues : ℕ → ℕ → Queues → Option (Retcode × Queues)
clear_queues n m s = do
  (h, inbound) ← clear n s.heap s.inbound
  (h', outbound) ← clear m h s.outbound
  some (
    Retcode.success,
    record { state = QueueState.shutdown; inbound = inbound; outbound = outbound; heap = h' },
  )

-- `connector_shutdown_message_queue_subsystem`
unfoldable pub shutdown_message_queues : ℕ → ℕ → Queues → Option (Retcode × Queues)
unfolding clear_queues
shutdown_message_queues n m s =
    let cleared = clear_queues n m s in
    if same s.state QueueState.initialized then cleared else some (Retcode.error, s)
