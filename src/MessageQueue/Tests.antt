-- ===== src/MessageQueue/Tests.antt =====
-- The queues of messages at a concrete heap.
use substance_3d_connector.Base.{ℕ, ◌≡◌, refl, [], ◌∷◌, none, some, arith, ◌==◌, if◌then◌else◌}
use substance_3d_connector.Retcode.{Retcode}
use substance_3d_connector.Uuid.{internal_log_uuid}
use substance_3d_connector.Message.{Message, message_identifier}
use substance_3d_connector.LockedQueue.{Heap, LockedQueue}
use substance_3d_connector.LockedQueue.Chain.{Holds}
use substance_3d_connector.LockedQueue.Clear.{Released}
use substance_3d_connector.MessageQueue.{
  QueueState, Queues, init_message_queues, shutdown_message_queues,
}
use substance_3d_connector.MessageQueue.Restart.{restart_empty}

abbrev hello : ℕ → Message
hello c = record {
  header = record {
    description = message_identifier;
    message_length = 1;
    message_id = internal_log_uuid;
  };
  message = some (65 ∷ []);
  context = c;
}

-- Node 5 is inbound and node 9 outbound.
abbrev heap : Heap Message
heap a =
    if a == 5
    then some (record { next = none; contents = hello 1 })
    else if a == 9
    then some (record { next = none; contents = hello 2 })
    else none

abbrev only : ℕ → LockedQueue
only a = record { front = some a; end = some a }

inbound-Holds : Holds heap (only 5) ((5, hello 1) ∷ [])
inbound-Holds = record { chain = (none, refl, refl, refl); ended = refl; distinct = (tt, tt) }

outbound-Holds : Holds heap (only 9) ((9, hello 2) ∷ [])
outbound-Holds = record { chain = (none, refl, refl, refl); ended = refl; distinct = (tt, tt) }

abbrev both : Queues
both = record { state = QueueState.initialized; inbound = only 5; outbound = only 9; heap = heap }

restart_empty_example :
    (s' : Queues) × (shutdown_message_queues 2 2 both ≡ some (Retcode.success, s'))
    × Released s'.heap ((9, hello 2) ∷ [])
    × (s'.inbound.end ≡ some 5)
    × (s'.outbound.end ≡ some 9)
    × ((init_message_queues s').0 ≡ Retcode.success)
    × Holds (init_message_queues s').1.heap (init_message_queues s').1.inbound []
    × Holds (init_message_queues s').1.heap (init_message_queues s').1.outbound []
restart_empty_example =
    restart_empty both ((5, hello 1) ∷ []) ((9, hello 2) ∷ []) refl inbound-Holds outbound-Holds
      ((ground arith, tt), tt)
