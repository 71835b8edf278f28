-- ===== src/WriteThread/Tests.antt =====
-- A write thread at a concrete queue.
use substance_3d_connector.Base.{
  ℕ, suc, ◌≡◌, refl, arith, ◌==◌, if◌then◌else◌, false, [], ◌∷◌, none, some,
}
use substance_3d_connector.Retcode.{Retcode}
use substance_3d_connector.Uuid.{internal_log_uuid}
use substance_3d_connector.Message.{Message, message_identifier}
use substance_3d_connector.LockedQueue.{Heap}
use substance_3d_connector.LockedQueue.Chain.{Holds}
use substance_3d_connector.MessageQueue.{QueueState}
use substance_3d_connector.Contexts.Types.{Connection, zeroed, put_context}
use substance_3d_connector.Contexts.Starting.{started}
use substance_3d_connector.WriteThread.{Writer, write_round}
use substance_3d_connector.WriteThread.Drain.{Written, write_round-writes}

-- A connection that counts its writes.
abbrev counting : Connection ℕ
counting = record {
  open_connection = λ w c. (Retcode.success, c, w);
  bridge_connection = λ w c. (Retcode.success, c, w);
  close_connection = λ w c. (Retcode.success, c, w);
  accept_connection = λ w c. (none, w);
  write_connection = λ w c m. (Retcode.success, suc w);
  read_connection = λ w c m. (Retcode.error, m, w);
}

abbrev letter : ℕ → Message
letter c = record {
  header = record {
    description = message_identifier;
    message_length = 1;
    message_id = internal_log_uuid;
  };
  message = some (65 ∷ []);
  context = c;
}

-- Nodes 9 and 5 are outbound.
abbrev two_letters : Heap Message
two_letters a =
    if a == 9
    then some (record { next = some 5; contents = letter 3 })
    else if a == 5
    then some (record { next = none; contents = letter 4 })
    else none

abbrev sending : Writer ℕ
sending = record {
  queues = record {
    state = QueueState.initialized;
    inbound = record { front = none; end = none };
    outbound = record { front = some 9; end = some 5 };
    heap = two_letters;
  };
  state = put_context (started 0) 3 (record zeroed { configuration = 0x201; fd = 5 });
  stops = false;
}

sending-Holds :
    Holds sending.queues.heap sending.queues.outbound ((9, letter 3) ∷ (5, letter 4) ∷ [])
sending-Holds = record {
  chain = (some 5, refl, refl, (none, refl, refl, refl));
  ended = refl;
  distinct = ((ground arith, tt), (tt, tt));
}

write_round-writes_example :
    (w' : Writer ℕ) × (write_round counting (false ∷ []) 2 sending ≡ some w')
    × Written counting sending ((9, letter 3) ∷ (5, letter 4) ∷ []) w'
write_round-writes_example =
    write_round-writes counting [] 2 9 (letter 3) ((5, letter 4) ∷ []) sending sending-Holds
      (omega arith)
