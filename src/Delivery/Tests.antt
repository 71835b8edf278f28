-- ===== src/Delivery/Tests.antt =====
-- Two letters over a connection whose state is the list of the bytes on their way.
use substance_3d_connector.Base.{
  ℕ, ◌≡◌, refl, arith, true, false, List, [], ◌∷◌, none, some, replicate,
}
use substance_3d_connector.Retcode.{Retcode}
use substance_3d_connector.Uuid.{internal_log_uuid}
use substance_3d_connector.LockedQueue.Chain.{Holds}
use substance_3d_connector.MessageQueue.{QueueState, Queues}
use substance_3d_connector.Wire.Sample.{little_endian, loopback}
use substance_3d_connector.Contexts.Types.{zeroed, put_context}
use substance_3d_connector.Contexts.Starting.{started}
use substance_3d_connector.Sockets.{System, Directories, Undefined}
use substance_3d_connector.WriteThread.{Writer, write_round}
use substance_3d_connector.ReadThread.{Poll}
use substance_3d_connector.ReadThread.Events.{Reader}
use substance_3d_connector.Trampolines.{Trampolines}
use substance_3d_connector.Dispatch.{Dispatcher, dispatch_round}
use substance_3d_connector.Delivery.Channel.{Carries}
use substance_3d_connector.Delivery.Letters.{Letter, FitsUuid, IsPlain, heard, post_all}
use substance_3d_connector.Delivery.Whole.{
  reader_at, handle_again, here_ops, there_ops, messages_delivered,
}

-- No call of the system is made on the way.
abbrev silent : System (List ℕ)
silent = record {
  socket = λ w. (none, w);
  bind = λ w fd a. (false, w);
  getsockname = λ w fd. (none, w);
  listen = λ w fd. (false, w);
  connect = λ w fd a. (false, w);
  accept = λ w fd. (none, w);
  close = λ w fd. (false, w);
  unlink = λ w path. w;
  sun_path = 108;
}

abbrev no_directories : Directories (List ℕ)
no_directories = record {
  ensure_default_tcp = λ w. (Retcode.error, w);
  commit_open_tcp_port = λ w port. w;
  remove_open_tcp_port = λ w port. w;
  ensure_default_unix = λ w. (Retcode.error, w);
  build_default_unix_path = none;
}

abbrev nowhere : Undefined (List ℕ)
nowhere = record {
  at_context = λ w c. (Retcode.error, c, w);
  at_write = λ w c m. (Retcode.error, w);
  at_read = λ w c m. (Retcode.error, m, w);
}

abbrev pipe : Carries loopback loopback 5 7
pipe = record { queue = λ w. w; sends = λ w bytes. (refl, refl); receives = λ w n h. (refl, refl) }

abbrev first_letter : Letter
first_letter = record { node = 20; type = internal_log_uuid; text = 65 ∷ 66 ∷ [] }

abbrev second_letter : Letter
second_letter = record { node = 21; type = internal_log_uuid; text = [] }

abbrev idle_writer : Writer (List ℕ)
idle_writer = record {
  queues = record {
    state = QueueState.initialized;
    inbound = record { front = none; end = none };
    outbound = record { front = none; end = none };
    heap = λ a. none;
  };
  state = put_context (started []) 3 (record zeroed { configuration = 0x201; fd = 5 });
  stops = false;
}

abbrev polled : Poll
polled = record { fd = some 7; events = 1; revents = 1 }

abbrev idle_reader : Reader (List ℕ)
idle_reader = record {
  thread = record {
    contexts = replicate 17 polled;
    context_ids = 4 ∷ replicate 16 0;
    assigned_contexts = 1;
  };
  state = put_context (started []) 4 (record zeroed { configuration = 0x201; fd = 7 });
  inbound = [];
}

abbrev listening : Dispatcher (Unit {0})
listening = record {
  inbound = [];
  outbound = [];
  state = started tt;
  name = none;
  trampolines = Trampolines.nodes (8 ∷ 9 ∷ []);
  calls = [];
  signal_main = false;
  signals = 0;
}

log-Fits : FitsUuid internal_log_uuid
log-Fits = record { e0 = omega arith; e1 = omega arith; e2 = omega arith; e3 = omega arith }

first-IsPlain : IsPlain first_letter
first-IsPlain = record { uuid = log-Fits; short = omega arith; no_zero = omega arith }

second-IsPlain : IsPlain second_letter
second-IsPlain = record { uuid = log-Fits; short = omega arith; no_zero = tt }

messages_delivered_example :
    (q : Queues) × (a' : Writer (List ℕ)) × (b' : Reader (List ℕ)) × (d' : Dispatcher (Unit {0}))
    × (post_all 3 (first_letter ∷ second_letter ∷ []) idle_writer.queues ≡ some q)
    × (write_round
          (here_ops little_endian loopback loopback silent silent no_directories no_directories
            nowhere nowhere)
          (false ∷ [])
          2
          (record idle_writer { queues = q })
        ≡ some a')
    × (handle_again
          (there_ops little_endian loopback loopback silent silent no_directories no_directories
            nowhere nowhere)
          0
          2
          (reader_at idle_reader a'.state.world)
        ≡ b')
    × (dispatch_round [] (false ∷ false ∷ []) (record listening { inbound = b'.inbound })
        ≡ some (true, d'))
    × (d'.calls ≡ heard (8 ∷ 9 ∷ []) 4 (first_letter ∷ second_letter ∷ []))
    × (d'.outbound ≡ [])
    × (d'.state ≡ started tt)
    × (d'.inbound ≡ [])
    × (b'.state.world ≡ [])
    × Holds a'.queues.heap a'.queues.outbound []
messages_delivered_example =
    messages_delivered little_endian loopback loopback silent silent no_directories no_directories
      nowhere nowhere 3 4 0 first_letter (second_letter ∷ []) (8 ∷ 9 ∷ []) idle_writer idle_reader
      listening pipe (first-IsPlain, (second-IsPlain, tt)) (tt, ((omega arith, tt), tt))
      (record { chain = refl; ended = refl; distinct = tt })
      (record { in_range = refl; connected = refl; socket = refl })
      (record { in_range = refl; connected = refl; socket = refl }) refl refl refl refl refl
