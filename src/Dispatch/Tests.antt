-- ===== src/Dispatch/Tests.antt =====
-- A dispatch thread at concrete messages.
use substance_3d_connector.Base.{◌≡◌, refl, arith, true, false, [], ◌∷◌, some}
use substance_3d_connector.Uuid.{internal_handshake_uuid, internal_log_uuid}
use substance_3d_connector.Message.{Message, message_identifier, build_message}
use substance_3d_connector.Contexts.Types.{get_application_name}
use substance_3d_connector.Contexts.Close.{mark_internal}
use substance_3d_connector.Contexts.Starting.{started}
use substance_3d_connector.Trampolines.{Trampolines, calls}
use substance_3d_connector.Dispatch.{Dispatcher, dispatch_round, handle_message}
use substance_3d_connector.Dispatch.Handling.{
  all_calls, all_replies, all_named, dispatch_round-handles,
}
use substance_3d_connector.Dispatch.Exchange.{arrives_at, handshake_of, handshake_exchanged}

abbrev log_message : Message
log_message = record {
  header = record {
    description = message_identifier;
    message_length = 1;
    message_id = internal_log_uuid;
  };
  message = some (76 ∷ []);
  context = 2;
}

-- A handshake and another message wait; the trampoline 7 is registered.
abbrev waiting : Dispatcher (Unit {0})
waiting = record {
  inbound = mark_internal (handshake_of 1 (65 ∷ [])) ∷ log_message ∷ [];
  outbound = [];
  state = started tt;
  name = some (66 ∷ []);
  trampolines = Trampolines.nodes (7 ∷ []);
  calls = [];
  signal_main = true;
  signals = 0;
}

dispatch_round-handles_example :
    dispatch_round (false ∷ []) (false ∷ false ∷ []) waiting
    ≡ some (
      true,
      record waiting {
        inbound = [];
        outbound = all_replies (some (66 ∷ [])) waiting.inbound;
        state = all_named waiting.inbound waiting.state;
        calls = all_calls (7 ∷ []) waiting.inbound;
        signals = 1;
      },
    )
dispatch_round-handles_example =
    dispatch_round-handles (false ∷ []) (7 ∷ []) (mark_internal (handshake_of 1 (65 ∷ [])))
      (log_message ∷ []) waiting refl refl ((65 ∷ [], refl), ((76 ∷ [], refl), tt))

handshake_exchanged_example :
    (there' : Dispatcher (Unit {0})) × (here' : Dispatcher (Unit {0})) × (build_message true 4
        (some internal_handshake_uuid)
        (some (65 ∷ []))
      ≡ some (handshake_of 4 (65 ∷ [])))
    × (handle_message (arrives_at 1 (mark_internal (handshake_of 4 (65 ∷ [])))) waiting
        ≡ some there')
    × (get_application_name there'.state 1 ≡ some (65 ∷ []))
    × (there'.calls ≡ [])
    × (there'.outbound ≡ (handshake_of 1 (66 ∷ []) ∷ []))
    × (handle_message (arrives_at 4 (handshake_of 1 (66 ∷ []))) waiting ≡ some here')
    × (here'.calls ≡ calls 4 internal_handshake_uuid (66 ∷ []) (7 ∷ []))
    × (here'.outbound ≡ [])
handshake_exchanged_example =
    handshake_exchanged (65 ∷ []) (66 ∷ []) 4 1 (7 ∷ []) waiting waiting (omega arith) refl refl
      refl
