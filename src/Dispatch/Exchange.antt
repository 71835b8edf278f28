-- ===== src/Dispatch/Exchange.antt =====
-- The exchange of a handshake between two applications.
use substance_3d_connector.Base.{
  ℕ, true, ◌<◌, u32, ◌≡◌, refl, arith, lt→ltb, List, [], ◌∷◌, ◌++◌, some, get_or-set_self, length,
}
use substance_3d_connector.Uuid.{internal_handshake_uuid, compare_uuid}
use substance_3d_connector.Message.{Message, build_message, message_identifier}
use substance_3d_connector.AvailableQueue.{context_count}
use substance_3d_connector.Contexts.Types.{get_application_name, zeroed}
use substance_3d_connector.Contexts.Close.{mark_internal, set_application_name}
use substance_3d_connector.Trampolines.{Trampolines, calls, notify_trampolines}
use substance_3d_connector.Dispatch.{
  Dispatcher, handle_message, find_callback, call_internal_message, call_found, handshake_callback,
  notify,
}

-- The other application gets a message with the identifier of its own context for it.
abbrev pub arrives_at : ℕ → Message → Message
arrives_at context m = record m { context = context }

-- The message of a handshake, as it is built.
abbrev pub handshake_of : ℕ → List ℕ → Message
handshake_of context name = record {
  header = record {
    description = message_identifier;
    message_length = u32 (length name);
    message_id = internal_handshake_uuid;
  };
  message = some name;
  context = context;
}

module _ {V W : Type 0} where
  -- The handshake that an application with a name builds and marks for a context makes the other
  -- application, which has a name too, keep the name that came for its own context, without a call
  -- of its trampolines, and answer with one message; that answer makes each trampoline of the first
  -- application hear the other's name once, and is not answered in turn. The other context is below
  -- the count.
  pub handshake_exchanged :
      (a b : List ℕ) (i c : ℕ) (ts : List ℕ) (here : Dispatcher V) (there : Dispatcher W)
      → c < context_count
      → length there.state.context_list ≡ context_count
      → there.name ≡ some b
      → here.trampolines ≡ Trampolines.nodes ts
      → (there' : Dispatcher W) × (here' : Dispatcher V) × (build_message true i
            (some internal_handshake_uuid)
            (some a)
          ≡ some (handshake_of i a))
        × (handle_message (arrives_at c (mark_internal (handshake_of i a))) there ≡ some there')
        × (get_application_name there'.state c ≡ some a)
        × (there'.calls ≡ there.calls)
        × (there'.outbound ≡ there.outbound ++ (handshake_of c b ∷ []))
        × (handle_message (arrives_at i (handshake_of c b)) here ≡ some here')
        × (here'.calls ≡ here.calls ++ calls i internal_handshake_uuid b ts)
        × (here'.outbound ≡ here.outbound)
  unfolding handle_message call_internal_message call_found handshake_callback notify
      notify_trampolines build_message find_callback compare_uuid set_application_name
  handshake_exchanged a b i c ts here there valid complete named live = (
    record there {
      outbound = there.outbound ++ (handshake_of c b ∷ []);
      state = (set_application_name there.state c (some a)).1;
    },
    record here { calls = here.calls ++ calls i internal_handshake_uuid b ts },
    refl,
    rw named refl,
    rw
        (
          lt→ltb c context_count valid,
          get_or-set_self there.state.context_list c _ zeroed (omega (arith, valid, complete)),
        )
        refl,
    refl,
    refl,
    rw live refl,
    refl,
    refl,
  )
