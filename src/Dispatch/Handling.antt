-- ===== src/Dispatch/Handling.antt =====
-- What the handling of a queue of inbound messages amounts to.
use substance_3d_connector.Base.{
  ℕ, suc, ◌+◌, ◌≡◌, refl, arith, sym, ap, ◌∙◌, if◌then◌else◌, Bool, Bool-cases, inl, inr, true,
  false, ◌&&◌, List, [], ◌∷◌, ◌++◌, append_nil, Option, none, some, length, replicate,
}
use substance_3d_connector.Uuid.{Sign, compare_uuid, internal_handshake_uuid}
use substance_3d_connector.Message.{Message, build_message, identify_internal}
use substance_3d_connector.Contexts.Types.{State}
use substance_3d_connector.Contexts.Close.{set_application_name}
use substance_3d_connector.Trampolines.{Trampolines, Call, calls, notify_trampolines}
use substance_3d_connector.Dispatch.{
  Dispatcher, find_callback, reply, handshake_callback, call_found, call_internal_message, notify,
  handle_message, dispatch_loop, dispatch_round, await_message, after_await, signal_main_condition,
}
use mathlib.Core.List.{append_assoc}

-- What one message adds to the calls of the trampolines: one call of each for a message that is not
-- an internal one.
abbrev calls_of : List ℕ → Message → List Call
calls_of ts m = elim m.message [
  | none ↦ []
  | some text ↦
      if identify_internal m.header.description
      then []
      else calls m.context m.header.message_id text ts
]

-- Whether the message is a handshake of the other side.
abbrev is_handshake : Message → Bool
is_handshake m =
    identify_internal m.header.description
    && elim (compare_uuid internal_handshake_uuid m.header.message_id) [
      | Sign.nought ↦ true
      | _ ↦ false
    ]

-- What one message adds to the outbound queue: a reply to a handshake.
abbrev replies_to : Option (List ℕ) → Message → List Message
replies_to name m =
    if is_handshake m
    then reply (build_message true m.context (some internal_handshake_uuid) name) []
    else []

-- A handshake names its context.
abbrev pub named : {W : Type 0} → Message → State W → State W
named m s = if is_handshake m then (set_application_name s m.context m.message).1 else s

abbrev pub all_calls : List ℕ → List Message → List Call
all_calls ts [] = []
all_calls ts (m ∷ ms) = calls_of ts m ++ all_calls ts ms

abbrev pub all_replies : Option (List ℕ) → List Message → List Message
all_replies name [] = []
all_replies name (m ∷ ms) = replies_to name m ++ all_replies name ms

abbrev pub all_named : {W : Type 0} → List Message → State W → State W
all_named [] s = s
all_named (m ∷ ms) s = all_named ms (named m s)

-- Every message has a text.
abbrev pub Texts : List Message → Type 0
Texts [] = Unit
Texts (m ∷ ms) = ((text : List ℕ) × (m.message ≡ some text)) × Texts ms

reply-append : (m : Option Message) (ms : List Message) → reply m ms ≡ ms ++ reply m []
reply-append none ms = sym (append_nil ms)
reply-append (some m) ms = refl

module _ {W : Type 0} where
  -- The dispatcher after a message, and after the messages.
  abbrev after_one : List ℕ → Message → Dispatcher W → Dispatcher W
  after_one ts m d = record d {
    outbound = d.outbound ++ replies_to d.name m;
    state = named m d.state;
    calls = d.calls ++ calls_of ts m;
  }

  abbrev after_all : List ℕ → List Message → Dispatcher W → Dispatcher W
  after_all ts ms d = record d {
    outbound = d.outbound ++ all_replies d.name ms;
    state = all_named ms d.state;
    calls = d.calls ++ all_calls ts ms;
  }

  -- The dispatcher when the messages are handled and the main thread is signalled.
  abbrev settled : List ℕ → List Message → Dispatcher W → Dispatcher W
  settled ts ms d = record (after_all ts ms d) {
    inbound = [];
    signals = d.signals + (if d.signal_main then 1 else 0);
  }

  internal-one :
      (sign : Sign) (m : Message) (d : Dispatcher W) (ts text : List ℕ)
      → identify_internal m.header.description ≡ true
      → m.message ≡ some text
      → compare_uuid internal_handshake_uuid m.header.message_id ≡ sign
      → (call_internal_message m.context m.header.message_id m.message d).1 ≡ after_one ts m d
  unfolding call_internal_message call_found find_callback handshake_callback build_message
  internal-one Sign.nought m d ts text e full same = ground (
    arith,
    reply-append (build_message true m.context (some internal_handshake_uuid) d.name) d.outbound,
    append_nil d.calls,
  )
  internal-one Sign.negative m d ts text e full same =
      ground (arith, append_nil d.calls, append_nil d.outbound)
  internal-one Sign.positive m d ts text e full same =
      ground (arith, append_nil d.calls, append_nil d.outbound)

  handle_message-one :
      (ts : List ℕ) (m : Message) (d : Dispatcher W) (text : List ℕ)
      → d.trampolines ≡ Trampolines.nodes ts
      → m.message ≡ some text
      → handle_message m d ≡ some (after_one ts m d)
  unfolding handle_message notify notify_trampolines
  handle_message-one ts m d text live full =
      elim (Bool-cases (identify_internal m.header.description)) [
        | inl e ↦ ground (arith, internal-one _ m d ts text e full refl)
        | inr e ↦ ground (arith, append_nil d.outbound)
      ]

  after_one-all :
      (ts : List ℕ) (m : Message) (ms : List Message) (d : Dispatcher W)
      → after_all ts ms (after_one ts m d) ≡ after_all ts (m ∷ ms) d
  after_one-all ts m ms d = rw (append_assoc d.outbound, append_assoc d.calls) refl

  dispatch_loop-handles :
      (ts : List ℕ) (xs : List Message) (m : Message) (d : Dispatcher W)
      → d.trampolines ≡ Trampolines.nodes ts
      → Texts (m ∷ xs)
      → dispatch_loop (replicate (suc (length xs)) false) (some m, record d { inbound = xs })
        ≡ some (true, settled ts (m ∷ xs) d)
  unfolding dispatch_loop signal_main_condition
  dispatch_loop-handles ts [] m d live ((text, full), rest) =
      rw (handle_message-one ts m (record d { inbound = [] }) text live full)
        (rw (append_nil (replies_to d.name m), append_nil (calls_of ts m)) refl)
  dispatch_loop-handles ts (x ∷ xs) m d live ((text, full), rest) =
      rw (handle_message-one ts m (record d { inbound = x ∷ xs }) text live full) (
        dispatch_loop-handles ts xs x (after_one ts m d) live rest
        ∙ ap (λ (e : Dispatcher W). some (true, signal_main_condition (record e { inbound = [] })))
            (after_one-all ts m (x ∷ xs) d))

  -- A dispatch thread that finds messages handles each of them once, in the order in which they
  -- came, and then goes on with an empty inbound queue: each trampoline hears once of each message
  -- that is not an internal one, in that order; each handshake is answered by a message with this
  -- application's name, if it has one, and gives its context the name that came in; the main
  -- thread is signalled once at the end, if that is configured; nothing else changes. The messages have texts, the trampolines are live, and the shutdown code is not seen.
  pub dispatch_round-handles :
      (waits : List Bool) (ts : List ℕ) (m : Message) (xs : List Message) (d : Dispatcher W)
      → d.trampolines ≡ Trampolines.nodes ts
      → d.inbound ≡ m ∷ xs
      → Texts (m ∷ xs)
      → dispatch_round waits (replicate (suc (length xs)) false) d
        ≡ some (
          true,
          record d {
            inbound = [];
            outbound = d.outbound ++ all_replies d.name (m ∷ xs);
            state = all_named (m ∷ xs) d.state;
            calls = d.calls ++ all_calls ts (m ∷ xs);
            signals = d.signals + (if d.signal_main then 1 else 0);
          },
        )
  unfolding dispatch_round await_message after_await
  dispatch_round-handles waits ts m xs d live waiting texts =
      rw (dispatch_round, waiting) (dispatch_loop-handles ts xs m d live texts)
