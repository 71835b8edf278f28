-- ===== src/Dispatch.antt =====
-- core/src/details/dispatch.c and core/src/details/internal_messages.c: a thread that handles the
-- inbound messages, those of the library itself by the callbacks of a table, the others by the
-- trampolines. The queues of messages are the lists that MessageQueue refines to; the allocator has
-- memory for a message; the values of the shutdown code are inputs.
pub mod Handling
pub mod Exchange
mod Tests
use substance_3d_connector.Base.{
  ℕ, zero, suc, ◌+◌, ◌>>=◌, Bool, true, false, if◌then◌else◌, List, [], ◌∷◌, ◌++◌, Option, none,
  some,
}
use substance_3d_connector.Retcode.{Retcode}
use substance_3d_connector.Uuid.{Uuid, Sign, compare_uuid, internal_handshake_uuid}
use substance_3d_connector.Message.{Message, build_message, identify_internal}
use substance_3d_connector.Contexts.Types.{State}
use substance_3d_connector.Contexts.Close.{set_application_name}
use substance_3d_connector.Trampolines.{Trampolines, Call, notify_trampolines}

-- The queues, the contexts, the name of this application, the trampolines, and the calls of them
-- that were made; whether the main thread is signalled, and the broadcasts to it.
pub record Dispatcher (W : Type 0) : Type 0 where
  pub inbound : List Message
  pub outbound : List Message
  pub state : State W
  pub name : Option (List ℕ)
  pub trampolines : Trampolines
  pub calls : List Call
  pub signal_main : Bool
  pub signals : ℕ

-- The callbacks of the table `internal_messages`.
pub data Callback : Type 0 where
  handshake : Callback

-- A search of the table, which has one element.
unfoldable pub find_callback : Uuid → Option Callback
find_callback type = elim (compare_uuid internal_handshake_uuid type) [
  | Sign.nought ↦ some Callback.handshake
  | _ ↦ none
]

-- A message that could be built is enqueued.
abbrev pub reply : Option Message → List Message → List Message
reply none ms = ms
reply (some m) ms = ms ++ (m ∷ [])

module _ {W : Type 0} where
  -- The name that came in is kept for the context, if a message could be built with it.
  abbrev register : ℕ → Option (List ℕ) → Option Message → State W → State W
  register context text none s = s
  register context text (some m) s = (set_application_name s context text).1

  -- `internal_handshake_callback`
  unfoldable pub handshake_callback : ℕ → Option (List ℕ) → Dispatcher W → Dispatcher W
  handshake_callback context text d = record d {
    outbound = reply (build_message true context (some internal_handshake_uuid) d.name) d.outbound;
    state =
        register context text (build_message true context (some internal_handshake_uuid) text)
          d.state;
  }

  -- The call of the callback that was found.
  unfoldable pub call_found :
      Option Callback → ℕ → Option (List ℕ) → Dispatcher W → Retcode × Dispatcher W
  unfolding handshake_callback
  call_found none context text d = (Retcode.error, d)
  call_found (some Callback.handshake) context text d =
      (Retcode.success, handshake_callback context text d)

  -- `connector_call_internal_message`
  unfoldable pub call_internal_message :
      ℕ → Uuid → Option (List ℕ) → Dispatcher W → Retcode × Dispatcher W
  unfolding call_found
  call_internal_message context type text d = call_found (find_callback type) context text d

  -- The trampolines hear of a message; `none` when they were released, and for a message without a
  -- text, which no read gives.
  unfoldable pub notify : ℕ → Uuid → Option (List ℕ) → Dispatcher W → Option (Dispatcher W)
  notify context type none d = none
  notify context type (some text) d = do
    calls ← notify_trampolines context type text d.trampolines
    some (record d { calls = d.calls ++ calls })

  -- The body of the loop of `dispatch_routine` over the messages.
  unfoldable pub handle_message : Message → Dispatcher W → Option (Dispatcher W)
  unfolding call_internal_message notify
  handle_message m d =
      let (code, called) = call_internal_message m.context m.header.message_id m.message d in
      let notified = notify m.context m.header.message_id m.message d in
      if identify_internal m.header.description then some called else notified

  -- `connector_acquire_inbound_message` on the list.
  abbrev acquire_inbound_of : Dispatcher W → Option Message × Dispatcher W
  acquire_inbound_of d = elim d.inbound [
    | [] ↦ (none, d)
    | m ∷ ms ↦ (some m, record d { inbound = ms })
  ]

  -- `dispatch_signal_main_condition`
  unfoldable pub signal_main_condition : Dispatcher W → Dispatcher W
  signal_main_condition d = record d { signals = d.signals + (if d.signal_main then 1 else 0) }

  -- The loop of `dispatch_routine` over the messages and the signal behind it, with the values of the shutdown code before
  -- them: whether the thread goes on. A message that was acquired when the code is seen is lost.
  unfoldable pub dispatch_loop :
      List Bool → Option Message × Dispatcher W → Option (Bool × Dispatcher W)
  unfolding handle_message signal_main_condition
  dispatch_loop flags (none, d) = some (true, signal_main_condition d)
  dispatch_loop [] (some m, d) = none
  dispatch_loop (true ∷ flags) (some m, d) = some (false, signal_main_condition d)
  dispatch_loop (false ∷ flags) (some m, d) =
      handle_message m d >>= λ d'. dispatch_loop flags (acquire_inbound_of d')

  -- The acquiring after a wait, which signals when there is nothing.
  abbrev signal_idle : Option Message × Dispatcher W → Option Message × Dispatcher W
  signal_idle (none, d) = (none, signal_main_condition d)
  signal_idle (some m, d) = (some m, d)

  -- The wait for a message, with the values of the code after the waits.
  unfoldable pub await_message :
      List Bool → Option Message × Dispatcher W → Option (Bool × Option Message × Dispatcher W)
  await_message flags (some m, d) = some (true, some m, d)
  await_message [] (none, d) = none
  await_message (true ∷ flags) (none, d) = some (false, none, d)
  await_message (false ∷ flags) (none, d) = await_message flags (signal_idle (acquire_inbound_of d))

  -- The loop after the wait.
  unfoldable pub after_await :
      List Bool → Bool × Option Message × Dispatcher W → Option (Bool × Dispatcher W)
  unfolding dispatch_loop
  after_await flags (false, m, d) = some (false, d)
  after_await flags (true, m, d) = dispatch_loop flags (m, d)

  -- One round of the routine.
  unfoldable pub dispatch_round :
      List Bool → List Bool → Dispatcher W → Option (Bool × Dispatcher W)
  unfolding await_message after_await
  dispatch_round waits flags d = await_message waits (acquire_inbound_of d) >>= after_await flags
