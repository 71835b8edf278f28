-- ===== src/ReadThread/Events.antt =====
-- What a read thread does with the contexts that it polls: `connector_poll_contexts` of
-- core/src/details/connection_utils.c, the handlers of
-- core/src/details/threadimpl/readthreadimpl.c and the loop over the polled contexts of
-- core/src/details/threadimpl/read_threads.c. What a call of poll gives is an input. The queue of
-- inbound messages is the list that MessageQueue refines to; the allocator has memory for a message.
use substance_3d_connector.Base.{
  ℕ, zero, suc, ◌+◌, ◌==◌, not, ◌||◌, true, if◌then◌else◌, List, [], ◌∷◌, ◌++◌, Option, none, some,
  get_or, bit_and,
}
use substance_3d_connector.Retcode.{Retcode, is_success}
use substance_3d_connector.Message.{Message}
use substance_3d_connector.Contexts.Types.{
  State, Connection, conn_open, conn_connected, context_state,
}
use substance_3d_connector.Contexts.Open.{context_accept}
use substance_3d_connector.Contexts.Close.{context_close, context_read}
use substance_3d_connector.ReadThread.{ReadThread, Poll, blank, poll_in}

abbrev pub poll_err : ℕ
poll_err = 0x008

abbrev pub poll_hup : ℕ
poll_hup = 0x010

-- SubstanceConnectorPollCode, as far as the code gives it.
pub data PollCode : Type 0 where
  esuccess timeout eunknown : PollCode

-- The result of a call of poll.
pub data Outcome : Type 0 where
  failed : (errno : ℕ) → Outcome
  nothing : Outcome
  ready : Outcome

-- A call of poll: its result, and what it leaves in the structures.
pub record Polled : Type 0 where
  pub outcome : Outcome
  pub revents : List ℕ

-- `convert_network_error` assigns to its argument, so that every error is the unknown one.
abbrev pub convert_network_error : ℕ → PollCode
convert_network_error errno = PollCode.eunknown

abbrev pub write_revents : List Poll → List ℕ → List Poll
write_revents [] rs = []
write_revents (p ∷ ps) [] = p ∷ ps
write_revents (p ∷ ps) (r ∷ rs) = record p { revents = r } ∷ write_revents ps rs

abbrev poll_code : Outcome → PollCode
poll_code (Outcome.failed errno) = convert_network_error errno
poll_code Outcome.nothing = PollCode.timeout
poll_code Outcome.ready = PollCode.esuccess

-- `connector_poll_contexts`; poll is not called for no context.
unfoldable pub poll_contexts : List Poll → ℕ → Polled → PollCode × List Poll
poll_contexts polls zero p = (PollCode.eunknown, polls)
poll_contexts polls (suc n) p = (poll_code p.outcome, write_revents polls p.revents)

-- A thread with what it works on.
pub record Reader (W : Type 0) : Type 0 where
  pub thread : ReadThread
  pub state : State W
  pub inbound : List Message

-- A message as `memset` leaves it, with the context.
abbrev pub empty_message : ℕ → Message
empty_message context = record {
  header = record {
    description = 0;
    message_length = 0;
    message_id = record { e0 = 0; e1 = 0; e2 = 0; e3 = 0 };
  };
  message = none;
  context = context;
}

module _ {W : Type 0} where
  -- What a read of a message gave.
  unfoldable pub finish_read : Reader W → Retcode × Option Message × State W → Retcode × Reader W
  finish_read r (code, none, s) = (code, record r { state = s })
  finish_read r (code, some m, s) = (
    code,
    record r { state = s; inbound = if is_success code then r.inbound ++ (m ∷ []) else r.inbound },
  )

  abbrev close_context : Reader W → ℕ → Reader W
  close_context r context = record r { state = (context_close r.state context).1 }

  -- `connector_read_thread_handle_poll` for the given number of contexts from an index on.
  unfoldable handle_poll : ℕ → ℕ → Retcode → Reader W → Retcode × Reader W
  handle_poll zero i code r = (code, r)
  handle_poll (suc n) i code r =
      let revents = (get_or r.thread.contexts i blank).revents in
      let context = get_or r.thread.context_ids i 0 in
      let (closed, s) = context_close r.state context in
      let ends = not (bit_and revents poll_err == 0) || not (bit_and revents poll_hup == 0) in
      handle_poll n (i + 1) (if ends then closed else code)
        (if ends then record r { state = s } else r)

module _ {W : Type 0} (ops : Connection W) where
  -- `connector_read_thread_handle_open`
  unfoldable pub handle_open : Reader W → ℕ → Retcode × Reader W
  handle_open r context =
      let (code, _, s) = context_accept ops r.state context true in (code, record r { state = s })

  -- `connector_read_thread_handle_connected`
  unfoldable pub handle_connected : Reader W → ℕ → Retcode × Reader W
  unfolding finish_read
  handle_connected r context =
      finish_read r (context_read ops r.state context (some (empty_message context)))

  -- `connector_read_thread_handle_context`
  unfoldable pub handle_context : Reader W → ℕ → Retcode × Reader W
  unfolding handle_open handle_connected
  handle_context r context =
      let opened = handle_open r context in
      let connected = handle_connected r context in
      if context_state r.state context == conn_open
      then opened
      else if context_state r.state context == conn_connected
      then connected
      else (Retcode.invalid, r)

  -- The body of the loop over the polled contexts. `connector_handle_error_disconnect` copies the
  -- name and frees the copy, so that only the close has an effect.
  unfoldable pub handle_event : ℕ → Reader W → Reader W
  unfolding handle_context
  handle_event i r =
      let revents = (get_or r.thread.contexts i blank).revents in
      let context = get_or r.thread.context_ids i 0 in
      let handled = (handle_context r context).1 in
      if not (bit_and revents poll_err == 0)
      then close_context r context
      else if not (bit_and revents poll_hup == 0)
      then close_context r context
      else if not (bit_and revents poll_in == 0)
      then handled
      else r

  -- The loop over the given number of contexts from an index on.
  unfoldable pub handle_events : ℕ → ℕ → Reader W → Reader W
  unfolding handle_event
  handle_events zero i r = r
  handle_events (suc n) i r = handle_events n (i + 1) (handle_event i r)
