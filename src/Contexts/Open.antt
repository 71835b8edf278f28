-- ===== src/Contexts/Open.antt =====
-- The operations of core/src/details/context_queue.c that take a context from the free queue.
use substance_3d_connector.Base.{
  ℕ, ltb, ◌==◌, ◌&&◌, Bool, true, false, if◌then◌else◌, List, Option, none, some, set, u32, bit_and,
  bit_or,
}
use substance_3d_connector.Retcode.{Retcode, is_success}
use substance_3d_connector.UintQueue
use substance_3d_connector.AvailableQueue.{context_count}
use substance_3d_connector.Contexts.Types.{
  Context, zeroed, comm_tcp, comm_unix, comm_mask, conn_open, conn_connected, not_conn_mask,
  Description, Connection, State, context_at, put_context, append_available, context_state,
  context_type,
}

-- A code, what is written through the out parameter, and the state.
abbrev pub Outcome : Type 0 → Type 0
Outcome W = Retcode × Option ℕ × State W

-- The structure that an open or a connect prepares.
abbrev pub prepared : Description → Context
prepared d = record zeroed {
  configuration = bit_or (bit_and d.configuration comm_mask) conn_open;
  connection_data = d.connection_data;
  port = d.port;
}

-- What a connect makes of the structure on a success.
abbrev pub connected : Context → Context
connected c = record c {
  configuration = bit_or (bit_and c.configuration not_conn_mask) conn_connected;
  connection_data = none;
}

-- The out parameter of a pop, whose variable starts at 0.
abbrev pub popped_or_zero : Option ℕ → ℕ
popped_or_zero none = 0
popped_or_zero (some context) = context

abbrev pub tcp_description : ℕ → Description
tcp_description port = record { configuration = comm_tcp; connection_data = none; port = u32 port }

abbrev pub unix_description : Option (List ℕ) → Description
unix_description filepath = record {
  configuration = comm_unix;
  connection_data = filepath;
  port = 0;
}

module _ {W : Type 0} where
  -- `context_op_generic`
  unfoldable pub context_op :
      (W → Context → Retcode × Context × W) → State W → ℕ → Retcode × State W
  context_op op s context =
      let (code, c, w) = op s.world (context_at s context) in
      if ltb context context_count
      then (code, record s { context_list = set s.context_list context c; world = w })
      else (Retcode.error, s)

  -- The end of an open: a failure clears the context and gives it back.
  unfoldable pub finish_open : ℕ → Retcode × State W → Outcome W
  finish_open context (code, s) =
      if is_success code then (code, some context, append_available s context) else (
        code,
        none,
        let s' = put_context s context zeroed in
            record s' { free_contexts = (UintQueue.push s'.free_contexts context).1 },
      )

  -- The end of a connect: a failure gives the context back as it is.
  unfoldable pub finish_connect : ℕ → Retcode × State W → Outcome W
  finish_connect context (code, s) =
      if is_success code
      then (
        code,
        some context,
        append_available (put_context s context (connected (context_at s context))) context,
      )
      else (code, none, record s { free_contexts = (UintQueue.push s.free_contexts context).1 })

  -- The end of an accept, with the descriptor of the incoming connection.
  unfoldable pub finish_accept : State W → ℕ → Option ℕ → Outcome W
  finish_accept s context none = (Retcode.open_fail, none, s)
  finish_accept s context (some fd) =
      let (code, popped, free) = UintQueue.pop s.free_contexts in
      let s' = record s { free_contexts = free } in
      let context_id = popped_or_zero popped in
      let c = record (context_at s' context_id) {
        configuration = bit_or (context_type s' context) conn_connected;
        fd = fd;
      } in
      (Retcode.success, some context_id, append_available (put_context s' context_id c) context_id)

module _ {W : Type 0} (ops : Connection W) where
  -- `connector_context_open`; the flag says whether the identifier's pointer is not null.
  unfoldable pub context_open : State W → Option Description → Bool → Outcome W
  unfolding finish_open context_op
  context_open s none identifier = (Retcode.error, none, s)
  context_open s (some d) false = (Retcode.error, none, s)
  context_open s (some d) true =
      let (code, popped, free) = UintQueue.pop s.free_contexts in
      let s' = record s { free_contexts = free } in
      let context = popped_or_zero popped in
      if is_success code
      then finish_open context
          (context_op ops.open_connection (put_context s' context (prepared d)) context)
      else (code, none, s')

  -- `connector_context_connect` does not look at the code of its pop: on a failure the context
  -- is 0.
  unfoldable pub context_connect : State W → Option Description → Bool → Outcome W
  unfolding finish_connect context_op
  context_connect s none identifier = (Retcode.error, none, s)
  context_connect s (some d) false = (Retcode.error, none, s)
  context_connect s (some d) true =
      let (code, popped, free) = UintQueue.pop s.free_contexts in
      let s' = record s { free_contexts = free } in
      let context = popped_or_zero popped in
      finish_connect context
        (context_op ops.bridge_connection (put_context s' context (prepared d)) context)

  -- `connector_context_accept`
  unfoldable pub context_accept : State W → ℕ → Bool → Outcome W
  unfolding finish_accept
  context_accept s context identifier =
      let (fd, w) = ops.accept_connection s.world (context_at s context) in
      let accepted = finish_accept (record s { world = w }) context fd in
      if ltb context context_count && identifier && context_state s context == conn_open
      then accepted
      else (Retcode.invalid, none, s)

  unfoldable pub context_open_tcp : State W → ℕ → Bool → Outcome W
  context_open_tcp s port = context_open s (some (tcp_description port))

  unfoldable pub context_open_unix : State W → Option (List ℕ) → Bool → Outcome W
  context_open_unix s filepath = context_open s (some (unix_description filepath))

  unfoldable pub context_connect_tcp : State W → ℕ → Bool → Outcome W
  context_connect_tcp s port = context_connect s (some (tcp_description port))

  unfoldable pub context_connect_unix : State W → Option (List ℕ) → Bool → Outcome W
  context_connect_unix s filepath = context_connect s (some (unix_description filepath))
