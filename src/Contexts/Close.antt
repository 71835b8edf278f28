-- ===== src/Contexts/Close.antt =====
-- The other operations of core/src/details/context_queue.c: closing, giving back, names, messages,
-- and the initialisation.
use substance_3d_connector.Base.{
  ℕ, zero, suc, ◌+◌, ltb, ◌==◌, ◌&&◌, ◌||◌, not, Bool, true, if◌then◌else◌, List, [], ◌∷◌, ◌++◌,
  Option, none, some, set, replicate, bit_and, bit_or,
}
use substance_3d_connector.Retcode.{Retcode, is_success}
use substance_3d_connector.Uuid.{internal_handshake_uuid, internal_connection_closed_uuid}
use substance_3d_connector.Message.{Message, build_message, internal_identifier}
use substance_3d_connector.UintQueue
use substance_3d_connector.UintQueue.{UintQueue, create, live, null, freed}
use substance_3d_connector.AvailableQueue.{context_count}
use substance_3d_connector.Contexts.Types.{
  Context, zeroed, conn_open, conn_connected, conn_shutdown, conn_mask, handshake_sent,
  handshake_mask, Notice, Connection, State, context_at, put_context,
}

-- What the trampolines hear of a context that ends.
abbrev pub note_closed : ℕ → Option (List ℕ) → List Notice → List Notice
note_closed context none notices = notices
note_closed context (some name) notices =
    notices
    ++ (record { context = context; kind = internal_connection_closed_uuid; text = name } ∷ [])

abbrev pub mark_internal : Message → Message
mark_internal m = record m {
  header = record (m.header) { description = bit_or m.header.description internal_identifier };
}

module _ {W : Type 0} where
  -- The end of `connector_context_write_handshake`, on what the write gave.
  unfoldable pub note_handshake : ℕ → Retcode × State W → Retcode × State W
  note_handshake context (code, s) =
      let c = context_at s context in
      if is_success code
      then (
        code,
        put_context s context (record c { configuration = bit_or c.configuration handshake_sent }),
      )
      else (code, s)

  -- `connector_context_close`
  unfoldable pub context_close : State W → ℕ → Retcode × State W
  context_close s context =
      let c = context_at s context in
      let state = bit_and c.configuration conn_mask in
      if ltb context context_count
        && (not (bit_and state conn_open == 0) || not (bit_and state conn_connected == 0))
      then (
        Retcode.success,
        put_context s context (record c { configuration = bit_or c.configuration conn_shutdown }),
      )
      else (Retcode.error, s)

  -- `connector_return_context`
  unfoldable return_context : State W → ℕ → Retcode × State W
  return_context s context =
      let (code, free) = UintQueue.push s.free_contexts context in
      (code, record s { free_contexts = free })

  -- `connector_context_set_application_name`
  unfoldable pub set_application_name : State W → ℕ → Option (List ℕ) → Retcode × State W
  set_application_name s context none = (Retcode.error, s)
  set_application_name s context (some name) =
      if ltb context context_count
      then (
        Retcode.success,
        put_context s context (record (context_at s context) { application_name = some name }),
      )
      else (Retcode.error, s)

  -- A message operation on a connected context: `context_message_op_generic`, which leaves the
  -- state alone otherwise. The result of the operation goes with its code.
  unfoldable pub message_op {ℓ} :
      {A : Type ℓ}
      → State W
      → ℕ
      → Option Message
      → A
      → (W → Context → Message → Retcode × A × W)
      → Retcode × A × State W
  message_op s context none idle op = (Retcode.error, idle, s)
  message_op s context (some m) idle op =
      let (code, result, w) = op s.world (context_at s context) m in
      if ltb context context_count
      then if bit_and (context_at s context).configuration conn_mask == conn_connected
        then (code, result, record s { world = w })
        else (Retcode.invalid, idle, s)
      else (Retcode.error, idle, s)

module _ {W : Type 0} (ops : Connection W) where
  -- `connector_context_shutdown_from_read_thread`: the trampolines hear of a context with a name
  -- before the context is cleared and given back.
  unfoldable pub shutdown_from_read_thread : State W → ℕ → Retcode × State W
  shutdown_from_read_thread s context =
      let (code, c, w) = ops.close_connection s.world (context_at s context) in
      if ltb context context_count
      then (
        code,
        record s {
          context_list = set s.context_list context zeroed;
          free_contexts = (UintQueue.push s.free_contexts context).1;
          notices = note_closed context c.application_name s.notices;
          world = w;
        },
      )
      else (Retcode.error, s)

  -- `connector_context_write` and `connector_context_read`; a read fills in the message.
  unfoldable pub context_write : State W → ℕ → Option Message → Retcode × State W
  unfolding message_op
  context_write s context message =
      let (code, _, s') =
        message_op s context message (tt {0})
          (λ w c m. let (code, w') = ops.write_connection w c m in (code, tt, w')) in
      (code, s')

  unfoldable pub context_read : State W → ℕ → Option Message → Retcode × Option Message × State W
  unfolding message_op
  context_read s context message =
      message_op s context message message
        (λ w c m. let (code, m', w') = ops.read_connection w c m in (code, some m', w'))

  -- The message of the handshake, which is sent unless it could not be built.
  unfoldable pub send_handshake : State W → ℕ → Option Message → Retcode × State W
  unfolding note_handshake context_write
  send_handshake s context none = (Retcode.error, s)
  send_handshake s context (some m) =
      note_handshake context (context_write s context (some (mark_internal m)))

  -- `connector_context_write_handshake` with the name of this application.
  unfoldable pub write_handshake : Option (List ℕ) → State W → ℕ → Retcode × State W
  unfolding send_handshake
  write_handshake name s context =
      let c = context_at s context in
      let sent =
        send_handshake s context (build_message true context (some internal_handshake_uuid) name) in
      if ltb context context_count
      then if bit_and c.configuration handshake_mask == handshake_sent
        then (Retcode.success, s)
        else if bit_and c.configuration conn_mask == conn_connected
        then sent
        else (Retcode.success, s)
      else (Retcode.error, s)

-- The loop that fills the free queue from the given identifier on.
unfoldable pub push_from : ℕ → ℕ → UintQueue → UintQueue
push_from zero i q = q
push_from (suc n) i q = push_from n (i + 1) (UintQueue.push q i).1

-- `connector_init_context_subsystem`, where the two flags say whether the allocator has memory for the
-- queue and for its array; `none` is a push into a queue that was released. The queue of available
-- contexts belongs to another subsystem, which is started later.
unfoldable pub init_contexts : {W : Type 0} → Bool → Bool → W → Option (Retcode × Option (State W))
unfolding push_from
init_contexts struct_memory array_memory w =
    elim (create struct_memory array_memory context_count) [
      | live q ↦ some (
        Retcode.success,
        some (record {
          context_list = replicate context_count zeroed;
          free_contexts = push_from context_count 0 q;
          available = none;
          notices = [];
          world = w;
        }),
      )
      | null ↦ some (Retcode.error, none)
      | freed ↦ none
    ]

-- `connector_shutdown_context_subsystem`: what is left of the subsystem.
unfoldable shutdown_contexts : {W : Type 0} → Option (State W) → Retcode × Option (State W)
shutdown_contexts none = (Retcode.error, none)
shutdown_contexts (some s) = (Retcode.success, none)
