-- ===== src/Contexts/Closing.antt =====
-- What closing a context and ending it from its read thread do.
use substance_3d_connector.Base.{
  append_nil, set-set, ℕ, ◌+◌, ◌^◌, ◌<◌, ◌≡◌, ◌⊎◌, inl, inr, ◌==◌, refl, arith, sym, lt→ltb, false,
  List, [], ◌∷◌, ◌++◌, Option, none, some, get_or, set, get_or-set_self, ap, ◌∙◌, length, bit_and,
  bit_or,
}
use substance_3d_connector.Retcode.{Retcode}
use substance_3d_connector.Uuid.{internal_connection_closed_uuid}
use substance_3d_connector.Message.{Message}
use substance_3d_connector.UintQueue.Fifo
use substance_3d_connector.UintQueue.Inv.{IsQuiet, contents}
use substance_3d_connector.UintQueue.Calls.{push_refines}
use substance_3d_connector.AvailableQueue.{context_count}
use substance_3d_connector.Contexts.Types.{
  Notice, Context, zeroed, put_context, State, Connection, context_at, context_state, conn_open,
  conn_connected, conn_shutdown, conn_mask,
}
use substance_3d_connector.Contexts.Config.{closes}
use substance_3d_connector.Contexts.Close.{
  note_closed, context_close, context_write, message_op, shutdown_from_read_thread,
}

-- One notice for a context with a name, none for one without.
abbrev closing_notices : ℕ → Option (List ℕ) → List Notice
closing_notices context none = []
closing_notices context (some name) =
    record { context = context; kind = internal_connection_closed_uuid; text = name } ∷ []

note_closed-append :
    (context : ℕ) (name : Option (List ℕ)) (notices : List Notice)
    → note_closed context name notices ≡ notices ++ closing_notices context name
note_closed-append context none notices = sym (append_nil notices)
note_closed-append context (some name) notices = refl

module _ {W : Type 0} (ops : Connection W) (s : State W) (context : ℕ) where
  -- Ending a context from its read thread clears it, whatever the code of the close, hands its
  -- identifier back as the last of the free queue, announces the end once if and only if the
  -- context had a name, with that name, and changes no other context. The identifier is below the
  -- count, the free queue has room and is away from the wrap. The name is the one that the close
  -- leaves in the structure.
  pub shutdown_from_read_thread-frees :
      context < context_count
      → length s.context_list ≡ context_count
      → IsQuiet s.free_contexts
      → s.free_contexts.write_index + 1 < 2 ^ 32
      → length (contents s.free_contexts) + 1 < s.free_contexts.size
      → let (code, s') = shutdown_from_read_thread ops s context in
        (code ≡ (ops.close_connection s.world (context_at s context)).0)
        × (context_at s' context ≡ zeroed)
        × (contents s'.free_contexts ≡ contents s.free_contexts ++ (context ∷ []))
        × IsQuiet s'.free_contexts
        × (s'.notices
            ≡ s.notices
              ++ closing_notices context
                  (ops.close_connection s.world (context_at s context)).1.application_name)
        × (set s'.context_list context zeroed ≡ set s.context_list context zeroed)
  unfolding shutdown_from_read_thread Fifo.push
  shutdown_from_read_thread-frees bound complete quiet far room = rw (lt→ltb _ _ bound) (
    refl,
    get_or-set_self s.context_list context zeroed zeroed (omega arith),
    ground (arith, push_refines quiet context far),
    (push_refines quiet context far).1,
    note_closed-append context _ s.notices,
    set-set s.context_list context zeroed zeroed,
  )

-- What a write on a context that is not connected gives.
abbrev write_refusal : Option Message → Retcode
write_refusal none = Retcode.error
write_refusal (some m) = Retcode.invalid

abbrev marked : {W : Type 0} → State W → ℕ → Context
marked s context = record (context_at s context) {
  configuration = bit_or (context_at s context).configuration conn_shutdown;
}

unfoldable pub IsLive : ℕ → Type 0
IsLive c = (bit_and c conn_mask ≡ conn_open) ⊎ (bit_and c conn_mask ≡ conn_connected)

marked_state :
    (c : ℕ)
    → c < 4096
    → IsLive c
    → bit_and (bit_or c conn_shutdown) conn_mask ≡ bit_and c conn_mask + conn_shutdown
unfolding IsLive
marked_state c small (inl e) = (closes c small).of_open e ∙ sym (ap (λ x. x + conn_shutdown) e)
marked_state c small (inr e) = (closes c small).of_connected e ∙ sym (ap (λ x. x + conn_shutdown) e)

marked_apart :
    (c : ℕ)
    → c < 4096
    → IsLive c
    → (bit_and (bit_or c conn_shutdown) conn_mask == conn_connected) ≡ false
unfolding IsLive
marked_apart c small (inl e) =
    let r : bit_and (bit_or c conn_shutdown) conn_mask ≡ conn_open + conn_shutdown =
      (closes c small).of_open e in
    rw r refl
marked_apart c small (inr e) =
    let r : bit_and (bit_or c conn_shutdown) conn_mask ≡ conn_connected + conn_shutdown =
      (closes c small).of_connected e in
    rw r refl

close-marks :
    {W : Type 0} (s : State W) (context : ℕ)
    → context < context_count
    → IsLive (context_at s context).configuration
    → context_close s context ≡ (Retcode.success, put_context s context (marked s context))
unfolding context_close IsLive
close-marks s context bound (inl e) = rw (lt→ltb _ _ bound, e) refl
close-marks s context bound (inr e) = rw (lt→ltb _ _ bound, e) refl

write-refused :
    {W : Type 0} (ops : Connection W) (s : State W) (context : ℕ) (m : Option Message)
    → context < context_count
    → (bit_and (context_at s context).configuration conn_mask == conn_connected) ≡ false
    → context_write ops s context m ≡ (write_refusal m, s)
unfolding context_write message_op
write-refused ops s context none bound e = refl
write-refused ops s context (some m) bound e = rw (lt→ltb _ _ bound, e) refl

-- The state of an open or connected context, whose configuration is below 4096, keeps those bits
-- at a close and gets the one of the shutdown; a write on it is then refused and does not reach the
-- connection. No other context changes.
pub context_close-shuts :
    {W : Type 0} (ops : Connection W) (s : State W) (context : ℕ) (m : Option Message)
    → context < context_count
    → length s.context_list ≡ context_count
    → (context_at s context).configuration < 4096
    → IsLive (context_at s context).configuration
    → let (code, s') = context_close s context in
      (code ≡ Retcode.success)
      × (context_state s' context ≡ context_state s context + conn_shutdown)
      × (context_write ops s' context m ≡ (write_refusal m, s'))
      × (set s'.context_list context zeroed ≡ set s.context_list context zeroed)
context_close-shuts ops s context m bound complete small state =
    rw (close-marks s context bound state) (
      refl,
      rw (lt→ltb _ _ bound, at_context) (marked_state _ small state),
      write-refused ops (put_context s context (marked s context)) context m bound
          (rw at_context (marked_apart _ small state)),
      set-set s.context_list context (marked s context) zeroed,
    )
  where
    at_context :
        get_or (set s.context_list context (marked s context)) context zeroed ≡ marked s context
    at_context = get_or-set_self s.context_list context _ zeroed (omega arith)
