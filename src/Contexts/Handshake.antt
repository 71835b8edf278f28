-- ===== src/Contexts/Handshake.antt =====
-- What `connector_context_write_handshake` does.
use substance_3d_connector.Base.{
  ℕ, ◌<◌, ◌≡◌, inl, inr, ◌==◌, refl, arith, sym, lt→ltb, Bool, true, false, List, Option, none,
  some, get_or, set, Bool-cases, get_or-set_self, ap, subst, ◌∙◌, length, bit_and, bit_or,
}
use substance_3d_connector.Retcode.{Retcode}
use substance_3d_connector.Uuid.{internal_handshake_uuid}
use substance_3d_connector.Message.{Message, build_message}
use substance_3d_connector.AvailableQueue.{context_count}
use substance_3d_connector.Contexts.Types.{
  Context, zeroed, State, Connection, context_at, conn_connected, conn_mask, handshake_sent,
  handshake_mask,
}
use substance_3d_connector.Contexts.Config.{closes}
use substance_3d_connector.Contexts.Close.{
  mark_internal, context_write, message_op, send_handshake, note_handshake, write_handshake,
}

abbrev has_sent : {W : Type 0} → State W → ℕ → Bool
has_sent s context = bit_and (context_at s context).configuration handshake_mask == handshake_sent

module _ {W : Type 0} (s : State W) (context : ℕ) where
  message_op-keeps :
      {A : Type 0} (m : Option Message) (idle : A) (op : W → Context → Message → Retcode × A × W)
      → (message_op s context m idle op).2.context_list ≡ s.context_list
  unfolding message_op
  message_op-keeps none idle op = refl
  message_op-keeps (some m) idle op = ground arith

  note-marks :
      (r : Retcode × State W)
      → (note_handshake context r).0 ≡ Retcode.success
      → r.1.context_list ≡ s.context_list
      → context < context_count
      → length s.context_list ≡ context_count
      → (context_at s context).configuration < 4096
      → has_sent (note_handshake context r).1 context ≡ true
  unfolding note_handshake
  note-marks r done same bound complete small =
      rw (code, same, at_context, (closes _ small).of_handshake) refl
    where
      code : r.0 ≡ Retcode.success
      code = ground arith

      c : Context
      c = record (context_at s context) {
        configuration = bit_or (context_at s context).configuration handshake_sent;
      }

      at_context : get_or (set s.context_list context c) context zeroed ≡ c
      at_context = get_or-set_self s.context_list context c zeroed (omega arith)

module _ {W : Type 0} (ops : Connection W) (name : Option (List ℕ)) (s : State W)
    (context : ℕ) where
  write-keeps :
      (m : Message)
      → (context_write ops s context (some (mark_internal m))).1.context_list ≡ s.context_list
  unfolding context_write
  write-keeps m =
      message_op-keeps s context (some (mark_internal m)) (tt {0})
        (λ w c m. let (code, w') = ops.write_connection w c m in (code, tt, w'))

  send-marks :
      (m : Option Message)
      → context < context_count
      → length s.context_list ≡ context_count
      → (context_at s context).configuration < 4096
      → (send_handshake ops s context m).0 ≡ Retcode.success
      → has_sent (send_handshake ops s context m).1 context ≡ true
  unfolding send_handshake
  send-marks none bound complete small done = absurd (ground (arith, done))
  send-marks (some m) bound complete small done =
      note-marks s context (context_write ops s context (some (mark_internal m))) done
        (write-keeps m) bound complete small

  -- A handshake that was sent is not sent again.
  skips :
      context < context_count
      → has_sent s context ≡ true
      → write_handshake ops name s context ≡ (Retcode.success, s)
  unfolding write_handshake
  skips bound sent = rw (lt→ltb _ _ bound, sent) refl

  -- Without a connection there is nothing to do.
  idles :
      context < context_count
      → (bit_and (context_at s context).configuration conn_mask == conn_connected) ≡ false
      → write_handshake ops name s context ≡ (Retcode.success, s)
  unfolding write_handshake
  idles bound idle = rw (lt→ltb _ _ bound, idle) (ground arith)

  sends :
      context < context_count
      → has_sent s context ≡ false
      → (bit_and (context_at s context).configuration conn_mask == conn_connected) ≡ true
      → write_handshake ops name s context
        ≡ send_handshake ops s context
            (build_message true context (some internal_handshake_uuid) name)
  unfolding write_handshake
  sends bound fresh live = rw (lt→ltb _ _ bound, fresh, live) refl

-- A handshake that succeeded is not sent again: a second call succeeds and changes nothing. The
-- configuration is below 4096.
pub write_handshake-once :
    {W : Type 0} (ops : Connection W) (name : Option (List ℕ)) (s : State W) (context : ℕ)
    → context < context_count
    → length s.context_list ≡ context_count
    → (context_at s context).configuration < 4096
    → (write_handshake ops name s context).0 ≡ Retcode.success
    → let s' = (write_handshake ops name s context).1 in
      write_handshake ops name s' context ≡ (Retcode.success, s')
write_handshake-once ops name s context bound complete small done =
    elim (Bool-cases (has_sent s context)) [
      | inl sent ↦ repeats (skips ops name s context bound sent)
      | inr fresh ↦
          elim (Bool-cases
            (bit_and (context_at s context).configuration conn_mask == conn_connected)) [
              | inr idle ↦ repeats (idles ops name s context bound idle)
              | inl live ↦
                  let e = sends ops name s context bound fresh live in
                  skips ops name (write_handshake ops name s context).1 context bound (
                    ap (λ r. has_sent r.1 context) e
                    ∙ send-marks ops name s context _ bound complete small
                        (sym (ap (λ r. r.0) e) ∙ done))
            ]
    ]
  where
    repeats :
        write_handshake ops name s context ≡ (Retcode.success, s)
        → write_handshake ops name (write_handshake ops name s context).1 context
          ≡ (Retcode.success, (write_handshake ops name s context).1)
    repeats same =
        subst (λ t. write_handshake ops name t context ≡ (Retcode.success, t))
          (sym (ap (λ r. r.1) same)) same
