-- ===== src/Contexts/EndTests.antt =====
-- Runs of the ends of contexts, and the theorems about them at concrete inputs.
use substance_3d_connector.Base.{set, ◌≡◌, refl, arith, [], ◌∷◌, ◌++◌, some}
use substance_3d_connector.Retcode.{Retcode}
use substance_3d_connector.Uuid.{internal_connection_closed_uuid}
use substance_3d_connector.Message.{build_message}
use substance_3d_connector.UintQueue.Inv.{IsQuiet, contents}
use substance_3d_connector.Contexts.Types.{Connection, State, zeroed, put_context, context_at}
use substance_3d_connector.Contexts.Close.{
  send_handshake, note_handshake, message_op, context_write, write_handshake,
  shutdown_from_read_thread,
}
use substance_3d_connector.Contexts.Starting.{range_from, started}
use substance_3d_connector.Contexts.Closing.{shutdown_from_read_thread-frees}

-- A connection that gives the same code to everything and leaves the structures alone.
abbrev steady : Retcode → Connection (Unit {0})
steady code = record {
  open_connection = λ w c. (code, c, w);
  bridge_connection = λ w c. (code, c, w);
  close_connection = λ w c. (code, c, w);
  accept_connection = λ w c. (some 7, w);
  write_connection = λ w c m. (code, w);
  read_connection = λ w c m. (code, m, w);
}

abbrev fresh_state : State (Unit {0})
fresh_state = started tt

-- Contexts 3 and 4 are connected; 4 has a name. The identifiers below 8 are in use.
abbrev busy : State (Unit {0})
busy =
    let s = put_context fresh_state 3 (record zeroed { configuration = 0x201; fd = 5 }) in
    let s =
      put_context s 4
        (record zeroed { configuration = 0x201; application_name = some (65 ∷ []) }) in
    record s { free_contexts = record (fresh_state.free_contexts) { read_index = 8 } }

busy-IsQuiet : IsQuiet busy.free_contexts
busy-IsQuiet = record {
  committed = refl;
  ordered = omega arith;
  room = omega arith;
  storage = refl;
  small = omega arith;
}

shutdown_from_read_thread-frees_example :
    let (code, s') = shutdown_from_read_thread (steady Retcode.success) busy 4 in
    (code ≡ Retcode.success)
    × (context_at s' 4 ≡ zeroed)
    × (contents s'.free_contexts ≡ range_from 24 8 ++ (4 ∷ []))
    × IsQuiet s'.free_contexts
    × (s'.notices
        ≡ (record { context = 4; kind = internal_connection_closed_uuid; text = 65 ∷ [] } ∷ []))
    × (set s'.context_list 4 zeroed ≡ set busy.context_list 4 zeroed)
shutdown_from_read_thread-frees_example =
    shutdown_from_read_thread-frees (steady Retcode.success) busy 4 (omega arith) refl busy-IsQuiet
      (omega arith) (omega arith)

busy_handshake :
    (write_handshake (steady Retcode.success) (some (65 ∷ [])) busy 3).0 ≡ Retcode.success
unfolding write_handshake send_handshake note_handshake context_write message_op build_message
busy_handshake = refl
