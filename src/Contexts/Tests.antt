-- ===== src/Contexts/Tests.antt =====
-- Runs of the contexts, and the theorems about them at concrete inputs.
use substance_3d_connector.Base.{
  set, ◌≡◌, refl, arith, true, false, [], ◌∷◌, ◌++◌, none, some, replicate,
}
use substance_3d_connector.Retcode.{Retcode, is_success}
use substance_3d_connector.UintQueue.Inv.{IsQuiet, contents}
use substance_3d_connector.Contexts.Types.{
  Connection, State, zeroed, put_context, context_at, context_state, context_type, conn_open,
  conn_connected,
}
use substance_3d_connector.Contexts.Open.{
  context_open, context_connect, context_accept, tcp_description,
}
use substance_3d_connector.UintQueue.{UintQueue}
use substance_3d_connector.Contexts.Announcing.{CanAnnounce, IsAnnounced}
use substance_3d_connector.Contexts.Starting.{range_from, started, init_contexts-ready}
use substance_3d_connector.Contexts.FreeList.{NextFree}
use substance_3d_connector.Contexts.Opening.{context_open-success, context_open-failure}
use substance_3d_connector.Contexts.Connecting.{context_connect-success}
use substance_3d_connector.Contexts.Accepting.{context_accept-success}

-- A connection that gives the same code to everything and leaves the structures alone.
abbrev steady : Retcode → Connection (Unit {0})
steady code = record {
  open_connection = λ w c. (code, c, w);
  bridge_connection = λ w c. (code, c, w);
  close_connection = λ w c. (code, c, w);
  accept_connection = λ w c. (some 7, w);
  write_connection = λ w c m. (code, w);
  read_connection = λ w c m. (code, m, w);
}

abbrev fresh_state : State (Unit {0})
fresh_state = started tt

start : NextFree fresh_state 0 (range_from 31 1)
start = (init_contexts-ready tt).1

-- Context 20 waits for a read thread.
abbrev waiting : UintQueue
waiting = record {
  write_index = 1;
  read_index = 0;
  max_index = 1;
  size = 34;
  array = 20 ∷ replicate 33 0;
}

waiting-CanAnnounce : CanAnnounce (some waiting) waiting
waiting-CanAnnounce = record {
  there = refl;
  quiet = record {
    committed = refl;
    ordered = omega arith;
    room = omega arith;
    storage = refl;
    small = omega arith;
  };
  space = omega arith;
  far = omega arith;
}

-- The communication runs.
abbrev communicating : State (Unit {0})
communicating = record fresh_state { available = some waiting }

communicating_start : NextFree communicating 0 (range_from 31 1)
communicating_start = record {
  quiet = start.quiet;
  held = start.held;
  far = start.far;
  bound = start.bound;
  complete = refl;
}

context_open-success_example :
    let (code, out, s') =
      context_open (steady Retcode.success) communicating (some (tcp_description 4000)) true in
    (code ≡ Retcode.success)
    × (out ≡ some 0)
    × (contents s'.free_contexts ≡ range_from 31 1)
    × IsQuiet s'.free_contexts
    × (context_state s' 0 ≡ conn_open)
    × (context_type s' 0 ≡ 1)
    × IsAnnounced s'.available waiting 0
    × (set s'.context_list 0 zeroed ≡ set communicating.context_list 0 zeroed)
context_open-success_example =
    context_open-success (steady Retcode.success) communicating_start (tcp_description 4000) 1 refl
      (omega arith) refl refl waiting waiting-CanAnnounce

context_open-failure_example :
    let (code, out, s') =
      context_open (steady Retcode.open_fail) fresh_state (some (tcp_description 4000)) true in
    (is_success code ≡ false)
    × (out ≡ none)
    × (contents s'.free_contexts ≡ range_from 31 1 ++ (0 ∷ []))
    × IsQuiet s'.free_contexts
    × (context_at s' 0 ≡ zeroed)
    × (s'.available ≡ fresh_state.available)
    × (set s'.context_list 0 zeroed ≡ set fresh_state.context_list 0 zeroed)
context_open-failure_example =
    context_open-failure (steady Retcode.open_fail) start (tcp_description 4000) refl

context_connect-success_example :
    let (code, out, s') =
      context_connect (steady Retcode.success) communicating (some (tcp_description 4000)) true in
    (code ≡ Retcode.success)
    × (out ≡ some 0)
    × (contents s'.free_contexts ≡ range_from 31 1)
    × IsQuiet s'.free_contexts
    × (context_state s' 0 ≡ conn_connected)
    × (context_type s' 0 ≡ 1)
    × IsAnnounced s'.available waiting 0
    × (set s'.context_list 0 zeroed ≡ set communicating.context_list 0 zeroed)
context_connect-success_example =
    context_connect-success (steady Retcode.success) communicating_start (tcp_description 4000) 1
      refl (omega arith) (λ w c. refl) refl waiting waiting-CanAnnounce

-- Context 0 is a connected one, and no context is free.
abbrev exhausted : State (Unit {0})
exhausted =
    let s = put_context fresh_state 0 (record zeroed { configuration = 0x201; fd = 5 }) in
    record s { free_contexts = record (fresh_state.free_contexts) { read_index = 32 } }

-- Context 3 listens.
abbrev listening : State (Unit {0})
listening = put_context communicating 3 (record zeroed { configuration = 0x101; fd = 5 })

listening_start : NextFree listening 0 (range_from 31 1)
listening_start = record {
  quiet = start.quiet;
  held = start.held;
  far = start.far;
  bound = start.bound;
  complete = refl;
}

context_accept-success_example :
    let (code, out, s') = context_accept (steady Retcode.success) listening 3 true in
    (code ≡ Retcode.success)
    × (out ≡ some 0)
    × (contents s'.free_contexts ≡ range_from 31 1)
    × IsQuiet s'.free_contexts
    × (context_state s' 0 ≡ conn_connected)
    × (context_type s' 0 ≡ 1)
    × ((context_at s' 0).fd ≡ 7)
    × IsAnnounced s'.available waiting 0
    × (set s'.context_list 0 zeroed ≡ set listening.context_list 0 zeroed)
context_accept-success_example =
    context_accept-success (steady Retcode.success) listening_start 3 7 (omega arith) refl
      (omega arith) refl waiting waiting-CanAnnounce
