-- ===== src/ReadThread.antt =====
-- core/src/details/threadimpl/readstructimpl.c and readthreadimpl.c, with the routine of
-- read_threads.c: a thread that polls the contexts assigned to it. `Cleanup` and `Sweep` are about
-- the removal of contexts, `Routine` has the loop, `Bounds` and `Exit` what it does to the tables.
pub mod Sweep
pub mod Cleanup
pub mod Events
pub mod Select
pub mod Routine
pub mod Bounds
pub mod Exit
mod Tests
use substance_3d_connector.Base.{
  ℕ, zero, suc, ◌+◌, ◌-◌, ltb, ◌==◌, not, Bool, true, false, if◌then◌else◌, List, Option, none,
  some, get_or, set, take, bit_and,
}
use substance_3d_connector.Retcode.{Retcode, is_success}
use substance_3d_connector.AvailableQueue
use substance_3d_connector.Contexts.Types.{
  State, Connection, conn_shutdown, context_state, context_get_fd,
}
use substance_3d_connector.Contexts.Close.{shutdown_from_read_thread, write_handshake}

-- SUBSTANCE_CONNECTOR_READ_CONTEXTS, (32 / 2) + 1
abbrev pub read_contexts : ℕ
read_contexts = 17

-- POLLIN
abbrev pub poll_in : ℕ
poll_in = 0x001

-- `connector_poll_t`; a descriptor of -1 is `none`.
pub record Poll : Type 0 where
  pub fd : Option ℕ
  pub events : ℕ
  pub revents : ℕ

-- What memory of the program's start holds.
abbrev pub blank : Poll
blank = record { fd = some 0; events = 0; revents = 0 }

-- `connector_read_thread_t` without the handle of the system's thread.
pub record ReadThread : Type 0 where
  pub contexts : List Poll
  pub context_ids : List ℕ
  pub assigned_contexts : ℕ

-- The identifiers that the thread serves.
abbrev pub held : ReadThread → List ℕ
held t = take t.assigned_contexts t.context_ids

-- `connector_read_thread_remove_context`
unfoldable pub remove_context : ReadThread → ℕ → Retcode × ReadThread
remove_context t index =
    let n = t.assigned_contexts - 1 in
    if ltb index t.assigned_contexts
    then (
      Retcode.success,
      if ltb 0 n
          then record {
            contexts = set t.contexts index (get_or t.contexts n blank);
            context_ids = set t.context_ids index (get_or t.context_ids n 0);
            assigned_contexts = n;
          }
          else record t { assigned_contexts = n },
    )
    else (Retcode.error, t)

-- `connector_read_thread_check_load`
abbrev pub check_load : ReadThread → Bool
check_load t = ltb t.assigned_contexts read_contexts

module _ {W : Type 0} where
  -- The context is marked for its shutdown.
  abbrev pub is_shutdown : State W → ℕ → Bool
  is_shutdown s context = not (bit_and (context_state s context) conn_shutdown == 0)

  -- What the thread writes into its tables for a context.
  unfoldable pub assign : ReadThread → State W → ℕ → ReadThread
  assign t s context =
      let index = t.assigned_contexts in
      record {
        contexts = set t.contexts index (record (get_or t.contexts index blank) {
          fd = context_get_fd s context;
          events = poll_in;
        });
        context_ids = set t.context_ids index context;
        assigned_contexts = index + 1;
      }

-- The code, the thread and the contexts.
abbrev pub Served : Type 0 → Type 0
Served W = Retcode × ReadThread × State W

module _ {W : Type 0} (ops : Connection W) where
  -- The end of an acquisition, on what the pop gave.
  unfoldable pub finish_acquire :
      Option (List ℕ) → ReadThread → State W → Retcode × Option ℕ → Served W
  unfolding assign
  finish_acquire name t s (code, none) = (code, t, s)
  finish_acquire name t s (code, some context) =
      let (code', s') = write_handshake ops name s context in (code', assign t s context, s')

  -- `connector_read_thread_try_acquire` with the name of this application.
  unfoldable pub try_acquire : Option (List ℕ) → ReadThread → State W → Served W
  unfolding finish_acquire
  try_acquire name t s =
      let (code, out, available) = AvailableQueue.pop s.available in
      finish_acquire name t (record s { available = available })
        (code, if is_success code then out else none)

  -- The body of the loop of `connector_read_thread_cleanup_connections` at an index.
  unfoldable pub cleanup_at : ℕ → Served W → Served W
  unfolding remove_context
  cleanup_at i (code, t, s) =
      let context = get_or t.context_ids i 0 in
      let (removed, t') = remove_context t i in
      let (ended, s') = shutdown_from_read_thread ops s context in
      if is_shutdown s context
      then if is_success removed then (ended, t', s') else (removed, t', s)
      else (code, t, s)

  -- The loop from the given index downwards.
  unfoldable pub cleanup_from : ℕ → Served W → Served W
  unfolding cleanup_at
  cleanup_from zero r = r
  cleanup_from (suc i) r = cleanup_from i (cleanup_at i r)

  -- `connector_read_thread_cleanup_connections`
  unfoldable pub cleanup_connections : ReadThread → State W → Served W
  unfolding cleanup_from
  cleanup_connections t s = cleanup_from t.assigned_contexts (Retcode.error, t, s)
