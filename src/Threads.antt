-- ===== src/Threads.antt =====
-- The start and the end of the threads: core/src/details/communication.c, and the functions of
-- threadimpl/read_threads.c, threadimpl/write_threads.c and dispatch.c under core/src/details that
-- create, flag and join them. What the threads do is modelled in ReadThread, WriteThread and Dispatch.
pub mod Lifecycle
mod Tests
use substance_3d_connector.Base.{
  ℕ, ◌==◌, ◌&&◌, ◌>>=◌, if◌then◌else◌, Bool, true, false, List, [], ◌∷◌, ◌++◌, Option, none, some,
}
use substance_3d_connector.Retcode.{Retcode, is_success}
use substance_3d_connector.UintQueue.{UintQueue}
use substance_3d_connector.AvailableQueue
use substance_3d_connector.System.{
  System, Object, Action, object_create, object_end, mutex_lock, mutex_unlock, condition_wait,
  condition_signal, condition_broadcast, thread_join, exchange_read, exchange_write,
  exchange_dispatch, calls, each, signal_locked, broadcast_locked,
}

-- The objects of the system with the shutdown flags, and the other static variables of the files.
pub record Threads : Type 0 where
  pub system : System
  pub signal_main : Bool
  pub available : Option UintQueue

-- SUBSTANCE_CONNECTOR_INBOUND_COUNT, _OUTBOUND_COUNT and _DISPATCH_COUNT
abbrev inbound_count : ℕ
inbound_count = 2

abbrev outbound_count : ℕ
outbound_count = 2

abbrev dispatch_count : ℕ
dispatch_count = 2

-- Calls of the system, and a code.
abbrev with_calls : Threads → List Action → Option (Retcode × Threads)
with_calls t actions = do
  s ← calls actions t.system
  some (Retcode.success, record t { system = s })

-- `connector_init_write_threads`
unfoldable pub init_write_threads : Threads → Option (Retcode × Threads)
init_write_threads t = with_calls t (
    object_create Object.outbound_condition
    ∷ object_create Object.outbound_lock
    ∷ each outbound_count (λ i. object_create (Object.write_thread i) ∷ []))

-- `connector_shutdown_write_threads`
unfoldable pub shutdown_write_threads : Threads → Option (Retcode × Threads)
shutdown_write_threads t =
    let stop = with_calls t (
      exchange_write 0 1
      ∷ (broadcast_locked Object.outbound_condition Object.outbound_lock
          ++ each outbound_count (λ i. thread_join (Object.write_thread i) ∷ [])
          ++ exchange_write 1 0
            ∷ object_end Object.outbound_lock
            ∷ object_end Object.outbound_condition
            ∷ [])) in
    if t.system.write_shutdown == 0 then stop else some (Retcode.error, t)

-- `connector_flag_write_impl`
unfoldable pub flag_write : Threads → Option (Retcode × Threads)
flag_write t = with_calls t (signal_locked Object.outbound_condition Object.outbound_lock)

-- `connector_init_read_threads`
unfoldable pub init_read_threads : Threads → Option (Retcode × Threads)
init_read_threads t = with_calls t (
    object_create Object.inbound_condition
    ∷ object_create Object.inbound_lock
    ∷ object_create Object.read_main_condition
    ∷ object_create Object.read_main_lock
    ∷ mutex_lock Object.read_main_lock
    ∷ (each inbound_count (λ i.
          object_create (Object.read_thread i)
          ∷ condition_wait Object.read_main_condition Object.read_main_lock
          ∷ [])
        ++ mutex_unlock Object.read_main_lock ∷ []))

-- `connector_shutdown_read_threads`
unfoldable pub shutdown_read_threads : Threads → Option (Retcode × Threads)
shutdown_read_threads t =
    let stop = with_calls t (
      exchange_read 0 1
      ∷ (broadcast_locked Object.inbound_condition Object.inbound_lock
          ++ each inbound_count (λ i. thread_join (Object.read_thread i) ∷ [])
          ++ exchange_read 1 0
            ∷ object_end Object.inbound_lock
            ∷ object_end Object.inbound_condition
            ∷ object_end Object.read_main_lock
            ∷ object_end Object.read_main_condition
            ∷ [])) in
    if t.system.read_shutdown == 0 then stop else some (Retcode.error, t)

-- `connector_flag_read_impl`
unfoldable pub flag_read : Threads → Option (Retcode × Threads)
flag_read t = with_calls t (broadcast_locked Object.inbound_condition Object.inbound_lock)

-- `connector_init_comm_subsystem`, with memory for the queue of available contexts.
unfoldable pub init_comm_subsystem : Threads → Option (Retcode × Threads)
init_comm_subsystem t = do
  (made, queue) ← AvailableQueue.init true true t.available
  (written, t') ← init_write_threads (record t { available = queue })
  (read, t'') ← init_read_threads t'
  some (Retcode.success, t'')

-- `connector_terminate_comm`
unfoldable pub terminate_comm : Threads → Option (Retcode × Threads)
terminate_comm t = do
  (code, t') ← shutdown_write_threads t
  (read_code, t'') ← shutdown_read_threads t'
  some (if is_success code then read_code else code, t'')

-- `connector_shutdown_comm_subsystem`
unfoldable pub shutdown_comm_subsystem : Threads → Option (Retcode × Threads)
shutdown_comm_subsystem t = do
  (code, t') ← terminate_comm t
  some (
    (AvailableQueue.shutdown t'.available).0,
    record t' { available = (AvailableQueue.shutdown t'.available).1 },
  )

-- Whether all dispatch threads are initialised.
abbrev pub all_set : List Bool → Bool
all_set [] = true
all_set (b ∷ flags) = b && all_set flags

-- The spin of `connector_init_dispatch_subsystem`, with what its rounds see in the threads' fields;
-- `none` when they run out.
unfoldable pub spin : List (List Bool) → Action
spin [] s = none
spin (seen ∷ rounds) s =
    calls (mutex_lock Object.dispatch_lock ∷ mutex_unlock Object.dispatch_lock ∷ []) s >>= λ s'.
    let rest = spin rounds s' in if all_set seen then some s' else rest

-- `connector_init_dispatch_subsystem`
unfoldable pub init_dispatch_subsystem :
    Bool → List (List Bool) → Threads → Option (Retcode × Threads)
init_dispatch_subsystem signal_main rounds t =
    with_calls (record t { signal_main = if signal_main then true else t.signal_main })
      (object_create Object.dispatch_condition
        ∷ object_create Object.dispatch_lock
        ∷ ((if signal_main
              then object_create Object.dispatch_main_condition
                ∷ object_create Object.dispatch_main_lock
                ∷ []
              else [])
            ++ each dispatch_count (λ i. object_create (Object.dispatch_thread i) ∷ [])
            ++ spin rounds ∷ []))

-- `terminate_dispatch`
unfoldable pub terminate_dispatch : Threads → Option (Retcode × Threads)
terminate_dispatch t = with_calls t (
    mutex_lock Object.dispatch_lock
    ∷ exchange_dispatch 0 1
    ∷ condition_broadcast Object.dispatch_condition
    ∷ mutex_unlock Object.dispatch_lock
    ∷ (each dispatch_count (λ i. thread_join (Object.dispatch_thread i) ∷ [])
        ++ mutex_lock Object.dispatch_lock
          ∷ exchange_dispatch 1 0
          ∷ mutex_unlock Object.dispatch_lock
          ∷ []))

-- `connector_shutdown_dispatch_subsystem`
unfoldable pub shutdown_dispatch_subsystem : Threads → Option (Retcode × Threads)
shutdown_dispatch_subsystem t = do
  (code, t') ← terminate_dispatch t
  (ended, t'') ←
      with_calls t' (object_end Object.dispatch_lock ∷ object_end Object.dispatch_condition ∷ [])
  some (code, t'')

-- `connector_flag_dispatch`
unfoldable pub flag_dispatch : Threads → Option (Retcode × Threads)
flag_dispatch t = with_calls t (signal_locked Object.dispatch_condition Object.dispatch_lock)

-- `connector_await_dispatch`
unfoldable pub await_dispatch : Threads → Option (Retcode × Threads)
await_dispatch t =
    let wait = with_calls t (
      mutex_lock Object.dispatch_main_lock
      ∷ (signal_locked Object.dispatch_condition Object.dispatch_lock
          ++ condition_wait Object.dispatch_main_condition Object.dispatch_main_lock
            ∷ mutex_unlock Object.dispatch_main_lock
            ∷ [])) in
    if t.signal_main then wait else some (Retcode.error, t)
