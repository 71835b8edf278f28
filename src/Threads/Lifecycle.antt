-- ===== src/Threads/Lifecycle.antt =====
-- What a start and an end of the threads leave of the objects of the system.
use substance_3d_connector.Base.{
  ◌>>=◌, if◌then◌else◌, Bool, List, [], ◌∷◌, ◌++◌, Option, none, some,
}
use substance_3d_connector.Retcode.{Retcode}
use substance_3d_connector.UintQueue
use substance_3d_connector.AvailableQueue
use substance_3d_connector.System
use substance_3d_connector.System.{System, Object}
use substance_3d_connector.Threads.{
  Threads, init_dispatch_subsystem, init_comm_subsystem, shutdown_comm_subsystem,
  shutdown_dispatch_subsystem, flag_read, flag_write, flag_dispatch, await_dispatch,
}

-- The functions that are called while the threads run.
pub data Flag : Type 0 where
  read : Flag
  write : Flag
  dispatch : Flag
  await : Flag

unfoldable flag_one : Flag → Threads → Option (Retcode × Threads)
flag_one Flag.read t = flag_read t
flag_one Flag.write t = flag_write t
flag_one Flag.dispatch t = flag_dispatch t
flag_one Flag.await t = await_dispatch t

unfoldable flag_all : List Flag → Threads → Option Threads
unfolding flag_one
flag_all [] t = some t
flag_all (f ∷ flags) t = flag_one f t >>= λ (code, t'). flag_all flags t'

-- The objects of a program where no lock is held, no thread is told to end and none has been.
abbrev system_of : List Object → System
system_of live = record {
  live = live;
  held = [];
  read_shutdown = 0;
  write_shutdown = 0;
  dispatch_shutdown = 0;
  woken = [];
}

-- The state of a program that has no threads.
unfoldable pub quiet : Bool → List Object → Threads
quiet signal_main live = record {
  system = system_of live;
  signal_main = signal_main;
  available = none;
}

-- The start of both subsystems, in the order of external_api.c, and their end.
abbrev pub start : Bool → List (List Bool) → Threads → Option (List Retcode × Threads)
start signal_main rounds t = do
  (dispatched, t') ← init_dispatch_subsystem signal_main rounds t
  (code, t'') ← init_comm_subsystem t'
  some (dispatched ∷ code ∷ [], t'')

abbrev pub stop : Threads → Option (List Retcode × Threads)
stop t = do
  (code, t') ← shutdown_comm_subsystem t
  (dispatched, t'') ← shutdown_dispatch_subsystem t'
  some (code ∷ dispatched ∷ [], t'')

-- A start, the calls in between, and an end.
unfoldable pub lifecycle :
    Bool → List (List Bool) → List Flag → Threads → Option (List Retcode × List Retcode × Threads)
unfolding flag_all
lifecycle signal_main rounds flags t = do
  (started, t1) ← start signal_main rounds t
  t2 ← flag_all flags t1
  (stopped, t3) ← stop t2
  some (started, stopped, t3)

-- The objects that are left.
abbrev left_over : Bool → List Object
left_over signal_main =
    if signal_main then Object.dispatch_main_lock ∷ Object.dispatch_main_condition ∷ [] else []

-- The objects of the dispatch subsystem.
abbrev dispatching : Bool → System
dispatching signal_main = system_of (
    Object.dispatch_thread 1
    ∷ Object.dispatch_thread 0
    ∷ (left_over signal_main ++ Object.dispatch_lock ∷ Object.dispatch_condition ∷ []))

-- The objects while the threads run.
unfoldable running : Bool → Threads
running signal_main = record (quiet signal_main []) {
  system = system_of (
      Object.read_thread 1
      ∷ Object.read_thread 0
      ∷ Object.read_main_lock
      ∷ Object.read_main_condition
      ∷ Object.inbound_lock
      ∷ Object.inbound_condition
      ∷ Object.write_thread 1
      ∷ Object.write_thread 0
      ∷ Object.outbound_lock
      ∷ Object.outbound_condition
      ∷ (dispatching signal_main).live);
  available = some (UintQueue.fresh 34);
}
