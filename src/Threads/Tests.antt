-- ===== src/Threads/Tests.antt =====
-- A run of the threads' subsystems.
use substance_3d_connector.Base.{◌≡◌, refl, false, [], Option, none, some}
use substance_3d_connector.Retcode.{Retcode}
use substance_3d_connector.System
use substance_3d_connector.Threads.{shutdown_write_threads, flag_write, Threads}
use substance_3d_connector.Threads.Lifecycle.{quiet}

-- The code of a call.
abbrev code_of : Option (Retcode × Threads) → Option Retcode
code_of none = none
code_of (some (code, t)) = some code

-- Write threads that do not run cannot be flagged.
flag_write_unready : flag_write (quiet false []) ≡ none
unfolding flag_write quiet System.calls System.signal_locked System.mutex_lock
flag_write_unready = refl

abbrev begun : Threads
begun = let t = quiet false [] in record t { system = record (t.system) { write_shutdown = 1 } }

-- A shutdown that another thread has begun is an error.
shutdown_write_begun : code_of (shutdown_write_threads (begun)) ≡ some Retcode.error
unfolding shutdown_write_threads quiet
shutdown_write_begun = refl
