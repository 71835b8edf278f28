-- ===== src/System.antt =====
-- core/src/details/thread_unix.c: the locks, conditions and threads of the operating system, as the
-- objects that exist and the locks that are held. What POSIX leaves undefined, such as the use of an
-- object that does not exist, gives no result; a lock that another one holds is not waited for. The
-- shutdown flags of the threads stand beside the objects: a join that would not return gives no
-- result either, and it returns for a thread whose flag is set and whose condition was broadcast, with
-- its lock held, while the flag was set.
use substance_3d_connector.Base.{
  ℕ, zero, suc, ◌+◌, ◌*◌, ◌==◌, ◌&&◌, not, ◌>>=◌, if◌then◌else◌, Bool, true, false, List, [], ◌∷◌,
  ◌++◌, Option, none, some,
}

-- The static objects of the threads' files, and the threads of their arrays.
pub data Object : Type 0 where
  inbound_condition : Object
  inbound_lock : Object
  read_main_condition : Object
  read_main_lock : Object
  outbound_condition : Object
  outbound_lock : Object
  dispatch_condition : Object
  dispatch_lock : Object
  dispatch_main_condition : Object
  dispatch_main_lock : Object
  read_thread : ℕ → Object
  write_thread : ℕ → Object
  dispatch_thread : ℕ → Object

-- A number for each of them.
abbrev pub address : Object → ℕ
address Object.inbound_condition = 0
address Object.inbound_lock = 1
address Object.read_main_condition = 2
address Object.read_main_lock = 3
address Object.outbound_condition = 4
address Object.outbound_lock = 5
address Object.dispatch_condition = 6
address Object.dispatch_lock = 7
address Object.dispatch_main_condition = 8
address Object.dispatch_main_lock = 9
address (Object.read_thread i) = 10 + 3 * i
address (Object.write_thread i) = 11 + 3 * i
address (Object.dispatch_thread i) = 12 + 3 * i

abbrev is_among : Object → List Object → Bool
is_among o [] = false
is_among o (p ∷ os) = if address o == address p then true else is_among o os

abbrev pub without : Object → List Object → List Object
without o [] = []
without o (p ∷ os) = if address o == address p then os else p ∷ without o os

-- The objects, the shutdown flags of the three files, and the conditions that were broadcast to make
-- their threads end.
pub record System : Type 0 where
  pub live : List Object
  pub held : List Object
  pub read_shutdown : ℕ
  pub write_shutdown : ℕ
  pub dispatch_shutdown : ℕ
  pub woken : List Object

abbrev pub Action : Type 0
Action = System → Option System

-- A call that is defined under a condition.
abbrev pub allowed : Bool → System → Option System
allowed b s = if b then some s else none

-- `connector_condition_create`, `connector_mutex_create` and `connector_thread_create`
unfoldable pub object_create : Object → Action
object_create o s = allowed (not (is_among o s.live)) (record s { live = o ∷ s.live })

-- `connector_condition_destroy`, and `connector_mutex_destroy` of a lock that is free.
unfoldable pub object_end : Object → Action
object_end o s =
    allowed (is_among o s.live && not (is_among o s.held))
      (record s { live = without o s.live; woken = without o s.woken })

-- Whether a thread has been told to end, and woken for it.
abbrev ends : Object → System → Bool
ends (Object.read_thread i) s = s.read_shutdown == 1 && is_among Object.inbound_condition s.woken
ends (Object.write_thread i) s = s.write_shutdown == 1 && is_among Object.outbound_condition s.woken
ends (Object.dispatch_thread i) s =
    s.dispatch_shutdown == 1 && is_among Object.dispatch_condition s.woken
ends _ s = false

-- `connector_thread_join`, which returns for a thread that ends; `connector_thread_destroy` does
-- nothing.
unfoldable pub thread_join : Object → Action
thread_join o s = allowed (is_among o s.live && ends o s) (record s { live = without o s.live })

-- CONNECTOR_ATOMIC_COMPARE_EXCHANGE on a flag: what it is afterwards.
abbrev flag_exchange : ℕ → ℕ → ℕ → ℕ
flag_exchange flag expected new = if flag == expected then new else flag

-- The exchanges on read_thread_shutdown_flag, write_thread_shutdown_flag and dispatch_shutdown_code.
unfoldable pub exchange_read : ℕ → ℕ → Action
exchange_read expected new s =
    some (record s { read_shutdown = flag_exchange s.read_shutdown expected new })

unfoldable pub exchange_write : ℕ → ℕ → Action
exchange_write expected new s =
    some (record s { write_shutdown = flag_exchange s.write_shutdown expected new })

unfoldable pub exchange_dispatch : ℕ → ℕ → Action
exchange_dispatch expected new s =
    some (record s { dispatch_shutdown = flag_exchange s.dispatch_shutdown expected new })

-- `connector_mutex_lock`
unfoldable pub mutex_lock : Object → Action
mutex_lock o s =
    allowed (is_among o s.live && not (is_among o s.held)) (record s { held = o ∷ s.held })

-- `connector_mutex_unlock`
unfoldable pub mutex_unlock : Object → Action
mutex_unlock o s = allowed (is_among o s.held) (record s { held = without o s.held })

-- `connector_condition_wait`, which has the lock again when it returns.
unfoldable pub condition_wait : Object → Object → Action
condition_wait c o s = allowed (is_among c s.live && is_among o s.held) s

-- `connector_condition_signal`, which wakes no more than one thread.
unfoldable pub condition_signal : Object → Action
condition_signal c s = allowed (is_among c s.live) s

-- Whether a broadcast makes the threads of the condition end.
abbrev stopping : Object → System → Bool
stopping Object.inbound_condition s = s.read_shutdown == 1 && is_among Object.inbound_lock s.held
stopping Object.outbound_condition s = s.write_shutdown == 1 && is_among Object.outbound_lock s.held
stopping Object.dispatch_condition s =
    s.dispatch_shutdown == 1 && is_among Object.dispatch_lock s.held
stopping _ s = false

-- `connector_condition_broadcast`
unfoldable pub condition_broadcast : Object → Action
condition_broadcast c s =
    allowed (is_among c s.live) (record s { woken = if stopping c s then c ∷ s.woken else s.woken })

-- Calls one after the other.
unfoldable pub calls : List Action → Action
calls [] s = some s
calls (a ∷ actions) s = a s >>= calls actions

-- What a loop over the first indices of an array calls.
unfoldable pub each : ℕ → (ℕ → List Action) → List Action
each zero body = []
each (suc n) body = each n body ++ body n

-- A condition is signalled, or broadcast, under a lock.
unfoldable pub signal_locked : Object → Object → List Action
signal_locked c o = mutex_lock o ∷ condition_signal c ∷ mutex_unlock o ∷ []

unfoldable pub broadcast_locked : Object → Object → List Action
broadcast_locked c o = mutex_lock o ∷ condition_broadcast c ∷ mutex_unlock o ∷ []
