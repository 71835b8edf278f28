-- ===== src/Framework/Core.antt =====
-- module-cpp/src/framework/core.cpp: the start and the end of the layer, and the trampoline that it
-- gives to the core. The function table of the core is a parameter over a state of the outside; the
-- standard output of getConnectionContext is modelled with the schemas.
pub mod Lifecycle
mod Tests
use substance_3d_connector.Base.{
  ℕ, ltb, ◌==◌, if◌then◌else◌, Bool, true, false, List, [], ◌∷◌, ◌++◌, Option, none, some,
}
use substance_3d_connector.Retcode.{Retcode, is_success}
use substance_3d_connector.Uuid.{Uuid}
use substance_3d_connector.Trampolines.{Call}
use substance_3d_connector.Framework.Callbacks.{CallbackMap, find_callbacks}
use substance_3d_connector.Framework.Applications.{Application, pre_init, pre_shutdown}

-- `StartupState`
pub data StartupState : Type 0 where
  connector_shutdown : StartupState
  connector_init_started : StartupState
  connector_initialized : StartupState
  connector_shutdown_started : StartupState
  connector_adding_application : StartupState

-- The functions of the core's table, and `initDynamicLoad` for a module.
pub record CoreTable (W : Type 0) : Type 0 where
  pub init_dynamic_load : Option ℕ → W → W
  pub init : List ℕ → W → Retcode × W
  pub add_trampoline : W → W
  pub shutdown : W → Retcode × W

-- The static variables: `applications`, a std::set of pointers in their order with the objects
-- behind them, the map of callbacks, and the outside.
pub record Framework (W : Type 0) : Type 0 where
  pub startup_state : StartupState
  pub applications : List (ℕ × Application)
  pub feature_level : List Uuid
  pub connection_display_name : List ℕ
  pub connection_id : List ℕ
  pub callback_map : CallbackMap
  pub outside : W

-- Whether a state is the one from which an exchange starts.
abbrev pub is_shut : StartupState → Bool
is_shut StartupState.connector_shutdown = true
is_shut _ = false

abbrev pub is_initialized : StartupState → Bool
is_initialized StartupState.connector_initialized = true
is_initialized _ = false

abbrev pub is_member : ℕ → List (ℕ × Application) → Bool
is_member p [] = false
is_member p ((q, a) ∷ apps) = if p == q then true else is_member p apps

-- A set is in the order of the pointers.
unfoldable pub insert_sorted : ℕ → Application → List (ℕ × Application) → List (ℕ × Application)
insert_sorted p a [] = (p, a) ∷ []
insert_sorted p a ((q, b) ∷ apps) =
    if ltb p q then (p, a) ∷ (q, b) ∷ apps else (q, b) ∷ insert_sorted p a apps

-- `preInit` and `preShutdown` of the file: a step of each application in turn.
unfoldable pub each_application :
    (Application → CallbackMap → Application × CallbackMap)
    → List (ℕ × Application)
    → CallbackMap
    → List (ℕ × Application) × CallbackMap
each_application step [] m = ([], m)
each_application step ((p, a) ∷ apps) m =
    let (a', m') = step a m in
    let (apps', m'') = each_application step apps m' in ((p, a') ∷ apps', m'')

-- The loop of `connector_cpp_trampoline`, which passes null pointers over.
unfoldable pub call_each : List (Option ℕ) → ℕ → Uuid → List ℕ → List Call
call_each [] context type text = []
call_each (none ∷ cs) context type text = call_each cs context type text
call_each (some c ∷ cs) context type text =
    record { trampoline = c; context = context; type = type; text = text }
    ∷ call_each cs context type text

module _ {W : Type 0} where
  -- `connector_cpp_trampoline`: the calls that it makes.
  unfoldable pub cpp_trampoline : ℕ → Uuid → List ℕ → Framework W → List Call
  unfolding call_each find_callbacks
  cpp_trampoline context type text f =
      call_each (find_callbacks type f.callback_map) context type text

  -- `registerApplication`, for a pointer that is null or the object behind it.
  unfoldable pub register_application : Option (ℕ × Application) → Framework W → Bool × Framework W
  unfolding insert_sorted
  register_application none f = (false, f)
  register_application (some (p, a)) f =
      if is_shut f.startup_state
      then if is_member p f.applications then (false, f) else (
        true,
        record f {
          applications = insert_sorted p a f.applications;
          feature_level = f.feature_level ++ a.feature_ids;
        },
      )
      else (false, f)

module _ {W : Type 0} (core : CoreTable W) where
  -- The end of `init`, on the code of the core.
  unfoldable pub finish_init : Retcode × W → Framework W → Bool × Framework W
  finish_init (code, w) f =
      if is_success code
      then (
        true,
        record f {
          startup_state = StartupState.connector_initialized;
          outside = core.add_trampoline w;
        },
      )
      else (false, record f { outside = w })

  -- The body of `init`, after the exchange.
  unfoldable pub start : Option ℕ → Framework W → Bool × Framework W
  unfolding finish_init each_application pre_init
  start module_handle f =
      let (apps, m) = each_application pre_init f.applications f.callback_map in
      finish_init (core.init f.connection_id (core.init_dynamic_load module_handle f.outside))
        (record f {
          startup_state = StartupState.connector_init_started;
          applications = apps;
          callback_map = m;
        })

  -- `init`
  unfoldable pub init : List ℕ → List ℕ → Option ℕ → Framework W → Bool × Framework W
  unfolding start
  init display_name id module_handle f =
      let named : Framework W = record f {
        connection_display_name = display_name;
        connection_id = id;
      } in
      if is_shut f.startup_state then start module_handle named else (false, named)

  -- The end of `shutdown`, on the code of the core.
  unfoldable pub finish_shutdown : Retcode × W → Framework W → Bool × Framework W
  finish_shutdown (code, w) f =
      if is_success code
      then (
        true,
        record f {
          startup_state = StartupState.connector_shutdown;
          applications = [];
          feature_level = [];
          outside = w;
        },
      )
      else (false, record f { outside = w })

  -- `shutdown`
  unfoldable pub shutdown : Framework W → Bool × Framework W
  unfolding finish_shutdown each_application pre_shutdown
  shutdown f =
      let (apps, m) = each_application pre_shutdown f.applications f.callback_map in
      let stopped = finish_shutdown (core.shutdown f.outside) (record f {
        startup_state = StartupState.connector_shutdown_started;
        applications = apps;
        callback_map = m;
      }) in
      if is_initialized f.startup_state then stopped else (false, f)

-- The functions of the core's table that open, establish and broadcast connections.
pub record ConnectionTable (W : Type 0) : Type 0 where
  pub open_tcp : ℕ → W → Retcode × Option ℕ × W
  pub connect_tcp : ℕ → W → Retcode × Option ℕ × W
  pub open_default_tcp : W → Retcode × Option ℕ × W
  pub open_default_unix : W → Retcode × Option ℕ × W
  pub open_default : W → Retcode × Option ℕ × W
  pub broadcast_tcp : W → Retcode × W
  pub broadcast_unix : W → Retcode × W
  pub broadcast_default : W → Retcode × W

module _ {W : Type 0} where
  -- Whether the core reports a success, and what it gives.
  abbrev pub succeeded_with : Retcode × Option ℕ × W → Bool × Option ℕ × W
  succeeded_with (code, context, w) = (is_success code, context, w)

  abbrev pub succeeded : Retcode × W → Bool × W
  succeeded (code, w) = (is_success code, w)

module _ {W : Type 0} (table : ConnectionTable W) where
  -- `openTcpConnection` and `establishTcpConnection`
  unfoldable pub open_tcp_connection : ℕ → W → Bool × Option ℕ × W
  open_tcp_connection port w = succeeded_with (table.open_tcp port w)

  unfoldable pub establish_tcp_connection : ℕ → W → Bool × Option ℕ × W
  establish_tcp_connection port w = succeeded_with (table.connect_tcp port w)

  -- `openDefaultTcp`, `openDefaultUnix` and `openDefault`
  unfoldable pub open_default_tcp : W → Bool × Option ℕ × W
  open_default_tcp w = succeeded_with (table.open_default_tcp w)

  unfoldable pub open_default_unix : W → Bool × Option ℕ × W
  open_default_unix w = succeeded_with (table.open_default_unix w)

  unfoldable pub open_default : W → Bool × Option ℕ × W
  open_default w = succeeded_with (table.open_default w)

  -- `broadcastTcp`, `broadcastUnix` and `broadcastDefault`
  unfoldable pub broadcast_tcp : W → Bool × W
  broadcast_tcp w = succeeded (table.broadcast_tcp w)

  unfoldable pub broadcast_unix : W → Bool × W
  broadcast_unix w = succeeded (table.broadcast_unix w)

  unfoldable pub broadcast_default : W → Bool × W
  broadcast_default w = succeeded (table.broadcast_default w)
