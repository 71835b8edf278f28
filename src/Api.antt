-- ===== src/Api.antt =====
-- core/src/external_api.c: the functions of the library's table, on the state of the module
-- (core/include/substance/connector/details/state.h). `Calls` has the guarded ones, `Lifecycle`
-- what one caller sees, `Race` what several threads do to the state.
pub mod Calls
pub mod Refusals
pub mod Lifecycle
pub mod Race
mod Tests
use substance_3d_connector.Base.{
  ℕ, Bool, true, false, List, [], ◌∷◌, Option, none, some, if◌then◌else◌,
}
use substance_3d_connector.Retcode.{Retcode, is_success}

-- SubstanceConnectorState
pub data ModuleState : Type 0 where
  shutdown : ModuleState
  init_started : ModuleState
  init_finished : ModuleState
  shutdown_started : ModuleState
  allocator_started : ModuleState
  internal_error : ModuleState

abbrev pub same : ModuleState → ModuleState → Bool
same ModuleState.shutdown ModuleState.shutdown = true
same ModuleState.init_started ModuleState.init_started = true
same ModuleState.init_finished ModuleState.init_finished = true
same ModuleState.shutdown_started ModuleState.shutdown_started = true
same ModuleState.allocator_started ModuleState.allocator_started = true
same ModuleState.internal_error ModuleState.internal_error = true
same _ _ = false

-- CONNECTOR_ATOMIC_COMPARE_EXCHANGE on the state: what it was, and what it is.
unfoldable pub exchange : ModuleState → ModuleState → ModuleState → ModuleState × ModuleState
exchange state expected new = (state, if same state expected then new else state)

-- The last exchange of an initialisation, after the code of its steps.
abbrev pub init_end : Retcode → ModuleState → ModuleState
init_end code state =
    if is_success code
    then (exchange state ModuleState.init_started ModuleState.init_finished).1
    else (exchange state ModuleState.init_started ModuleState.internal_error).1

-- The subsystems that the two functions start and stop, over a state `W` of all of them.
pub record Subsystems (W : Type 0) : Type 0 where
  pub set_application_name : Option (List ℕ) → W → Retcode × W
  pub setup_default_tcp_directory : W → Retcode × W
  pub init_context : W → Retcode × W
  pub init_message_queue : W → Retcode × W
  pub init_trampoline : W → Retcode × W
  pub init_dispatch : W → Retcode × W
  pub init_comm : W → Retcode × W
  pub shutdown_context : W → Retcode × W
  pub shutdown_comm : W → Retcode × W
  pub shutdown_dispatch : W → Retcode × W
  pub shutdown_message_queue : W → Retcode × W
  pub shutdown_trampoline : W → Retcode × W
  pub cleanup_default_tcp_directory : W → Retcode × W
  pub clear_allocators : W → Retcode × W
  pub set_allocators : W → W

pub record Api (W : Type 0) : Type 0 where
  pub state : ModuleState
  pub world : W

module _ {W : Type 0} where
  -- The steps are run up to the first that fails, whose code is the result.
  unfoldable pub run_while_success : List (W → Retcode × W) → W → Retcode × W
  run_while_success [] w = (Retcode.success, w)
  run_while_success (step ∷ steps) w =
      let (code, w') = step w in
      let rest = run_while_success steps w' in if is_success code then rest else (code, w')

  -- All the steps are run; the first code that is not a success stays.
  unfoldable pub run_all : List (W → Retcode × W) → Retcode → W → Retcode × W
  run_all [] code w = (code, w)
  run_all (step ∷ steps) code w =
      let (sub_retcode, w') = step w in
      run_all steps (if is_success code then sub_retcode else code) w'

module _ {W : Type 0} (sub : Subsystems W) where
  open sub use {
    set_application_name, setup_default_tcp_directory, init_context, init_message_queue,
    init_trampoline, init_dispatch, init_comm, shutdown_context, shutdown_comm, shutdown_dispatch,
    shutdown_message_queue, shutdown_trampoline, cleanup_default_tcp_directory, clear_allocators,
    set_allocators,
  }

  abbrev pub init_steps : Option (List ℕ) → List (W → Retcode × W)
  init_steps name =
      set_application_name name
      ∷ setup_default_tcp_directory
      ∷ init_context
      ∷ init_message_queue
      ∷ init_trampoline
      ∷ init_dispatch
      ∷ init_comm
      ∷ []

  abbrev pub shutdown_steps : List (W → Retcode × W)
  shutdown_steps =
      shutdown_context ∷ shutdown_comm ∷ shutdown_dispatch ∷ shutdown_message_queue
      ∷ shutdown_trampoline ∷ cleanup_default_tcp_directory ∷ clear_allocators ∷ []

  -- `substance_connector_init`
  unfoldable pub api_init : Option (List ℕ) → Api W → Retcode × Api W
  unfolding exchange
  api_init name api =
      let (initialized, state) = exchange api.state ModuleState.shutdown ModuleState.init_started in
      let (code, w) = run_while_success (init_steps name) api.world in
      if same initialized ModuleState.shutdown
      then (code, record { state = init_end code state; world = w })
      else (Retcode.error, record { state = state; world = api.world })

  -- `substance_connector_shutdown`: the last exchange is made in both cases.
  unfoldable pub api_shutdown : Api W → Retcode × Api W
  unfolding exchange
  api_shutdown api =
      let (initialized, state) =
        exchange api.state ModuleState.init_finished ModuleState.shutdown_started in
      let (code, w) =
        if same initialized ModuleState.init_finished
        then run_all shutdown_steps Retcode.success api.world
        else (Retcode.error, api.world) in
      (
        code,
        record {
          state = (exchange state ModuleState.shutdown_started ModuleState.shutdown).1;
          world = w;
        },
      )

  -- `substance_connector_set_allocators`; the flag says whether neither pointer is null.
  unfoldable pub api_set_allocators : Bool → Api W → Retcode × Api W
  unfolding exchange
  api_set_allocators given api =
      let (initialized, state) =
        exchange api.state ModuleState.shutdown ModuleState.allocator_started in
      if same initialized ModuleState.shutdown
      then (
        if given then Retcode.success else Retcode.invalid,
        record {
          state = (exchange state ModuleState.allocator_started ModuleState.shutdown).1;
          world = if given then set_allocators api.world else api.world;
        },
      )
      else (Retcode.invalid, record { state = state; world = api.world })
