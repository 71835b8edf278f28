-- ===== src/Api/Tests.antt =====
-- The theorems about the functions at concrete inputs: the world counts what reaches it.
use substance_3d_connector.Base.{ℕ, ◌+◌, ◌≡◌, refl, true, [], ◌∷◌, none, some}
use substance_3d_connector.Retcode.{Retcode}
use substance_3d_connector.Uuid.{internal_log_uuid}
use substance_3d_connector.Message.{Message, build_message, message_identifier}
use substance_3d_connector.Api.{
  ModuleState, Subsystems, Api, run_while_success, run_all, init_steps, shutdown_steps, api_init,
  api_shutdown, api_set_allocators,
}
use substance_3d_connector.Api.Calls.{Operations, guarded_out, api_open_tcp}
use substance_3d_connector.Api.Lifecycle.{api_lifecycle, failed_init_locks}

abbrev counting : Retcode → Subsystems ℕ
counting comm = record {
  set_application_name = λ name w. (Retcode.success, w + 1);
  setup_default_tcp_directory = λ w. (Retcode.success, w + 1);
  init_context = λ w. (Retcode.success, w + 1);
  init_message_queue = λ w. (Retcode.success, w + 1);
  init_trampoline = λ w. (Retcode.success, w + 1);
  init_dispatch = λ w. (Retcode.success, w + 1);
  init_comm = λ w. (comm, w + 1);
  shutdown_context = λ w. (Retcode.success, w + 1);
  shutdown_comm = λ w. (comm, w + 1);
  shutdown_dispatch = λ w. (Retcode.success, w + 1);
  shutdown_message_queue = λ w. (Retcode.success, w + 1);
  shutdown_trampoline = λ w. (Retcode.success, w + 1);
  cleanup_default_tcp_directory = λ w. (Retcode.success, w + 1);
  clear_allocators = λ w. (Retcode.success, w + 1);
  set_allocators = λ w. w + 1;
}

all_started :
    run_while_success (init_steps (counting Retcode.success) none) 0 ≡ (Retcode.success, 7)
unfolding run_while_success
all_started = refl

one_failed : run_while_success (init_steps (counting Retcode.error) none) 0 ≡ (Retcode.error, 7)
unfolding run_while_success
one_failed = refl

all_stopped :
    run_all (shutdown_steps (counting Retcode.invalid)) Retcode.success 7 ≡ (Retcode.invalid, 14)
unfolding run_all
all_stopped = refl

-- The end of the communication fails, and the others do not.
abbrev unending : Subsystems ℕ
unending = record (counting Retcode.success) { shutdown_comm = λ w. (Retcode.conn_fail, w + 1) }

abbrev before : Api ℕ
before = record { state = ModuleState.shutdown; world = 0 }

api_lifecycle_example :
    let sub = unending in
    let (code, api) = api_init sub none before in
    (code ≡ Retcode.success)
    × (api_init sub none api ≡ (Retcode.error, api))
    × (api_shutdown sub api
        ≡ (Retcode.conn_fail, record { state = ModuleState.shutdown; world = 14 }))
api_lifecycle_example = api_lifecycle unending none 0 refl refl refl refl refl refl refl

failed_init_locks_example :
    let sub = counting Retcode.error in
    let (code', api) = api_init sub none before in
    (code' ≡ Retcode.error)
    × (api_init sub none api ≡ (Retcode.error, api))
    × (api_shutdown sub api ≡ (Retcode.error, api))
    × (api_set_allocators sub true api ≡ (Retcode.invalid, api))
failed_init_locks_example =
    failed_init_locks (counting Retcode.error) none 0 7 Retcode.error true one_failed refl

abbrev tallies : Operations ℕ
tallies = record {
  enqueue_outbound_message = λ m w. w + 10;
  flag_write = λ w. w + 1;
  add_trampoline = λ t w. (Retcode.success, w + 1);
  remove_trampoline = λ t w. (Retcode.success, w + 1);
  context_open_tcp = λ p w. (Retcode.success, some 0, w + 1);
  context_open_unix = λ p w. (Retcode.success, some 0, w + 1);
  context_close = λ c w. (Retcode.success, w + 1);
  context_connect_tcp = λ p w. (Retcode.success, some 0, w + 1);
  context_connect_unix = λ p w. (Retcode.success, some 0, w + 1);
  broadcast_connect_tcp = λ w. (Retcode.success, w + 1);
  broadcast_connect_unix = λ w. (Retcode.success, w + 1);
  broadcast_connect_default = λ w. (Retcode.success, w + 1);
  open_default_tcp = λ c w. (Retcode.success, some 0, w + 1);
  open_default_unix = λ c w. (Retcode.success, some 0, w + 1);
  open_default_connection = λ c w. (Retcode.success, some 0, w + 1);
}

opens_once :
    (api_open_tcp tallies 4000 true (record { state = ModuleState.init_finished; world = 0 })).1
    ≡ some 0
unfolding api_open_tcp guarded_out
opens_once = refl

abbrev hello : Message
hello = record {
  header = record {
    description = message_identifier;
    message_length = 1;
    message_id = internal_log_uuid;
  };
  message = some (65 ∷ []);
  context = 3;
}

hello_built : build_message true 3 (some internal_log_uuid) (some (65 ∷ [])) ≡ some hello
unfolding build_message
hello_built = refl

abbrev running : Api ℕ
running = record { state = ModuleState.init_finished; world = 0 }
