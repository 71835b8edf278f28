-- ===== src/Api/Calls.antt =====
-- The functions of core/src/external_api.c that pass a call on while the module is initialised.
use substance_3d_connector.Base.{ℕ, ◌&&◌, Bool, true, List, Option, none, some, if◌then◌else◌}
use substance_3d_connector.Retcode.{Retcode}
use substance_3d_connector.Uuid.{Uuid}
use substance_3d_connector.Message.{Message, build_message}
use substance_3d_connector.Api.{ModuleState, same, Api}

-- The operations that are called, over a state `W` of all subsystems. A trampoline is named by the
-- address of its code; null is `none`.
pub record Operations (W : Type 0) : Type 0 where
  pub enqueue_outbound_message : Message → W → W
  pub flag_write : W → W
  pub add_trampoline : Option ℕ → W → Retcode × W
  pub remove_trampoline : Option ℕ → W → Retcode × W
  pub context_open_tcp : ℕ → W → Retcode × Option ℕ × W
  pub context_open_unix : Option (List ℕ) → W → Retcode × Option ℕ × W
  pub context_close : ℕ → W → Retcode × W
  pub context_connect_tcp : ℕ → W → Retcode × Option ℕ × W
  pub context_connect_unix : Option (List ℕ) → W → Retcode × Option ℕ × W
  pub broadcast_connect_tcp : W → Retcode × W
  pub broadcast_connect_unix : W → Retcode × W
  pub broadcast_connect_default : W → Retcode × W
  pub open_default_tcp : Bool → W → Retcode × Option ℕ × W
  pub open_default_unix : Bool → W → Retcode × Option ℕ × W
  pub open_default_connection : Bool → W → Retcode × Option ℕ × W

module _ {W : Type 0} where
  abbrev pub ready : Api W → Bool
  ready api = same api.state ModuleState.init_finished

  -- A call behind the test of the state.
  unfoldable pub guarded : (W → Retcode × W) → Api W → Retcode × Api W
  guarded call api =
      let (code, w) = call api.world in
      if ready api then (code, record api { world = w }) else (Retcode.error, api)

  -- A call with an out parameter, behind a test of the state and another one.
  unfoldable pub guarded_out :
      Bool → (W → Retcode × Option ℕ × W) → Api W → Retcode × Option ℕ × Api W
  guarded_out test call api =
      let (code, out, w) = call api.world in
      if ready api && test
      then (code, out, record api { world = w })
      else (Retcode.error, none, api)

module _ {W : Type 0} (ops : Operations W) where
  -- The message that was built goes to the write threads.
  unfoldable pub send : ℕ → Option Message → Api W → Retcode × Api W
  send context none api = (Retcode.invalid, api)
  send context (some m) api = (
    Retcode.success,
    record api {
      world =
          ops.flag_write (ops.enqueue_outbound_message (record m { context = context }) api.world);
    },
  )

  -- The flag tells whether the allocator gives the memory of the message.
  unfoldable pub write_message : Bool → ℕ → Option Uuid → Option (List ℕ) → Api W → Retcode × Api W
  unfolding send
  write_message memory context type message api =
      let sent = send context (build_message memory context type message) api in
      if ready api then sent else (Retcode.invalid, api)

  unfoldable pub api_add_trampoline : Option ℕ → Api W → Retcode × Api W
  api_add_trampoline trampoline = guarded (ops.add_trampoline trampoline)

  unfoldable pub api_remove_trampoline : Option ℕ → Api W → Retcode × Api W
  api_remove_trampoline trampoline = guarded (ops.remove_trampoline trampoline)

  -- In the four functions that test it, the flag says whether the out pointer is not null.
  unfoldable pub api_open_tcp : ℕ → Bool → Api W → Retcode × Option ℕ × Api W
  api_open_tcp port context = guarded_out context (ops.context_open_tcp port)

  unfoldable pub api_open_unix : Option (List ℕ) → Bool → Api W → Retcode × Option ℕ × Api W
  api_open_unix filepath context = guarded_out context (ops.context_open_unix filepath)

  -- There is no test of the state.
  unfoldable api_close_context : ℕ → Api W → Retcode × Api W
  api_close_context context api =
      let (code, w) = ops.context_close context api.world in (code, record api { world = w })

  unfoldable pub api_connect_tcp : ℕ → Bool → Api W → Retcode × Option ℕ × Api W
  api_connect_tcp port context = guarded_out context (ops.context_connect_tcp port)

  unfoldable pub api_connect_unix : Option (List ℕ) → Bool → Api W → Retcode × Option ℕ × Api W
  api_connect_unix filepath context = guarded_out context (ops.context_connect_unix filepath)

  unfoldable pub api_broadcast_tcp : Api W → Retcode × Api W
  api_broadcast_tcp = guarded ops.broadcast_connect_tcp

  unfoldable pub api_broadcast_unix : Api W → Retcode × Api W
  api_broadcast_unix = guarded ops.broadcast_connect_unix

  unfoldable pub api_broadcast_default : Api W → Retcode × Api W
  api_broadcast_default = guarded ops.broadcast_connect_default

  unfoldable pub api_open_default_tcp : Bool → Api W → Retcode × Option ℕ × Api W
  api_open_default_tcp context = guarded_out true (ops.open_default_tcp context)

  unfoldable pub api_open_default_unix : Bool → Api W → Retcode × Option ℕ × Api W
  api_open_default_unix context = guarded_out true (ops.open_default_unix context)

  unfoldable pub api_open_default : Bool → Api W → Retcode × Option ℕ × Api W
  api_open_default context = guarded_out true (ops.open_default_connection context)
