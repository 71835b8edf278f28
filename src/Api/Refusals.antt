-- ===== src/Api/Refusals.antt =====
-- What the functions do while the module is not initialised.
use substance_3d_connector.Base.{ℕ, ◌≡◌, refl, Bool, true, false, List, Option, none, some}
use substance_3d_connector.Retcode.{Retcode}
use substance_3d_connector.Uuid.{Uuid}
use substance_3d_connector.Message.{Message, build_message}
use substance_3d_connector.Api.{Api}
use substance_3d_connector.Api.Calls.{
  Operations, ready, guarded, guarded_out, send, write_message, api_add_trampoline,
  api_remove_trampoline, api_open_tcp, api_open_unix, api_connect_tcp, api_connect_unix,
  api_broadcast_tcp, api_broadcast_unix, api_broadcast_default, api_open_default_tcp,
  api_open_default_unix, api_open_default,
}

module _ {W : Type 0} (ops : Operations W) (api : Api W) where
  guarded-refused :
      (call : W → Retcode × W) → ready api ≡ false → guarded call api ≡ (Retcode.error, api)
  unfolding guarded
  guarded-refused call e = rw e refl

  guarded_out-refused :
      (test : Bool) (call : W → Retcode × Option ℕ × W)
      → ready api ≡ false
      → guarded_out test call api ≡ (Retcode.error, none, api)
  unfolding guarded_out
  guarded_out-refused test call e = rw e refl

  write_message-refused :
      (memory : Bool) (context : ℕ) (type : Option Uuid) (text : Option (List ℕ))
      → ready api ≡ false
      → write_message ops memory context type text api ≡ (Retcode.invalid, api)
  unfolding write_message
  write_message-refused memory context type text e = rw e refl

  -- While the module is not initialised, every function but the one that closes a context reports
  -- a failure, gives no identifier and reaches no subsystem.
  pub calls_refused :
      (flag : Bool) (n : ℕ) (type : Option Uuid) (text : Option (List ℕ)) (trampoline : Option ℕ)
      → ready api ≡ false
      → (write_message ops flag n type text api ≡ (Retcode.invalid, api))
        × (api_add_trampoline ops trampoline api ≡ (Retcode.error, api))
        × (api_remove_trampoline ops trampoline api ≡ (Retcode.error, api))
        × (api_open_tcp ops n flag api ≡ (Retcode.error, none, api))
        × (api_open_unix ops text flag api ≡ (Retcode.error, none, api))
        × (api_connect_tcp ops n flag api ≡ (Retcode.error, none, api))
        × (api_connect_unix ops text flag api ≡ (Retcode.error, none, api))
        × (api_broadcast_tcp ops api ≡ (Retcode.error, api))
        × (api_broadcast_unix ops api ≡ (Retcode.error, api))
        × (api_broadcast_default ops api ≡ (Retcode.error, api))
        × (api_open_default_tcp ops flag api ≡ (Retcode.error, none, api))
        × (api_open_default_unix ops flag api ≡ (Retcode.error, none, api))
        × (api_open_default ops flag api ≡ (Retcode.error, none, api))
  unfolding api_add_trampoline api_remove_trampoline api_open_tcp api_open_unix api_connect_tcp
      api_connect_unix api_broadcast_tcp api_broadcast_unix api_broadcast_default
      api_open_default_tcp api_open_default_unix api_open_default
  calls_refused flag n type text trampoline e = (
    write_message-refused flag n type text e,
    guarded-refused _ e,
    guarded-refused _ e,
    guarded_out-refused _ _ e,
    guarded_out-refused _ _ e,
    guarded_out-refused _ _ e,
    guarded_out-refused _ _ e,
    guarded-refused _ e,
    guarded-refused _ e,
    guarded-refused _ e,
    guarded_out-refused _ _ e,
    guarded_out-refused _ _ e,
    guarded_out-refused _ _ e,
  )

  -- An initialised module that has memory for the message hands it to the write threads under the
  -- context that was given, then wakes them, and reports a success.
  write_message-sends :
      (context : ℕ) (type : Option Uuid) (text : Option (List ℕ)) (m : Message)
      → ready api ≡ true
      → build_message true context type text ≡ some m
      → write_message ops true context type text api ≡ (
        Retcode.success,
        record api {
          world =
              ops.flag_write
                (ops.enqueue_outbound_message (record m { context = context }) api.world);
        },
      )
  unfolding write_message send
  write_message-sends context type text m now built = rw (now, built) refl
