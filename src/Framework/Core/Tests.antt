-- ===== src/Framework/Core/Tests.antt =====
-- Runs of the layer.
use substance_3d_connector.Base.{
  ℕ, ◌+◌, ◌≡◌, refl, true, false, List, [], ◌∷◌, none, some, length, replicate,
}
use substance_3d_connector.Retcode.{Retcode}
use substance_3d_connector.Uuid.{Uuid}
use substance_3d_connector.Framework.Uuids.{less}
use substance_3d_connector.Framework.Callbacks
use substance_3d_connector.Framework.Callbacks.{found_or_empty}
use substance_3d_connector.Framework.Applications.{Application, load_sbsar_id}
use substance_3d_connector.Framework.Core.{
  StartupState, CoreTable, Framework, is_shut, call_each, cpp_trampoline, init, shutdown,
}
use substance_3d_connector.Framework.Core.Lifecycle.{
  offered, Attempt, attempts, renamed, framework_lifecycle, failed_init_blocks,
}

-- A core that starts with the given code, and counts its calls.
abbrev table : Retcode → CoreTable ℕ
table code = record {
  init_dynamic_load = λ h w. w;
  init = λ name w. (code, w + 1);
  add_trampoline = λ w. w + 1;
  shutdown = λ w. (Retcode.success, w + 1);
}

abbrev sbsar : Application
sbsar = record {
  own = (load_sbsar_id, some 7 ∷ none ∷ some 8 ∷ []) ∷ [];
  feature_ids = load_sbsar_id ∷ [];
  callbacks = [];
}

-- Two applications that both bind the same type.
abbrev ready : Framework ℕ
ready = record {
  startup_state = StartupState.connector_shutdown;
  applications = (3, sbsar) ∷ (5, record sbsar { own = (load_sbsar_id, some 9 ∷ []) ∷ [] }) ∷ [];
  feature_level = load_sbsar_id ∷ [];
  connection_display_name = [];
  connection_id = [];
  callback_map = [];
  outside = 0;
}

-- The first application's functions hear of a message.
first_heard :
    length (cpp_trampoline 1 load_sbsar_id [] (init (table Retcode.success) [] [] none ready).1) ≡ 2
unfolding cpp_trampoline init Callbacks.bind_callback Callbacks.find less
first_heard = refl

framework_lifecycle_example :
    let core = table Retcode.success in
    let (ok, f') = init core (97 ∷ []) (98 ∷ []) none ready in
    let (done, f'') = shutdown core (record f' { outside = 4 }) in
    (ok ≡ true)
    × ((context : ℕ) (t : Uuid) (text : List ℕ)
        → cpp_trampoline context t text f'
          ≡ call_each
              (found_or_empty (Callbacks.find t (offered ready.applications)))
              context
              t
              text)
    × (done ≡ true)
    × (is_shut f''.startup_state ≡ true)
    × (f''.applications ≡ [])
    × (f''.feature_level ≡ [])
    × (f''.callback_map ≡ [])
framework_lifecycle_example =
    framework_lifecycle (table Retcode.success) (97 ∷ []) (98 ∷ []) none ready 4 refl refl refl refl

failed_init_blocks_example :
    let core = table Retcode.error in
    let (ok, f') = init core (97 ∷ []) (98 ∷ []) none ready in
    (ok ≡ false)
    × ((n i : List ℕ) × (attempts core
            (Attempt.register (some (6, sbsar)) ∷ Attempt.initialise [] [] none ∷ Attempt.stop ∷ [])
            f'
          ≡ (replicate 3 false, renamed f' n i)))
failed_init_blocks_example =
    failed_init_blocks (table Retcode.error) (97 ∷ []) (98 ∷ []) none ready
      (Attempt.register (some (6, sbsar)) ∷ Attempt.initialise [] [] none ∷ Attempt.stop ∷ []) refl
      refl
