-- ===== src/Api/Lifecycle.antt =====
-- The life of the module as one caller sees it.
use substance_3d_connector.Base.{
  ℕ, ◌≡◌, refl, ◌∙◌, ap, Bool, Bool-cases, inl, inr, false, if◌then◌else◌, List, [], ◌∷◌, Option,
}
use substance_3d_connector.Retcode.{Retcode, is_success}
use substance_3d_connector.Api.{
  ModuleState, exchange, Subsystems, Api, run_while_success, run_all, init_steps, shutdown_steps,
  api_init, api_shutdown, api_set_allocators,
}

-- The first of some codes that is not a success, or the last of them.
abbrev pub first_failure : Retcode → List Retcode → Retcode
first_failure code [] = code
first_failure code (next ∷ codes) = if is_success code then first_failure next codes else code

first_failure-stays :
    (code : Retcode) (codes : List Retcode)
    → is_success code ≡ false
    → first_failure code codes ≡ code
first_failure-stays code [] e = refl
first_failure-stays code (next ∷ codes) e = rw e refl

module _ {W : Type 0} where
  -- The codes that steps give one after the other, and the world that they leave.
  abbrev codes_of : List (W → Retcode × W) → W → List Retcode
  codes_of [] w = []
  codes_of (step ∷ steps) w = (step w).0 ∷ codes_of steps (step w).1

  abbrev world_after : List (W → Retcode × W) → W → W
  world_after [] w = w
  world_after (step ∷ steps) w = world_after steps (step w).1

  run_all-runs :
      (steps : List (W → Retcode × W)) (code : Retcode) (w : W)
      → run_all steps code w ≡ (first_failure code (codes_of steps w), world_after steps w)
  unfolding run_all
  run_all-runs [] code w = refl
  run_all-runs (step ∷ steps) code w = elim (Bool-cases (is_success code)) [
    | inl done ↦ rw done (run_all-runs steps (step w).0 (step w).1)
    | inr failed ↦ rw failed (
        run_all-runs steps code (step w).1
        ∙ ap (λ c. (c, world_after steps (step w).1)) (first_failure-stays code _ failed))
  ]

module _ {W : Type 0} (sub : Subsystems W) (name : Option (List ℕ)) (w w' : W) where
  init-succeeds :
      run_while_success (init_steps sub name) w ≡ (Retcode.success, w')
      → api_init sub name (record { state = ModuleState.shutdown; world = w })
        ≡ (Retcode.success, record { state = ModuleState.init_finished; world = w' })
  unfolding api_init exchange
  init-succeeds e = rw e refl

  init-refused :
      let api : Api W = record { state = ModuleState.init_finished; world = w' } in
      api_init sub name api ≡ (Retcode.error, api)
  unfolding api_init exchange
  init-refused = refl

module _ {W : Type 0} (sub : Subsystems W) (name : Option (List ℕ)) (w : W) where
  -- Once an initialisation has set the application's name, set up the default directory, and started
  -- the contexts, the message queues, the trampolines, the dispatch and the communication, in this
  -- order and each with a success, a second initialisation is refused and changes nothing; a shutdown
  -- then ends the contexts, the communication, the dispatch, the message queues, the trampolines and
  -- the default directory, and clears the allocators, in this order and each once, whatever the ones
  -- before gave; it gives the first of their codes that is not a success, or the last, and leaves the
  -- module shut down, so that it can be initialised again.
  pub api_lifecycle :
      {v1 v2 v3 v4 v5 v6 v7 : W}
      → sub.set_application_name name w ≡ (Retcode.success, v1)
      → sub.setup_default_tcp_directory v1 ≡ (Retcode.success, v2)
      → sub.init_context v2 ≡ (Retcode.success, v3)
      → sub.init_message_queue v3 ≡ (Retcode.success, v4)
      → sub.init_trampoline v4 ≡ (Retcode.success, v5)
      → sub.init_dispatch v5 ≡ (Retcode.success, v6)
      → sub.init_comm v6 ≡ (Retcode.success, v7)
      → let (code, api) = api_init sub name (record { state = ModuleState.shutdown; world = w }) in
        let (c1, w1) = sub.shutdown_context v7 in
        let (c2, w2) = sub.shutdown_comm w1 in
        let (c3, w3) = sub.shutdown_dispatch w2 in
        let (c4, w4) = sub.shutdown_message_queue w3 in
        let (c5, w5) = sub.shutdown_trampoline w4 in
        let (c6, w6) = sub.cleanup_default_tcp_directory w5 in
        let (c7, w7) = sub.clear_allocators w6 in
        (code ≡ Retcode.success)
        × (api_init sub name api ≡ (Retcode.error, api))
        × (api_shutdown sub api ≡ (
          first_failure c1 (c2 ∷ c3 ∷ c4 ∷ c5 ∷ c6 ∷ c7 ∷ []),
          record { state = ModuleState.shutdown; world = w7 },
        ))
  unfolding api_shutdown exchange run_while_success
  api_lifecycle {v7} e1 e2 e3 e4 e5 e6 e7 =
      let started : run_while_success (init_steps sub name) w ≡ (Retcode.success, v7) =
        rw (e1, e2, e3, e4, e5, e6, e7) refl in
      rw (init-succeeds sub name w v7 started) (
        refl,
        init-refused sub name w v7,
        rw (run_all-runs (shutdown_steps sub) Retcode.success v7) refl,
      )

module _ {W : Type 0} (sub : Subsystems W) (name : Option (List ℕ)) (w w' : W) where
  -- After an initialisation one of whose steps failed, the module is locked: neither another
  -- initialisation, nor a shutdown, nor setting the allocators does anything but report a failure.
  pub failed_init_locks :
      (code : Retcode) (given : Bool)
      → run_while_success (init_steps sub name) w ≡ (code, w')
      → is_success code ≡ false
      → let (code', api) = api_init sub name (record { state = ModuleState.shutdown; world = w }) in
        (code' ≡ code)
        × (api_init sub name api ≡ (Retcode.error, api))
        × (api_shutdown sub api ≡ (Retcode.error, api))
        × (api_set_allocators sub given api ≡ (Retcode.invalid, api))
  unfolding api_init api_shutdown api_set_allocators exchange
  failed_init_locks code given e fails = rw (e, fails) (refl, refl, refl, refl)
