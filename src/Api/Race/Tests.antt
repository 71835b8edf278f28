-- ===== src/Api/Race/Tests.antt =====
-- The threads in concrete runs.
use substance_3d_connector.Base.{ℕ, ◌≡◌, refl, Bool, true}
use substance_3d_connector.Retcode.{Retcode}
use substance_3d_connector.Api.{ModuleState, exchange}
use substance_3d_connector.Api.Race.{Body, Pc, Config, begun, at, Step, Reach}
use substance_3d_connector.Api.Race.Exclusion.{bodies_exclusive}

-- Thread 4 is initialising.
abbrev initialising : Config
initialising = record { state = ModuleState.init_started; pc = at begun.pc 4 (Pc.inside Body.init) }

initialising_reached : {lates : Bool} → Reach lates initialising
unfolding exchange
initialising_reached = Reach.next Reach.start (Step.enter 4 Body.init refl refl)

abbrev four : ℕ
four = 4

bodies_exclusive_example : (four ≡ four) × (initialising.state ≡ ModuleState.init_started)
bodies_exclusive_example = bodies_exclusive 4 4 Body.init Body.init initialising_reached refl refl

-- It has finished, and is shutting down.
abbrev stopping : Config
stopping = record {
  state = ModuleState.shutdown_started;
  pc = at (at initialising.pc 4 Pc.idle) 4 (Pc.inside Body.shutdown);
}

stopping_reached : Reach true stopping
unfolding exchange
stopping_reached =
    Reach.next (Reach.next initialising_reached (Step.leave 4 Body.init Retcode.success refl))
      (Step.enter 4 Body.shutdown refl refl)
