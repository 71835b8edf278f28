-- ===== src/Api/Race.antt =====
-- Several threads that initialise, shut down and set the allocators. The exchanges of the state are
-- single steps; between its two exchanges a call is inside its body, and a shutdown that found the
-- module not initialised goes straight to its second exchange.
pub mod Exclusion
mod Tests
use substance_3d_connector.Base.{
  ℕ, ◌≡◌, ◌≢◌, refl, arith, sym, ap, ◌∙◌, ◌==◌, ==_refl, ne→==, Bool, true, false, if◌then◌else◌,
  ℕ_discrete,
}
use substance_3d_connector.Retcode.{Retcode}
use substance_3d_connector.Api.{ModuleState, same, exchange, init_end}

pub data Body : Type 0 where
  init : Body
  shutdown : Body
  allocator : Body

pub data Pc : Type 0 where
  idle : Pc
  inside : Body → Pc
  late : Pc

pub record Config : Type 0 where
  pub state : ModuleState
  pub pc : ℕ → Pc

abbrev pub begun : Config
begun = record { state = ModuleState.shutdown; pc = λ t. Pc.idle }

abbrev pub at : (ℕ → Pc) → ℕ → Pc → ℕ → Pc
at pc t p k = if k == t then p else pc k

-- The first exchange of each body, its last one, and the state in between.
abbrev pub expected : Body → ModuleState
expected Body.init = ModuleState.shutdown
expected Body.shutdown = ModuleState.init_finished
expected Body.allocator = ModuleState.shutdown

abbrev pub started : Body → ModuleState
started Body.init = ModuleState.init_started
started Body.shutdown = ModuleState.shutdown_started
started Body.allocator = ModuleState.allocator_started

abbrev pub ended : Body → Retcode → ModuleState → ModuleState
ended Body.init code s = init_end code s
ended Body.shutdown code s = (exchange s ModuleState.shutdown_started ModuleState.shutdown).1
ended Body.allocator code s = (exchange s ModuleState.allocator_started ModuleState.shutdown).1

-- The steps; the flag allows shutdowns that come too late.
pub data Step (lates : Bool) (c : Config) : Config → Type 0 where
  enter :
      (t : ℕ) (b : Body)
      → c.pc t ≡ Pc.idle
      → c.state ≡ expected b
      → Step lates c (record {
        state = (exchange c.state (expected b) (started b)).1;
        pc = at c.pc t (Pc.inside b);
      })
  leave :
      (t : ℕ) (b : Body) (code : Retcode)
      → c.pc t ≡ Pc.inside b
      → Step lates c (record { state = ended b code c.state; pc = at c.pc t Pc.idle })
  miss :
      (t : ℕ)
      → lates ≡ true
      → c.pc t ≡ Pc.idle
      → same c.state ModuleState.init_finished ≡ false
      → Step lates c (record { state = c.state; pc = at c.pc t Pc.late })
  reset :
      (t : ℕ)
      → c.pc t ≡ Pc.late
      → Step lates c (record {
        state = (exchange c.state ModuleState.shutdown_started ModuleState.shutdown).1;
        pc = at c.pc t Pc.idle;
      })

pub data Reach (lates : Bool) : Config → Type 0 where
  start : Reach lates begun
  next : {c c' : Config} → Reach lates c → Step lates c c' → Reach lates c'
