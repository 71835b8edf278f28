-- ===== src/Framework/Load.antt =====
-- module-cpp/src/framework/details/dynamicload.cpp, in a build that loads the core: the table of the
-- core's functions is a symbol of a module. The search of the system for a symbol is a parameter.
use substance_3d_connector.Base.{ℕ, Bool, true, false, List, Option, none, some, codes}

-- `connectorDynamicLoadAcquireSymbol`, for what dlsym gives.
unfoldable acquire_symbol : (ℕ → List ℕ → Option ℕ) → ℕ → List ℕ → Option ℕ
acquire_symbol dlsym module_handle name = dlsym module_handle name

-- The table that was found replaces the old one.
abbrev loaded : Option ℕ → Option ℕ → Bool × Option ℕ
loaded table none = (false, table)
loaded table (some symbol) = (true, some symbol)

-- `initDynamicLoad`, with `connectorFunctionTable` before and after.
unfoldable init_dynamic_load : (ℕ → List ℕ → Option ℕ) → Option ℕ → Option ℕ → Bool × Option ℕ
unfolding acquire_symbol
init_dynamic_load dlsym none table = (false, table)
init_dynamic_load dlsym (some module_handle) table =
    loaded table (acquire_symbol dlsym module_handle (codes "substance_connector_module_table"))

-- `shutdownDynamicLoad`
unfoldable shutdown_dynamic_load : Option ℕ → Bool × Option ℕ
shutdown_dynamic_load table = (true, none)
