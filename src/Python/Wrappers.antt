-- ===== src/Python/Wrappers.antt =====
-- module-python/src/details: the functions of the table of methods, over the core's calls. What
-- PyArg_ParseTuple makes of the arguments is an input, `none` where it fails and sets an exception.
use substance_3d_connector.Base.{
  ℕ, zero, suc, ltb, ◌+◌, ◌%◌, ◌^◌, ◌<◌, ◌≡◌, arith, ◌>>=◌, if◌then◌else◌, List, [], ◌∷◌, Option,
  none, some,
}
use substance_3d_connector.Retcode.{Retcode, is_success}
use substance_3d_connector.Uuid.{Uuid}
use substance_3d_connector.Python.{PythonModule, shutdown_trampoline}

-- The public functions of the core over a state of its own. `add_trampoline` and `remove_trampoline`
-- are those for `connector_python_trampoline`.
pub record CoreCalls (W : Type 0) : Type 0 where
  pub init : List ℕ → W → Retcode × W
  pub shutdown : W → Retcode × W
  pub add_trampoline : W → W
  pub remove_trampoline : W → W
  pub open_tcp : ℕ → W → Retcode × ℕ × W
  pub open_default_tcp : W → Retcode × ℕ × W
  pub broadcast_tcp : W → Retcode × W
  pub write_message : ℕ → Uuid → Option (List ℕ) → W → Retcode × W

-- What a function gives: a number for a code or a context, or a null pointer with an exception, that
-- of the parsing where the function sets none.
pub data Returned : Type 0 where
  error_code : Retcode → Returned
  number : ℕ → Returned
  connection_error type_error parse_error : Returned

-- An element of an identifier.
abbrev set_part : ℕ → ℕ → Uuid → Uuid
set_part zero x u = record u { e0 = x % 2 ^ 32 }
set_part (suc zero) x u = record u { e1 = x % 2 ^ 32 }
set_part (suc (suc zero)) x u = record u { e2 = x % 2 ^ 32 }
set_part (suc (suc (suc i))) x u = record u { e3 = x % 2 ^ 32 }

-- The loop of `connector_python_assemble_uuid` from an index on, over the numbers of the list from
-- there on.
unfoldable assemble_loop : ℕ → List ℕ → Uuid → Uuid
assemble_loop i [] u = u
assemble_loop i (x ∷ list) u =
    let rest = assemble_loop (i + 1) list (set_part i x u) in if ltb i 4 then rest else u

-- `connector_python_assemble_uuid`, for what stands in the identifier before.
unfoldable assemble_uuid : List ℕ → Uuid → Uuid
assemble_uuid list u = assemble_loop 0 list u

module _ {W : Type 0} (core : CoreCalls W) where
  -- `connector_python_init`; a name that cannot be parsed gives the code of a success.
  unfoldable python_init : Option (List ℕ) → W → Returned × W
  python_init none w = (Returned.error_code Retcode.success, w)
  python_init (some name) w =
      let (code, w') = core.init name w in (Returned.error_code code, core.add_trampoline w')

  -- `connector_python_shutdown`
  unfoldable python_shutdown :
      {P : Type 0} → PythonModule P → W → Option (Returned × PythonModule P × W)
  python_shutdown m w = do
    m' ← shutdown_trampoline m
    let (code, w') = core.shutdown (core.remove_trampoline w)
    some (Returned.error_code code, m', w')

  -- The result of an opening.
  abbrev opened : Retcode × ℕ × W → Returned × W
  opened (code, context, w) =
      (if is_success code then Returned.number context else Returned.connection_error, w)

  -- `connector_python_open_tcp`, for an unsigned long.
  unfoldable python_open_tcp : Option ℕ → W → Returned × W
  python_open_tcp none w = (Returned.type_error, w)
  python_open_tcp (some port) w = opened (core.open_tcp (port % 2 ^ 32) w)

  -- `connector_python_open_default_tcp`
  unfoldable python_open_default_tcp : W → Returned × W
  python_open_default_tcp w = opened (core.open_default_tcp w)

  -- `connector_python_broadcast_tcp`
  unfoldable python_broadcast_tcp : W → Returned × W
  python_broadcast_tcp w = let (code, w') = core.broadcast_tcp w in (Returned.error_code code, w')

  -- `connector_python_write_message`, for the low half of the parsed context, the numbers of the
  -- list, and a message that can be left out; the identifier starts as what its memory held.
  unfoldable python_write_message : Uuid → Option (ℕ × List ℕ × Option (List ℕ)) → W → Returned × W
  python_write_message memory none w = (Returned.parse_error, w)
  python_write_message memory (some (context, list, message)) w =
      let (code, w') = core.write_message context (assemble_uuid list memory) message w in
      (Returned.error_code code, w')

-- The list of the parts of an identifier is assembled to that identifier, whatever its memory held.
assemble_uuid-parts :
    (u memory : Uuid) (list : List ℕ)
    → u.e0 < 2 ^ 32
    → u.e1 < 2 ^ 32
    → u.e2 < 2 ^ 32
    → u.e3 < 2 ^ 32
    → assemble_uuid (u.e0 ∷ u.e1 ∷ u.e2 ∷ u.e3 ∷ list) memory ≡ u
unfolding assemble_uuid assemble_loop
assemble_uuid-parts u memory [] h0 h1 h2 h3 = ground (arith, h0, h1, h2, h3)
assemble_uuid-parts u memory (x ∷ list) h0 h1 h2 h3 = ground (arith, h0, h1, h2, h3)
