-- ===== src/Python.antt =====
-- module-python/src: the module for Python. An object of Python is named by its address, and `own`
-- counts the references to each that the module holds; a release of a reference that it does not hold
-- and a release of a null pointer give no result. The interpreter is a parameter, and its memory
-- suffices for numbers and lists; the function that is called does not call the module.
pub mod References
pub mod Calls
pub mod Wrappers
mod Tests
use substance_3d_connector.Base.{
  ℕ, ◌+◌, ◌-◌, ◌==◌, ◌>>=◌, if◌then◌else◌, Bool, true, false, List, [], ◌∷◌, Option, none, some,
}
use substance_3d_connector.Uuid.{Uuid}

-- The calls of the interpreter over a state of its own: a new object for a number, for a text, which
-- is null for one that is not UTF-8, and for an empty list; the call of a function with its arguments,
-- whose result is null when it raised an exception; the taking and the giving back of its lock.
pub record Interpreter (P : Type 0) : Type 0 where
  pub long_from_unsigned_long : ℕ → P → ℕ × P
  pub unicode_from_string : List ℕ → P → Option ℕ × P
  pub list_new : P → ℕ × P
  pub list_append : ℕ → ℕ → P → P
  pub call_function : ℕ → List ℕ → P → Option ℕ × P
  pub gil_ensure : P → P
  pub gil_release : P → P

-- The static variable of trampoline.c, with the references.
pub record PythonModule (P : Type 0) : Type 0 where
  pub own : ℕ → ℕ
  pub trampoline : Option ℕ
  pub python : P

-- A reference to the first object counts for the second if it is the same.
abbrev pub counts : ℕ → ℕ → ℕ
counts p q = if p == q then 1 else 0

module _ {P : Type 0} where
  -- A new reference, from Py_INCREF or from a call that gives one.
  unfoldable pub gain : ℕ → PythonModule P → PythonModule P
  gain p m = record m { own = λ q. m.own q + counts p q }

  -- Py_DECREF
  unfoldable pub release : ℕ → PythonModule P → Option (PythonModule P)
  release p m = if m.own p == 0 then none else some (record m { own = λ q. m.own q - counts p q })

  -- Py_XDECREF
  unfoldable pub release_any : Option ℕ → PythonModule P → Option (PythonModule P)
  release_any none m = some m
  release_any (some p) m = release p m

  -- Py_DECREF of a pointer that can be null.
  unfoldable pub release_some : Option ℕ → PythonModule P → Option (PythonModule P)
  release_some none m = none
  release_some (some p) m = release p m

  -- A reference that a call gave, if it gave one.
  unfoldable pub gain_any : Option ℕ → PythonModule P → PythonModule P
  gain_any none m = m
  gain_any (some p) m = gain p m

  abbrev pub with_python : P → PythonModule P → PythonModule P
  with_python w m = record m { python = w }

  -- `connector_python_shutdown_trampoline`
  unfoldable pub shutdown_trampoline : PythonModule P → Option (PythonModule P)
  shutdown_trampoline m = do m' ← release_any m.trampoline m; some (record m' { trampoline = none })

  -- The exchange of the function in `connector_python_register_trampoline`.
  unfoldable pub set_trampoline : ℕ → PythonModule P → Option (PythonModule P)
  set_trampoline callback m = do
    m' ← release_any m.trampoline m
    some (record (gain callback m') { trampoline = some callback })

  -- `connector_python_register_trampoline`, for the argument that could be parsed; it gives None in
  -- both cases.
  unfoldable pub register_trampoline : Option ℕ → PythonModule P → Option (PythonModule P)
  register_trampoline none m = some m
  register_trampoline (some callback) m = set_trampoline callback m

-- The arguments of a call end at a null pointer.
abbrev pub arguments : ℕ → ℕ → Option ℕ → List ℕ
arguments context uuid none = context ∷ uuid ∷ []
arguments context uuid (some message) = context ∷ uuid ∷ message ∷ []

module _ {P : Type 0} (api : Interpreter P) where
  -- A round of the loop of `connector_python_split_uuid`.
  unfoldable pub append_part : ℕ → ℕ → PythonModule P → Option (PythonModule P)
  append_part x list m =
      let (object, w) = api.long_from_unsigned_long x m.python in
      release object (with_python (api.list_append list object w) (gain object m))

  -- `connector_python_split_uuid`
  unfoldable pub split_uuid : Uuid → ℕ → PythonModule P → Option (PythonModule P)
  split_uuid uuid list m =
      append_part uuid.e0 list m
      >>= append_part uuid.e1 list
      >>= append_part uuid.e2 list
      >>= append_part uuid.e3 list

  -- The call of the function, and the release of what it gave and of its arguments.
  unfoldable pub call_and_release : ℕ → ℕ → Option ℕ → ℕ → PythonModule P → Option (PythonModule P)
  call_and_release callback context message uuid m =
      let (result, w) = api.call_function callback (arguments context uuid message) m.python in
      do
        m1 ← release_any result (gain_any result (with_python w m))
        m2 ← release context m1
        m3 ← release_some message m2
        release uuid m3

  -- `connector_python_trampoline` with a function that is registered.
  unfoldable pub call_trampoline : ℕ → ℕ → Uuid → List ℕ → PythonModule P → Option (PythonModule P)
  call_trampoline callback context message_type message m =
      let (context_object, w1) = api.long_from_unsigned_long context m.python in
      let (message_object, w2) = api.unicode_from_string message w1 in
      let (uuid_object, w3) = api.list_new w2 in
      do
        split ←
            split_uuid message_type uuid_object
              (with_python w3 (gain uuid_object (gain_any message_object (gain context_object m))))
        call_and_release callback context_object message_object uuid_object split

  -- The body of `connector_python_trampoline` under the lock.
  unfoldable pub call_if_registered :
      Option ℕ → ℕ → Uuid → List ℕ → PythonModule P → Option (PythonModule P)
  call_if_registered none context message_type message m = some m
  call_if_registered (some callback) context message_type message m =
      call_trampoline callback context message_type message m

  -- `connector_python_trampoline`
  unfoldable pub python_trampoline : ℕ → Uuid → List ℕ → PythonModule P → Option (PythonModule P)
  python_trampoline context message_type message m = do
    called ←
        call_if_registered m.trampoline context message_type message
          (with_python (api.gil_ensure m.python) m)
    some (with_python (api.gil_release called.python) called)
