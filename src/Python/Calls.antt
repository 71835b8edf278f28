-- ===== src/Python/Calls.antt =====
-- Any calls of the module for Python, by the core and by a program.
use substance_3d_connector.Base.{
  ℕ, ◌+◌, ◌>>=◌, ◌≡◌, refl, ap, fun_ext, arith, List, [], ◌∷◌, Option, none, some,
}
use substance_3d_connector.Uuid.{Uuid}
use substance_3d_connector.Python.{
  Interpreter, PythonModule, counts, gain, release_any, python_trampoline, register_trampoline,
  set_trampoline, shutdown_trampoline,
}
use substance_3d_connector.Python.References.{
  IsText, with_own, release-gained, python_trampoline-same,
}

-- A program registers what could be parsed, a message comes from the core, the module is shut down.
pub data Call : Type 0 where
  register : Option ℕ → Call
  message : ℕ → Uuid → List ℕ → Call
  stop : Call

module _ {P : Type 0} where
  unfoldable pub run : Interpreter P → List Call → PythonModule P → Option (PythonModule P)
  run api [] m = some m
  run api (Call.register callback ∷ calls) m = register_trampoline callback m >>= run api calls
  run api (Call.message context type text ∷ calls) m =
      python_trampoline api context type text m >>= run api calls
  run api (Call.stop ∷ calls) m = shutdown_trampoline m >>= run api calls

  -- The module when it was loaded.
  abbrev pub loaded_module : P → PythonModule P
  loaded_module w = record { own = λ q. 0; trampoline = none; python = w }

-- The function that is registered after the calls.
unfoldable pub last_registered : List Call → Option ℕ → Option ℕ
last_registered [] t = t
last_registered (Call.register none ∷ calls) t = last_registered calls t
last_registered (Call.register (some callback) ∷ calls) t = last_registered calls (some callback)
last_registered (Call.message context type text ∷ calls) t = last_registered calls t
last_registered (Call.stop ∷ calls) t = last_registered calls none

-- One reference to the function, if there is one.
abbrev pub registered : Option ℕ → ℕ → ℕ
registered none q = 0
registered (some t) q = counts t q

module _ {P : Type 0} where
  -- The module with a function and the one reference to it.
  abbrev pub holding : Option ℕ → P → PythonModule P
  holding t w = record { own = registered t; trampoline = t; python = w }

  release_any-registered :
      (t : Option ℕ) (w : P) → release_any t (holding t w) ≡ some (with_own (λ q. 0) (holding t w))
  unfolding release_any
  release_any-registered none w = refl
  release_any-registered (some t) w =
      release-gained t (holding (some t) w) (λ q. 0) (λ q. omega arith)

  register_trampoline-unparsed : (m : PythonModule P) → register_trampoline none m ≡ some m
  unfolding register_trampoline
  register_trampoline-unparsed m = refl

  register_trampoline-holding :
      (callback : ℕ) (t : Option ℕ) (w : P)
      → register_trampoline (some callback) (holding t w) ≡ some (holding (some callback) w)
  unfolding register_trampoline set_trampoline gain
  register_trampoline-holding callback t w =
      let gained : (λ q. 0 + counts callback q) ≡ registered (some callback) =
        fun_ext (λ q. omega arith) in
      rw (release_any-registered t w)
        (ap (λ f. some (record { own = f; trampoline = some callback; python = w })) gained)

  shutdown_trampoline-holding :
      (t : Option ℕ) (w : P) → shutdown_trampoline (holding t w) ≡ some (holding none w)
  unfolding shutdown_trampoline
  shutdown_trampoline-holding t w = rw (release_any-registered t w) refl

module _ {P : Type 0} (api : Interpreter P) where
  -- Every message is a text of the interpreter.
  abbrev pub AllTexts : List Call → Type 0
  AllTexts [] = Unit
  AllTexts (Call.register callback ∷ calls) = AllTexts calls
  AllTexts (Call.message context type text ∷ calls) = IsText api text × AllTexts calls
  AllTexts (Call.stop ∷ calls) = AllTexts calls

  run-holding :
      (calls : List Call) (t : Option ℕ) (w : P)
      → AllTexts calls
      → (w' : P) × (run api calls (holding t w) ≡ some (holding (last_registered calls t) w'))
  unfolding run last_registered
  run-holding [] t w texts = (w, refl)
  run-holding (Call.register none ∷ calls) t w texts =
      let (w', rest) = run-holding calls t w texts in
      (w', rw (register_trampoline-unparsed (holding t w)) rest)
  run-holding (Call.register (some callback) ∷ calls) t w texts =
      let (w', rest) = run-holding calls (some callback) w texts in
      (w', rw (register_trampoline-holding callback t w) rest)
  run-holding (Call.message context type text ∷ calls) t w (valid, texts) =
      let (v, called) = python_trampoline-same api context type text (holding t w) valid in
      let (w', rest) = run-holding calls t v texts in (w', rw called rest)
  run-holding (Call.stop ∷ calls) t w texts =
      let (w', rest) = run-holding calls none w texts in
      (w', rw (shutdown_trampoline-holding t w) rest)

  -- Any calls of a module that was loaded, whose messages are texts of the interpreter, release no
  -- reference that the module does not hold, and leave it with the function that was registered last
  -- and was not shut down since, with exactly one reference to that function and with no other.
  pub references_held :
      (calls : List Call) (w : P)
      → AllTexts calls
      → (w' : P) × (run api calls (loaded_module w)
          ≡ some (holding (last_registered calls none) w'))
  references_held calls w texts = run-holding calls none w texts
