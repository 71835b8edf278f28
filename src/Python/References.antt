-- ===== src/Python/References.antt =====
-- The references that the module for Python holds: of the function that is registered and of nothing
-- else, between any two calls.
use substance_3d_connector.Base.{
  ℕ, ◌+◌, ◌-◌, ◌==◌, ◌≡◌, refl, ap, fun_ext, arith, false, List, Option, none, some, ==_refl,
}
use substance_3d_connector.Uuid.{Uuid}
use substance_3d_connector.Python.{
  Interpreter, PythonModule, counts, gain, gain_any, release, release_any, release_some,
  with_python, arguments, append_part, split_uuid, call_and_release, call_trampoline,
  call_if_registered, python_trampoline,
}

module _ {P : Type 0} where
  -- A module with other references.
  abbrev pub with_own : (ℕ → ℕ) → PythonModule P → PythonModule P
  with_own f m = record m { own = f }

  pub release-gained :
      (p : ℕ) (m : PythonModule P) (g : ℕ → ℕ)
      → ((q : ℕ) → m.own q ≡ g q + counts p q)
      → release p m ≡ some (with_own g m)
  unfolding release
  release-gained p m g h =
      let left : (λ q. m.own q - counts p q) ≡ g = fun_ext (λ q. omega (arith, h q)) in
      let held : (m.own p == 0) ≡ false = ground (arith, h p, ==_refl p) in
      rw held (ap (λ f. some (with_own f m)) left)

module _ {P : Type 0} (api : Interpreter P) where
  append_part-same :
      (x list : ℕ) (m : PythonModule P)
      → (w : P) × (append_part api x list m ≡ some (with_python w m))
  unfolding append_part gain
  append_part-same x list m = (_, release-gained _ _ m.own (λ q. refl))

  split_uuid-same :
      (uuid : Uuid) (list : ℕ) (m : PythonModule P)
      → (w : P) × (split_uuid api uuid list m ≡ some (with_python w m))
  unfolding split_uuid
  split_uuid-same uuid list m =
      let (w0, e0) = append_part-same uuid.e0 list m in
      let (w1, e1) = append_part-same uuid.e1 list (with_python w0 m) in
      let (w2, e2) = append_part-same uuid.e2 list (with_python w1 m) in
      let (w3, e3) = append_part-same uuid.e3 list (with_python w2 m) in (w3, rw (e0, e1, e2) e3)

  -- What the call of a function gave is released at once.
  result-same :
      (result : Option ℕ) (m : PythonModule P) → release_any result (gain_any result m) ≡ some m
  unfolding release_any gain_any gain
  result-same none m = refl
  result-same (some p) m = release-gained p _ m.own (λ q. refl)

  call_and_release-balanced :
      (callback context message uuid : ℕ) (m : PythonModule P) (f : ℕ → ℕ)
      → ((q : ℕ) → m.own q ≡ f q + counts context q + counts message q + counts uuid q)
      → (w : P) × (call_and_release api callback context (some message) uuid m
          ≡ some (with_python w (with_own f m)))
  unfolding call_and_release release_some gain_any
  call_and_release-balanced callback context message uuid m f h =
      let (result, w) =
        api.call_function callback (arguments context uuid (some message)) m.python in
      let called = result-same result (with_python w m) in
      let one =
        release-gained context (with_python w m) (λ q. f q + counts message q + counts uuid q)
          (λ q. omega (arith, h q)) in
      let two =
        release-gained message
          (with_own (λ q. f q + counts message q + counts uuid q) (with_python w m))
          (λ q. f q + counts uuid q) (λ q. omega arith) in
      let three =
        release-gained uuid (with_own (λ q. f q + counts uuid q) (with_python w m)) f (λ q. refl) in
      (w, rw (called, one, two) three)

  -- The interpreter makes an object of the text, as it does for one that is UTF-8.
  abbrev pub IsText : List ℕ → Type 0
  IsText text = (w : P) → (object : ℕ) × ((api.unicode_from_string text w).0 ≡ some object)

  call_trampoline-same :
      (callback context : ℕ) (type : Uuid) (text : List ℕ) (m : PythonModule P)
      → IsText text
      → (w : P) × (call_trampoline api callback context type text m ≡ some (with_python w m))
  unfolding call_trampoline gain gain_any
  call_trampoline-same callback context type text m valid =
      let (a, w1) = api.long_from_unsigned_long context m.python in
      let (b, e) = valid w1 in
      let w2 = (api.unicode_from_string text w1).1 in
      let (l, w3) = api.list_new w2 in
      let full = with_python w3 (gain l (gain b (gain a m))) in
      let (w4, split) = split_uuid-same type l full in
      let (w5, called) =
        call_and_release-balanced callback a b l (with_python w4 full) m.own (λ q. refl) in
      (w5, rw (e, split) called)

  call_if_registered-same :
      (t : Option ℕ) (context : ℕ) (type : Uuid) (text : List ℕ) (m : PythonModule P)
      → IsText text
      → (w : P) × (call_if_registered api t context type text m ≡ some (with_python w m))
  unfolding call_if_registered
  call_if_registered-same none context type text m valid = (m.python, refl)
  call_if_registered-same (some callback) context type text m valid =
      call_trampoline-same callback context type text m valid

  -- A message from the core changes neither the references nor the function.
  pub python_trampoline-same :
      (context : ℕ) (type : Uuid) (text : List ℕ) (m : PythonModule P)
      → IsText text
      → (w : P) × (python_trampoline api context type text m ≡ some (with_python w m))
  unfolding python_trampoline
  python_trampoline-same context type text m valid =
      let (w, called) =
        call_if_registered-same m.trampoline context type text
          (with_python (api.gil_ensure m.python) m) valid in
      (api.gil_release w, rw called refl)
