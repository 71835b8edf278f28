-- ===== src/Framework/Core/Lifecycle.antt =====
-- A run of the layer from its start to its end, and what a failed start leaves.
use substance_3d_connector.Base.{
  ℕ, ◌≡◌, refl, arith, ◌∙◌, ap, sym, subst, Bool, true, false, if◌then◌else◌, List, [], ◌∷◌, ◌++◌,
  Option, none, some, length, replicate,
}
use substance_3d_connector.Retcode.{is_success}
use substance_3d_connector.Uuid.{Uuid}
use substance_3d_connector.Framework.Callbacks.{
  CallbackPair, CallbackMap, find, is_found, found_or_empty, find_callbacks,
}
use substance_3d_connector.Framework.Callbacks.Bound.{
  IsMap, first_of, find-register_callbacks, register_callbacks-IsMap, find-unregister_callbacks,
  unregister_callbacks-IsMap, empty_of_find,
}
use substance_3d_connector.Framework.Applications.{
  Application, pre_init, pre_shutdown, register_callbacks,
}
use substance_3d_connector.Framework.Core.{
  StartupState, CoreTable, Framework, is_shut, is_initialized, each_application, call_each,
  cpp_trampoline, register_application, finish_init, start, init, finish_shutdown, shutdown,
}

-- The pairs that the applications have when they register, in the order of their pointers.
abbrev pub offered : List (ℕ × Application) → List CallbackPair
offered [] = []
offered ((p, a) ∷ apps) = (a.callbacks ++ a.own) ++ offered apps

-- Those that they have when they unregister.
abbrev held : List (ℕ × Application) → List CallbackPair
held [] = []
held ((p, a) ∷ apps) = a.callbacks ++ held apps

find-nil : (t : Uuid) → find t [] ≡ none
unfolding find
find-nil t = refl

find-append :
    (t : Uuid) (xs ys : List CallbackPair) → find t (xs ++ ys) ≡ first_of (find t xs) (find t ys)
unfolding find
find-append t [] ys = refl
find-append t ((u, cs) ∷ xs) ys = ground (arith, find-append t xs ys)

first_of_assoc :
    (a b c : Option (List (Option ℕ))) → first_of (first_of a b) c ≡ first_of a (first_of b c)
first_of_assoc none b c = refl
first_of_assoc (some cs) b c = refl

-- The types that are bound after all applications have registered.
each-pre_init :
    (t : Uuid) (apps : List (ℕ × Application)) (m : CallbackMap)
    → find t (each_application pre_init apps m).1 ≡ first_of (find t m) (find t (offered apps))
unfolding each_application pre_init
each-pre_init t [] m = ground (arith, find-nil t)
each-pre_init t ((p, a) ∷ apps) m =
    each-pre_init t apps (register_callbacks (a.callbacks ++ a.own) m)
    ∙ ground (
      arith,
      find-register_callbacks t (a.callbacks ++ a.own) m,
      find-append t (a.callbacks ++ a.own) (offered apps),
    )

each-pre_init-IsMap :
    (apps : List (ℕ × Application)) (m : CallbackMap)
    → IsMap m
    → IsMap (each_application pre_init apps m).1
unfolding each_application pre_init
each-pre_init-IsMap [] m h = h
each-pre_init-IsMap ((p, a) ∷ apps) m h =
    each-pre_init-IsMap apps _ (register_callbacks-IsMap (a.callbacks ++ a.own) m h)

held-pre_init :
    (apps : List (ℕ × Application)) (m : CallbackMap)
    → held (each_application pre_init apps m).0 ≡ offered apps
unfolding each_application pre_init
held-pre_init [] m = refl
held-pre_init ((p, a) ∷ apps) m = ap (λ l. (a.callbacks ++ a.own) ++ l) (held-pre_init apps _)

each-pre_shutdown :
    (t : Uuid) (apps : List (ℕ × Application)) (m : CallbackMap)
    → IsMap m
    → find t (each_application pre_shutdown apps m).1
      ≡ (if is_found (find t (held apps)) then none else find t m)
unfolding each_application pre_shutdown
each-pre_shutdown t [] m h = ground (arith, find-nil t)
each-pre_shutdown t ((p, a) ∷ apps) m h =
    each-pre_shutdown t apps _ (unregister_callbacks-IsMap a.callbacks m h)
    ∙ ground
        (arith, find-unregister_callbacks t a.callbacks m h, find-append t a.callbacks (held apps))

-- From a map that binds nothing, the registrations bind what is offered, and the ends of the same
-- applications unbind all of it.
bound :
    (t : Uuid) (apps : List (ℕ × Application)) (m : CallbackMap)
    → m ≡ []
    → find t (each_application pre_init apps m).1 ≡ find t (offered apps)
bound t apps m e = rw e (each-pre_init t apps [] ∙ ground (arith, find-nil t))

unbound :
    (apps : List (ℕ × Application)) (m : CallbackMap)
    → m ≡ []
    → let (apps', m') = each_application pre_init apps m in
      (each_application pre_shutdown apps' m').1 ≡ []
unbound apps m e =
    let m' = (each_application pre_init apps m).1 in
    let valid : IsMap m' = each-pre_init-IsMap apps m (subst IsMap (sym e) tt) in
    empty_of_find _ (λ t.
      each-pre_shutdown t (each_application pre_init apps m).0 m' valid
      ∙ rw (held-pre_init apps m) (ground (arith, bound t apps m e)))

-- What `init` leaves where the core starts.
abbrev up : {W : Type 0} → CoreTable W → List ℕ → List ℕ → Option ℕ → Framework W → Framework W
up core display_name id h f = record {
  startup_state = StartupState.connector_initialized;
  applications = (each_application pre_init f.applications f.callback_map).0;
  feature_level = f.feature_level;
  connection_display_name = display_name;
  connection_id = id;
  callback_map = (each_application pre_init f.applications f.callback_map).1;
  outside = core.add_trampoline (core.init id (core.init_dynamic_load h f.outside)).1;
}

init-up :
    {W : Type 0} (core : CoreTable W) (display_name id : List ℕ) (h : Option ℕ) (f : Framework W)
    → is_shut f.startup_state ≡ true
    → is_success (core.init id (core.init_dynamic_load h f.outside)).0 ≡ true
    → init core display_name id h f ≡ (true, up core display_name id h f)
unfolding init start finish_init
init-up core display_name id h f shut ok = rw (shut, ok) refl

-- What `shutdown` leaves where the core ends.
ended :
    {W : Type 0} (core : CoreTable W) (f : Framework W)
    → is_initialized f.startup_state ≡ true
    → is_success (core.shutdown f.outside).0 ≡ true
    → shutdown core f ≡ (
      true,
      record f {
        startup_state = StartupState.connector_shutdown;
        applications = [];
        feature_level = [];
        callback_map = (each_application pre_shutdown f.applications f.callback_map).1;
        outside = (core.shutdown f.outside).1;
      },
    )
unfolding shutdown finish_shutdown
ended core f running ok = rw (running, ok) refl

-- From a layer that is shut and binds nothing, with any applications registered, where the core
-- starts and ends with success: `init` succeeds, and a message of any type is then passed to exactly
-- the functions, null ones apart, of the first pair for its type in the order of the applications;
-- `shutdown` then succeeds, whatever happened outside meanwhile, and leaves the layer shut, without
-- applications, features or bound functions.
pub framework_lifecycle :
    {W : Type 0} (core : CoreTable W) (display_name id : List ℕ) (h : Option ℕ) (f : Framework W)
    (w : W)
    → is_shut f.startup_state ≡ true
    → f.callback_map ≡ []
    → is_success (core.init id (core.init_dynamic_load h f.outside)).0 ≡ true
    → is_success (core.shutdown w).0 ≡ true
    → let (ok, f') = init core display_name id h f in
      let (done, f'') = shutdown core (record f' { outside = w }) in
      (ok ≡ true)
      × ((context : ℕ) (t : Uuid) (text : List ℕ)
          → cpp_trampoline context t text f'
            ≡ call_each (found_or_empty (find t (offered f.applications))) context t text)
      × (done ≡ true)
      × (is_shut f''.startup_state ≡ true)
      × (f''.applications ≡ [])
      × (f''.feature_level ≡ [])
      × (f''.callback_map ≡ [])
unfolding cpp_trampoline find_callbacks
framework_lifecycle core display_name id h f w shut none_bound ok ok' =
    let f' = up core display_name id h f in
    rw (init-up core display_name id h f shut ok, ended core (record f' { outside = w }) refl ok')
      (
        refl,
        λ context t text.
            ap (λ o. call_each (found_or_empty o) context t text)
              (bound t f.applications f.callback_map none_bound),
        refl,
        refl,
        refl,
        refl,
        unbound f.applications f.callback_map none_bound,
      )

-- What a program may call.
pub data Attempt : Type 0 where
  register : Option (ℕ × Application) → Attempt
  initialise : List ℕ → List ℕ → Option ℕ → Attempt
  stop : Attempt

unfoldable pub attempt : {W : Type 0} → CoreTable W → Attempt → Framework W → Bool × Framework W
attempt core (Attempt.register a) f = register_application a f
attempt core (Attempt.initialise display_name id h) f = init core display_name id h f
attempt core Attempt.stop f = shutdown core f

unfoldable pub attempts :
    {W : Type 0} → CoreTable W → List Attempt → Framework W → List Bool × Framework W
unfolding attempt
attempts core [] f = ([], f)
attempts core (a ∷ more) f =
    let (ok, f') = attempt core a f in let (oks, f'') = attempts core more f' in (ok ∷ oks, f'')

-- Two layers that differ in the names at most.
abbrev pub renamed : {W : Type 0} → Framework W → List ℕ → List ℕ → Framework W
renamed f display_name id = record f { connection_display_name = display_name; connection_id = id }

-- A layer whose start began and did not end refuses every call.
stuck_step :
    {W : Type 0} (core : CoreTable W) (a : Attempt) (f : Framework W)
    → f.startup_state ≡ StartupState.connector_init_started
    → (n i : List ℕ) × (attempt core a f ≡ (false, renamed f n i))
unfolding attempt register_application init shutdown
stuck_step core (Attempt.register none) f e = (f.connection_display_name, f.connection_id, refl)
stuck_step core (Attempt.register (some (p, a))) f e =
    (f.connection_display_name, f.connection_id, rw e refl)
stuck_step core (Attempt.initialise n i h) f e = (n, i, rw e refl)
stuck_step core Attempt.stop f e = (f.connection_display_name, f.connection_id, rw e refl)

stuck :
    {W : Type 0} (core : CoreTable W) (calls : List Attempt) (f : Framework W)
    → f.startup_state ≡ StartupState.connector_init_started
    → (n i : List ℕ) × (attempts core calls f ≡ (replicate (length calls) false, renamed f n i))
unfolding attempts
stuck core [] f e = (f.connection_display_name, f.connection_id, refl)
stuck core (a ∷ calls) f e =
    let (n, i, step) = stuck_step core a f e in
    let (n', i', rest) = stuck core calls (renamed f n i) e in (n', i', rw (step, rest) refl)

-- Where the core does not start, `init` fails and leaves the layer between its states: every later
-- registration, start or end is refused, in any order, and changes nothing but the names.
pub failed_init_blocks :
    {W : Type 0} (core : CoreTable W) (display_name id : List ℕ) (h : Option ℕ) (f : Framework W)
    (calls : List Attempt)
    → is_shut f.startup_state ≡ true
    → is_success (core.init id (core.init_dynamic_load h f.outside)).0 ≡ false
    → let (ok, f') = init core display_name id h f in
      (ok ≡ false)
      × ((n i : List ℕ) × (attempts core calls f'
            ≡ (replicate (length calls) false, renamed f' n i)))
unfolding init start finish_init
failed_init_blocks core display_name id h f calls shut failed =
    rw (shut, failed) (refl, stuck core calls _ refl)
