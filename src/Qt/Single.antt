-- ===== src/Qt/Single.antt =====
-- Of a class one object at a time is in use: the abstract state of a class is the object that is the
-- instance with its application, or nothing.
use substance_3d_connector.Base.{
  ℕ, ◌≡◌, ◌==◌, refl, ◌∙◌, ap, fun_ext, inl, inr, arith, Bool-cases, if◌then◌else◌, true, false,
  List, [], ◌∷◌, Option, none, some,
}
use substance_3d_connector.Framework.Applications.{Application}
use substance_3d_connector.Framework.Core.{Framework, register_application}
use substance_3d_connector.Qt.{
  Objects, constructed, update, is_instance, initialize, shutdown, through, qt_register_application,
}

-- The calls of the objects of a class.
pub data Call : Type 0 where
  initialise : Application → ℕ → Call
  stop : ℕ → Call

unfoldable pub run : List Call → Objects → Objects
run [] o = o
run (Call.initialise fresh p ∷ calls) o = run calls (initialize fresh p o)
run (Call.stop p ∷ calls) o = run calls (shutdown p o)

abbrev pub owner : Option (ℕ × Application) → Option ℕ
owner none = none
owner (some (p, a)) = some p

-- The application that the holder gives an object.
abbrev pub held : Option (ℕ × Application) → ℕ → Option Application
held none q = none
held (some (p, a)) q = if p == q then some a else none

abbrev pub objects : Option (ℕ × Application) → Objects
objects s = record { instance_object = owner s; application = held s }

-- The abstract calls: the first object that asks holds the class until it gives it back.
unfoldable pub claim : Application → ℕ → Option (ℕ × Application) → Option (ℕ × Application)
claim fresh p none = some (p, fresh)
claim fresh p (some held_now) = some held_now

unfoldable pub release : ℕ → Option (ℕ × Application) → Option (ℕ × Application)
release p none = none
release p (some (q, a)) = if p == q then none else some (q, a)

unfoldable pub holder : List Call → Option (ℕ × Application) → Option (ℕ × Application)
holder [] s = s
holder (Call.initialise fresh p ∷ calls) s = holder calls (claim fresh p s)
holder (Call.stop p ∷ calls) s = holder calls (release p s)

initialize-objects :
    (fresh : Application) (p : ℕ) (s : Option (ℕ × Application))
    → initialize fresh p (objects s) ≡ objects (claim fresh p s)
unfolding initialize claim
initialize-objects fresh p none = refl
initialize-objects fresh p (some (q, a)) = refl

released :
    (p q : ℕ) (a : Application) (r : ℕ)
    → p == q ≡ true
    → update (held (some (q, a))) p none r ≡ none
released p q a r same = ground (arith, same)

shutdown-objects :
    (p : ℕ) (s : Option (ℕ × Application)) → shutdown p (objects s) ≡ objects (release p s)
unfolding shutdown release
shutdown-objects p none = refl
shutdown-objects p (some (q, a)) = elim (Bool-cases (p == q)) [
  | inl same ↦
      let spare : update (held (some (q, a))) p none ≡ held none =
        fun_ext (λ r. released p q a r same) in
      let stopped : record {
        instance_object = none;
        application = update (held (some (q, a))) p none;
      }
          ≡ objects none =
        ap (λ g. record { instance_object = none; application = g }) spare in
      rw (same) stopped
  | inr apart ↦ rw (apart) refl
]

run-objects :
    (calls : List Call) (s : Option (ℕ × Application))
    → run calls (objects s) ≡ objects (holder calls s)
unfolding run holder
run-objects [] s = refl
run-objects (Call.initialise fresh p ∷ calls) s =
    ap (run calls) (initialize-objects fresh p s) ∙ run-objects calls (claim fresh p s)
run-objects (Call.stop p ∷ calls) s =
    ap (run calls) (shutdown-objects p s) ∙ run-objects calls (release p s)

lone_application :
    (p : ℕ) (s : Option (ℕ × Application)) → is_instance p (owner s) ≡ false → held s p ≡ none
lone_application p none other = refl
lone_application p (some (q, a)) other = ground (arith, other)

idle_object :
    {W : Type 0} (o : Objects) (p : ℕ) (f : Framework W) (send : W → W) (w : W)
    → o.application p ≡ none
    → (through (o.application p) send w ≡ w) × (qt_register_application o p f ≡ (false, f))
unfolding through qt_register_application register_application
idle_object o p f send w idle = (rw (idle, through) refl, rw (idle) refl)

-- After any calls of `initialize` and `shutdown` on the objects of one class since the program's
-- start, the objects are those of the abstract holder: the first object that initialized since the
-- class was last given back is the instance and alone has an application. An object that is not the
-- instance sends nothing by a method that sends, and its registration is refused and changes nothing.
pub single_instance :
    {W : Type 0} (calls : List Call) (p : ℕ) (f : Framework W) (send : W → W) (w : W)
    → is_instance p (owner (holder calls none)) ≡ false
    → (run calls constructed ≡ objects (holder calls none))
      × ((through ((run calls constructed).application p) send w ≡ w)
          × (qt_register_application (run calls constructed) p f ≡ (false, f)))
single_instance calls p f send w other =
    let state = run-objects calls none in
    let idle = ap (λ o. o.application p) state ∙ lone_application p (holder calls none) other in
    (state, idle_object (run calls constructed) p f send w idle)
