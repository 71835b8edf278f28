-- ===== src/Api/Race/Exclusion.antt =====
-- At most one thread is inside a body, unless a shutdown comes too late.
use substance_3d_connector.Base.{
  ℕ, ◌≡◌, ◌≢◌, ◌⊎◌, inl, inr, refl, arith, sym, ap, ◌∙◌, ==_refl, ne→==, true, false, ℕ_discrete,
}
use substance_3d_connector.Api.{ModuleState, exchange}
use substance_3d_connector.Api.Race.{Body, Pc, Config, at, expected, started, Step, Reach}

at-same : (pc : ℕ → Pc) (t : ℕ) (p : Pc) → at pc t p t ≡ p
at-same pc t p = rw (==_refl t) refl

at-other : (pc : ℕ → Pc) (t k : ℕ) (p : Pc) → k ≢ t → at pc t p k ≡ pc k
at-other pc t k p ne = rw (ne→== k t ne) refl

at-cases :
    (pc : ℕ → Pc) (t k : ℕ) (p q : Pc)
    → at pc t p k ≡ q
    → ((k ≡ t) × (p ≡ q)) ⊎ ((k ≢ t) × (pc k ≡ q))
at-cases pc t k p q e = elim (ℕ_discrete k t) [
  | yes s ↦ inl (s, sym (at-same pc t p) ∙ ap (at pc t p) (sym s) ∙ e)
  | no ne ↦ inr (ne, sym (at-other pc t k p ne) ∙ e)
]

body_of : Pc → Body
body_of Pc.idle = Body.init
body_of (Pc.inside b) = b
body_of Pc.late = Body.init

inside-injective : {b d : Body} → Pc.inside b ≡ Pc.inside d → b ≡ d
unfolding body_of
inside-injective e = ap body_of e

record Exclusive (c : Config) : Type 0 where
  punctual : (t : ℕ) → c.pc t ≢ Pc.late
  marked : (t : ℕ) (b : Body) → c.pc t ≡ Pc.inside b → c.state ≡ started b
  alone : (t u : ℕ) (b d : Body) → c.pc t ≡ Pc.inside b → c.pc u ≡ Pc.inside d → t ≡ u

expected-started : (b d : Body) → expected b ≢ started d
expected-started b d = ground arith

enter-state :
    (b : Body) (s : ModuleState)
    → s ≡ expected b
    → (exchange s (expected b) (started b)).1 ≡ started b
unfolding exchange
enter-state b s e = ground arith

one_inside_kept : {c c' : Config} → Exclusive c → Step false c c' → Exclusive c'
one_inside_kept {c} x (Step.enter t b was now) = record {
  punctual = λ k e. elim (at-cases c.pc t k (Pc.inside b) Pc.late e) [
    | inl (s, p) ↦ ground (arith, p)
    | inr (ne, p) ↦ x.punctual k p
  ];
  marked = λ k d e. elim (at-cases c.pc t k (Pc.inside b) (Pc.inside d) e) [
    | inl (s, p) ↦ enter-state b c.state now ∙ ap started (inside-injective p)
    | inr (ne, p) ↦ absurd (empty k d p)
  ];
  alone = λ k u d d' e f. only k d e ∙ sym (only u d' f);
}
  where
    empty : (k : ℕ) (d : Body) → c.pc k ≢ Pc.inside d
    empty k d p = expected-started b d (sym now ∙ x.marked k d p)

    only : (k : ℕ) (d : Body) → at c.pc t (Pc.inside b) k ≡ Pc.inside d → k ≡ t
    only k d e = elim (at-cases c.pc t k (Pc.inside b) (Pc.inside d) e) [
      | inl (s, p) ↦ s
      | inr (ne, p) ↦ absurd (empty k d p)
    ]
one_inside_kept {c} x (Step.leave t b code was) = record {
  punctual = λ k e. elim (at-cases c.pc t k Pc.idle Pc.late e) [
    | inl (s, p) ↦ ground (arith, p)
    | inr (ne, p) ↦ x.punctual k p
  ];
  marked = λ k d e. absurd (none_inside k d e);
  alone = λ k u d d' e f. absurd (none_inside k d e);
}
  where
    none_inside : (k : ℕ) (d : Body) → at c.pc t Pc.idle k ≢ Pc.inside d
    none_inside k d e = elim (at-cases c.pc t k Pc.idle (Pc.inside d) e) [
      | inl (s, p) ↦ ground (arith, p)
      | inr (ne, p) ↦ ne (x.alone k t d b p was)
    ]
one_inside_kept x (Step.miss t lates was now) = ground (arith, lates)
one_inside_kept x (Step.reset t was) = absurd (x.punctual t was)

one_inside : {c : Config} → Reach false c → Exclusive c
one_inside Reach.start = record {
  punctual = λ t e. ground (arith, e);
  marked = λ t b e. ground (arith, e);
  alone = λ t u b d e f. ground (arith, e);
}
one_inside (Reach.next r s) = one_inside_kept (one_inside r) s

-- Whatever the threads do, as long as no shutdown finds the module not initialised, at most one of
-- them is inside an initialisation, a shutdown or a change of the allocators, and the state says
-- which of the three it is.
pub bodies_exclusive :
    {c : Config} (t u : ℕ) (b d : Body)
    → Reach false c
    → c.pc t ≡ Pc.inside b
    → c.pc u ≡ Pc.inside d
    → (t ≡ u) × (c.state ≡ started b)
bodies_exclusive t u b d r e f = ((one_inside r).alone t u b d e f, (one_inside r).marked t b e)

-- With such a shutdown it is not so: from any moment at which a thread is inside a shutdown and
-- another one is idle, the other one can call a shutdown, which is refused but marks the module as
-- shut down, and then an initialisation, so that both are inside their bodies.
pub late_shutdown_overlaps :
    {c : Config} (t u : ℕ)
    → Reach true c
    → c.pc t ≡ Pc.inside Body.shutdown
    → c.state ≡ ModuleState.shutdown_started
    → c.pc u ≡ Pc.idle
    → (c' : Config) × Reach true c'
      × (c'.pc t ≡ Pc.inside Body.shutdown)
      × (c'.pc u ≡ Pc.inside Body.init)
unfolding exchange
late_shutdown_overlaps {c} t u r busy now free = (
  c3,
  Reach.next
      (Reach.next (Reach.next r (Step.miss u refl free (rw now refl)))
        (Step.reset u (at-same c.pc u Pc.late)))
      (Step.enter u Body.init (at-same c1.pc u Pc.idle) (rw now refl)),
  at-other c2.pc u t (Pc.inside Body.init) apart
      ∙ at-other c1.pc u t Pc.idle apart
      ∙ at-other c.pc u t Pc.late apart
      ∙ busy,
  at-same c2.pc u (Pc.inside Body.init),
)
  where
    apart : t ≢ u
    apart e = ground (arith, sym busy ∙ ap c.pc e ∙ free)

    c1 : Config
    c1 = record { state = c.state; pc = at c.pc u Pc.late }

    c2 : Config
    c2 = record {
      state = (exchange c.state ModuleState.shutdown_started ModuleState.shutdown).1;
      pc = at c1.pc u Pc.idle;
    }

    c3 : Config
    c3 = record {
      state = (exchange c2.state ModuleState.shutdown ModuleState.init_started).1;
      pc = at c2.pc u (Pc.inside Body.init);
    }
