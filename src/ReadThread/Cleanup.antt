-- ===== src/ReadThread/Cleanup.antt =====
-- A cleanup ends the contexts that are marked for it and keeps the others.
use substance_3d_connector.Base.{
  ℕ, zero, suc, ◌+◌, ◌≤◌, ◌<◌, ◌≡◌, refl, arith, sym, ap, ◌∙◌, ==_refl, ne→==, not, ℕ_discrete,
  Bool, true, false, Bool-cases, if◌then◌else◌, List, [], ◌∷◌, get_or, take, length, count,
  count-take-suc, inl, inr,
}
use substance_3d_connector.Retcode.{Retcode}
use substance_3d_connector.Contexts.Types.{State, Connection}
use substance_3d_connector.Contexts.Close.{shutdown_from_read_thread}
use substance_3d_connector.ReadThread.{
  ReadThread, Served, held, remove_context, is_shutdown, cleanup_at, cleanup_from,
  cleanup_connections,
}
use substance_3d_connector.ReadThread.Sweep.{
  Fits, Removed, here, remove_context-removes, is_shutdown-end,
}

-- The contexts of the list are ended one after the other.
abbrev pub end_all : {W : Type 0} → Connection W → List ℕ → State W → State W
end_all ops [] s = s
end_all ops (c ∷ cs) s = end_all ops cs (shutdown_from_read_thread ops s c).1

-- The count of an identifier, if the test holds.
abbrev pub when : Bool → ℕ → ℕ
when b n = if b then n else 0

module _ {W : Type 0} (ops : Connection W) where
  -- What the loop below index `i` makes of a thread and the contexts.
  record Swept (i : ℕ) (t : ReadThread) (s : State W) (r : Served W) : Type 0 where
    fits : Fits r.1
    size : length r.1.context_ids ≡ length t.context_ids
    gone : List ℕ
    ended : r.2 ≡ end_all ops gone s
    counts_gone : (c : ℕ) → count c gone ≡ when (is_shutdown s c) (count c (take i t.context_ids))
    counts : (c : ℕ) → count c (held r.1) + count c gone ≡ count c (held t)

  cleanup_at-keeps :
      (i : ℕ) (code : Retcode) (t : ReadThread) (s : State W)
      → is_shutdown s (get_or t.context_ids i 0) ≡ false
      → cleanup_at ops i (code, t, s) ≡ (code, t, s)
  unfolding cleanup_at
  cleanup_at-keeps i code t s e = rw e refl

  cleanup_at-ends :
      (i : ℕ) (code : Retcode) (t : ReadThread) (s : State W)
      → is_shutdown s (get_or t.context_ids i 0) ≡ true
      → (remove_context t i).0 ≡ Retcode.success
      → let (ended, s') = shutdown_from_read_thread ops s (get_or t.context_ids i 0) in
        cleanup_at ops i (code, t, s) ≡ (ended, (remove_context t i).1, s')
  unfolding cleanup_at
  cleanup_at-ends i code t s e removed = rw (e, removed) refl

  module _ (i : ℕ) (t : ReadThread) (s : State W) (fits : Fits t)
      (bound : i < t.assigned_contexts) where
    abbrev x : ℕ
    x = get_or t.context_ids i 0

    counted :
        (c : ℕ) → count c (take (suc i) t.context_ids) ≡ count c (take i t.context_ids) + here c x
    counted c = count-take-suc c i t.context_ids (omega (arith, fits.ids))

    sweep_keeps : (r : Served W) → is_shutdown s x ≡ false → Swept i t s r → Swept (suc i) t s r
    sweep_keeps r keeps w = record {
      fits = w.fits;
      size = w.size;
      gone = w.gone;
      ended = w.ended;
      counts_gone = λ c. w.counts_gone c ∙ same c;
      counts = w.counts;
    }
      where
        same :
            (c : ℕ)
            → when (is_shutdown s c) (count c (take i t.context_ids))
              ≡ when (is_shutdown s c) (count c (take (suc i) t.context_ids))
        same c = elim (ℕ_discrete x c) [
          | yes e ↦ rw (← e, keeps) refl
          | no e ↦ rw (counted c, ne→== x c e) (ap (when (is_shutdown s c)) (omega arith))
        ]

    sweep_ends :
        (r : Served W)
        → is_shutdown s x ≡ true
        → ((c : ℕ) → count c (take (suc i) t.context_ids) ≤ 1)
        → Removed t (remove_context t i).1 i
        → Swept i (remove_context t i).1 (shutdown_from_read_thread ops s x).1 r
        → Swept (suc i) t s r
    sweep_ends r ends distinct d w = record {
      fits = w.fits;
      size = w.size ∙ d.size;
      gone = x ∷ w.gone;
      ended = w.ended;
      counts_gone = λ c. elim (ℕ_discrete x c) [
        | yes e ↦ rw (← e) (ground (arith, ==_refl x, ends, distinct x, counted x, gone_below x))
        | no e ↦
            rw (ne→== x c e, counted c, ne→== x c e)
              (gone_below c
                ∙ ap (λ b. when b (count c (take i t.context_ids)))
                    (is_shutdown-end ops s x c (λ f. e (sym f)))
                ∙ ap (when (is_shutdown s c)) (omega arith))
      ];
      counts = λ c. ground (arith, w.counts c, d.counts c);
    }
      where
        gone_below :
            (c : ℕ)
            → count c w.gone
              ≡ when
                  (is_shutdown (shutdown_from_read_thread ops s x).1 c)
                  (count c (take i t.context_ids))
        gone_below c =
            w.counts_gone c
            ∙ ap (λ l. when (is_shutdown (shutdown_from_read_thread ops s x).1 c) (count c l))
                d.before

  sweep :
      (i : ℕ) (code : Retcode) (t : ReadThread) (s : State W)
      → Fits t
      → i ≤ t.assigned_contexts
      → ((c : ℕ) → count c (take i t.context_ids) ≤ 1)
      → Swept i t s (cleanup_from ops i (code, t, s))
  unfolding cleanup_from
  sweep zero code t s fits bound distinct = record {
    fits = fits;
    size = refl;
    gone = [];
    ended = refl;
    counts_gone = λ c. ground arith;
    counts = λ c. omega arith;
  }
  sweep (suc i) code t s fits bound distinct =
      elim (Bool-cases (is_shutdown s (get_or t.context_ids i 0))) [
        | inr keeps ↦ rw (cleanup_at-keeps i code t s keeps) (
            sweep_keeps i t s fits bound _ keeps (
              sweep i code t s fits (omega arith)
                (λ c. omega (arith, distinct c, counted i t s fits bound c))))
        | inl ends ↦
            let (done, d) = remove_context-removes t i fits bound in
            rw (cleanup_at-ends i code t s ends done) (
              sweep_ends i t s fits bound _ ends distinct d (
                sweep i _ (remove_context t i).1 _ d.fits (omega (arith, d.one_less))
                  (λ c. rw d.before (omega (arith, distinct c, counted i t s fits bound c)))))
      ]

  -- A cleanup ends, once each, exactly the contexts of the thread that are marked for a shutdown,
  -- and the thread then serves exactly the others; its tables keep their size. The thread's
  -- identifiers are distinct and its tables have room for them.
  pub cleanup_connections-sweeps :
      (t : ReadThread) (s : State W)
      → Fits t
      → ((d : ℕ) → count d (held t) ≤ 1)
      → let (code, t', s') = cleanup_connections ops t s in
        (gone : List ℕ) × (s' ≡ end_all ops gone s)
        × ((c : ℕ) → count c gone ≡ when (is_shutdown s c) (count c (held t)))
        × ((c : ℕ) → count c (held t') ≡ when (not (is_shutdown s c)) (count c (held t)))
        × Fits t'
        × (length t'.context_ids ≡ length t.context_ids)
  unfolding cleanup_connections
  cleanup_connections-sweeps t s fits distinct =
      let w = sweep t.assigned_contexts Retcode.error t s fits (omega arith) distinct in
      (
        w.gone,
        w.ended,
        w.counts_gone,
        λ c. ground (arith, w.counts c, w.counts_gone c),
        w.fits,
        w.size,
      )
