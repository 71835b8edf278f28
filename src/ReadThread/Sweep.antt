-- ===== src/ReadThread/Sweep.antt =====
-- One removal, and one context that is shut down.
use substance_3d_connector.Base.{
  ℕ, suc, ◌+◌, ◌-◌, ◌≤◌, ◌<◌, ◌≡◌, ◌≢◌, refl, arith, sym, ap, ◌∙◌, lt→ltb, le→ltb, dec_lt, ◌==◌,
  ℕ_discrete, if◌then◌else◌, get_or, set, get_or-set_ne, take, length, length-set, count,
  count-take-suc, take-set_le, count-take-set,
}
use substance_3d_connector.Retcode.{Retcode}
use substance_3d_connector.Contexts.Types.{State, Connection, zeroed}
use substance_3d_connector.Contexts.Close.{shutdown_from_read_thread}
use substance_3d_connector.ReadThread.{ReadThread, held, remove_context, is_shutdown, blank}

-- The tables have room for what is assigned.
pub record Fits (t : ReadThread) : Type 0 where
  pub ids : t.assigned_contexts ≤ length t.context_ids
  pub polls : length t.contexts ≡ length t.context_ids

-- One occurrence of the number, if it is that one.
abbrev pub here : ℕ → ℕ → ℕ
here c d = if d == c then 1 else 0

-- A removal at a valid index takes exactly that occurrence of the identifier out, and does not
-- move what stands before it.
pub record Removed (t t' : ReadThread) (i : ℕ) : Type 0 where
  pub fits : Fits t'
  pub size : length t'.context_ids ≡ length t.context_ids
  pub one_less : t'.assigned_contexts + 1 ≡ t.assigned_contexts
  pub before : take i t'.context_ids ≡ take i t.context_ids
  pub counts : (c : ℕ) → count c (held t') + here c (get_or t.context_ids i 0) ≡ count c (held t)

module _ (t : ReadThread) (i : ℕ) (fits : Fits t) (valid : i < t.assigned_contexts) where
  abbrev n : ℕ
  n = t.assigned_contexts - 1

  counts_inside :
      (c : ℕ)
      → i < n
      → count c (take n (set t.context_ids i (get_or t.context_ids n 0)))
          + here c (get_or t.context_ids i 0)
        ≡ count c (held t)
  counts_inside c inside =
      count-take-set c n i (get_or t.context_ids n 0) t.context_ids inside (omega (arith, fits.ids))
      ∙ sym (count-take-suc c n t.context_ids (omega (arith, fits.ids)))
      ∙ ap (λ k. count c (take k t.context_ids)) {x = suc n} (omega arith)

  counts_last :
      (c : ℕ)
      → i ≡ n
      → count c (take n t.context_ids) + here c (get_or t.context_ids i 0) ≡ count c (held t)
  counts_last c last = rw last (
      sym (count-take-suc c n t.context_ids (omega (arith, fits.ids)))
      ∙ ap (λ k. count c (take k t.context_ids)) {x = suc n} (omega arith))

  pub remove_context-removes :
      ((remove_context t i).0 ≡ Retcode.success) × Removed t (remove_context t i).1 i
  unfolding remove_context
  remove_context-removes = elim (dec_lt 0 n) [
    | yes p ↦
        rw (lt→ltb i t.assigned_contexts valid, lt→ltb 0 n p)
          (
            refl,
            record {
              fits = record {
                ids =
                    omega (arith, fits.ids, length-set t.context_ids i (get_or t.context_ids n 0));
                polls =
                    length-set t.contexts i (get_or t.contexts n blank)
                    ∙ fits.polls
                    ∙ sym (length-set t.context_ids i (get_or t.context_ids n 0));
              };
              size = length-set t.context_ids i (get_or t.context_ids n 0);
              one_less = omega arith;
              before = take-set_le i i (get_or t.context_ids n 0) t.context_ids (omega arith);
              counts = λ c. elim (ℕ_discrete i n) [
                | yes e ↦
                    ap (λ l. count c l + here c (get_or t.context_ids i 0))
                      (take-set_le n i (get_or t.context_ids n 0) t.context_ids (omega arith))
                    ∙ counts_last c e
                | no e ↦ counts_inside c (omega arith)
              ];
            },
          )
    | no p ↦
        rw (lt→ltb i t.assigned_contexts valid, le→ltb 0 n (omega arith))
          (
            refl,
            record {
              fits = record { ids = omega (arith, fits.ids); polls = fits.polls };
              size = refl;
              one_less = omega arith;
              before = refl;
              counts = λ c. counts_last c (omega arith);
            },
          )
  ]

module _ {W : Type 0} (ops : Connection W) (s : State W) (x : ℕ) where
  -- Ending a context does not mark or unmark another one.
  pub is_shutdown-end :
      (c : ℕ) → c ≢ x → is_shutdown (shutdown_from_read_thread ops s x).1 c ≡ is_shutdown s c
  unfolding shutdown_from_read_thread
  is_shutdown-end c apart =
      ground (arith, get_or-set_ne s.context_list x c zeroed zeroed (λ e. apart (sym e)))
