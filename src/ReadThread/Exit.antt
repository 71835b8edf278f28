-- ===== src/ReadThread/Exit.antt =====
-- The end of a read thread.
use substance_3d_connector.Base.{
  ℕ, zero, suc, ◌≤◌, ◌<◌, ◌≡◌, ◌≢◌, subst, refl, arith, ap, ◌∙◌, dec_lt, lt→ltb, ltb, ◌==◌, ==_refl,
  ne→==, ◌&&◌, ◌||◌, not, ℕ_discrete, Bool, true, passes, test_of_passes, List, [], ◌∷◌,
  get_or-set_self, get_or-set_ne, take, length, length-set, count, empty_of_count, bit_and, bit_or,
}
use substance_3d_connector.AvailableQueue.{context_count}
use substance_3d_connector.Contexts.Types.{
  Context, put_context, State, Connection, zeroed, context_at, conn_open, conn_connected,
  conn_shutdown, conn_mask,
}
use substance_3d_connector.Contexts.Close.{context_close}
use substance_3d_connector.ReadThread.{held, is_shutdown, cleanup_connections}
use substance_3d_connector.ReadThread.Sweep.{Fits}
use substance_3d_connector.ReadThread.Cleanup.{end_all, when, cleanup_connections-sweeps}
use substance_3d_connector.ReadThread.Events.{Reader}
use substance_3d_connector.ReadThread.Routine.{close_all, exit_thread}

-- The test of `connector_context_close` on a configuration.
unfoldable pub can_close : ℕ → Bool
can_close c =
    not (bit_and (bit_and c conn_mask) conn_open == 0)
    || not (bit_and (bit_and c conn_mask) conn_connected == 0)

unfoldable marks : ℕ → Bool
marks c = not (bit_and (bit_and c conn_mask) conn_shutdown == 0)

mark_test : ℕ → Bool
unfolding can_close marks
mark_test c =
    let d = bit_or c conn_shutdown in ltb d 4096 && marks d && (not (can_close c) || can_close d)

mark_table : passes mark_test 4096 ≡ true
unfolding passes mark_test can_close marks
mark_table = refl

-- A configuration of twelve bits that is marked for a shutdown.
record Marks (c : ℕ) : Type 0 where
  small : bit_or c conn_shutdown < 4096
  marked : marks (bit_or c conn_shutdown) ≡ true
  closes : can_close c ≡ true → can_close (bit_or c conn_shutdown) ≡ true

mark : (c : ℕ) → c < 4096 → Marks c
unfolding mark_test
mark c h = ground (arith, test_of_passes mark_test 4096 mark_table c h)

module _ {W : Type 0} where
  -- A context that a close marks.
  pub record Closable (s : State W) (c : ℕ) : Type 0 where
    pub valid : c < context_count
    pub small : (context_at s c).configuration < 4096
    pub in_use : can_close (context_at s c).configuration ≡ true

  is_shutdown-marks :
      (s : State W) (c : ℕ)
      → c < context_count
      → is_shutdown s c ≡ marks (context_at s c).configuration
  unfolding marks
  is_shutdown-marks s c valid = rw (lt→ltb c context_count valid) refl

  module _ (s : State W) (x : ℕ) (complete : length s.context_list ≡ context_count)
      (h : Closable s x) where
    abbrev closed : Context
    closed = record (context_at s x) {
      configuration = bit_or (context_at s x).configuration conn_shutdown;
    }

    close-closes : (context_close s x).1 ≡ put_context s x closed
    unfolding context_close can_close
    close-closes = rw (lt→ltb x context_count h.valid, h.in_use) refl

    close-keeps_size : length (context_close s x).1.context_list ≡ context_count
    close-keeps_size = rw close-closes (length-set s.context_list x closed ∙ complete)

    close_self : context_at (context_close s x).1 x ≡ closed
    close_self =
        rw close-closes
          (get_or-set_self s.context_list x closed zeroed (omega (arith, h.valid, complete)))

    close-other : (c : ℕ) → x ≢ c → context_at (context_close s x).1 c ≡ context_at s c
    close-other c apart = rw close-closes (get_or-set_ne s.context_list x c closed zeroed apart)

    close-Closable : (c : ℕ) → Closable s c → Closable (context_close s x).1 c
    close-Closable c k = elim (ℕ_discrete x c) [
      | yes e ↦ record {
        valid = k.valid;
        small = rw (← e, close_self) (mark _ h.small).small;
        in_use = rw (← e, close_self) ((mark _ h.small).closes h.in_use);
      }
      | no e ↦ record {
        valid = k.valid;
        small = rw (close-other c e) k.small;
        in_use = rw (close-other c e) k.in_use;
      }
    ]

    close-marked : is_shutdown (context_close s x).1 x ≡ true
    close-marked =
        is_shutdown-marks (context_close s x).1 x h.valid
        ∙ ap (λ k. marks k.configuration) close_self
        ∙ (mark _ h.small).marked

    close-keeps_mark : (c : ℕ) → is_shutdown s c ≡ true → is_shutdown (context_close s x).1 c ≡ true
    close-keeps_mark c marked = elim (ℕ_discrete x c) [
      | yes e ↦ subst (λ n. is_shutdown (context_close s x).1 n ≡ true) e close-marked
      | no e ↦ rw (close-other c e) marked
    ]

  close_all-keeps_mark :
      (cs : List ℕ) (s : State W) (x : ℕ)
      → length s.context_list ≡ context_count
      → ((c : ℕ) → 0 < count c cs → Closable s c)
      → is_shutdown s x ≡ true
      → is_shutdown (close_all cs s) x ≡ true
  close_all-keeps_mark [] s x complete all marked = marked
  close_all-keeps_mark (c ∷ cs) s x complete all marked =
      let h = all c (ground (arith, ==_refl c)) in
      close_all-keeps_mark cs (context_close s c).1 x (close-keeps_size s c complete h)
        (λ d held_d. close-Closable s c complete h d (all d (ground arith)))
        (close-keeps_mark s c complete h x marked)

  close_all-marks :
      (cs : List ℕ) (s : State W) (x : ℕ)
      → length s.context_list ≡ context_count
      → ((c : ℕ) → 0 < count c cs → Closable s c)
      → 0 < count x cs
      → is_shutdown (close_all cs s) x ≡ true
  close_all-marks [] s x complete all held_x = absurd (omega arith)
  close_all-marks (c ∷ cs) s x complete all held_x =
      let h = all c (ground (arith, ==_refl c)) in
      let rest : (d : ℕ) → 0 < count d cs → Closable (context_close s c).1 d =
        λ d held_d. close-Closable s c complete h d (all d (ground arith)) in
      elim (ℕ_discrete c x) [
        | yes e ↦
            close_all-keeps_mark cs (context_close s c).1 x (close-keeps_size s c complete h) rest (
              subst (λ n. is_shutdown (context_close s c).1 n ≡ true) e
                (close-marked s c complete h))
        | no e ↦
            close_all-marks cs (context_close s c).1 x (close-keeps_size s c complete h) rest
              (ground (arith, ne→== c x e))
      ]

held_none : (n : ℕ) (xs : List ℕ) → n ≤ length xs → take n xs ≡ [] → n ≡ 0
held_none zero xs h e = refl
held_none (suc n) [] h e = absurd (omega arith)
held_none (suc n) (x ∷ xs) h e = absurd (ground (arith, ap {B = ℕ} length e))

-- A read thread that ends releases all the contexts that it serves: it closes them, and the cleanup
-- then ends each of them once and leaves the thread with none. The thread's identifiers are
-- distinct, its tables have room for them, and each is below the count, in use, with a
-- configuration of twelve bits.
pub exit_thread-releases :
    {W : Type 0} (ops : Connection W) (r : Reader W)
    → Fits r.thread
    → ((c : ℕ) → count c (held r.thread) ≤ 1)
    → length r.state.context_list ≡ context_count
    → ((c : ℕ) → 0 < count c (held r.thread) → Closable r.state c)
    → let r' = exit_thread ops r in
      (r'.thread.assigned_contexts ≡ 0)
      × ((gone : List ℕ) × (r'.state ≡ end_all ops gone (close_all (held r.thread) r.state))
          × ((c : ℕ) → count c gone ≡ count c (held r.thread)))
unfolding exit_thread
exit_thread-releases ops r fits distinct complete all =
    let s = close_all (held r.thread) r.state in
    let (gone, ended, counts_gone, kept, fits', size) =
      cleanup_connections-sweeps ops r.thread s fits distinct in
    let t' = (cleanup_connections ops r.thread s).1 in
    (
      held_none t'.assigned_contexts t'.context_ids fits'.ids
          (empty_of_count (held t') (λ c. none_kept c (kept c))),
      (gone, ended, λ c. all_gone c (counts_gone c)),
    )
  where
    none_kept :
        (c : ℕ)
        → {n : ℕ}
        → n
          ≡ when (not (is_shutdown (close_all (held r.thread) r.state) c)) (count c (held r.thread))
        → n ≡ 0
    none_kept c e = elim (dec_lt 0 (count c (held r.thread))) [
      | yes h ↦ ground (arith, close_all-marks (held r.thread) r.state c complete all h)
      | no h ↦ ground arith
    ]

    all_gone :
        (c : ℕ)
        → {n : ℕ}
        → n ≡ when (is_shutdown (close_all (held r.thread) r.state) c) (count c (held r.thread))
        → n ≡ count c (held r.thread)
    all_gone c e = elim (dec_lt 0 (count c (held r.thread))) [
      | yes h ↦ ground (arith, close_all-marks (held r.thread) r.state c complete all h)
      | no h ↦ ground arith
    ]
