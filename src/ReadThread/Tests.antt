-- ===== src/ReadThread/Tests.antt =====
-- Runs of a read thread, and the theorems about it at concrete inputs.
use substance_3d_connector.Base.{
  ℕ, ◌≡◌, ◌≤◌, ◌<◌, refl, arith, not, ℕ_discrete, Bool, false, List, [], ◌∷◌, none, some, replicate,
  length, count, subst,
}
use substance_3d_connector.Retcode.{Retcode}
use substance_3d_connector.AvailableQueue
use substance_3d_connector.Contexts.Types.{Connection, State, zeroed, put_context}
use substance_3d_connector.Contexts.Close.{context_read}
use substance_3d_connector.Contexts.Starting.{started}
use substance_3d_connector.ReadThread.{Poll, held, is_shutdown, try_acquire, cleanup_connections}
use substance_3d_connector.ReadThread.Sweep.{Fits}
use substance_3d_connector.ReadThread.Cleanup.{end_all, when, cleanup_connections-sweeps}
use substance_3d_connector.ReadThread.Events.{Reader, Polled, Outcome}
use substance_3d_connector.ReadThread.Routine.{close_all, exit_thread, thread_round}
use substance_3d_connector.ReadThread.Bounds.{Bounded, thread_round-Bounded}
use substance_3d_connector.ReadThread.Exit.{Closable, can_close, exit_thread-releases}

abbrev calm : Connection (Unit {0})
calm = record {
  open_connection = λ w c. (Retcode.success, c, w);
  bridge_connection = λ w c. (Retcode.success, c, w);
  close_connection = λ w c. (Retcode.success, c, w);
  accept_connection = λ w c. (none, w);
  write_connection = λ w c m. (Retcode.success, w);
  read_connection = λ w c m. (Retcode.error, m, w);
}

abbrev unused : Poll
unused = record { fd = none; events = 0; revents = 0 }

-- Contexts 3 and 4 are connected and belong to the thread.
abbrev working : Reader (Unit {0})
working =
    let s = put_context (started tt) 3 (record zeroed { configuration = 0x201; fd = 5 }) in
    let s = put_context s 4 (record zeroed { configuration = 0x201; fd = 6 }) in
    record {
      thread = record {
        contexts = replicate 17 unused;
        context_ids = 4 ∷ 3 ∷ replicate 15 0;
        assigned_contexts = 2;
      };
      state = s;
      inbound = [];
    }

working-Fits : Fits working.thread
working-Fits = record { ids = omega arith; polls = refl }

working_distinct : (c : ℕ) → count c (held working.thread) ≤ 1
working_distinct c = ground arith

at_three-Closable : Closable working.state 3
unfolding can_close
at_three-Closable = record { valid = omega arith; small = omega arith; in_use = refl }

at_four-Closable : Closable working.state 4
unfolding can_close
at_four-Closable = record { valid = omega arith; small = omega arith; in_use = refl }

working-Closable : (c : ℕ) → 0 < count c (held working.thread) → Closable working.state c
working-Closable c h = elim (ℕ_discrete 3 c) [
  | yes e ↦ subst (λ n. Closable working.state n) e at_three-Closable
  | no e ↦ elim (ℕ_discrete 4 c) [
    | yes f ↦ subst (λ n. Closable working.state n) f at_four-Closable
    | no f ↦ absurd (ground arith)
  ]
]

exit_thread-releases_example :
    let r' = exit_thread calm working in
    (r'.thread.assigned_contexts ≡ 0)
    × ((gone : List ℕ) × (r'.state
          ≡ end_all calm gone (close_all (held working.thread) working.state))
        × ((c : ℕ) → count c gone ≡ count c (held working.thread)))
exit_thread-releases_example =
    exit_thread-releases calm working working-Fits working_distinct refl working-Closable

-- Context 3 is marked for its shutdown.
abbrev marked_state : State (Unit {0})
marked_state = put_context working.state 3 (record zeroed { configuration = 0x601; fd = 5 })

cleanup_connections-sweeps_example :
    let t = working.thread in
    let (code, t', s') = cleanup_connections calm t marked_state in
    (gone : List ℕ) × (s' ≡ end_all calm gone marked_state)
    × ((c : ℕ) → count c gone ≡ when (is_shutdown marked_state c) (count c (held t)))
    × ((c : ℕ) → count c (held t') ≡ when (not (is_shutdown marked_state c)) (count c (held t)))
    × Fits t'
    × (length t'.context_ids ≡ length t.context_ids)
cleanup_connections-sweeps_example =
    cleanup_connections-sweeps calm working.thread marked_state working-Fits working_distinct

working-Bounded : Bounded working.thread
working-Bounded = record { ids = refl; polls = refl; assigned = omega arith }

-- There is something to read on context 4.
abbrev after_round : Reader (Unit {0})
after_round = record working {
  thread = record (working.thread) {
    contexts = record unused { revents = 1 } ∷ unused ∷ replicate 15 unused;
  };
}

abbrev one_poll : List (Bool × Polled)
one_poll =
    (false, record { outcome = Outcome.nothing; revents = 0 ∷ 0 ∷ [] })
    ∷ (false, record { outcome = Outcome.ready; revents = 1 ∷ 0 ∷ [] })
    ∷ []

working_round : thread_round calm none [] false one_poll working ≡ some (false, after_round)
unfolding thread_round try_acquire AvailableQueue.pop cleanup_connections context_read
working_round = refl

thread_round-Bounded_example : Bounded after_round.thread
thread_round-Bounded_example =
    thread_round-Bounded calm none [] false one_poll working {ends = false} {r' = after_round}
      working-Bounded working_round
