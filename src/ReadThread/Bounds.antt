-- ===== src/ReadThread/Bounds.antt =====
-- A round of a read thread stays inside of the tables of the thread.
use substance_3d_connector.Base.{
  ℕ, zero, suc, ◌+◌, ◌≤◌, ◌<◌, ◌≡◌, bind_through, if◌then◌else◌, refl, arith, sym, subst, ◌∙◌,
  dec_lt, le→ltb, lt→ltb, ℕ_discrete, ltb, ◌||◌, Bool, true, false, List, [], ◌∷◌, Option, none,
  some, get_or, length, length-set,
}
use substance_3d_connector.Retcode.{Retcode}
use substance_3d_connector.Contexts.Types.{State, Connection}
use substance_3d_connector.ReadThread.{
  ReadThread, Poll, Served, read_contexts, remove_context, assign, finish_acquire, try_acquire,
  cleanup_at, cleanup_from, cleanup_connections,
}
use substance_3d_connector.ReadThread.Sweep.{Fits, remove_context-removes}
use substance_3d_connector.ReadThread.Events.{
  Reader, Polled, poll_contexts, write_revents, handle_event, handle_events, handle_context,
  handle_open, handle_connected, finish_read,
}
use substance_3d_connector.ReadThread.Routine.{
  acquire, polled, clean, await_condition, acquire_more, poll_loop, finish_round, poll_round,
  thread_round,
}

-- The tables have their size, and no more is assigned than they hold.
pub record Bounded (t : ReadThread) : Type 0 where
  pub ids : length t.context_ids ≡ read_contexts
  pub polls : length t.contexts ≡ read_contexts
  pub assigned : t.assigned_contexts ≤ read_contexts

remove_context-Bounded : (t : ReadThread) (i : ℕ) → Bounded t → Bounded (remove_context t i).1
unfolding remove_context
remove_context-Bounded t i b = elim (dec_lt i t.assigned_contexts) [
  | yes h ↦
      let fits : Fits t = record {
        ids = omega (arith, b.ids, b.assigned);
        polls = b.polls ∙ sym b.ids;
      } in
      let (done, d) = remove_context-removes t i fits h in
      record {
        ids = d.size ∙ b.ids;
        polls = d.fits.polls ∙ d.size ∙ b.ids;
        assigned = omega (arith, d.one_less, b.assigned);
      }
  | no h ↦ rw (le→ltb i t.assigned_contexts (omega arith)) b
]

length-write_revents :
    (polls : List Poll) (rs : List ℕ) → length (write_revents polls rs) ≡ length polls
length-write_revents [] rs = refl
length-write_revents (p ∷ ps) [] = refl
length-write_revents (p ∷ ps) (r ∷ rs) = rw (length-write_revents ps rs) refl

length-poll_contexts :
    (polls : List Poll) (n : ℕ) (p : Polled) → length (poll_contexts polls n p).1 ≡ length polls
unfolding poll_contexts
length-poll_contexts polls zero p = refl
length-poll_contexts polls (suc n) p = length-write_revents polls p.revents

module _ {W : Type 0} (ops : Connection W) where
  cleanup_at-Bounded : (i : ℕ) (r : Served W) → Bounded r.1 → Bounded (cleanup_at ops i r).1
  unfolding cleanup_at
  cleanup_at-Bounded i r b = ground (arith, remove_context-Bounded r.1 i b)

  cleanup_from-Bounded : (i : ℕ) (r : Served W) → Bounded r.1 → Bounded (cleanup_from ops i r).1
  unfolding cleanup_from
  cleanup_from-Bounded zero r b = b
  cleanup_from-Bounded (suc i) r b =
      cleanup_from-Bounded i (cleanup_at ops i r) (cleanup_at-Bounded i r b)

  assign-Bounded :
      (t : ReadThread) (s : State W) (c : ℕ)
      → Bounded t
      → t.assigned_contexts < read_contexts
      → Bounded (assign t s c)
  unfolding assign
  assign-Bounded t s c b h = record {
    ids = length-set t.context_ids t.assigned_contexts c ∙ b.ids;
    polls = length-set t.contexts t.assigned_contexts _ ∙ b.polls;
    assigned = omega arith;
  }

  finish_acquire-Bounded :
      (name : Option (List ℕ)) (t : ReadThread) (s : State W) (p : Retcode × Option ℕ)
      → Bounded t
      → t.assigned_contexts < read_contexts
      → Bounded (finish_acquire ops name t s p).1
  unfolding finish_acquire
  finish_acquire-Bounded name t s (code, none) b h = b
  finish_acquire-Bounded name t s (code, some c) b h = assign-Bounded t s c b h

  clean-Bounded : (r : Reader W) → Bounded r.thread → Bounded (clean ops r).thread
  unfolding cleanup_connections
  clean-Bounded r b = cleanup_from-Bounded r.thread.assigned_contexts _ b

  handle_context-thread : (c : ℕ) (r : Reader W) → (handle_context ops r c).1.thread ≡ r.thread
  unfolding handle_context handle_open handle_connected finish_read
  handle_context-thread c r = ground arith

  handle_events-thread : (n i : ℕ) (r : Reader W) → (handle_events ops n i r).thread ≡ r.thread
  unfolding handle_events handle_event
  handle_events-thread zero i r = refl
  handle_events-thread (suc n) i r =
      handle_events-thread n (i + 1) (handle_event ops i r)
      ∙ ground (arith, handle_context-thread (get_or r.thread.context_ids i 0) r)

  polled-Bounded : (r : Reader W) (p : Polled) → Bounded r.thread → Bounded (polled r p).1.thread
  polled-Bounded r p b = record {
    ids = b.ids;
    polls = length-poll_contexts r.thread.contexts r.thread.assigned_contexts p ∙ b.polls;
    assigned = b.assigned;
  }

  poll_loop-Bounded :
      (ps : List (Bool × Polled)) (r : Reader W) {seen : Bool} {r' : Reader W}
      → Bounded r.thread
      → poll_loop ops ps r ≡ some (seen, r')
      → Bounded r'.thread
  unfolding poll_loop
  poll_loop-Bounded [] r b e = absurd (ground arith)
  poll_loop-Bounded ((flag, p) ∷ ps) r {seen = seen} {r' = r'} b e =
      let cleaned = clean-Bounded r b in
      let after = polled-Bounded (clean ops r) p cleaned in
      let ih = poll_loop-Bounded ps (polled (clean ops r) p).1 {seen = seen} {r' = r'} after in
      ground arith

  poll_after :
      (ps : List (Bool × Polled)) (r : Reader W) {out : Bool × Reader W}
      → Bounded r.thread
      → (if ltb 0 r.thread.assigned_contexts then poll_loop ops ps r else some (false, r))
        ≡ some out
      → Bounded out.1.thread
  poll_after ps r {out = (seen, r')} b e =
      let looped = poll_loop-Bounded ps r {seen = seen} {r' = r'} b in ground arith

  finish_round-Bounded :
      (out : Bool × Reader W) → Bounded out.1.thread → Bounded (finish_round ops out).1.thread
  unfolding finish_round
  finish_round-Bounded (true, r) b = b
  finish_round-Bounded (false, r) b =
      clean-Bounded (handle_events ops r.thread.assigned_contexts 0 r)
        (subst Bounded (sym (handle_events-thread r.thread.assigned_contexts 0 r)) b)

  module _ (name : Option (List ℕ)) where
    acquire-Bounded :
        (r : Reader W)
        → Bounded r.thread
        → r.thread.assigned_contexts < read_contexts
        → Bounded (acquire ops name r).thread
    unfolding try_acquire
    acquire-Bounded r b h = finish_acquire-Bounded name r.thread _ _ b h

    acquire_more-Bounded :
        (r : Reader W) → Bounded r.thread → Bounded (acquire_more ops name r).thread
    unfolding acquire_more
    acquire_more-Bounded r b = elim (dec_lt r.thread.assigned_contexts read_contexts) [
      | yes h ↦ rw (lt→ltb r.thread.assigned_contexts read_contexts h) (acquire-Bounded r b h)
      | no h ↦ rw (le→ltb r.thread.assigned_contexts read_contexts (omega arith)) b
    ]

    await_condition-Bounded :
        (flags : List Bool) (r : Reader W) {seen : Bool} {r' : Reader W}
        → Bounded r.thread
        → await_condition ops name flags r ≡ some (seen, r')
        → Bounded r'.thread
    unfolding await_condition
    await_condition-Bounded [] r b e = ground arith
    await_condition-Bounded (flag ∷ flags) r {seen} {r'} b e =
        elim (ℕ_discrete r.thread.assigned_contexts 0) [
          | yes z ↦
              let ih =
                await_condition-Bounded flags (acquire ops name r) {seen = seen} {r' = r'}
                  (acquire-Bounded r b (omega (arith, z))) in
              ground arith
          | no z ↦ ground arith
        ]

    poll_round-Bounded :
        (polls : List (Bool × Polled)) (out : Bool × Reader W) {seen : Bool} {r' : Reader W}
        → Bounded out.1.thread
        → poll_round ops name polls out ≡ some (seen, r')
        → Bounded r'.thread
    unfolding poll_round
    poll_round-Bounded polls (true, r) b e = ground arith
    poll_round-Bounded polls (false, r) {seen = seen} {r' = r'} b e =
        let (x, waited, finished) = bind_through _ (λ out. some (finish_round ops out)) e in
        let more = acquire_more-Bounded r b in
        let after : Bounded x.1.thread = poll_after polls (acquire_more ops name r) more waited in
        let done = finish_round-Bounded x after in ground arith

    -- A round of a read thread, whatever the connection, the flags and the calls of poll give,
    -- leaves both tables with their size and no more contexts assigned than they hold.
    pub thread_round-Bounded :
        (flags : List Bool) (stop : Bool) (polls : List (Bool × Polled)) (r : Reader W)
        {ends : Bool} {r' : Reader W}
        → Bounded r.thread
        → thread_round ops name flags stop polls r ≡ some (ends, r')
        → Bounded r'.thread
    unfolding thread_round
    thread_round-Bounded flags stop polls r {ends = ends} {r' = r'} b e =
        let ((seen, waiting), waited, finished) =
          bind_through (await_condition ops name flags r) _ e in
        poll_round-Bounded polls (seen || stop, waiting) {seen = ends} {r' = r'}
          (await_condition-Bounded flags r b waited) finished
