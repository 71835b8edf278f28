-- ===== src/ReadThread/Routine.antt =====
-- The loop of a read thread: `read_thread_routine` of core/src/details/threadimpl/read_threads.c and
-- `connector_read_thread_await_condition` of core/src/details/threadimpl/readthreadimpl.c. The
-- values of the shutdown flag and the calls of poll are inputs.
use substance_3d_connector.Base.{
  ℕ, ltb, ◌==◌, ◌>>=◌, ◌||◌, Bool, true, false, if◌then◌else◌, List, [], ◌∷◌, Option, none, some,
}
use substance_3d_connector.Contexts.Types.{State, Connection}
use substance_3d_connector.Contexts.Close.{context_close}
use substance_3d_connector.ReadThread.{Served, check_load, held, try_acquire, cleanup_connections}
use substance_3d_connector.ReadThread.Events.{
  Reader, Polled, PollCode, poll_contexts, handle_events,
}

module _ {W : Type 0} where
  abbrev served : Reader W → Served W → Reader W
  served r (code, t, s) = record r { thread = t; state = s }

  -- The reader after a call of poll.
  abbrev pub polled : Reader W → Polled → PollCode × Reader W
  polled r p =
      let (code, polls) = poll_contexts r.thread.contexts r.thread.assigned_contexts p in
      (code, record r { thread = record (r.thread) { contexts = polls } })

  -- The contexts of the list are closed.
  abbrev pub close_all : List ℕ → State W → State W
  close_all [] s = s
  close_all (c ∷ cs) s = close_all cs (context_close s c).1

module _ {W : Type 0} (ops : Connection W) where
  abbrev pub clean : Reader W → Reader W
  clean r = served r (cleanup_connections ops r.thread r.state)

  -- The loop of cleanups and polls, with the value of the flag before each call: whether the flag
  -- was seen, `none` while poll still waits.
  unfoldable pub poll_loop : List (Bool × Polled) → Reader W → Option (Bool × Reader W)
  unfolding poll_contexts
  poll_loop [] r = none
  poll_loop ((flag, p) ∷ ps) r =
      let r' = clean r in
      let rest = poll_loop ps (polled r' p).1 in
      if flag
      then some (true, r')
      else elim (polled r' p).0 [ PollCode.timeout ↦ rest | _ ↦ some (false, (polled r' p).1) ]

  -- The end of a round, which the flag skips.
  unfoldable pub finish_round : Bool × Reader W → Bool × Reader W
  unfolding handle_events
  finish_round (true, r) = (true, r)
  finish_round (false, r) = (false, clean (handle_events ops r.thread.assigned_contexts 0 r))

  -- The end of the routine.
  unfoldable pub exit_thread : Reader W → Reader W
  exit_thread r = clean (record r { state = close_all (held r.thread) r.state })

module _ {W : Type 0} (ops : Connection W) (name : Option (List ℕ)) where
  abbrev pub acquire : Reader W → Reader W
  acquire r = served r (try_acquire ops name r.thread r.state)

  -- `connector_read_thread_await_condition` with the values of the flag after the waits: whether
  -- the flag was seen, `none` while the thread still waits.
  unfoldable pub await_condition : List Bool → Reader W → Option (Bool × Reader W)
  await_condition [] r = if r.thread.assigned_contexts == 0 then none else some (false, r)
  await_condition (flag ∷ flags) r =
      let rest = await_condition flags (acquire r) in
      if r.thread.assigned_contexts == 0
      then if flag then some (true, r) else rest
      else some (false, r)

  -- The acquisition of one more context, if the load allows it.
  unfoldable pub acquire_more : Reader W → Reader W
  acquire_more r = let more = acquire r in if check_load r.thread then more else r

  unfoldable pub poll_round : List (Bool × Polled) → Bool × Reader W → Option (Bool × Reader W)
  unfolding acquire_more poll_loop finish_round
  poll_round polls (true, r) = some (true, r)
  poll_round polls (false, r) =
      let r' = acquire_more r in
      let waits = poll_loop ops polls r' in
      (if ltb 0 r'.thread.assigned_contexts then waits else some (false, r')) >>= λ out.
      some (finish_round ops out)

  -- One round of the routine, with the value of the flag that it reads after the wait: whether the
  -- thread has to end, and its state.
  unfoldable pub thread_round :
      List Bool → Bool → List (Bool × Polled) → Reader W → Option (Bool × Reader W)
  unfolding await_condition poll_round
  thread_round flags stop polls r =
      await_condition flags r >>= λ (seen, r'). poll_round polls (seen || stop, r')
