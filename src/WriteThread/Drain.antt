-- ===== src/WriteThread/Drain.antt =====
-- A thread that wakes writes the whole queue.
use substance_3d_connector.Base.{
  ℕ, zero, suc, ◌<◌, ◌≡◌, refl, ◌∙◌, arith, Bool, false, List, [], ◌∷◌, none, some, length,
}
use substance_3d_connector.Message.{Message}
use substance_3d_connector.LockedQueue.Chain.{Holds}
use substance_3d_connector.MessageQueue.{Queues, acquire_outbound, dequeue_message, take_message}
use substance_3d_connector.MessageQueue.Fifo.{dequeue_message_refines}
use substance_3d_connector.LockedQueue.{put, dequeue}
use substance_3d_connector.Contexts.Types.{State, Connection}
use substance_3d_connector.Contexts.Close.{context_write}
use substance_3d_connector.WriteThread.{
  Writer, write_one, write_next, drain, after_wait, write_round,
}

-- The messages are written one after the other.
abbrev pub write_all : {W : Type 0} → Connection W → List (ℕ × Message) → State W → State W
write_all ops [] s = s
write_all ops ((a, m) ∷ xs) s = write_all ops xs (context_write ops s m.context (some m)).1

acquire_none : (q : Queues) → Holds q.heap q.outbound [] → acquire_outbound q ≡ some (none, q)
unfolding acquire_outbound dequeue_message take_message dequeue
acquire_none q holds = rw holds.chain refl

acquire_first :
    (q : Queues) (a : ℕ) (m : Message) (xs : List (ℕ × Message))
    → Holds q.heap q.outbound ((a, m) ∷ xs)
    → (q' : Queues) × (acquire_outbound q ≡ some (some m, q'))
      × Holds q'.heap q'.outbound xs
      × (q'.inbound ≡ q.inbound)
      × (q'.state ≡ q.state)
unfolding acquire_outbound
acquire_first q a m xs holds =
    let (out, done, rest) = dequeue_message_refines q.heap q.outbound xs a m holds in
    (record q { heap = put q.heap a none; outbound = out }, rw done refl, rest, refl, refl)

module _ {W : Type 0} (ops : Connection W) where
  -- The queue is empty and the messages have been written.
  pub record Written (w : Writer W) (xs : List (ℕ × Message)) (w' : Writer W) : Type 0 where
    pub empty : Holds w'.queues.heap w'.queues.outbound []
    pub written : w'.state ≡ write_all ops xs w.state
    pub inbound : w'.queues.inbound ≡ w.queues.inbound
    pub goes_on : w'.stops ≡ w.stops

  drain_writes :
      (n : ℕ) (xs : List (ℕ × Message)) (w : Writer W)
      → Holds w.queues.heap w.queues.outbound xs
      → length xs < n
      → (w' : Writer W) × (drain ops n w ≡ some w') × Written w xs w'
  unfolding drain write_next write_one
  drain_writes zero xs w holds h = absurd (omega arith)
  drain_writes (suc n) [] w holds h = (
    w,
    rw (acquire_none w.queues holds) refl,
    record { empty = holds; written = refl; inbound = refl; goes_on = refl },
  )
  drain_writes (suc n) ((a, m) ∷ xs) w holds h =
      let (q, got, rest, same, state) = acquire_first w.queues a m xs holds in
      let (w', done, k) =
        drain_writes n xs (write_one ops m (record w { queues = q })) rest (omega arith) in
      (
        w',
        rw got done,
        record {
          empty = k.empty;
          written = k.written;
          inbound = k.inbound ∙ same;
          goes_on = k.goes_on;
        },
      )

  -- A thread that wakes to messages writes each of them once, in the order in which they were
  -- enqueued and whatever the writes give, empties the outbound queue, leaves the inbound one as it
  -- was, and goes on. The rounds of its loop are at least as many as the messages.
  pub write_round-writes :
      (flags : List Bool) (n : ℕ) (a : ℕ) (m : Message) (xs : List (ℕ × Message)) (w : Writer W)
      → Holds w.queues.heap w.queues.outbound ((a, m) ∷ xs)
      → length xs < n
      → (w' : Writer W) × (write_round ops (false ∷ flags) n w ≡ some w')
        × Written w ((a, m) ∷ xs) w'
  unfolding write_round after_wait write_one
  write_round-writes flags n a m xs w holds h =
      let (q, got, rest, same, state) = acquire_first w.queues a m xs holds in
      let (w', done, k) = drain_writes n xs (write_one ops m (record w { queues = q })) rest h in
      (
        w',
        rw got done,
        record {
          empty = k.empty;
          written = k.written;
          inbound = k.inbound ∙ same;
          goes_on = k.goes_on;
        },
      )
