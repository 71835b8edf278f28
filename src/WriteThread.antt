-- ===== src/WriteThread.antt =====
-- core/src/details/threadimpl/write_threads.c: a thread that writes the messages of the outbound
-- queue. The values of the shutdown flag after the waits are inputs, and the loop over the queue
-- has a number of rounds.
pub mod Drain
mod Tests
use substance_3d_connector.Base.{
  ℕ, zero, suc, ◌>>=◌, Bool, true, false, List, [], ◌∷◌, Option, none, some,
}
use substance_3d_connector.Message.{Message}
use substance_3d_connector.MessageQueue.{Queues, acquire_outbound}
use substance_3d_connector.Contexts.Types.{State, Connection}
use substance_3d_connector.Contexts.Close.{context_write}

-- The queues and the contexts; `stops` once the thread saw the flag.
pub record Writer (W : Type 0) : Type 0 where
  pub queues : Queues
  pub state : State W
  pub stops : Bool

module _ {W : Type 0} (ops : Connection W) where
  -- A message that was acquired is written; its code has no effect.
  unfoldable pub write_one : Message → Writer W → Writer W
  write_one m w = record w { state = (context_write ops w.state m.context (some m)).1 }

  -- The loop goes on as long as the queue gives a message.
  unfoldable pub write_next :
      (Writer W → Option (Writer W)) → Writer W → Option Message × Queues → Option (Writer W)
  unfolding write_one
  write_next again w (none, q) = some (record w { queues = q })
  write_next again w (some m, q) = again (write_one m (record w { queues = q }))

  -- The loop over the queue, for the rounds that are left; `none` when they run out, or when a
  -- released node is touched.
  unfoldable pub drain : ℕ → Writer W → Option (Writer W)
  unfolding write_next
  drain zero w = none
  drain (suc n) w = acquire_outbound w.queues >>= write_next (drain n) w

  -- A wait that found no message is followed by another one.
  unfoldable pub after_wait :
      (Writer W → Option (Writer W))
      → (Writer W → Option (Writer W))
      → Writer W
      → Option Message × Queues
      → Option (Writer W)
  unfolding write_one
  after_wait wait go w (none, q) = wait (record w { queues = q })
  after_wait wait go w (some m, q) = go (write_one m (record w { queues = q }))

  -- One round of the routine: waiting for a message, then the loop over the queue.
  unfoldable pub write_round : List Bool → ℕ → Writer W → Option (Writer W)
  unfolding after_wait drain
  write_round [] n w = none
  write_round (true ∷ flags) n w = some (record w { stops = true })
  write_round (false ∷ flags) n w =
      acquire_outbound w.queues >>= after_wait (write_round flags n) (drain n) w
