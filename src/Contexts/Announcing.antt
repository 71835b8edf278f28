-- ===== src/Contexts/Announcing.antt =====
-- The announcement of a context to the read threads, by `append_available`.
use substance_3d_connector.Base.{
  ℕ, ◌+◌, ◌^◌, ◌<◌, ◌≡◌, refl, arith, [], ◌∷◌, ◌++◌, Option, some, length,
}
use substance_3d_connector.UintQueue
use substance_3d_connector.UintQueue.{UintQueue}
use substance_3d_connector.UintQueue.Fifo
use substance_3d_connector.UintQueue.Inv.{IsQuiet, contents}
use substance_3d_connector.UintQueue.Calls.{push_refines}
use substance_3d_connector.AvailableQueue
use substance_3d_connector.Contexts.Types.{State, append_available}

-- The queue of available contexts is there, quiet, not full and away from the wrap.
pub record CanAnnounce (available : Option UintQueue) (q : UintQueue) : Type 0 where
  pub there : available ≡ some q
  pub quiet : IsQuiet q
  pub space : length (contents q) + 1 < q.size
  pub far : q.write_index + 1 < 2 ^ 32

-- The identifier is the last of the queue of available contexts.
abbrev pub IsAnnounced : Option UintQueue → UintQueue → ℕ → Type 0
IsAnnounced available q i =
    (q' : UintQueue) × (available ≡ some q') × IsQuiet q' × (contents q' ≡ contents q ++ (i ∷ []))

-- An announcement puts the identifier last in the queue of available contexts.
pub append_available-IsAnnounced :
    {W : Type 0} (s : State W) (q : UintQueue) (i : ℕ)
    → CanAnnounce s.available q
    → IsAnnounced (append_available s i).available q i
unfolding append_available AvailableQueue.push Fifo.push
append_available-IsAnnounced s q i a = rw (a.there) (
  (UintQueue.push q i).1,
  refl,
  (push_refines a.quiet i a.far).1,
  ground (arith, a.space, push_refines a.quiet i a.far),
)
