-- ===== src/MessageQueue/Restart.antt =====
-- The queues across a shutdown and the next initialisation.
use substance_3d_connector.Base.{ℕ, suc, ◌≡◌, refl, ◌∙◌, List, [], ◌∷◌, Option, none, some, length}
use substance_3d_connector.Retcode.{Retcode}
use substance_3d_connector.Message.{Message}
use substance_3d_connector.LockedQueue.{Heap}
use substance_3d_connector.LockedQueue.Chain.{last, Chain, Apart, Holds}
use substance_3d_connector.LockedQueue.Clear.{Released, clear_releases}
use substance_3d_connector.MessageQueue.{
  QueueState, Queues, init_message_queues, shutdown_message_queues, clear_queues,
}

abbrev Cells : Type 0
Cells = List (ℕ × Message)

-- The two lists share no node.
abbrev pub Disjoint : List (ℕ × Message) → List (ℕ × Message) → Type 0
Disjoint [] xs = Unit
Disjoint ((b, m) ∷ ys) xs = Apart b xs × Disjoint ys xs

Chain-frame :
    (h h' : Heap Message) (p : Option ℕ) (xs ys : Cells)
    → ((b : ℕ) → Apart b xs → h' b ≡ h b)
    → Disjoint ys xs
    → Chain h p ys
    → Chain h' p ys
Chain-frame h h' p xs [] same d e = e
Chain-frame h h' p xs ((b, m) ∷ ys) same d (next, e, at, rest) =
    (next, e, same b d.0 ∙ at, Chain-frame h h' next xs ys same d.1 rest)

-- A shutdown of initialised queues that share no node ends, with the rounds that the numbers of
-- their messages give, and touches no released node; the next initialisation starts with two empty
-- queues, although the shutdown leaves the ends of both in place, which point to their last nodes.
pub restart_empty :
    (s : Queues) (xs ys : List (ℕ × Message))
    → s.state ≡ QueueState.initialized
    → Holds s.heap s.inbound xs
    → Holds s.heap s.outbound ys
    → Disjoint ys xs
    → (s' : Queues) × (shutdown_message_queues (suc (length xs)) (suc (length ys)) s
        ≡ some (Retcode.success, s'))
      × Released s'.heap ys
      × (s'.inbound.end ≡ last xs)
      × (s'.outbound.end ≡ last ys)
      × ((init_message_queues s').0 ≡ Retcode.success)
      × Holds (init_message_queues s').1.heap (init_message_queues s').1.inbound []
      × Holds (init_message_queues s').1.heap (init_message_queues s').1.outbound []
unfolding shutdown_message_queues clear_queues init_message_queues
restart_empty s xs ys now inbound outbound d =
    let (h, done, freed, same) = clear_releases s.heap s.inbound xs inbound in
    let kept : Holds h s.outbound ys = record {
      chain = Chain-frame s.heap h s.outbound.front xs ys same d outbound.chain;
      ended = outbound.ended;
      distinct = outbound.distinct;
    } in
    let (h', done', freed', same') = clear_releases h s.outbound ys kept in
    (
      record {
        state = QueueState.shutdown;
        inbound = record { front = none; end = last xs };
        outbound = record { front = none; end = last ys };
        heap = h';
      },
      rw (now, done, done') refl,
      freed',
      refl,
      refl,
      refl,
      record { chain = refl; ended = refl; distinct = tt },
      record { chain = refl; ended = refl; distinct = tt },
    )
