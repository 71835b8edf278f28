-- ===== src/Contexts/Starting.antt =====
-- The subsystem after its initialisation.
use substance_3d_connector.Base.{
  ℕ, zero, suc, ◌+◌, ◌≡◌, refl, arith, List, [], ◌∷◌, ◌++◌, none, some, replicate, Bool, true,
  false,
}
use substance_3d_connector.Retcode.{Retcode}
use substance_3d_connector.UintQueue
use substance_3d_connector.UintQueue.{create}
use substance_3d_connector.Contexts.Types.{State, zeroed}
use substance_3d_connector.Contexts.Close.{init_contexts, push_from}
use substance_3d_connector.Contexts.FreeList.{NextFree}

-- The identifiers from `i` on.
abbrev pub range_from : ℕ → ℕ → List ℕ
range_from zero i = []
range_from (suc n) i = i ∷ range_from n (i + 1)

abbrev pub started : {W : Type 0} → W → State W
started w = record {
  context_list = replicate 32 zeroed;
  free_contexts = record {
    write_index = 32;
    read_index = 0;
    max_index = 32;
    size = 34;
    array = range_from 32 0 ++ (0 ∷ 0 ∷ []);
  };
  available = none;
  notices = [];
  world = w;
}

-- With memory for the queue and its array the subsystem starts with 32 cleared contexts, all of them
-- free in the order of their identifiers, and with a free queue that is quiet and away from the wrap.
pub init_contexts-ready :
    {W : Type 0} (w : W)
    → (init_contexts true true w ≡ some (Retcode.success, some (started w)))
      × NextFree (started w) 0 (range_from 31 1)
unfolding init_contexts create push_from UintQueue.push
init_contexts-ready w = (
  refl,
  record {
    quiet = record {
      committed = refl;
      ordered = omega arith;
      room = omega arith;
      storage = refl;
      small = omega arith;
    };
    held = refl;
    far = omega arith;
    bound = omega arith;
    complete = refl;
  },
)

-- Without memory for the queue the subsystem reports an error, and without memory for the array it
-- pushes into a queue that was released.
init_contexts-fails :
    {W : Type 0} (array_memory : Bool) (w : W)
    → (init_contexts false array_memory w ≡ some (Retcode.error, none))
      × (init_contexts true false w ≡ none)
unfolding init_contexts create UintQueue.destroy
init_contexts-fails array_memory w = (refl, refl)
