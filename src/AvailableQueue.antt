-- ===== src/AvailableQueue.antt =====
-- core/src/details/available_queue.c: the contexts that no read thread has taken yet.
-- The queue pointer is null before the initialisation.
pub mod Retries
use substance_3d_connector.Base.{ℕ, zero, suc, Bool, true, false, if◌then◌else◌, Option, none, some}
use substance_3d_connector.Retcode.{Retcode, is_success}
use substance_3d_connector.UintQueue
use substance_3d_connector.UintQueue.{UintQueue, create, live, null, freed}

-- SUBSTANCE_CONNECTOR_CONTEXT_COUNT and SUBSTANCE_CONNECTOR_AVAILABLE_RETRIES
abbrev pub context_count : ℕ
context_count = 32

abbrev pub retries : ℕ
retries = 5

-- `connector_available_queue_init`, where the two flags say whether the allocator has memory for the
-- queue and for its array; `none` is a success that keeps a pointer to a queue that was released.
unfoldable pub init : Bool → Bool → Option UintQueue → Option (Retcode × Option UintQueue)
init struct_memory array_memory (some q) = some (Retcode.error, some q)
init struct_memory array_memory none = elim (create struct_memory array_memory context_count) [
  | live q ↦ some (Retcode.success, some q)
  | null ↦ some (Retcode.error, none)
  | freed ↦ none
]

unfoldable pub shutdown : Option UintQueue → Retcode × Option UintQueue
shutdown none = (Retcode.error, none)
shutdown (some q) = (Retcode.success, none)

unfoldable pub push : Option UintQueue → ℕ → Retcode × Option UintQueue
push none context = (Retcode.error, none)
push (some q) context = let (code, q') = UintQueue.push q context in (code, some q')

-- The loop of `connector_available_queue_pop` with the rounds that are left.
unfoldable pub pop_loop : ℕ → UintQueue → Retcode × Option ℕ × UintQueue
pop_loop zero q = (Retcode.error, none, q)
pop_loop (suc n) q =
    let rest = pop_loop n (UintQueue.pop q).2 in
    if is_success (UintQueue.pop q).0
    then (Retcode.success, (UintQueue.pop q).1, (UintQueue.pop q).2)
    else rest

unfoldable pub pop : Option UintQueue → Retcode × Option ℕ × Option UintQueue
unfolding pop_loop
pop none = (Retcode.error, none, none)
pop (some q) = let (code, out, q') = pop_loop retries q in (code, out, some q')
