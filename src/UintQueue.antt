-- ===== src/UintQueue.antt =====
-- core/src/details/uint_queue.c: the lock-free, fixed-size queue of unsigned integers.
-- A thread in `connector_uint_queue_push` or `_pop` is a program counter with its live locals, and
-- `step` performs one access to the shared structure with the local code that follows it. A call
-- alone is `run` on fuel; several threads at once are in `UintQueue.Threads`.
pub mod Inv
pub mod Fifo
pub mod Calls
pub mod Create
pub mod Threads
mod Tests
use substance_3d_connector.Base.{
  ℕ, zero, suc, ◌+◌, ◌%◌, ◌==◌, ◌&&◌, not, if◌then◌else◌, Bool, true, false, List, Option, none,
  some, u32, get_or, set, replicate, bit_and, bit_xor, ltb,
}
use substance_3d_connector.Retcode.{Retcode}

-- `struct _connector_uint_queue`; the indices are uint32_t.
pub record UintQueue : Type 0 where
  pub write_index : ℕ
  pub read_index : ℕ
  pub max_index : ℕ
  pub size : ℕ
  pub array : List ℕ

abbrev pub convert_to_index : ℕ → ℕ → ℕ
convert_to_index position length = position % length

-- Where a thread stands, with the locals that are live there.
pub data Pc : Type 0 where
  idle : Pc
  push_start : (elem : ℕ) → Pc
  push_read : (elem write_index : ℕ) → Pc
  push_claim : (elem write_index read_index : ℕ) → Pc
  push_store : (elem write_index : ℕ) → Pc
  push_commit : (write_index : ℕ) → Pc
  push_done : Retcode → Pc
  pop_start : Pc
  pop_read : (read_index : ℕ) → Pc
  pop_fetch : (read_index max_index : ℕ) → Pc
  pop_claim : (read_index value : ℕ) → Pc
  pop_done : Retcode → Option ℕ → Pc

-- The macro CONNECTOR_ATOMIC_COMPARE_EXCHANGE on one cell: the cell afterwards and the value that
-- was found in it.
abbrev compare_exchange : ℕ → ℕ → ℕ → ℕ × ℕ
compare_exchange cell x y = (if cell == x then y else cell, cell)

-- One access to the shared queue. A failed exchange goes round its loop.
unfoldable pub step : Pc → UintQueue → Pc × UintQueue
step idle q = (idle, q)
step (push_start elem) q = (push_read elem q.write_index, q)
step (push_read elem w) q = (push_claim elem w q.read_index, q)
step (push_claim elem w r) q =
    if convert_to_index (u32 (w + 1)) q.size == convert_to_index r q.size
    then (push_done Retcode.error, q)
    else let (cell, found) = compare_exchange q.write_index w (u32 (w + 1)) in
      (if found == w then push_store elem w else push_start elem, record q { write_index = cell })
step (push_store elem w) q =
    (push_commit w, record q { array = set q.array (convert_to_index w q.size) elem })
step (push_commit w) q =
    let (cell, found) = compare_exchange q.max_index w (u32 (w + 1)) in
    (if found == w then push_done Retcode.success else push_commit w, record q { max_index = cell })
step (push_done code) q = (push_done code, q)
step pop_start q = (pop_read q.read_index, q)
step (pop_read r) q = (pop_fetch r q.max_index, q)
step (pop_fetch r m) q =
    if convert_to_index r q.size == convert_to_index m q.size
    then (pop_done Retcode.error none, q)
    else (pop_claim r (get_or q.array (convert_to_index r q.size) 0), q)
step (pop_claim r value) q =
    let (cell, found) = compare_exchange q.read_index r (u32 (r + 1)) in
    (
      if found == r then pop_done Retcode.success (some value) else pop_start,
      record q { read_index = cell },
    )
step (pop_done code out) q = (pop_done code out, q)

-- A thread that has the queue to itself.
unfoldable pub run : ℕ → Pc → UintQueue → Pc × UintQueue
unfolding step
run zero pc q = (pc, q)
run (suc fuel) pc q = let (pc', q') = step pc q in run fuel pc' q'

-- What the allocator gave, as far as the queue's owner sees it.
pub data Pointer : Type 0 where
  null : Pointer
  freed : Pointer
  live : UintQueue → Pointer

-- The number of slots for a requested size.
abbrev pub slots : ℕ → ℕ
slots size = u32 (size + (1 + bit_xor (bit_and size 0x01) 0x01))

abbrev pub fresh : ℕ → UintQueue
fresh n = record { write_index = 0; read_index = 0; max_index = 0; size = n; array = replicate n 0 }

-- `connector_uint_queue_destroy`: the code, and what the caller's pointer now is.
unfoldable pub destroy : Pointer → Retcode × Pointer
destroy null = (Retcode.error, null)
destroy freed = (Retcode.success, freed)
destroy (live q) = (Retcode.success, freed)

-- `connector_uint_queue_create`, where the two flags say whether the allocator has memory for the
-- structure and for the array.
unfoldable pub create : Bool → Bool → ℕ → Pointer
unfolding destroy
create struct_memory array_memory size =
    if not struct_memory
    then (destroy null).1
    else if ltb 0 size && array_memory
    then live (fresh (slots size))
    else (destroy (live (fresh 0))).1

-- `connector_uint_queue_push` on a queue that is there, of a thread that has it to itself: each
-- exchange succeeds at once.
unfoldable pub push : UintQueue → ℕ → Retcode × UintQueue
push q elem =
    if convert_to_index (u32 (q.write_index + 1)) q.size == convert_to_index q.read_index q.size
    then (Retcode.error, q)
    else (
      Retcode.success,
      record q {
        write_index = u32 (q.write_index + 1);
        max_index = u32 (q.write_index + 1);
        array = set q.array (convert_to_index q.write_index q.size) elem;
      },
    )

-- `connector_uint_queue_pop` likewise, with what goes through its out parameter.
unfoldable pub pop : UintQueue → Retcode × Option ℕ × UintQueue
pop q =
    if convert_to_index q.read_index q.size == convert_to_index q.max_index q.size
    then (Retcode.error, none, q)
    else (
      Retcode.success,
      some (get_or q.array (convert_to_index q.read_index q.size) 0),
      record q { read_index = u32 (q.read_index + 1) },
    )

-- `connector_uint_queue_push` whole: a null pointer is invalid.
unfoldable pub push_to : Option UintQueue → ℕ → Retcode × Option UintQueue
unfolding push
push_to none elem = (Retcode.invalid, none)
push_to (some q) elem = let (code, q') = push q elem in (code, some q')
