-- ===== src/UintQueue/Create.antt =====
-- What `connector_uint_queue_create` hands out, and the queue's behaviour when an index wraps.
use native.Mathlib.Nat.{add-mul-mod_self_right}
use substance_3d_connector.Base.{
  ℕ, ◌+◌, ◌-◌, ◌%◌, ◌^◌, ◌≤◌, ◌<◌, ◌≡◌, refl, Bool, true, false, [], none, arith, bit_xor,
  bit_and-one, ℕ_discrete, ◌⊎◌, ap, sym, ◌∙◌, ◌*◌, ◌≢◌, length-replicate,
}
use substance_3d_connector.Retcode.{Retcode}
use substance_3d_connector.UintQueue.{UintQueue, live, freed, null, create, slots, fresh, pop}
use substance_3d_connector.UintQueue.Inv.{IsQuiet, contents}

parity-bounds : (a : ℕ) → (bit_xor (a % 2) 1 + a % 2 ≡ 1)
parity-bounds a = elim (ℕ_discrete (a % 2) 0) [
  | yes e ↦ rw e refl
  | no e ↦ let one : a % 2 ≡ 1 = omega arith in rw one refl
]

slots-value : (size : ℕ) → size + 2 < 2 ^ 32 → slots size + size % 2 ≡ size + 2
slots-value size h = rw (bit_and-one size) (omega (arith, parity-bounds size))

-- With memory for both parts, a queue created for `size` elements is quiet and empty, and it has
-- room for them: its even number of slots is one or two above `size`.
create-IsQuiet :
    (size : ℕ)
    → 0 < size
    → size + 2 < 2 ^ 32
    → (q : UintQueue) × (create true true size ≡ live q)
      × IsQuiet q
      × (contents q ≡ [])
      × (size < q.size)
      × (q.size ≤ size + 2)
      × (q.size % 2 ≡ 0)
unfolding create
create-IsQuiet size pos h = (
  fresh (slots size),
  ground arith,
  record {
    committed = refl;
    ordered = omega arith;
    room = omega (arith, slots-value size h);
    storage = length-replicate (slots size) 0;
    small = omega arith;
  },
  refl,
  omega (arith, slots-value size h),
  omega (arith, slots-value size h),
  omega (arith, slots-value size h),
)

-- Where the size is zero or the array gets no memory, the structure has been released, and the
-- pointer that is returned is not null: the caller's test for a failure passes it.
pub create-failure_dangles :
    (array_memory : Bool) (size : ℕ)
    → (size ≡ 0) ⊎ (array_memory ≡ false)
    → (create true array_memory size ≡ freed) × (create true array_memory size ≢ null)
unfolding create
create-failure_dangles array_memory size h = ground arith

-- Across the wrap of the 32-bit indices the test for an empty queue fails its purpose: with
-- `d + k` elements committed, `d` before the wrap and `k` after it, and that number differing from
-- `2 ^ 32` by a multiple of the number of slots, a pop reports an error and returns nothing.
pub pop_blind_at_wrap :
    (q : UintQueue) (d k : ℕ)
    → 0 < d
    → d < 2 ^ 32
    → q.read_index ≡ 2 ^ 32 - d
    → q.max_index ≡ k
    → (j : ℕ) → d + k + j * q.size ≡ 2 ^ 32
    → pop q ≡ (Retcode.error, none, q)
unfolding pop
pop_blind_at_wrap q d k pos small r m j e = ground (arith, same)
  where
    same : q.read_index % q.size ≡ q.max_index % q.size
    same =
        ap (λ n. n % q.size) (omega arith)
        ∙ add-mul-mod_self_right k j q.size
        ∙ ap (λ n. n % q.size) (sym m)
