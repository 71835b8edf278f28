-- ===== src/Memory/Restored.antt =====
-- What the setting and the clearing of the allocators amount to.
use substance_3d_connector.Base.{ℕ, ◌*◌, ◌^◌, ◌<◌, ◌≡◌, refl, arith, Option}
use substance_3d_connector.Retcode.{Retcode}
use substance_3d_connector.Memory.{
  Allocators, initial, clear_allocators, set_allocator, set_deallocator, allocate_memory,
  array_allocate, free_memory,
}

-- Functions that were set are those that are called, each for its own calls, until a clear gives both
-- of the C library back.
allocators_restored :
    {W : Type 0} (malloc libc_free allocator deallocator size : ℕ) (ptr : Option ℕ) (w : W)
    (call_allocate : ℕ → ℕ → W → Option ℕ × W) (call_free : ℕ → Option ℕ → W → W) (a : Allocators)
    → let own = set_deallocator deallocator (set_allocator allocator a) in
      (allocate_memory call_allocate call_free own size w ≡ call_allocate allocator size w)
      × ((free_memory call_allocate call_free own ptr w ≡ call_free deallocator ptr w)
          × (clear_allocators malloc libc_free own ≡ (Retcode.success, initial malloc libc_free)))
unfolding set_allocator set_deallocator allocate_memory free_memory clear_allocators
allocators_restored malloc libc_free allocator deallocator size ptr w call_allocate call_free a =
    (refl, (refl, refl))

-- An array is allocated with the size of its elements together where that is a size_t.
array_allocate-allocate :
    {W : Type 0} (num size : ℕ) (w : W) (call_allocate : ℕ → ℕ → W → Option ℕ × W)
    (call_free : ℕ → Option ℕ → W → W) (a : Allocators)
    → num * size < 2 ^ 64
    → array_allocate call_allocate call_free a num size w
      ≡ allocate_memory call_allocate call_free a (num * size) w
unfolding array_allocate allocate_memory
array_allocate-allocate num size w call_allocate call_free a fits = ground (arith, fits)
