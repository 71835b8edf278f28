-- ===== src/Memory.antt =====
-- core/src/details/memory.c: the functions of the allocator, which an application can set, and shared
-- memory. A function is named by its address; a size is a size_t of 64 bits.
mod Restored
use substance_3d_connector.Base.{ℕ, ◌*◌, ◌%◌, ◌^◌, List, Option, none}
use substance_3d_connector.Retcode.{Retcode}

-- `connector_memory_allocate` and `connector_memory_free`
pub record Allocators : Type 0 where
  pub allocate : ℕ
  pub free : ℕ

module _ (malloc libc_free : ℕ) where
  -- The static variables at the program's start.
  abbrev pub initial : Allocators
  initial = record { allocate = malloc; free = libc_free }

  -- `connector_clear_allocators`
  unfoldable pub clear_allocators : Allocators → Retcode × Allocators
  clear_allocators a = (Retcode.success, record { allocate = malloc; free = libc_free })

-- `connector_set_allocator` and `connector_set_deallocator`
unfoldable pub set_allocator : ℕ → Allocators → Allocators
set_allocator allocator a = record a { allocate = allocator }

unfoldable pub set_deallocator : ℕ → Allocators → Allocators
set_deallocator deallocator a = record a { free = deallocator }

-- The calls of functions by their address: of an allocator with a size, of a deallocator with a
-- pointer.
module _ {W : Type 0} (call_allocate : ℕ → ℕ → W → Option ℕ × W) (call_free : ℕ → Option ℕ → W → W)
    (a : Allocators) where
  -- `connector_allocate`
  unfoldable pub allocate_memory : ℕ → W → Option ℕ × W
  allocate_memory size = call_allocate a.allocate size

  -- `connector_array_allocate`, whose product wraps.
  unfoldable pub array_allocate : ℕ → ℕ → W → Option ℕ × W
  array_allocate num size = call_allocate a.allocate ((num * size) % 2 ^ 64)

  -- `connector_free`
  unfoldable pub free_memory : Option ℕ → W → W
  free_memory ptr = call_free a.free ptr

-- `connector_shared_mem_t` on POSIX.
pub record SharedMemory : Type 0 where
  pub handle : Option ℕ
  pub size : ℕ
  pub path : Option (List ℕ)
  pub fd : ℕ

module _ {W : Type 0} where
  -- `connector_acquire_shared_memory`, for the call of mmap with a size and a descriptor of -1; what it
  -- gives is the handle, also the pointer of a failure.
  unfoldable acquire_shared_memory : (ℕ → W → Option ℕ × W) → SharedMemory → W → SharedMemory × W
  acquire_shared_memory mmap mem w =
      let (handle, w') = mmap mem.size w in (record mem { handle = handle }, w')

  -- `connector_free_shared_memory`, for the call of munmap.
  unfoldable free_shared_memory : (Option ℕ → ℕ → W → W) → SharedMemory → W → SharedMemory × W
  free_shared_memory munmap mem w =
      (record { handle = none; size = 0; path = none; fd = 0 }, munmap mem.handle mem.size w)
