-- ===== src/Pool.antt =====
-- MemoryPool of backend/include/MemoryPool.hh and backend/src/MemoryPool.cc: a bump allocator over
-- one mapping. Pointers are 64-bit words, and `nullptr` is 0.
pub mod Chunks
use semalloc.Common.{ℕ, ltb, if◌then◌else◌, add64, sub64}

pub record MemoryPool : Type 0 where
  pub base_memory : ℕ
  pub bump_memory : ℕ
  pub boundary_memory : ℕ

-- The body of AllocateMemoryPool, after the mapping of `init_size` bytes at `base`.
unfoldable pub init_memory_pool : ℕ → ℕ → MemoryPool
init_memory_pool base init_size = record {
  base_memory = base;
  bump_memory = base;
  boundary_memory = add64 base init_size;
}

-- The bump pointer is moved first and moved back when it has passed the boundary.
unfoldable pub allocate_memory : MemoryPool → ℕ → ℕ × MemoryPool
allocate_memory pool size =
    let bumped = add64 pool.bump_memory size in
    if ltb pool.boundary_memory bumped
    then (0, record pool { bump_memory = sub64 bumped size })
    else (pool.bump_memory, record pool { bump_memory = bumped })

unfoldable pub get_bump_memory : MemoryPool → ℕ
get_bump_memory pool = pool.bump_memory

unfoldable pub get_pool_base : MemoryPool → ℕ
get_pool_base pool = pool.base_memory
