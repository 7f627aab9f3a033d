-- ===== src/Pool/Chunks.antt =====
-- What MemoryPool::allocateMemory hands out: chunks inside the pool, end to end.
use semalloc.Common.{ℕ, ◌+◌, ◌^◌, ◌≤◌, ◌<◌, ◌≡◌, arith, inl, inr, ltb, Bool-cases}
use semalloc.Pool.{MemoryPool, init_memory_pool, allocate_memory}

-- The bump pointer lies in the pool, and the pool does not reach the end of the address space.
pub record IsPool (pool : MemoryPool) : Type 0 where
  pub based : 0 < pool.base_memory
  pub bumped : pool.base_memory ≤ pool.bump_memory
  pub bounded : pool.bump_memory ≤ pool.boundary_memory
  pub low : pool.boundary_memory < 2 ^ 63

pub init_memory_pool-IsPool :
    (base size : ℕ) → 0 < base → base + size < 2 ^ 63 → IsPool (init_memory_pool base size)
unfolding init_memory_pool
init_memory_pool-IsPool base size h k = omega arith

-- The two outcomes of an allocation. Either the rest of the pool is too small, the result is null
-- and the pool is as it was; or the result is the old bump pointer and the chunk ends in the pool.
pub data Allocated (pool : MemoryPool) (size : ℕ) : ℕ × MemoryPool → Type 0 where
  full :
      (r : ℕ × MemoryPool)
      → pool.boundary_memory < pool.bump_memory + size
      → r ≡ (0, pool)
      → Allocated pool size r
  chunk :
      (r : ℕ × MemoryPool)
      → pool.bump_memory + size ≤ pool.boundary_memory
      → r ≡ (pool.bump_memory, record pool { bump_memory = pool.bump_memory + size })
      → Allocated pool size r

-- An allocation from a well-formed pool, of less than 2 ^ 63 bytes, has one of the two outcomes.
pub allocate_memory-Allocated :
    (pool : MemoryPool) (size : ℕ)
    → IsPool pool
    → size < 2 ^ 63
    → Allocated pool size (allocate_memory pool size)
unfolding allocate_memory
allocate_memory-Allocated pool size v h =
    elim (Bool-cases (ltb pool.boundary_memory (pool.bump_memory + size))) [
      | inl over ↦ full _ (ground arith) (ground arith)
      | inr fits ↦ chunk _ (ground arith) (ground arith)
    ]
