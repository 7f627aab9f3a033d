-- ===== src/Manager/DataPool.antt =====
-- acquireIndividualDataPool of backend/src/MemoryManager.cc: chunks of 2 GiB for the BIBOPs.
pub mod Frame
pub mod Supply
use semalloc.Common.{ℕ, ◌+◌, leb, ◌==◌, if◌then◌else◌, update}
use semalloc.Config.{individual_bibop_size, individual_data_pool_size, individual_data_pool_n}
use semalloc.Pool.{allocate_memory}
use semalloc.Machine.{Os, Cmd, ok, Exit, pure, exit, ◌>>=◌, ◌>>◌}
use semalloc.Manager.{State, set_manager, allocate_memory_pool}

-- `this->individualDataPool[this->individualDatPoolBump]->allocateMemory(INDIVIDUAL_BIBOP_SIZE)`
unfoldable pub take_chunk : Cmd State ℕ
take_chunk s =
    let mm = s.manager in
    let i = mm.individual_dat_pool_bump in
    let (data', pool) = allocate_memory (mm.individual_data_pool i) individual_bibop_size in
    ok data' (record s {
      manager = record mm { individual_data_pool = update mm.individual_data_pool i pool };
    })

module _ (os : Os) where
  -- A new pool in the next place of the array.
  unfoldable pub next_pool : Cmd State (Unit {0})
  next_pool s =
      let mm = s.manager in
      let i = mm.individual_dat_pool_bump + 1 in
      let mm' = record mm { individual_dat_pool_bump = i } in
      if leb individual_data_pool_n i
      then exit Exit.data_pool_max s
      else (do
        set_manager mm'
        pool ← allocate_memory_pool os individual_data_pool_size
        set_manager (record mm' { individual_data_pool = update mm'.individual_data_pool i pool }))
          s

  unfoldable pub acquire_individual_data_pool : Cmd State ℕ
  unfolding take_chunk next_pool
  acquire_individual_data_pool = do
    chunk ← take_chunk
    if chunk == 0 then next_pool >> take_chunk else pure chunk
