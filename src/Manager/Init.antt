-- ===== src/Manager/Init.antt =====
-- InitMemoryManager and AllocateMemoryManager of backend/include/MemoryManager.hh,
-- AllocateGlobalBIBOP of backend/src/MemoryManager.cc, InitGlobalBIBOP of
-- backend/include/GlobalBIBOP.hh and AllocateSingleBIBOP of backend/include/SingleBIBOP.hh.
use semalloc.Common.{ℕ, zero, suc, ◌+◌, ◌*◌, ◌^◌, ◌==◌, if◌then◌else◌, update}
use semalloc.Config.{
  all_ones, individual_data_pool_size, metadata_pool_size, global_bag_n, global_single_bibop_size,
  min_bag_size,
}
use semalloc.Bibop.{init_bibop}
use semalloc.Pool.{MemoryPool}
use semalloc.Machine.{Os, Cmd, Exit, Run, pure, exit, ◌>>=◌, ◌>>◌}
use semalloc.Manager.{
  MemoryManager, IndividualSlot, State, mmap, store_bibop, set_manager, allocate_memory_pool,
}
use semalloc.Manager.Individual.{allocate_metadata}

abbrev pub no_pool : MemoryPool
no_pool = record { base_memory = 0; bump_memory = 0; boundary_memory = 0 }

-- A manager in fresh memory, which is zero.
abbrev pub blank_manager : MemoryManager
blank_manager = record {
  individual_data_pool = λ _. no_pool;
  lazy_identifiers = λ _. record { csi = 0; occur_count = 0 };
  metadata_pool = no_pool;
  global_bibop = λ _. 0;
  individual_dat_pool_bump = 0;
  individual_bibop = λ _. record { ptr = λ _. 0; csi = 0 };
  free_list = 0;
  thread_id = 0;
}

-- `memset(individualBIBOP, 0xFF, sizeof individualBIBOP)`
abbrev pub empty_slots : ℕ → IndividualSlot
empty_slots _ = record { ptr = λ _. all_ones; csi = all_ones }

module _ (os : Os) where
  unfoldable pub allocate_single_bibop : ℕ → ℕ → ℕ → Cmd State ℕ
  unfolding mmap store_bibop
  allocate_single_bibop base object_size capacity = do
    sb ← mmap os 40
    if sb == 0
        then exit Exit.no_memory
        else store_bibop sb (init_bibop base object_size capacity) >> pure sb

  unfoldable pub set_global_bibop : ℕ → ℕ → Cmd State (Unit {0})
  set_global_bibop i b s =
      let mm = s.manager in set_manager (record mm { global_bibop = update mm.global_bibop i b }) s

  -- `for (i = 0; i < GLOBAL_BAG_N; i++)`, with `n` rounds left.
  unfoldable pub init_global_bibop : ℕ → ℕ → Cmd State (Unit {0})
  unfolding mmap allocate_single_bibop set_global_bibop
  init_global_bibop zero i = pure tt
  init_global_bibop (suc n) i = do
    base ← mmap os global_single_bibop_size
    b ← allocate_single_bibop base (min_bag_size * 2 ^ i) global_single_bibop_size
    set_global_bibop i b
    init_global_bibop n (i + 1)

  -- 120 bytes of metadata hold the GlobalBIBOP itself.
  unfoldable pub allocate_global_bibop : Cmd State (Unit {0})
  unfolding allocate_metadata init_global_bibop
  allocate_global_bibop = do
    p ← allocate_metadata 120
    if p == 0 then (λ s. Run.fault) else init_global_bibop global_bag_n 0

  unfoldable pub init_memory_manager : ℕ → Cmd State (Unit {0})
  unfolding allocate_memory_pool allocate_global_bibop
  init_memory_manager thread_id = do
    data' ← allocate_memory_pool os individual_data_pool_size
    (λ s.
        let mm = s.manager in
        set_manager (record mm { individual_data_pool = update mm.individual_data_pool 0 data' }) s)
    metadata ← allocate_memory_pool os metadata_pool_size
    (λ s. set_manager (record (s.manager) { metadata_pool = metadata }) s)
    allocate_global_bibop
    (λ s.
        set_manager
          (record (s.manager) {
            individual_bibop = empty_slots;
            individual_dat_pool_bump = 0;
            free_list = 0;
            thread_id = thread_id;
          })
          s)

  -- The manager itself takes one mapping.
  unfoldable pub allocate_memory_manager : ℕ → Cmd State (Unit {0})
  unfolding mmap init_memory_manager
  allocate_memory_manager thread_id = do
    mm ← mmap os 75104296
    set_manager blank_manager
    init_memory_manager thread_id
