-- ===== src/Manager/Individual.antt =====
-- getIndividualBIBOPbyCSI and AllocateIndividualBIBOP of backend/src/MemoryManager.cc: the BIBOP of
-- an allocation site and a size class, found in an open-addressing table or made anew.
pub mod Lookup
pub mod Fresh
pub mod Isolation
pub mod Sites
use semalloc.Common.{
  ℕ, ◌+◌, ◌*◌, ◌%◌, ◌^◌, Option, none, some, ◌==◌, if◌then◌else◌, add64, update, for_return,
}
use semalloc.Config.{hash, individual_bibop_max_n, individual_bibop_size, min_bag_size, all_ones}
use semalloc.SizeClass.{compute_size_index}
use semalloc.Pool.{allocate_memory}
use semalloc.Bibop.{init_bibop}
use semalloc.Machine.{Os, Cmd, ok, Exit, Run, pure, exit, ◌>>=◌, ◌>>◌}
use semalloc.Manager.{IndividualSlot, State, Stats, set_manager, store_bibop, count}
use semalloc.Manager.DataPool.{acquire_individual_data_pool}

-- `metadataPool->allocateMemory(size)`
unfoldable pub allocate_metadata : ℕ → Cmd State ℕ
allocate_metadata size s =
    let (p, pool) = allocate_memory s.manager.metadata_pool size in
    ok p (record s { manager = record (s.manager) { metadata_pool = pool } })

-- `individualBIBOP[index].ptr[size_class] = b`
unfoldable pub set_slot_ptr : ℕ → ℕ → ℕ → Cmd State (Unit {0})
set_slot_ptr index size_class b s =
    let mm = s.manager in
    let slot = mm.individual_bibop index in
    set_manager
      (record mm {
        individual_bibop =
            update mm.individual_bibop index (record slot { ptr = update slot.ptr size_class b });
      })
      s

-- `individualBIBOP[index].CSI = csi`
unfoldable pub set_slot_csi : ℕ → ℕ → Cmd State (Unit {0})
set_slot_csi index csi s =
    let mm = s.manager in
    set_manager
      (record mm {
        individual_bibop =
            update mm.individual_bibop index (record (mm.individual_bibop index) { csi = csi });
      })
      s

abbrev pub bump_individual_pool : Stats → Stats
bump_individual_pool st = record st { n_individual_pool = add64 st.n_individual_pool 1 }

-- What the round does that returns; a loop that ends without one finds the table full.
abbrev pub run_round : Option (Cmd State ℕ) → Cmd State ℕ
run_round none = exit Exit.bibop_max
run_round (some act) = act

module _ (os : Os) where
  -- A null pointer from the metadata pool is written through.
  unfoldable pub allocate_individual_bibop : ℕ → Cmd State ℕ
  unfolding allocate_metadata acquire_individual_data_pool store_bibop
  allocate_individual_bibop object_size = do
    p ← allocate_metadata 40
    chunk ← acquire_individual_data_pool os
    if p == 0
        then (λ s. Run.fault)
        else store_bibop p (init_bibop chunk object_size individual_bibop_size) >> pure p

  unfoldable pub new_slot_bibop : ℕ → ℕ → Cmd State ℕ
  unfolding allocate_individual_bibop set_slot_ptr
  new_slot_bibop index size_class = do
    b ← allocate_individual_bibop (min_bag_size * 2 ^ size_class)
    set_slot_ptr index size_class b
    pure b

  -- The slot of the site: its pointer for the class, made if there is none.
  unfoldable pub use_slot : ℕ → ℕ → Cmd State ℕ
  unfolding new_slot_bibop count
  use_slot index size_class s =
      let b = (s.manager.individual_bibop index).ptr size_class in
      (if b == all_ones
          then (do b' ← new_slot_bibop index size_class; count bump_individual_pool; pure b')
          else pure b)
        s

  -- The first empty slot: it becomes the site's.
  unfoldable pub claim_slot : ℕ → ℕ → ℕ → Cmd State ℕ
  unfolding new_slot_bibop set_slot_csi count
  claim_slot index size_class csi = do
    b ← new_slot_bibop index size_class
    set_slot_csi index csi
    count bump_individual_pool
    pure b

  -- One round of the loop: what to do when the round returns.
  unfoldable pub individual_round : (ℕ → IndividualSlot) → ℕ → ℕ → ℕ → Option (Cmd State ℕ)
  individual_round t csi size_class offset =
      let index = (hash csi + offset) % individual_bibop_max_n in
      let slot = t index in
      if slot.csi == csi
      then some (use_slot index size_class)
      else (if slot.csi == all_ones then some (claim_slot index size_class csi) else none)

  unfoldable pub get_individual_bibop_by_csi : ℕ → ℕ → Cmd State ℕ
  unfolding individual_round
  get_individual_bibop_by_csi csi object_size s =
      run_round
        (for_return individual_bibop_max_n 0
          (individual_round s.manager.individual_bibop csi (compute_size_index object_size)))
        s
