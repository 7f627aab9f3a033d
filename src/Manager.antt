-- ===== src/Manager.antt =====
-- The state of MemoryManager of backend/include/MemoryManager.hh, one for each thread, and of what
-- the managers share: memory, the BIBOPs at their addresses, the mappings and the counters.
pub mod DataPool
pub mod Individual
pub mod Init
pub mod Lazy
pub mod Malloc
pub mod Release
use semalloc.Common.{ℕ, ◌+◌, Option, none, some, List, ◌∷◌, ◌==◌, if◌then◌else◌, add64, update}
use semalloc.Config.{all_ones}
use semalloc.Header.{Cell}
use semalloc.Bibop.{SingleBibop}
use semalloc.Pool.{MemoryPool, init_memory_pool}
use semalloc.Machine.{Memory, Mapping, Os, Run, Cmd, ok, pure, trap, ◌>>=◌, ◌>>◌, zero_range}

-- The counters of the STAT build.
pub record Stats : Type 0 where
  pub n_malloc : ℕ
  pub n_individual_pool : ℕ
  pub n_individual_allocation : ℕ
  pub s_lazy_memory : ℕ
  pub s_global_memory : ℕ
  pub s_rec_memory : ℕ

abbrev pub zero_stats : Stats
zero_stats = record {
  n_malloc = 0;
  n_individual_pool = 0;
  n_individual_allocation = 0;
  s_lazy_memory = 0;
  s_global_memory = 0;
  s_rec_memory = 0;
}

pub record Heap : Type 0 where
  pub memory : Memory
  pub bibops : ℕ → Option SingleBibop
  pub mappings : List Mapping
  pub stats : Stats

-- `lazy_element_t`
pub record LazyElement : Type 0 where
  pub csi : ℕ
  pub occur_count : ℕ

-- `IndividualBIBOP_c_t`: a pointer for each size class, or all ones.
pub record IndividualSlot : Type 0 where
  pub ptr : ℕ → ℕ
  pub csi : ℕ

-- `global_bibop` is the array `objects` of the GlobalBIBOP.
pub record MemoryManager : Type 0 where
  pub individual_data_pool : ℕ → MemoryPool
  pub lazy_identifiers : ℕ → LazyElement
  pub metadata_pool : MemoryPool
  pub global_bibop : ℕ → ℕ
  pub individual_dat_pool_bump : ℕ
  pub individual_bibop : ℕ → IndividualSlot
  pub free_list : ℕ
  pub thread_id : ℕ

pub record State : Type 0 where
  pub manager : MemoryManager
  pub heap : Heap
  pub open heap use *

abbrev pub set_heap : Heap → Cmd State (Unit {0})
set_heap h s = ok tt (record s { heap = h })

abbrev pub set_manager : MemoryManager → Cmd State (Unit {0})
set_manager mm s = ok tt (record s { manager = mm })

-- `p->word` and the other fields of the 16 bytes at `p`.
unfoldable pub load : ℕ → Cmd State Cell
load p s = if p == 0 then Run.fault else ok (s.heap.memory p) s

unfoldable pub store : ℕ → Cell → Cmd State (Unit {0})
store p c s =
    if p == 0
    then Run.fault
    else ok tt (record s { heap = record (s.heap) { memory = update s.heap.memory p c } })

-- `*b` for a pointer to a BIBOP.
unfoldable pub load_bibop : ℕ → Cmd State SingleBibop
load_bibop b s = elim (s.heap.bibops b) [ none ↦ Run.fault | some c ↦ ok c s ]

unfoldable pub store_bibop : ℕ → SingleBibop → Cmd State (Unit {0})
store_bibop b c s =
    ok tt (record s { heap = record (s.heap) { bibops = update s.heap.bibops b (some c) } })

unfoldable pub count : (Stats → Stats) → Cmd State (Unit {0})
count f s = ok tt (record s { heap = record (s.heap) { stats = f s.heap.stats } })

module _ (os : Os) where
  -- `mmap(nullptr, n, ...)` of anonymous memory.
  unfoldable pub mmap : ℕ → Cmd State ℕ
  mmap n s =
      let a = os.mmap s.heap.mappings n in
      if a == all_ones
      then ok a s
      else ok a (record s {
        heap = record (s.heap) {
          memory = zero_range s.heap.memory a n;
          mappings = (a, n) ∷ s.heap.mappings;
        };
      })

  -- AllocateMemoryPool: 24 bytes for the pool itself, then its memory.
  unfoldable pub allocate_memory_pool : ℕ → Cmd State MemoryPool
  unfolding mmap
  allocate_memory_pool init_size = do
    mp ← mmap 24
    base ← mmap init_size
    pure (init_memory_pool base init_size)
