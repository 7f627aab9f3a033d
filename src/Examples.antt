-- ===== src/Examples.antt =====
-- A concrete operating system, states and runs, on which the theorems are applied.
pub mod Objects
pub mod Sites
pub mod Calls
pub mod Cycles
pub mod Entry
pub mod Graph
pub mod Main
pub mod Marking
pub mod Mlta
pub mod Request
pub mod Run
use semalloc.Common.{ℕ, ◌+◌, ◌*◌, ◌/◌, List, [], ◌∷◌, none, arith, refl}
use semalloc.Machine.{Mapping, Os, IsOs}
use semalloc.Header.{zero_cell}
use semalloc.Pool.{MemoryPool}
use semalloc.Manager.{zero_stats, Heap, State, MemoryManager}
use semalloc.Manager.Init.{blank_manager, empty_slots}
use semalloc.Api.{World}

-- A system on which every mapping succeeds, at one address, and advice changes nothing.
abbrev pub still_os : Os
still_os = record { mmap = λ _ _. 0x10000; munmap = λ ms _. ms; madvise = λ m _ _. m }

pub still_os-IsOs : IsOs still_os
still_os-IsOs = record {
  mmap_aligned = λ ms n. refl;
  mmap_pos = λ ms n. omega arith;
  mmap_low = λ ms n small. omega arith;
  madvise_outside = λ m a n p h. refl;
}

-- Past all mappings so far, each rounded up to pages.
abbrev pub next_address : List Mapping → ℕ
next_address [] = 0x10000
next_address ((a, n) ∷ ms) = (a + n + 4095) / 4096 * 4096

-- A system that hands out addresses upwards.
abbrev pub flat_os : Os
flat_os = record { mmap = λ ms _. next_address ms; munmap = λ ms _. ms; madvise = λ m _ _. m }

abbrev pub empty_heap : Heap
empty_heap = record {
  memory = λ _. zero_cell;
  bibops = λ _. none;
  mappings = [];
  stats = zero_stats;
}

abbrev pub empty_world : World
empty_world = record {
  heap = empty_heap;
  managers = λ _. none;
  thread_bump = 0;
  locals = λ _. record { tid = 0; thread_id = 0 };
}

abbrev pub page_pool : MemoryPool
page_pool = record { base_memory = 0x1000; bump_memory = 0x1000; boundary_memory = 0x2000 }

-- A manager with a page of metadata, no chunk yet, and an empty table.
abbrev pub small_manager : MemoryManager
small_manager = record blank_manager {
  individual_data_pool = λ _. page_pool;
  metadata_pool = page_pool;
  individual_bibop = empty_slots;
}

abbrev pub small_state : State
small_state = record { manager = small_manager; heap = empty_heap }
