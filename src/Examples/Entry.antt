-- ===== src/Examples/Entry.antt =====
-- The entry points, on concrete heaps.
use semalloc.Common.{◌≡◌, some, update, arith, refl}
use semalloc.Header.{zero_cell, is_allocation, is_regular}
use semalloc.Bibop.{init_bibop}
use semalloc.Machine.{Run, ok, exits, Exit}
use semalloc.Machine.Ensures.{Ensures}
use semalloc.Manager.{State}
use semalloc.Manager.Release.{free_regular_memory}
use semalloc.Manager.Release.DoubleFree.{free_twice}
use semalloc.Api.{write_aligned_header}
use semalloc.SizeClass.{compute_size_index}
use semalloc.Config.{min_bag_size}
use semalloc.Bibop.{get_object_size}
use semalloc.Machine.Ensures.{Returns}
use semalloc.Manager.DataPool.Supply.{IsSupply}
use semalloc.Manager.Malloc.{malloc_memory}
use semalloc.Manager.Malloc.Serve.{IsReady}
use semalloc.Manager.Malloc.Usable.{Served, malloc_memory-Served}
use semalloc.Manager.Release.{handle_free_list}
use semalloc.Manager.Release.Listed.{IsObject, after, handle_free_list_total}
use semalloc.Examples.{still_os-IsOs}
use semalloc.Common.{◌*◌, ◌^◌, ◌≤◌, [], ◌∷◌}
use semalloc.Api.Memalign.{memalign_free}
use semalloc.Examples.{still_os, empty_heap, small_manager}

-- An allocated object of a BIBOP at 0x1000, its header at 0x10000.
abbrev held : State
held = record {
  manager = small_manager;
  heap = record empty_heap {
    memory =
        update empty_heap.memory 0x10000 (record zero_cell { word = 0x1000; control_byte = 4 });
    bibops = update empty_heap.bibops 0x1000 (some (init_bibop 0x10000 64 4096));
  };
}

abbrev outcome : {S A : Type 0} → Run S A → Run (Unit {0}) A
outcome (ok a s) = ok a tt
outcome (exits e) = exits e
outcome Run.fault = Run.fault
outcome Run.out_of_fuel = Run.out_of_fuel

frees_once : outcome (free_regular_memory still_os 1 0x10010 held) ≡ ok tt tt
unfolding free_regular_memory is_allocation is_regular init_bibop
frees_once = refl

free_twice_example :
    Ensures
      (λ _ s'. free_regular_memory still_os 1 0x10010 s' ≡ exits Exit.double_free)
      (free_regular_memory still_os 1 0x10010 held)
free_twice_example =
    free_twice still_os 1 0 0x10010 held (λ e. omega (arith, e)) (λ e. omega (arith, e))

memalign_free_example :
    Ensures
      (λ _ s'. free_regular_memory still_os 1 0x10040 s' ≡ exits Exit.double_free)
      (write_aligned_header 0 0x10010 0x10040 held)
unfolding is_allocation
memalign_free_example =
    memalign_free still_os 0 0 0x10010 0x10040 held refl refl (λ e. omega (arith, e))
      (λ e. omega (arith, e)) (λ e. omega (arith, e))

-- Two objects of the BIBOP that another thread has freed.
abbrev listed : State
listed = record {
  manager = record small_manager { free_list = 0x10010 };
  heap = record empty_heap {
    memory =
        update
          (update
            (update empty_heap.memory 0x10000
              (record zero_cell { word = 0x1000; control_byte = 4 }))
            0x10100 (record zero_cell { word = 0x1000; control_byte = 4 }))
          0x10010 (record zero_cell { word = 0x10110 });
    bibops = update empty_heap.bibops 0x1000 (some (init_bibop 0x10000 64 4096));
  };
}

listed-IsObject : IsObject listed.heap 0x10010 64 × IsObject listed.heap 0x10110 64
unfolding is_allocation is_regular init_bibop get_object_size
listed-IsObject = (
  record {
    placed = omega arith;
    low = omega arith;
    sized = omega arith;
    allocated = refl;
    regular = refl;
    bibop = (init_bibop 0x10000 64 4096, refl, refl);
  },
  record {
    placed = omega arith;
    low = omega arith;
    sized = omega arith;
    allocated = refl;
    regular = refl;
    bibop = (init_bibop 0x10000 64 4096, refl, refl);
  },
)

handle_free_list_total_example :
    Returns (λ _ s'. s'.manager.free_list ≡ 0) (handle_free_list still_os 3 listed)
handle_free_list_total_example =
    handle_free_list_total still_os ((0x10010, 64) ∷ (0x10110, 64) ∷ []) 3 listed still_os-IsOs
      (refl, listed-IsObject.0, (after (omega arith), tt), (refl, listed-IsObject.1, tt, refl))
      (omega arith)

-- A manager whose global BIBOPs are all the BIBOP at 0x1000.
abbrev ready_state : State
ready_state = record {
  manager = record small_manager { global_bibop = λ _. 0x1000 };
  heap = record empty_heap {
    bibops = update empty_heap.bibops 0x1000 (some (init_bibop 0x10000 128 4096));
  };
}

bibop-IsReady : IsReady 128 (init_bibop 0x10000 128 4096)
unfolding init_bibop
bibop-IsReady = record {
  sized = refl;
  positive = omega arith;
  small = omega arith;
  started = omega arith;
  ordered = omega arith;
  low = omega arith;
  listed = omega arith;
}

ready_state-IsSupply : IsSupply ready_state.manager
ready_state-IsSupply = record { pool = omega arith; aligned = refl; user_half = omega arith }

malloc_memory-Served_example :
    Returns
      (λ r t.
        Served ready_state 0x1000 (min_bag_size * 2 ^ compute_size_index 72) r t
        × (72 ≤ min_bag_size * 2 ^ compute_size_index 72))
      (malloc_memory still_os 1 72 ready_state)
unfolding compute_size_index
malloc_memory-Served_example =
    malloc_memory-Served still_os 0 72 (init_bibop 0x10000 128 4096) ready_state still_os-IsOs
      ready_state-IsSupply (omega arith) refl refl bibop-IsReady refl refl (omega arith)
      (omega arith)
