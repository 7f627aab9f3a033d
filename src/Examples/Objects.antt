-- ===== src/Examples/Objects.antt =====
-- The objects of a BIBOP, on concrete bags.
use semalloc.Common.{false, ◌<◌, ◌≡◌, ◌≢◌, true, update, arith, refl, not}
use semalloc.Header.{
  Cell, zero_cell, set_allocation, set_individual, set_regular, is_regular, is_allocation,
  is_global, is_huge,
}
use semalloc.Header.Control.{mark_individual-bits}
use semalloc.SizeClass.{compute_size_index}
use semalloc.SizeClass.Bounds.{Fits, compute_size_index-Fits, compute_size_index-lt}
use semalloc.Config.{global_bag_n}
use semalloc.Pool.{allocate_memory}
use semalloc.Pool.Chunks.{Allocated, allocate_memory-Allocated}
use semalloc.Bibop.{init_bibop, allocate_object}
use semalloc.Bibop.Bag.{Bag, new_bag, here, next, allocates, allocated}
use semalloc.Bibop.Safety.{IsNew, allocate_object-IsNew}
use semalloc.Examples.{still_os, still_os-IsOs, page_pool}

abbrev first_bag : Bag
first_bag = new_bag (λ _. zero_cell) 0x10000 32 4096

abbrev second_bag : Bag
second_bag = record first_bag {
  bibop = (allocated first_bag).1;
  live = update first_bag.live (allocated first_bag).0 true;
  handed = update first_bag.handed (allocated first_bag).0 true;
}

first_object : (allocated first_bag).0 ≡ 0x10000
unfolding allocate_object init_bibop
first_object = refl

second_object : (allocated second_bag).0 ≡ 0x10030
unfolding allocate_object init_bibop
second_object = refl

first_given : (allocated first_bag).0 ≢ 0
first_given e = omega (arith, first_object, e)

allocate_object-IsNew_example :
    IsNew second_bag (allocate_object second_bag.memory second_bag.bibop).0
allocate_object-IsNew_example =
    allocate_object-IsNew still_os (λ _. zero_cell) 0x10000 32 4096 second_bag still_os-IsOs
      (omega arith) (omega arith) (omega arith) (omega arith) (next here (allocates first_given))
      (λ e. omega (arith, second_object, e))

compute_size_index-Fits_example : Fits 100 (compute_size_index 100)
compute_size_index-Fits_example = compute_size_index-Fits 100 (omega arith)

compute_size_index-lt_example : compute_size_index 131071 < global_bag_n
compute_size_index-lt_example = compute_size_index-lt 131071 (omega arith)

allocate_memory-Allocated_example : Allocated page_pool 40 (allocate_memory page_pool 40)
allocate_memory-Allocated_example =
    allocate_memory-Allocated page_pool 40 (omega arith) (omega arith)

abbrev stale : Cell
stale = record zero_cell { control_byte = 3 }

mark_individual-bits_example :
    let h' = set_allocation (set_individual (set_regular stale)) in
    (is_regular h' ≡ true)
    × (is_global h' ≡ false)
    × (is_allocation h' ≡ not (is_allocation stale))
    × (is_huge h' ≡ is_huge stale)
mark_individual-bits_example = mark_individual-bits stale
