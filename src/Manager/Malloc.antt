-- ===== src/Manager/Malloc.antt =====
-- mallocMemory (both overloads) and allocateHuge of backend/src/MemoryManager.cc.
pub mod Serve
pub mod Usable
use semalloc.Common.{ℕ, ◌+◌, ◌-◌, ◌*◌, ◌/◌, Bool, leb, ◌==◌, if◌then◌else◌, add64, sub64}
use semalloc.Config.{
  page_size, header_size, bag_threshold, individual_bibop_size, get_real_size, get_csi, loop_bit,
  huge_bit, huge_size,
}
use semalloc.SizeClass.{compute_size_index}
use semalloc.Header.{Cell, set_huge, set_regular, set_individual, set_global, set_allocation}
use semalloc.Bibop.{allocate_object, extend_bibop}
use semalloc.Machine.{Os, Cmd, Exit, pure, exit, ◌>>=◌, ◌>>◌}
use semalloc.Manager.{State, Stats, load, store, load_bibop, store_bibop, count, mmap}
use semalloc.Manager.DataPool.{acquire_individual_data_pool}
use semalloc.Manager.Lazy.{try_put_to_lazy_pool}
use semalloc.Manager.Individual.{get_individual_bibop_by_csi}
use semalloc.Manager.Release.{handle_free_list}

-- `b->allocateObject()` for a pointer `b`.
unfoldable pub allocate_from : ℕ → Cmd State ℕ
unfolding load_bibop store_bibop
allocate_from b s =
    (do c ← load_bibop b; let (p, c') = allocate_object s.heap.memory c; store_bibop b c'; pure p) s

-- The size of a huge allocation, rounded up to whole pages.
abbrev pub round_to_page : ℕ → ℕ
round_to_page size = add64 size (page_size - 1) / page_size * page_size

abbrev pub mark_individual : Cell → Cell
mark_individual h = set_allocation (set_individual (set_regular h))

abbrev pub mark_global : Cell → Cell
mark_global h = set_allocation (set_global (set_regular h))

-- The header of a regular object: thread, BIBOP, control byte and offset.
unfoldable pub write_header : ℕ → ℕ → (Cell → Cell) → Cmd State (Unit {0})
unfolding load store
write_header p b mark s =
    (do
      h ← load p
      store p (record (mark (record h { thread_id = s.manager.thread_id; word = b })) {
        memalign_offset = 0;
      }))
      s

abbrev pub count_malloc : Stats → Stats
count_malloc st = record st { n_malloc = add64 st.n_malloc 1 }

abbrev pub count_individual : ℕ → Stats → Stats
count_individual real_size st = record st {
  n_individual_allocation = add64 st.n_individual_allocation 1;
  s_rec_memory = add64 st.s_rec_memory (real_size + 16);
}

abbrev pub count_global : ℕ → Bool → Stats → Stats
count_global real_size in_loop st =
    if in_loop
    then record st { s_lazy_memory = add64 st.s_lazy_memory (real_size + 16) }
    else record st { s_global_memory = add64 st.s_global_memory (real_size + 16) }

module _ (os : Os) where
  unfoldable pub allocate_huge : ℕ → Cmd State ℕ
  unfolding mmap load store
  allocate_huge size = do
    let new_size = round_to_page size
    addr ← mmap os (add64 new_size page_size)
    let data' = add64 addr page_size
    let header = sub64 data' header_size
    if addr == 0
        then exit Exit.map_failed
        else do h ← load header; store header (set_huge (record h { word = new_size })); pure data'

  -- An object of the BIBOP, which is given a new chunk when it has none left.
  unfoldable pub allocate_or_extend : ℕ → Cmd State ℕ
  unfolding allocate_from acquire_individual_data_pool load_bibop store_bibop
  allocate_or_extend b = do
    p ← allocate_from b
    if p == 0
        then (do
          chunk ← acquire_individual_data_pool os
          c ← load_bibop b
          store_bibop b (extend_bibop c chunk individual_bibop_size)
          allocate_from b)
        else pure p

  -- A site in a loop that is past its lazy allocations: from the BIBOP of the site and the class.
  unfoldable pub allocate_individual : ℕ → ℕ → Cmd State ℕ
  unfolding get_individual_bibop_by_csi allocate_or_extend write_header count
  allocate_individual csi real_size = do
    b ← get_individual_bibop_by_csi os csi real_size
    p ← allocate_or_extend b
    write_header p b mark_individual
    count (count_individual real_size)
    pure (add64 p header_size)

  -- Any other site: from the global BIBOP of the class.
  unfoldable pub allocate_global : ℕ → Bool → Cmd State ℕ
  unfolding allocate_or_extend write_header count
  allocate_global real_size in_loop s =
      (do
        let b = s.manager.global_bibop (compute_size_index real_size)
        p ← allocate_or_extend b
        write_header p b mark_global
        count (count_global real_size in_loop)
        pure (add64 p header_size))
        s

  -- What the two overloads have in common, from the test of the loop bit on.
  unfoldable pub allocate_regular : ℕ → ℕ → Bool → Cmd State ℕ
  unfolding allocate_individual allocate_global try_put_to_lazy_pool
  allocate_regular real_size csi in_loop =
      if in_loop
      then (do
        lazy ← try_put_to_lazy_pool csi
        if lazy then allocate_global real_size in_loop else allocate_individual csi real_size)
      else allocate_global real_size in_loop

  -- `mallocMemory(size)`: the request carries the site, the loop bit and the huge bit.
  unfoldable pub malloc_memory : ℕ → ℕ → Cmd State ℕ
  unfolding allocate_huge allocate_regular count handle_free_list
  malloc_memory fuel size =
      handle_free_list os fuel
      >> (if huge_bit size == 1
          then allocate_huge (huge_size size)
          else (if get_real_size size == 0
              then pure 0
              else (if leb bag_threshold (get_real_size size)
                  then allocate_huge (get_real_size size)
                  else (count count_malloc
                      >> allocate_regular (get_real_size size) (get_csi size)
                          (loop_bit size == 1)))))

  -- `mallocMemory(realSize, CSI, inLoop)`
  unfoldable pub malloc_memory_at : ℕ → ℕ → ℕ → Bool → Cmd State ℕ
  unfolding allocate_huge allocate_regular count handle_free_list
  malloc_memory_at fuel real_size csi in_loop =
      handle_free_list os fuel
      >> (if real_size == 0
          then pure 0
          else (if leb bag_threshold real_size
              then allocate_huge real_size
              else (count count_malloc >> allocate_regular real_size csi in_loop)))
