-- ===== src/Manager/Release.antt =====
-- freeRegularMemory, freeOtherThreadMemory, handleFreeList and freeHugeMemory of
-- backend/src/MemoryManager.cc and its header, with freeGlobalObject of GlobalBIBOP.cc and
-- freeIndividualObject of IndividualBIBOP.cc.
pub mod DoubleFree
pub mod Listed
use semalloc.Common.{ℕ, zero, suc, ◌*◌, ◌/◌, Bool, leb, ◌==◌, if◌then◌else◌, add64, sub64}
use semalloc.Config.{page_size, header_size, memory_release_threshold}
use semalloc.Header.{is_regular, is_allocation, set_free, is_huge}
use semalloc.Bibop.{free_object, get_object_size}
use semalloc.Machine.{Os, Cmd, ok, Exit, Run, pure, exit, ◌>>=◌, ◌>>◌}
use semalloc.Manager.{State, load, store, load_bibop, store_bibop}

unfoldable pub set_free_list : ℕ → Cmd State (Unit {0})
set_free_list p s = ok tt (record s { manager = record (s.manager) { free_list = p } })

-- `freeOtherThreadMemory`: pushes the object on this manager's list, through its first word. The
-- compare-and-swap succeeds at once, since nothing else runs in between.
unfoldable pub free_other_thread_memory : ℕ → Cmd State (Unit {0})
unfolding load store set_free_list
free_other_thread_memory p s =
    (do c ← load p; store p (record c { word = s.manager.free_list }); set_free_list p) s

-- `getHugeSize`
unfoldable pub get_huge_size : ℕ → Cmd State ℕ
unfolding load
get_huge_size p = do h ← load (sub64 p header_size); pure h.word

-- `getRegularSize`: the two branches of the code are the same function of the header's BIBOP.
unfoldable pub get_regular_size : ℕ → Cmd State ℕ
unfolding load load_bibop
get_regular_size p = do
  h ← load (sub64 p header_size)
  b ← load_bibop h.word
  pure (get_object_size b)

-- `css_malloc_usable_size` of backend/src/semalloc.cc.
unfoldable pub malloc_usable_size : ℕ → Cmd State ℕ
unfolding load get_huge_size get_regular_size
malloc_usable_size p = do
  h ← load (sub64 p header_size)
  if is_huge h then get_huge_size p else get_regular_size p

-- `header->setFree()`
unfoldable pub mark_free : ℕ → Cmd State (Unit {0})
unfolding load store
mark_free p = do h ← load p; store p (set_free h)

module _ (os : Os) where
  unfoldable pub madvise : ℕ → ℕ → Cmd State (Unit {0})
  madvise a n s =
      ok tt (record s { heap = record (s.heap) { memory = os.madvise s.heap.memory a n } })

  unfoldable pub munmap : ℕ → ℕ → Cmd State (Unit {0})
  munmap a n s =
      ok tt (record s { heap = record (s.heap) { mappings = os.munmap s.heap.mappings (a, n) } })

  unfoldable pub free_huge_memory : ℕ → Cmd State (Unit {0})
  unfolding load munmap
  free_huge_memory p = do
    h ← load (sub64 p header_size)
    munmap (sub64 p page_size) (add64 h.word page_size)

  -- `ptr` is the address of a header. The object is not put on a free list.
  unfoldable pub free_global_object : ℕ → Cmd State (Unit {0})
  unfolding load load_bibop madvise
  free_global_object p = do
    h ← load p
    b ← load_bibop h.word
    let size = get_object_size b
    if leb memory_release_threshold size then madvise p (size / page_size * page_size) else pure tt

  -- `b->freeIndividualObject(ptr)`
  unfoldable pub free_individual_object : ℕ → ℕ → Cmd State (Unit {0})
  unfolding load_bibop store_bibop
  free_individual_object b p s =
      (do
        c ← load_bibop b
        let (m, c') = free_object os s.heap.memory c p
        (λ s'. ok tt (record s' { heap = record (s'.heap) { memory = m } }))
        store_bibop b c')
        s

  -- The branch on the control byte: a header that is not regular goes to the global BIBOP.
  unfoldable pub free_by_kind : Bool → ℕ → ℕ → Cmd State (Unit {0})
  unfolding free_global_object free_individual_object
  free_by_kind regular b p = if regular then free_individual_object b p else free_global_object p

  -- One element: the object that starts at its header, whatever its offset is.
  unfoldable pub release_listed : ℕ → Cmd State (Unit {0})
  unfolding load free_by_kind mark_free
  release_listed p = do
    let header = sub64 p header_size
    h ← load header
    if is_allocation h
        then (free_by_kind (is_regular h) h.word header >> mark_free header)
        else exit Exit.double_free

  -- Empties the list that other threads fill, first element first.
  unfoldable pub handle_free_list : ℕ → Cmd State (Unit {0})
  unfolding load set_free_list release_listed
  handle_free_list zero s = Run.out_of_fuel
  handle_free_list (suc fuel) s =
      let p = s.manager.free_list in
      let next = (do c ← load p; set_free_list c.word; release_listed p; handle_free_list fuel) in
      (if p == 0 then pure tt else next) s

  unfoldable pub free_regular_memory : ℕ → ℕ → Cmd State (Unit {0})
  unfolding handle_free_list load free_by_kind mark_free
  free_regular_memory fuel p = do
    handle_free_list fuel
    if p == 0 then pure tt else do
      let header = sub64 p header_size
      h ← load header
      if is_allocation h
          then (free_by_kind (is_regular h) h.word (sub64 (sub64 p header_size) h.memalign_offset)
              >> mark_free header)
          else exit Exit.double_free
