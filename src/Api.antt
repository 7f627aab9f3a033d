-- ===== src/Api.antt =====
-- The entry points of backend/src/semalloc.cc and init_thread of backend/include/threads.h: the
-- managers of all threads over one heap. `self` is what get_thread_id() returns in the calling
-- thread, and `fuel` bounds the rounds of handleFreeList.
pub mod Bytes
pub mod Memalign
pub mod Wrapper
use semalloc.Common.{
  ℕ, ◌+◌, ◌-◌, ◌*◌, ◌/◌, ◌%◌, ◌^◌, Bool, Option, none, some, leb, ltb, ◌==◌, if◌then◌else◌, add64,
  sub64, update, bit_and,
}
use semalloc.Config.{header_size, get_real_size, get_csi, loop_bit}
use semalloc.Header.{is_huge, set_allocation, set_free}
use semalloc.Machine.{Os, Cmd, ok, exits, Exit, Run, pure, exit, and_then, ◌>>=◌, ◌>>◌}
use semalloc.Manager.{Heap, MemoryManager, State, zero_stats, load, store}
use semalloc.Manager.Init.{blank_manager, allocate_memory_manager}
use semalloc.Manager.Malloc.{malloc_memory, malloc_memory_at}
use semalloc.Manager.Release.{
  free_huge_memory, free_regular_memory, free_other_thread_memory, malloc_usable_size,
}
use Bytes.{copy_range, clear_range}

-- The thread-local variables.
pub record Local : Type 0 where
  pub tid : ℕ
  pub thread_id : ℕ

pub record World : Type 0 where
  pub heap : Heap
  pub managers : ℕ → Option MemoryManager
  pub thread_bump : ℕ
  pub locals : ℕ → Local

abbrev put_back : {A : Type 0} → World → ℕ → Run State A → Run World A
put_back w i (ok a s) =
    ok a (record w { heap = s.heap; managers = update w.managers i (some s.manager) })
put_back w i (exits e) = exits e
put_back w i Run.fault = Run.fault
put_back w i Run.out_of_fuel = Run.out_of_fuel

abbrev put_heap : {A : Type 0} → World → Run State A → Run World A
put_heap w (ok a s) = ok a (record w { heap = s.heap })
put_heap w (exits e) = exits e
put_heap w Run.fault = Run.fault
put_heap w Run.out_of_fuel = Run.out_of_fuel

-- `globalMemoryManager[i]->m`, a fault where there is no manager.
unfoldable pub on_manager : {A : Type 0} → ℕ → Cmd State A → Cmd World A
on_manager i m w = elim (w.managers i) [
  | none ↦ Run.fault
  | some mm ↦ put_back w i (m (record { manager = mm; heap = w.heap }))
]

-- A command that uses memory alone.
unfoldable pub on_heap : {A : Type 0} → Cmd State A → Cmd World A
on_heap m w = put_heap w (m (record { manager = blank_manager; heap = w.heap }))

-- The header of the aligned address inside the object at `addr`.
unfoldable pub write_aligned_header : (id addr new_addr : ℕ) → Cmd State (Unit {0})
unfolding load store
write_aligned_header id addr new_addr = do
  old ← load (sub64 addr header_size)
  new ← load (sub64 new_addr header_size)
  store (sub64 new_addr header_size) (
      set_allocation (record new {
        thread_id = id;
        word = old.word;
        memalign_offset = sub64 new_addr addr % 2 ^ 32;
        control_byte = old.control_byte;
      }))
  old' ← load (sub64 addr header_size)
  store (sub64 addr header_size) (set_free old')

abbrev pub memalign_size : ℕ → ℕ → ℕ
memalign_size alignment real_size =
    (add64 real_size header_size / alignment * alignment + 2 * alignment) % 2 ^ 64

module _ (os : Os) (fuel self : ℕ) where
  abbrev here : World → ℕ
  here w = (w.locals self).thread_id

  -- The array has 128 places, which the code does not check: a write past them is a fault here.
  -- The first thread also clears the counters.
  unfoldable pub init_thread : Cmd World (Unit {0})
  unfolding allocate_memory_manager
  init_thread w =
      let id = w.thread_bump in
      let made =
        allocate_memory_manager os (id % 2 ^ 16)
          (record { manager = blank_manager; heap = w.heap }) in
      if leb 128 id
      then Run.fault
      else and_then (put_back (record w { thread_bump = add64 id 1 }) id made) (λ _ w'.
        ok tt (record w' {
          locals = update w'.locals self (record { tid = self; thread_id = id });
          heap = if id == 0 then record (w'.heap) { stats = zero_stats } else w'.heap;
        }))

  -- `if (tid != get_thread_id()) init_thread();`
  unfoldable pub ensure_thread : Cmd World (Unit {0})
  unfolding init_thread
  ensure_thread w = if (w.locals self).tid == self then ok tt w else init_thread w

  unfoldable pub css_malloc : ℕ → Cmd World ℕ
  unfolding ensure_thread on_manager malloc_memory
  css_malloc size = do ensure_thread; (λ w. on_manager (here w) (malloc_memory os fuel size) w)

  -- The three ways to free a pointer, chosen by its header.
  unfoldable pub free_by_header : ℕ → Cmd World (Unit {0})
  unfolding on_manager on_heap load free_huge_memory free_regular_memory free_other_thread_memory
  free_by_header p w =
      (do
        h ← on_heap (load (sub64 p header_size))
        if is_huge h
            then on_heap (free_huge_memory os p)
            else (if h.thread_id == here w
                then on_manager (here w) (free_regular_memory os fuel p)
                else on_manager h.thread_id (free_other_thread_memory p)))
        w

  unfoldable pub css_free : ℕ → Cmd World (Unit {0})
  unfolding ensure_thread free_by_header
  css_free p = do ensure_thread; if p == 0 then pure tt else free_by_header p

  unfoldable pub memcpy : (target source n : ℕ) → Cmd World (Unit {0})
  memcpy target source n w =
      if target == 0
      then Run.fault
      else ok tt (record w {
        heap = record (w.heap) { memory = copy_range w.heap.memory target source n };
      })

  unfoldable pub memset_zero : (target n : ℕ) → Cmd World (Unit {0})
  memset_zero target n w =
      if n == 0
      then ok tt w
      else (if target == 0
          then Run.fault
          else ok tt
              (record w { heap = record (w.heap) { memory = clear_range w.heap.memory target n } }))

  -- The part of realloc for an object that is too small.
  unfoldable pub move_object : (p size old_size : ℕ) → Cmd World ℕ
  unfolding on_manager malloc_memory memcpy free_by_header
  move_object p size old_size w =
      (do
        new_object ← on_manager (here w) (malloc_memory os fuel size)
        memcpy new_object p old_size
        free_by_header p
        pure new_object)
        w

  unfoldable pub css_realloc : ℕ → ℕ → Cmd World ℕ
  unfolding ensure_thread on_manager on_heap malloc_memory css_free malloc_usable_size move_object
  css_realloc p size = do
    ensure_thread
    if p == 0
        then (λ w. on_manager (here w) (malloc_memory os fuel size) w)
        else (if size == 0 then (css_free p >> pure 0) else (do
          old_size ← on_heap (malloc_usable_size p)
          if leb (get_real_size size) old_size then pure p else move_object p size old_size))

  -- `globalMemoryManager[thread_id]->mallocMemory(realSize, CSI, inLoop)`, with no check that the
  -- thread has a manager.
  unfoldable pub malloc_at : ℕ → ℕ → Cmd World ℕ
  unfolding on_manager malloc_memory_at
  malloc_at real_size size w =
      on_manager (here w) (malloc_memory_at os fuel real_size (get_csi size) (loop_bit size == 1)) w

  unfoldable pub css_calloc : ℕ → ℕ → Cmd World ℕ
  unfolding malloc_at memset_zero
  css_calloc nmemb size = do
    let total = nmemb * get_real_size size % 2 ^ 64
    p ← malloc_at total size
    memset_zero p total
    pure p

  unfoldable pub css_memalign : ℕ → ℕ → Cmd World ℕ
  unfolding malloc_at on_heap write_aligned_header
  css_memalign alignment size =
      if bit_and alignment (sub64 alignment 1) == 0
      then (if alignment == 0 then (λ w. Run.fault) else (do
        addr ← malloc_at (memalign_size alignment (get_real_size size)) size
        if addr % alignment == 0 then pure addr else (do
          let new_addr = (addr / alignment * alignment + alignment) % 2 ^ 64
          (λ w. on_heap (write_aligned_header (here w % 2 ^ 16) addr new_addr) w)
          pure new_addr)))
      else exit Exit.invalid_alignment

  -- The pointer is stored through the first argument, and the result is 0.
  unfoldable pub css_posix_memalign : ℕ → ℕ → Cmd World (ℕ × ℕ)
  unfolding css_memalign
  css_posix_memalign a b = do p ← css_memalign a b; pure (0, p)

  unfoldable pub css_aligned_alloc : ℕ → ℕ → Cmd World ℕ
  unfolding css_memalign
  css_aligned_alloc a b = css_memalign a b

  unfoldable pub css_malloc_usable_size : ℕ → Cmd World ℕ
  unfolding on_heap malloc_usable_size
  css_malloc_usable_size p = on_heap (malloc_usable_size p)
