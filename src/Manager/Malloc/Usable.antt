-- ===== src/Manager/Malloc/Usable.antt =====
-- A request outside loops: the object that mallocMemory returns, and the header before it.
use semalloc.Common.{
  ℕ, suc, ◌+◌, ◌-◌, ◌*◌, ◌≤◌, ◌<◌, ◌^◌, ◌≡◌, refl, ◌∙◌, ap, Bool, true, false, some, arith, leb,
  ◌==◌, ==_iff, update_self, sub64, add64,
}
use semalloc.Config.{
  header_size, individual_data_pool_n, bag_threshold, min_bag_size, get_real_size, loop_bit,
  huge_bit,
}
use semalloc.SizeClass.{compute_size_index}
use semalloc.SizeClass.Bounds.{compute_size_index-Fits}
use semalloc.Header.{Cell, is_regular, set_regular, set_global, set_allocation}
use semalloc.Header.Control.{mark_global-bits}
use semalloc.Bibop.{SingleBibop, get_object_size}
use semalloc.Machine.{Os, IsOs, ok}
use semalloc.Machine.Ensures.{Returns, Returns-bind, Returns-mono}
use semalloc.Manager.{State, load, store, load_bibop, count, Stats}
use semalloc.Manager.DataPool.Supply.{IsSupply}
use semalloc.Manager.Release.{get_regular_size, handle_free_list}
use semalloc.Manager.Malloc.{
  allocate_or_extend, write_header, allocate_global, allocate_regular, malloc_memory, mark_global,
  count_global, count_malloc,
}
use semalloc.Manager.Malloc.Serve.{IsReady, Given, allocate_or_extend-Given}

-- The header of the object at `r`: its thread, its BIBOP and no offset; and the size of the object
-- that is read off it.
pub record Served (s : State) (b size r : ℕ) (t : State) : Type 0 where
  pub placed : header_size < r
  pub low : r < 2 ^ 64
  pub bibop : (t.heap.memory (r - header_size)).word ≡ b
  pub thread : (t.heap.memory (r - header_size)).thread_id ≡ s.manager.thread_id
  pub offset : (t.heap.memory (r - header_size)).memalign_offset ≡ 0
  pub regular : is_regular (t.heap.memory (r - header_size)) ≡ true
  pub usable : get_regular_size r t ≡ ok size t

-- The cell that write_header leaves.
record Written (s : State) (p b : ℕ) (t : State) : Type 0 where
  manager : t.manager ≡ s.manager
  bibops : t.heap.bibops ≡ s.heap.bibops
  word : (t.heap.memory p).word ≡ b
  thread : (t.heap.memory p).thread_id ≡ s.manager.thread_id
  offset : (t.heap.memory p).memalign_offset ≡ 0
  regular : is_regular (t.heap.memory p) ≡ true

write_header-Written :
    (p b : ℕ) (s : State) → 0 < p → Returns (λ _. Written s p b) (write_header p b mark_global s)
unfolding write_header load store set_regular set_global set_allocation is_regular
write_header-Written p b s pos =
    let e : (p == 0) ≡ false = ground arith in
    let h = record (s.heap.memory p) { thread_id = s.manager.thread_id; word = b } in
    rw (e, e, Returns)
      (record {
        manager = refl;
        bibops = refl;
        word = ap Cell.word (update_self s.heap.memory p _);
        thread = ap Cell.thread_id (update_self s.heap.memory p _);
        offset = ap Cell.memalign_offset (update_self s.heap.memory p _);
        regular = ap is_regular (update_self s.heap.memory p _) ∙ (mark_global-bits h).0;
      })

-- The size that the header leads to.
get_regular_size_at :
    (r b size : ℕ) (c : SingleBibop) (s : State)
    → header_size < r
    → r < 2 ^ 64
    → size < 2 ^ 18
    → (s.heap.memory (r - header_size)).word ≡ b
    → s.heap.bibops b ≡ some c
    → c.object_size ≡ size + header_size
    → get_regular_size r s ≡ ok size s
unfolding get_regular_size load load_bibop get_object_size
get_regular_size_at r b size c s lo hi small word at sized =
    let e : sub64 r header_size ≡ r - header_size = omega arith in
    let full : (r - header_size == 0) ≡ false = ground arith in
    rw (e, full, word, load_bibop, at, sized) (ap (λ n. ok n s) (omega arith))

Written-Served :
    (s t u : State) (b size p : ℕ) (f : Stats → Stats)
    → Given s b size p t
    → size < 2 ^ 18
    → Written t p b u
    → Served s b size
        (add64 p header_size)
        (record u { heap = record (u.heap) { stats = f u.heap.stats } })
Written-Served s t u b size p f g small w = rw at record {
  placed = omega (arith, g.positive);
  low = omega (arith, g.low);
  bibop = rw back w.word;
  thread = rw back (w.thread ∙ g.thread);
  offset = rw back w.offset;
  regular = rw back w.regular;
  usable =
      get_regular_size_at (p + header_size) b size g.bibop.0 _ (omega (arith, g.positive))
        (omega (arith, g.low)) small (rw back w.word) (ap (λ f. f b) w.bibops ∙ g.bibop.1)
        g.bibop.2;
}
  where
    at : add64 p header_size ≡ p + header_size
    at = ground (arith, g.low)

    back : p + header_size - header_size ≡ p
    back = omega arith

allocate_global-Served :
    (os : Os) (real_size : ℕ) (in_loop : Bool) (c : SingleBibop) (s : State)
    → let i = compute_size_index real_size in
      let b = s.manager.global_bibop i in
      IsOs os
      → IsSupply s.manager
      → s.manager.individual_dat_pool_bump + 1 < individual_data_pool_n
      → s.heap.bibops b ≡ some c
      → IsReady (min_bag_size * 2 ^ i) c
      → Returns (Served s b (min_bag_size * 2 ^ i)) (allocate_global os real_size in_loop s)
unfolding allocate_global count
allocate_global-Served os real_size in_loop c s o supply places e v =
    let i = compute_size_index real_size in
    let b = s.manager.global_bibop i in
    let size = min_bag_size * 2 ^ i in
    Returns-bind (Given s b size) (Served s b size) (allocate_or_extend os b s) _
      (allocate_or_extend-Given os b size c s o supply places e v)
      λ p t g.
        Returns-bind (λ _. Written t p b) (Served s b size) (write_header p b mark_global t) _
          (write_header-Written p b t g.positive)
          λ _ u w. Written-Served s t u b size p (count_global real_size in_loop) g v.small w

Served-bind :
    (s t : State) (b size r : ℕ) (u : State)
    → t.manager ≡ s.manager
    → Served t b size r u
    → Served s b size r u
Served-bind s t b size r u e v = record {
  placed = v.placed;
  low = v.low;
  bibop = v.bibop;
  thread = v.thread ∙ ap (λ m. m.thread_id) e;
  offset = v.offset;
  regular = v.regular;
  usable = v.usable;
}

-- A request that is not huge, not in a loop, not empty and below the threshold, with nothing on the
-- list of other threads, places for pools left and the BIBOP of its class ready_state: mallocMemory returns
-- an object whose header names the thread and that BIBOP, and the size of the object is that of its
-- class and at least the one asked for.
pub malloc_memory-Served :
    (os : Os) (fuel size : ℕ) (c : SingleBibop) (s : State)
    → let i = compute_size_index (get_real_size size) in
      let b = s.manager.global_bibop i in
      IsOs os
      → IsSupply s.manager
      → s.manager.individual_dat_pool_bump + 1 < individual_data_pool_n
      → s.manager.free_list ≡ 0
      → s.heap.bibops b ≡ some c
      → IsReady (min_bag_size * 2 ^ i) c
      → huge_bit size ≡ 0
      → loop_bit size ≡ 0
      → 0 < get_real_size size
      → get_real_size size < bag_threshold
      → Returns
          (λ r t.
            Served s b (min_bag_size * 2 ^ i) r t × (get_real_size size ≤ min_bag_size * 2 ^ i))
          (malloc_memory os (suc fuel) size s)
unfolding malloc_memory handle_free_list allocate_regular count
malloc_memory-Served os fuel size c s o supply places nothing e v plain once pos below =
    let i = compute_size_index (get_real_size size) in
    let b = s.manager.global_bibop i in
    let t : State = record s { heap = record (s.heap) { stats = count_malloc s.heap.stats } } in
    let empty : (s.manager.free_list == 0) ≡ true = (==_iff _ 0).1 nothing in
    let plain' : (huge_bit size == 1) ≡ false = ground arith in
    let pos' : (get_real_size size == 0) ≡ false = ground arith in
    let below' : leb bag_threshold (get_real_size size) ≡ false = ground arith in
    let once' : (loop_bit size == 1) ≡ false = ground arith in
    rw (empty, plain', pos', below', once')
      (Returns-mono (Served t b (min_bag_size * 2 ^ i)) _
        (allocate_global os (get_real_size size) false t)
        (allocate_global-Served os (get_real_size size) false c t o supply places e v)
        λ r u x. (
          Served-bind s t b (min_bag_size * 2 ^ i) r u refl x,
          (compute_size_index-Fits (get_real_size size) (omega (arith, below))).holds,
        ))
