-- ===== src/Bibop.antt =====
-- SingleBIBOP of backend/include/SingleBIBOP.hh and backend/src/SingleBIBOP.cc, with
-- IndividualBIBOP: a bag of objects of one size, cut from a chunk in order and kept on a free list
-- that runs through the objects' headers.
pub mod Bag
pub mod Invariant
pub mod Safety
pub mod Steps
use semalloc.Common.{ℕ, ◌*◌, ◌/◌, leb, ◌==◌, if◌then◌else◌, add64, sub64, update}
use semalloc.Config.{header_size, memory_release_threshold, page_size}
use semalloc.Machine.{Memory, Os}

-- `free_list` is `freeList.nxt`.
pub record SingleBibop : Type 0 where
  pub bump : ℕ
  pub base : ℕ
  pub object_size : ℕ
  pub free_list : ℕ
  pub capacity : ℕ

-- InitSingleBIBOP with the capacity set as AllocateSingleBIBOP does; InitIndividualBIBOP.
unfoldable pub init_bibop : ℕ → ℕ → ℕ → SingleBibop
init_bibop base object_size capacity = record {
  bump = base;
  base = base;
  object_size = add64 object_size header_size;
  free_list = 0;
  capacity = capacity;
}

unfoldable pub get_object_size : SingleBibop → ℕ
get_object_size b = sub64 b.object_size header_size

-- Pops the free list, or cuts the next object from the chunk; 0 is `nullptr`. The bump pointer
-- moves on in any case.
unfoldable pub allocate_object : Memory → SingleBibop → ℕ × SingleBibop
allocate_object m b =
    if b.free_list == 0
    then (let bump = add64 b.bump b.object_size in
        (if leb b.capacity (sub64 bump b.base) then 0 else b.bump, record b { bump = bump }))
    else (b.free_list, record b { free_list = (m b.free_list).word })

-- Pushes the object on the free list. Of a large object the pages are given back.
unfoldable pub free_object : Os → Memory → SingleBibop → ℕ → Memory × SingleBibop
unfolding get_object_size
free_object os m b p =
    let linked = update m p (record (m p) { word = b.free_list }) in
    let size = get_object_size b in
    let released =
      if leb memory_release_threshold size
      then os.madvise linked (add64 p header_size) (size / page_size * page_size)
      else linked in
    (released, record b { free_list = p })

unfoldable pub extend_bibop : SingleBibop → ℕ → ℕ → SingleBibop
extend_bibop b base capacity = record b { bump = base; base = base; capacity = capacity }
