-- ===== src/Manager/Malloc/Serve.antt =====
-- The allocation of an object from a BIBOP, with the extension of the BIBOP and the header.
use semalloc.Common.{
  ℕ, ◌+◌, ◌≤◌, ◌<◌, ◌^◌, ◌≡◌, ◌≢◌, refl, sym, ◌∙◌, ap, some, arith, subst, ◌==◌, ==_iff, update,
  update_self,
}
use semalloc.Config.{header_size, individual_bibop_size, individual_data_pool_n}
use semalloc.Bibop.{SingleBibop, allocate_object, extend_bibop}
use semalloc.Machine.{Memory, Os, IsOs, Cmd, pure, ◌>>=◌, ◌>>◌}
use semalloc.Machine.Ensures.{Returns, Returns-bind, Returns-mono, Returns-if, Returns-and}
use semalloc.Manager.{State, MemoryManager, load_bibop, store_bibop}
use semalloc.Manager.DataPool.{acquire_individual_data_pool}
use semalloc.Manager.DataPool.Supply.{IsSupply, IsChunk, Acquired, acquire_total}
use semalloc.Manager.DataPool.Frame.{Kept, acquire-Kept}
use semalloc.Manager.Malloc.{allocate_from, allocate_or_extend}

-- A BIBOP for objects of `size` bytes: its pointers stay below 2 ^ 63 when it is cut from.
pub record IsReady (size : ℕ) (c : SingleBibop) : Type 0 where
  pub sized : c.object_size ≡ size + header_size
  pub positive : 0 < size
  pub small : size < 2 ^ 18
  pub started : 0 < c.bump
  pub ordered : c.base ≤ c.bump
  pub low : c.bump < 2 ^ 62
  pub listed : c.free_list < 2 ^ 63

-- An object is not null; null comes from an empty list, which stays empty.
pub record Cut (size p : ℕ) (c' : SingleBibop) : Type 0 where
  pub sized : c'.object_size ≡ size + header_size
  pub given : p ≢ 0 → p < 2 ^ 63
  pub empty : p ≡ 0 → c'.free_list ≡ 0

pub allocate_object-Cut :
    (m : Memory) (size : ℕ) (c : SingleBibop)
    → IsReady size c
    → Cut size (allocate_object m c).0 (allocate_object m c).1
unfolding allocate_object
allocate_object-Cut m size c v = record {
  sized = ground arith;
  given = ground arith;
  empty = ground arith;
}

-- A BIBOP with an empty list and a new chunk gives the start of the chunk.
extended_cut :
    (m : Memory) (size chunk : ℕ) (c : SingleBibop)
    → c.object_size ≡ size + header_size
    → size < 2 ^ 18
    → c.free_list ≡ 0
    → chunk + individual_bibop_size < 2 ^ 47
    → (allocate_object m (extend_bibop c chunk individual_bibop_size)).0 ≡ chunk
unfolding allocate_object extend_bibop
extended_cut m size chunk c sized small empty low = ground arith

-- After one call of allocateObject.
record Drawn (s : State) (b size p : ℕ) (t : State) : Type 0 where
  bibop : (c : SingleBibop) × (t.heap.bibops b ≡ some c) × Cut size p c
  manager : t.manager ≡ s.manager

allocate_from-Drawn :
    (b size : ℕ) (c : SingleBibop) (s : State)
    → s.heap.bibops b ≡ some c
    → IsReady size c
    → Returns (Drawn s b size) (allocate_from b s)
unfolding allocate_from load_bibop store_bibop
allocate_from-Drawn b size c s e v =
    rw (e, Returns)
      (record {
        bibop = (
          (allocate_object s.heap.memory c).1,
          update_self s.heap.bibops b _,
          allocate_object-Cut s.heap.memory size c v,
        );
        manager = refl;
      })

-- An object of the BIBOP, whose objects keep their size.
pub record Given (s : State) (b size p : ℕ) (t : State) : Type 0 where
  pub positive : 0 < p
  pub low : p < 2 ^ 63
  pub bibop : (c : SingleBibop) × (t.heap.bibops b ≡ some c) × (c.object_size ≡ size + header_size)
  pub thread : t.manager.thread_id ≡ s.manager.thread_id
  pub globals : t.manager.global_bibop ≡ s.manager.global_bibop

kept_size : (m : Memory) (c : SingleBibop) → (allocate_object m c).1.object_size ≡ c.object_size
unfolding allocate_object
kept_size m c = ground arith

extended_size :
    (c : SingleBibop) (chunk : ℕ)
    → (extend_bibop c chunk individual_bibop_size).object_size ≡ c.object_size
unfolding extend_bibop
extended_size c chunk = refl

extended-Given :
    (b size chunk : ℕ) (c : SingleBibop) (s : State)
    → s.heap.bibops b ≡ some (extend_bibop c chunk individual_bibop_size)
    → c.object_size ≡ size + header_size
    → size < 2 ^ 18
    → c.free_list ≡ 0
    → IsChunk chunk
    → Returns (Given s b size) (allocate_from b s)
unfolding allocate_from load_bibop store_bibop
extended-Given b size chunk c s e sized small empty v =
    let d = extend_bibop c chunk individual_bibop_size in
    let got = extended_cut s.heap.memory size chunk c sized small empty v.low in
    rw (e, Returns)
      (record {
        positive = rw got v.positive;
        low = rw got (omega (arith, v.low));
        bibop = (
          (allocate_object s.heap.memory d).1,
          update_self s.heap.bibops b _,
          kept_size s.heap.memory d ∙ extended_size c chunk ∙ sized,
        );
        thread = refl;
        globals = refl;
      })

Given-after :
    (s t : State) (b size p : ℕ) (u : State)
    → t.manager.thread_id ≡ s.manager.thread_id
    → t.manager.global_bibop ≡ s.manager.global_bibop
    → Given t b size p u
    → Given s b size p u
Given-after s t b size p u e f g = record {
  positive = g.positive;
  low = g.low;
  bibop = g.bibop;
  thread = g.thread ∙ e;
  globals = g.globals ∙ f;
}

extend_and_cut : (b chunk : ℕ) → Cmd State ℕ
extend_and_cut b chunk = do
  c ← load_bibop b
  store_bibop b (extend_bibop c chunk individual_bibop_size)
  allocate_from b

extend_and_cut-Given :
    (b size chunk : ℕ) (c : SingleBibop) (s : State)
    → s.heap.bibops b ≡ some c
    → c.object_size ≡ size + header_size
    → size < 2 ^ 18
    → c.free_list ≡ 0
    → IsChunk chunk
    → Returns (Given s b size) (extend_and_cut b chunk s)
unfolding extend_and_cut load_bibop store_bibop
extend_and_cut-Given b size chunk c s e sized small empty v =
    let d = extend_bibop c chunk individual_bibop_size in
    let t : State = record s {
      heap = record (s.heap) { bibops = update s.heap.bibops b (some d) };
    } in
    rw (e, Returns)
      (Returns-mono (Given t b size) (Given s b size) (allocate_from b t)
        (extended-Given b size chunk c t (update_self s.heap.bibops b (some d)) sized small empty v)
        λ p u. Given-after s t b size p u refl refl)

-- While places for pools are left, a BIBOP gives an object, with a new chunk where it needs one.
pub allocate_or_extend-Given :
    (os : Os) (b size : ℕ) (c : SingleBibop) (s : State)
    → IsOs os
    → IsSupply s.manager
    → s.manager.individual_dat_pool_bump + 1 < individual_data_pool_n
    → s.heap.bibops b ≡ some c
    → IsReady size c
    → Returns (Given s b size) (allocate_or_extend os b s)
unfolding allocate_or_extend extend_and_cut
allocate_or_extend-Given os b size c s o supply places e v =
    Returns-bind (Drawn s b size) (Given s b size) (allocate_from b s) _
      (allocate_from-Drawn b size c s e v)
      λ p t r.
        let (d, at, cut) = r.bibop in
        Returns-if (Given s b size) (p == 0) _ (pure p) t
          (λ null'.
            Returns-bind (λ chunk u. Acquired t chunk u × Kept t u) (Given s b size)
              (acquire_individual_data_pool os t) _
              (Returns-and _ (λ _. Kept t) (acquire_individual_data_pool os t)
                (acquire_total os t o (subst IsSupply (sym r.manager) supply) (rw r.manager places))
                (acquire-Kept os t))
              λ chunk u k.
                Returns-mono (Given u b size) (Given s b size) (extend_and_cut b chunk u)
                  (extend_and_cut-Given b size chunk d u (ap (λ f. f b) k.1.bibops ∙ at) cut.sized
                    v.small (cut.empty ((==_iff p 0).0 null')) k.0.chunk)
                  λ q w.
                    Given-after s u b size q w (k.1.thread ∙ ap MemoryManager.thread_id r.manager)
                      (k.1.globals ∙ ap MemoryManager.global_bibop r.manager))
          (λ some'. record {
            positive = ground arith;
            low = cut.given (λ zero'. ground arith);
            bibop = (d, at, cut.sized);
            thread = ap MemoryManager.thread_id r.manager;
            globals = ap MemoryManager.global_bibop r.manager;
          })
