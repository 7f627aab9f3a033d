-- ===== src/Manager/Release/Listed.antt =====
-- handleFreeList on a list that other threads have filled.
use semalloc.Common.{
  ℕ, zero, suc, ◌+◌, ◌-◌, ◌*◌, ◌/◌, ◌≤◌, ◌<◌, ◌^◌, ◌≡◌, ◌≢◌, ◌⊎◌, refl, sym, ◌∙◌, ap, true, false,
  Option, some, List, [], ◌∷◌, arith, inl, inr, subst, leb, ◌==◌, ==_iff, update, update_ne, sub64,
  add64, length, eq-cases, Bool-cases,
}
use semalloc.Config.{header_size, page_size, memory_release_threshold}
use semalloc.Header.{Cell, is_allocation, is_regular}
use semalloc.Bibop.{SingleBibop, get_object_size, free_object}
use semalloc.Machine.{Memory, Os, IsOs}
use semalloc.Machine.Ensures.{Returns, Returns-bind}
use semalloc.Manager.{State, Heap, MemoryManager, load, store, load_bibop, store_bibop}
use semalloc.Manager.Release.{
  mark_free, free_by_kind, free_individual_object, handle_free_list, release_listed, set_free_list,
}

-- An allocated object of `n` bytes at `x`, after its header.
pub record IsObject (h : Heap) (x n : ℕ) : Type 0 where
  pub placed : header_size < x
  pub low : x + n < 2 ^ 63
  pub sized : 0 < n
  pub allocated : is_allocation (h.memory (x - header_size)) ≡ true
  pub regular : is_regular (h.memory (x - header_size)) ≡ true
  pub bibop :
      (c : SingleBibop) × (h.bibops (h.memory (x - header_size)).word ≡ some c)
      × (get_object_size c ≡ n)

-- Two objects with their headers do not meet.
pub data Separate (x n y k : ℕ) : Type 0 where
  before : y + k ≤ x - header_size → Separate x n y k
  after : x + n ≤ y - header_size → Separate x n y k

abbrev pub SeparateAll : ℕ → ℕ → List (ℕ × ℕ) → Type 0
SeparateAll x n [] = Unit {0}
SeparateAll x n ((y, k) ∷ ys) = Separate x n y k × SeparateAll x n ys

-- The list that starts at `p` goes through these objects.
abbrev pub Chain : Heap → ℕ → List (ℕ × ℕ) → Type 0
Chain h p [] = p ≡ 0
Chain h p ((x, n) ∷ xs) =
    (p ≡ x) × IsObject h x n × SeparateAll x n xs × Chain h (h.memory x).word xs

-- What freeing the object leaves as it was.
record Released (s : State) (x n : ℕ) (s' : State) : Type 0 where
  manager : s'.manager ≡ s.manager
  memory :
      (q : ℕ)
      → (q < x - header_size) ⊎ ((x - header_size < q) × (x + n ≤ q))
      → s'.heap.memory q ≡ s.heap.memory q
  bibops :
      (b : ℕ) (c : SingleBibop)
      → s.heap.bibops b ≡ some c
      → (c' : SingleBibop) × (s'.heap.bibops b ≡ some c') × (get_object_size c' ≡ get_object_size c)

free_object-outside :
    (os : Os) (m : Memory) (c : SingleBibop) (x q : ℕ)
    → IsOs os
    → header_size < x
    → x < 2 ^ 63
    → (q < x - header_size) ⊎ ((x - header_size < q) × (x + get_object_size c ≤ q))
    → (free_object os m c (x - header_size)).0 q ≡ m q
unfolding free_object
free_object-outside os m c x q o lo hi out =
    elim (Bool-cases (leb memory_release_threshold (get_object_size c))) [
      | inl big ↦
          rw big (
            o.madvise_outside linked _ _ q (range out)
            ∙ update_ne m (x - header_size) q _ elsewhere)
      | inr small ↦ rw small (update_ne m (x - header_size) q _ elsewhere)
    ]
  where
    elsewhere : x - header_size ≢ q
    elsewhere e = omega (arith, out, e)

    linked : Memory
    linked = update m (x - header_size) (record (m (x - header_size)) { word = c.free_list })

    range :
        (q < x - header_size) ⊎ ((x - header_size < q) × (x + get_object_size c ≤ q))
        → (q < add64 (x - header_size) header_size)
          ⊎ (add64 (x - header_size) header_size + get_object_size c / page_size * page_size ≤ q)
    range (inl l) = inl (omega arith)
    range (inr r) = inr (omega (arith, r))

freed_size :
    (os : Os) (m : Memory) (c : SingleBibop) (p : ℕ)
    → get_object_size (free_object os m c p).1 ≡ get_object_size c
unfolding free_object get_object_size
freed_size os m c p = refl

-- A BIBOP is replaced by one with objects of the same size.
same_sizes :
    (f : ℕ → Option SingleBibop) (b b' : ℕ) (c d c' : SingleBibop)
    → f b ≡ some c
    → get_object_size d ≡ get_object_size c
    → f b' ≡ some c'
    → (d' : SingleBibop) × (update f b (some d) b' ≡ some d')
      × (get_object_size d' ≡ get_object_size c')
same_sizes f b b' c d c' e size e' = elim (eq-cases b b') [
  | inl same ↦
      let one : some c ≡ some c' = sym e ∙ ap f same ∙ e' in
      (d, ground arith, size ∙ ap get_object_size (cc one))
  | inr ne ↦ (c', update_ne f b b' (some d) ne ∙ e', refl)
]

free_individual_object-Released :
    (os : Os) (b x n : ℕ) (c : SingleBibop) (s : State)
    → IsOs os
    → header_size < x
    → x < 2 ^ 63
    → s.heap.bibops b ≡ some c
    → get_object_size c ≡ n
    → Returns (λ _. Released s x n) (free_individual_object os b (x - header_size) s)
unfolding free_individual_object load_bibop store_bibop
free_individual_object-Released os b x n c s o lo hi e size =
    rw (e, Returns)
      (record {
        manager = refl;
        memory = λ q out. free_object-outside os s.heap.memory c x q o lo hi (rw size out);
        bibops = λ b' c' e'.
            same_sizes s.heap.bibops b b' c _ c' e (freed_size os s.heap.memory c (x - header_size))
              e';
      })

mark_free-Released :
    (x n : ℕ) (s t : State)
    → header_size < x
    → Released s x n t
    → Returns (λ _. Released s x n) (mark_free (x - header_size) t)
unfolding mark_free load store
mark_free-Released x n s t lo r =
    let e : (x - header_size == 0) ≡ false = ground arith in
    rw (e, e)
      (record {
        manager = r.manager;
        memory = λ q out.
            update_ne t.heap.memory (x - header_size) q _ (λ e'. omega (arith, out, e'))
            ∙ r.memory q out;
        bibops = r.bibops;
      })

release_listed-Released :
    (os : Os) (x n : ℕ) (s : State)
    → IsOs os
    → IsObject s.heap x n
    → Returns (λ _. Released s x n) (release_listed os x s)
unfolding release_listed load free_by_kind
release_listed-Released os x n s o v =
    let (c, at, size) = v.bibop in
    rw (header, empty, v.allocated, v.regular)
      (Returns-bind (λ _. Released s x n) (λ _. Released s x n)
        (free_individual_object os (s.heap.memory (x - header_size)).word (x - header_size) s) _
        (free_individual_object-Released os (s.heap.memory (x - header_size)).word x n c s o
          v.placed (omega arith) at size)
        λ _ t r. mark_free-Released x n s t v.placed r)
  where
    header : sub64 x header_size ≡ x - header_size
    header = omega arith

    empty : (x - header_size == 0) ≡ false
    empty = ground arith

-- A separate object is as it was.
Released-IsObject :
    (x n y k : ℕ) (s s' : State)
    → Separate x n y k
    → header_size < x
    → IsObject s.heap y k
    → Released s x n s'
    → IsObject s'.heap y k × (s'.heap.memory y ≡ s.heap.memory y)
Released-IsObject x n y k s s' apart lo v r =
    let (c, at, size) = v.bibop in
    let header : s'.heap.memory (y - header_size) ≡ s.heap.memory (y - header_size) =
      r.memory (y - header_size) (outside apart).0 in
    let (c', at', size') = r.bibops (s.heap.memory (y - header_size)).word c at in
    (
      record {
        placed = v.placed;
        low = v.low;
        sized = v.sized;
        allocated = ap is_allocation header ∙ v.allocated;
        regular = ap is_regular header ∙ v.regular;
        bibop = (c', ap (λ (h : Cell). s'.heap.bibops h.word) header ∙ at', size' ∙ size);
      },
      r.memory y (outside apart).1,
    )
  where
    Clear : ℕ → Type 0
    Clear q = (q < x - header_size) ⊎ ((x - header_size < q) × (x + n ≤ q))

    outside : Separate x n y k → Clear (y - header_size) × Clear y
    outside (before h) = (inl (omega (arith, v.placed, v.sized)), inl (omega (arith, v.sized)))
    outside (after h) = (
      inr (omega (arith, lo), omega arith),
      inr (omega (arith, lo, v.placed), omega (arith, v.placed)),
    )

Released-Chain :
    (x n p : ℕ) (xs : List (ℕ × ℕ)) (s s' : State)
    → header_size < x
    → Released s x n s'
    → SeparateAll x n xs
    → Chain s.heap p xs
    → Chain s'.heap p xs
Released-Chain x n p [] s s' lo r apart v = v
Released-Chain x n p ((y, k) ∷ ys) s s' lo r apart v =
    let (first, obj, rest, tail) = v in
    let (obj', same) = Released-IsObject x n y k s s' apart.0 lo obj r in
    (
      first,
      obj',
      rest,
      subst (λ (c : Cell). Chain s'.heap c.word ys) (sym same)
          (Released-Chain x n (s.heap.memory y).word ys s s' lo r apart.1 tail),
    )

abbrev with_list : State → ℕ → State
with_list s p = record s { manager = record (s.manager) { free_list = p } }

-- On a list of allocated objects that do not meet, with fuel for one round more than the list is
-- long, handleFreeList comes to its end, and the list is empty after it.
pub handle_free_list_total :
    (os : Os) (xs : List (ℕ × ℕ)) (fuel : ℕ) (s : State)
    → IsOs os
    → Chain s.heap s.manager.free_list xs
    → length xs < fuel
    → Returns (λ _ s'. s'.manager.free_list ≡ 0) (handle_free_list os fuel s)
unfolding handle_free_list load set_free_list
handle_free_list_total os xs zero s o v enough = absurd (omega arith)
handle_free_list_total os [] (suc fuel) s o v enough = rw ((==_iff s.manager.free_list 0).1 v) v
handle_free_list_total os ((x, n) ∷ xs) (suc fuel) s o v enough =
    let (first, obj, apart, tail) = v in
    let Empty : Unit {0} → State → Type 0 = λ _ s'. s'.manager.free_list ≡ 0 in
    let t : State = with_list s (s.heap.memory x).word in
    let full : (s.manager.free_list == 0) ≡ false = ground (arith, obj.placed, first) in
    rw (full, full)
      (Returns-bind (λ _. Released t x n) Empty
        (release_listed os s.manager.free_list
          (with_list s (s.heap.memory s.manager.free_list).word))
        _ (rw first (release_listed-Released os x n t o obj))
        λ _ u r.
          handle_free_list_total os xs fuel u o
            (subst (λ q. Chain u.heap q xs) (sym (ap MemoryManager.free_list r.manager))
              (Released-Chain x n (s.heap.memory x).word xs t u obj.placed r apart tail))
            (omega (arith, enough)))
