-- ===== src/Bibop/Steps.antt =====
-- Every step of a bag keeps its invariant.
use semalloc.Common.{
  ℕ, ◌+◌, ◌*◌, ◌/◌, ◌≤◌, ◌<◌, ◌^◌, ◌≡◌, ◌⊎◌, refl, ◌∙◌, ap, true, false, List, [], ◌∷◌, arith, inl,
  inr, leb, ltb, ltb→lt, has, update, add64, sub64, Bool-cases,
}
use semalloc.Config.{header_size, individual_bibop_size, memory_release_threshold, page_size}
use semalloc.Header.{Cell}
use semalloc.Machine.{Memory, Os, IsOs}
use semalloc.Bibop.{SingleBibop, free_object, extend_bibop}
use semalloc.Bibop.Bag.{
  Bag, Apart, Outside, NotOwned, Step, allocates, extends, releases, writes, Reach, here, next,
}
use semalloc.Bibop.Invariant.{Chain, Bounds, IsBag, allocate_reuse, allocate_cut, allocate_refuse}

-- A chain depends on the first words of its own headers.
Chain-same :
    (m m' : Memory) (p : ℕ) (xs : List ℕ)
    → Chain m p xs
    → ((x : ℕ) → has x xs ≡ true → (m' x).word ≡ (m x).word)
    → Chain m' p xs
Chain-same m m' p [] c same = c
Chain-same m m' p (x ∷ xs) c same = (
  c.0,
  c.1,
  rw (same x (ground arith)) (Chain-same m m' (m x).word xs c.2 λ y h. same y (ground arith)),
)

-- The bag after an allocation with the result `r`.
abbrev after : Bag → ℕ × SingleBibop → Bag
after g r = record g {
  bibop = r.1;
  live = update g.live r.0 true;
  handed = update g.handed r.0 true;
}

reuse-IsBag :
    (g : Bag) (x : ℕ) (xs : List ℕ)
    → IsBag g (x ∷ xs)
    → IsBag (after g (x, record (g.bibop) { free_list = (g.memory x).word })) xs
reuse-IsBag g x xs v = record {
  chain = v.chain.2;
  distinct = v.distinct.1;
  freed = λ y h. ground (arith, v.freed y, v.distinct.0);
  held = λ y h. ground (arith, v.held y);
  apart = λ y z h k ne. v.apart y z (was y h) (was z k) ne;
  clear = λ y h. v.clear y (was y h);
  placed = λ y h. v.placed y (was y h);
  bounds = ground (arith, v.bounds);
}
  where
    was : (y : ℕ) → update g.handed x true y ≡ true → g.handed y ≡ true
    was y h = ground (arith, v.freed x)

cut-IsBag :
    (g : Bag)
    → IsBag g []
    → g.bibop.bump + g.bibop.object_size < g.bibop.base + g.bibop.capacity
    → IsBag
        (after g (g.bibop.bump, record (g.bibop) { bump = g.bibop.bump + g.bibop.object_size }))
        []
cut-IsBag g v fits = record {
  chain = v.chain;
  distinct = tt;
  freed = λ y h. absurd (cc);
  held = λ y h. ground (arith, v.held y);
  apart = λ y z h k ne. ground (arith, v.apart y z, v.clear y, v.clear z, v.bounds);
  clear = λ y h. ground (arith, v.clear y);
  placed = λ y h. ground (arith, v.placed y, v.bounds);
  bounds = ground (arith, v.bounds);
}

extend-IsBag :
    (g : Bag) (base : ℕ)
    → IsBag g []
    → 0 < base
    → base + individual_bibop_size < 2 ^ 47
    → ((x : ℕ) → g.handed x ≡ true → Outside g.bibop.object_size x base individual_bibop_size)
    → IsBag
        (record g {
          bibop =
              extend_bibop
                (record (g.bibop) { bump = g.bibop.bump + g.bibop.object_size })
                base
                individual_bibop_size;
        })
        []
unfolding extend_bibop
extend-IsBag g base v pos low out = record {
  chain = v.chain;
  distinct = tt;
  freed = v.freed;
  held = v.held;
  apart = v.apart;
  clear = out;
  placed = v.placed;
  bounds = ground (arith, v.bounds);
}

write-IsBag :
    (g : Bag) (free : List ℕ) (m : Memory)
    → IsBag g free
    → ((p : ℕ) → NotOwned g p → m p ≡ g.memory p)
    → IsBag (record g { memory = m }) free
write-IsBag g free m v same = record {
  chain =
      Chain-same g.memory m g.bibop.free_list free v.chain
        λ x h. ap Cell.word (same x (unowned x h));
  distinct = v.distinct;
  freed = v.freed;
  held = v.held;
  apart = v.apart;
  clear = v.clear;
  placed = v.placed;
  bounds = v.bounds;
}
  where
    unowned : (x : ℕ) → has x free ≡ true → NotOwned g x
    unowned x h q l = ground (arith, v.apart x q, v.freed x h, v.held q l, v.bounds)

-- A release writes the link of the object's header. The pages that it gives back lie inside the
-- object, behind the header.
module _ (os : Os) (o : IsOs os) (m : Memory) (b : SingleBibop) (v : Bounds b) (p : ℕ)
    (low : p < 2 ^ 48) where
  abbrev linked : Memory
  linked = update m p (record (m p) { word = b.free_list })

  pub free_outside :
      (y : ℕ) → (y ≡ p) ⊎ Apart b.object_size y p → (free_object os m b p).0 y ≡ linked y
  unfolding free_object
  free_outside y where' =
      elim (Bool-cases (leb memory_release_threshold (sub64 b.object_size header_size))) [
        | inl large ↦ rw large (
            o.madvise_outside linked (add64 p header_size)
              (sub64 b.object_size header_size / page_size * page_size) y (range where'))
        | inr small ↦ rw small refl
      ]
    where
      range :
          (y ≡ p) ⊎ Apart b.object_size y p
          → (y < add64 p header_size)
            ⊎ (add64 p header_size + sub64 b.object_size header_size / page_size * page_size ≤ y)
      range (inl e) = inl (omega arith)
      range (inr (inl h)) = inl (omega arith)
      range (inr (inr h)) = inr (omega arith)

-- The bag after the release of `p` with the memory `m'`.
abbrev released : Bag → ℕ → Memory → Bag
released g p m' = record g {
  memory = m';
  bibop = record (g.bibop) { free_list = p };
  live = update g.live p false;
}

release-IsBag :
    (g : Bag) (free : List ℕ) (p : ℕ) (m' : Memory)
    → IsBag g free
    → g.live p ≡ true
    → (m' p).word ≡ g.bibop.free_list
    → ((x : ℕ) → Apart g.bibop.object_size x p → (m' x).word ≡ (g.memory x).word)
    → IsBag (released g p m') (p ∷ free)
release-IsBag g free p m' v l link same = record {
  chain = (refl, (v.placed p held).0, rw link kept);
  distinct = (fresh, v.distinct);
  freed = λ y h. ground (arith, v.freed y, held);
  held = λ y h. v.held y (ground arith);
  apart = v.apart;
  clear = v.clear;
  placed = v.placed;
  bounds = ground (arith, v.bounds);
}
  where
    held : g.handed p ≡ true
    held = v.held p l

    fresh : has p free ≡ false
    fresh = ground (arith, v.freed p)

    other : (x : ℕ) → has x free ≡ true → (m' x).word ≡ (g.memory x).word
    other x h = same x (v.apart x p ((v.freed x h).0) held (λ e. cc (ap g.live e, (v.freed x h).1)))

    kept : Chain m' g.bibop.free_list free
    kept = Chain-same g.memory m' g.bibop.free_list free v.chain other

free_bibop :
    (os : Os) (m : Memory) (b : SingleBibop) (p : ℕ)
    → (free_object os m b p).1 ≡ record b { free_list = p }
unfolding free_object
free_bibop os m b p = refl

-- Every step keeps the invariant.
pub Step-IsBag :
    (os : Os) (o : IsOs os) {g h : Bag}
    → Step os g h
    → (free : List ℕ) × IsBag g free
    → (free : List ℕ) × IsBag h free
Step-IsBag os o {g} (allocates given) ([], v) =
    elim (Bool-cases (ltb (g.bibop.bump + g.bibop.object_size) (g.bibop.base + g.bibop.capacity))) [
      | inl fits ↦
          let fits' = ltb→lt _ _ fits in
          ([], rw (allocate_cut g.memory g.bibop v.chain v.bounds fits') (cut-IsBag g v fits'))
      | inr over ↦ absurd (
          given (
            ap (λ (r : ℕ × SingleBibop). r.0)
              (allocate_refuse g.memory g.bibop v.chain v.bounds (ground arith))))
    ]
Step-IsBag os o {g} (allocates given) ((x ∷ xs), v) =
    (xs, rw (allocate_reuse g.memory g.bibop x v.chain.0 v.chain.1) (reuse-IsBag g x xs v))
Step-IsBag os o {g} (extends base used pos low out) ([], v) =
    elim (Bool-cases (ltb (g.bibop.bump + g.bibop.object_size) (g.bibop.base + g.bibop.capacity))) [
      | inl fits ↦ absurd (
          ground (
            arith,
            v.bounds,
            ap (λ (r : ℕ × SingleBibop). r.0)
                (allocate_cut g.memory g.bibop v.chain v.bounds (ltb→lt _ _ fits)),
          ))
      | inr over ↦ (
        [],
        rw (allocate_refuse g.memory g.bibop v.chain v.bounds (ground arith))
            (extend-IsBag g base v pos low out),
      )
    ]
Step-IsBag os o {g} (extends base used pos low out) ((x ∷ xs), v) = absurd (
    ground (
      arith,
      v.chain.1,
      ap (λ (r : ℕ × SingleBibop). r.0) (allocate_reuse g.memory g.bibop x v.chain.0 v.chain.1),
    ))
Step-IsBag os o {g} (releases p l) (free, v) =
    let low : p < 2 ^ 48 = omega (arith, (v.placed p (v.held p l)).1) in
    let m' = (free_object os g.memory g.bibop p).0 in
    (
      p ∷ free,
      rw (free_bibop os g.memory g.bibop p) (
          release-IsBag g free p m' v l
            (ap Cell.word (free_outside os o g.memory g.bibop v.bounds p low p (inl refl))
              ∙ ground arith)
            λ x away.
              ap Cell.word (free_outside os o g.memory g.bibop v.bounds p low x (inr away))
              ∙ ground (arith, v.bounds)),
    )
Step-IsBag os o {g} (writes m same) (free, v) = (free, write-IsBag g free m v same)

pub Reach-IsBag :
    (os : Os) (o : IsOs os) {g h : Bag}
    → Reach os g h
    → (free : List ℕ) × IsBag g free
    → (free : List ℕ) × IsBag h free
Reach-IsBag os o here v = v
Reach-IsBag os o (next r st) v = Step-IsBag os o st (Reach-IsBag os o r v)
