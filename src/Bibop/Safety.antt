-- ===== src/Bibop/Safety.antt =====
-- What the program may rely on: an allocation never gives out an object that is still held.
use semalloc.Common.{
  ℕ, ◌+◌, ◌<◌, ◌^◌, ◌≡◌, ◌≢◌, ap, true, false, List, [], ◌∷◌, arith, inl, inr, ltb, ltb→lt, has,
  Bool-cases,
}
use semalloc.Machine.{Memory, Os, IsOs}
use semalloc.Bibop.{SingleBibop, allocate_object}
use semalloc.Bibop.Bag.{Bag, allocated, Apart, new_bag, Reach}
use semalloc.Bibop.Invariant.{IsBag, new_bag-IsBag, allocate_reuse, allocate_cut, allocate_refuse}
use semalloc.Bibop.Steps.{Reach-IsBag}

-- A new object: it is not held, and it meets no object that is held.
pub record IsNew (g : Bag) (p : ℕ) : Type 0 where
  pub unheld : g.live p ≡ false
  pub apart : (q : ℕ) → g.live q ≡ true → Apart g.bibop.object_size p q

IsBag-IsNew :
    (g : Bag) (free : List ℕ) → IsBag g free → (allocated g).0 ≢ 0 → IsNew g (allocated g).0
IsBag-IsNew g [] v given =
    elim (Bool-cases (ltb (g.bibop.bump + g.bibop.object_size) (g.bibop.base + g.bibop.capacity))) [
      | inl fits ↦ rw (allocate_cut g.memory g.bibop v.chain v.bounds (ltb→lt _ _ fits)) (record {
        unheld = ground (arith, v.clear g.bibop.bump, v.held g.bibop.bump, v.bounds);
        apart = λ q l. ground (arith, v.clear q, v.held q l, v.bounds);
      })
      | inr over ↦ absurd (
          given (
            ap (λ (r : ℕ × SingleBibop). r.0)
              (allocate_refuse g.memory g.bibop v.chain v.bounds (ground arith))))
    ]
IsBag-IsNew g (x ∷ xs) v given =
    rw (allocate_reuse g.memory g.bibop x v.chain.0 v.chain.1) (record {
      unheld = (v.freed x here).1;
      apart = λ q l.
          v.apart x q ((v.freed x here).0) (v.held q l) λ e. cc (ap g.live e, (v.freed x here).1);
    })
  where
    here : has x (x ∷ xs) ≡ true
    here = ground arith

-- After any history of a bag that starts empty - allocations, releases of held objects, new chunks
-- that meet no object handed out, and writes of the program into its own objects - an object that
-- allocateObject returns is not held and overlaps no object that is held.
pub allocate_object-IsNew :
    (os : Os) (m : Memory) (base object_size capacity : ℕ) (g : Bag)
    → IsOs os
    → 0 < base
    → base + capacity < 2 ^ 47
    → 0 < object_size
    → object_size < 2 ^ 18
    → Reach os (new_bag m base object_size capacity) g
    → (allocate_object g.memory g.bibop).0 ≢ 0
    → IsNew g (allocate_object g.memory g.bibop).0
allocate_object-IsNew os m base object_size capacity g o pos low lo hi r given =
    let (free, v) =
      Reach-IsBag os o r ([], new_bag-IsBag m base object_size capacity pos low lo hi) in
    IsBag-IsNew g free v given
