-- ===== src/Frontend/LoopMarking/Cycles.antt =====
-- The set after the functions of call cycles have given way to the names of the cycles.
use semalloc.Common.{
  ℕ, ◌≡◌, refl, ◌∙◌, true, false, not, ◌||◌, ◌&&◌, Option, none, some, List, [], ◌∷◌, arith, inl,
  inr, ap, has, insert, has-insert, without, ◌==◌, Bool-cases, Option-cases, eq-cases, ◌⊎◌,
}
use semalloc.Frontend.Marking.{insert_all}
use semalloc.Frontend.Marking.Relevant.{has-insert_all}
use semalloc.Frontend.LoopMarking.{cycle_names, cycle_members, erase_all, replace_cycles}

has-without_all : (a f : ℕ) (xs : List ℕ) → has a (without f xs) ≡ (not (f == a) && has a xs)
has-without_all a f [] = ground arith
has-without_all a f (x ∷ xs) = ground (arith, has-without_all a f xs)

has-erase_all : (fs set : List ℕ) (a : ℕ) → has a (erase_all fs set) ≡ (not (has a fs) && has a set)
unfolding erase_all
has-erase_all [] set a = refl
has-erase_all (f ∷ fs) set a =
    ground (arith, has-erase_all fs (without f set) a, has-without_all a f set)

module _ (flipped_intra : ℕ → Option ℕ) where
  cycle_members-none :
      (fs : List ℕ) (f : ℕ)
      → flipped_intra f ≡ none
      → has f (cycle_members flipped_intra fs) ≡ false
  unfolding cycle_members
  cycle_members-none [] f e = refl
  cycle_members-none (g ∷ gs) f e = elim (Option-cases (flipped_intra g)) [
    | inl out ↦ rw (out, cycle_members) (cycle_members-none gs f e)
    | inr (n, here) ↦ elim (eq-cases g f) [
      | inl same ↦ absurd (ground (arith, ap flipped_intra same, e, here))
      | inr ne ↦ rw (here, cycle_members) (ground (arith, cycle_members-none gs f e))
    ]
  ]

  cycle_members-some :
      (fs : List ℕ) (f n : ℕ)
      → flipped_intra f ≡ some n
      → has f (cycle_members flipped_intra fs) ≡ has f fs
  unfolding cycle_members
  cycle_members-some [] f n e = refl
  cycle_members-some (g ∷ gs) f n e = elim (Option-cases (flipped_intra g)) [
    | inl out ↦ elim (eq-cases g f) [
      | inl same ↦ absurd (ground (arith, ap flipped_intra same, e, out))
      | inr ne ↦ rw (out, cycle_members) (ground (arith, cycle_members-some gs f n e))
    ]
    | inr (k, here) ↦ rw (here, cycle_members) (ground (arith, cycle_members-some gs f n e))
  ]

  cycle_names-has :
      (fs : List ℕ) (f n : ℕ)
      → flipped_intra f ≡ some n
      → has f fs ≡ true
      → has n (cycle_names flipped_intra fs) ≡ true
  unfolding cycle_names
  cycle_names-has [] f n e h = cc
  cycle_names-has (g ∷ gs) f n e h = elim (eq-cases g f) [
    | inl same ↦
        rw (ap flipped_intra same ∙ e, cycle_names)
          (ground (arith, has-insert n n (cycle_names flipped_intra gs)))
    | inr ne ↦ elim (Option-cases (flipped_intra g)) [
      | inl out ↦ rw (out, cycle_names) (cycle_names-has gs f n e (ground arith))
      | inr (k, here) ↦
          rw (here, cycle_names)
            (ground (
              arith,
              has-insert n k (cycle_names flipped_intra gs),
              cycle_names-has gs f n e (ground arith),
            ))
    ]
  ]

  has-cycle_names :
      (fs : List ℕ) (n : ℕ)
      → has n (cycle_names flipped_intra fs) ≡ true
      → (f : ℕ) × (has f fs ≡ true) × (flipped_intra f ≡ some n)
  unfolding cycle_names
  has-cycle_names [] n h = cc
  has-cycle_names (g ∷ gs) n h = elim (Option-cases (flipped_intra g)) [
    | inl out ↦
        let (f, m, e) = has-cycle_names gs n (rw (out, cycle_names) at h) in
        (f, ground (arith, m), e)
    | inr (k, here) ↦ elim (eq-cases k n) [
      | inl same ↦ (g, ground arith, here ∙ ap some same)
      | inr ne ↦
          let inserted : has n (insert k (cycle_names flipped_intra gs)) ≡ true =
            rw (here, cycle_names) at h in
          let (f, m, e) =
            has-cycle_names gs n
              (ground (arith, inserted, has-insert n k (cycle_names flipped_intra gs))) in
          (f, ground (arith, m), e)
    ]
  ]

  -- A function that is in no cycle.
  pub replace_cycles-none :
      (set : List ℕ) (f : ℕ)
      → flipped_intra f ≡ none
      → has f (replace_cycles flipped_intra set)
        ≡ (has f (cycle_names flipped_intra set) || has f set)
  unfolding replace_cycles
  replace_cycles-none set f e = ground (
    arith,
    has-erase_all (cycle_members flipped_intra set) (insert_all (cycle_names flipped_intra set) set)
        f,
    has-insert_all (cycle_names flipped_intra set) set f,
    cycle_members-none set f e,
  )

  -- When the names of the cycles are not names of functions: the new set is the functions of the old
  -- one that are in no cycle, and the names of the cycles that had a function in the old set.
  pub replace_cycles-Replaced :
      (set : List ℕ)
      → ((f n : ℕ) → flipped_intra f ≡ some n → flipped_intra n ≡ none)
      → (a : ℕ) → has a (replace_cycles flipped_intra set) ≡ true
      → (flipped_intra a ≡ none)
        × ((has a set ≡ true) ⊎ ((f : ℕ) × (has f set ≡ true) × (flipped_intra f ≡ some a)))
  unfolding replace_cycles
  replace_cycles-Replaced set fresh a h =
      let split =
        has-erase_all (cycle_members flipped_intra set)
          (insert_all (cycle_names flipped_intra set) set) a in
      let both = has-insert_all (cycle_names flipped_intra set) set a in
      elim (Bool-cases (has a (cycle_names flipped_intra set))) [
        | inl named ↦ let (f, m, e) = has-cycle_names set a named in (fresh f a e, inr (f, m, e))
        | inr out ↦ elim (Option-cases (flipped_intra a)) [
          | inl free ↦ (free, inl (ground (arith, split, both, out, h)))
          | inr (n, member) ↦
              absurd (ground (arith, split, both, out, h, cycle_members-some set a n member))
        ]
      ]

  pub replace_cycles-kept :
      (set : List ℕ) (f : ℕ)
      → flipped_intra f ≡ none
      → has f set ≡ true
      → has f (replace_cycles flipped_intra set) ≡ true
  replace_cycles-kept set f e h = replace_cycles-none set f e ∙ ground (arith, h)

  pub replace_cycles-named :
      (set : List ℕ) (f n : ℕ)
      → flipped_intra f ≡ some n
      → flipped_intra n ≡ none
      → has f set ≡ true
      → has n (replace_cycles flipped_intra set) ≡ true
  replace_cycles-named set f n e free h =
      replace_cycles-none set n free ∙ ground (arith, cycle_names-has set f n e h)
