-- ===== src/Frontend/Mlta/Dependent.antt =====
-- getDependentTypes: the layers that propagate to a layer, directly or through others.
use semalloc.Common.{
  ℕ, zero, suc, ◌+◌, ◌≤◌, ◌≡◌, subst, true, ◌||◌, some, List, [], ◌∷◌, ◌++◌, arith, inl, inr, ap,
  has, length, length-++, Bool-cases, eq-cases, List-cases,
}
use semalloc.Frontend.Marking.Relevant.{has-insert_all}
use semalloc.Frontend.Cycles.Contract.{has-++}
use semalloc.Frontend.Traverse.Ends.{total, unseen, unseen-le, unseen-visit, IsDomain}
use semalloc.Frontend.Traverse.Sound.{Walk, self, onward}
use semalloc.Frontend.Mlta.{
  TypeFacts, direct, Dependents, dependent_round, dependent_rounds, get_dependent_types,
}

module _ (facts : TypeFacts) where
  abbrev Reaches : ℕ → ℕ → Type 0
  Reaches = Walk (λ t. t) (direct facts)

  record Inv (t : ℕ) (s : Dependents) : Type 0 where
    start : (has t s.visited || has t s.todo) ≡ true
    propagated :
        (x y : ℕ) → has x s.visited ≡ true → has y (direct facts x) ≡ true → has y s.prop_set ≡ true
    queued : (y : ℕ) → has y s.prop_set ≡ true → (has y s.visited || has y s.todo) ≡ true
    reached : (y : ℕ) → (has y s.visited || has y s.todo) ≡ true → Reaches t y
    from :
        (y : ℕ) → has y s.prop_set ≡ true → (x : ℕ) × Reaches t x × (has y (direct facts x) ≡ true)

  round-Inv :
      (t u : ℕ) (us : List ℕ) (s : Dependents)
      → s.todo ≡ u ∷ us
      → Inv t s
      → Inv t (dependent_round facts u (record s { todo = us }))
  unfolding dependent_round
  round-Inv t u us s e inv =
      let todo = λ (y : ℕ). ap (has y) e in
      let path = inv.reached u (ground (arith, todo u)) in
      elim (Bool-cases (has u s.visited)) [
        | inl old ↦
            let still = λ (y : ℕ) (h : (has y s.visited || has y s.todo) ≡ true).
              let here : (has y s.visited || has y us) ≡ true = elim (eq-cases u y) [
                | inl same ↦ ground (arith, old, ap (λ k. has k s.visited) same)
                | inr ne ↦ ground (arith, h, todo y)
              ] in
              here in
            rw (old, dependent_round)
              (record {
                start = still t inv.start;
                propagated = inv.propagated;
                queued = λ y h. still y (inv.queued y h);
                reached = λ y h. inv.reached y (ground (arith, h, todo y));
                from = inv.from;
              })
        | inr new ↦
            let more = λ (y : ℕ). has-++ y us (direct facts u) in
            let props = λ (y : ℕ). has-insert_all (direct facts u) s.prop_set y in
            let still = λ (y : ℕ) (h : (has y s.visited || has y s.todo) ≡ true).
              let here : (has y (u ∷ s.visited) || has y (us ++ direct facts u)) ≡ true =
                ground (arith, h, todo y, more y) in
              here in
            rw (new, dependent_round)
              (record {
                start = still t inv.start;
                propagated = λ x y v d. elim (eq-cases u x) [
                  | inl same ↦ ground (arith, props y, ap (λ k. has y (direct facts k)) same, d)
                  | inr ne ↦ ground (arith, props y, inv.propagated x y, v, d)
                ];
                queued = λ y h. elim (Bool-cases (has y (direct facts u))) [
                  | inl d ↦ ground (arith, more y, d)
                  | inr out ↦ still y (inv.queued y (ground (arith, props y, h, out)))
                ];
                reached = λ y h. elim (eq-cases u y) [
                  | inl same ↦ subst (Reaches t) same path
                  | inr ne ↦ elim (Bool-cases (has y (direct facts u))) [
                    | inl d ↦ onward y path d
                    | inr out ↦ inv.reached y (ground (arith, h, more y, todo y, out))
                  ]
                ];
                from = λ y h. elim (Bool-cases (has y (direct facts u))) [
                  | inl d ↦ (u, path, d)
                  | inr out ↦ inv.from y (ground (arith, props y, h, out))
                ];
              })
      ]

  -- The layers found are those that propagate to one that is reached.
  pub record IsDependents (t : ℕ) (d : Dependents) : Type 0 where
    pub sound :
        (y : ℕ)
        → has y d.prop_set ≡ true
        → (x : ℕ) × Walk (λ u. u) (direct facts) t x × (has y (direct facts x) ≡ true)
    pub complete :
        (x y : ℕ)
        → Walk (λ u. u) (direct facts) t x
        → has y (direct facts x) ≡ true
        → has y d.prop_set ≡ true

  visited_all :
      (t : ℕ) (s : Dependents)
      → s.todo ≡ []
      → Inv t s
      → (x : ℕ) → Reaches t x
      → has x s.visited ≡ true
  visited_all t s empty inv x self = ground (arith, inv.start, ap (has t) empty)
  visited_all t s empty inv z (onward {f} y path d) = ground (
    arith,
    inv.queued y (inv.propagated f y (visited_all t s empty inv f path) d),
    ap (has y) empty,
  )

  module _ (ts : List ℕ) (dom : IsDomain (direct facts) ts) where
    rounds_return :
        (fuel t : ℕ) (s : Dependents)
        → Inv t s
        → unseen (direct facts) s.visited ts + length s.todo ≤ fuel
        → (d : Dependents) × (dependent_rounds facts fuel s ≡ some d) × Inv t d × (d.todo ≡ [])
    unfolding dependent_rounds dependent_round
    rounds_return zero t s inv h = elim (List-cases s.todo) [
      | inl empty ↦ (s, simp (empty, dependent_rounds), inv, empty)
      | inr (u, us, e) ↦ absurd (omega (arith, ap length e))
    ]
    rounds_return (suc fuel) t s inv h = elim (List-cases s.todo) [
      | inl empty ↦ (s, simp (empty, dependent_rounds), inv, empty)
      | inr (u, us, e) ↦
          let less : suc (
                unseen (direct facts) (dependent_round facts u (record s { todo = us })).visited ts
                + length (dependent_round facts u (record s { todo = us })).todo)
              ≤ unseen (direct facts) s.visited ts + length s.todo =
            elim (Bool-cases (has u s.visited)) [
              | inl old ↦ ground (arith, old, ap length e)
              | inr new ↦ ground (
                arith,
                new,
                ap length e,
                unseen-visit (λ k. k) (direct facts) (λ _. true) ts dom u s.visited new,
                length-++ us (direct facts u),
              )
            ] in
          let (d, r, inv', empty) =
            rounds_return fuel t (dependent_round facts u (record s { todo = us }))
              (round-Inv t u us s e inv) (omega (arith, less)) in
          (d, rw (e, dependent_rounds) r, inv', empty)
    ]

    -- Let the layers to which another one propagates be in a list, and the fuel one more than the number
    -- of these propagations. Then getDependentTypes returns the layers that propagate to the given one
    -- or to the index -1 of its type, or to a layer that is found in this way or the index -1 of its
    -- type, and no others.
    pub get_dependent_types-IsDependents :
        (fuel t : ℕ)
        → 1 + total (direct facts) ts ≤ fuel
        → (d : Dependents) × (get_dependent_types facts fuel t ≡ some d) × IsDependents t d
    unfolding get_dependent_types
    get_dependent_types-IsDependents fuel t enough =
        let start : Dependents = record { todo = t ∷ []; visited = []; prop_set = [] } in
        let (d, r, inv, empty) =
          rounds_return fuel t start
            (record {
              start = ground arith;
              propagated = λ x y v c. cc;
              queued = λ y h. cc;
              reached = λ y h. subst (Reaches t) (ground (arith, h)) self;
              from = λ y h. cc;
            })
            (omega (arith, unseen-le (direct facts) [] ts)) in
        (
          d,
          r,
          record {
            sound = inv.from;
            complete = λ x y path c. inv.propagated x y (visited_all t d empty inv x path) c;
          },
        )
