-- ===== src/Frontend/Cycles/Contract.antt =====
-- The maps of instrIsInaLoop after the members of each cycle have become one function.
use semalloc.Common.{
  ℕ, ◌≡◌, refl, sym, ◌∙◌, true, ◌||◌, Option, none, some, List, [], ◌∷◌, ◌++◌, arith, inl, inr, ap,
  has, Bool-cases, Option-cases, eq-cases, ◌⊎◌,
}
use semalloc.Frontend.Graph.{Calls}
use semalloc.Frontend.Cycles.{
  members_of, Contracted, move_calls, contract_member, contract_members, contract_cycles,
}

pub has-++ : (p : ℕ) (xs ys : List ℕ) → has p (xs ++ ys) ≡ (has p xs || has p ys)
has-++ p [] ys = refl
has-++ p (x ∷ xs) ys = ground (arith, has-++ p xs ys)

-- Each member that is listed with a name has this name.
abbrev pub AllNamed : (ℕ → Option ℕ) → ℕ → List ℕ → Type 0
AllNamed flipped_intra name [] = Unit {0}
AllNamed flipped_intra name (f ∷ fs) =
    (flipped_intra f ≡ some name) × AllNamed flipped_intra name fs

abbrev pub IsNamed : (ℕ → Option ℕ) → List (ℕ × List ℕ) → Type 0
IsNamed flipped_intra [] = Unit {0}
IsNamed flipped_intra ((name, ms) ∷ cs) = AllNamed flipped_intra name ms × IsNamed flipped_intra cs

abbrev pub move_members : ℕ → List ℕ → Calls → Calls
move_members name [] calls = calls
move_members name (f ∷ fs) calls = move_members name fs (move_calls name f calls)

abbrev pub move_cycles : List (ℕ × List ℕ) → Calls → Calls
move_cycles [] calls = calls
move_cycles ((name, ms) ∷ cs) calls = move_cycles cs (move_members name ms calls)

contract_members-move :
    (name : ℕ) (ms : List ℕ) (s : Contracted)
    → ((contract_members name ms s).function_map ≡ move_members name ms s.function_map)
      × ((contract_members name ms s).flipped ≡ move_members name ms s.flipped)
unfolding contract_members contract_member
contract_members-move name [] s = (refl, refl)
contract_members-move name (f ∷ fs) s = contract_members-move name fs (contract_member name f s)

pub contract_cycles-move :
    (cs : List (ℕ × List ℕ)) (s : Contracted)
    → ((contract_cycles cs s).function_map ≡ move_cycles cs s.function_map)
      × ((contract_cycles cs s).flipped ≡ move_cycles cs s.flipped)
unfolding contract_cycles
contract_cycles-move [] s = (refl, refl)
contract_cycles-move ((name, ms) ∷ cs) s =
    let (a, b) = contract_cycles-move cs _ in
    let (c, d) = contract_members-move name ms _ in
    (a ∙ ap (move_cycles cs) c, b ∙ ap (move_cycles cs) d)

-- A function, or the cycle that has it.
abbrev pub home : (ℕ → Option ℕ) → ℕ → ℕ
home flipped_intra f = elim (flipped_intra f) [ none ↦ f | some name ↦ name ]

module _ (flipped_intra : ℕ → Option ℕ)
    (not_member : (f n : ℕ) → flipped_intra f ≡ some n → flipped_intra n ≡ none)
    (calls : Calls) where
  pub home-none : (f : ℕ) → flipped_intra (home flipped_intra f) ≡ none
  home-none f = elim (Option-cases (flipped_intra f)) [
    | inl e ↦ ap flipped_intra (rw (e, home) refl) ∙ e
    | inr (n, e) ↦ ap flipped_intra (rw (e, home) refl) ∙ not_member f n e
  ]

  -- A call stands with the home of its function, or still with a member that comes later.
  HomeOrLater : (rest : List ℕ) → Calls → Type 0
  HomeOrLater rest moved =
      (h p : ℕ)
      → has p (moved h) ≡ true
      → (d : ℕ) × (has p (calls d) ≡ true)
        × ((home flipped_intra d ≡ h) ⊎ (d ≡ h) × (has h rest ≡ true))

  move_calls-HomeOrLater :
      (name f : ℕ) (rest : List ℕ) (moved : Calls)
      → flipped_intra f ≡ some name
      → HomeOrLater (f ∷ rest) moved
      → HomeOrLater rest (move_calls name f moved)
  unfolding HomeOrLater move_calls
  move_calls-HomeOrLater name f rest moved e inv h p here = elim (eq-cases f h) [
    | inl same ↦ absurd (ground (arith, here))
    | inr other ↦ elim (eq-cases name h) [
      | inl named ↦ elim (Bool-cases (has p (moved f))) [
        | inl from_member ↦
            let (d, c, where') = inv f p from_member in
            elim where' [
              | inl at_home ↦ absurd (ground (arith, ap flipped_intra at_home, home-none d, e))
              | inr (same, later) ↦ (d, c, inl (ap (home flipped_intra) same ∙ rw (e, home) named))
            ]
        | inr no_member ↦
            let there : has p (moved h) ≡ true =
              ap (λ k. has p (moved k)) (sym named)
              ∙ ground (arith, here, no_member, has-++ p (moved name) (moved f)) in
            let (d, c, where') = inv h p there in
            elim where' [
              | inl at_home ↦ (d, c, inl at_home)
              | inr (same, later) ↦ (d, c, inr (same, ground (arith, later)))
            ]
      ]
      | inr ne ↦
          let (d, c, where') = inv h p (ground (arith, here)) in
          elim where' [
            | inl at_home ↦ (d, c, inl at_home)
            | inr (same, later) ↦ (d, c, inr (same, ground (arith, later)))
          ]
    ]
  ]

  move_members-HomeOrLater :
      (name : ℕ) (ms rest : List ℕ) (moved : Calls)
      → AllNamed flipped_intra name ms
      → HomeOrLater (ms ++ rest) moved
      → HomeOrLater rest (move_members name ms moved)
  move_members-HomeOrLater name [] rest moved named inv = inv
  move_members-HomeOrLater name (f ∷ fs) rest moved named inv =
      move_members-HomeOrLater name fs rest (move_calls name f moved) named.1
        (move_calls-HomeOrLater name f (fs ++ rest) moved named.0 inv)

  move_cycles-HomeOrLater :
      (cs : List (ℕ × List ℕ)) (moved : Calls)
      → IsNamed flipped_intra cs
      → HomeOrLater (members_of cs) moved
      → HomeOrLater [] (move_cycles cs moved)
  move_cycles-HomeOrLater [] moved named inv = inv
  move_cycles-HomeOrLater ((name, ms) ∷ cs) moved named inv =
      move_cycles-HomeOrLater cs (move_members name ms moved) named.1
        (move_members-HomeOrLater name ms (members_of cs) moved named.0 inv)

  -- In the end every call stands with the home of its function.
  pub move_cycles-home :
      (cs : List (ℕ × List ℕ))
      → IsNamed flipped_intra cs
      → ((f n : ℕ) → flipped_intra f ≡ some n → has f (members_of cs) ≡ true)
      → (h p : ℕ) → has p (move_cycles cs calls h) ≡ true
      → (d : ℕ) × (has p (calls d) ≡ true) × (home flipped_intra d ≡ h)
  unfolding HomeOrLater
  move_cycles-home cs named listed h p here =
      let (d, c, where') =
        move_cycles-HomeOrLater cs calls named
          (λ k q c. elim (Option-cases (flipped_intra k)) [
            | inl e ↦ (k, c, inl (rw (e, home) refl))
            | inr (n, e) ↦ (k, c, inr (refl, listed k n e))
          ])
          h p here in
      elim where' [
        | inl at_home ↦ (d, c, at_home)
        | inr (same, later) ↦ absurd (ground (arith, later))
      ]
