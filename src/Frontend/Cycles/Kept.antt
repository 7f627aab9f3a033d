-- ===== src/Frontend/Cycles/Kept.antt =====
-- No call of instrIsInaLoop gets lost when the members of the cycles become one function.
use semalloc.Common.{
  ℕ, ◌≡◌, ◌≢◌, refl, sym, ◌∙◌, true, Option, none, some, List, [], ◌∷◌, ◌++◌, arith, inl, inr, ap,
  has, Option-cases, eq-cases, ◌⊎◌,
}
use semalloc.Frontend.Graph.{Calls}
use semalloc.Frontend.Cycles.{members_of, move_calls}
use semalloc.Frontend.Cycles.Contract.{
  has-++, AllNamed, IsNamed, move_members, move_cycles, home, home-none,
}

module _ (flipped_intra : ℕ → Option ℕ)
    (not_member : (f n : ℕ) → flipped_intra f ≡ some n → flipped_intra n ≡ none)
    (calls : Calls) where
  -- A call that has not reached the home of its function stands with a member that comes later.
  NotLost : (rest : List ℕ) → Calls → Type 0
  NotLost rest moved =
      (d p : ℕ)
      → has p (calls d) ≡ true
      → ((has d rest ≡ true) × (has p (moved d) ≡ true))
        ⊎ (has p (moved (home flipped_intra d)) ≡ true)

  move_calls-NotLost :
      (name f : ℕ) (rest : List ℕ) (moved : Calls)
      → flipped_intra f ≡ some name
      → NotLost (f ∷ rest) moved
      → NotLost rest (move_calls name f moved)
  unfolding NotLost move_calls
  move_calls-NotLost name f rest moved e inv d p c =
      let longer = has-++ p (moved name) (moved f) in
      let apart : f ≢ name =
        λ same. ground (arith, ap flipped_intra same, e, not_member f name e) in
      elim (inv d p c) [
        | inl (later, there) ↦ elim (eq-cases f d) [
          | inl now ↦
              let arrives : home flipped_intra d ≡ name =
                ap (home flipped_intra) (sym now) ∙ rw (e, home) refl in
              inr (
                ap (λ k. has p (move_calls name f moved k)) arrives
                ∙ ground (arith, longer, ap (λ k. has p (moved k)) now, there, apart))
          | inr ne ↦ elim (eq-cases name d) [
            | inl same ↦ inl (
              ground (arith, later),
              ap (λ k. has p (move_calls name f moved k)) (sym same)
                  ∙ ground (arith, longer, ap (λ k. has p (moved k)) same, there, apart),
            )
            | inr ne' ↦ inl (ground (arith, later), ground (arith, there))
          ]
        ]
        | inr there ↦
            let away : f ≢ home flipped_intra d = λ same.
              ground
                (arith, ap flipped_intra same, e, home-none flipped_intra not_member calls d) in
            inr (elim (eq-cases name (home flipped_intra d)) [
              | inl same ↦
                  ap (λ k. has p (move_calls name f moved k)) (sym same)
                  ∙ ground (arith, longer, ap (λ k. has p (moved k)) same, there, apart)
              | inr ne ↦ ground (arith, there, away)
            ])
      ]

  move_members-NotLost :
      (name : ℕ) (ms rest : List ℕ) (moved : Calls)
      → AllNamed flipped_intra name ms
      → NotLost (ms ++ rest) moved
      → NotLost rest (move_members name ms moved)
  move_members-NotLost name [] rest moved named inv = inv
  move_members-NotLost name (f ∷ fs) rest moved named inv =
      move_members-NotLost name fs rest (move_calls name f moved) named.1
        (move_calls-NotLost name f (fs ++ rest) moved named.0 inv)

  move_cycles-NotLost :
      (cs : List (ℕ × List ℕ)) (moved : Calls)
      → IsNamed flipped_intra cs
      → NotLost (members_of cs) moved
      → NotLost [] (move_cycles cs moved)
  move_cycles-NotLost [] moved named inv = inv
  move_cycles-NotLost ((name, ms) ∷ cs) moved named inv =
      move_cycles-NotLost cs (move_members name ms moved) named.1
        (move_members-NotLost name ms (members_of cs) moved named.0 inv)

  pub move_cycles-kept :
      (cs : List (ℕ × List ℕ))
      → IsNamed flipped_intra cs
      → ((f n : ℕ) → flipped_intra f ≡ some n → has f (members_of cs) ≡ true)
      → (d p : ℕ) → has p (calls d) ≡ true
      → has p (move_cycles cs calls (home flipped_intra d)) ≡ true
  unfolding NotLost
  move_cycles-kept cs named listed d p c =
      let start = λ (k q : ℕ) (m : has q (calls k) ≡ true).
        let case : ((has k (members_of cs) ≡ true) × (has q (calls k) ≡ true))
            ⊎ (has q (calls (home flipped_intra k)) ≡ true) =
          elim (Option-cases (flipped_intra k)) [
            | inl e ↦ inr (ap (λ i. has q (calls i)) (rw (e, home) refl) ∙ m)
            | inr (n, e) ↦ inl (listed k n e, m)
          ] in
        case in
      elim (move_cycles-NotLost cs calls named start d p c) [
        | inl (later, there) ↦ absurd (ground (arith, later))
        | inr there ↦ there
      ]
