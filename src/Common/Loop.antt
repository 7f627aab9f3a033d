-- ===== src/Common/Loop.antt =====
-- A counted loop whose body returns a result or goes on to the next round.
use Prim.Native.Nat.{ℕ, zero, suc, ◌+◌, ◌<◌, ◌≤◌}
use mathlib.Core.Path.{◌≡◌, refl, sym, ap, ◌∙◌}
use mathlib.Core.Logic.{inl, inr}
use semalloc.Common.Tests.{Option-cases, eq-cases}
use mathlib.Core.Option
use mathlib.Core.Option.{Option, none, some}
use native.Mathlib.Omega.{arith}

-- `for (i = start; rounds more times; i++)`: `none` is a loop that ran to its end.
unfoldable pub for_return {ℓ} : {A : Type ℓ} → ℕ → ℕ → (ℕ → Option A) → Option A
for_return zero i body = none
for_return (suc n) i body =
    let rest = for_return n (i + 1) body in elim (body i) [ some a ↦ some a | none ↦ rest ]

module _ {A : Type 0} where
  for_return_skip :
      (n i : ℕ) (body : ℕ → Option A)
      → body i ≡ none
      → for_return (suc n) i body ≡ for_return n (i + 1) body
  unfolding for_return
  for_return_skip n i body h = rw (h, for_return)

  for_return_stop :
      (n i : ℕ) (body : ℕ → Option A) (a : A) → body i ≡ some a → for_return (suc n) i body ≡ some a
  unfolding for_return
  for_return_stop n i body a h = rw (h, for_return)

  -- The first round that returns decides the loop, also after a change of the other rounds.
  pub for_return_stable :
      (n i : ℕ) (body body' : ℕ → Option A) (a : A)
      → for_return n i body ≡ some a
      → ((k : ℕ) → body k ≡ none → body' k ≡ none)
      → ((k : ℕ) → body k ≡ some a → body' k ≡ some a)
      → for_return n i body' ≡ some a
  unfolding for_return
  for_return_stable zero i body body' a e skip keep = cc
  for_return_stable (suc n) i body body' a e skip keep = elim (Option-cases (body i)) [
    | inl h ↦
        for_return_skip n i body' (skip i h)
        ∙ for_return_stable n (i + 1) body body' a (sym (for_return_skip n i body h) ∙ e) skip keep
    | inr (b, h) ↦ for_return_stop n i body' a (keep i (cc (h, e, for_return_stop n i body b h)))
  ]

  -- What a loop returns, some round returned.
  pub for_return_round :
      (n i : ℕ) (body : ℕ → Option A) (a : A)
      → for_return n i body ≡ some a
      → (k : ℕ) × (k < i + n) × (body k ≡ some a)
  unfolding for_return
  for_return_round zero i body a e = cc
  for_return_round (suc n) i body a e = elim (Option-cases (body i)) [
    | inl h ↦
        let (k, lt, r) = for_return_round n (i + 1) body a (sym (for_return_skip n i body h) ∙ e) in
        (k, omega arith, r)
    | inr (b, h) ↦ (i, omega arith, cc (h, e, for_return_stop n i body b h))
  ]

  -- A loop that ran to its end skipped every round.
  pub for_return-none :
      (n i k : ℕ) (body : ℕ → Option A)
      → for_return n i body ≡ none
      → i ≤ k
      → k < i + n
      → body k ≡ none
  unfolding for_return
  for_return-none zero i k body e lo hi = absurd (omega arith)
  for_return-none (suc n) i k body e lo hi = elim (Option-cases (body i)) [
    | inl h ↦ elim (eq-cases i k) [
      | inl same ↦ rw (← same) h
      | inr other ↦
          for_return-none n (i + 1) k body (sym (for_return_skip n i body h) ∙ e) (omega arith)
            (omega arith)
    ]
    | inr (b, h) ↦ cc (e, for_return_stop n i body b h)
  ]

-- A result may be worked on after the loop instead of in its body.
pub for_return-map :
    {A B : Type 0} (f : A → B) (n i : ℕ) (body : ℕ → Option A)
    → for_return n i (λ k. Option.map f (body k)) ≡ Option.map f (for_return n i body)
unfolding for_return
for_return-map f zero i body = refl
for_return-map f (suc n) i body = elim (Option-cases (body i)) [
  | inl h ↦
      for_return_skip n i (λ k. Option.map f (body k)) (ap (Option.map f) h)
      ∙ for_return-map f n (i + 1) body
      ∙ sym (ap (Option.map f) (for_return_skip n i body h))
  | inr (b, h) ↦
      for_return_stop n i (λ k. Option.map f (body k)) (f b) (ap (Option.map f) h)
      ∙ sym (ap (Option.map f) (for_return_stop n i body b h))
]
