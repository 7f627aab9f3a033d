-- ===== src/Common/Lists.antt =====
-- Lists of native numbers: membership as a test, and the pigeonhole lemma.
use Prim.Native.Nat.{ℕ, zero, suc, ◌+◌, ◌≤◌, ◌<◌}
use mathlib.Core.Path.{◌≡◌, refl, ap}
use mathlib.Core.Logic.{◌⊎◌, inl, inr}
use mathlib.Core.Bool.{Bool, true, false, ◌||◌}
use mathlib.Core.List.{List, [], ◌∷◌, ◌++◌}
use native.Mathlib.Omega.{arith}
use semalloc.Common.Tests.{◌==◌, if◌then◌else◌, Bool-cases, eq-cases}

abbrev pub length {ℓ} : {A : Type ℓ} → List A → ℕ
length [] = 0
length (x ∷ xs) = suc (length xs)

pub length-++ {ℓ} : {A : Type ℓ} (xs ys : List A) → length (xs ++ ys) ≡ length xs + length ys
length-++ [] ys = omega arith
length-++ (x ∷ xs) ys = omega (arith, length-++ xs ys)

abbrev pub has : ℕ → List ℕ → Bool
has a [] = false
has a (x ∷ xs) = (x == a) || has a xs

-- A set is the list of its elements.
abbrev pub insert : ℕ → List ℕ → List ℕ
insert a xs = if has a xs then xs else a ∷ xs

pub has-insert : (a b : ℕ) (xs : List ℕ) → has a (insert b xs) ≡ ((b == a) || has a xs)
has-insert a b xs = elim (Bool-cases (has b xs)) [
  | inl there ↦ elim (eq-cases b a) [
    | inl e ↦ ground (arith, there, ap (λ k. has k xs) e)
    | inr ne ↦ ground arith
  ]
  | inr out ↦ ground (arith, out)
]

pub List-cases : (xs : List ℕ) → (xs ≡ []) ⊎ ((x : ℕ) × (ys : List ℕ) × (xs ≡ x ∷ ys))
List-cases [] = inl refl
List-cases (x ∷ xs) = inr (x, xs, refl)

-- Every occurrence of a number removed.
abbrev pub without : ℕ → List ℕ → List ℕ
without a [] = []
without a (x ∷ xs) = if x == a then without a xs else x ∷ without a xs

length-without : (a : ℕ) (xs : List ℕ) → length (without a xs) ≤ length xs
length-without a [] = omega arith
length-without a (x ∷ xs) = ground (arith, length-without a xs)

length-without-has : (a : ℕ) (xs : List ℕ) → has a xs ≡ true → length (without a xs) < length xs
length-without-has a [] h = cc
length-without-has a (x ∷ xs) h = ground (arith, length-without-has a xs, length-without a xs)

has-without : (a b : ℕ) (xs : List ℕ) → a < b → has a (without b xs) ≡ has a xs
has-without a b [] h = refl
has-without a b (x ∷ xs) h = ground (arith, has-without a b xs)

-- A list shorter than `n` misses a number below `n`.
pub missing : (n : ℕ) (xs : List ℕ) → length xs < n → (j : ℕ) × (j < n) × (has j xs ≡ false)
missing zero xs h = absurd (omega arith)
missing (suc n) xs h = elim (Bool-cases (has n xs)) [
  | inr out ↦ (n, omega arith, out)
  | inl there ↦
      let (j, lt, out) = missing n (without n xs) (omega (arith, length-without-has n xs there)) in
      (j, omega arith, ground (arith, has-without j n xs))
]
