-- ===== src/Common/Update.antt =====
-- Arrays as functions from the index; a write gives the function with one value changed.
use Prim.Native.Nat.{ℕ}
use mathlib.Core.Path.{◌≡◌, sym, ◌∙◌, fun_ext}
use mathlib.Core.Logic.{◌≢◌, inl, inr}
use native.Mathlib.Omega.{arith}
use semalloc.Common.Tests.{◌==◌, if◌then◌else◌, eq-cases}

module _ {ℓ} {A : Type ℓ} where
  abbrev pub update : (ℕ → A) → ℕ → A → ℕ → A
  update f i v j = if i == j then v else f j

  pub update_self : (f : ℕ → A) (i : ℕ) (v : A) → update f i v i ≡ v
  update_self f i v = ground arith

  pub update_ne : (f : ℕ → A) (i j : ℕ) (v : A) → i ≢ j → update f i v j ≡ f j
  update_ne f i j v h = ground arith

  -- Of two writes at one place the second counts.
  pub update_twice : (f : ℕ → A) (i : ℕ) (v w : A) → update (update f i v) i w ≡ update f i w
  update_twice f i v w = fun_ext λ j. elim (eq-cases i j) [
    | inl e ↦ rw (← e) (update_self (update f i v) i w ∙ sym (update_self f i w))
    | inr ne ↦ update_ne (update f i v) i j w ne ∙ update_ne f i j v ne ∙ sym (update_ne f i j w ne)
  ]
