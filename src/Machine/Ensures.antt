-- ===== src/Machine/Ensures.antt =====
-- Postconditions of commands: of every run that comes to a result, and of a run that does.
use semalloc.Common.{◌≡◌, subst, Bool, true, false, refl, if◌then◌else◌}
use semalloc.Machine.{Run, ok, exits, fault, out_of_fuel, Cmd, and_then}

-- Partial correctness: a run that exits or faults says nothing.
abbrev pub Ensures : {S A : Type 0} → (A → S → Type 0) → Run S A → Type 0
Ensures P (ok a s) = P a s
Ensures P (exits e) = Unit {0}
Ensures P fault = Unit {0}
Ensures P out_of_fuel = Unit {0}

-- Total correctness: the run comes to a result.
abbrev pub Returns : {S A : Type 0} → (A → S → Type 0) → Run S A → Type 0
Returns P (ok a s) = P a s
Returns P (exits e) = ⊥
Returns P fault = ⊥
Returns P out_of_fuel = ⊥

module _ {S A : Type 0} where
  pub Ensures-ok :
      (P : A → S → Type 0) (r : Run S A) (a : A) (s : S) → Ensures P r → r ≡ ok a s → P a s
  Ensures-ok P r a s h e = subst (Ensures P) e h

  pub Returns-Ensures : (P : A → S → Type 0) (r : Run S A) → Returns P r → Ensures P r
  Returns-Ensures P (ok a s) h = h
  Returns-Ensures P (exits e) h = absurd h
  Returns-Ensures P fault h = absurd h
  Returns-Ensures P out_of_fuel h = absurd h

  pub Ensures-mono :
      (P Q : A → S → Type 0) (r : Run S A)
      → Ensures P r
      → ((a : A) (s : S) → P a s → Q a s)
      → Ensures Q r
  Ensures-mono P Q (ok a s) h f = f a s h
  Ensures-mono P Q (exits e) h f = tt
  Ensures-mono P Q fault h f = tt
  Ensures-mono P Q out_of_fuel h f = tt

  pub Returns-mono :
      (P Q : A → S → Type 0) (r : Run S A)
      → Returns P r
      → ((a : A) (s : S) → P a s → Q a s)
      → Returns Q r
  Returns-mono P Q (ok a s) h f = f a s h
  Returns-mono P Q (exits e) h f = h
  Returns-mono P Q fault h f = h
  Returns-mono P Q out_of_fuel h f = h

  pub Returns-and :
      (P Q : A → S → Type 0) (r : Run S A)
      → Returns P r
      → Ensures Q r
      → Returns (λ a s. P a s × Q a s) r
  Returns-and P Q (ok a s) h k = (h, k)
  Returns-and P Q (exits e) h k = h
  Returns-and P Q fault h k = h
  Returns-and P Q out_of_fuel h k = h

  pub Ensures-any : (r : Run S A) → Ensures (λ _ _. Unit {0}) r
  Ensures-any (ok a s) = tt
  Ensures-any (exits e) = tt
  Ensures-any fault = tt
  Ensures-any out_of_fuel = tt

module _ {S A B : Type 0} where
  -- A command of which only the last part matters.
  pub Ensures-last :
      (Q : B → S → Type 0) (r : Run S A) (k : A → Cmd S B)
      → ((a : A) (s : S) → Ensures Q (k a s))
      → Ensures Q (and_then r k)
  Ensures-last Q (ok a s) k f = f a s
  Ensures-last Q (exits e) k f = tt
  Ensures-last Q fault k f = tt
  Ensures-last Q out_of_fuel k f = tt

  pub Ensures-bind :
      (P : A → S → Type 0) (Q : B → S → Type 0) (r : Run S A) (k : A → Cmd S B)
      → Ensures P r
      → ((a : A) (s : S) → P a s → Ensures Q (k a s))
      → Ensures Q (and_then r k)
  Ensures-bind P Q (ok a s) k h f = f a s h
  Ensures-bind P Q (exits e) k h f = tt
  Ensures-bind P Q fault k h f = tt
  Ensures-bind P Q out_of_fuel k h f = tt

  pub Returns-bind :
      (P : A → S → Type 0) (Q : B → S → Type 0) (r : Run S A) (k : A → Cmd S B)
      → Returns P r
      → ((a : A) (s : S) → P a s → Returns Q (k a s))
      → Returns Q (and_then r k)
  Returns-bind P Q (ok a s) k h f = f a s h
  Returns-bind P Q (exits e) k h f = absurd h
  Returns-bind P Q fault k h f = absurd h
  Returns-bind P Q out_of_fuel k h f = absurd h

module _ {A : Type 0} where
  -- A test between two commands.
  pub Ensures-if :
      {S : Type 0} (Q : A → S → Type 0) (b : Bool) (m n : Cmd S A) (s : S)
      → (b ≡ true → Ensures Q (m s))
      → (b ≡ false → Ensures Q (n s))
      → Ensures Q ((if b then m else n) s)
  Ensures-if Q true m n s h k = h refl
  Ensures-if Q false m n s h k = k refl

  pub Returns-if :
      {S : Type 0} (Q : A → S → Type 0) (b : Bool) (m n : Cmd S A) (s : S)
      → (b ≡ true → Returns Q (m s))
      → (b ≡ false → Returns Q (n s))
      → Returns Q ((if b then m else n) s)
  Returns-if Q true m n s h k = h refl
  Returns-if Q false m n s h k = k refl
