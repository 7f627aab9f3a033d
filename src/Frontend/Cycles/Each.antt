-- ===== src/Frontend/Cycles/Each.antt =====
-- Loops that change each call of some lists on its own.
use semalloc.Common.{
  ℕ, ◌≡◌, refl, sym, ◌∙◌, true, false, Option, some, List, [], ◌∷◌, arith, inl, inr, ap, has,
  update, update_self, update_ne, Bool-cases, eq-cases,
}
use semalloc.Frontend.Graph.{Paths, CallPath, Calls}
use semalloc.Frontend.Weights.Layout.{AllDistinct}
use semalloc.Frontend.Cycles.{each_call, each_function}

-- When the change of each call in a list without repetitions is known, so is the outcome of the loop.
each_call-Changed :
    (f : CallPath → Option CallPath) (h : ℕ → CallPath) (ps : List ℕ) (paths : Paths)
    → AllDistinct ps
    → ((q : ℕ) → has q ps ≡ true → f (paths q) ≡ some (h q))
    → (paths' : Paths) × (each_call f ps paths ≡ some paths')
      × ((q : ℕ) → has q ps ≡ true → paths' q ≡ h q)
      × ((q : ℕ) → has q ps ≡ false → paths' q ≡ paths q)
unfolding each_call
each_call-Changed f h [] paths distinct known = (paths, refl, λ q m. cc, λ q m. refl)
each_call-Changed f h (p ∷ ps) paths distinct known =
    let (paths', returns, inside, outside) =
      each_call-Changed f h ps (update paths p (h p)) distinct.1 (λ q m. elim (eq-cases p q) [
        | inl e ↦ absurd (ground (arith, m, distinct.0, ap (λ k. has k ps) e))
        | inr ne ↦ ap f (update_ne paths p q (h p) ne) ∙ known q (ground (arith, m))
      ]) in
    (
      paths',
      rw (known p (ground arith), each_call) returns,
      λ q m. elim (eq-cases p q) [
        | inl e ↦ rw (← e) (outside p distinct.0 ∙ update_self paths p (h p))
        | inr ne ↦ inside q (ground arith)
      ],
      λ q m. outside q (ground arith) ∙ update_ne paths p q (h p) (λ e. ground (arith, e, m)),
    )

-- The calls of different functions are different ones.
pub each_function-Changed :
    (g : ℕ → CallPath → Option CallPath) (h : ℕ → CallPath) (owner : ℕ → ℕ) (calls : Calls)
    (fs : List ℕ) (paths : Paths)
    → AllDistinct fs
    → ((f : ℕ) → AllDistinct (calls f))
    → ((f q : ℕ) → has q (calls f) ≡ true → owner q ≡ f)
    → ((f q : ℕ) → has f fs ≡ true → has q (calls f) ≡ true → g f (paths q) ≡ some (h q))
    → (paths' : Paths) × (each_function g calls fs paths ≡ some paths')
      × ((f q : ℕ) → has f fs ≡ true → has q (calls f) ≡ true → paths' q ≡ h q)
      × ((q : ℕ) → ((f : ℕ) → has f fs ≡ true → has q (calls f) ≡ false) → paths' q ≡ paths q)
unfolding each_function
each_function-Changed g h owner calls [] paths distinct once owned known =
    (paths, refl, λ f q m c. cc, λ q out. refl)
each_function-Changed g h owner calls (e ∷ es) paths distinct once owned known =
    let (first, returns, inside, outside) =
      each_call-Changed (g e) h (calls e) paths (once e) (λ q c. known e q (ground arith) c) in
    let apart = λ (f q : ℕ) (m : has f es ≡ true) (c : has q (calls f) ≡ true).
      let other : has q (calls e) ≡ false = elim (Bool-cases (has q (calls e))) [
        | inr out ↦ out
        | inl there ↦ absurd (
            ground (arith, m, distinct.0, ap (λ k. has k es) (sym (owned e q there) ∙ owned f q c)))
      ] in
      other in
    let (paths', ends, within, without') =
      each_function-Changed g h owner calls es first distinct.1 once owned
        (λ f q m c. ap (g f) (outside q (apart f q m c)) ∙ known f q (ground (arith, m)) c) in
    (
      paths',
      rw (returns, each_function) ends,
      λ f q m c. elim (Bool-cases (has f es)) [
        | inl later ↦ within f q later c
        | inr now ↦
            let same : e ≡ f = ground arith in
            let here : has q (calls e) ≡ true = ap (λ k. has q (calls k)) same ∙ c in
            without' q (λ k m'. elim (Bool-cases (has q (calls k))) [
              | inr out ↦ out
              | inl there ↦ absurd (ground (arith, apart k q m' there, here))
            ])
            ∙ inside q here
      ],
      λ q out. without' q (λ k m. out k (ground (arith, m))) ∙ outside q (out e (ground arith)),
    )
