-- ===== src/Frontend/Cycles/Flip.antt =====
-- FlipFunctionMap of frontend/src/InstrumentIR.cc on the map of a call graph: each call stands once with
-- its caller.
use semalloc.Common.{
  ℕ, ◌≡◌, refl, sym, ◌∙◌, true, false, List, [], ◌∷◌, arith, inl, inr, ap, subst, has, update,
  update_self, update_ne, Bool-cases, eq-cases,
}
use semalloc.Frontend.Graph.{Paths, Calls, push_back, flip_entry, flip_function_map}
use semalloc.Frontend.Graph.Agreement.{flip_entry-has, flip_function_map-has}
use semalloc.Frontend.Weights.Layout.{AllDistinct}
use semalloc.Frontend.Cycles.Classify.{IsFlipped}
use semalloc.Frontend.Cycles.Naming.{AllDistinct-push_back}

module _ (paths : Paths) where
  flip_entry-AllDistinct :
      (ps : List ℕ) (flipped : Calls)
      → AllDistinct ps
      → ((c q : ℕ) → has q ps ≡ true → has q (flipped c) ≡ false)
      → ((c : ℕ) → AllDistinct (flipped c))
      → (c : ℕ) → AllDistinct (flip_entry paths ps flipped c)
  unfolding flip_entry
  flip_entry-AllDistinct [] flipped distinct fresh all = all
  flip_entry-AllDistinct (p ∷ ps) flipped distinct fresh all =
      let f = (paths p).caller in
      let longer = push_back (flipped f) p in
      flip_entry-AllDistinct ps (update flipped f longer) distinct.1
        (λ c q m.
          let other = flip_entry-has paths (p ∷ []) flipped c q in
          elim (eq-cases p q) [
            | inl e ↦ absurd (ground (arith, m, distinct.0, ap (λ k. has k ps) e))
            | inr ne ↦ ground (arith, other, fresh c q (ground (arith, m)))
          ])
        (λ c. elim (eq-cases f c) [
          | inl e ↦
              subst (λ k. AllDistinct (update flipped f longer k)) e
                (subst AllDistinct (sym (update_self flipped f longer))
                  (AllDistinct-push_back (flipped f) p (all f) (fresh f p (ground arith))))
          | inr ne ↦ subst AllDistinct (sym (update_ne flipped f c longer ne)) (all c)
        ])

  module _ (function_map : Calls)
      (keyed : (h p : ℕ) → has p (function_map h) ≡ true → (paths p).callee ≡ h) where
    flip_function_map-keeps :
        (fs : List ℕ) (flipped : Calls) (c q : ℕ)
        → has q (flipped c) ≡ true
        → has q (flip_function_map paths function_map fs flipped c) ≡ true
    unfolding flip_function_map
    flip_function_map-keeps [] flipped c q h = h
    flip_function_map-keeps (f ∷ fs) flipped c q h =
        flip_function_map-keeps fs (flip_entry paths (function_map f) flipped) c q
          (ground (arith, flip_entry-has paths (function_map f) flipped c q, h))

    flip_function_map-made :
        (fs : List ℕ) (flipped : Calls) (f q : ℕ)
        → has f fs ≡ true
        → has q (function_map f) ≡ true
        → has q (flip_function_map paths function_map fs flipped (paths q).caller) ≡ true
    unfolding flip_function_map
    flip_function_map-made [] flipped f q m c = cc
    flip_function_map-made (g ∷ gs) flipped f q m c = elim (Bool-cases (has f gs)) [
      | inl later ↦
          flip_function_map-made gs (flip_entry paths (function_map g) flipped) f q later c
      | inr now ↦
          let same : g ≡ f = ground arith in
          flip_function_map-keeps gs (flip_entry paths (function_map g) flipped) (paths q).caller q
            (ground (
              arith,
              flip_entry-has paths (function_map g) flipped (paths q).caller q,
              ap (λ k. has q (function_map k)) same,
              c,
            ))
    ]

    flip_function_map-AllDistinct :
        (fs : List ℕ) (flipped : Calls)
        → AllDistinct fs
        → ((f : ℕ) → AllDistinct (function_map f))
        → ((f c q : ℕ)
            → has f fs ≡ true
            → has q (function_map f) ≡ true
            → has q (flipped c) ≡ false)
        → ((c : ℕ) → AllDistinct (flipped c))
        → (c : ℕ) → AllDistinct (flip_function_map paths function_map fs flipped c)
    unfolding flip_function_map
    flip_function_map-AllDistinct [] flipped distinct once fresh all = all
    flip_function_map-AllDistinct (f ∷ fs) flipped distinct once fresh all =
        flip_function_map-AllDistinct fs (flip_entry paths (function_map f) flipped) distinct.1 once
          (λ g c q m here.
            let entry = flip_entry-has paths (function_map f) flipped c q in
            elim (Bool-cases (has q (function_map f))) [
              | inl twice ↦ absurd (
                  ground (
                    arith,
                    m,
                    distinct.0,
                    ap (λ k. has k fs) (sym (keyed f q twice) ∙ keyed g q here),
                  ))
              | inr out ↦ ground (arith, entry, out, fresh g c q (ground (arith, m)) here)
            ])
          (flip_entry-AllDistinct (function_map f) flipped (once f)
            (λ c q m. fresh f c q (ground arith) m) all)

    -- FlipFunctionMap, for a map in which each call stands once, with its callee, and whose keys are
    -- visited once each: each call stands once with its caller, and the two maps have the same calls.
    pub flip_function_map-IsFlipped :
        (fs : List ℕ)
        → AllDistinct fs
        → ((f : ℕ) → AllDistinct (function_map f))
        → ((f p : ℕ) → has p (function_map f) ≡ true → has f fs ≡ true)
        → IsFlipped paths function_map (flip_function_map paths function_map fs (λ _. []))
    flip_function_map-IsFlipped fs distinct once visited =
        let source = λ (h p : ℕ). flip_function_map-has paths function_map fs (λ _. []) h p keyed in
        record {
          callee = keyed;
          caller = λ f p c. ground (arith, source f p c);
          made = λ f p c. flip_function_map-made fs (λ _. []) f p (visited f p c) c;
          called = λ f p c. ground (arith, source f p c);
          calls_once = once;
          called_once =
              flip_function_map-AllDistinct fs (λ _. []) distinct once (λ f c q m h. refl)
                (λ c. tt);
        }
