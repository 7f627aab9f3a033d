-- ===== src/Frontend/Graph/Agreement.antt =====
-- The two maps that ConstructFinalCFG builds have the same calls.
use semalloc.Common.{
  ℕ, true, false, not, ◌&&◌, ◌||◌, ◌≡◌, refl, sym, ◌∙◌, ap, List, [], ◌∷◌, arith, inl, inr, ◌==◌,
  has, update, update_self, update_ne, eq-cases, Bool-cases,
}
use semalloc.Frontend.Graph.{
  Paths, Calls, push_back, flip_entry, flip_function_map, relevant_callers, relevant_callees,
  FinalCfg, construct_maps,
}

pub has-push_back : (q : ℕ) (ps : List ℕ) (p : ℕ) → has q (push_back ps p) ≡ (has q ps || (p == q))
has-push_back q [] p = ground arith
has-push_back q (x ∷ ps) p = ground (arith, has-push_back q ps p)

module _ (paths : Paths) where
  pub flip_entry-has :
      (ps : List ℕ) (flipped : Calls) (c q : ℕ)
      → has q (flip_entry paths ps flipped c)
        ≡ (has q (flipped c) || (has q ps && ((paths q).caller == c)))
  unfolding flip_entry
  flip_entry-has [] flipped c q = ground arith
  flip_entry-has (p ∷ ps) flipped c q =
      flip_entry-has ps (update flipped (paths p).caller (push_back (flipped (paths p).caller) p)) c
        q
      ∙ elim (eq-cases p q) [
        | inl s ↦ rw (← s) (elim (eq-cases (paths p).caller c) [
          | inl e ↦ ground (
            arith,
            e,
            has-push_back p (flipped (paths p).caller) p,
            ap (λ k. has p (flipped k)) e,
          )
          | inr ne ↦ ground arith
        ])
        | inr ne ↦ elim (eq-cases (paths p).caller c) [
          | inl e ↦ ground (
            arith,
            e,
            has-push_back q (flipped (paths p).caller) p,
            ap (λ k. has q (flipped k)) e,
          )
          | inr ne' ↦ ground arith
        ]
      ]

  relevant_callers-has :
      (relevant ps : List ℕ) (q : ℕ)
      → has q (relevant_callers paths relevant ps) ≡ (
          has q ps && (not ((paths q).caller == (paths q).callee) && has (paths q).caller relevant))
  unfolding relevant_callers
  relevant_callers-has relevant [] q = refl
  relevant_callers-has relevant (p ∷ ps) q = elim (eq-cases p q) [
    | inl e ↦ rw (← e) (ground (arith, relevant_callers-has relevant ps p))
    | inr ne ↦ ground (arith, relevant_callers-has relevant ps q)
  ]

  relevant_callees-has :
      (relevant ps : List ℕ) (q : ℕ)
      → has q (relevant_callees paths relevant ps) ≡ (
          has q ps && (not ((paths q).caller == (paths q).callee) && has (paths q).callee relevant))
  unfolding relevant_callees
  relevant_callees-has relevant [] q = refl
  relevant_callees-has relevant (p ∷ ps) q = elim (eq-cases p q) [
    | inl e ↦ rw (← e) (ground (arith, relevant_callees-has relevant ps p))
    | inr ne ↦ ground (arith, relevant_callees-has relevant ps q)
  ]

  -- A call in the flipped map was there, or is in an entry that was visited and belongs to its caller.
  pub flip_function_map-has :
      (function_map : Calls) (fs : List ℕ) (flipped : Calls) (c q : ℕ)
      → ((f p : ℕ) → has p (function_map f) ≡ true → (paths p).callee ≡ f)
      → has q (flip_function_map paths function_map fs flipped c) ≡ true
      → (has q (flipped c) || (has q (function_map (paths q).callee) && ((paths q).caller == c)))
        ≡ true
  unfolding flip_function_map
  flip_function_map-has function_map [] flipped c q keyed here = ground arith
  flip_function_map-has function_map (f ∷ fs) flipped c q keyed here =
      let rest =
        flip_function_map-has function_map fs (flip_entry paths (function_map f) flipped) c q keyed
          here in
      let entry = flip_entry-has (function_map f) flipped c q in
      elim (Bool-cases (has q (function_map f))) [
        | inl in' ↦
            let own = ap (λ k. has q (function_map k)) (keyed f q in') in
            ground (arith, rest, entry, own, in')
        | inr out ↦ ground (arith, rest, entry, out)
      ]

  construct_maps-rest :
      (function_map flipped : Calls) (relevant fs : List ℕ) (cfg : FinalCfg) (h : ℕ)
      → has h fs ≡ false
      → ((construct_maps paths function_map flipped relevant fs cfg).final_caller h
          ≡ cfg.final_caller h)
        × ((construct_maps paths function_map flipped relevant fs cfg).final_callee h
            ≡ cfg.final_callee h)
  unfolding construct_maps
  construct_maps-rest function_map flipped relevant [] cfg h out = (refl, refl)
  construct_maps-rest function_map flipped relevant (f ∷ fs) cfg h out =
      let (a, b) = construct_maps-rest function_map flipped relevant fs _ h (ground arith) in
      (
        a ∙ update_ne cfg.final_caller f h _ (ground arith),
        b ∙ update_ne cfg.final_callee f h _ (ground arith),
      )

  construct_maps-at :
      (function_map flipped : Calls) (relevant fs : List ℕ) (cfg : FinalCfg) (h : ℕ)
      → has h fs ≡ true
      → ((construct_maps paths function_map flipped relevant fs cfg).final_caller h
          ≡ relevant_callers paths relevant (function_map h))
        × ((construct_maps paths function_map flipped relevant fs cfg).final_callee h
            ≡ relevant_callees paths relevant (flipped h))
  unfolding construct_maps
  construct_maps-at function_map flipped relevant [] cfg h here = absurd (ground arith)
  construct_maps-at function_map flipped relevant (f ∷ fs) cfg h here =
      elim (Bool-cases (has h fs)) [
        | inl in' ↦ construct_maps-at function_map flipped relevant fs _ h in'
        | inr out ↦
            let same : f ≡ h = ground arith in
            let (a, b) = construct_maps-rest function_map flipped relevant fs _ h out in
            (
              a
                  ∙ ap
                      (λ k.
                        update cfg.final_caller f (relevant_callers paths relevant (function_map f))
                          k)
                      (sym same)
                  ∙ update_self cfg.final_caller f _
                  ∙ ap (λ k. relevant_callers paths relevant (function_map k)) same,
              b
                  ∙ ap
                      (λ k.
                        update cfg.final_callee f (relevant_callees paths relevant (flipped f)) k)
                      (sym same)
                  ∙ update_self cfg.final_callee f _
                  ∙ ap (λ k. relevant_callees paths relevant (flipped k)) same,
            )
      ]

  -- What the final maps have of a call, when the maps that they are built from fit together.
  pub construct_maps_callee :
      (function_map flipped : Calls) (relevant : List ℕ) (f q : ℕ)
      → let cfg =
          construct_maps paths function_map flipped relevant relevant
            (record { final_caller = λ _. []; final_callee = λ _. [] }) in
        ((h p : ℕ) → has p (flipped h) ≡ true → (paths p).caller ≡ h)
        → ((h p : ℕ) → has p (flipped h) ≡ true → has p (function_map (paths p).callee) ≡ true)
        → has f relevant ≡ true
        → has q (cfg.final_callee f) ≡ true
        → ((paths q).caller ≡ f)
          × (has (paths q).callee relevant ≡ true)
          × (((paths q).caller == (paths q).callee) ≡ false)
          × (has q (cfg.final_caller (paths q).callee) ≡ true)
          × (has q (flipped f) ≡ true)
  construct_maps_callee function_map flipped relevant f q caller called here in' =
      let none' : FinalCfg = record { final_caller = λ _. []; final_callee = λ _. [] } in
      let (a, b) = construct_maps-at function_map flipped relevant relevant none' f here in
      let kept : has q (relevant_callees paths relevant (flipped f)) ≡ true =
        ap (has q) (sym b) ∙ in' in
      let split : (has q (flipped f) ≡ true)
          × (((paths q).caller == (paths q).callee) ≡ false)
          × (has (paths q).callee relevant ≡ true) =
        ground (arith, relevant_callees-has relevant (flipped f) q, kept) in
      let own = caller f q split.0 in
      let (c, d) =
        construct_maps-at function_map flipped relevant relevant none' (paths q).callee split.2 in
      let caller_in : has (paths q).caller relevant ≡ true = ap (λ k. has k relevant) own ∙ here in
      (
        own,
        split.2,
        split.1,
        ap (has q) c
            ∙ ground (
              arith,
              relevant_callers-has relevant (function_map (paths q).callee) q,
              called f q split.0,
              split.1,
              caller_in,
            ),
        split.0,
      )

  pub construct_maps_caller :
      (function_map flipped : Calls) (relevant : List ℕ) (f q : ℕ)
      → let cfg =
          construct_maps paths function_map flipped relevant relevant
            (record { final_caller = λ _. []; final_callee = λ _. [] }) in
        ((h p : ℕ) → has p (function_map h) ≡ true → (paths p).callee ≡ h)
        → ((h p : ℕ) → has p (function_map h) ≡ true → has p (flipped (paths p).caller) ≡ true)
        → has f relevant ≡ true
        → has q (cfg.final_caller f) ≡ true
        → ((paths q).callee ≡ f)
          × (has q (cfg.final_callee (paths q).caller) ≡ true)
          × (has q (function_map f) ≡ true)
  construct_maps_caller function_map flipped relevant f q callee made here in' =
      let none' : FinalCfg = record { final_caller = λ _. []; final_callee = λ _. [] } in
      let (a, b) = construct_maps-at function_map flipped relevant relevant none' f here in
      let kept : has q (relevant_callers paths relevant (function_map f)) ≡ true =
        ap (has q) (sym a) ∙ in' in
      let split : (has q (function_map f) ≡ true)
          × (((paths q).caller == (paths q).callee) ≡ false)
          × (has (paths q).caller relevant ≡ true) =
        ground (arith, relevant_callers-has relevant (function_map f) q, kept) in
      let own = callee f q split.0 in
      let (c, d) =
        construct_maps-at function_map flipped relevant relevant none' (paths q).caller split.2 in
      let callee_in : has (paths q).callee relevant ≡ true = ap (λ k. has k relevant) own ∙ here in
      (
        own,
        ap (has q) d
            ∙ ground (
              arith,
              relevant_callees-has relevant (flipped (paths q).caller) q,
              made f q split.0,
              split.1,
              callee_in,
            ),
        split.0,
      )

  -- When each call in an entry of FunctionMap has the callee of the entry: a call that FinalCalleeMap,
  -- built from the flipped map, has for a relevant function is made by that function, goes to a
  -- relevant function that is another one, and FinalCallerMap has it for its callee.
  pub construct_maps_agree :
      (function_map : Calls) (visited relevant : List ℕ) (f q : ℕ)
      → let flipped = flip_function_map paths function_map visited (λ _. []) in
        let cfg =
          construct_maps paths function_map flipped relevant relevant
            (record { final_caller = λ _. []; final_callee = λ _. [] }) in
        ((h p : ℕ) → has p (function_map h) ≡ true → (paths p).callee ≡ h)
        → has f relevant ≡ true
        → has q (cfg.final_callee f) ≡ true
        → ((paths q).caller ≡ f)
          × (has (paths q).callee relevant ≡ true)
          × (((paths q).caller == (paths q).callee) ≡ false)
          × (has q (cfg.final_caller (paths q).callee) ≡ true)
  construct_maps_agree function_map visited relevant f q keyed here in' =
      let flipped = flip_function_map paths function_map visited (λ _. []) in
      let source = λ (h p : ℕ). flip_function_map-has function_map visited (λ _. []) h p keyed in
      let (a, b, c, d, _) =
        construct_maps_callee function_map flipped relevant f q
          (λ h p m. ground (arith, source h p m)) (λ h p m. ground (arith, source h p m)) here
          in' in
      (a, b, c, d)
