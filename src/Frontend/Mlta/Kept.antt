-- ===== src/Frontend/Mlta/Kept.antt =====
-- findCalleesWithMLTA keeps a function that is stored to the layers of the call.
use semalloc.Common.{
  ℕ, zero, suc, ◌+◌, ◌≤◌, ◌≡◌, sym, ◌∙◌, subst, Bool, true, false, not, ◌||◌, Option, some, List,
  [], ◌∷◌, arith, inl, inr, ap, has, ltb, if◌then◌else◌, Bool-cases, Option-cases, List-cases,
}
use semalloc.Frontend.Traverse.Ends.{total, IsDomain}
use semalloc.Frontend.Mlta.{
  TypeFacts, direct, Layers, ascending, get_targets_with_layer_type, add_dependents, layer_targets,
  narrow_layer, match_layer, layer_loop, layer_rounds, first_layer, find_callees_with_mlta,
}
use semalloc.Frontend.Mlta.Dependent.{get_dependent_types-IsDependents}
use semalloc.Frontend.Mlta.Targets.{ascending-has, end-Walk, add_dependents-keep}
use semalloc.Frontend.Mlta.Narrow.{
  intersect_func_sets-has, layer_loop-step, find_callees_with_mlta-cons,
  find_callees_with_mlta-Narrows,
}
use semalloc.Frontend.Mlta.Holding.{
  Chain, called, behind, OnChain, Targeted, Cached, Holds, Found, HoldsAfter, HoldsAtEnd,
  targets-more, add_dependents-more, add_dependents-Holds, update-has,
}

module _ (facts : TypeFacts) (ts : List ℕ) (dom : IsDomain (direct facts) ts) (fuel : ℕ)
    (enough : 1 + total (direct facts) ts ≤ fuel) (operand f : ℕ) where
  match_layer-Found :
      (t : ℕ) (s : Layers)
      → OnChain facts operand t
      → Targeted facts f t
      → Holds facts operand f s
      → Found facts operand f (match_layer facts fuel t s)
  unfolding match_layer layer_targets
  match_layer-Found t s on (x, path, stored) holds =
      elim (Option-cases (s.matched (facts.type_idx_hash t))) [
        | inr (cached, hit) ↦
            let there = holds.cache t cached on hit in
            rw (hit, match_layer)
              (
                record { value = holds.value; callee = holds.callee; cache = holds.cache },
                λ _. there,
              )
        | inl miss ↦
            elim (Bool-cases (
              facts.type_escape (facts.type_idx_hash t)
              || facts.type_escape (facts.type_idx_hash (facts.any_field t)))) [
                | inl escapes ↦ rw (miss, escapes, match_layer) (holds, λ h. cc)
                | inr stays ↦
                    let (d, e, found) =
                      get_dependent_types-IsDependents facts ts dom fuel t enough in
                    let first = record s { fs1 = get_targets_with_layer_type facts t s.fs1 } in
                    let ps = ascending d.prop_set in
                    let u = add_dependents facts ps first in
                    let there : has f u.fs1 ≡ true = elim (end-Walk facts path) [
                      | inl same ↦ add_dependents-keep facts ps first f (
                          targets-more facts t s.fs1 f (
                            subst (λ k. has f (get_targets_with_layer_type facts k []) ≡ true)
                              (sym same) stored))
                      | inr (y, before, c) ↦
                          add_dependents-more facts ps first x f
                            (ascending-has d.prop_set x ∙ found.complete y x before c) stored
                    ] in
                    let after = add_dependents-Holds facts operand f ps first (record {
                      value = holds.value;
                      callee = holds.callee;
                      cache = holds.cache;
                    }) in
                    rw (miss, stays, e, match_layer, layer_targets)
                      (
                        record {
                          value = after.value;
                          callee = after.callee;
                          cache = λ t' fs on' e'.
                              update-has facts f u.matched (facts.type_idx_hash t)
                                (facts.type_idx_hash t') u.fs1 fs there (after.cache t' fs on') e';
                        },
                        λ _. there,
                      )
              ]
      ]

  narrow_layer-Holds :
      (t next : ℕ) (u : Layers)
      → Chain facts operand next
      → Holds facts operand f u
      → has f u.fs1 ≡ true
      → Holds facts operand f (narrow_layer facts t next u)
  unfolding narrow_layer
  narrow_layer-Holds t next u chain holds there = record {
    value = chain;
    callee = ground (arith, intersect_func_sets-has u.fs1 u.callees f, there, holds.callee);
    cache = holds.cache;
  }

  layer_loop-Holds :
      (tys : List ℕ) (next : ℕ) (s : Layers)
      → ((t : ℕ) → has t tys ≡ true → OnChain facts operand t)
      → ((t : ℕ) → OnChain facts operand t → Targeted facts f t)
      → Chain facts operand next
      → Holds facts operand f s
      → HoldsAfter facts operand f (layer_loop facts fuel tys next s)
  unfolding layer_loop
  layer_loop-Holds [] next s on targeted chain holds = holds
  layer_loop-Holds (t ∷ tys) next s on targeted chain holds =
      elim (Bool-cases (ltb s.layer_no 10)) [
        | inr top ↦ rw (top, layer_loop) holds
        | inl below ↦
            let up = record s { layer_no = s.layer_no + 1 } in
            let found =
              match_layer-Found t up (on t (ground arith)) (targeted t (on t (ground arith)))
                (record { value = holds.value; callee = holds.callee; cache = holds.cache }) in
            elim (Option-cases (match_layer facts fuel t up)) [
              | inl none' ↦ rw (below, none', layer_loop) tt
              | inr ((u, go), e) ↦
                  let (kept, there) = subst (Found facts operand f) e found in
                  elim (Bool-cases go) [
                    | inr off ↦ rw (below, e, off, layer_loop) kept
                    | inl more ↦
                        let v = narrow_layer facts t next u in
                        let less = narrow_layer-Holds t next u chain kept (there more) in
                        let step =
                          layer_loop-step facts ts dom fuel enough t tys next s u below
                            (e ∙ ap (λ b. some (u, b)) more) in
                        let either = λ (b : Bool).
                          if b then some (v, false) else layer_loop facts fuel tys next v in
                        subst (HoldsAfter facts operand f) (sym step)
                          (elim (Bool-cases (facts.type_cap t)) [
                            | inl capped ↦
                                subst (λ b. HoldsAfter facts operand f (either b)) (sym capped) less
                            | inr open' ↦
                                subst (λ b. HoldsAfter facts operand f (either b)) (sym open')
                                  (layer_loop-Holds tys next v (λ k m. on k (ground (arith, m)))
                                    targeted chain less)
                          ])
                  ]
            ]
      ]

  layer_rounds-Holds :
      (n : ℕ) (s : Layers)
      → ((t : ℕ) → OnChain facts operand t → Targeted facts f t)
      → Holds facts operand f s
      → HoldsAtEnd facts operand f (layer_rounds facts fuel n s)
  unfolding layer_rounds
  layer_rounds-Holds zero s targeted holds = tt
  layer_rounds-Holds (suc n) s targeted holds =
      let (tys, next) = facts.next_layer s.value in
      elim (Bool-cases (not (ltb s.layer_no 10) || s.prev_capped)) [
        | inl ends ↦ rw (ends, layer_rounds) holds
        | inr goes ↦ elim (List-cases tys) [
          | inl empty ↦ rw (goes, empty, layer_rounds) holds
          | inr (t, ts', e) ↦
              let after =
                layer_loop-Holds (t ∷ ts') next s (λ k m. (s.value, holds.value, ap (has k) e ∙ m))
                  targeted (behind holds.value) holds in
              elim (Option-cases (layer_loop facts fuel (t ∷ ts') next s)) [
                | inl none' ↦ rw (goes, e, none', layer_rounds) tt
                | inr ((u, go), r) ↦
                    let kept = subst (HoldsAfter facts operand f) r after in
                    elim (Bool-cases go) [
                      | inl on ↦
                          rw (goes, e, r, on, layer_rounds) (layer_rounds-Holds n u targeted kept)
                      | inr off ↦ rw (goes, e, r, off, layer_rounds) kept
                    ]
              ]
        ]
      ]

  -- Let the layers to which another one propagates be in a list, and the fuel one more than the number
  -- of these propagations. Take a function of the type of the call whose address is taken, that for
  -- each layer of the call is stored to the layer or to one that propagates to it, directly or through
  -- others; for any of these a store to the index -1 of its type counts too, and a store to any index of
  -- its type if it has the index -1. Propagations to the index -1 of the type of a layer count as ones
  -- to the layer. Let the cache have the function for each layer of the call that it has a set for.
  -- Then findCalleesWithMLTA returns, the function is one of the callees, and the cache is as before in
  -- this respect.
  pub find_callees_with_mlta_keeps :
      (call_hash : ℕ) (capped : Bool) (matched : ℕ → Option (List ℕ))
      → has f (facts.sig_funcs call_hash) ≡ true
      → ((t : ℕ) → OnChain facts operand t → Targeted facts f t)
      → Cached facts operand f matched
      → (u : Layers) × (find_callees_with_mlta facts fuel call_hash operand capped matched ≡ some u)
        × (has f u.callees ≡ true)
        × Cached facts operand f u.matched
  find_callees_with_mlta_keeps call_hash capped matched callee targeted cached =
      let (u, r, _) =
        find_callees_with_mlta-Narrows facts ts dom fuel enough call_hash operand capped matched in
      let start = first_layer facts call_hash operand capped matched in
      let holds : Holds facts operand f start = record {
        value = called;
        callee = callee;
        cache = cached;
      } in
      let kept : Holds facts operand f u = elim (List-cases (facts.sig_funcs call_hash)) [
        | inl empty ↦ absurd (ground (arith, callee, ap (has f) empty))
        | inr (g, gs, e) ↦
            subst (HoldsAtEnd facts operand f)
              (sym (
                  find_callees_with_mlta-cons facts ts dom fuel enough call_hash operand g gs capped
                    matched e)
                ∙ r)
              (layer_rounds-Holds 10 start targeted holds)
      ] in
      (u, r, kept.callee, kept.cache)
