-- ===== src/Frontend/Mlta/Narrow.antt =====
-- findCalleesWithMLTA returns, and its layers only take callees away.
use semalloc.Common.{
  ℕ, zero, suc, ◌+◌, ◌≤◌, ◌<◌, ◌≡◌, refl, sym, ◌∙◌, Bool, true, false, not, ◌&&◌, ◌||◌, Option,
  some, List, [], ◌∷◌, arith, inl, inr, ap, has, ltb, if◌then◌else◌, Bool-cases, Option-cases,
  eq-cases, List-cases, ◌⊎◌, update,
}
use semalloc.Frontend.Traverse.Ends.{total, IsDomain}
use semalloc.Frontend.Mlta.{
  TypeFacts, direct, Layers, ascending, intersect_func_sets, add_dependents, layer_targets,
  narrow_layer, match_layer, layer_loop, layer_rounds, first_layer, find_callees_with_mlta,
  get_targets_with_layer_type,
}
use semalloc.Frontend.Mlta.Dependent.{get_dependent_types-IsDependents}

pub intersect_func_sets-has :
    (fs1 fs2 : List ℕ) (f : ℕ) → has f (intersect_func_sets fs1 fs2) ≡ (has f fs1 && has f fs2)
unfolding intersect_func_sets
intersect_func_sets-has [] fs2 f = refl
intersect_func_sets-has (g ∷ fs1) fs2 f = elim (eq-cases g f) [
  | inl e ↦ ground (arith, intersect_func_sets-has fs1 fs2 f, ap (λ k. has k fs2) e)
  | inr ne ↦ ground (arith, intersect_func_sets-has fs1 fs2 f)
]

-- A step that keeps the callees and the number of the layer.
record Keeps (s u : Layers) : Type 0 where
  callees : u.callees ≡ s.callees
  layer_no : u.layer_no ≡ s.layer_no

-- A step that takes callees away, and does not go back to a lower layer.
pub record Narrows (s u : Layers) : Type 0 where
  pub fewer : (f : ℕ) → has f u.callees ≡ true → has f s.callees ≡ true
  pub later : s.layer_no ≤ u.layer_no

module _ (facts : TypeFacts) (ts : List ℕ) (dom : IsDomain (direct facts) ts) (fuel : ℕ)
    (enough : 1 + total (direct facts) ts ≤ fuel) where
  add_dependents-Keeps : (ps : List ℕ) (s : Layers) → Keeps s (add_dependents facts ps s)
  unfolding add_dependents
  add_dependents-Keeps [] s = record { callees = refl; layer_no = refl }
  add_dependents-Keeps (p ∷ ps) s =
      let k = add_dependents-Keeps ps _ in record { callees = k.callees; layer_no = k.layer_no }

  match_layer-Keeps :
      (t : ℕ) (s : Layers)
      → (u : Layers) × (go : Bool) × (match_layer facts fuel t s ≡ some (u, go)) × Keeps s u
  unfolding match_layer layer_targets
  match_layer-Keeps t s = elim (Option-cases (s.matched (facts.type_idx_hash t))) [
    | inr (cached, hit) ↦ (
      record s { fs1 = cached },
      true,
      rw (hit, match_layer) refl,
      record { callees = refl; layer_no = refl },
    )
    | inl miss ↦
        elim (Bool-cases (
          facts.type_escape (facts.type_idx_hash t)
          || facts.type_escape (facts.type_idx_hash (facts.any_field t)))) [
            | inl escapes ↦ (
              s,
              false,
              rw (miss, escapes, match_layer) refl,
              record { callees = refl; layer_no = refl },
            )
            | inr stays ↦
                let (d, e, _) = get_dependent_types-IsDependents facts ts dom fuel t enough in
                let first = record s { fs1 = get_targets_with_layer_type facts t s.fs1 } in
                let k = add_dependents-Keeps (ascending d.prop_set) first in
                let u = add_dependents facts (ascending d.prop_set) first in
                (
                  record u { matched = update u.matched (facts.type_idx_hash t) (some u.fs1) },
                  true,
                  rw (miss, stays, e, match_layer, layer_targets) refl,
                  record { callees = k.callees; layer_no = k.layer_no },
                )
          ]
  ]

  narrow_layer-Narrows :
      (t next : ℕ) (u : Layers)
      → ((f : ℕ) → has f (narrow_layer facts t next u).callees ≡ true → has f u.callees ≡ true)
        × ((narrow_layer facts t next u).layer_no ≡ u.layer_no)
  unfolding narrow_layer
  narrow_layer-Narrows t next u =
      (λ f h. ground (arith, intersect_func_sets-has u.fs1 u.callees f, h), refl)

  pub layer_loop-step :
      (t : ℕ) (tys : List ℕ) (next : ℕ) (s u : Layers)
      → ltb s.layer_no 10 ≡ true
      → match_layer facts fuel t (record s { layer_no = s.layer_no + 1 }) ≡ some (u, true)
      → let v = narrow_layer facts t next u in
        layer_loop facts fuel (t ∷ tys) next s
        ≡ (if facts.type_cap t then some (v, false) else layer_loop facts fuel tys next v)
  unfolding layer_loop
  layer_loop-step t tys next s u inside e = rw (inside, e, layer_loop) refl

  -- The loop goes up one layer at least, unless there is none or the limit is reached.
  layer_loop-Narrows :
      (tys : List ℕ) (next : ℕ) (s : Layers)
      → (u : Layers) × (go : Bool) × (layer_loop facts fuel tys next s ≡ some (u, go))
        × Narrows s u
        × ((tys ≡ []) ⊎ (10 ≤ s.layer_no) ⊎ (s.layer_no < u.layer_no))
  unfolding layer_loop
  layer_loop-Narrows [] next s =
      (s, true, refl, record { fewer = λ f h. h; later = omega arith }, inl refl)
  layer_loop-Narrows (t ∷ tys) next s = elim (Bool-cases (ltb s.layer_no 10)) [
    | inr top ↦ (
      s,
      true,
      rw (top, layer_loop) refl,
      record { fewer = λ f h. h; later = omega arith },
      inr (inl (ground (arith, top))),
    )
    | inl below ↦
        let (u, found, e, kept) = match_layer-Keeps t (record s { layer_no = s.layer_no + 1 }) in
        elim (Bool-cases found) [
          | inr left ↦ (
            u,
            true,
            rw (below, e, left, layer_loop) refl,
            record {
              fewer = λ f h. ap (has f) (sym kept.callees) ∙ h;
              later = omega (arith, kept.layer_no);
            },
            inr (inr (omega (arith, kept.layer_no))),
          )
          | inl matched ↦
              let v = narrow_layer facts t next u in
              let narrowed = narrow_layer-Narrows t next u in
              let less = λ (f : ℕ) (h : has f v.callees ≡ true).
                let there : has f s.callees ≡ true =
                  ap (has f) (sym kept.callees) ∙ narrowed.0 f h in
                there in
              let step = layer_loop-step t tys next s u below (e ∙ ap (λ b. some (u, b)) matched) in
              let either =
                λ (b : Bool). if b then some (v, false) else layer_loop facts fuel tys next v in
              elim (Bool-cases (facts.type_cap t)) [
                | inl capped ↦ (
                  v,
                  false,
                  step ∙ ap either capped,
                  record { fewer = less; later = omega (arith, kept.layer_no, narrowed.1) },
                  inr (inr (omega (arith, kept.layer_no, narrowed.1))),
                )
                | inr open' ↦
                    let (w, go, e', rest, _) = layer_loop-Narrows tys next v in
                    (
                      w,
                      go,
                      step ∙ ap either open' ∙ e',
                      record {
                        fewer = λ f h. less f (rest.fewer f h);
                        later = omega (arith, rest.later, kept.layer_no, narrowed.1);
                      },
                      inr (inr (omega (arith, rest.later, kept.layer_no, narrowed.1))),
                    )
              ]
        ]
  ]

  layer_rounds-Narrows :
      (n : ℕ) (s : Layers)
      → 10 ≤ n + s.layer_no
      → (u : Layers) × (layer_rounds facts fuel (suc n) s ≡ some u) × Narrows s u
  unfolding layer_rounds
  layer_rounds-Narrows zero s h =
      (s, rw (ends, layer_rounds) refl, record { fewer = λ f k. k; later = omega arith })
    where
      ends : (not (ltb s.layer_no 10) || s.prev_capped) ≡ true
      ends = ground arith
  layer_rounds-Narrows (suc n) s h =
      let stay : Narrows s s = record { fewer = λ f k. k; later = omega arith } in
      let (tys, next) = facts.next_layer s.value in
      elim (Bool-cases (not (ltb s.layer_no 10) || s.prev_capped)) [
        | inl ends ↦ (s, rw (ends, layer_rounds) refl, stay)
        | inr goes ↦ elim (List-cases tys) [
          | inl empty ↦ (s, rw (goes, empty, layer_rounds) refl, stay)
          | inr (t, ts', e) ↦
              let (u, go, r, less, up) = layer_loop-Narrows (t ∷ ts') next s in
              let higher : s.layer_no < u.layer_no = elim up [
                | inl none' ↦ absurd (ground (arith, none'))
                | inr (inl top) ↦ absurd (ground (arith, top, goes))
                | inr (inr more) ↦ more
              ] in
              elim (Bool-cases go) [
                | inl on ↦
                    let (w, r', less') = layer_rounds-Narrows n u (omega (arith, higher)) in
                    (
                      w,
                      rw (goes, e, r, on, layer_rounds) r',
                      record {
                        fewer = λ f k. less.fewer f (less'.fewer f k);
                        later = omega (arith, less.later, less'.later);
                      },
                    )
                | inr off ↦ (u, rw (goes, e, r, off, layer_rounds) refl, less)
              ]
        ]
      ]

  pub find_callees_with_mlta-cons :
      (call_hash operand g : ℕ) (gs : List ℕ) (capped : Bool) (matched : ℕ → Option (List ℕ))
      → facts.sig_funcs call_hash ≡ g ∷ gs
      → find_callees_with_mlta facts fuel call_hash operand capped matched
        ≡ layer_rounds facts fuel 10 (first_layer facts call_hash operand capped matched)
  unfolding find_callees_with_mlta
  find_callees_with_mlta-cons call_hash operand g gs capped matched e =
      let start = first_layer facts call_hash operand capped matched in
      let result = λ (l : List ℕ).
        let r : Option Layers = elim l [
          | [] ↦ some start
          | f ∷ fs ↦ layer_rounds facts fuel 10 start
        ] in
        r in
      ap result e

  -- Let the layers to which another one propagates be in a list, and the fuel one more than the number
  -- of these propagations. Then findCalleesWithMLTA returns within MAX_TYPE_LAYER rounds of its loop over
  -- layers, whatever the cache holds, and each callee that it finds is one of the functions whose
  -- addresses are taken that have the type of the call.
  pub find_callees_with_mlta-Narrows :
      (call_hash operand : ℕ) (capped : Bool) (matched : ℕ → Option (List ℕ))
      → (u : Layers) × (find_callees_with_mlta facts fuel call_hash operand capped matched ≡ some u)
        × ((f : ℕ) → has f u.callees ≡ true → has f (facts.sig_funcs call_hash) ≡ true)
  unfolding find_callees_with_mlta
  find_callees_with_mlta-Narrows call_hash operand capped matched =
      let start = first_layer facts call_hash operand capped matched in
      elim (List-cases (facts.sig_funcs call_hash)) [
        | inl empty ↦ (start, simp (empty, find_callees_with_mlta), λ f k. k)
        | inr (g, gs, e) ↦
            let (u, r, less) = layer_rounds-Narrows 9 start (omega arith) in
            (u, find_callees_with_mlta-cons call_hash operand g gs capped matched e ∙ r, less.fewer)
      ]
