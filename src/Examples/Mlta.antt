-- ===== src/Examples/Mlta.antt =====
-- An indirect call through a field. The functions 1, 2 and 3 have its type; 1 is stored to its field,
-- the layer 11, and 2 to a field of another type, the layer 21, that propagates to it.
use semalloc.Common.{
  ℕ, ◌≡◌, ◌==◌, true, false, none, some, List, [], ◌∷◌, if◌then◌else◌, refl, has, arith, ◌⊎◌, inl,
  inr, ap, subst, eq-cases,
}
use semalloc.Frontend.Traverse.Ends.{IsDomain}
use semalloc.Frontend.Mlta.{
  TypeFacts, direct, Dependents, Layers, first_layer, get_targets_with_layer_type,
  get_dependent_types, layer_targets, find_callees_with_mlta,
}
use semalloc.Frontend.Mlta.Dependent.{IsDependents, get_dependent_types-IsDependents}
use semalloc.Frontend.Mlta.Holding.{OnChain, Targeted, Cached}
use semalloc.Frontend.Mlta.Kept.{find_callees_with_mlta_keeps}
use semalloc.Frontend.Mlta.Targets.{Stored, layer_targets-Stored}
use semalloc.Frontend.Traverse.Sound.{Walk, self, onward}
use semalloc.Frontend.Mlta.Narrow.{find_callees_with_mlta-Narrows}

abbrev facts : TypeFacts
facts = record {
  sig_funcs = λ _. 1 ∷ 2 ∷ 3 ∷ [];
  layer_funcs = λ t. if t == 11 then 1 ∷ [] else if t == 21 then 2 ∷ [] else [];
  fields = λ t. if t == 10 then 11 ∷ [] else 21 ∷ [];
  any_field = λ t. if t == 11 then 10 else 20;
  is_any = λ t. if t == 10 then true else t == 20;
  props = λ t. if t == 11 then 21 ∷ [] else [];
  type_cap = λ _. false;
  type_escape = λ _. false;
  type_idx_hash = λ t. t;
  next_layer = λ v. if v == 5 then (11 ∷ [], 6) else ([], 6);
}

abbrev layers : List ℕ
layers = 11 ∷ []

layers-IsDomain : IsDomain (direct facts) layers
layers-IsDomain t out = ground arith

-- Function 3 is no target of the call.
find_callees_with_mlta-facts :
    (u : Layers) × (find_callees_with_mlta facts 2 0 5 false (λ _. none) ≡ some u)
    × (has 1 u.callees ≡ true)
    × (has 2 u.callees ≡ true)
    × (has 3 u.callees ≡ false)
unfolding find_callees_with_mlta
find_callees_with_mlta-facts = (_, refl, refl, refl, refl)

get_dependent_types-IsDependents_example :
    (d : Dependents) × (get_dependent_types facts 2 11 ≡ some d) × IsDependents facts 11 d
get_dependent_types-IsDependents_example =
    get_dependent_types-IsDependents facts layers layers-IsDomain 2 11 (omega arith)

find_callees_with_mlta-Narrows_example :
    (u : Layers) × (find_callees_with_mlta facts 2 0 5 false (λ _. none) ≡ some u)
    × ((f : ℕ) → has f u.callees ≡ true → has f (1 ∷ 2 ∷ 3 ∷ []) ≡ true)
find_callees_with_mlta-Narrows_example =
    find_callees_with_mlta-Narrows facts layers layers-IsDomain 2 (omega arith) 0 5 false
      (λ _. none)

-- No layer has the index -1 among those that propagate to the layer 11.
plain : (x : ℕ) → Walk (λ k. k) (direct facts) 11 x → facts.is_any x ≡ false
plain x path = elim (reached x path) [ inl e ↦ ap facts.is_any e | inr e ↦ ap facts.is_any e ]
  where
    reached : (x : ℕ) → Walk (λ k. k) (direct facts) 11 x → (x ≡ 11) ⊎ (x ≡ 21)
    reached x self = inl refl
    reached x (onward {f} y before c) = elim (reached f before) [
      | inl e ↦ inr (ground (arith, ap (λ k. has x (direct facts k)) e, c))
      | inr e ↦ absurd (ground (arith, ap (λ k. has x (direct facts k)) e, c))
    ]

layer_targets-Stored_example :
    let s = first_layer facts 0 5 false (λ _. none) in
    (u : Layers) × (layer_targets facts 2 11 s ≡ some u)
    × (u.matched 11 ≡ some u.fs1)
    × ((f : ℕ)
        → has f u.fs1 ≡ true
        → (x : ℕ) × Walk (λ k. k) (direct facts) 11 x × Stored facts x f)
    × ((x f : ℕ) → Walk (λ k. k) (direct facts) 11 x → Stored facts x f → has f u.fs1 ≡ true)
layer_targets-Stored_example =
    layer_targets-Stored facts layers layers-IsDomain 2 (omega arith) 11
      (first_layer facts 0 5 false (λ _. none)) plain

-- The layer of the call is 11, and 2 is stored to the layer 21 that propagates to it.
targeted : (t : ℕ) → OnChain facts 5 t → Targeted facts 2 t
unfolding get_targets_with_layer_type
targeted t (v, chain, h) = elim (eq-cases v 5) [
  | inl e ↦
      let only = ap (λ k. has t (facts.next_layer k).0) e in
      let same : 11 ≡ t = ground (arith, only, h) in
      subst (Targeted facts 2) same (21, onward 21 self refl, refl)
  | inr ne ↦ absurd (ground (arith, h))
]

find_callees_with_mlta_keeps_example :
    (u : Layers) × (find_callees_with_mlta facts 2 0 5 false (λ _. none) ≡ some u)
    × (has 2 u.callees ≡ true)
    × Cached facts 5 2 u.matched
find_callees_with_mlta_keeps_example =
    find_callees_with_mlta_keeps facts layers layers-IsDomain 2 (omega arith) 5 2 0 false
      (λ _. none) refl targeted (λ t fs on e. cc)
