-- ===== src/Frontend/Mlta.antt =====
-- The multi-layer type analysis of an indirect call: findCalleesWithMLTA, getTargetsWithLayerType,
-- getDependentTypes and intersectFuncSets of frontend/src/MLTA.cc. A layer, the pair of a type and an
-- index, is a number, in the order of the pairs, and a set of functions is the list of its elements. The counters, which are only
-- printed, are left out.
pub mod Dependent
pub mod Holding
pub mod Kept
pub mod Narrow
pub mod Targets
use semalloc.Common.{
  ℕ, zero, suc, ◌+◌, Bool, true, false, not, ◌&&◌, ◌||◌, Option, none, some, List, [], ◌∷◌, ◌++◌,
  has, insert, ltb, if◌then◌else◌, update,
}
use semalloc.Frontend.Marking.{insert_all}

-- What doInitialization collects from the modules: sigFuncsMap by the hash of a call, typeIdxFuncsMap,
-- its keys of one type, the layer of the index -1 of the same type, typeIdxPropMap, typeCapSet and
-- typeEscapeSet; and typeIdxHash. `next_layer` is what nextLayerBaseType reads off a value.
pub record TypeFacts : Type 0 where
  pub sig_funcs : ℕ → List ℕ
  pub layer_funcs : ℕ → List ℕ
  pub fields : ℕ → List ℕ
  pub any_field : ℕ → ℕ
  pub is_any : ℕ → Bool
  pub props : ℕ → List ℕ
  pub type_cap : ℕ → Bool
  pub type_escape : ℕ → Bool
  pub type_idx_hash : ℕ → ℕ
  pub next_layer : ℕ → List ℕ × ℕ

unfoldable pub intersect_func_sets : List ℕ → List ℕ → List ℕ
intersect_func_sets [] fs2 = []
intersect_func_sets (f ∷ fs1) fs2 =
    let rest = intersect_func_sets fs1 fs2 in if has f fs2 then f ∷ rest else rest

unfoldable pub insert_fields : (ℕ → List ℕ) → List ℕ → List ℕ → List ℕ
unfolding insert_all
insert_fields layer_funcs [] fs = fs
insert_fields layer_funcs (t ∷ ts) fs = insert_fields layer_funcs ts (insert_all (layer_funcs t) fs)

-- The targets of one layer. For the index -1 they are added to the set that is given.
unfoldable pub get_targets_with_layer_type : TypeFacts → ℕ → List ℕ → List ℕ
unfolding insert_fields insert_all
get_targets_with_layer_type facts t fs =
    if facts.is_any t
    then insert_fields facts.layer_funcs (facts.fields t) fs
    else insert_all (facts.layer_funcs (facts.any_field t)) (facts.layer_funcs t)

-- The worklist of getDependentTypes.
pub record Dependents : Type 0 where
  pub todo : List ℕ
  pub visited : List ℕ
  pub prop_set : List ℕ

-- The layers that propagate to a layer, or to the index -1 of its type.
abbrev pub direct : TypeFacts → ℕ → List ℕ
direct facts t = facts.props t ++ facts.props (facts.any_field t)

unfoldable pub dependent_round : TypeFacts → ℕ → Dependents → Dependents
unfolding insert_all
dependent_round facts t s = if has t s.visited then s else record {
  todo = s.todo ++ direct facts t;
  visited = t ∷ s.visited;
  prop_set = insert_all (direct facts t) s.prop_set;
}

unfoldable pub dependent_rounds : TypeFacts → ℕ → Dependents → Option Dependents
unfolding dependent_round
dependent_rounds facts zero s = elim s.todo [ [] ↦ some s | t ∷ ts ↦ none ]
dependent_rounds facts (suc n) s = elim s.todo [
  | [] ↦ some s
  | t ∷ ts ↦ dependent_rounds facts n (dependent_round facts t (record s { todo = ts }))
]

unfoldable pub get_dependent_types : TypeFacts → ℕ → ℕ → Option Dependents
unfolding dependent_rounds
get_dependent_types facts fuel t =
    dependent_rounds facts fuel (record { todo = t ∷ []; visited = []; prop_set = [] })

-- LayerNo, FS, FS1 and FS2, CV, whether PrevLayerTy is in typeCapSet, and MatchedFuncsMap.
pub record Layers : Type 0 where
  pub layer_no : ℕ
  pub callees : List ℕ
  pub fs1 : List ℕ
  pub fs2 : List ℕ
  pub value : ℕ
  pub prev_capped : Bool
  pub matched : ℕ → Option (List ℕ)

-- The targets of the dependent layers come in through FS2.
unfoldable pub add_dependents : TypeFacts → List ℕ → Layers → Layers
unfolding get_targets_with_layer_type insert_all
add_dependents facts [] s = s
add_dependents facts (t ∷ ts) s =
    let targets = get_targets_with_layer_type facts t s.fs2 in
    add_dependents facts ts (record s { fs2 = targets; fs1 = insert_all targets s.fs1 })

unfoldable pub insert_sorted : ℕ → List ℕ → List ℕ
insert_sorted t [] = t ∷ []
insert_sorted t (u ∷ us) = let rest = insert_sorted t us in if ltb u t then u ∷ rest else t ∷ u ∷ us

-- PropSet is ordered, and the first of its layers can take the functions in that are in FS2 already.
unfoldable pub ascending : List ℕ → List ℕ
unfolding insert_sorted
ascending [] = []
ascending (t ∷ ts) = insert_sorted t (ascending ts)

unfoldable pub layer_targets : TypeFacts → (fuel t : ℕ) → Layers → Option Layers
unfolding get_targets_with_layer_type get_dependent_types add_dependents ascending
layer_targets facts fuel t s = elim (get_dependent_types facts fuel t) [
  | none ↦ none
  | some d ↦
      let u =
        add_dependents facts (ascending d.prop_set)
          (record s { fs1 = get_targets_with_layer_type facts t s.fs1 }) in
      some (record u { matched = update u.matched (facts.type_idx_hash t) (some u.fs1) })
]

unfoldable pub narrow_layer : TypeFacts → (t next : ℕ) → Layers → Layers
unfolding intersect_func_sets
narrow_layer facts t next s =
    let fs = intersect_func_sets s.fs1 s.callees in
    record s { callees = fs; fs2 = fs; value = next; prev_capped = facts.type_cap t }

abbrev pub max_type_layer : ℕ
max_type_layer = 10

-- FS1 for one layer, from the cache or made; `inl` is the break of a type that escapes.
unfoldable pub match_layer : TypeFacts → (fuel t : ℕ) → Layers → Option (Layers × Bool)
unfolding layer_targets
match_layer facts fuel t s = elim (s.matched (facts.type_idx_hash t)) [
  | some cached ↦ some (record s { fs1 = cached }, true)
  | none ↦
      if facts.type_escape (facts.type_idx_hash t)
        || facts.type_escape (facts.type_idx_hash (facts.any_field t))
      then some (s, false)
      else elim (layer_targets facts fuel t s) [ none ↦ none | some u ↦ some (u, true) ]
]

-- The loop over the layers of one value. The flag is ContinueNextLayer.
unfoldable pub layer_loop : TypeFacts → ℕ → List ℕ → ℕ → Layers → Option (Layers × Bool)
unfolding match_layer narrow_layer
layer_loop facts fuel [] next s = some (s, true)
layer_loop facts fuel (t ∷ ts) next s =
    if ltb s.layer_no max_type_layer
    then elim (match_layer facts fuel t (record s { layer_no = s.layer_no + 1 })) [
      | none ↦ none
      | some (u, found) ↦
          let v = narrow_layer facts t next u in
          let rest = layer_loop facts fuel ts next v in
          if not found then some (u, true) else (if facts.type_cap t then some (v, false) else rest)
    ]
    else some (s, true)

-- The while loop; each round but the last goes up one layer at least.
unfoldable pub layer_rounds : TypeFacts → ℕ → ℕ → Layers → Option Layers
unfolding layer_loop
layer_rounds facts fuel zero s = none
layer_rounds facts fuel (suc n) s =
    if not (ltb s.layer_no max_type_layer) || s.prev_capped
    then some s
    else let (tys, next) = facts.next_layer s.value in
      elim tys [
        | [] ↦ some s
        | t ∷ ts ↦ elim (layer_loop facts fuel (t ∷ ts) next s) [
          | none ↦ none
          | some (u, go) ↦ if go then layer_rounds facts fuel n u else some u
        ]
      ]

-- The state before the first layer, with the callees by the hash of the call.
abbrev pub first_layer :
    TypeFacts → (call_hash operand : ℕ) → (capped : Bool) → (ℕ → Option (List ℕ)) → Layers
first_layer facts call_hash operand capped matched = record {
  layer_no = 1;
  callees = facts.sig_funcs call_hash;
  fs1 = [];
  fs2 = [];
  value = operand;
  prev_capped = capped;
  matched = matched;
}

-- The callees of a call by its hash and its called operand, and the cache.
unfoldable pub find_callees_with_mlta :
    TypeFacts
    → (fuel call_hash operand : ℕ) → (capped : Bool) → (ℕ → Option (List ℕ))
    → Option Layers
unfolding layer_rounds
find_callees_with_mlta facts fuel call_hash operand capped matched =
    let start = first_layer facts call_hash operand capped matched in
    elim (facts.sig_funcs call_hash) [
      | [] ↦ some start
      | f ∷ fs ↦ layer_rounds facts fuel max_type_layer start
    ]
