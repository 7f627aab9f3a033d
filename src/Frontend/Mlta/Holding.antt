-- ===== src/Frontend/Mlta/Holding.antt =====
-- The layers of a call, and a function that is stored to them, in findCalleesWithMLTA.
use semalloc.Common.{
  ℕ, ◌≡◌, sym, ◌∙◌, subst, Bool, true, Option, none, some, List, [], ◌∷◌, arith, inl, inr, ap, has,
  if◌then◌else◌, Bool-cases, eq-cases, update, update_self, update_ne,
}
use semalloc.Frontend.Marking.{insert_all}
use semalloc.Frontend.Marking.Relevant.{has-insert_all}
use semalloc.Frontend.Traverse.Sound.{Walk}
use semalloc.Frontend.Mlta.{
  TypeFacts, direct, Layers, insert_fields, get_targets_with_layer_type, add_dependents,
}
use semalloc.Frontend.Mlta.Targets.{add_dependents-keep}

-- The values that the loop over layers comes to from the called operand.
pub data Chain (facts : TypeFacts) (operand : ℕ) : ℕ → Type 0 where
  called : Chain facts operand operand
  behind : {v : ℕ} → Chain facts operand v → Chain facts operand (facts.next_layer v).1

-- A layer of one of these values.
abbrev pub OnChain : TypeFacts → (operand t : ℕ) → Type 0
OnChain facts operand t = (v : ℕ) × Chain facts operand v × (has t (facts.next_layer v).0 ≡ true)

-- A function that is stored to a layer or to one that propagates to it. A store to the index -1 of its
-- type counts for a layer, and for a layer of the index -1 one to any index of its type.
abbrev pub Targeted : TypeFacts → (f t : ℕ) → Type 0
Targeted facts f t =
    (x : ℕ) × Walk (λ k. k) (direct facts) t x
    × (has f (get_targets_with_layer_type facts x []) ≡ true)

-- The cache has the function for each layer of the call that it has a set for.
abbrev pub Cached : TypeFacts → (operand f : ℕ) → (ℕ → Option (List ℕ)) → Type 0
Cached facts operand f matched =
    (t : ℕ) (fs : List ℕ)
    → OnChain facts operand t
    → matched (facts.type_idx_hash t) ≡ some fs
    → has f fs ≡ true

pub record Holds (facts : TypeFacts) (operand f : ℕ) (s : Layers) : Type 0 where
  pub value : Chain facts operand s.value
  pub callee : has f s.callees ≡ true
  pub cache : Cached facts operand f s.matched

-- The function is in FS1 unless the type escapes.
abbrev pub Found : TypeFacts → (operand f : ℕ) → Option (Layers × Bool) → Type 0
Found facts operand f none = Unit
Found facts operand f (some (u, found)) =
    Holds facts operand f u × (found ≡ true → has f u.fs1 ≡ true)

abbrev pub HoldsAfter : TypeFacts → (operand f : ℕ) → Option (Layers × Bool) → Type 0
HoldsAfter facts operand f none = Unit
HoldsAfter facts operand f (some (u, go)) = Holds facts operand f u

abbrev pub HoldsAtEnd : TypeFacts → (operand f : ℕ) → Option Layers → Type 0
HoldsAtEnd facts operand f none = Unit
HoldsAtEnd facts operand f (some u) = Holds facts operand f u

module _ (facts : TypeFacts) where
  insert_fields_mono :
      (ts set set' : List ℕ) (f : ℕ)
      → (has f set ≡ true → has f set' ≡ true)
      → has f (insert_fields facts.layer_funcs ts set) ≡ true
      → has f (insert_fields facts.layer_funcs ts set') ≡ true
  unfolding insert_fields
  insert_fields_mono [] set set' f more h = more h
  insert_fields_mono (t ∷ ts) set set' f more h =
      insert_fields_mono ts _ _ f
        (λ k. elim (Bool-cases (has f (facts.layer_funcs t))) [
          | inl new ↦ ground (arith, new, has-insert_all (facts.layer_funcs t) set' f)
          | inr old ↦
              has-insert_all (facts.layer_funcs t) set' f
              ∙ ground (
                arith,
                old,
                more (ground (arith, old, k, has-insert_all (facts.layer_funcs t) set f)),
              )
        ])
        h

  pub targets-more :
      (t : ℕ) (fs : List ℕ) (f : ℕ)
      → has f (get_targets_with_layer_type facts t []) ≡ true
      → has f (get_targets_with_layer_type facts t fs) ≡ true
  unfolding get_targets_with_layer_type
  targets-more t fs f h = elim (Bool-cases (facts.is_any t)) [
    | inl any ↦
        rw (any, get_targets_with_layer_type)
          (insert_fields_mono (facts.fields t) [] fs f (λ k. cc)
            (subst
              (λ b.
                has f (
                  if b
                  then insert_fields facts.layer_funcs (facts.fields t) []
                  else insert_all (facts.layer_funcs (facts.any_field t)) (facts.layer_funcs t))
                ≡ true)
              any h))
    | inr one ↦ ground (arith, one, h)
  ]

  pub add_dependents-more :
      (ps : List ℕ) (s : Layers) (p f : ℕ)
      → has p ps ≡ true
      → has f (get_targets_with_layer_type facts p []) ≡ true
      → has f (add_dependents facts ps s).fs1 ≡ true
  unfolding add_dependents
  add_dependents-more [] s p f h stored = cc
  add_dependents-more (q ∷ ps) s p f h stored =
      let targets = get_targets_with_layer_type facts q s.fs2 in
      let next = record s { fs2 = targets; fs1 = insert_all targets s.fs1 } in
      elim (eq-cases q p) [
        | inl same ↦
            let stored' =
              subst (λ k. has f (get_targets_with_layer_type facts k []) ≡ true) (sym same)
                stored in
            add_dependents-keep facts ps next f
              (ground (arith, has-insert_all targets s.fs1 f, targets-more q s.fs2 f stored'))
        | inr ne ↦ add_dependents-more ps next p f (ground (arith, h)) stored
      ]

  pub add_dependents-Holds :
      (operand f : ℕ) (ps : List ℕ) (s : Layers)
      → Holds facts operand f s
      → Holds facts operand f (add_dependents facts ps s)
  unfolding add_dependents
  add_dependents-Holds operand f [] s h = h
  add_dependents-Holds operand f (p ∷ ps) s h =
      add_dependents-Holds operand f ps _
        (record { value = h.value; callee = h.callee; cache = h.cache })

  module _ (f : ℕ) where
    abbrev in_set : Option (List ℕ) → Bool
    in_set o = elim o [ none ↦ true | some fs ↦ has f fs ]

    pub update-has :
        (matched : ℕ → Option (List ℕ)) (k i : ℕ) (gs fs : List ℕ)
        → has f gs ≡ true
        → (matched i ≡ some fs → has f fs ≡ true)
        → update matched k (some gs) i ≡ some fs
        → has f fs ≡ true
    update-has matched k i gs fs new old e = elim (eq-cases k i) [
      | inl same ↦
          ap in_set
            (sym e ∙ ap (update matched k (some gs)) (sym same) ∙ update_self matched k (some gs))
          ∙ new
      | inr ne ↦ old (sym (update_ne matched k i (some gs) ne) ∙ e)
    ]
