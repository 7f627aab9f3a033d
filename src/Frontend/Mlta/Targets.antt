-- ===== src/Frontend/Mlta/Targets.antt =====
-- FS1 of findCalleesWithMLTA for a type that is not in the cache.
use semalloc.Common.{
  ℕ, ◌+◌, ◌≤◌, ◌≡◌, refl, sym, ◌∙◌, subst, true, false, ◌||◌, some, List, [], ◌∷◌, arith, inl, inr,
  has, Bool-cases, eq-cases, ◌⊎◌, update,
}
use semalloc.Frontend.Marking.{insert_all}
use semalloc.Frontend.Marking.Relevant.{has-insert_all}
use semalloc.Frontend.Traverse.Ends.{total, IsDomain}
use semalloc.Frontend.Traverse.Sound.{Walk, self, onward}
use semalloc.Frontend.Mlta.{
  TypeFacts, direct, Layers, insert_sorted, ascending, get_targets_with_layer_type, add_dependents,
  layer_targets,
}
use semalloc.Frontend.Mlta.Dependent.{get_dependent_types-IsDependents}

insert_sorted-has : (t : ℕ) (us : List ℕ) (y : ℕ) → has y (insert_sorted t us) ≡ has y (t ∷ us)
unfolding insert_sorted
insert_sorted-has t [] y = refl
insert_sorted-has t (u ∷ us) y = ground (arith, insert_sorted-has t us y)

pub ascending-has : (ts : List ℕ) (y : ℕ) → has y (ascending ts) ≡ has y ts
unfolding ascending
ascending-has [] y = refl
ascending-has (t ∷ ts) y = ground (arith, insert_sorted-has t (ascending ts) y, ascending-has ts y)

-- A function that is stored to a layer or to the index -1 of its type.
abbrev pub Stored : TypeFacts → ℕ → ℕ → Type 0
Stored facts t f =
    (has f (facts.layer_funcs t) || has f (facts.layer_funcs (facts.any_field t))) ≡ true

module _ (facts : TypeFacts) where
  targets-has :
      (t : ℕ) (fs : List ℕ) (f : ℕ)
      → facts.is_any t ≡ false
      → has f (get_targets_with_layer_type facts t fs)
        ≡ (has f (facts.layer_funcs t) || has f (facts.layer_funcs (facts.any_field t)))
  unfolding get_targets_with_layer_type
  targets-has t fs f one =
      ground
        (arith, one, has-insert_all (facts.layer_funcs (facts.any_field t)) (facts.layer_funcs t) f)

  abbrev Plain : List ℕ → Type 0
  Plain ps = (p : ℕ) → has p ps ≡ true → facts.is_any p ≡ false

  pub add_dependents-keep :
      (ps : List ℕ) (s : Layers) (f : ℕ)
      → has f s.fs1 ≡ true
      → has f (add_dependents facts ps s).fs1 ≡ true
  unfolding add_dependents
  add_dependents-keep [] s f h = h
  add_dependents-keep (p ∷ ps) s f h =
      let targets = get_targets_with_layer_type facts p s.fs2 in
      add_dependents-keep ps (record s { fs2 = targets; fs1 = insert_all targets s.fs1 }) f
        (ground (arith, h, has-insert_all targets s.fs1 f))

  add_dependents_complete :
      (ps : List ℕ) (s : Layers) (p f : ℕ)
      → Plain ps
      → has p ps ≡ true
      → Stored facts p f
      → has f (add_dependents facts ps s).fs1 ≡ true
  unfolding add_dependents
  add_dependents_complete [] s p f plain h stored = cc
  add_dependents_complete (q ∷ ps) s p f plain h stored =
      let targets = get_targets_with_layer_type facts q s.fs2 in
      let next = record s { fs2 = targets; fs1 = insert_all targets s.fs1 } in
      elim (eq-cases q p) [
        | inl same ↦
            let stored' = subst (λ k. Stored facts k f) (sym same) stored in
            add_dependents-keep ps next f (
              ground (
                arith,
                stored',
                has-insert_all targets s.fs1 f,
                targets-has q s.fs2 f (plain q (ground arith)),
              ))
        | inr ne ↦
            add_dependents_complete ps next p f (λ k m. plain k (ground (arith, m)))
              (ground (arith, h)) stored
      ]

  add_dependents_sound :
      (ps : List ℕ) (s : Layers) (f : ℕ)
      → Plain ps
      → has f (add_dependents facts ps s).fs1 ≡ true
      → (has f s.fs1 ≡ true) ⊎ ((p : ℕ) × (has p ps ≡ true) × Stored facts p f)
  unfolding add_dependents
  add_dependents_sound [] s f plain h = inl h
  add_dependents_sound (q ∷ ps) s f plain h =
      let targets = get_targets_with_layer_type facts q s.fs2 in
      let next = record s { fs2 = targets; fs1 = insert_all targets s.fs1 } in
      elim (add_dependents_sound ps next f (λ k m. plain k (ground (arith, m))) h) [
        | inr (p, m, stored) ↦ inr (p, ground (arith, m), stored)
        | inl before ↦ elim (Bool-cases (has f targets)) [
          | inl new ↦
              inr (
                q,
                ground arith,
                ground (arith, new, targets-has q s.fs2 f (plain q (ground arith))),
              )
          | inr old ↦ inl (ground (arith, old, before, has-insert_all targets s.fs1 f))
        ]
      ]

  pub end-Walk :
      {t x : ℕ}
      → Walk (λ k. k) (direct facts) t x
      → (t ≡ x) ⊎ ((y : ℕ) × Walk (λ k. k) (direct facts) t y × (has x (direct facts y) ≡ true))
  end-Walk self = inl refl
  end-Walk (onward {f} y path c) = inr (f, path, c)

  module _ (ts : List ℕ) (dom : IsDomain (direct facts) ts) (fuel : ℕ)
      (enough : 1 + total (direct facts) ts ≤ fuel) where
    -- Let the layers to which another one propagates be in a list, and the fuel one more than the
    -- number of these propagations, and let no layer that propagates to the given one, directly or
    -- through others, nor that one itself, have the index -1. Then the targets that
    -- findCalleesWithMLTA makes for it, whatever FS1 and FS2 hold before, and puts into
    -- MatchedFuncsMap are the functions that are stored to one of these layers or to the index -1
    -- of its type.
    pub layer_targets-Stored :
        (t : ℕ) (s : Layers)
        → ((x : ℕ) → Walk (λ k. k) (direct facts) t x → facts.is_any x ≡ false)
        → (u : Layers) × (layer_targets facts fuel t s ≡ some u)
          × (u.matched (facts.type_idx_hash t) ≡ some u.fs1)
          × ((f : ℕ)
              → has f u.fs1 ≡ true
              → (x : ℕ) × Walk (λ k. k) (direct facts) t x × Stored facts x f)
          × ((x f : ℕ) → Walk (λ k. k) (direct facts) t x → Stored facts x f → has f u.fs1 ≡ true)
    unfolding layer_targets
    layer_targets-Stored t s plain =
        let (d, e, found) = get_dependent_types-IsDependents facts ts dom fuel t enough in
        let first = record s { fs1 = get_targets_with_layer_type facts t s.fs1 } in
        let ps = ascending d.prop_set in
        let u = add_dependents facts ps first in
        let walk = λ (p : ℕ) (m : has p ps ≡ true).
          let w : Walk (λ k. k) (direct facts) t p =
            let (x, path, c) = found.sound p (sym (ascending-has d.prop_set p) ∙ m) in
            onward p path c in
          w in
        let all : Plain ps = λ p m. plain p (walk p m) in
        let own = λ (f : ℕ). targets-has t s.fs1 f (plain t self) in
        (
          record u { matched = update u.matched (facts.type_idx_hash t) (some u.fs1) },
          rw (e, layer_targets) refl,
          ground arith,
          λ f h. elim (add_dependents_sound ps first f all h) [
            | inl direct' ↦ (t, self, sym (own f) ∙ direct')
            | inr (p, m, stored) ↦ (p, walk p m, stored)
          ],
          λ x f path stored. elim (end-Walk path) [
            | inl same ↦
                add_dependents-keep ps first f
                  (own f ∙ subst (λ k. Stored facts k f) (sym same) stored)
            | inr (y, before, c) ↦
                add_dependents_complete ps first x f all
                  (ascending-has d.prop_set x ∙ found.complete y x before c) stored
          ],
        )
