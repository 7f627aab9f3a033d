-- ===== src/Probe/Own.antt =====
-- The slot of a key in a table with linear probing, if the key is stored.
use semalloc.Common.{
  ℕ, ◌<◌, ◌≡◌, ◌≢◌, refl, sym, ◌∙◌, Option, none, some, arith, inl, inr, ◌==◌, if◌then◌else◌,
  Option-cases,
}
use semalloc.Probe.{find, IsTable, find_stop, find_own, find_other}

module _ (empty n : ℕ) (start : ℕ → ℕ) where
  abbrev found_at : (ℕ → ℕ) → ℕ → Option ℕ → Option ℕ
  found_at key c none = none
  found_at key c (some j) = if key j == c then some j else none

  unfoldable pub own : (ℕ → ℕ) → ℕ → Option ℕ
  own key c = found_at key c (find empty n start key c)

  pub own-find :
      (key : ℕ → ℕ) (c j : ℕ) → find empty n start key c ≡ some j → key j ≡ c → own key c ≡ some j
  unfolding own
  own-find key c j e at = rw e (ground arith)

  -- Where it is.
  pub own_here :
      (key : ℕ → ℕ) (c j : ℕ)
      → 0 < n
      → own key c ≡ some j
      → (j < n) × (key j ≡ c) × (find empty n start key c ≡ some j)
  unfolding own
  own_here key c j pos e = elim (Option-cases (find empty n start key c)) [
    | inl e' ↦ absurd (ground arith)
    | inr (i, e') ↦
        let at : (i ≡ j) × (key j ≡ c) = ground arith in
        let (lt, kind) = find_stop empty n start key c i pos e' in
        (rw (← at.0) lt, at.1, rw (← at.0) e')
  ]

  -- A stored key has a slot.
  pub own_stored :
      (key : ℕ → ℕ) (j : ℕ)
      → IsTable empty n start key
      → j < n
      → key j ≢ empty
      → own key (key j) ≡ some j
  own_stored key j t lt full = own-find key (key j) j (t.found j lt full) refl

  -- A key is stored in the slot where its probe stops: that is its slot, and no other key moves.
  module _ (key key' : ℕ → ℕ) (c j : ℕ) (pos : 0 < n) (c_full : c ≢ empty)
      (stop : find empty n start key c ≡ some j) (here : key' j ≡ c)
      (rest : (i : ℕ) → i ≢ j → key' i ≡ key i) where
    pub own_new : own key' c ≡ some j
    own_new = own-find key' c j (find_own empty n start key key' c j pos c_full stop here rest) here

    pub own_kept : (k : ℕ) → IsTable empty n start key → k ≢ empty → k ≢ c → own key' k ≡ own key k
    own_kept k t full ne = elim (Option-cases (own key k)) [
      | inr (i, e) ↦
          let (lt, at, f) = own_here key k i pos e in
          let moved =
            find_other empty n start key key' c j pos c_full stop here rest k i full at f in
          let same : i ≢ j = λ same. apart i same at in
          own-find key' k i moved (rest i same ∙ at) ∙ sym e
      | inl e ↦ elim (Option-cases (own key' k)) [
        | inl e' ↦ e' ∙ sym e
        | inr (i, e') ↦
            let (lt, at, f) = own_here key' k i pos e' in
            let same : i ≢ j = λ same. ne (ground arith) in
            let at' : key i ≡ k = sym (rest i same) ∙ at in absurd (stored i lt at' e)
      ]
    ]
      where
        apart : (i : ℕ) → i ≡ j → key i ≡ k → ⊥
        apart i same at = ground (arith, find_stop empty n start key c j pos stop)

        stored : (i : ℕ) → i < n → key i ≡ k → own key k ≡ none → ⊥
        stored i lt at e = cc (own_stored key i t lt (rw at full), at, e)
