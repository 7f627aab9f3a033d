-- ===== src/Probe.antt =====
-- Linear probing in a table that only grows: what the loops of tryPutToLazyPool and
-- getIndividualBIBOPbyCSI of backend/src/MemoryManager.cc have in common. A table is seen through the
-- key of each slot, and a slot is empty when its key is `empty`.
pub mod Own
use mathlib.Core.Option
use native.Mathlib.Nat.{mod-lt, mod-add-mod, add-mod-mod, add-mod_right, mod-eq_of_lt}
use semalloc.Common.{
  ◌∙◌, ◌⊎◌, ℕ, ◌+◌, ◌-◌, ◌%◌, ◌<◌, ◌≡◌, ◌≢◌, Option, none, some, arith, inl, inr, ◌==◌, ◌||◌,
  if◌then◌else◌, refl, sym, ap, fun_ext, for_return, for_return-map, for_return_stable,
  for_return_round, for_return-none, Option-cases, eq-cases,
}

-- The slot that stops the probe for `c`: its own, or the first empty one on the way.
unfoldable pub probe_round : (empty n start c : ℕ) → (ℕ → ℕ) → ℕ → Option ℕ
probe_round empty n start c key i =
    let j = (i + start) % n in if (key j == c) || (key j == empty) then some j else none

unfoldable pub probe : (empty n start c : ℕ) → (ℕ → ℕ) → Option ℕ
unfolding probe_round
probe empty n start c key = for_return n 0 (probe_round empty n start c key)

-- A loop whose rounds work on the slot that stops them works on the slot that the probe finds.
pub probe-map :
    {A : Type 0} (f : ℕ → A) (empty n start c : ℕ) (key : ℕ → ℕ) (body : ℕ → Option A)
    → ((i : ℕ) → body i ≡ Option.map f (probe_round empty n start c key i))
    → for_return n 0 body ≡ Option.map f (probe empty n start c key)
unfolding probe
probe-map f empty n start c key body same =
    rw (fun_ext same) (for_return-map f n 0 (probe_round empty n start c key))

-- A round that stops names its slot; a round that goes on saw a slot with another key.
round_some :
    (empty n start c : ℕ) (key : ℕ → ℕ) (i j : ℕ)
    → probe_round empty n start c key i ≡ some j
    → ((i + start) % n ≡ j) × ((key j ≡ c) ⊎ ((key j ≢ c) × (key j ≡ empty)))
unfolding probe_round
round_some empty n start c key i j e = ground (arith, eq-cases (key j) c)

round_none :
    (empty n start c : ℕ) (key : ℕ → ℕ) (i : ℕ)
    → probe_round empty n start c key i ≡ none
    → (key ((i + start) % n) ≢ c) × (key ((i + start) % n) ≢ empty)
unfolding probe_round
round_none empty n start c key i e = ground arith

round_goes_on :
    (empty n start c : ℕ) (key : ℕ → ℕ) (i : ℕ)
    → key ((i + start) % n) ≢ c
    → key ((i + start) % n) ≢ empty
    → probe_round empty n start c key i ≡ none
unfolding probe_round
round_goes_on empty n start c key i ne full = ground arith

round_stops :
    (empty n start c : ℕ) (key : ℕ → ℕ) (i j : ℕ)
    → (i + start) % n ≡ j
    → key j ≡ c
    → probe_round empty n start c key i ≡ some j
unfolding probe_round
round_stops empty n start c key i j e own = ground arith

-- Each slot is the slot of some round.
round_of : (n start j : ℕ) → j < n → (i : ℕ) × (i < n) × ((i + start) % n ≡ j)
round_of n start j lt = (
  (j + (n - start % n)) % n,
  mod-lt _ (omega arith),
  mod-add-mod _ n start
      ∙ sym (add-mod-mod (j + (n - start % n)) start n)
      ∙ ap (λ x. x % n) whole
      ∙ add-mod_right j n
      ∙ mod-eq_of_lt lt,
)
  where
    whole : j + (n - start % n) + start % n ≡ j + n
    whole = let below : start % n < n = mod-lt start (omega arith) in omega arith

module _ (empty n : ℕ) (start : ℕ → ℕ) where
  abbrev pub find : (ℕ → ℕ) → ℕ → Option ℕ
  find key c = probe empty n (start c) c key

  -- Every key is found in the slot that holds it. So no key is in two slots.
  pub record IsTable (key : ℕ → ℕ) : Type 0 where
    pub found : (j : ℕ) → j < n → key j ≢ empty → find key (key j) ≡ some j

  -- Where a probe stops there is the key, or else an empty slot.
  pub find_stop :
      (key : ℕ → ℕ) (c j : ℕ)
      → 0 < n
      → find key c ≡ some j
      → (j < n) × ((key j ≡ c) ⊎ ((key j ≢ c) × (key j ≡ empty)))
  unfolding probe
  find_stop key c j pos e =
      let (i, lt, r) = for_return_round n 0 (probe_round empty n (start c) c key) j e in
      let (at, kind) = round_some empty n (start c) c key i j r in (rw (← at) (mod-lt _ pos), kind)

  -- While a slot is empty every probe stops.
  pub find_total : (key : ℕ → ℕ) (c j : ℕ) → j < n → key j ≡ empty → (i : ℕ) × (find key c ≡ some i)
  unfolding probe
  find_total key c j lt vacant = elim (Option-cases (find key c)) [
    | inl e ↦
        let (i, below, at) = round_of n (start c) j lt in
        let none' =
          for_return-none n 0 i (probe_round empty n (start c) c key) e (omega arith)
            (omega arith) in
        absurd ((round_none empty n (start c) c key i none').1 (rw at vacant))
    | inr (i, e) ↦ (i, e)
  ]

  -- A key is stored in the slot where its own probe stops.
  module _ (key key' : ℕ → ℕ) (c j : ℕ) (pos : 0 < n) (c_full : c ≢ empty)
      (stop : find key c ≡ some j) (here : key' j ≡ c)
      (rest : (i : ℕ) → i ≢ j → key' i ≡ key i) where
    same_full : (i : ℕ) → key i ≢ empty → key' i ≡ key i
    same_full i full = elim (eq-cases i j) [
      | inl e ↦ ground (arith, (find_stop key c j pos stop).1)
      | inr ne ↦ rest i ne
    ]

    go_on :
        (k i : ℕ)
        → probe_round empty n (start k) k key i ≡ none
        → probe_round empty n (start k) k key' i ≡ none
    go_on k i e =
        let (ne, full) = round_none empty n (start k) k key i e in
        let same = same_full _ full in
        round_goes_on empty n (start k) k key' i (rw same ne) (rw same full)

    pub find_own : find key' c ≡ some j
    unfolding probe
    find_own =
        for_return_stable n 0 (probe_round empty n (start c) c key)
          (probe_round empty n (start c) c key') j stop (go_on c)
          λ i e.
            round_stops empty n (start c) c key' i j ((round_some empty n (start c) c key i j e).0)
              here

    -- The other keys are found where they were.
    pub find_other : (k i : ℕ) → k ≢ empty → key i ≡ k → find key k ≡ some i → find key' k ≡ some i
    unfolding probe
    find_other k i full at e =
        for_return_stable n 0 (probe_round empty n (start k) k key)
          (probe_round empty n (start k) k key') i e (go_on k)
          λ r stops.
            round_stops empty n (start k) k key' r i
              ((round_some empty n (start k) k key r i stops).0) (same_full i (rw at full) ∙ at)

    pub store-IsTable : IsTable key → IsTable key'
    store-IsTable t = record {
      found = λ i lt full. elim (eq-cases i j) [
        | inl e ↦ rw (e, here) find_own
        | inr ne ↦
            let same = rest i ne in
            let full' : key i ≢ empty = rw same at full in
            rw same (find_other (key i) i full' refl (t.found i lt full'))
      ];
    }
