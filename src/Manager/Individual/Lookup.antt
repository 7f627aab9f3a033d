-- ===== src/Manager/Individual/Lookup.antt =====
-- The table of getIndividualBIBOPbyCSI as a map from a site and a size class to a BIBOP.
use semalloc.Common.{
  ℕ, ◌≡◌, ◌≢◌, ◌⊎◌, refl, sym, ◌∙◌, ap, Option, none, some, arith, inl, inr, ◌==◌, if◌then◌else◌,
  update, update_self, update_ne, Option-cases, eq-cases,
}
use semalloc.Config.{hash, individual_bibop_max_n, all_ones}
use semalloc.Probe.{find, IsTable, store-IsTable}
use semalloc.Probe.Own.{own, own-find, own_here, own_new, own_kept}
use semalloc.Manager.{IndividualSlot}

abbrev pub Slots : Type 0
Slots = ℕ → IndividualSlot

abbrev pub sites : Slots → ℕ → ℕ
sites t j = (t j).csi

abbrev pub slot_of : Slots → ℕ → Option ℕ
slot_of t c = own all_ones individual_bibop_max_n hash (sites t) c

abbrev pub pointer : ℕ → Option ℕ
pointer b = if b == all_ones then none else some b

abbrev pub at_slot : Slots → ℕ → Option ℕ → Option ℕ
at_slot t i none = none
at_slot t i (some j) = pointer ((t j).ptr i)

-- The BIBOP of site `c` for the size class `i`, if it was made.
unfoldable pub lookup : Slots → ℕ → ℕ → Option ℕ
lookup t c i = at_slot t i (slot_of t c)

-- Sites are found where they are stored, and an empty slot has no pointers.
pub record IsSlots (t : Slots) : Type 0 where
  pub table : IsTable all_ones individual_bibop_max_n hash (sites t)
  pub vacant : (j : ℕ) → (t j).csi ≡ all_ones → (i : ℕ) → (t j).ptr i ≡ all_ones

-- The pointer `b` written for the class `i` into the slot `j`, where the probe for `c` stops.
module _ (t : Slots) (c i j b : ℕ) (v : IsSlots t) (c_full : c ≢ all_ones) (b_full : b ≢ all_ones)
    (stop : find all_ones individual_bibop_max_n hash (sites t) c ≡ some j)
    (kind : ((t j).csi ≡ c) ⊎ (((t j).csi ≢ c) × ((t j).csi ≡ all_ones))) where
  abbrev pub written : Slots
  written = update t j (record { ptr = update (t j).ptr i b; csi = c })

  site_here : sites written j ≡ c
  site_here = ground arith

  site_rest : (k : ℕ) → k ≢ j → sites written k ≡ sites t k
  site_rest k ne = ground arith

  pub written-IsSlots : IsSlots written
  written-IsSlots = record {
    table =
        store-IsTable all_ones individual_bibop_max_n hash (sites t) (sites written) c j
          (omega arith) c_full stop site_here site_rest v.table;
    vacant = λ k e i'. elim (eq-cases j k) [
      | inl same ↦ absurd (c_full (ground arith))
      | inr ne ↦
          let same : written k ≡ t k = update_ne t j k _ ne in
          ap (λ (s : IndividualSlot). s.ptr i') same
          ∙ v.vacant k (ap (λ (s : IndividualSlot). s.csi) (sym same) ∙ e) i'
    ];
  }

  slot_new : slot_of written c ≡ some j
  slot_new =
      own_new all_ones individual_bibop_max_n hash (sites t) (sites written) c j (omega arith)
        c_full stop site_here site_rest

  slot_kept : (k : ℕ) → k ≢ all_ones → k ≢ c → slot_of written k ≡ slot_of t k
  slot_kept k full ne =
      own_kept all_ones individual_bibop_max_n hash (sites t) (sites written) c j (omega arith)
        c_full stop site_here site_rest k v.table full ne

  pub lookup_new : lookup written c i ≡ some b
  unfolding lookup
  lookup_new = rw slot_new (ground arith)

  -- Other sites keep their BIBOPs.
  pub lookup_site : (k i' : ℕ) → k ≢ all_ones → k ≢ c → lookup written k i' ≡ lookup t k i'
  unfolding lookup
  lookup_site k i' full ne = rw (slot_kept k full ne) (elim (Option-cases (slot_of t k)) [
    | inl e ↦ rw e refl
    | inr (l, e) ↦
        let at = (own_here all_ones individual_bibop_max_n hash (sites t) k l (omega arith) e).1 in
        let apart : j ≢ l = λ same. elsewhere (ap (sites t) same ∙ at) in
        rw e (ap (λ (s : IndividualSlot). pointer (s.ptr i')) (update_ne t j l _ apart))
  ])
    where
      elsewhere : (t j).csi ≡ k → ⊥
      elsewhere at = ground arith

  -- Before the write, what the slot holds for a class is what the site has for it.
  pub lookup_stop : (i' : ℕ) → lookup t c i' ≡ pointer ((t j).ptr i')
  unfolding lookup
  lookup_stop i' = elim kind [
    | inl at ↦
        ap (at_slot t i') (own-find all_ones individual_bibop_max_n hash (sites t) c j stop at)
    | inr (other, vacant) ↦ elim (Option-cases (slot_of t c)) [
      | inl e ↦ ap (at_slot t i') e ∙ sym (ap pointer (v.vacant j vacant i'))
      | inr (l, e) ↦
          let (lt, at, f) =
            own_here all_ones individual_bibop_max_n hash (sites t) c l (omega arith) e in
          let same : some l ≡ some j = sym f ∙ stop in absurd (ground arith)
    ]
  ]

  -- The site keeps its BIBOPs of other classes.
  pub lookup_class : (i' : ℕ) → i' ≢ i → lookup written c i' ≡ lookup t c i'
  unfolding lookup
  lookup_class i' ne = rw slot_new (
      ap (λ (s : IndividualSlot). pointer (s.ptr i')) (update_self t j _)
      ∙ ap pointer (update_ne (t j).ptr i i' b (λ e. ne (sym e)))
      ∙ sym (lookup_stop i'))
