-- ===== src/Manager/Individual/Sites.antt =====
-- Allocation sites and size classes do not share BIBOPs in getIndividualBIBOPbyCSI.
use mathlib.Core.Option
use native.Mathlib.Nat.{add_comm}
use semalloc.Common.{
  ℕ, ◌+◌, ◌%◌, ◌<◌, ◌≡◌, ◌≢◌, ◌⊎◌, refl, sym, ◌∙◌, ap, false, Option, none, some, arith, inl, inr,
  ◌==◌, ==_iff, if◌then◌else◌, Bool-cases, Option-cases, eq-cases, subst, for_return,
}
use semalloc.Config.{all_ones, hash, individual_bibop_max_n}
use semalloc.SizeClass.{compute_size_index}
use semalloc.Pool.Chunks.{IsPool}
use semalloc.Probe.{find, find_stop, probe_round, probe-map}
use semalloc.Probe.Own.{own, own_here}
use semalloc.Manager.Init.{empty_slots}
use semalloc.Machine.{Os, Cmd}
use semalloc.Machine.Ensures.{Ensures, Ensures-mono, Ensures-if}
use semalloc.Manager.{State}
use semalloc.Manager.Individual.{
  use_slot, claim_slot, individual_round, run_round, get_individual_bibop_by_csi,
}
use semalloc.Manager.Individual.Isolation.{
  Placed, Chosen, old, new, use_slot-Chosen, claim_slot-Chosen,
}
use semalloc.Manager.Individual.Lookup.{
  Slots, sites, lookup, IsSlots, written-IsSlots, lookup_new, lookup_site, lookup_class,
  lookup_stop, pointer, at_slot,
}

abbrev pub bibop_of : State → ℕ → ℕ → Option ℕ
bibop_of s c i = lookup s.manager.individual_bibop c i

-- The sites are found where they are stored, their BIBOPs are below the bump pointer of the
-- metadata pool, and no BIBOP is that of two sites or of two size classes.
pub record IsSites (s : State) : Type 0 where
  pub slots : IsSlots s.manager.individual_bibop
  pub pool : IsPool s.manager.metadata_pool
  pub below :
      (c i b : ℕ) → c ≢ all_ones → bibop_of s c i ≡ some b → b < s.manager.metadata_pool.bump_memory
  pub separate :
      (c i c' i' b : ℕ)
      → c ≢ all_ones
      → c' ≢ all_ones
      → bibop_of s c i ≡ some b
      → bibop_of s c' i' ≡ some b
      → (c ≡ c') × (i ≡ i')

-- The BIBOP `b` is that of the site `c` for the class `i`, and of no other; what had a BIBOP keeps it.
pub record Isolated (s : State) (c i b : ℕ) (s' : State) : Type 0 where
  pub valid : IsSites s'
  pub answer : bibop_of s' c i ≡ some b
  pub kept :
      (c' i' b' : ℕ) → c' ≢ all_ones → bibop_of s c' i' ≡ some b' → bibop_of s' c' i' ≡ some b'

-- A manager whose table is still as InitMemoryManager leaves it.
pub empty-IsSites :
    (s : State)
    → s.manager.individual_bibop ≡ empty_slots
    → IsPool s.manager.metadata_pool
    → IsSites s
unfolding lookup
empty-IsSites s e pool = record {
  slots = rw e (record {
    table = record { found = λ j lt full. absurd (full refl) };
    vacant = λ j _ i. refl;
  });
  pool = pool;
  below = λ c i b full at. absurd (nothing c i b full (subst (λ t. lookup t c i ≡ some b) e at));
  separate = λ c i c' i' b full full' at at'.
      absurd (nothing c i b full (subst (λ t. lookup t c i ≡ some b) e at));
}
  where
    nothing : (c i b : ℕ) → c ≢ all_ones → lookup empty_slots c i ≡ some b → ⊥
    nothing c i b full at =
        elim (Option-cases (own all_ones individual_bibop_max_n hash (sites empty_slots) c)) [
          | inl none' ↦ ground (arith, ap (at_slot empty_slots i) none')
          | inr (j, here) ↦
              let (lt, at_j, f) =
                own_here all_ones individual_bibop_max_n hash (sites empty_slots) c j (omega arith)
                  here in
              full (sym at_j)
        ]

slot_act : Os → State → ℕ → ℕ → ℕ → Cmd State ℕ
slot_act os s c i j =
    if (s.manager.individual_bibop j).csi == c then use_slot os j i else claim_slot os j i c

round-act :
    (os : Os) (s : State) (c i k : ℕ)
    → individual_round os s.manager.individual_bibop c i k
      ≡ Option.map (slot_act os s c i) (
          probe_round all_ones individual_bibop_max_n
            (hash c)
            c
            (sites s.manager.individual_bibop)
            k)
unfolding individual_round probe_round slot_act
round-act os s c i k =
    let t = s.manager.individual_bibop in
    let j = (k + hash c) % individual_bibop_max_n in
    rw (add_comm (hash c) k) (elim (Bool-cases ((t j).csi == c)) [
      | inl own ↦ rw (own, own)
      | inr other ↦ elim (Bool-cases ((t j).csi == all_ones)) [
        | inl vacant ↦ rw (other, vacant, other)
        | inr full ↦ rw (other, full)
      ]
    ])

-- The loop works on the slot where the probe stops.
round_at :
    (os : Os) (s : State) (c i : ℕ)
    → for_return individual_bibop_max_n 0 (individual_round os s.manager.individual_bibop c i)
      ≡ Option.map
          (slot_act os s c i)
          (find all_ones individual_bibop_max_n hash (sites s.manager.individual_bibop) c)
round_at os s c i =
    probe-map (slot_act os s c i) all_ones individual_bibop_max_n (hash c) c _ _
      (round-act os s c i)

-- A new BIBOP, written to the slot of the site.
Placed-Isolated :
    (s : State) (c i j b : ℕ) (s' : State)
    → IsSites s
    → c ≢ all_ones
    → find all_ones individual_bibop_max_n hash (sites s.manager.individual_bibop) c ≡ some j
    → ((s.manager.individual_bibop j).csi ≡ c)
      ⊎ (((s.manager.individual_bibop j).csi ≢ c) × ((s.manager.individual_bibop j).csi ≡ all_ones))
    → (s.manager.individual_bibop j).ptr i ≡ all_ones
    → Placed s c i j b s'
    → Isolated s c i b s'
Placed-Isolated s c i j b s' v full stop kind vacant p = record {
  valid = record {
    slots = rw p.slots (written-IsSlots t c i j b v.slots full b_full stop kind);
    pool = p.pool;
    below = λ c' i' b' full' e. elim (entry c' i' full') [
      | inl (at, e') ↦ ground arith
      | inr e' ↦ ground (arith, v.below c' i' b' full' (sym e' ∙ e))
    ];
    separate = λ c₁ i₁ c₂ i₂ b' full₁ full₂ e₁ e₂. elim (entry c₁ i₁ full₁) [
      | inl ((a₁, a₂), f₁) ↦ elim (entry c₂ i₂ full₂) [
        | inl ((a₃, a₄), f₂) ↦ (a₁ ∙ sym a₃, a₂ ∙ sym a₄)
        | inr f₂ ↦ absurd (ground (arith, v.below c₂ i₂ b' full₂ (sym f₂ ∙ e₂)))
      ]
      | inr f₁ ↦ elim (entry c₂ i₂ full₂) [
        | inl (at, f₂) ↦ absurd (ground (arith, v.below c₁ i₁ b' full₁ (sym f₁ ∙ e₁)))
        | inr f₂ ↦ v.separate c₁ i₁ c₂ i₂ b' full₁ full₂ (sym f₁ ∙ e₁) (sym f₂ ∙ e₂)
      ]
    ];
  };
  answer = rw p.slots (lookup_new t c i j b v.slots full b_full stop kind);
  kept = λ c' i' b' full' e. elim (entry c' i' full') [
    | inl ((a₁, a₂), f) ↦ absurd (ground (arith, none_before, a₁, a₂, e))
    | inr f ↦ f ∙ e
  ];
}
  where
    t : Slots
    t = s.manager.individual_bibop

    b_full : b ≢ all_ones
    b_full e = omega (arith, p.address, v.pool, e)

    none_before : bibop_of s c i ≡ none
    none_before = lookup_stop t c i j b v.slots full b_full stop kind i ∙ ap pointer vacant

    entry :
        (c' i' : ℕ)
        → c' ≢ all_ones
        → (((c' ≡ c) × (i' ≡ i)) × (bibop_of s' c' i' ≡ some b))
          ⊎ (bibop_of s' c' i' ≡ bibop_of s c' i')
    entry c' i' full' = rw p.slots (elim (eq-cases c' c) [
      | inl e ↦ elim (eq-cases i' i) [
        | inl e' ↦ inl ((e, e'), rw (e, e') (lookup_new t c i j b v.slots full b_full stop kind))
        | inr ne' ↦ inr (rw e (lookup_class t c i j b v.slots full b_full stop kind i' ne'))
      ]
      | inr ne ↦ inr (lookup_site t c i j b v.slots full b_full stop kind c' i' full' ne)
    ])

-- The slot where the probe stops, after what the round did to it.
Chosen-Isolated :
    (s : State) (c i j b : ℕ) (s' : State)
    → IsSites s
    → c ≢ all_ones
    → find all_ones individual_bibop_max_n hash (sites s.manager.individual_bibop) c ≡ some j
    → ((s.manager.individual_bibop j).csi ≡ c)
      ⊎ (((s.manager.individual_bibop j).csi ≢ c) × ((s.manager.individual_bibop j).csi ≡ all_ones))
    → Chosen s c i j b s'
    → Isolated s c i b s'
Chosen-Isolated s c i j b s' v full stop kind (new vacant p) =
    Placed-Isolated s c i j b s' v full stop kind vacant p
Chosen-Isolated s c i j b s' v full stop kind (old ne at held same) = rw same (record {
  valid = v;
  answer =
      lookup_stop s.manager.individual_bibop c i j b v.slots full ne stop kind i
      ∙ ap pointer held
      ∙ ground arith;
  kept = λ c' i' b' full' e. e;
})

-- In a well-formed state, a call for a site and an object size that returns gives the BIBOP of that
-- site and size class, which is that of no other site or class; every pair that had a BIBOP keeps
-- it, so a pair that had one gets that one; and the state is well-formed again.
pub get_individual_bibop_by_csi-Isolated :
    (os : Os) (csi object_size : ℕ) (s : State)
    → IsSites s
    → csi ≢ all_ones
    → Ensures
        (Isolated s csi (compute_size_index object_size))
        (get_individual_bibop_by_csi os csi object_size s)
unfolding get_individual_bibop_by_csi slot_act
get_individual_bibop_by_csi-Isolated os csi object_size s v full =
    elim (Option-cases (find all_ones individual_bibop_max_n hash (sites t) csi)) [
      | inl e ↦ subst (λ r. Ensures (Isolated s csi i) (run_round r s)) (sym (at e)) tt
      | inr (j, e) ↦
          let (lt, kind) =
            find_stop all_ones individual_bibop_max_n hash (sites t) csi j (omega arith) e in
          subst (λ r. Ensures (Isolated s csi i) (run_round r s)) (sym (at e))
            (Ensures-mono (Chosen s csi i j) (Isolated s csi i) _
              (Ensures-if (Chosen s csi i j) ((t j).csi == csi) (use_slot os j i)
                (claim_slot os j i csi) s
                (λ own_site.
                  use_slot-Chosen os csi i j s v.pool ((==_iff (t j).csi csi).0 own_site))
                (λ other. claim_slot-Chosen os csi i j s v.pool (vacant_ptr j i kind other)))
              (λ b s'. Chosen-Isolated s csi i j b s' v full e kind))
    ]
  where
    t : Slots
    t = s.manager.individual_bibop

    i : ℕ
    i = compute_size_index object_size

    at :
        {r : Option ℕ}
        → find all_ones individual_bibop_max_n hash (sites t) csi ≡ r
        → for_return individual_bibop_max_n 0 (individual_round os t csi i)
          ≡ Option.map (slot_act os s csi i) r
    at e = round_at os s csi i ∙ ap (Option.map (slot_act os s csi i)) e

    vacant_ptr :
        (j i : ℕ)
        → ((t j).csi ≡ csi) ⊎ (((t j).csi ≢ csi) × ((t j).csi ≡ all_ones))
        → ((t j).csi == csi) ≡ false
        → (t j).ptr i ≡ all_ones
    vacant_ptr j i (inl at) ne = absurd (ground arith)
    vacant_ptr j i (inr (other, vacant)) ne = v.slots.vacant j vacant i
