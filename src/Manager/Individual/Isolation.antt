-- ===== src/Manager/Individual/Isolation.antt =====
-- Sites do not share BIBOPs.
use semalloc.Common.{
  ℕ, ◌+◌, ◌*◌, ◌^◌, ◌≡◌, ◌≢◌, refl, ◌∙◌, ap, arith, ◌==◌, ==_iff, update, update_self, update_twice,
  subst,
}
use semalloc.Config.{min_bag_size, all_ones}
use semalloc.Pool.Chunks.{IsPool}
use semalloc.Machine.{Os, pure}
use semalloc.Machine.Ensures.{Ensures, Ensures-bind, Ensures-if}
use semalloc.Manager.{State, IndividualSlot, count}
use semalloc.Manager.Individual.{
  set_slot_csi, new_slot_bibop, use_slot, claim_slot, allocate_individual_bibop,
}
use semalloc.Manager.Individual.Fresh.{Made, allocate_individual_bibop-Made}
use semalloc.Manager.Individual.Lookup.{Slots}

-- A new BIBOP in the slot `j`, which is given the site `c`.
pub record Placed (s : State) (c i j b : ℕ) (s' : State) : Type 0 where
  pub address : b ≡ s.manager.metadata_pool.bump_memory
  pub pool : IsPool s'.manager.metadata_pool
  pub bumped : s'.manager.metadata_pool.bump_memory ≡ b + 40
  pub slots :
      s'.manager.individual_bibop
      ≡ update s.manager.individual_bibop j
          (record { ptr = update ((s.manager.individual_bibop j).ptr) i b; csi = c })

new_slot-Placed :
    (os : Os) (j i : ℕ) (s : State)
    → IsPool s.manager.metadata_pool
    → Ensures (Placed s (s.manager.individual_bibop j).csi i j) (new_slot_bibop os j i s)
unfolding new_slot_bibop
new_slot-Placed os j i s v =
    Ensures-bind (Made s (min_bag_size * 2 ^ i)) _
      (allocate_individual_bibop os (min_bag_size * 2 ^ i) s) _
      (allocate_individual_bibop-Made os (min_bag_size * 2 ^ i) s v)
      λ b t m. record {
        address = m.address;
        pool = m.pool;
        bumped = m.bumped;
        slots =
            ap
              (λ (f : Slots). update f j (record { ptr = update ((f j).ptr) i b; csi = (f j).csi }))
              m.slots;
      }

-- The slot of the site: either it had the pointer and nothing changes, or a new BIBOP is placed.
pub data Chosen (s : State) (c i j b : ℕ) (s' : State) : Type 0 where
  old :
      b ≢ all_ones
      → (s.manager.individual_bibop j).csi ≡ c
      → (s.manager.individual_bibop j).ptr i ≡ b
      → s' ≡ s
      → Chosen s c i j b s'
  new : (s.manager.individual_bibop j).ptr i ≡ all_ones → Placed s c i j b s' → Chosen s c i j b s'

pub use_slot-Chosen :
    (os : Os) (c i j : ℕ) (s : State)
    → IsPool s.manager.metadata_pool
    → (s.manager.individual_bibop j).csi ≡ c
    → Ensures (Chosen s c i j) (use_slot os j i s)
unfolding use_slot count
use_slot-Chosen os c i j s v own_site =
    Ensures-if (Chosen s c i j) (b == all_ones) _ (pure b) s
      (λ e.
        Ensures-bind (Placed s c i j) (Chosen s c i j) (new_slot_bibop os j i s) _
          (subst (λ k. Ensures (Placed s k i j) (new_slot_bibop os j i s)) own_site
            (new_slot-Placed os j i s v))
          λ b' t p.
            new ((==_iff b all_ones).0 e)
              (record { address = p.address; pool = p.pool; bumped = p.bumped; slots = p.slots }))
      (λ e. old (λ same. ground arith) own_site refl refl)
  where
    b : ℕ
    b = (s.manager.individual_bibop j).ptr i

pub claim_slot-Chosen :
    (os : Os) (c i j : ℕ) (s : State)
    → IsPool s.manager.metadata_pool
    → (s.manager.individual_bibop j).ptr i ≡ all_ones
    → Ensures (Chosen s c i j) (claim_slot os j i c s)
unfolding claim_slot set_slot_csi count
claim_slot-Chosen os c i j s v vacant =
    Ensures-bind (Placed s (s.manager.individual_bibop j).csi i j) (Chosen s c i j)
      (new_slot_bibop os j i s) _ (new_slot-Placed os j i s v)
      λ b t p. new vacant (record {
        address = p.address;
        pool = p.pool;
        bumped = p.bumped;
        slots =
            ap (λ (f : Slots). update f j (record { ptr = (f j).ptr; csi = c })) p.slots
            ∙ update_twice s.manager.individual_bibop j _ _
            ∙ ap
                (λ (x : IndividualSlot).
                  update s.manager.individual_bibop j (record { ptr = x.ptr; csi = c }))
                (update_self s.manager.individual_bibop j _);
      })
