-- ===== src/Manager/Individual/Fresh.antt =====
-- A new individual BIBOP lies at an address that no BIBOP had before.
use semalloc.Common.{ℕ, ◌+◌, ◌≡◌, ◌≢◌, refl, ◌∙◌, ap, some, arith, ◌==◌, update}
use semalloc.Config.{individual_bibop_size}
use semalloc.Pool.{MemoryPool, allocate_memory}
use semalloc.Pool.Chunks.{IsPool, full, chunk, allocate_memory-Allocated}
use semalloc.Bibop.{init_bibop}
use semalloc.Machine.{Os, Run, pure, ◌>>◌}
use semalloc.Machine.Ensures.{Ensures, Ensures-bind, Ensures-if}
use semalloc.Manager.{State, store_bibop}
use semalloc.Manager.DataPool.{acquire_individual_data_pool}
use semalloc.Manager.DataPool.Frame.{Kept, acquire-Kept}
use semalloc.Manager.Individual.{allocate_metadata, allocate_individual_bibop}

-- The new BIBOP is at the bump pointer of the metadata pool, which moves past it; its objects have
-- the size asked for and a header; the table of the sites is as it was.
pub record Made (s : State) (size b : ℕ) (s' : State) : Type 0 where
  pub address : b ≡ s.manager.metadata_pool.bump_memory
  pub pool : IsPool s'.manager.metadata_pool
  pub bumped : s'.manager.metadata_pool.bump_memory ≡ b + 40
  pub slots : s'.manager.individual_bibop ≡ s.manager.individual_bibop
  pub lazy : s'.manager.lazy_identifiers ≡ s.manager.lazy_identifiers
  pub globals : s'.manager.global_bibop ≡ s.manager.global_bibop
  pub bibop :
      (c : ℕ) × (s'.heap.bibops
        ≡ update s.heap.bibops b (some (init_bibop c size individual_bibop_size)))

-- 40 bytes of metadata, or null.
record Metadata (s : State) (p : ℕ) (t : State) : Type 0 where
  slots : t.manager.individual_bibop ≡ s.manager.individual_bibop
  lazy : t.manager.lazy_identifiers ≡ s.manager.lazy_identifiers
  globals : t.manager.global_bibop ≡ s.manager.global_bibop
  bibops : t.heap.bibops ≡ s.heap.bibops
  taken :
      p ≢ 0
      → (p ≡ s.manager.metadata_pool.bump_memory)
        × IsPool t.manager.metadata_pool
        × (t.manager.metadata_pool.bump_memory ≡ p + 40)

taken_metadata :
    (pool : MemoryPool)
    → IsPool pool
    → (allocate_memory pool 40).0 ≢ 0
    → ((allocate_memory pool 40).0 ≡ pool.bump_memory)
      × IsPool (allocate_memory pool 40).1
      × ((allocate_memory pool 40).1.bump_memory ≡ (allocate_memory pool 40).0 + 40)
taken_metadata pool v ne = elim (allocate_memory-Allocated pool 40 v (omega arith)) [
  | full r over e ↦ absurd (ne (ap (λ (r : ℕ × MemoryPool). r.0) e))
  | chunk r fits e ↦ rw e (refl, ground arith, refl)
]

allocate_metadata-Metadata :
    (s : State) → IsPool s.manager.metadata_pool → Ensures (Metadata s) (allocate_metadata 40 s)
unfolding allocate_metadata
allocate_metadata-Metadata s v = record {
  slots = refl;
  lazy = refl;
  globals = refl;
  bibops = refl;
  taken = taken_metadata s.manager.metadata_pool v;
}

-- With a well-formed metadata pool, a call that returns gives the old bump pointer of the metadata
-- pool, which moves 40 bytes past it, and the BIBOP written there has the object size asked for and
-- the capacity of a chunk; the tables of the manager are as they were.
pub allocate_individual_bibop-Made :
    (os : Os) (size : ℕ) (s : State)
    → IsPool s.manager.metadata_pool
    → Ensures (Made s size) (allocate_individual_bibop os size s)
unfolding allocate_individual_bibop
allocate_individual_bibop-Made os size s v =
    Ensures-bind (Metadata s) (Made s size) (allocate_metadata 40 s) _
      (allocate_metadata-Metadata s v)
      λ p t m.
        Ensures-bind (λ _. Kept t) (Made s size) (acquire_individual_data_pool os t) _
          (acquire-Kept os t)
          λ c u k.
            Ensures-if (Made s size) (p == 0) (λ _. Run.fault)
              (store_bibop p (init_bibop c size individual_bibop_size) >> pure p) u (λ _. tt)
              λ e.
                let got = m.taken (λ zero'. ground arith) in
                record {
                  address = got.0;
                  pool = rw k.metadata got.1;
                  bumped = ap MemoryPool.bump_memory k.metadata ∙ got.2;
                  slots = k.slots ∙ m.slots;
                  lazy = k.lazy ∙ m.lazy;
                  globals = k.globals ∙ m.globals;
                  bibop = (
                    c,
                    ap (λ f. update f p (some (init_bibop c size individual_bibop_size)))
                        (k.bibops ∙ m.bibops),
                  );
                }
