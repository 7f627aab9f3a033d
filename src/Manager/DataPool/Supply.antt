-- ===== src/Manager/DataPool/Supply.antt =====
-- Acquiring a chunk succeeds while places for pools are left.
use semalloc.Common.{
  ℕ, ◌+◌, ◌%◌, ◌^◌, ◌≤◌, ◌<◌, ◌≡◌, refl, sym, ap, ◌∙◌, arith, ◌⊎◌, inl, inr, true, false, ◌==◌, leb,
}
use semalloc.Config.{
  individual_bibop_size, individual_data_pool_size, individual_data_pool_n, page_size,
}
use semalloc.Pool.{MemoryPool, allocate_memory, init_memory_pool}
use semalloc.Pool.Chunks.{IsPool}
use semalloc.Machine.{Os, IsOs, pure, ◌>>◌}
use semalloc.Machine.Ensures.{Returns, Returns-bind, Returns-if, Returns-mono}
use semalloc.Manager.{MemoryManager, State, allocate_memory_pool, mmap}
use semalloc.Manager.DataPool.{take_chunk, next_pool, acquire_individual_data_pool}

-- The pool in use is well formed, page-aligned, and ends below 2 ^ 47.
pub record IsSupply (mm : MemoryManager) : Type 0 where
  pub pool : IsPool (mm.individual_data_pool mm.individual_dat_pool_bump)
  pub aligned : (mm.individual_data_pool mm.individual_dat_pool_bump).bump_memory % page_size ≡ 0
  pub user_half : (mm.individual_data_pool mm.individual_dat_pool_bump).boundary_memory < 2 ^ 47

-- A chunk of 2 GiB for a BIBOP.
pub record IsChunk (d : ℕ) : Type 0 where
  pub positive : 0 < d
  pub aligned : d % page_size ≡ 0
  pub low : d + individual_bibop_size < 2 ^ 47

-- The pool has room for one more chunk.
abbrev HasRoom : MemoryManager → Type 0
HasRoom mm =
    (mm.individual_data_pool mm.individual_dat_pool_bump).bump_memory + individual_bibop_size
    ≤ (mm.individual_data_pool mm.individual_dat_pool_bump).boundary_memory

-- A chunk cut off the pool in use: the pool goes on right behind its 2 GiB, and ends behind them.
pub record Cut (s : State) (d : ℕ) (s' : State) : Type 0 where
  pub place : s'.manager.individual_dat_pool_bump ≡ s.manager.individual_dat_pool_bump
  pub from : d ≡ (s.manager.individual_data_pool s.manager.individual_dat_pool_bump).bump_memory
  pub past :
      (s'.manager.individual_data_pool s.manager.individual_dat_pool_bump).bump_memory
      ≡ d + individual_bibop_size
  pub inside :
      d + individual_bibop_size
      ≤ (s.manager.individual_data_pool s.manager.individual_dat_pool_bump).boundary_memory
  pub base :
      (s'.manager.individual_data_pool s.manager.individual_dat_pool_bump).base_memory
      ≡ (s.manager.individual_data_pool s.manager.individual_dat_pool_bump).base_memory

-- The pool has no room for one more chunk.
abbrev pub IsFull : MemoryManager → Type 0
IsFull mm =
    (mm.individual_data_pool mm.individual_dat_pool_bump).boundary_memory
    < (mm.individual_data_pool mm.individual_dat_pool_bump).bump_memory + individual_bibop_size

-- A chunk at the start of a new pool, in the next place.
pub record Opened (s : State) (d : ℕ) (s' : State) : Type 0 where
  pub full : IsFull s.manager
  pub place : s'.manager.individual_dat_pool_bump ≡ s.manager.individual_dat_pool_bump + 1
  pub from : d ≡ (s'.manager.individual_data_pool s'.manager.individual_dat_pool_bump).base_memory

take_room :
    (s : State)
    → IsSupply s.manager
    → HasRoom s.manager
    → Returns (λ d s'. IsChunk d × IsSupply s'.manager × Cut s d s') (take_chunk s)
unfolding take_chunk allocate_memory
take_room s v room = ground arith

-- A mapping that the system made: its address, and nothing of the manager or the BIBOPs changed.
pub record Mapped (s : State) (n a : ℕ) (s' : State) : Type 0 where
  pub positive : 0 < a
  pub aligned : a % page_size ≡ 0
  pub low : a + n < 2 ^ 47
  pub manager : s'.manager ≡ s.manager
  pub bibops : s'.heap.bibops ≡ s.heap.bibops

pub mmap-Mapped :
    (os : Os) (n : ℕ) (s : State) → IsOs os → n ≤ 2 ^ 40 → Returns (Mapped s n) (mmap os n s)
unfolding mmap
mmap-Mapped os n s o small = ground (
  arith,
  o.mmap_aligned s.heap.mappings n,
  o.mmap_pos s.heap.mappings n,
  o.mmap_low s.heap.mappings n small,
)

-- A new pool, aligned and with all its memory left.
record Fresh (s : State) (n : ℕ) (p : MemoryPool) (s' : State) : Type 0 where
  pool : IsPool p
  aligned : p.bump_memory % page_size ≡ 0
  user_half : p.boundary_memory < 2 ^ 47
  room : p.bump_memory + n ≡ p.boundary_memory
  base : p.base_memory ≡ p.bump_memory
  manager : s'.manager ≡ s.manager

allocate_memory_pool-Fresh :
    (os : Os) (n : ℕ) (s : State)
    → IsOs os
    → n ≤ 2 ^ 40
    → Returns (Fresh s n) (allocate_memory_pool os n s)
unfolding allocate_memory_pool init_memory_pool
allocate_memory_pool-Fresh os n s o small =
    Returns-bind (Mapped s 24) (Fresh s n) (mmap os 24 s) _ (mmap-Mapped os 24 s o (omega arith))
      λ _ t m.
        Returns-bind (Mapped t n) (Fresh s n) (mmap os n t) _ (mmap-Mapped os n t o small) λ a u m'.
          record {
            pool = ground (arith, m'.low);
            aligned = m'.aligned;
            user_half = ground (arith, m'.low);
            room = ground (arith, m'.low);
            base = refl;
            manager = m'.manager ∙ m.manager;
          }

full_test : (i : ℕ) → i < individual_data_pool_n → leb individual_data_pool_n i ≡ false
full_test i h = ground arith

-- The manager has a new pool in use, with room for a chunk and none given yet.
record Renewed (s s' : State) : Type 0 where
  supply : IsSupply s'.manager
  room : HasRoom s'.manager
  place : s'.manager.individual_dat_pool_bump ≡ s.manager.individual_dat_pool_bump + 1
  base :
      (s'.manager.individual_data_pool s'.manager.individual_dat_pool_bump).base_memory
      ≡ (s'.manager.individual_data_pool s'.manager.individual_dat_pool_bump).bump_memory

next_room :
    (os : Os) (s : State)
    → IsOs os
    → s.manager.individual_dat_pool_bump + 1 < individual_data_pool_n
    → Returns (λ _ s'. Renewed s s') (next_pool os s)
unfolding next_pool
next_room os s o room =
    let mm = record (s.manager) {
      individual_dat_pool_bump = s.manager.individual_dat_pool_bump + 1;
    } in
    let s' = record s { manager = mm } in
    rw (full_test (s.manager.individual_dat_pool_bump + 1) room) (
      Returns-bind (Fresh s' individual_data_pool_size) (λ _ u. Renewed s u)
        (allocate_memory_pool os individual_data_pool_size s') _
        (allocate_memory_pool-Fresh os individual_data_pool_size s' o (omega arith))
        λ p t f. record {
          supply = ground (arith, f.pool, f.room);
          room = ground (arith, f.room);
          place = refl;
          base = ground (arith, f.base);
        })

-- A chunk from the pool in use, or null with the place of the pool unchanged.
record Took (s : State) (d : ℕ) (s' : State) : Type 0 where
  null :
      (d == 0) ≡ true
      → (s'.manager.individual_dat_pool_bump ≡ s.manager.individual_dat_pool_bump)
        × IsFull s.manager
  given : (d == 0) ≡ false → IsChunk d × IsSupply s'.manager × Cut s d s'

take_chunk-Took : (s : State) → IsSupply s.manager → Returns (Took s) (take_chunk s)
unfolding take_chunk allocate_memory
take_chunk-Took s v = record { null = ground arith; given = ground arith }

-- A chunk that was acquired: 2 GiB in the pool in use, or, when these do not fit in it, at the start of
-- a new pool, which is the pool in use then.
pub record Acquired (s : State) (d : ℕ) (s' : State) : Type 0 where
  pub chunk : IsChunk d
  pub supply : IsSupply s'.manager
  pub past :
      (s'.manager.individual_data_pool s'.manager.individual_dat_pool_bump).bump_memory
      ≡ d + individual_bibop_size
  pub source : Cut s d s' ⊎ Opened s d s'

-- On a system that grants every mapping, with a place for one more pool, acquiring a chunk succeeds.
-- The chunk is not null and page-aligned. It is the next 2 GiB of the pool in use, where they fit in
-- it, and the first 2 GiB of a new pool otherwise; the bump pointer of the pool in use moves past them,
-- and the supply stays well formed.
pub acquire_total :
    (os : Os) (s : State)
    → IsOs os
    → IsSupply s.manager
    → s.manager.individual_dat_pool_bump + 1 < individual_data_pool_n
    → Returns (Acquired s) (acquire_individual_data_pool os s)
unfolding acquire_individual_data_pool
acquire_total os s o v places =
    Returns-bind (Took s) (Acquired s) (take_chunk s) _ (take_chunk-Took s v) λ d t k.
      Returns-if (Acquired s) (d == 0) (next_pool os >> take_chunk) (pure d) t
        (λ zero'.
          let (place, full) = k.null zero' in
          Returns-bind (λ _ u. Renewed t u) (Acquired s) (next_pool os t) _
            (next_room os t o (omega (arith, place)))
            λ _ u r.
              Returns-mono (λ e w. IsChunk e × IsSupply w.manager × Cut u e w) (Acquired s)
                (take_chunk u) (take_room u r.supply r.room)
                λ e w got.
                  let (fine, well, cut) = got in
                  record {
                    chunk = fine;
                    supply = well;
                    past =
                        ap (λ i. (w.manager.individual_data_pool i).bump_memory) cut.place
                        ∙ cut.past;
                    source = inr (record {
                      full = full;
                      place = cut.place ∙ r.place ∙ ap (λ i. i + 1) place;
                      from =
                          cut.from
                          ∙ sym r.base
                          ∙ sym cut.base
                          ∙ ap (λ i. (w.manager.individual_data_pool i).base_memory)
                              (sym cut.place);
                    });
                  })
        λ some'.
          let (fine, well, cut) = k.given some' in
          record {
            chunk = fine;
            supply = well;
            past = ap (λ i. (t.manager.individual_data_pool i).bump_memory) cut.place ∙ cut.past;
            source = inl cut;
          }
