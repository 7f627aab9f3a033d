-- ===== src/Bibop/Bag.antt =====
-- A BIBOP and its objects over time, as a step relation: allocations, releases of live objects, new
-- chunks for a bag that is used up, and writes of the program into its own objects.
use semalloc.Common.{ℕ, ◌+◌, ◌≤◌, ◌<◌, ◌^◌, ◌≡◌, ◌≢◌, ◌⊎◌, Bool, true, false, update}
use semalloc.Config.{individual_bibop_size}
use semalloc.Machine.{Memory, Os}
use semalloc.Bibop.{SingleBibop, init_bibop, allocate_object, free_object, extend_bibop}

-- `live` are the objects that the program holds, `handed` those that were ever handed out.
pub record Bag : Type 0 where
  pub memory : Memory
  pub bibop : SingleBibop
  pub live : ℕ → Bool
  pub handed : ℕ → Bool

abbrev pub allocated : Bag → ℕ × SingleBibop
allocated g = allocate_object g.memory g.bibop

-- Two ranges of `n` bytes do not meet.
abbrev pub Apart : ℕ → ℕ → ℕ → Type 0
Apart n x y = (x + n ≤ y) ⊎ (y + n ≤ x)

-- An object of `n` bytes lies outside a range.
abbrev pub Outside : (n x base size : ℕ) → Type 0
Outside n x base size = (x + n ≤ base) ⊎ (base + size ≤ x)

-- Bytes that the program does not own: it does not write there.
abbrev pub NotOwned : Bag → ℕ → Type 0
NotOwned g p = (q : ℕ) → g.live q ≡ true → (p < q) ⊎ (q + g.bibop.object_size ≤ p)

-- A new chunk meets no object that was handed out before.
pub data Step (os : Os) (g : Bag) : Bag → Type 0 where
  allocates :
      (allocated g).0 ≢ 0
      → Step os g (record g {
        bibop = (allocated g).1;
        live = update g.live (allocated g).0 true;
        handed = update g.handed (allocated g).0 true;
      })
  extends :
      (base : ℕ)
      → (allocated g).0 ≡ 0
      → 0 < base
      → base + individual_bibop_size < 2 ^ 47
      → ((x : ℕ) → g.handed x ≡ true → Outside g.bibop.object_size x base individual_bibop_size)
      → Step os g (record g { bibop = extend_bibop (allocated g).1 base individual_bibop_size })
  releases :
      (p : ℕ)
      → g.live p ≡ true
      → Step os g (record g {
        memory = (free_object os g.memory g.bibop p).0;
        bibop = (free_object os g.memory g.bibop p).1;
        live = update g.live p false;
      })
  writes :
      (m : Memory)
      → ((p : ℕ) → NotOwned g p → m p ≡ g.memory p)
      → Step os g (record g { memory = m })

-- A bag whose BIBOP was just initialised.
abbrev pub new_bag : (m : Memory) (base object_size capacity : ℕ) → Bag
new_bag m base object_size capacity = record {
  memory = m;
  bibop = init_bibop base object_size capacity;
  live = λ _. false;
  handed = λ _. false;
}

pub data Reach (os : Os) (g : Bag) : Bag → Type 0 where
  here : Reach os g g
  next : {h k : Bag} → Reach os g h → Step os h k → Reach os g k
