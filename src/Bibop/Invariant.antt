-- ===== src/Bibop/Invariant.antt =====
-- The invariant of a BIBOP: its free list runs through distinct released objects, and no two objects
-- that it handed out overlap, nor does one overlap the rest of the chunk.
use semalloc.Common.{
  ℕ, ◌+◌, ◌≤◌, ◌<◌, ◌^◌, ◌≡◌, ◌≢◌, ◌⊎◌, refl, true, false, List, [], ◌∷◌, arith, has,
}
use semalloc.Config.{header_size}
use semalloc.Machine.{Memory}
use semalloc.Bibop.{SingleBibop, init_bibop, allocate_object}
use semalloc.Bibop.Bag.{Bag, Apart, new_bag}

-- From `p` the first words of the headers lead through `xs` to null.
abbrev pub Chain : Memory → ℕ → List ℕ → Type 0
Chain m p [] = p ≡ 0
Chain m p (x ∷ xs) = (p ≡ x) × (0 < x) × Chain m (m x).word xs

abbrev pub Distinct : List ℕ → Type 0
Distinct [] = Unit {0}
Distinct (x ∷ xs) = (has x xs ≡ false) × Distinct xs

-- The chunk and the sizes: no sum of them wraps.
pub record Bounds (b : SingleBibop) : Type 0 where
  pub base_pos : 0 < b.base
  pub bumped : b.base ≤ b.bump
  pub within : b.bump ≤ b.base + b.capacity
  pub low : b.base + b.capacity < 2 ^ 47
  pub size_lo : header_size < b.object_size
  pub size_hi : b.object_size < 2 ^ 20

pub record IsBag (g : Bag) (free : List ℕ) : Type 0 where
  pub chain : Chain g.memory g.bibop.free_list free
  pub distinct : Distinct free
  pub freed : (x : ℕ) → has x free ≡ true → (g.handed x ≡ true) × (g.live x ≡ false)
  pub held : (x : ℕ) → g.live x ≡ true → g.handed x ≡ true
  pub apart :
      (x y : ℕ) → g.handed x ≡ true → g.handed y ≡ true → x ≢ y → Apart g.bibop.object_size x y
  pub clear :
      (x : ℕ)
      → g.handed x ≡ true
      → (x + g.bibop.object_size ≤ g.bibop.bump) ⊎ (g.bibop.base + g.bibop.capacity ≤ x)
  pub placed : (x : ℕ) → g.handed x ≡ true → (0 < x) × (x < 2 ^ 47)
  pub bounds : Bounds g.bibop

pub new_bag-IsBag :
    (m : Memory) (base object_size capacity : ℕ)
    → 0 < base
    → base + capacity < 2 ^ 47
    → 0 < object_size
    → object_size < 2 ^ 18
    → IsBag (new_bag m base object_size capacity) []
unfolding init_bibop
new_bag-IsBag m base object_size capacity pos low lo hi = record {
  chain = refl;
  distinct = tt;
  freed = λ x h. cc;
  held = λ x h. cc;
  apart = λ x y h k. absurd (cc);
  clear = λ x h. absurd (cc);
  placed = λ x h. absurd (cc);
  bounds = omega arith;
}

-- An allocation pops the free list, or cuts the next object while one fits.
module _ (m : Memory) (b : SingleBibop) where
  pub allocate_reuse :
      (x : ℕ)
      → b.free_list ≡ x
      → 0 < x
      → allocate_object m b ≡ (x, record b { free_list = (m x).word })
  unfolding allocate_object
  allocate_reuse x e pos = ground arith

  pub allocate_cut :
      b.free_list ≡ 0
      → Bounds b
      → b.bump + b.object_size < b.base + b.capacity
      → allocate_object m b ≡ (b.bump, record b { bump = b.bump + b.object_size })
  unfolding allocate_object
  allocate_cut e v fits = ground arith

  pub allocate_refuse :
      b.free_list ≡ 0
      → Bounds b
      → b.base + b.capacity ≤ b.bump + b.object_size
      → allocate_object m b ≡ (0, record b { bump = b.bump + b.object_size })
  unfolding allocate_object
  allocate_refuse e v over = ground arith
