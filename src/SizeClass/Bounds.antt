-- ===== src/SizeClass/Bounds.antt =====
-- The classes of compute_size_index: bounds, fit and tightness.
use semalloc.Common.{
  ℕ, zero, suc, ◌+◌, ◌-◌, ◌*◌, ◌/◌, ◌^◌, ◌≤◌, ◌<◌, ◌≡◌, refl, arith, inl, inr, leb, leb→le,
  Bool-cases, ◌⊎◌, ap, ◌∙◌,
}
use semalloc.Config.{min_bag_size, bag_threshold, global_bag_n}
use semalloc.SizeClass.{digits, clz, log2, compute_size_index}
use native.Mathlib.Nat.{pow-suc}

pub pow_pos : (k : ℕ) → 0 < 2 ^ k
pow_pos zero = omega arith
pow_pos (suc k) = rw pow-suc (omega (arith, pow_pos k))

digits-upper : (fuel x : ℕ) → x < 2 ^ fuel → x < 2 ^ digits fuel x
unfolding digits
digits-upper zero x h = h
digits-upper (suc fuel) zero h = omega arith
digits-upper (suc fuel) (suc y) h =
    let h' : suc y < 2 ^ fuel * 2 = rw pow-suc at h in
    rw pow-suc (omega (arith, digits-upper fuel (suc y / 2) (omega arith)))

digits-zero : (fuel : ℕ) → digits fuel 0 ≡ 0
unfolding digits
digits-zero zero = refl
digits-zero (suc fuel) = refl

digits-lower : (fuel x : ℕ) → 0 < x → 2 ^ digits fuel x ≤ 2 * x
unfolding digits
digits-lower zero x h = omega arith
digits-lower (suc fuel) zero h = absurd (omega arith)
digits-lower (suc fuel) (suc zero) h = rw (digits-zero fuel) (omega arith)
digits-lower (suc fuel) (suc (suc y)) h =
    rw pow-suc (omega (arith, digits-lower fuel (suc (suc y) / 2) (omega arith)))

digits-le : (fuel x : ℕ) → digits fuel x ≤ fuel
unfolding digits
digits-le zero x = omega arith
digits-le (suc fuel) zero = omega arith
digits-le (suc fuel) (suc y) = omega (arith, digits-le fuel (suc y / 2))

log2-digits : (x : ℕ) → log2 x ≡ digits 64 (x - 1)
unfolding log2 clz
log2-digits x = omega (arith, digits-le 64 (x - 1))

pow_mono : (a k : ℕ) → 2 ^ a ≤ 2 ^ (k + a)
pow_mono a zero = let e : 0 + a ≡ a = omega arith in rw e (omega arith)
pow_mono a (suc k) =
    let e : suc k + a ≡ suc (k + a) = omega arith in rw (e, pow-suc) (omega (arith, pow_mono a k))

pow_le : (a b : ℕ) → a ≤ b → 2 ^ a ≤ 2 ^ b
pow_le a b h = let e : b - a + a ≡ b = omega arith in rw e at (pow_mono a (b - a))

pow_plus_four : (d : ℕ) → 4 ≤ d → 2 ^ d ≡ 16 * 2 ^ (d - 4)
pow_plus_four d h = go (d - 4) (omega arith)
  where
    go : (i : ℕ) → d ≡ suc (suc (suc (suc i))) → 2 ^ d ≡ 16 * 2 ^ i
    go i e = rw (e, pow-suc, pow-suc, pow-suc, pow-suc) (omega arith)

-- A class that is not the first: its bags hold the request, and those of the class below do not.
pub record Fits (size i : ℕ) : Type 0 where
  pub holds : size ≤ min_bag_size * 2 ^ i
  pub tight : (i ≡ 0) ⊎ (min_bag_size * 2 ^ (i - 1) < size)

digits-Fits :
    (d size : ℕ) → 16 < size → size - 1 < 2 ^ d → 2 ^ d ≤ 2 * (size - 1) → Fits size (d - 4)
digits-Fits d size lo upper lower = record {
  holds = omega (arith, four);
  tight = inr (omega (arith, four, five));
}
  where
    big : 5 ≤ d
    big = elim (Bool-cases (leb 5 d)) [
      | inl h ↦ leb→le 5 d h
      | inr h ↦ absurd (omega (arith, pow_le d 4 (ground arith)))
    ]

    four : 2 ^ d ≡ 16 * 2 ^ (d - 4)
    four = pow_plus_four d (omega (arith, big))

    five : 2 ^ (d - 4) ≡ 2 ^ (d - 4 - 1) * 2
    five = let e : d - 4 ≡ suc (d - 4 - 1) = omega (arith, big) in ap (λ k. 2 ^ k) e ∙ pow-suc 2 _

-- For every 64-bit size the class that computeSizeIndex gives is the smallest
-- one whose bags of `16 * 2 ^ i` bytes hold it.
pub compute_size_index-Fits : (size : ℕ) → size < 2 ^ 64 → Fits size (compute_size_index size)
unfolding compute_size_index
compute_size_index-Fits size h = elim (Bool-cases (leb size min_bag_size)) [
  | inl small ↦ rw small (record { holds = omega (arith, leb→le size 16 small); tight = inl refl })
  | inr large ↦
      rw (large, log2-digits size)
        (digits-Fits (digits 64 (size - 1)) size (ground arith)
          (digits-upper 64 (size - 1) (omega arith)) (digits-lower 64 (size - 1) (ground arith)))
]

-- Below the threshold of the huge allocations the class is an index into the array of 14 BIBOPs.
pub compute_size_index-lt :
    (size : ℕ) → size < bag_threshold → compute_size_index size < global_bag_n
compute_size_index-lt size h = elim (Bool-cases (leb 14 (compute_size_index size))) [
  | inl big ↦ absurd (omega (arith, leb→le _ _ big, tight, pow_le 13 (compute_size_index size - 1)))
  | inr small ↦ ground arith
]
  where
    tight : (compute_size_index size ≡ 0) ⊎ (16 * 2 ^ (compute_size_index size - 1) < size)
    tight = (compute_size_index-Fits size (omega arith)).tight
