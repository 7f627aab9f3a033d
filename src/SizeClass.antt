-- ===== src/SizeClass.antt =====
-- BIBOP::computeSizeIndex of backend/src/BIBOP.cc: the size class of a request.
use semalloc.Common.{ℕ, zero, suc, ◌+◌, ◌-◌, ◌/◌, ◌<◌, ◌≡◌, refl, leb, ◌==◌, if◌then◌else◌}
use semalloc.Config.{min_bag_size}
pub mod Bounds

-- The number of binary digits of `x`, of which at most `fuel` are counted.
digits : ℕ → ℕ → ℕ
digits zero x = 0
digits (suc fuel) x = elim x [ zero ↦ 0 | suc y ↦ suc (digits fuel (suc y / 2)) ]

-- `__builtin_clzll(x)`: the leading zeros of a 64-bit word that is not 0.
pub clz : ℕ → ℕ
unfolding digits
clz x = 64 - digits 64 x

-- `LOG2(x)`, which rounds up.
pub log2 : ℕ → ℕ
unfolding clz
log2 x = 64 - clz (x - 1)

unfoldable pub compute_size_index : ℕ → ℕ
unfolding log2
compute_size_index size = if leb size min_bag_size then 0 else log2 size - 4

classes :
    (compute_size_index 0 + compute_size_index 16 ≡ 0)
    × (compute_size_index 17 ≡ 1)
    × (compute_size_index 32 ≡ 1)
    × (compute_size_index 131071 ≡ 13)
unfolding compute_size_index
classes = (refl, refl, refl, refl)
