-- ===== src/Frontend/Request.antt =====
-- The size argument that instrumented calls pass to the allocator: the code that UpdateHMFInterface
-- of frontend/src/InstrumentIR.cc inserts before such a call, as it runs, and CSSHashFunction of
-- frontend/src/helper.cc. Shifts and masks are written as products, quotients and remainders.
pub mod Fields
use semalloc.Common.{ℕ, zero, suc, ◌+◌, ◌*◌, ◌/◌, ◌%◌, ◌^◌, ltb, ◌==◌, if◌then◌else◌, add64}

abbrev pub max_size : ℕ
max_size = 0xffff_ffff

-- `x | (1 << k)`
unfoldable pub or_bit : ℕ → ℕ → ℕ
or_bit k x = if x / 2 ^ k % 2 == 1 then x else x + 2 ^ k

-- `(x << CSI_OFFSET) & CSI_MASK`
abbrev pub csi_field : ℕ → ℕ
csi_field x = x * 2 ^ 32 % 2 ^ 64 / 2 ^ 32 % 2 ^ 16 * 2 ^ 32

-- `recursive_hash` and `cs_track` are the values of CSSRecursiveHash and semallocCSTrack. `layer` is
-- the value that is compared with zero: the address of CSSLoopLayerTrack, which is not loaded.
unfoldable pub request_word : (recursive_hash cs_track layer size : ℕ) → ℕ
unfolding or_bit
request_word recursive_hash cs_track layer size =
    let word = add64 (add64 recursive_hash (csi_field cs_track)) size in
    if ltb max_size size then or_bit 63 size else (if layer == 0 then word else or_bit 62 word)

-- The rounds of the loop of CSSHashFunction that are left, from index `i` on.
unfoldable pub hash_rounds : (ℕ → ℕ) → ℕ → ℕ → ℕ → ℕ
hash_rounds p zero i h = h
hash_rounds p (suc n) i h = hash_rounds p n (i + 1) (add64 (h * 4 % 2 ^ 64) (p i / 2 ^ 6 % 4))

-- At most seven entries of the stack are read. CSI_RH_BITMASK is bits 48 to 61.
unfoldable pub css_hash_function : (ℕ → ℕ) → ℕ → ℕ
unfolding hash_rounds
css_hash_function p n =
    let len = if ltb 7 n then 7 else n in
    hash_rounds p len 0 0 * 2 ^ 48 % 2 ^ 64 / 2 ^ 48 % 2 ^ 14 * 2 ^ 48
