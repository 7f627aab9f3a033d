-- ===== src/Frontend/Request/Fields.antt =====
-- What the allocator reads from the request that an instrumented call makes.
use semalloc.Common.{
  ℕ, zero, suc, ◌+◌, ◌*◌, ◌/◌, ◌%◌, ◌^◌, ◌≤◌, ◌<◌, ◌≡◌, arith, ltb, ◌==◌, if◌then◌else◌, add64,
  Bool-cases, inl, inr, ◌∙◌, true, false, ap,
}
use semalloc.Config.{get_real_size, get_csi, loop_bit, huge_bit, huge_size}
use semalloc.Frontend.Request.{
  max_size, or_bit, csi_field, request_word, hash_rounds, css_hash_function,
}

-- The fields of a request for at most `max_size` bytes.
pub record Fields (request size site loop : ℕ) : Type 0 where
  pub plain : huge_bit request ≡ 0
  pub sized : get_real_size request ≡ size
  pub sited : get_csi request ≡ site
  pub looped : loop_bit request ≡ loop

word-Fields :
    (k c size : ℕ)
    → k < 2 ^ 14
    → c < 2 ^ 16
    → size < 2 ^ 32
    → Fields (k * 2 ^ 48 + c * 2 ^ 32 + size) size (k * 2 ^ 16 + c) 0
word-Fields k c size hk hc hs = record {
  plain = omega arith;
  sized = omega arith;
  sited = omega arith;
  looped = omega arith;
}

looped-Fields :
    (w size site : ℕ) → Fields w size site 0 → w < 2 ^ 62 → Fields (or_bit 62 w) size site 1
unfolding or_bit
looped-Fields w size site v small =
    let unset : (w / 2 ^ 62 % 2 == 1) ≡ false = ground (arith, v.looped) in
    rw unset (record {
      plain = omega (arith, small);
      sized = omega (arith, small, v.sized);
      sited = omega (arith, small, v.sited);
      looped = omega (arith, small);
    })

csi_field_low : (x : ℕ) → csi_field x ≡ x % 2 ^ 16 * 2 ^ 32
csi_field_low x = omega arith

-- The values before `n` more rounds of two bits, out of the 14 bits of the result.
bound : ℕ → ℕ
bound zero = 2 ^ 14
bound (suc n) = bound n / 4

bound_le : (n : ℕ) → bound n ≤ 2 ^ 14
unfolding bound
bound_le zero = omega arith
bound_le (suc n) = omega (arith, bound_le n)

bound_pos : (n : ℕ) → n ≤ 7 → 0 < bound n
unfolding bound
bound_pos zero le = omega arith
bound_pos (suc zero) le = omega arith
bound_pos (suc (suc zero)) le = omega arith
bound_pos (suc (suc (suc zero))) le = omega arith
bound_pos (suc (suc (suc (suc zero)))) le = omega arith
bound_pos (suc (suc (suc (suc (suc zero))))) le = omega arith
bound_pos (suc (suc (suc (suc (suc (suc zero)))))) le = omega arith
bound_pos (suc (suc (suc (suc (suc (suc (suc zero))))))) le = omega arith
bound_pos (suc (suc (suc (suc (suc (suc (suc (suc n)))))))) le = absurd (omega (arith, le))

hash_rounds_low : (p : ℕ → ℕ) (n i h : ℕ) → h < bound n → hash_rounds p n i h < 2 ^ 14
unfolding hash_rounds bound
hash_rounds_low p zero i h lo = lo
hash_rounds_low p (suc n) i h lo =
    hash_rounds_low p n (i + 1) (add64 (h * 4 % 2 ^ 64) (p i / 2 ^ 6 % 4))
      (omega (arith, lo, bound_le n))

-- The number that the hash puts into bits 48 to 61.
pub stack_number : (ℕ → ℕ) → ℕ → ℕ
stack_number p n = hash_rounds p (if ltb 7 n then 7 else n) 0 0

stack_number_low : (p : ℕ → ℕ) (n : ℕ) → stack_number p n < 2 ^ 14
unfolding stack_number
stack_number_low p n = hash_rounds_low p (if ltb 7 n then 7 else n) 0 0 (bound_pos _ (ground arith))

css_hash_function-stack_number :
    (p : ℕ → ℕ) (n : ℕ) → css_hash_function p n ≡ stack_number p n * 2 ^ 48
unfolding css_hash_function stack_number
css_hash_function-stack_number p n =
    let low : hash_rounds p (if ltb 7 n then 7 else n) 0 0 < 2 ^ 14 = stack_number_low p n in
    omega (arith, low)

-- A request for at most 2 ^ 32 - 1 bytes that an instrumented call makes, with the hash of any stack:
-- the allocator reads the size that was asked for, no huge bit, a loop bit exactly when the compared
-- value is not zero, and a site of the low 16 bits of the tracked context under the 14 bits of the
-- hash.
pub request_word-Fields :
    (p : ℕ → ℕ) (n cs_track layer size : ℕ)
    → size ≤ max_size
    → Fields
        (request_word (css_hash_function p n) cs_track layer size)
        size
        (stack_number p n * 2 ^ 16 + cs_track % 2 ^ 16)
        (if layer == 0 then 0 else 1)
unfolding request_word
request_word-Fields p n cs_track layer size le =
    let k = stack_number p n in
    let c = cs_track % 2 ^ 16 in
    let in_range : ltb max_size size ≡ false = ground arith in
    let word : add64 (add64 (css_hash_function p n) (csi_field cs_track)) size
        ≡ k * 2 ^ 48 + c * 2 ^ 32 + size =
      ap (λ h. add64 (add64 h (csi_field cs_track)) size) (css_hash_function-stack_number p n)
      ∙ omega (arith, le, stack_number_low p n) in
    let v = word-Fields k c size (stack_number_low p n) (omega arith) (omega (arith, le)) in
    rw (in_range, word)
      (elim (Bool-cases (layer == 0)) [
        | inl zero' ↦ rw zero' v
        | inr set ↦ rw set (
            looped-Fields (k * 2 ^ 48 + c * 2 ^ 32 + size) size (k * 2 ^ 16 + c) v
              (omega (arith, le, stack_number_low p n)))
      ])

-- A larger request carries the huge bit and its size.
pub request_word-huge :
    (recursive_hash cs_track layer size : ℕ)
    → max_size < size
    → size < 2 ^ 63
    → (huge_bit (request_word recursive_hash cs_track layer size) ≡ 1)
      × (huge_size (request_word recursive_hash cs_track layer size) ≡ size)
unfolding request_word or_bit
request_word-huge recursive_hash cs_track layer size large small =
    let over : ltb max_size size ≡ true = ground arith in
    let unset : (size / 2 ^ 63 % 2 == 1) ≡ false = ground arith in
    rw (over, unset) (omega (arith, small), omega (arith, small))
