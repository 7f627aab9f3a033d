-- ===== src/Examples/Request.antt =====
-- Requests of instrumented calls.
use semalloc.Common.{ℕ, ◌+◌, ◌*◌, ◌%◌, ◌^◌, ◌≡◌, ◌==◌, if◌then◌else◌, refl, arith}
use semalloc.Config.{huge_bit, huge_size}
use semalloc.Frontend.Request.{request_word, css_hash_function}
use semalloc.Frontend.Request.Fields.{Fields, stack_number, request_word-Fields, request_word-huge}

-- Frames with the bits 01 and 11 in the place that the hash reads.
abbrev frames : ℕ → ℕ
frames i = if i == 0 then 64 else 192

two_frames : css_hash_function frames 2 ≡ 7 * 2 ^ 48
unfolding css_hash_function
two_frames = refl

request_word-Fields_example :
    Fields
      (request_word (css_hash_function frames 2) 9 1 72)
      72
      (stack_number frames 2 * 2 ^ 16 + 9 % 2 ^ 16)
      (if 1 == 0 then 0 else 1)
request_word-Fields_example = request_word-Fields frames 2 9 1 72 (omega arith)

request_word-huge_example :
    (huge_bit (request_word 0 9 1 0x1_0000_0000) ≡ 1)
    × (huge_size (request_word 0 9 1 0x1_0000_0000) ≡ 0x1_0000_0000)
request_word-huge_example = request_word-huge 0 9 1 0x1_0000_0000 (omega arith) (omega arith)
