-- ===== src/Api/Bytes.antt =====
-- memcpy and memset(..., 0, ...) on memory in cells of 16 bytes.
use semalloc.Common.{ℕ, ◌+◌, ◌-◌, ◌*◌, ◌/◌, ◌^◌, ◌&&◌, leb, ltb, if◌then◌else◌}
use semalloc.Header.{Cell}
use semalloc.Machine.{Memory}

-- A little-endian number of `width` bytes with its first `k` bytes set to 0.
abbrev pub clear_bytes : (width k v : ℕ) → ℕ
clear_bytes width k v = if leb width k then 0 else v / 256 ^ k * 256 ^ k

-- A cell with its first `k` bytes set to 0.
abbrev pub clear_prefix : ℕ → Cell → Cell
clear_prefix k c = record {
  word = clear_bytes 8 k c.word;
  memalign_offset = clear_bytes 4 (k - 8) c.memalign_offset;
  thread_id = clear_bytes 2 (k - 12) c.thread_id;
  control_byte = clear_bytes 1 (k - 14) c.control_byte;
  huge_byte = clear_bytes 1 (k - 15) c.huge_byte;
}

unfoldable pub clear_range : Memory → ℕ → ℕ → Memory
clear_range m a n p = if leb a p && ltb p (a + n) then clear_prefix (a + n - p) (m p) else m p

-- The usable sizes that the code copies are multiples of 16.
unfoldable pub copy_range : Memory → (target source n : ℕ) → Memory
copy_range m target source n p =
    if leb target p && ltb p (target + n) then m (source + (p - target)) else m p
