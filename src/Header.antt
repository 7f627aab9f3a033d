-- ===== src/Header.antt =====
-- ObjectHeader of backend/include/HelperObjects.hh: 16 bytes of memory, read as a HugeHeader or as a
-- RegularHeader. The two overlap: `size`, `bibop` and the link of a list are the first eight bytes,
-- and the two control bytes are different bytes, 15 of a huge header and 14 of a regular one.
pub mod Control
use semalloc.Common.{ℕ, Bool, not, ◌==◌, bit_and, bit_xor}

pub record Cell : Type 0 where
  pub word : ℕ
  pub memalign_offset : ℕ
  pub thread_id : ℕ
  pub control_byte : ℕ
  pub huge_byte : ℕ

abbrev pub zero_cell : Cell
zero_cell = record { word = 0; memalign_offset = 0; thread_id = 0; control_byte = 0; huge_byte = 0 }

unfoldable pub set_huge : Cell → Cell
set_huge h = record h { huge_byte = bit_xor h.huge_byte 0x01 }

unfoldable pub is_huge : Cell → Bool
is_huge h = not (bit_and h.huge_byte 0x01 == 0)

unfoldable pub set_regular : Cell → Cell
set_regular h = record h { control_byte = bit_and h.control_byte 0xfe }

unfoldable pub is_regular : Cell → Bool
is_regular h = bit_and h.control_byte 0x01 == 0

unfoldable pub set_global : Cell → Cell
set_global h = record h { control_byte = bit_xor h.control_byte 0x02 }

unfoldable pub set_individual : Cell → Cell
set_individual h = record h { control_byte = bit_and h.control_byte 0xfd }

unfoldable pub set_allocation : Cell → Cell
set_allocation h = record h { control_byte = bit_xor h.control_byte 0x04 }

unfoldable pub set_free : Cell → Cell
set_free h = record h { control_byte = bit_and h.control_byte 0xfb }

unfoldable pub is_allocation : Cell → Bool
is_allocation h = not (bit_and h.control_byte 0x04 == 0)

-- Bit B of the comment on the control byte, which no method reads.
unfoldable pub is_global : Cell → Bool
is_global h = not (bit_and h.control_byte 0x02 == 0)
