-- ===== src/Machine.antt =====
-- What the allocator runs on: memory in cells of 16 bytes, the operating system, and the commands
-- that read and write a state.
--
-- Every header, link and object start that the code computes is a multiple of 16, so memory is a
-- function from such addresses to cells. A read or write through the null pointer faults; other
-- unmapped addresses are not told apart from mapped ones.
pub mod Ensures
use semalloc.Common.{ℕ, ◌+◌, ◌^◌, ◌≤◌, ◌<◌, ◌%◌, ◌≡◌, ◌⊎◌, ◌&&◌, List, leb, ltb, if◌then◌else◌}
use semalloc.Config.{page_size}
use semalloc.Header.{Cell, zero_cell}

abbrev pub Memory : Type 0
Memory = ℕ → Cell

-- A mapping: its first address and its length.
abbrev pub Mapping : Type 0
Mapping = ℕ × ℕ

-- The calls of the operating system. `mmap` gives the address of a new anonymous mapping of the
-- length, or MAP_FAILED; `munmap` gives the mappings that are left; `madvise` is the memory after
-- MADV_DONTNEED on a range.
pub record Os : Type 0 where
  pub mmap : List Mapping → ℕ → ℕ
  pub munmap : List Mapping → Mapping → List Mapping
  pub madvise : Memory → ℕ → ℕ → Memory

-- Documented behaviour of a system on which no mapping of up to a terabyte fails: a mapping is
-- page-aligned, is not at address 0, ends below 2 ^ 47 (the user half of the address space), and
-- advice on a range leaves the cells outside it alone.
pub record IsOs (os : Os) : Type 0 where
  pub mmap_aligned : (ms : List Mapping) (n : ℕ) → os.mmap ms n % page_size ≡ 0
  pub mmap_pos : (ms : List Mapping) (n : ℕ) → 0 < os.mmap ms n
  pub mmap_low : (ms : List Mapping) (n : ℕ) → n ≤ 2 ^ 40 → os.mmap ms n + n < 2 ^ 47
  pub madvise_outside : (m : Memory) (a n p : ℕ) → (p < a) ⊎ (a + n ≤ p) → os.madvise m a n p ≡ m p

-- The ways in which the code ends the process: `exit` after a message, named for the message.
pub data Exit : Type 0 where
  bibop_max data_pool_max lazy_full no_memory double_free map_failed invalid_alignment : Exit

-- `fault` is a hardware trap: a null or dangling pointer, or a division by zero.
pub data Run (S A : Type 0) : Type 0 where
  ok : A → S → Run S A
  exits : Exit → Run S A
  fault : Run S A
  out_of_fuel : Run S A

abbrev pub Cmd : Type 0 → Type 0 → Type 0
Cmd S A = S → Run S A

module _ {S A : Type 0} where
  abbrev pub pure : A → Cmd S A
  pure a s = ok a s

  abbrev pub exit : Exit → Cmd S A
  exit e s = exits e

  abbrev pub trap : Cmd S A
  trap s = fault

abbrev pub and_then : {S A B : Type 0} → Run S A → (A → Cmd S B) → Run S B
and_then (ok a s) k = k a s
and_then (exits e) k = exits e
and_then fault k = fault
and_then out_of_fuel k = out_of_fuel

infixl 5 ◌>>=◌ ◌>>◌
abbrev pub ◌>>=◌ : {S A B : Type 0} → Cmd S A → (A → Cmd S B) → Cmd S B
m >>= k = λ s. and_then (m s) k

abbrev pub ◌>>◌ : {S B : Type 0} → Cmd S (Unit {0}) → Cmd S B → Cmd S B
m >> k = m >>= λ _. k

-- Fresh memory is zero.
unfoldable pub zero_range : Memory → ℕ → ℕ → Memory
zero_range m a n p = if leb a p && ltb p (a + n) then zero_cell else m p
