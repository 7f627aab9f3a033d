-- ===== src/Config.antt =====
-- The constants of backend/include/defines.hh and the hash of backend/include/hash.h.
use semalloc.Common.{ℕ, ◌*◌, ◌%◌, ◌/◌, ◌^◌}

abbrev pub page_size : ℕ
page_size = 2 ^ 12

abbrev pub min_bag_size : ℕ
min_bag_size = 16

abbrev pub global_bag_n : ℕ
global_bag_n = 14

-- `MIN_BAG_SIZE << (GLOBAL_BAG_N - 1)`
abbrev pub bag_threshold : ℕ
bag_threshold = min_bag_size * 2 ^ 13

abbrev pub global_single_bibop_size : ℕ
global_single_bibop_size = 2 ^ 32

abbrev pub individual_bibop_max_n : ℕ
individual_bibop_max_n = 2 ^ 16

abbrev pub individual_data_pool_capacity : ℕ
individual_data_pool_capacity = 16

abbrev pub individual_bibop_size : ℕ
individual_bibop_size = 2 ^ 31

abbrev pub metadata_pool_size : ℕ
metadata_pool_size = 2 ^ 33

abbrev pub individual_data_pool_size : ℕ
individual_data_pool_size = individual_bibop_size * individual_data_pool_capacity

abbrev pub individual_data_pool_n : ℕ
individual_data_pool_n = 2 ^ 14

-- `INDIVIDUAL_DATA_POOL_N << 8`
abbrev pub lazy_n : ℕ
lazy_n = individual_data_pool_n * 2 ^ 8

abbrev pub lazy_occur : ℕ
lazy_occur = 2

abbrev pub memory_release_threshold : ℕ
memory_release_threshold = 8 * 4096

abbrev pub header_size : ℕ
header_size = 16

-- The word of 64 ones, which `memset(individualBIBOP, 0xFF, ...)` leaves everywhere.
abbrev pub all_ones : ℕ
all_ones = 0xffff_ffff_ffff_ffff

-- `GET_REAL_SIZE(size)`, the low 32 bits of a request.
abbrev pub get_real_size : ℕ → ℕ
get_real_size size = size % 2 ^ 32

-- `(size & CSI_BIT_MASK) >> 32`, bits 32 to 61 of a request.
abbrev pub get_csi : ℕ → ℕ
get_csi size = size / 2 ^ 32 % 2 ^ 30

-- `size & CSI_LOOP_BIT_MASK`, bit 62, as 0 or 1.
abbrev pub loop_bit : ℕ → ℕ
loop_bit size = size / 2 ^ 62 % 2

-- `size & CSI_HUGE_SIZE_BIT_MASK`, bit 63, as 0 or 1.
abbrev pub huge_bit : ℕ → ℕ
huge_bit size = size / 2 ^ 63 % 2

-- `size & CSI_HUGE_SIZE_SIZE_MASK`
abbrev pub huge_size : ℕ → ℕ
huge_size size = size % 2 ^ 63

-- The argument is converted to 32 bits, the result to 16.
abbrev pub hash : ℕ → ℕ
hash input = input % 2 ^ 32 % 2 ^ 16
