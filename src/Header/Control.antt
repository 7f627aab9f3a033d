-- ===== src/Header/Control.antt =====
-- Laws of the methods of a header: what each does to the bits that another reads.
use semalloc.Common.{
  ◌/◌, ◌%◌, ◌≡◌, refl, ◌∙◌, true, false, not, arith, ◌==◌, bit_and, bit_xor, bit_and-one,
  bit_and-two, bit_and-four, bit_and-fb, bit_and-fe, bit_and-fd, bit_xor-two, bit_xor-four,
}
use semalloc.Header.{
  Cell, is_huge, set_regular, is_regular, set_global, set_individual, set_allocation, set_free,
  is_allocation, is_global,
}

-- The bits as numbers.
pub is_allocation_bit : (h : Cell) → is_allocation h ≡ not (h.control_byte / 4 % 2 == 0)
unfolding is_allocation
is_allocation_bit h = ground (arith, bit_and-four h.control_byte)

is_global_bit : (h : Cell) → is_global h ≡ not (h.control_byte / 2 % 2 == 0)
unfolding is_global
is_global_bit h = ground (arith, bit_and-two h.control_byte)

pub is_regular_bit : (h : Cell) → is_regular h ≡ (h.control_byte % 2 == 0)
unfolding is_regular
is_regular_bit h = ground (arith, bit_and-one h.control_byte)

pub is_huge_bit : (h : Cell) → is_huge h ≡ not (h.huge_byte % 2 == 0)
unfolding is_huge
is_huge_bit h = ground (arith, bit_and-one h.huge_byte)

-- A freed header is not allocated, and is as regular as before.
pub is_allocation-set_free : (h : Cell) → is_allocation (set_free h) ≡ false
unfolding set_free
is_allocation-set_free h =
    is_allocation_bit (set_free h) ∙ ground (arith, bit_and-fb h.control_byte)

-- The marks of mallocMemory on an object of a site make the header regular and clear bit B, the one
-- of global objects; they turn the allocation bit over, and leave the huge byte alone.
pub mark_individual-bits :
    (h : Cell)
    → let h' = set_allocation (set_individual (set_regular h)) in
      (is_regular h' ≡ true)
      × (is_global h' ≡ false)
      × (is_allocation h' ≡ not (is_allocation h))
      × (is_huge h' ≡ is_huge h)
unfolding set_allocation set_individual set_regular is_huge
mark_individual-bits h =
    let h' = set_allocation (set_individual (set_regular h)) in
    let c = bit_and h.control_byte 0xfe in
    let d = bit_and c 0xfd in
    (
      is_regular_bit h' ∙ ground (arith, bit_and-fe h.control_byte, bit_and-fd c, bit_xor-four d),
      is_global_bit h' ∙ ground (arith, bit_and-fe h.control_byte, bit_and-fd c, bit_xor-four d),
      is_allocation_bit h'
          ∙ ground
              (arith, bit_and-fe h.control_byte, bit_and-fd c, bit_xor-four d, is_allocation_bit h),
      refl,
    )

pub mark_global-bits :
    (h : Cell)
    → let h' = set_allocation (set_global (set_regular h)) in
      (is_regular h' ≡ true)
      × (is_global h' ≡ not (is_global h))
      × (is_allocation h' ≡ not (is_allocation h))
      × (is_huge h' ≡ is_huge h)
unfolding set_allocation set_global set_regular is_huge
mark_global-bits h =
    let h' = set_allocation (set_global (set_regular h)) in
    let c = bit_and h.control_byte 0xfe in
    let d = bit_xor c 0x02 in
    (
      is_regular_bit h' ∙ ground (arith, bit_and-fe h.control_byte, bit_xor-two c, bit_xor-four d),
      is_global_bit h'
          ∙ ground
              (arith, bit_and-fe h.control_byte, bit_xor-two c, bit_xor-four d, is_global_bit h),
      is_allocation_bit h'
          ∙ ground (
            arith,
            bit_and-fe h.control_byte,
            bit_xor-two c,
            bit_xor-four d,
            is_allocation_bit h,
          ),
      refl,
    )

pub is_allocation-set_allocation :
    (h : Cell) → is_allocation (set_allocation h) ≡ not (is_allocation h)
unfolding set_allocation
is_allocation-set_allocation h =
    is_allocation_bit (set_allocation h)
    ∙ ground (arith, bit_xor-four h.control_byte, is_allocation_bit h)
