-- ===== src/Paging/Align.antt =====
-- The alignment functions of memory/paging/paging.c.
use peach_os64bit_module_two.Common.{ℕ, ◌-◌, ◌^◌, ◌≤◌, ◌≡◌, ◌↔◌, arith, true}
use peach_os64bit_module_two.Paging.{
  paging_align_address, paging_align_to_lower_page, paging_is_aligned,
  paging_align_value_to_upper_page,
}

-- For an address up to 2^64 - 4096: rounded up it is the least aligned one that is not below it,
-- and rounding a value up gives the same; rounded down it is the greatest aligned one not above it.
pub paging_align_address-least :
    (ptr : ℕ)
    → ptr ≤ 2 ^ 64 - 4096
    → (a : ℕ) → paging_is_aligned a ≡ true
    → (paging_is_aligned (paging_align_address ptr) ≡ true)
      × (paging_is_aligned (paging_align_to_lower_page ptr) ≡ true)
      × ((paging_align_address ptr ≤ a) ↔ (ptr ≤ a))
      × ((a ≤ paging_align_to_lower_page ptr) ↔ (a ≤ ptr))
      × (paging_align_value_to_upper_page ptr ≡ paging_align_address ptr)
unfolding paging_align_address paging_align_to_lower_page paging_is_aligned
    paging_align_value_to_upper_page
paging_align_address-least ptr bound a aligned = ground (arith, bound, aligned)
