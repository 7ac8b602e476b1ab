-- ===== src/Paging/Tests.antt =====
-- The paging theorems of memory/paging/paging.c at a root table with no entries.
use peach_os64bit_module_two.Common.{
  ℕ, ◌+◌, ◌≤◌, ◌≡◌, ◌↔◌, refl, true, [], arith, ◌==◌, if◌then◌else◌, some,
}
use peach_os64bit_module_two.Paging.{
  null_desc, null_entry, Desc, page_entry, paging_map, paging_map_range, write_page, ensure,
  paging_is_aligned, paging_align_address, paging_align_to_lower_page,
  paging_align_value_to_upper_page, paging_get, paging_get_physical_address,
}
use peach_os64bit_module_two.Paging.Walk.{Shape, IsTree, translate, null_entry-null_desc}
use peach_os64bit_module_two.Paging.Map.{paging_map-translate}
use peach_os64bit_module_two.Paging.Range.{paging_map_range-translate}
use peach_os64bit_module_two.Paging.Align.{paging_align_address-least}
use peach_os64bit_module_two.Paging.Get.{paging_get_physical_address-map}

-- The root table is in frame 1; the n-th call of kzalloc returns frame n + 2.
abbrev next_frame : ℕ → ℕ
next_frame n = n + 2

abbrev empty : Desc
empty = record { tables = λ f i. null_desc; pml = 1; level = 4; allocs = 0; invalidated = [] }

abbrev root_only : Shape
root_only = record {
  rank = λ f. if f == 1 then 4 else 0;
  table = λ f. 0;
  place = λ f. 0;
  limit = 1000;
}

empty-IsTree : IsTree next_frame root_only empty
empty-IsTree = record {
  root = refl;
  below = λ f i l deep there. absurd (ground (arith, there, null_entry-null_desc));
  leads = λ f i l deep there. absurd (ground (arith, there, null_entry-null_desc));
  fresh = λ n le top. ground (arith, top);
  apart = λ n m le lt top. ground (arith, lt);
}

paging_map-translate_example :
    translate (paging_map next_frame empty 0x40201000 0x7000 3) 0x40201abc ≡ page_entry 0x7000 3
paging_map-translate_example =
    paging_map-translate next_frame root_only empty empty-IsTree (omega arith) 0x40201000 0x7000 3
      0x40201abc

paging_map_range-translate_example :
    translate (paging_map_range next_frame 3 empty 0x40201000 0x7000 3) 0x40202abc
    ≡ page_entry 0x8000 3
paging_map_range-translate_example =
    paging_map_range-translate next_frame 3 root_only empty empty-IsTree (omega arith) 0x40201000
      0x7000 3 refl (omega arith) (omega arith) 0x40202abc

-- A PDPT with its first entry present.
abbrev small : Desc
small = paging_map next_frame empty 0x1000 0x7000 3

small_get : paging_get small 0x1abc ≡ some (page_entry 0x7000 3)
unfolding paging_get null_entry paging_map write_page ensure
small_get = refl

paging_get_physical_address-map_example :
    paging_get_physical_address (paging_map next_frame empty 0x1000 0x7000 3) 0x1abc ≡ 0x7abc
paging_get_physical_address-map_example =
    paging_get_physical_address-map next_frame root_only empty empty-IsTree (omega arith) 0x1000
      0x7000 3 0x1abc refl refl refl refl

eight_pages : paging_is_aligned 0x8000 ≡ true
unfolding paging_is_aligned
eight_pages = refl

paging_align_address-least_example :
    (paging_is_aligned (paging_align_address 0x7001) ≡ true)
    × (paging_is_aligned (paging_align_to_lower_page 0x7001) ≡ true)
    × ((paging_align_address 0x7001 ≤ 0x8000) ↔ (0x7001 ≤ 0x8000))
    × ((0x8000 ≤ paging_align_to_lower_page 0x7001) ↔ (0x8000 ≤ 0x7001))
    × (paging_align_value_to_upper_page 0x7001 ≡ paging_align_address 0x7001)
paging_align_address-least_example =
    paging_align_address-least 0x7001 (omega arith) 0x8000 eight_pages
