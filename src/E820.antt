-- ===== src/E820.antt =====
-- The readers of the firmware's memory map in memory/memory.c, and the mapping of its regions in
-- memory/paging/paging.c. The map is a table of entries with its length, of 16 bits.
pub mod Largest
mod Tests
use peach_os64bit_module_two.Common.{
  ℕ, zero, suc, ◌+◌, ◌*◌, Bool, true, false, not, Option, none, some, ltb, leb, ◌==◌, if◌then◌else◌,
  add64,
}
use peach_os64bit_module_two.Paging.{
  Desc, paging_map_to, paging_is_aligned, paging_align_address, paging_align_to_lower_page,
}

-- `struct e820_entry`
pub record Region : Type 0 where
  pub base_addr : ℕ
  pub length : ℕ
  pub type : ℕ
  pub extended_attr : ℕ

-- The table at PEACHOS_MEMORY_MAP_LOCATION, and `e820_total_entries`.
pub record MemoryMap : Type 0 where
  pub entries : ℕ → Region
  pub total_entries : ℕ

-- `e820_entry`
unfoldable pub e820_entry : MemoryMap → ℕ → Option Region
e820_entry map index = if leb map.total_entries index then none else some (map.entries index)

-- One round of `e820_largest_free_entry`, at entry `i`; the entry chosen is its index.
unfoldable pub choose : MemoryMap → ℕ → Option ℕ → Option ℕ
choose map i none = if (map.entries i).type == 1 then some i else none
choose map i (some c) =
    if (map.entries i).type == 1
    then (if ltb (map.entries c).length (map.entries i).length then some i else some c)
    else some c

-- Its loop: `rounds` more entries from `i` on.
unfoldable pub largest_loop : ℕ → MemoryMap → ℕ → Option ℕ → Option ℕ
largest_loop zero map i chosen = chosen
largest_loop (suc rounds) map i chosen = largest_loop rounds map (i + 1) (choose map i chosen)

-- `e820_largest_free_entry`
unfoldable pub e820_largest_free_entry : MemoryMap → Option ℕ
e820_largest_free_entry map = largest_loop map.total_entries map 0 none

-- The loop of `e820_total_accessible_memory`.
unfoldable pub accessible_loop : ℕ → MemoryMap → ℕ → ℕ → ℕ
accessible_loop zero map i total = total
accessible_loop (suc rounds) map i total =
    accessible_loop rounds map (i + 1)
      (if (map.entries i).type == 1 then add64 total (map.entries i).length else total)

-- `e820_total_accessible_memory`
unfoldable pub e820_total_accessible_memory : MemoryMap → ℕ
e820_total_accessible_memory map = accessible_loop map.total_entries map 0 0

module _ (kzalloc : ℕ → ℕ) where
  -- One usable region mapped to itself, its ends brought to pages; the flags are writeable and
  -- present.
  unfoldable pub map_region : Desc → Region → Desc
  map_region desc entry =
      if entry.type == 1
      then (let base = entry.base_addr in
          let last = add64 entry.base_addr entry.length in
          let base_addr =
            if not (paging_is_aligned base) then paging_align_address base else base in
          let end_addr =
            if not (paging_is_aligned last) then paging_align_to_lower_page last else last in
          (paging_map_to kzalloc desc base_addr base_addr end_addr 3).1)
      else desc

  unfoldable pub regions_loop : ℕ → MemoryMap → ℕ → Desc → Desc
  regions_loop zero map i desc = desc
  regions_loop (suc rounds) map i desc =
      regions_loop rounds map (i + 1) (map_region desc (map.entries i))

  -- `paging_map_e820_memory_regions`
  unfoldable pub paging_map_e820_memory_regions : MemoryMap → Desc → Desc
  paging_map_e820_memory_regions map desc =
      regions_loop map.total_entries map 0 (paging_map_to kzalloc desc 0 0 0x100000 3).1
