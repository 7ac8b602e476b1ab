-- ===== src/E820/Tests.antt =====
-- The choice of memory/memory.c in a map of three entries.
use peach_os64bit_module_two.Common.{◌+◌, ◌*◌, ◌≡◌, refl, some, ◌==◌, if◌then◌else◌}
use peach_os64bit_module_two.E820.{
  MemoryMap, choose, largest_loop, e820_largest_free_entry, accessible_loop,
  e820_total_accessible_memory,
}

-- The last entry is the longest, but not usable.
abbrev three : MemoryMap
three = record {
  entries = λ i. record {
    base_addr = i * 4096;
    length = (i + 1) * 4096;
    type = if i == 2 then 2 else 1;
    extended_attr = 0;
  };
  total_entries = 3;
}

three_largest : e820_largest_free_entry three ≡ some 1
unfolding e820_largest_free_entry largest_loop choose
three_largest = refl

three_accessible : e820_total_accessible_memory three ≡ 0x3000
unfolding e820_total_accessible_memory accessible_loop
three_accessible = refl
