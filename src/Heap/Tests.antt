-- ===== src/Heap/Tests.antt =====
-- Runs of the heap of memory/heap/heap.c, and its theorems at a small heap.
use peach_os64bit_module_two.Common.{
  ℕ, zero, suc, ◌+◌, ◌<◌, ◌≤◌, ◌≡◌, ◌⊎◌, inl, inr, refl, true, false, some, [], ◌∷◌, map, arith,
  if◌then◌else◌, get_or,
}
use peach_os64bit_module_two.Status.{ok}
use peach_os64bit_module_two.Memory.Laws.{within}
use peach_os64bit_module_two.Heap.{Heap, is_taken, has_next, create, align_value_to_upper}
use peach_os64bit_module_two.Heap.Count.{IsEntry, IsValid, count_in}
use peach_os64bit_module_two.Heap.Create.{create-IsValid}
use peach_os64bit_module_two.Heap.Search.{get_start_block}
use peach_os64bit_module_two.Heap.Search.FirstFit.{AllFree, FirstFit, Found, get_start_block-cases}
use peach_os64bit_module_two.Heap.Alloc.{malloc, free}
use peach_os64bit_module_two.Heap.Alloc.Malloc.{
  Malloced, blocks_for, malloc-FirstFit, malloc-disjoint,
}
use peach_os64bit_module_two.Heap.Alloc.Free.{IsAllocation, Freed, free-Freed}
use peach_os64bit_module_two.Heap.Resize.{realloc}
use peach_os64bit_module_two.Heap.Resize.Grow.{extended, realloc-extends}

-- Six blocks from address 0x10000 on, of which the second is taken.
abbrev table : ℕ → ℕ
table j = get_or (0 ∷ 0x41 ∷ []) j 0

abbrev small_heap : Heap
small_heap = record {
  entries = table;
  total = 6;
  saddr = 0x10000;
  eaddr = 0x16000;
  total_blocks = 6;
  free_blocks = 5;
  used_blocks = 1;
  block_allocated_callback = false;
  block_free_callback = false;
  calls = [];
  mem = λ a. 0xff;
}

malloc_runs : (malloc small_heap 8000).0 ≡ 0x12000
unfolding malloc
malloc_runs = refl

-- The last entry of the allocation has HAS_NEXT too.
malloc_entries :
    map (malloc small_heap 8000).1.entries (0 ∷ 1 ∷ 2 ∷ 3 ∷ 4 ∷ [])
    ≡ 0 ∷ 0x41 ∷ 0xc1 ∷ 0x81 ∷ 0 ∷ []
unfolding malloc
malloc_entries = refl

table-IsEntry : (j : ℕ) → IsEntry (table j)
table-IsEntry zero = inl refl
table-IsEntry (suc zero) = inr refl
table-IsEntry (suc (suc j)) = inl refl

small_heap-IsValid : IsValid small_heap
unfolding count_in
small_heap-IsValid = record {
  used = refl;
  all = refl;
  small = omega arith;
  kinds = λ j room. table-IsEntry j;
}

create-IsValid_example :
    let (r, h) = create small_heap 0x10000 0x14000 table 4 in
    (r ≡ ok tt)
    × IsValid h
    × (h.used_blocks ≡ 0)
    × ((j : ℕ) → h.entries j ≡ (if within 0 4 j then 0 else table j))
create-IsValid_example =
    create-IsValid small_heap 0x10000 0x14000 table 4 refl refl (omega arith) (omega arith) refl

get_start_block-cases_example : Found table 6 2 (get_start_block small_heap 2)
get_start_block-cases_example = get_start_block-cases small_heap 2 (omega arith)

malloc-FirstFit_example :
    let r = malloc small_heap 8000 in
    ((s : ℕ) × FirstFit table 6 (blocks_for 8000) s
      × Malloced small_heap s (blocks_for 8000) r.0 r.1)
    ⊎ ((r ≡ (0, small_heap))
        × ((s : ℕ) → AllFree table s (blocks_for 8000) → 6 < s + blocks_for 8000))
malloc-FirstFit_example =
    malloc-FirstFit small_heap 8000 small_heap-IsValid (omega arith) (omega arith)

malloc-disjoint_example :
    let (p, h) = malloc small_heap 8000 in
    let (q, h') = malloc h 100 in (p + 8000 ≤ q) ⊎ (q + 100 ≤ p)
unfolding malloc
malloc-disjoint_example =
    malloc-disjoint small_heap 8000 100 small_heap-IsValid (omega arith) (omega arith) (omega arith)
      (omega arith) (omega arith) (omega arith)

block_one_taken : (j : ℕ) → 1 ≤ j → j < 2 → is_taken (table j) ≡ true
block_one_taken zero a b = absurd (omega arith)
block_one_taken (suc zero) a b = refl
block_one_taken (suc (suc j)) a b = absurd (omega arith)

block_one : IsAllocation small_heap 1 1
block_one = record {
  pos = omega arith;
  fits = omega arith;
  taken = block_one_taken;
  linked = λ j a b. absurd (omega arith);
  ends = refl;
}

free-Freed_example : (h : Heap) × (free small_heap 0x11000 ≡ some h) × Freed small_heap 1 1 h
free-Freed_example = free-Freed small_heap-IsValid block_one 0 (omega arith)

second_run : AllFree table 2 2
second_run zero a b = absurd (omega arith)
second_run (suc zero) a b = absurd (omega arith)
second_run (suc (suc j)) a b = refl

second_first : (s : ℕ) → AllFree table s 2 → 2 ≤ s
second_first zero run = absurd (omega (arith, run 1 (omega arith) (omega arith)))
second_first (suc zero) run = absurd (omega (arith, run 1 (omega arith) (omega arith)))
second_first (suc (suc s)) run = omega arith

two_fit : FirstFit table 6 2 2
two_fit = record { fits = omega arith; free_run = second_run; first = second_first }

behind_free : (j : ℕ) → 1 + 1 ≤ j → j < 1 + 3 → is_taken (table j) ≡ false
behind_free zero a b = absurd (omega arith)
behind_free (suc zero) a b = absurd (omega arith)
behind_free (suc (suc j)) a b = refl

realloc-extends_example :
    (h : Heap) × (realloc small_heap 0x11000 10000 ≡ some (0x11000, h))
    × IsAllocation h 1 3
    × ((j : ℕ) → h.entries j ≡ extended table 1 1 2 j)
    × (h.used_blocks + 1 ≡ 1 + 3)
    × IsValid h
unfolding align_value_to_upper
realloc-extends_example =
    realloc-extends small_heap 1 1 10000 small_heap-IsValid block_one (omega arith) (omega arith)
      (omega arith) (omega arith) behind_free

-- The heap after that growth: blocks 1, 2 and 3 are one allocation.
abbrev grown_table : ℕ → ℕ
grown_table j = get_or (0 ∷ 0xc1 ∷ 0x81 ∷ 0x01 ∷ []) j 0

abbrev grown_heap : Heap
grown_heap = record small_heap { entries = grown_table; used_blocks = 3; free_blocks = 3 }

grown-IsEntry : (j : ℕ) → IsEntry (grown_table j)
grown-IsEntry zero = inl refl
grown-IsEntry (suc zero) = inr refl
grown-IsEntry (suc (suc zero)) = inr refl
grown-IsEntry (suc (suc (suc zero))) = inr refl
grown-IsEntry (suc (suc (suc (suc j)))) = inl refl

grown-IsValid : IsValid grown_heap
unfolding count_in
grown-IsValid = record {
  used = refl;
  all = refl;
  small = omega arith;
  kinds = λ j room. grown-IsEntry j;
}

grown_taken : (j : ℕ) → 1 ≤ j → j < 1 + 3 → is_taken (grown_table j) ≡ true
grown_taken zero a b = absurd (omega arith)
grown_taken (suc zero) a b = refl
grown_taken (suc (suc zero)) a b = refl
grown_taken (suc (suc (suc zero))) a b = refl
grown_taken (suc (suc (suc (suc j)))) a b = absurd (omega arith)

grown_linked : (j : ℕ) → 1 ≤ j → j + 1 < 1 + 3 → has_next (grown_table j) ≡ true
grown_linked zero a b = absurd (omega arith)
grown_linked (suc zero) a b = refl
grown_linked (suc (suc zero)) a b = refl
grown_linked (suc (suc (suc j))) a b = absurd (omega arith)

grown : IsAllocation grown_heap 1 3
grown = record {
  pos = omega arith;
  fits = omega arith;
  taken = grown_taken;
  linked = grown_linked;
  ends = refl;
}
