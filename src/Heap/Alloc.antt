-- ===== src/Heap/Alloc.antt =====
-- Allocation and release of blocks in memory/heap/heap.c.
pub mod Marks
pub mod Malloc
pub mod Free
use peach_os64bit_module_two.Common.{
  ℕ, zero, suc, ◌+◌, ◌-◌, ◌/◌, Bool, Option, none, some, List, ◌∷◌, ltb, ◌==◌, if◌then◌else◌,
  update, add64,
}
use peach_os64bit_module_two.Heap.{
  Heap, block_size, entry_taken, entry_free, block_has_next, block_is_first, has_next, sub64, Call,
  block_allocated, block_freed, align_value_to_upper, block_to_address, address_to_block,
}
use peach_os64bit_module_two.Heap.Search.{get_start_block}
use peach_os64bit_module_two.Memory.{memset}
use peach_os64bit_module_two.Status.{ok, err}

called : Bool → Call → List Call → List Call
called present c calls = if present then c ∷ calls else calls

-- One round of `heap_mark_blocks_taken`: block `i` is given `entry`.
take_block : Heap → ℕ → ℕ → Heap
unfolding called block_to_address
take_block h i entry = record h {
  entries = update h.entries i entry;
  calls =
      called h.block_allocated_callback (block_allocated (block_to_address h i) block_size) h.calls;
}

-- The entry of the next round.
abbrev next_entry : ℕ → ℕ → ℕ
next_entry i end_block = if i == end_block then entry_taken else entry_taken + block_has_next

-- The loop of `heap_mark_blocks_taken`: `entry` is what block `i` is given.
take_loop : ℕ → Heap → ℕ → ℕ → ℕ → Heap
unfolding take_block
take_loop zero h i end_block entry = h
take_loop (suc rounds) h i end_block entry =
    take_loop rounds (take_block h i entry) (i + 1) end_block (next_entry i end_block)

unfoldable pub mark_blocks_taken : Heap → ℕ → ℕ → Heap
unfolding take_loop
mark_blocks_taken h start_block total_blocks =
    take_loop total_blocks h start_block (start_block + total_blocks - 1)
      (entry_taken + block_is_first + (if ltb 1 total_blocks then block_has_next else 0))

-- The rest of `heap_malloc_blocks`, once the run is found.
take_run : Heap → ℕ → ℕ → ℕ × Heap
unfolding mark_blocks_taken block_to_address
take_run h start_block total_blocks =
    let h' = mark_blocks_taken h start_block total_blocks in
    (
      block_to_address h start_block,
      record h' {
        used_blocks = add64 h'.used_blocks total_blocks;
        free_blocks = sub64 h'.free_blocks total_blocks;
      },
    )

-- The address is 0 (NULL) when there is no free run.
unfoldable pub malloc_blocks : Heap → ℕ → ℕ × Heap
unfolding get_start_block take_run
malloc_blocks h total_blocks = elim (get_start_block h total_blocks) [
  | err _ ↦ (0, h)
  | ok start_block ↦ take_run h start_block total_blocks
]

-- One round of `heap_mark_blocks_free`.
free_block : Heap → ℕ → Heap
unfolding called block_to_address
free_block h i = record h {
  entries = update h.entries i entry_free;
  calls = called h.block_free_callback (block_freed (block_to_address h i)) h.calls;
}

-- The loop of `heap_mark_blocks_free`, with the blocks freed so far.
free_loop : ℕ → Heap → ℕ → ℕ → Heap × ℕ
unfolding free_block
free_loop zero h i freed = (h, freed)
free_loop (suc rounds) h i freed =
    let rest = free_loop rounds (free_block h i) (i + 1) (freed + 1) in
    if has_next (h.entries i) then rest else (free_block h i, freed + 1)

unfoldable pub mark_blocks_free : Heap → ℕ → Heap
unfolding free_loop
mark_blocks_free h starting_block =
    let (h', freed) = free_loop (h.total - starting_block) h starting_block 0 in
    record h' { used_blocks = sub64 h'.used_blocks freed; free_blocks = add64 h'.free_blocks freed }

unfoldable pub malloc : Heap → ℕ → ℕ × Heap
unfolding malloc_blocks align_value_to_upper
malloc h size = malloc_blocks h (align_value_to_upper size / block_size)

-- `none`: the block index is negative, and the source writes before its table.
unfoldable pub free : Heap → ℕ → Option Heap
unfolding mark_blocks_free address_to_block
free h ptr = elim (address_to_block h ptr) [
  | none ↦ none
  | some block ↦ some (mark_blocks_free h block)
]

unfoldable pub zalloc : Heap → ℕ → ℕ × Heap
unfolding malloc
zalloc h size =
    let (ptr, h') = malloc h size in
    if ptr == 0 then (0, h') else (ptr, record h' { mem = memset h'.mem ptr 0 size })
