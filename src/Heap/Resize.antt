-- ===== src/Heap/Resize.antt =====
-- `heap_realloc` of memory/heap/heap.c.
pub mod Grow
pub mod Shrink
use peach_os64bit_module_two.Common.{
  ℕ, zero, suc, ◌+◌, ◌-◌, ◌*◌, ◌/◌, Option, none, some, ltb, leb, ◌==◌, if◌then◌else◌, update,
  add64,
}
use peach_os64bit_module_two.Heap.{
  Heap, block_size, entry_taken, block_has_next, set_has_next, clear_has_next, sub64,
  align_value_to_upper, address_to_block,
}
use peach_os64bit_module_two.Heap.Search.{is_block_range_free, allocation_block_count}
use peach_os64bit_module_two.Memory.{memcpy}
use peach_os64bit_module_two.Heap.Alloc.{malloc, mark_blocks_free, free, zalloc}

-- The loop that marks the blocks of an extension but its last.
unfoldable pub extend_loop : ℕ → (ℕ → ℕ) → ℕ → ℕ → ℕ
extend_loop zero entries i = entries
extend_loop (suc rounds) entries i =
    extend_loop rounds (update entries i (entry_taken + block_has_next)) (i + 1)

-- The branches of `heap_realloc` for an allocation of `current` blocks from block `start` on.
-- Fewer blocks are wanted.
unfoldable pub realloc_shrink : Heap → ℕ → ℕ → ℕ → Heap
realloc_shrink h start current new_total =
    let h' = mark_blocks_free h (start + new_total) in
    let last = start + new_total - 1 in
    let freed = current - new_total in
    record h' {
      entries =
          if ltb 0 new_total
          then update h'.entries last (clear_has_next (h'.entries last))
          else h'.entries;
      used_blocks = sub64 h'.used_blocks freed;
      free_blocks = add64 h'.free_blocks freed;
    }

-- The `extra` blocks behind the allocation are not taken.
unfoldable pub realloc_extend : Heap → ℕ → ℕ → ℕ → Heap
unfolding extend_loop
realloc_extend h start current extra =
    let extension_start = start + current in
    let extension_end = extension_start + extra - 1 in
    let ending_block = start + current - 1 in
    let marked = extend_loop (extra - 1) h.entries extension_start in
    let ended = update marked extension_end entry_taken in
    record h {
      entries = update ended ending_block (set_has_next (ended ending_block));
      used_blocks = add64 h.used_blocks extra;
      free_blocks = sub64 h.free_blocks extra;
    }

-- The data moves to a new allocation.
unfoldable pub realloc_move : Heap → ℕ → ℕ → ℕ → Option (ℕ × Heap)
unfolding zalloc free
realloc_move h old_ptr new_size_aligned old_total_size =
    let (new_addr, h') = zalloc h new_size_aligned in
    if new_addr == 0
    then some (0, h')
    else let copied : Heap = record h' { mem = memcpy h'.mem new_addr old_ptr old_total_size } in
      elim (free copied old_ptr) [ none ↦ none | some h'' ↦ some (new_addr, h'') ]

-- The part of `heap_realloc` behind its early returns: an allocation of `current` blocks from block
-- `start` on is to have `aligned` bytes. `none`: no block is allocated at the heap's first block,
-- so that its last block has index -1 and the source writes before its table.
unfoldable pub realloc_in : Heap → ℕ → ℕ → ℕ → ℕ → Option (ℕ × Heap)
realloc_in h old_ptr start current aligned =
    let new_total = aligned / block_size in
    if leb new_total current
    then (if current == new_total
        then some (old_ptr, h)
        else some (old_ptr, realloc_shrink h start current new_total))
    else if is_block_range_free h (start + current) (start + new_total - 1)
    then (if start + current == 0
        then none
        else some (old_ptr, realloc_extend h start current (new_total - current)))
    else realloc_move h old_ptr aligned (current * block_size)

-- `none` as in `free`.
unfoldable pub realloc : Heap → ℕ → ℕ → Option (ℕ × Heap)
realloc h old_ptr new_size =
    if old_ptr == 0
    then some (malloc h new_size)
    else if new_size == 0
    then (elim (free h old_ptr) [ none ↦ none | some h' ↦ some (0, h') ])
    else (elim (address_to_block h old_ptr) [
      | none ↦ none
      | some start ↦
          realloc_in h old_ptr start (allocation_block_count h old_ptr)
            (align_value_to_upper new_size)
    ])
