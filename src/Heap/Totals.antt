-- ===== src/Heap/Totals.antt =====
-- The sizes that memory/heap/heap.c reports.
pub mod Laws
use peach_os64bit_module_two.Common.{ℕ, zero, suc, ◌+◌, ◌*◌, ◌%◌, ◌^◌, ◌==◌, if◌then◌else◌, add64}
use peach_os64bit_module_two.Heap.{Heap, block_size, entry_taken, entry_type, sub64}

unfoldable pub total_size : Heap → ℕ
total_size h = h.total * block_size % 2 ^ 64

unfoldable pub used_loop : (ℕ → ℕ) → ℕ → ℕ → ℕ → ℕ
used_loop entries zero i total = total
used_loop entries (suc rounds) i total =
    used_loop entries rounds (i + 1)
      (if entry_type (entries i) == entry_taken then add64 total block_size else total)

unfoldable pub total_used : Heap → ℕ
unfolding used_loop
total_used h = used_loop h.entries h.total 0 0

unfoldable pub total_available : Heap → ℕ
unfolding total_size total_used
total_available h = sub64 (total_size h) (total_used h)
