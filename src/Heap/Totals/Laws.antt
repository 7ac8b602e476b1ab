-- ===== src/Heap/Totals/Laws.antt =====
-- The reported sizes agree with the heap's counters.
use peach_os64bit_module_two.Common.{ℕ, zero, suc, ◌+◌, ◌*◌, ◌^◌, ◌<◌, ◌≤◌, ◌≡◌, arith}
use peach_os64bit_module_two.Heap.{Heap}
use peach_os64bit_module_two.Heap.Count.{IsValid, IsEntry, count_in, count_in-le}
use peach_os64bit_module_two.Heap.Totals.{used_loop, total_size, total_used, total_available}

used_loop_lem :
    (n : ℕ) (e : ℕ → ℕ) (i total : ℕ)
    → ((j : ℕ) → i ≤ j → j < i + n → IsEntry (e j))
    → total + n * 4096 < 2 ^ 64
    → used_loop e n i total ≡ total + count_in e i n * 4096
unfolding used_loop count_in
used_loop_lem zero e i total kinds small = omega arith
used_loop_lem (suc n) e i total kinds small =
    let kind = kinds i (omega arith) (omega arith) in
    let later =
      λ (j : ℕ) (x : i + 1 ≤ j) (y : j < i + 1 + n). kinds j (omega arith) (omega arith) in
    ground (
      arith,
      kind,
      used_loop_lem n e (i + 1) total later,
      used_loop_lem n e (i + 1) (total + 4096) later,
    )

-- In a valid heap the reported sizes are those of the counted blocks: used and available bytes are
-- the used and free blocks, and make up the size of the heap.
pub totals_lem :
    (h : Heap)
    → IsValid h
    → (total_used h ≡ h.used_blocks * 4096)
      × (total_available h ≡ h.free_blocks * 4096)
      × (total_used h + total_available h ≡ total_size h)
unfolding total_used total_available total_size
totals_lem h v =
    let used =
      used_loop_lem h.total h.entries 0 0 (λ j x y. v.kinds j (omega arith))
        (omega (arith, v.small)) in
    let most = count_in-le h.total h.entries 0 in ground (arith, used, most, v.used, v.all, v.small)
