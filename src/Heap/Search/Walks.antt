-- ===== src/Heap/Search/Walks.antt =====
-- The walks over the entries of an allocation.
use peach_os64bit_module_two.Common.{
  ℕ, zero, suc, ◌+◌, ◌-◌, ◌*◌, ◌≤◌, ◌<◌, ◌≡◌, refl, true, false, some, arith,
}
use peach_os64bit_module_two.Heap.{Heap, is_taken, has_next, address_to_block}
use peach_os64bit_module_two.Heap.Search.{count_loop, range_free, allocation_block_count}
use peach_os64bit_module_two.Heap.Alloc.Free.{IsAllocation}

-- The walk that counts an allocation finds all of its blocks.
count_loop_lem :
    (m n : ℕ) (e : ℕ → ℕ) (i count : ℕ)
    → 0 < n
    → n ≤ m
    → ((j : ℕ) → i ≤ j → j < i + n → is_taken (e j) ≡ true)
    → ((j : ℕ) → i ≤ j → j + 1 < i + n → has_next (e j) ≡ true)
    → has_next (e (i + n - 1)) ≡ false
    → count_loop e m i count ≡ count + n
unfolding count_loop
count_loop_lem m zero e i count pos le taken linked ends = absurd (omega arith)
count_loop_lem zero (suc n) e i count pos le taken linked ends = absurd (omega arith)
count_loop_lem (suc m) (suc zero) e i count pos le taken linked ends = ground (arith, taken i)
count_loop_lem (suc m) (suc (suc n)) e i count pos le taken linked ends =
    let same : i + suc (suc n) - 1 ≡ i + 1 + suc n - 1 = omega arith in
    ground (
      arith,
      taken i,
      linked i,
      count_loop_lem m (suc n) e (i + 1) (count + 1) (omega arith) (omega arith)
          (λ j x y. taken j (omega arith) (omega arith))
          (λ j x y. linked j (omega arith) (omega arith)) (rw same at ends),
    )

pub range_free_lem :
    (n : ℕ) (e : ℕ → ℕ) (i : ℕ)
    → ((j : ℕ) → i ≤ j → j < i + n → is_taken (e j) ≡ false)
    → range_free e n i ≡ true
unfolding range_free
range_free_lem zero e i all = refl
range_free_lem (suc n) e i all =
    ground (arith, all i, range_free_lem n e (i + 1) λ j x y. all j (omega arith) (omega arith))

module _ {h : Heap} {s n : ℕ} (a : IsAllocation h s n) where
  pub address_to_block_lem : address_to_block h (h.saddr + s * 4096) ≡ some s
  unfolding address_to_block
  address_to_block_lem = ground arith

  pub allocation_block_count_lem : allocation_block_count h (h.saddr + s * 4096) ≡ n
  unfolding allocation_block_count
  allocation_block_count_lem =
      rw (allocation_block_count, address_to_block_lem)
        (omega (
          arith,
          count_loop_lem (h.total - s) n h.entries s 0 a.pos (omega (arith, a.fits)) a.taken
              a.linked a.ends,
        ))
