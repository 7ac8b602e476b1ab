-- ===== src/Heap/Resize/Shrink.antt =====
-- `heap_realloc` that shrinks an allocation in place.
use peach_os64bit_module_two.Common.{
  ℕ, ◌+◌, ◌-◌, ◌*◌, ◌/◌, ◌<◌, ◌≡◌, ◌≢◌, false, some, arith, ◌==◌, if◌then◌else◌,
}
use peach_os64bit_module_two.Memory.Laws.{within}
use peach_os64bit_module_two.Heap.{Heap, clear_has_next, align_value_to_upper, sub64}
use peach_os64bit_module_two.Heap.Count.{IsValid, count_in, count_in-ext}
use peach_os64bit_module_two.Heap.Alloc.{mark_blocks_free}
use peach_os64bit_module_two.Heap.Alloc.Free.{IsAllocation, Freed, mark_blocks_free-Freed}
use peach_os64bit_module_two.Heap.Alloc.Malloc.{blocks_for}
use peach_os64bit_module_two.Heap.Alloc.Marks.{SameFrame}
use peach_os64bit_module_two.Heap.Resize.{realloc_in, realloc_shrink, realloc}
use peach_os64bit_module_two.Heap.Search.Walks.{address_to_block_lem, allocation_block_count_lem}

-- The entry of block `j` after an allocation of `n` blocks is cut to its first `k`.
abbrev pub shrunk : (ℕ → ℕ) → ℕ → ℕ → ℕ → ℕ → ℕ
shrunk e s n k j =
    if j == s + k - 1 then clear_has_next (e j) else if within (s + k) (n - k) j then 0 else e j

module _ {h : Heap} {s n k : ℕ} (v : IsValid h) (a : IsAllocation h s n) (pos : 0 < k)
    (less : k < n) where
  -- The blocks that are cut off are an allocation of their own.
  tail-IsAllocation : IsAllocation h (s + k) (n - k)
  tail-IsAllocation =
      let last : s + n - 1 ≡ s + k + (n - k) - 1 = omega arith in
      record {
        pos = omega arith;
        fits = omega (arith, a.fits);
        taken = λ j x y. a.taken j (omega arith) (omega arith);
        linked = λ j x y. a.linked j (omega arith) (omega arith);
        ends = rw last at a.ends;
      }

  tail-Freed : Freed h (s + k) (n - k) (mark_blocks_free h (s + k))
  tail-Freed = mark_blocks_free-Freed v tail-IsAllocation

  realloc_shrink-entries : (j : ℕ) → (realloc_shrink h s n k).entries j ≡ shrunk h.entries s n k j
  unfolding realloc_shrink
  realloc_shrink-entries j = ground (arith, tail-Freed.entries j, tail-Freed.entries (s + k - 1))

  realloc_shrink-frame : SameFrame h (realloc_shrink h s n k)
  unfolding realloc_shrink
  realloc_shrink-frame = ground (arith, tail-Freed.frame)

  realloc_shrink-used :
      (realloc_shrink h s n k).used_blocks ≡ sub64 (mark_blocks_free h (s + k)).used_blocks (n - k)
  unfolding realloc_shrink
  realloc_shrink-used = ground arith

  realloc_shrink-IsAllocation : IsAllocation (realloc_shrink h s n k) s k
  realloc_shrink-IsAllocation = record {
    pos = pos;
    fits = ground (arith, realloc_shrink-frame, a.fits);
    taken = λ j x y. ground (arith, realloc_shrink-entries j, a.taken j);
    linked = λ j x y. ground (arith, realloc_shrink-entries j, a.linked j);
    ends = ground (arith, realloc_shrink-entries (s + k - 1));
  }

  realloc_shrink-count :
      count_in (realloc_shrink h s n k).entries 0 h.total
      ≡ count_in (mark_blocks_free h (s + k)).entries 0 h.total
  realloc_shrink-count =
      count_in-ext h.total (mark_blocks_free h (s + k)).entries _ 0
        λ j x y. ground (arith, realloc_shrink-entries j, tail-Freed.entries j)

  -- The counters do not count: the freed blocks are subtracted twice.
  realloc_shrink-miscount : ¬ IsValid (realloc_shrink h s n k)
  realloc_shrink-miscount bad = ground (
    arith, a.fits, v.small, bad.used, realloc_shrink-used, realloc_shrink-frame,
    realloc_shrink-count, tail-Freed.used, tail-Freed.frame, tail-Freed.valid,
  )

realloc_in-shrinks :
    (h : Heap) (ptr s n aligned : ℕ)
    → aligned / 4096 < n
    → realloc_in h ptr s n aligned ≡ some (ptr, realloc_shrink h s n (aligned / 4096))
unfolding realloc_in
realloc_in-shrinks h ptr s n aligned less = ground arith

-- `heap_realloc` of a well-linked allocation to fewer blocks, but at least one, shrinks it in
-- place: the pointer stays, the allocation is well linked with its new number of blocks, the
-- blocks cut off are free and no other block's entry changes. But the counters are wrong
-- afterwards, since the freed blocks are subtracted from the used ones twice.
pub realloc-shrinks :
    (h : Heap) (s n size : ℕ)
    → IsValid h
    → IsAllocation h s n
    → h.saddr + s * 4096 ≢ 0
    → 0 < size
    → 0 < blocks_for size
    → blocks_for size < n
    → (h' : Heap) × (realloc h (h.saddr + s * 4096) size ≡ some (h.saddr + s * 4096, h'))
      × IsAllocation h' s (blocks_for size)
      × ((j : ℕ) → h'.entries j ≡ shrunk h.entries s n (blocks_for size) j)
      × (¬ IsValid h')
unfolding realloc
realloc-shrinks h s n size v a here pos some_left less =
    let null : (h.saddr + s * 4096 == 0) ≡ false = ground arith in
    let empty : (size == 0) ≡ false = ground arith in
    (
      realloc_shrink h s n (blocks_for size),
      rw (null, empty, address_to_block_lem a, allocation_block_count_lem a)
          (realloc_in-shrinks h (h.saddr + s * 4096) s n (align_value_to_upper size) less),
      realloc_shrink-IsAllocation v a some_left less,
      realloc_shrink-entries v a some_left less,
      realloc_shrink-miscount v a some_left less,
    )
