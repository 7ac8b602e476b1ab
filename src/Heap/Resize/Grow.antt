-- ===== src/Heap/Resize/Grow.antt =====
-- `heap_realloc` that grows an allocation in place.
use peach_os64bit_module_two.Common.{
  ℕ, zero, suc, ◌+◌, ◌-◌, ◌*◌, ◌/◌, ◌≤◌, ◌<◌, ◌≡◌, ◌≢◌, true, false, some, arith, ◌==◌,
  if◌then◌else◌, subst, update,
}
use peach_os64bit_module_two.Memory.Laws.{within}
use peach_os64bit_module_two.Heap.{Heap, is_taken, set_has_next, align_value_to_upper}
use peach_os64bit_module_two.Heap.Count.{IsValid, count_in, count_in-change, count_in-le}
use peach_os64bit_module_two.Heap.Search.{is_block_range_free}
use peach_os64bit_module_two.Heap.Alloc.Free.{IsAllocation}
use peach_os64bit_module_two.Heap.Alloc.Malloc.{blocks_for}
use peach_os64bit_module_two.Heap.Resize.{extend_loop, realloc_extend, realloc_in, realloc}
use peach_os64bit_module_two.Heap.Search.Walks.{
  range_free_lem, address_to_block_lem, allocation_block_count_lem,
}

extend_loop_lem :
    (rounds : ℕ) (e : ℕ → ℕ) (i j : ℕ)
    → extend_loop rounds e i j ≡ (if within i rounds j then 0x81 else e j)
unfolding extend_loop
extend_loop_lem zero e i j = ground arith
extend_loop_lem (suc rounds) e i j =
    ground (arith, extend_loop_lem rounds (update e i 0x81) (i + 1) j)

-- The entry of block `j` after an extension by `extra` blocks.
abbrev pub extended : (ℕ → ℕ) → ℕ → ℕ → ℕ → ℕ → ℕ
extended e s n extra j =
    if j == s + n - 1
    then set_has_next (e j)
    else if j == s + n + extra - 1
    then 0x01
    else if within (s + n) extra j
    then 0x81
    else e j

module _ {h : Heap} {s n : ℕ} (extra : ℕ) (v : IsValid h) (a : IsAllocation h s n) (pos : 0 < extra)
    (room : s + n + extra ≤ h.total)
    (unused : (j : ℕ) → s + n ≤ j → j < s + n + extra → is_taken (h.entries j) ≡ false) where
  realloc_extend-entries :
      (j : ℕ) → (realloc_extend h s n extra).entries j ≡ extended h.entries s n extra j
  unfolding realloc_extend
  realloc_extend-entries j = ground (
    arith,
    a.pos,
    extend_loop_lem (extra - 1) h.entries (s + n) j,
    extend_loop_lem (extra - 1) h.entries (s + n) (s + n - 1),
  )

  realloc_extend-count :
      count_in (realloc_extend h s n extra).entries 0 h.total ≡ h.used_blocks + extra
  realloc_extend-count = omega (
    arith,
    v.used,
    count_in-change h.entries (realloc_extend h s n extra).entries (s + n) extra h.total false true
        room unused (λ j x y. ground (arith, realloc_extend-entries j, a.pos))
        (λ j out. ground (arith, realloc_extend-entries j, a.pos)),
  )

  realloc_extend-IsAllocation : IsAllocation (realloc_extend h s n extra) s (n + extra)
  unfolding realloc_extend
  realloc_extend-IsAllocation = record {
    pos = omega arith;
    fits = omega arith;
    taken = λ j x y. ground (arith, realloc_extend-entries j, a.pos, a.taken j);
    linked = λ j x y. ground (arith, realloc_extend-entries j, a.pos, a.linked j);
    ends = ground (arith, realloc_extend-entries (s + (n + extra) - 1), a.pos);
  }

  realloc_extend-used : (realloc_extend h s n extra).used_blocks ≡ h.used_blocks + extra
  unfolding realloc_extend
  realloc_extend-used = omega (
    arith,
    realloc_extend-count,
    count_in-le h.total (realloc_extend h s n extra).entries 0,
    v.small,
  )

  realloc_extend-IsValid : IsValid (realloc_extend h s n extra)
  unfolding realloc_extend
  realloc_extend-IsValid =
      let most = count_in-le h.total (realloc_extend h s n extra).entries 0 in
      record {
        used = omega (arith, realloc_extend-count, most, v.small);
        all = omega (arith, realloc_extend-count, most, v.small, v.all);
        small = v.small;
        kinds = λ j x. ground (arith, realloc_extend-entries j, a.pos, a.taken j, v.kinds j);
      }

realloc_in-extends :
    (h : Heap) (ptr s n aligned : ℕ)
    → 0 < n
    → n < aligned / 4096
    → ((j : ℕ) → s + n ≤ j → j < s + aligned / 4096 → is_taken (h.entries j) ≡ false)
    → realloc_in h ptr s n aligned ≡ some (ptr, realloc_extend h s n (aligned / 4096 - n))
unfolding realloc_in is_block_range_free
realloc_in-extends h ptr s n aligned pos more unused = ground (
  arith,
  range_free_lem (s + aligned / 4096 - 1 + 1 - (s + n)) h.entries (s + n)
      λ j x y. unused j x (omega arith),
)

-- `heap_realloc` of a well-linked allocation to more blocks, where enough blocks behind it are
-- not taken, grows it in place: the pointer stays, the allocation is well linked with its new
-- number of blocks, only the linked blocks' entries change, and the counters stay right.
pub realloc-extends :
    (h : Heap) (s n size : ℕ)
    → IsValid h
    → IsAllocation h s n
    → h.saddr + s * 4096 ≢ 0
    → 0 < size
    → n < blocks_for size
    → s + blocks_for size ≤ h.total
    → ((j : ℕ) → s + n ≤ j → j < s + blocks_for size → is_taken (h.entries j) ≡ false)
    → (h' : Heap) × (realloc h (h.saddr + s * 4096) size ≡ some (h.saddr + s * 4096, h'))
      × IsAllocation h' s (blocks_for size)
      × ((j : ℕ) → h'.entries j ≡ extended h.entries s n (blocks_for size - n) j)
      × (h'.used_blocks + n ≡ h.used_blocks + blocks_for size)
      × IsValid h'
unfolding realloc
realloc-extends h s n size v a here pos more room unused =
    let extra = blocks_for size - n in
    let all : s + n + extra ≡ s + blocks_for size = omega arith in
    let fit : s + n + extra ≤ h.total = omega arith in
    let behind : (j : ℕ) → s + n ≤ j → j < s + n + extra → is_taken (h.entries j) ≡ false =
      λ j x y. unused j x (omega arith) in
    let grown : n + extra ≡ blocks_for size = omega arith in
    let null : (h.saddr + s * 4096 == 0) ≡ false = ground arith in
    let empty : (size == 0) ≡ false = ground arith in
    (
      realloc_extend h s n extra,
      rw (null, empty, address_to_block_lem a, allocation_block_count_lem a)
          (realloc_in-extends h (h.saddr + s * 4096) s n (align_value_to_upper size) a.pos more
            unused),
      subst (λ k. IsAllocation (realloc_extend h s n extra) s k) grown
          (realloc_extend-IsAllocation extra v a (omega arith) fit behind),
      realloc_extend-entries extra v a (omega arith) fit behind,
      omega (arith, realloc_extend-used extra v a (omega arith) fit behind),
      realloc_extend-IsValid extra v a (omega arith) fit behind,
    )
