-- ===== src/Heap/Alloc/Malloc.antt =====
-- `heap_malloc`: the blocks that it takes, and what it leaves alone.
use peach_os64bit_module_two.Common.{
  ℕ, ◌+◌, ◌-◌, ◌*◌, ◌/◌, ◌^◌, ◌≤◌, ◌<◌, ◌≡◌, ◌≢◌, ◌⊎◌, inl, inr, refl, true, false, ap, arith, ltb,
  Bool-cases,
}
use peach_os64bit_module_two.Heap.{Heap, is_taken, align_value_to_upper, block_to_address}
use peach_os64bit_module_two.Heap.Count.{IsValid, IsEntry, count_in, count_in-change, count_in-le}
use peach_os64bit_module_two.Heap.Search.FirstFit.{AllFree, FirstFit, get_start_block-cases}
use peach_os64bit_module_two.Heap.Alloc.{mark_blocks_taken, take_run, malloc_blocks, malloc}
use peach_os64bit_module_two.Heap.Alloc.Marks.{
  SameFrame, marked, mark_blocks_taken_lem, mark_blocks_taken-frame,
}

-- The blocks that `heap_malloc` asks for.
abbrev pub blocks_for : ℕ → ℕ
blocks_for size = align_value_to_upper size / 4096

-- `blocks_for` rounds a size up, short of the last page of the address space.
pub blocks_for-bounds :
    (size : ℕ)
    → size ≤ 2 ^ 64 - 4096
    → (size ≤ blocks_for size * 4096) × (blocks_for size * 4096 < size + 4096)
unfolding align_value_to_upper
blocks_for-bounds size small = ground arith

-- What a successful allocation of `n` blocks from block `s` on makes of the heap.
pub record Malloced (h : Heap) (s n ptr : ℕ) (h' : Heap) : Type 0 where
  pub address : ptr ≡ h.saddr + s * 4096
  pub entries : (j : ℕ) → h'.entries j ≡ marked h.entries s n j
  pub used : h'.used_blocks ≡ h.used_blocks + n
  pub mem : h'.mem ≡ h.mem
  pub frame : SameFrame h h'
  pub valid : IsValid h'

module _ {h : Heap} {s n : ℕ} (v : IsValid h) (fit : FirstFit h.entries h.total n s) where
  free_of_run : (j : ℕ) → s ≤ j → j < s + n → is_taken (h.entries j) ≡ false
  free_of_run j a b = ground (arith, fit.free_run j a b)

  count-marked :
      (e : ℕ → ℕ)
      → ((j : ℕ) → e j ≡ marked h.entries s n j)
      → count_in e 0 h.total ≡ h.used_blocks + n
  count-marked e same = omega (
    arith,
    v.used,
    count_in-change h.entries e s n h.total false true fit.fits free_of_run
        (λ j a b. ground (arith, same j)) (λ j out. ground (arith, same j)),
  )

  IsEntry-marked :
      (e : ℕ → ℕ) → ((j : ℕ) → e j ≡ marked h.entries s n j) → (j : ℕ) → j < h.total → IsEntry (e j)
  IsEntry-marked e same j room = ground (arith, same j, v.kinds j room)

  take_run-Malloced : Malloced h s n (take_run h s n).0 (take_run h s n).1
  unfolding take_run block_to_address
  take_run-Malloced =
      let h' = mark_blocks_taken h s n in
      let same = mark_blocks_taken_lem h s n in
      let frame = mark_blocks_taken-frame h s n in
      let count = count-marked h'.entries same in
      let most = count_in-le h.total h'.entries 0 in
      record {
        address = refl;
        entries = same;
        used = ground (arith, frame, count, most, v.small);
        mem = ground (arith, frame);
        frame = ground (arith, frame);
        valid = record {
          used = ground (arith, frame, count, most, v.small);
          all = ground (arith, frame, count, most, v.small, v.all);
          small = ground (arith, frame, v.small);
          kinds = λ j room. IsEntry-marked h'.entries same j (ground (arith, frame));
        };
      }

-- `heap_malloc` of a size from 1 byte on takes the first run of free blocks that holds the size, if
-- the table has one, and keeps the counters right; else it returns NULL and changes nothing.
pub malloc-FirstFit :
    (h : Heap) (size : ℕ)
    → IsValid h
    → 0 < size
    → size ≤ 2 ^ 64 - 4096
    → let n = blocks_for size in
      let r = malloc h size in
      ((s : ℕ) × FirstFit h.entries h.total n s × Malloced h s n r.0 r.1)
      ⊎ ((r ≡ (0, h)) × ((s : ℕ) → AllFree h.entries s n → h.total < s + n))
unfolding malloc malloc_blocks
malloc-FirstFit h size v pos small =
    let n = blocks_for size in
    elim (get_start_block-cases h n (omega (arith, blocks_for-bounds size small))) [
      | inl (s, found, fit) ↦ inl (s, fit, rw (found, malloc_blocks) (take_run-Malloced v fit))
      | inr (refused, full) ↦ inr (rw (refused, malloc_blocks), full)
    ]

module _ {h h' : Heap} {s n s' n' p : ℕ} (m : Malloced h s n p h')
    (fit : FirstFit h'.entries h'.total n' s') where
  -- A run that is free after an allocation lies outside of it.
  runs_apart : 0 < n → 0 < n' → (s + n ≤ s') ⊎ (s' + n' ≤ s)
  runs_apart pos pos' = elim (Bool-cases (ltb s' s)) [
    | inl below ↦ grind (arith, fit.free_run s, m.entries s)
    | inr above ↦ grind (arith, fit.free_run s', m.entries s')
  ]

-- Two allocations that both succeed hand out memory that does not overlap.
pub malloc-disjoint :
    (h : Heap) (size size' : ℕ)
    → IsValid h
    → 0 < size
    → size ≤ 2 ^ 64 - 4096
    → 0 < size'
    → size' ≤ 2 ^ 64 - 4096
    → (malloc h size).0 ≢ 0
    → (malloc (malloc h size).1 size').0 ≢ 0
    → let (p, h') = malloc h size in
      let (q, h'') = malloc h' size' in (p + size ≤ q) ⊎ (q + size' ≤ p)
malloc-disjoint h size size' v pos small pos' small' got got' =
    elim (malloc-FirstFit h size v pos small) [
      | inr (refused, _) ↦ absurd (got (ap (λ r. r.0) refused))
      | inl (s, fit, m) ↦ elim (malloc-FirstFit (malloc h size).1 size' m.valid pos' small') [
        | inr (refused, _) ↦ absurd (got' (ap (λ r. r.0) refused))
        | inl (s', fit', m') ↦
            let b = blocks_for-bounds size small in
            let b' = blocks_for-bounds size' small' in
            let apart = runs_apart m fit' (omega arith) (omega arith) in
            omega (arith, m.address, m'.address, m.frame.saddr)
      ]
    ]
