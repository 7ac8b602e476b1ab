-- ===== src/Heap/Alloc/Free.antt =====
-- `heap_free`: the walk along HAS_NEXT, and what becomes of an allocation that is freed.
use peach_os64bit_module_two.Common.{
  ℕ, zero, suc, ◌+◌, ◌-◌, ◌*◌, ◌^◌, ◌≤◌, ◌<◌, ◌≡◌, ◌≢◌, inl, inr, refl, true, false, some, arith,
  if◌then◌else◌, ap, subst,
}
use peach_os64bit_module_two.Memory.Laws.{within}
use peach_os64bit_module_two.Heap.{Heap, is_taken, has_next, address_to_block}
use peach_os64bit_module_two.Heap.Count.{IsValid, count_in-change, count_in-le}
use peach_os64bit_module_two.Heap.Search.FirstFit.{FirstFit}
use peach_os64bit_module_two.Heap.Alloc.{mark_blocks_free, malloc, free}
use peach_os64bit_module_two.Heap.Alloc.Malloc.{
  Malloced, blocks_for, blocks_for-bounds, malloc-FirstFit,
}
use peach_os64bit_module_two.Heap.Alloc.Marks.{
  SameFrame, chain_length, chain_length-through, mark_blocks_free-entries, mark_blocks_free-counts,
  mark_blocks_free-frame,
}

-- An allocation of `n` blocks from `s` on whose entries are linked as they are meant to be.
pub record IsAllocation (h : Heap) (s n : ℕ) : Type 0 where
  pub pos : 0 < n
  pub fits : s + n ≤ h.total
  pub taken : (j : ℕ) → s ≤ j → j < s + n → is_taken (h.entries j) ≡ true
  pub linked : (j : ℕ) → s ≤ j → j + 1 < s + n → has_next (h.entries j) ≡ true
  pub ends : has_next (h.entries (s + n - 1)) ≡ false

-- What freeing the `n` blocks from `s` on makes of the heap.
pub record Freed (h : Heap) (s n : ℕ) (h' : Heap) : Type 0 where
  pub entries : (j : ℕ) → h'.entries j ≡ (if within s n j then 0 else h.entries j)
  pub used : h'.used_blocks + n ≡ h.used_blocks
  pub mem : h'.mem ≡ h.mem
  pub frame : SameFrame h h'
  pub valid : IsValid h'

block_of :
    (h : Heap) (s off : ℕ) → off < 4096 → address_to_block h (h.saddr + s * 4096 + off) ≡ some s
unfolding address_to_block
block_of h s off small = ground arith

chain_length_one : (e : ℕ → ℕ) (n i : ℕ) → 0 < n → has_next (e i) ≡ false → chain_length e n i ≡ 1
unfolding chain_length
chain_length_one e zero i pos ends = absurd (omega arith)
chain_length_one e (suc n) i pos ends = ground arith

chain_length-pos : (e : ℕ → ℕ) (n i : ℕ) → 0 < n → 0 < chain_length e n i
unfolding chain_length
chain_length-pos e zero i pos = absurd (omega arith)
chain_length-pos e (suc n) i pos = ground arith

-- The walk from the first block of an allocation visits its blocks and stops.
walk-IsAllocation :
    {h : Heap} {s n : ℕ} → IsAllocation h s n → chain_length h.entries (h.total - s) s ≡ n
walk-IsAllocation {h} {s} {n} a = omega (
  arith,
  a.pos,
  a.fits,
  chain_length-through (n - 1) (h.total - s - (n - 1)) h.entries s (s + n - 1) (h.total - s)
      (omega (arith, a.pos)) (omega (arith, a.pos, a.fits))
      (λ j x y. a.linked j x (omega (arith, a.pos))),
  chain_length_one h.entries (h.total - s - (n - 1)) (s + n - 1) (omega (arith, a.pos, a.fits))
      a.ends,
)

module _ {h : Heap} {s n : ℕ} (v : IsValid h) (a : IsAllocation h s n) where
  pub mark_blocks_free-Freed : Freed h s n (mark_blocks_free h s)
  mark_blocks_free-Freed =
      let h' = mark_blocks_free h s in
      let walk = walk-IsAllocation a in
      let frame = mark_blocks_free-frame h s in
      let counts = mark_blocks_free-counts h s in
      let same : (j : ℕ) → h'.entries j ≡ (if within s n j then 0 else h.entries j) =
        λ j. ground (arith, walk, mark_blocks_free-entries h s j) in
      let change =
        count_in-change h.entries h'.entries s n h.total true false a.fits a.taken
          (λ j x y. ground (arith, same j)) (λ j out. ground (arith, same j)) in
      let most = count_in-le h.total h.entries 0 in
      record {
        entries = same;
        used = ground (arith, walk, counts, change, most, v.used, v.small);
        mem = ground (arith, counts);
        frame = frame;
        valid = record {
          used = ground (arith, walk, counts, change, most, v.used, v.small, frame);
          all = ground (arith, walk, counts, change, most, v.used, v.small, v.all, frame);
          small = ground (arith, frame, v.small);
          kinds = λ j room. ground (arith, same j, v.kinds j, frame);
        };
      }

  -- `heap_free` of an address in the first block of a well-linked allocation frees exactly the
  -- blocks of the allocation, changes no other entry, and keeps the counters right.
  pub free-Freed :
      (off : ℕ)
      → off < 4096
      → (h' : Heap) × (free h (h.saddr + s * 4096 + off) ≡ some h') × Freed h s n h'
  unfolding free
  free-Freed off small =
      (mark_blocks_free h s, rw (block_of h s off small, free), mark_blocks_free-Freed)

-- A single block comes out of `heap_malloc` well linked.
IsAllocation-one :
    {h h' : Heap} {s p : ℕ}
    → FirstFit h.entries h.total 1 s
    → Malloced h s 1 p h'
    → IsAllocation h' s 1
IsAllocation-one {h} {h'} {s} fit m =
    let only : (j : ℕ) → s ≤ j → j < s + 1 → h'.entries j ≡ 0x41 =
      λ j a b. ground (arith, m.entries j) in
    record {
      pos = omega arith;
      fits = omega (arith, fit.fits, m.frame.total);
      taken = λ j a b. ground (arith, only j a b);
      linked = λ j a b. absurd (omega arith);
      ends =
          let p : s + 1 - 1 ≡ s = omega arith in
          rw p (ground (arith, only s (omega arith) (omega arith)));
    }

module _ {h h' : Heap} {s n p : ℕ} (m : Malloced h s n p h') where
  first_address : p ≡ h'.saddr + s * 4096 + 0
  first_address = omega (arith, m.address, m.frame.saddr)

  free_one :
      IsValid h
      → FirstFit h.entries h.total n s
      → n ≡ 1
      → (h'' : Heap) × (free h' p ≡ some h'')
        × ((j : ℕ) → j < h.total → h''.entries j ≡ h.entries j)
        × (h''.used_blocks ≡ h.used_blocks)
        × IsValid h''
  free_one v fit one =
      let a =
        IsAllocation-one (subst (λ k. FirstFit h.entries h.total k s) one fit)
          (subst (λ k. Malloced h s k p h') one m) in
      let (h'', done, f) = free-Freed m.valid a 0 (omega arith) in
      (
        h'',
        rw first_address done,
        λ j room. ground (arith, f.entries j, m.entries j, v.kinds j room, fit.free_run j),
        omega (arith, f.used, m.used),
        f.valid,
      )

-- An allocation of at most one block that is freed again leaves every entry of the table and the
-- number of used blocks as they were before, and the heap valid.
pub free-malloc :
    (h : Heap) (size : ℕ)
    → IsValid h
    → 0 < size
    → size ≤ 4096
    → (malloc h size).0 ≢ 0
    → let (p, h') = malloc h size in
      (h'' : Heap) × (free h' p ≡ some h'')
      × ((j : ℕ) → j < h.total → h''.entries j ≡ h.entries j)
      × (h''.used_blocks ≡ h.used_blocks)
      × IsValid h''
free-malloc h size v pos small got = elim (malloc-FirstFit h size v pos (omega arith)) [
  | inr (refused, _) ↦ absurd (got (ap (λ r. r.0) refused))
  | inl (s, fit, m) ↦ free_one m v fit (omega (arith, blocks_for-bounds size (omega arith)))
]

-- A walk that meets HAS_NEXT in every block of an allocation goes on behind it.
chain_length-overrun :
    (e : ℕ → ℕ) (s n total : ℕ)
    → s + n < total
    → ((j : ℕ) → s ≤ j → j < s + n → has_next (e j) ≡ true)
    → n < chain_length e (total - s) s
chain_length-overrun e s n total room all = omega (
  arith,
  chain_length-through n (total - s - n) e s (s + n) (total - s) refl (omega arith) all,
  chain_length-pos e (total - s - n) (s + n) (omega arith),
)

module _ {h h' : Heap} {s n p : ℕ} (m : Malloced h s n p h') where
  -- Every entry of a larger allocation has HAS_NEXT, the last one too.
  Malloced-linked : 1 < n → (j : ℕ) → s ≤ j → j < s + n → has_next (h'.entries j) ≡ true
  Malloced-linked many j a b = ground (arith, m.entries j)

  overrun :
      1 < n
      → s + n < h.total
      → (h'' : Heap) × (free h' p ≡ some h'')
        × (h''.entries (s + n) ≡ 0)
        × (n < chain_length h'.entries (h'.total - s) s)
  unfolding free
  overrun many room =
      let total = m.frame.total in
      let over =
        chain_length-overrun h'.entries s n h'.total (omega arith) (Malloced-linked many) in
      (
        mark_blocks_free h' s,
        rw (first_address m, block_of h' s 0 (omega arith), free),
        ground (arith, mark_blocks_free-entries h' s (s + n)),
        over,
      )

-- An allocation of several blocks that is freed again takes the block behind it along: whatever
-- its entry was, it is free afterwards, and the walk counts more blocks than were allocated.
pub free-malloc_overrun :
    (h : Heap) (size s : ℕ)
    → IsValid h
    → 4096 < size
    → size ≤ 2 ^ 64 - 4096
    → FirstFit h.entries h.total (blocks_for size) s
    → s + blocks_for size < h.total
    → let (p, h') = malloc h size in
      (h'' : Heap) × (free h' p ≡ some h'')
      × (h''.entries (s + blocks_for size) ≡ 0)
      × (blocks_for size < chain_length h'.entries (h'.total - s) s)
free-malloc_overrun h size s v big small fit room =
    elim (malloc-FirstFit h size v (omega arith) small) [
      | inr (_, full) ↦ absurd (omega (arith, full s fit.free_run))
      | inl (s', fit', m) ↦
          let same : s' ≡ s =
            omega (arith, fit.first s' fit'.free_run, fit'.first s fit.free_run) in
          overrun
            (subst (λ k. Malloced h k (blocks_for size) (malloc h size).0 (malloc h size).1) same m)
            (omega (arith, blocks_for-bounds size small)) room
    ]
