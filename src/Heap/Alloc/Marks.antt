-- ===== src/Heap/Alloc/Marks.antt =====
-- What the marking loops of memory/heap/heap.c write, block by block.
use peach_os64bit_module_two.Common.{
  ℕ, zero, suc, ◌+◌, ◌-◌, ◌≤◌, ◌<◌, ◌≡◌, refl, true, arith, ltb, ◌==◌, if◌then◌else◌, add64,
}
use peach_os64bit_module_two.Memory.Laws.{within}
use peach_os64bit_module_two.Heap.{Heap, sub64, has_next}
use peach_os64bit_module_two.Heap.Alloc.{
  take_block, next_entry, take_loop, mark_blocks_taken, free_block, free_loop, mark_blocks_free,
}

-- What the block operations leave alone.
pub record SameFrame (h h' : Heap) : Type 0 where
  pub total : h'.total ≡ h.total
  pub saddr : h'.saddr ≡ h.saddr
  pub eaddr : h'.eaddr ≡ h.eaddr
  pub total_blocks : h'.total_blocks ≡ h.total_blocks
  pub allocated : h'.block_allocated_callback ≡ h.block_allocated_callback
  pub freed : h'.block_free_callback ≡ h.block_free_callback

abbrev SameCounts : Heap → Heap → Type 0
SameCounts h h' =
    (h'.used_blocks ≡ h.used_blocks) × (h'.free_blocks ≡ h.free_blocks) × (h'.mem ≡ h.mem)

take_loop-frame :
    (rounds : ℕ) (h : Heap) (i end_block entry : ℕ)
    → SameFrame h (take_loop rounds h i end_block entry)
      × SameCounts h (take_loop rounds h i end_block entry)
unfolding take_loop
take_loop-frame zero h i end_block entry = ground arith
take_loop-frame (suc rounds) h i end_block entry = ground (
  arith,
  take_loop-frame rounds (take_block h i entry) (i + 1) end_block (next_entry i end_block),
)

take_loop_lem :
    (rounds : ℕ) (h : Heap) (i end_block entry j : ℕ)
    → i + rounds ≤ end_block + 1
    → (take_loop rounds h i end_block entry).entries j
      ≡ (if within i rounds j then (if j == i then entry else 0x81) else h.entries j)
unfolding take_loop
take_loop_lem zero h i end_block entry j room = ground arith
take_loop_lem (suc rounds) h i end_block entry j room = ground (
  arith,
  take_loop_lem rounds (take_block h i entry) (i + 1) end_block (next_entry i end_block) j,
)

-- The entry that block `j` has after `heap_mark_blocks_taken(h, s, n)`.
abbrev pub marked : (ℕ → ℕ) → ℕ → ℕ → ℕ → ℕ
marked e s n j =
    if within s n j then (if j == s then (if ltb 1 n then 0xc1 else 0x41) else 0x81) else e j

pub mark_blocks_taken_lem :
    (h : Heap) (s n j : ℕ) → (mark_blocks_taken h s n).entries j ≡ marked h.entries s n j
unfolding mark_blocks_taken
mark_blocks_taken_lem h s n j =
    ground (arith, take_loop_lem n h s (s + n - 1) (0x41 + (if ltb 1 n then 0x80 else 0)) j)

pub mark_blocks_taken-frame :
    (h : Heap) (s n : ℕ)
    → SameFrame h (mark_blocks_taken h s n) × SameCounts h (mark_blocks_taken h s n)
unfolding mark_blocks_taken
mark_blocks_taken-frame h s n = take_loop-frame n h s _ _

-- How many blocks the walk from `i` visits that stops at an entry without HAS_NEXT, or after `n`.
unfoldable pub chain_length : (ℕ → ℕ) → ℕ → ℕ → ℕ
chain_length e zero i = 0
chain_length e (suc n) i = if has_next (e i) then suc (chain_length e n (i + 1)) else 1

pub chain_length-ext :
    (n : ℕ) (e e' : ℕ → ℕ) (i : ℕ)
    → ((j : ℕ) → i ≤ j → e' j ≡ e j)
    → chain_length e' n i ≡ chain_length e n i
unfolding chain_length
chain_length-ext zero e e' i same = refl
chain_length-ext (suc n) e e' i same =
    ground (arith, same i, chain_length-ext n e e' (i + 1) λ j h. same j (omega arith))

-- Freeing a block leaves the walk behind it as it was.
chain_length-free_block :
    (n : ℕ) (h : Heap) (i : ℕ)
    → chain_length (free_block h i).entries n (i + 1) ≡ chain_length h.entries n (i + 1)
unfolding free_block
chain_length-free_block n h i = chain_length-ext n h.entries _ (i + 1) λ j k. ground arith

free_loop-frame :
    (n : ℕ) (h : Heap) (i freed : ℕ)
    → SameFrame h (free_loop n h i freed).0 × SameCounts h (free_loop n h i freed).0
unfolding free_loop
free_loop-frame zero h i freed = ground arith
free_loop-frame (suc n) h i freed =
    ground (arith, free_loop-frame n (free_block h i) (i + 1) (freed + 1))

free_loop-count :
    (n : ℕ) (h : Heap) (i freed : ℕ)
    → (free_loop n h i freed).1 ≡ freed + chain_length h.entries n i
unfolding free_loop chain_length
free_loop-count zero h i freed = ground arith
free_loop-count (suc n) h i freed =
    ground
      (arith, free_loop-count n (free_block h i) (i + 1) (freed + 1), chain_length-free_block n h i)

free_loop-entries :
    (n : ℕ) (h : Heap) (i freed j : ℕ)
    → (free_loop n h i freed).0.entries j
      ≡ (if within i (chain_length h.entries n i) j then 0 else h.entries j)
unfolding free_loop chain_length
free_loop-entries zero h i freed j = ground arith
free_loop-entries (suc n) h i freed j = ground (
  arith,
  free_loop-entries n (free_block h i) (i + 1) (freed + 1) j,
  chain_length-free_block n h i,
)

pub mark_blocks_free-entries :
    (h : Heap) (s j : ℕ)
    → (mark_blocks_free h s).entries j
      ≡ (if within s (chain_length h.entries (h.total - s) s) j then 0 else h.entries j)
unfolding mark_blocks_free
mark_blocks_free-entries h s j = free_loop-entries (h.total - s) h s 0 j

-- The counters move by the number of blocks walked over, whatever those were.
pub mark_blocks_free-counts :
    (h : Heap) (s : ℕ)
    → let n = chain_length h.entries (h.total - s) s in
      let h' = mark_blocks_free h s in
      (h'.used_blocks ≡ sub64 h.used_blocks n)
      × (h'.free_blocks ≡ add64 h.free_blocks n)
      × (h'.mem ≡ h.mem)
unfolding mark_blocks_free
mark_blocks_free-counts h s =
    ground (arith, free_loop-count (h.total - s) h s 0, free_loop-frame (h.total - s) h s 0)

pub mark_blocks_free-frame : (h : Heap) (s : ℕ) → SameFrame h (mark_blocks_free h s)
unfolding mark_blocks_free
mark_blocks_free-frame h s = ground (arith, free_loop-frame (h.total - s) h s 0)

-- The walk ends inside the table.
pub chain_length-le : (e : ℕ → ℕ) (n i : ℕ) → chain_length e n i ≤ n
unfolding chain_length
chain_length-le e zero i = omega arith
chain_length-le e (suc n) i = ground (arith, chain_length-le e n (i + 1))

-- A walk goes on through entries with HAS_NEXT.
pub chain_length-through :
    (m n : ℕ) (e : ℕ → ℕ) (i k t : ℕ)
    → k ≡ i + m
    → t ≡ m + n
    → ((j : ℕ) → i ≤ j → j < k → has_next (e j) ≡ true)
    → chain_length e t i ≡ m + chain_length e n k
unfolding chain_length
chain_length-through zero n e i k t p q all =
    let p' : k ≡ i = omega arith in let q' : t ≡ n = omega arith in rw (p', q') (omega arith)
chain_length-through (suc m) n e i k t p q all =
    let q' : t ≡ suc (m + n) = omega arith in
    rw q' (
      ground (
        arith,
        all i,
        chain_length-through m n e (i + 1) k (m + n) (omega arith) refl
            λ j a b. all j (omega arith) b,
      ))
