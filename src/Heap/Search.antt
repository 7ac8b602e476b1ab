-- ===== src/Heap/Search.antt =====
-- The searches of memory/heap/heap.c through the block table.
pub mod FirstFit
pub mod Walks
use peach_os64bit_module_two.Common.{
  ℕ, zero, suc, ◌+◌, ◌-◌, Bool, true, false, Option, none, some, ◌==◌, if◌then◌else◌,
}
use peach_os64bit_module_two.Heap.{
  Heap, entry_free, entry_type, is_taken, has_next, address_to_block,
}
use peach_os64bit_module_two.Status.{Result, ok, err, eio, enomem}

-- The loop of `heap_get_start_block`, from index `i`: the length of the free run that ends there
-- and its first block (`none` is -1).
unfoldable pub start_loop : (ℕ → ℕ) → ℕ → ℕ → ℕ → ℕ → Option ℕ → ℕ × Option ℕ
start_loop entries total_blocks zero i bc bs = (bc, bs)
start_loop entries total_blocks (suc rounds) i bc bs =
    let taken = start_loop entries total_blocks rounds (i + 1) 0 none in
    let bs' : Option ℕ = elim bs [ none ↦ some i | some b ↦ some b ] in
    let more = start_loop entries total_blocks rounds (i + 1) (bc + 1) bs' in
    if entry_type (entries i) == entry_free
    then (if bc + 1 == total_blocks then (bc + 1, bs') else more)
    else taken

-- The result -1 is what remains of `bs` when no block was wanted.
unfoldable pub get_start_block : Heap → ℕ → Result ℕ
unfolding start_loop
get_start_block h total_blocks =
    let (bc, bs) = start_loop h.entries total_blocks h.total 0 0 none in
    if bc == total_blocks then (elim bs [ none ↦ err eio | some b ↦ ok b ]) else err enomem

-- From `i` on, while `i <= ending_block`.
unfoldable pub range_free : (ℕ → ℕ) → ℕ → ℕ → Bool
range_free entries zero i = true
range_free entries (suc rounds) i =
    let rest = range_free entries rounds (i + 1) in if is_taken (entries i) then false else rest

unfoldable pub is_block_range_free : Heap → ℕ → ℕ → Bool
unfolding range_free
is_block_range_free h starting_block ending_block =
    range_free h.entries (ending_block + 1 - starting_block) starting_block

unfoldable pub count_loop : (ℕ → ℕ) → ℕ → ℕ → ℕ → ℕ
count_loop entries zero i count = count
count_loop entries (suc rounds) i count =
    let count' : ℕ = if is_taken (entries i) then count + 1 else count in
    let rest = count_loop entries rounds (i + 1) count' in
    if has_next (entries i) then rest else count'

unfoldable pub allocation_block_count : Heap → ℕ → ℕ
unfolding count_loop address_to_block
allocation_block_count h starting_address = elim (address_to_block h starting_address) [
  | none ↦ 0
  | some starting_block ↦ count_loop h.entries (h.total - starting_block) starting_block 0
]
