-- ===== src/Heap.antt =====
-- The block heap of memory/heap/heap.c and heap.h. A C array is a function of its index, so that a
-- read beyond the table sees what lies there, as in the source.
pub mod Search
pub mod Alloc
pub mod Resize
pub mod Totals
mod Tests
pub mod Count
pub mod Create
pub mod Entry
use peach_os64bit_module_two.Common.{
  ℕ, zero, suc, ◌+◌, ◌-◌, ◌*◌, ◌/◌, ◌%◌, ◌^◌, Bool, true, false, not, ◌&&◌, Option, none, some,
  List, [], ◌∷◌, ltb, leb, ◌==◌, if◌then◌else◌, update, add64,
}
use peach_os64bit_module_two.Status.{Result, ok, err, eio, einvarg, enomem}
use peach_os64bit_module_two.Memory.{Mem, memset, memcpy}

abbrev pub block_size : ℕ
block_size = 4096

-- HEAP_BLOCK_TABLE_ENTRY_TAKEN, HEAP_BLOCK_TABLE_ENTRY_FREE, HEAP_BLOCK_HAS_NEXT,
-- HEAP_BLOCK_IS_FIRST
abbrev pub entry_taken : ℕ
entry_taken = 0x01

abbrev pub entry_free : ℕ
entry_free = 0x00

abbrev pub block_has_next : ℕ
block_has_next = 0x80

abbrev pub block_is_first : ℕ
block_is_first = 0x40

-- The bit operations on an entry, in arithmetic: `& 0x0f`, `& TAKEN`, `& HAS_NEXT`,
-- `|= HAS_NEXT`, `&= ~HAS_NEXT`.
abbrev pub entry_type : ℕ → ℕ
entry_type entry = entry % 16

abbrev pub is_taken : ℕ → Bool
is_taken entry = entry % 2 == 1

abbrev pub has_next : ℕ → Bool
has_next entry = entry / 128 % 2 == 1

abbrev pub set_has_next : ℕ → ℕ
set_has_next entry = if has_next entry then entry else entry + block_has_next

abbrev pub clear_has_next : ℕ → ℕ
clear_has_next entry = if has_next entry then entry - block_has_next else entry

-- A call of the heap's callbacks.
pub data Call : Type 0 where
  block_allocated : ℕ → ℕ → Call
  block_freed : ℕ → Call

-- `struct heap` with its `struct heap_table` (`entries`, `total`). A callback is present or not;
-- `calls` has the calls made of it, the latest first. `mem` is the memory that the heap hands out.
pub record Heap : Type 0 where
  pub entries : ℕ → ℕ
  pub total : ℕ
  pub saddr : ℕ
  pub eaddr : ℕ
  pub total_blocks : ℕ
  pub free_blocks : ℕ
  pub used_blocks : ℕ
  pub block_allocated_callback : Bool
  pub block_free_callback : Bool
  pub calls : List Call
  pub mem : Mem

-- `size_t` subtraction wraps.
abbrev pub sub64 : ℕ → ℕ → ℕ
sub64 a b = (a + 2 ^ 64 - b % 2 ^ 64) % 2 ^ 64

validate_table : ℕ → ℕ → ℕ → Result (Unit {0})
validate_table ptr end total = if sub64 end ptr / block_size == total then ok tt else err einvarg

validate_alignment : ℕ → Bool
validate_alignment ptr = ptr % block_size == 0

-- The fields that `heap_create` assigns once the alignment is checked.
unfoldable pub assigned : Heap → ℕ → ℕ → (ℕ → ℕ) → ℕ → Heap
assigned h ptr end entries total = record h {
  entries = entries;
  total = total;
  saddr = ptr;
  eaddr = end;
  total_blocks = total;
  free_blocks = total;
  used_blocks = 0;
  block_allocated_callback = false;
  block_free_callback = false;
}

-- `heap_create`: the heap is `h` before the call; the table has `total` entries.
unfoldable pub create : Heap → ℕ → ℕ → (ℕ → ℕ) → ℕ → Result (Unit {0}) × Heap
unfolding validate_table validate_alignment assigned
create h ptr end entries total =
    if not (validate_alignment ptr && validate_alignment end)
    then (err einvarg, h)
    else (elim (validate_table ptr end total) [
      | err e ↦ (err e, assigned h ptr end entries total)
      | ok _ ↦ (
        ok tt,
        record (assigned h ptr end entries total) { entries = memset entries 0 entry_free total },
      )
    ])

-- The additions wrap at 2^64, as in the source.
unfoldable pub align_value_to_upper : ℕ → ℕ
align_value_to_upper val =
    if val % block_size == 0 then val else add64 (val - val % block_size) block_size

unfoldable pub align_value_to_lower : ℕ → ℕ
align_value_to_lower val = if val % block_size == 0 then val else val - val % block_size

unfoldable pub is_address_within_heap : Heap → ℕ → Bool
is_address_within_heap h ptr = leb h.saddr ptr && leb ptr h.eaddr

unfoldable pub callbacks_set : Heap → Bool → Bool → Heap
callbacks_set h allocated free = record h {
  block_allocated_callback = allocated;
  block_free_callback = free;
}

unfoldable pub block_to_address : Heap → ℕ → ℕ
block_to_address h block = h.saddr + block * block_size

-- `none` for an address before the heap by a block or more, whose index is negative.
unfoldable pub address_to_block : Heap → ℕ → Option ℕ
address_to_block h address =
    if leb h.saddr address
    then some ((address - h.saddr) / block_size)
    else if ltb (h.saddr - address) block_size
    then some 0
    else none
