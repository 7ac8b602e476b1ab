-- ===== src/Process/Tests.antt =====
-- The memory and the events of a process in task/process.c on small ones.
use peach_os64bit_module_two.Common.{ℕ, ◌+◌, ◌≤◌, ◌≡◌, ◌≢◌, ◌↔◌, refl, true, false, arith, [], ◌∷◌}
use peach_os64bit_module_two.Status.{Result, ok}
use peach_os64bit_module_two.Process.{
  Allocation, stack_start, is_stack_memory, validate_memory, is_process_pointer, ProcessMemory,
  process_malloc, process_realloc, process_free, WindowEvents,
}
use peach_os64bit_module_two.Process.Check.{Outside, validate_memory-stack, validate_memory-overrun}
use peach_os64bit_module_two.Process.Blocks.{
  lookup, process_free-process_malloc, process_realloc-foreign,
}
use peach_os64bit_module_two.Process.Events.{push_all, pops, pops-push_all}

-- A mapping that counts its calls.
abbrev counting : ℕ → ℕ → ℕ → ℕ → ℕ → Result (Unit {0}) × ℕ
counting d virt phys end flags = (ok tt, d + 1)

abbrev block : ℕ
block = 0x1000000

abbrev other_block : ℕ
other_block = 0x2000000

abbrev nothing : ℕ
nothing = 0

block-real : block ≢ nothing
block-real = omega arith

other-real : other_block ≢ nothing
other-real = omega arith

abbrev one_block : Allocation
one_block = record { ptr = block; end = block + 64; size = 64 }

abbrev with_block : ProcessMemory ℕ
with_block = record { allocations = one_block ∷ []; paging_desc = 0 }

other-absent : is_process_pointer (one_block ∷ []) other_block ≡ false
unfolding is_process_pointer
other-absent = refl

validate_memory-stack_example :
    (validate_memory [] 0x3FEFF0 17 ≡ ok tt) ↔ (0x3FEFF0 + 17 ≤ stack_start)
validate_memory-stack_example = validate_memory-stack [] 0x3FEFF0 17 (omega arith) (omega arith)

block-heap : is_stack_memory block ≡ false
unfolding is_stack_memory
block-heap = refl

validate_memory-overrun_example :
    (validate_memory (one_block ∷ []) block 65 ≡ ok tt) ↔ (block + 65 ≤ (block + 64) + block)
unfolding Outside
validate_memory-overrun_example =
    validate_memory-overrun [] [] one_block block 65 block-heap tt (omega arith) (omega arith)
      (omega arith)

process_free-process_malloc_example :
    lookup
      (process_free counting (process_malloc counting true with_block other_block 32).1 other_block)
      block
    ≡ lookup with_block block
process_free-process_malloc_example =
    process_free-process_malloc counting with_block other_block 32 1 2 other-real other-absent refl
      refl block block-real

process_realloc-foreign_example :
    process_realloc counting true true with_block other_block 0x3000000 32 ≡ (
      0x3000000,
      record {
        allocations = record { ptr = 0x3000000; end = 0x3000020; size = 32 } ∷ [];
        paging_desc = 1;
      },
    )
process_realloc-foreign_example =
    process_realloc-foreign counting one_block [] 0 1 true other_block 0x3000000 32 other-absent
      other-real (omega arith) refl

abbrev no_events : WindowEvents ℕ
no_events = record { slots = λ i. 0; index = 0; total_unpopped = 0 }

pops-push_all_example : pops 3 (push_all no_events (7 ∷ 8 ∷ 9 ∷ [])) ≡ ok 9 ∷ ok 9 ∷ ok 9 ∷ []
pops-push_all_example =
    pops-push_all no_events (7 ∷ 8 ∷ []) 9 3 refl refl (omega arith) (omega arith)
