-- ===== src/Process/Check.antt =====
-- The check of the memory that a process names, in task/process.c.
use peach_os64bit_module_two.Common.{
  ℕ, ◌+◌, ◌-◌, ◌^◌, ◌<◌, ◌≤◌, ◌≡◌, ◌↔◌, refl, ap, ◌∙◌, true, false, ◌&&◌, arith, List, [], ◌∷◌,
  ◌++◌, leb,
}
use peach_os64bit_module_two.Status.{ok}
use peach_os64bit_module_two.Process.{
  Allocation, AllocationRequest, stack_start, stack_size, stack_end, is_stack_memory, sub64,
  by_addr, get_allocation_by_addr, validate_memory,
}

-- None of some allocations has the address.
unfoldable pub Outside : ℕ → List Allocation → Type 0
Outside addr [] = Unit {0}
Outside addr (a ∷ rest) = ((leb a.ptr addr && leb addr a.end) ≡ false) × Outside addr rest

by_addr-first :
    (before after : List Allocation) (a : Allocation) (addr : ℕ)
    → Outside addr before
    → a.ptr ≤ addr
    → addr ≤ a.end
    → by_addr (before ++ (a ∷ after)) addr
      ≡ ok (record {
        allocation = a;
        is_stack = false;
        peek_addr = addr;
        peek_end = a.end;
        total_bytes_left = sub64 a.end (sub64 addr a.ptr);
      })
unfolding by_addr Outside
by_addr-first [] after a addr outside low high =
    let there : (leb a.ptr addr && leb addr a.end) ≡ true = ground (arith, low, high) in
    rw (by_addr, there) refl
by_addr-first (b ∷ before) after a addr (other, outside) low high =
    rw (by_addr, other) (by_addr-first before after a addr outside low high)

sub64_lem : (a b : ℕ) → b ≤ a → a < 2 ^ 64 → sub64 a b ≡ a - b
sub64_lem a b low high = omega (arith, low, high)

validate_found :
    (allocations : List Allocation) (addr space : ℕ) (r : AllocationRequest)
    → get_allocation_by_addr allocations addr ≡ ok r
    → (validate_memory allocations addr space ≡ ok tt) ↔ (space ≤ r.total_bytes_left)
unfolding validate_memory
validate_found allocations addr space r found = rw (validate_memory, found) (ground arith)

is_stack_memory_lem :
    (addr : ℕ) → stack_end ≤ addr → addr ≤ stack_start → is_stack_memory addr ≡ true
unfolding is_stack_memory
is_stack_memory_lem addr low high = ground (arith, low, high)

found_stack :
    (allocations : List Allocation) (addr : ℕ)
    → is_stack_memory addr ≡ true
    → get_allocation_by_addr allocations addr
      ≡ ok (record {
        allocation = record { ptr = stack_end; end = stack_start; size = stack_size };
        is_stack = true;
        peek_addr = addr;
        peek_end = stack_start;
        total_bytes_left = stack_start - addr;
      })
unfolding get_allocation_by_addr
found_stack allocations addr on_stack = rw (get_allocation_by_addr, on_stack) refl

found_heap :
    (allocations : List Allocation) (addr : ℕ)
    → is_stack_memory addr ≡ false
    → get_allocation_by_addr allocations addr ≡ by_addr allocations addr
unfolding get_allocation_by_addr
found_heap allocations addr heap = rw (get_allocation_by_addr, heap) refl

-- Memory on the stack of a process is accepted exactly when it ends within the stack.
pub validate_memory-stack :
    (allocations : List Allocation) (addr space : ℕ)
    → stack_end ≤ addr
    → addr ≤ stack_start
    → (validate_memory allocations addr space ≡ ok tt) ↔ (addr + space ≤ stack_start)
validate_memory-stack allocations addr space low high =
    let on_stack : is_stack_memory addr ≡ true = is_stack_memory_lem addr low high in
    let v =
      validate_found allocations addr space
        (record {
          allocation = record { ptr = stack_end; end = stack_start; size = stack_size };
          is_stack = true;
          peek_addr = addr;
          peek_end = stack_start;
          total_bytes_left = stack_start - addr;
        })
        (found_stack allocations addr on_stack) in
    (λ h. omega (arith, v.0 h, high), λ h. v.1 (omega (arith, h)))

-- Memory at an address in an allocation that is not on the stack is accepted exactly up to the end
-- of the allocation less the bytes before the address: too much, unless the allocation begins at 0.
pub validate_memory-overrun :
    (before after : List Allocation) (a : Allocation) (addr space : ℕ)
    → is_stack_memory addr ≡ false
    → Outside addr before
    → a.ptr ≤ addr
    → addr ≤ a.end
    → a.end < 2 ^ 64
    → (validate_memory (before ++ (a ∷ after)) addr space ≡ ok tt) ↔ (addr + space ≤ a.end + a.ptr)
validate_memory-overrun before after a addr space heap outside low high bound =
    let r : AllocationRequest = record {
      allocation = a;
      is_stack = false;
      peek_addr = addr;
      peek_end = a.end;
      total_bytes_left = sub64 a.end (sub64 addr a.ptr);
    } in
    let v = validate_found (before ++ (a ∷ after)) addr space r (
      found_heap (before ++ (a ∷ after)) addr heap
      ∙ by_addr-first before after a addr outside low high) in
    let left : sub64 a.end (sub64 addr a.ptr) ≡ a.end - (addr - a.ptr) =
      ap (sub64 a.end) (sub64_lem addr a.ptr low (omega (arith, high, bound)))
      ∙ sub64_lem a.end (addr - a.ptr) (omega (arith, high)) bound in
    (λ h. omega (arith, v.0 h, left, low, high), λ h. v.1 (omega (arith, h, left, low, high)))
