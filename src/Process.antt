-- ===== src/Process.antt =====
-- The memory and the window events of a process in task/process.c. A vector is the list of its
-- elements; `map_to` is paging_map_to on the page tables `P` of the process.
pub mod Check
pub mod Blocks
pub mod Events
mod Tests
use peach_os64bit_module_two.Common.{
  ℕ, zero, suc, ◌+◌, ◌-◌, ◌*◌, ◌%◌, ◌^◌, Bool, true, false, not, ◌&&◌, ◌||◌, Option, none, some,
  List, [], ◌∷◌, ◌++◌, ltb, leb, ◌==◌, if◌then◌else◌, update, add64, length,
}
use peach_os64bit_module_two.Status.{Result, ok, err, eio, einvarg, enomem, enotfound, eoutofrange}
use peach_os64bit_module_two.Paging.{paging_align_address}

abbrev pub sub64 : ℕ → ℕ → ℕ
sub64 a b = (a + 2 ^ 64 - b) % 2 ^ 64

-- `struct process_allocation`
pub record Allocation : Type 0 where
  pub ptr : ℕ
  pub end : ℕ
  pub size : ℕ

-- `struct process_allocation_request`, its flags as whether it is the stack.
pub record AllocationRequest : Type 0 where
  pub allocation : Allocation
  pub is_stack : Bool
  pub peek_addr : ℕ
  pub peek_end : ℕ
  pub total_bytes_left : ℕ

abbrev pub stack_start : ℕ
stack_start = 0x3FF000

abbrev pub stack_size : ℕ
stack_size = 1024 * 16

abbrev pub stack_end : ℕ
stack_end = stack_start - stack_size

unfoldable pub is_stack_memory : ℕ → Bool
is_stack_memory addr = leb stack_end addr && leb addr stack_start

-- The search of `process_get_allocation_by_addr` in the allocations.
unfoldable pub by_addr : List Allocation → ℕ → Result AllocationRequest
by_addr [] addr = err eio
by_addr (a ∷ rest) addr =
    let later = by_addr rest addr in
    if leb a.ptr addr && leb addr a.end
    then ok (record {
      allocation = a;
      is_stack = false;
      peek_addr = addr;
      peek_end = a.end;
      total_bytes_left = sub64 a.end (sub64 addr a.ptr);
    })
    else later

-- `process_get_allocation_by_addr`
unfoldable pub get_allocation_by_addr : List Allocation → ℕ → Result AllocationRequest
get_allocation_by_addr allocations addr =
    if is_stack_memory addr
    then ok (record {
      allocation = record { ptr = stack_end; end = stack_start; size = stack_size };
      is_stack = true;
      peek_addr = addr;
      peek_end = stack_start;
      total_bytes_left = stack_start - addr;
    })
    else by_addr allocations addr

-- `process_validate_memory_or_terminate`: an error terminates the process.
unfoldable pub validate_memory : List Allocation → ℕ → ℕ → Result (Unit {0})
validate_memory allocations addr space_needed = elim (get_allocation_by_addr allocations addr) [
  | err e ↦ err e
  | ok request ↦ if ltb request.total_bytes_left space_needed then err einvarg else ok tt
]

-- The search of `process_find_free_allocation_index`, from index `i` on.
unfoldable pub find_free : List Allocation → ℕ → Option ℕ
find_free [] i = none
find_free (a ∷ rest) i = let later = find_free rest (i + 1) in if a.ptr == 0 then some i else later

abbrev pub no_allocation : Allocation
no_allocation = record { ptr = 0; end = 0; size = 0 }

-- `process_find_free_allocation_index`, where `pushed` says whether vector_push succeeds.
unfoldable pub find_free_allocation_index : Bool → List Allocation → Result ℕ × List Allocation
find_free_allocation_index pushed allocations = elim (find_free allocations 0) [
  | some i ↦ (ok i, allocations)
  | none ↦
      if pushed
      then (ok (length allocations), allocations ++ (no_allocation ∷ []))
      else (err enomem, allocations)
]

-- vector_at and vector_overwrite.
unfoldable pub overwrite : List Allocation → ℕ → Allocation → List Allocation
overwrite [] i a = []
overwrite (b ∷ rest) zero a = a ∷ rest
overwrite (b ∷ rest) (suc i) a = b ∷ overwrite rest i a

-- `process_allocation_exists`: its result, and what it stores in `index_out`, if anything. After a
-- search that finds nothing the result is that of the last vector_at.
unfoldable pub exists_from :
    List Allocation → ℕ → ℕ → Result (Unit {0}) → Result (Unit {0}) × Option ℕ
exists_from [] ptr i res = (res, none)
exists_from (a ∷ rest) ptr i res =
    let later = exists_from rest ptr (i + 1) (ok tt) in
    if a.ptr == ptr then (ok tt, some i) else later

unfoldable pub allocation_exists : List Allocation → ℕ → Result (Unit {0}) × Option ℕ
allocation_exists allocations ptr = exists_from allocations ptr 0 (err enotfound)

abbrev pub index_or_zero : Option ℕ → ℕ
index_or_zero none = 0
index_or_zero (some i) = i

-- `process_allocation_unjoin`
unfoldable pub allocation_unjoin : List Allocation → ℕ → List Allocation
allocation_unjoin [] ptr = []
allocation_unjoin (a ∷ rest) ptr =
    (if a.ptr == ptr then no_allocation else a) ∷ allocation_unjoin rest ptr

-- `process_get_allocation_by_start_addr`
unfoldable pub get_allocation_by_start_addr : List Allocation → ℕ → Result Allocation
get_allocation_by_start_addr [] addr = err eio
get_allocation_by_start_addr (a ∷ rest) addr =
    let later = get_allocation_by_start_addr rest addr in if a.ptr == addr then ok a else later

-- `process_is_process_pointer`
unfoldable pub is_process_pointer : List Allocation → ℕ → Bool
is_process_pointer [] ptr = false
is_process_pointer (a ∷ rest) ptr = a.ptr == ptr || is_process_pointer rest ptr

-- The allocations of a process, and its page tables.
pub record ProcessMemory (P : Type 0) : Type 0 where
  pub allocations : List Allocation
  pub paging_desc : P

abbrev pub page_flags : ℕ
page_flags = 7

-- An allocation at an index, once its pages are mapped or not.
unfoldable pub stored :
    {P : Type 0}
    → ProcessMemory P
    → ℕ
    → Allocation
    → Result (Unit {0}) × P
    → Result (Unit {0}) × ProcessMemory P
stored p index a (err e, d) = (err e, record p { paging_desc = d })
stored p index a (ok _, d) =
    if ltb index (length p.allocations)
    then (ok tt, record { allocations = overwrite p.allocations index a; paging_desc = d })
    else (err eoutofrange, record p { paging_desc = d })

-- What `process_malloc` returns.
unfoldable pub returned :
    {P : Type 0} → ℕ → Result (Unit {0}) × ProcessMemory P → ℕ × ProcessMemory P
returned ptr (ok _, p) = (ptr, p)
returned ptr (err _, p) = (0, p)

module _ {P : Type 0} (map_to : P → ℕ → ℕ → ℕ → ℕ → Result (Unit {0}) × P) where
  -- `process_allocation_set_map`
  unfoldable pub allocation_set_map :
      ProcessMemory P → ℕ → ℕ → ℕ → Result (Unit {0}) × ProcessMemory P
  allocation_set_map p index ptr size =
      stored p index (record { ptr = ptr; end = add64 ptr size; size = size })
        (map_to p.paging_desc ptr ptr (paging_align_address (add64 ptr size)) page_flags)

  -- `process_malloc` from the index on.
  unfoldable pub malloc_at :
      ProcessMemory P → ℕ → ℕ → Result ℕ × List Allocation → ℕ × ProcessMemory P
  malloc_at p ptr size (err e, allocations) = (0, record p { allocations = allocations })
  malloc_at p ptr size (ok index, allocations) =
      returned ptr (allocation_set_map (record p { allocations = allocations }) index ptr size)

  -- `process_malloc`, with the address that kzalloc returns.
  unfoldable pub process_malloc : Bool → ProcessMemory P → ℕ → ℕ → ℕ × ProcessMemory P
  process_malloc pushed p ptr size =
      if ptr == 0
      then (0, p)
      else malloc_at p ptr size (find_free_allocation_index pushed p.allocations)

  -- `process_realloc` from the index on, with the address that krealloc returns. Whatever the
  -- mapping says, the address is the result.
  unfoldable pub realloc_at : ProcessMemory P → ℕ → ℕ → ℕ → ℕ × ProcessMemory P
  realloc_at p index new_ptr new_size =
      if new_ptr == 0 then (0, p) else (new_ptr, (allocation_set_map p index new_ptr new_size).1)

  -- The same with what process_allocation_exists says; the index is 0 until one is stored.
  unfoldable pub realloc_found :
      Bool → ProcessMemory P → Result (Unit {0}) × Option ℕ → ℕ → ℕ → ℕ × ProcessMemory P
  realloc_found mapped p (err _, index) new_ptr new_size = (0, p)
  realloc_found mapped p (ok _, index) new_ptr new_size =
      if mapped then realloc_at p (index_or_zero index) new_ptr new_size else (0, p)

  -- `process_realloc`, where `mapped` says whether the page of the old address is mapped.
  unfoldable pub process_realloc : Bool → Bool → ProcessMemory P → ℕ → ℕ → ℕ → ℕ × ProcessMemory P
  process_realloc mapped pushed p old_virt_ptr new_ptr new_size =
      if old_virt_ptr == 0
      then process_malloc pushed p new_ptr new_size
      else realloc_found mapped p (allocation_exists p.allocations old_virt_ptr) new_ptr new_size

  -- `process_free`
  unfoldable pub process_free : ProcessMemory P → ℕ → ProcessMemory P
  process_free p ptr = elim (get_allocation_by_start_addr p.allocations ptr) [
    | err _ ↦ p
    | ok a ↦
        let (r, d) =
          map_to p.paging_desc a.ptr a.ptr (paging_align_address (add64 a.ptr a.size)) 0 in
        elim r [
          | err _ ↦ record p { paging_desc = d }
          | ok _ ↦ record { allocations = allocation_unjoin p.allocations ptr; paging_desc = d }
        ]
  ]

abbrev pub max_window_events : ℕ
max_window_events = 1000

-- `window_events`: the slots of the vector and the two counters.
pub record WindowEvents (E : Type 0) : Type 0 where
  pub slots : ℕ → E
  pub index : ℕ
  pub total_unpopped : ℕ

module _ {E : Type 0} where
  -- `process_push_window_event`, of the event without its window.
  unfoldable pub push_window_event : WindowEvents E → E → WindowEvents E
  push_window_event w event = record w {
    slots = update w.slots (w.index % max_window_events) event;
    total_unpopped = add64 w.total_unpopped 1;
  }

  -- `process_pop_window_event`, whose arguments are not NULL.
  unfoldable pub pop_window_event : WindowEvents E → Result E × WindowEvents E
  pop_window_event w =
      if ltb 0 w.total_unpopped
      then (ok (w.slots 0), record w { total_unpopped = w.total_unpopped - 1 })
      else (err eoutofrange, w)
