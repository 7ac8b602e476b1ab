-- ===== src/Process/Blocks.antt =====
-- The allocations of a process in task/process.c as a map from addresses.
use peach_os64bit_module_two.Common.{
  ℕ, zero, suc, ◌+◌, ◌<◌, ◌≡◌, ◌≢◌, ◌⊎◌, inl, inr, refl, ap, ◌∙◌, Bool, true, false, ◌||◌,
  Bool-cases, arith, none, some, List, [], ◌∷◌, ◌++◌, length, ltb, ◌==◌, if◌then◌else◌, add64,
}
use peach_os64bit_module_two.Status.{Result, ok, err, eio}
use peach_os64bit_module_two.Paging.{paging_align_address}
use peach_os64bit_module_two.Process.{
  Allocation, no_allocation, find_free, find_free_allocation_index, overwrite, exists_from,
  allocation_exists, allocation_unjoin, get_allocation_by_start_addr, is_process_pointer,
  ProcessMemory, page_flags, stored, returned, allocation_set_map, malloc_at, process_malloc,
  realloc_at, realloc_found, process_realloc, process_free,
}

-- The entry at an index is free.
unfoldable pub FreeAt : List Allocation → ℕ → Type 0
FreeAt [] k = ⊥
FreeAt (a ∷ rest) zero = a.ptr ≡ 0
FreeAt (a ∷ rest) (suc k) = FreeAt rest k

FreeAt-length : (l : List Allocation) (k : ℕ) → FreeAt l k → k < length l
unfolding FreeAt
FreeAt-length [] k h = absurd h
FreeAt-length (a ∷ rest) zero h = omega arith
FreeAt-length (a ∷ rest) (suc k) h = omega (arith, FreeAt-length rest k h)

FreeAt-append : (l : List Allocation) → FreeAt (l ++ (no_allocation ∷ [])) (length l)
unfolding FreeAt
FreeAt-append [] = refl
FreeAt-append (a ∷ rest) = FreeAt-append rest

find_free-cases :
    (l : List Allocation) (i : ℕ)
    → (find_free l i ≡ none) ⊎ ((k : ℕ) × (find_free l i ≡ some (i + k)) × FreeAt l k)
unfolding find_free FreeAt
find_free-cases [] i = inl refl
find_free-cases (a ∷ rest) i = elim (Bool-cases (a.ptr == 0)) [
  | inl free ↦ inr (0, rw (find_free, free) (ap some (omega arith)), ground (arith, free))
  | inr used ↦ elim (find_free-cases rest (i + 1)) [
    | inl full ↦ inl (rw (find_free, used) full)
    | inr (k, at, free) ↦ inr (suc k, rw (find_free, used) (at ∙ ap some (omega arith)), free)
  ]
]

-- A new entry, a free one that takes an allocation, and one that is freed.
lookup-append :
    (l : List Allocation) (q : ℕ)
    → q ≢ 0
    → get_allocation_by_start_addr (l ++ (no_allocation ∷ [])) q ≡ get_allocation_by_start_addr l q
unfolding get_allocation_by_start_addr
lookup-append [] q real = ground (arith, real)
lookup-append (a ∷ rest) q real =
    ap (λ r. if a.ptr == q then ok a else r) (lookup-append rest q real)

lookup-overwrite :
    (l : List Allocation) (k q : ℕ) (a : Allocation)
    → FreeAt l k
    → q ≢ 0
    → is_process_pointer l a.ptr ≡ false
    → get_allocation_by_start_addr (overwrite l k a) q
      ≡ (if a.ptr == q then ok a else get_allocation_by_start_addr l q)
unfolding get_allocation_by_start_addr overwrite FreeAt is_process_pointer
lookup-overwrite [] k q a free real fresh = absurd free
lookup-overwrite (b ∷ rest) zero q a free real fresh = ground (arith, free, real)
lookup-overwrite (b ∷ rest) (suc k) q a free real fresh =
    ground (arith, real, fresh, lookup-overwrite rest k q a free real)

lookup-unjoin :
    (l : List Allocation) (ptr q : ℕ)
    → q ≢ 0
    → get_allocation_by_start_addr (allocation_unjoin l ptr) q
      ≡ (if ptr == q then err eio else get_allocation_by_start_addr l q)
unfolding get_allocation_by_start_addr allocation_unjoin
lookup-unjoin [] ptr q real = ground arith
lookup-unjoin (b ∷ rest) ptr q real = ground (arith, real, lookup-unjoin rest ptr q real)

absent-lookup :
    (l : List Allocation) (ptr : ℕ)
    → is_process_pointer l ptr ≡ false
    → get_allocation_by_start_addr l ptr ≡ err eio
unfolding get_allocation_by_start_addr is_process_pointer
absent-lookup [] ptr h = refl
absent-lookup (a ∷ rest) ptr h = ground (arith, h, absent-lookup rest ptr)

absent-append :
    (l : List Allocation) (ptr : ℕ)
    → ptr ≢ 0
    → is_process_pointer l ptr ≡ false
    → is_process_pointer (l ++ (no_allocation ∷ [])) ptr ≡ false
unfolding is_process_pointer
absent-append [] ptr real h = ground (arith, real)
absent-append (a ∷ rest) ptr real h = ground (arith, h, absent-append rest ptr real)

-- The index for a new allocation is that of a free entry, of a table that maps the same addresses.
record TakesFree (l : List Allocation) (ptr : ℕ) : Type 0 where
  index : ℕ
  table : List Allocation
  taken : find_free_allocation_index true l ≡ (ok index, table)
  free : FreeAt table index
  same : (q : ℕ) → q ≢ 0 → get_allocation_by_start_addr table q ≡ get_allocation_by_start_addr l q
  fresh : is_process_pointer table ptr ≡ false

takes_free :
    (l : List Allocation) (ptr : ℕ) → ptr ≢ 0 → is_process_pointer l ptr ≡ false → TakesFree l ptr
unfolding find_free_allocation_index
takes_free l ptr real absent = elim (find_free-cases l 0) [
  | inl full ↦ record {
    index = length l;
    table = l ++ (no_allocation ∷ []);
    taken = rw (find_free_allocation_index, full) refl;
    free = FreeAt-append l;
    same = λ q real'. lookup-append l q real';
    fresh = absent-append l ptr real absent;
  }
  | inr (k, at, free) ↦ record {
    index = k;
    table = l;
    taken = rw (find_free_allocation_index, at) (ap (λ i. (ok i, l)) (omega arith));
    free = free;
    same = λ q real'. refl;
    fresh = absent;
  }
]

-- The allocation of a process that begins at an address.
abbrev pub lookup : {P : Type 0} → ProcessMemory P → ℕ → Result Allocation
lookup p q = get_allocation_by_start_addr p.allocations q

module _ {P : Type 0} (map_to : P → ℕ → ℕ → ℕ → ℕ → Result (Unit {0}) × P) where
  set_map_lem :
      (p : ProcessMemory P) (index ptr size : ℕ) (d : P)
      → map_to p.paging_desc ptr ptr (paging_align_address (add64 ptr size)) page_flags ≡ (ok tt, d)
      → index < length p.allocations
      → allocation_set_map map_to p index ptr size ≡ (
        ok tt,
        record {
          allocations =
              overwrite p.allocations index
                (record { ptr = ptr; end = add64 ptr size; size = size });
          paging_desc = d;
        },
      )
  unfolding allocation_set_map stored
  set_map_lem p index ptr size d maps low =
      let within : ltb index (length p.allocations) ≡ true = ground (arith, low) in
      let a : Allocation = record { ptr = ptr; end = add64 ptr size; size = size } in
      ap (stored p index a) maps ∙ rw (stored, within) refl

  -- Where kzalloc returns an address that is not one of the process, the vector can grow and the
  -- pages are mapped, process_malloc returns the address and adds the allocation to those of the
  -- process, by their addresses.
  pub process_malloc-lookup :
      (p : ProcessMemory P) (ptr size : ℕ) (d : P)
      → ptr ≢ 0
      → is_process_pointer p.allocations ptr ≡ false
      → map_to p.paging_desc ptr ptr (paging_align_address (add64 ptr size)) page_flags ≡ (ok tt, d)
      → let (r, p') = process_malloc map_to true p ptr size in
        (r ≡ ptr)
        × (p'.paging_desc ≡ d)
        × ((q : ℕ)
            → q ≢ 0
            → lookup p' q ≡ (
                if ptr == q
                then ok (record { ptr = ptr; end = add64 ptr size; size = size })
                else lookup p q))
  unfolding process_malloc malloc_at returned
  process_malloc-lookup p ptr size d real absent maps =
      let there : (ptr == 0) ≡ false = ground (arith, real) in
      let t = takes_free p.allocations ptr real absent in
      let a : Allocation = record { ptr = ptr; end = add64 ptr size; size = size } in
      let set =
        set_map_lem (record p { allocations = t.table }) t.index ptr size d maps
          (FreeAt-length t.table t.index t.free) in
      let done : process_malloc map_to true p ptr size
          ≡ (ptr, record { allocations = overwrite t.table t.index a; paging_desc = d }) =
        rw (process_malloc, there)
          (ap (malloc_at map_to p ptr size) t.taken ∙ ap (returned ptr) set) in
      rw done (
        refl,
        refl,
        λ q real'.
            lookup-overwrite t.table t.index q a t.free real' t.fresh
            ∙ ap (λ r. if ptr == q then ok a else r) (t.same q real'),
      )

  -- process_free of the address of an allocation, where its pages are unmapped.
  process_free-lookup :
      (p : ProcessMemory P) (ptr : ℕ) (a : Allocation) (d : P)
      → lookup p ptr ≡ ok a
      → map_to p.paging_desc a.ptr a.ptr (paging_align_address (add64 a.ptr a.size)) 0 ≡ (ok tt, d)
      → (q : ℕ) → q ≢ 0
      → lookup (process_free map_to p ptr) q ≡ (if ptr == q then err eio else lookup p q)
  unfolding process_free
  process_free-lookup p ptr a d found unmaps q real =
      rw (process_free, found) (rw unmaps (lookup-unjoin p.allocations ptr q real))

  -- Where process_malloc is given an address that is not NULL and lies at no allocation yet, the
  -- vector of allocations can grow, and the pages can be mapped and unmapped, process_free of the
  -- address that process_malloc returned leaves the allocations of the process as they were before.
  pub process_free-process_malloc :
      (p : ProcessMemory P) (ptr size : ℕ) (d d' : P)
      → ptr ≢ 0
      → is_process_pointer p.allocations ptr ≡ false
      → map_to p.paging_desc ptr ptr (paging_align_address (add64 ptr size)) page_flags ≡ (ok tt, d)
      → map_to d ptr ptr (paging_align_address (add64 ptr size)) 0 ≡ (ok tt, d')
      → (q : ℕ) → q ≢ 0
      → lookup (process_free map_to (process_malloc map_to true p ptr size).1 ptr) q ≡ lookup p q
  process_free-process_malloc p ptr size d d' real absent maps unmaps q real' =
      let (r, desc, added) = process_malloc-lookup p ptr size d real absent maps in
      let p' = (process_malloc map_to true p ptr size).1 in
      let a : Allocation = record { ptr = ptr; end = add64 ptr size; size = size } in
      let own : lookup p' ptr ≡ ok a = added ptr real ∙ ground arith in
      process_free-lookup p' ptr a d' own
        (ap (λ t. map_to t ptr ptr (paging_align_address (add64 ptr size)) 0) desc ∙ unmaps) q real'
      ∙ ground (arith, added q real', absent-lookup p.allocations ptr absent)

or-parts : (x y : Bool) → (x || y) ≡ false → (x ≡ false) × (y ≡ false)
or-parts true y h = ground (arith, h)
or-parts false y h = (refl, h)

exists-absent :
    (l : List Allocation) (ptr i : ℕ)
    → is_process_pointer l ptr ≡ false
    → exists_from l ptr i (ok tt) ≡ (ok tt, none)
unfolding exists_from is_process_pointer
exists-absent [] ptr i h = refl
exists-absent (a ∷ rest) ptr i h =
    let (other, absent) = or-parts (a.ptr == ptr) (is_process_pointer rest ptr) h in
    rw (exists_from, other) (exists-absent rest ptr (i + 1) absent)

exists-foreign :
    (a : Allocation) (rest : List Allocation) (ptr : ℕ)
    → is_process_pointer (a ∷ rest) ptr ≡ false
    → allocation_exists (a ∷ rest) ptr ≡ (ok tt, none)
unfolding allocation_exists exists_from is_process_pointer
exists-foreign a rest ptr h =
    let (other, absent) = or-parts (a.ptr == ptr) (is_process_pointer rest ptr) h in
    rw (allocation_exists, other) (exists-absent rest ptr 1 absent)

module _ {P : Type 0} (map_to : P → ℕ → ℕ → ℕ → ℕ → Result (Unit {0}) × P) where
  -- process_realloc of an address that is not an allocation of the process, but whose page is
  -- mapped, puts the new block in the place of its first allocation.
  pub process_realloc-foreign :
      (a : Allocation) (rest : List Allocation) (desc d : P) (pushed : Bool) (old new size : ℕ)
      → is_process_pointer (a ∷ rest) old ≡ false
      → old ≢ 0
      → new ≢ 0
      → map_to desc new new (paging_align_address (add64 new size)) page_flags ≡ (ok tt, d)
      → process_realloc map_to true pushed
          (record { allocations = a ∷ rest; paging_desc = desc })
          old
          new
          size
        ≡ (
          new,
          record {
            allocations = record { ptr = new; end = add64 new size; size = size } ∷ rest;
            paging_desc = d;
          },
        )
  unfolding process_realloc realloc_found realloc_at overwrite
  process_realloc-foreign a rest desc d pushed old new size absent real real' maps =
      let p : ProcessMemory P = record { allocations = a ∷ rest; paging_desc = desc } in
      let some_old : (old == 0) ≡ false = ground (arith, real) in
      let some_new : (new == 0) ≡ false = ground (arith, real') in
      let set = set_map_lem map_to p 0 new size d maps (omega arith) in
      rw (process_realloc, some_old)
        (ap (λ x. realloc_found map_to true p x new size) (exists-foreign a rest old absent)
          ∙ rw (realloc_at, some_new) (ap (λ r. (new, r.1)) set))
