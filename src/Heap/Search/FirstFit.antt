-- ===== src/Heap/Search/FirstFit.antt =====
-- `heap_get_start_block` is a first-fit search.
use peach_os64bit_module_two.Common.{
  ℕ, zero, suc, ◌+◌, ◌-◌, ◌≤◌, ◌<◌, ◌≡◌, ◌≢◌, ◌⊎◌, inl, inr, refl, Option, none, some, arith, ◌==◌,
  if◌then◌else◌, Bool-cases,
}
use peach_os64bit_module_two.Status.{Result, ok, err, enomem}
use peach_os64bit_module_two.Heap.{Heap, entry_type}
use peach_os64bit_module_two.Heap.Search.{start_loop, get_start_block}

-- The blocks `s`, …, `s + n - 1` are free.
abbrev pub AllFree : (ℕ → ℕ) → ℕ → ℕ → Type 0
AllFree e s n = (j : ℕ) → s ≤ j → j < s + n → entry_type (e j) ≡ 0

-- The first run of `n` free blocks of the table begins at `s`.
pub record FirstFit (e : ℕ → ℕ) (total n s : ℕ) : Type 0 where
  pub fits : s + n ≤ total
  pub free_run : AllFree e s n
  pub first : (s' : ℕ) → AllFree e s' n → s ≤ s'

-- The loop's variables when it reaches block `i`: no run of `n` ends before it.
record Scan (e : ℕ → ℕ) (n i bc : ℕ) (bs : Option ℕ) : Type 0 where
  small : bc < n
  le : bc ≤ i
  start : bs ≡ (if bc == 0 then none else some (i - bc))
  run : AllFree e (i - bc) bc
  edge : bc < i → entry_type (e (i - bc - 1)) ≢ 0
  stop : (s : ℕ) → AllFree e s n → i < s + n

-- What the loop ends with.
abbrev Outcome : (ℕ → ℕ) → ℕ → ℕ → ℕ × Option ℕ → Type 0
Outcome e total n (bc, bs) =
    ((s : ℕ) × (bc ≡ n) × (bs ≡ some s) × FirstFit e total n s)
    ⊎ ((bc ≢ n) × ((s : ℕ) → AllFree e s n → total < s + n))

run_suc :
    (e : ℕ → ℕ) {i bc : ℕ}
    → bc ≤ i
    → AllFree e (i - bc) bc
    → entry_type (e i) ≡ 0
    → AllFree e (i - bc) (bc + 1)
run_suc e {i} {bc} le run now j h k = elim (Bool-cases (j == i)) [
  | inl p ↦ ground arith
  | inr p ↦ run j h (ground arith)
]

module _ {e : ℕ → ℕ} {n : ℕ} where
  Scan-taken :
      {i bc : ℕ} {bs : Option ℕ} → Scan e n i bc bs → entry_type (e i) ≢ 0 → Scan e n (i + 1) 0 none
  Scan-taken {i} v taken = record {
    small = omega (arith, v.small);
    le = omega arith;
    start = refl;
    run = λ j h k. absurd (omega arith);
    edge = λ _. ground arith;
    stop = λ s run. elim (Bool-cases (i + 1 == s + n)) [
      | inl p ↦ absurd (taken (run i (ground (arith, v.small)) (ground (arith, v.small))))
      | inr p ↦ ground (arith, v.stop s run)
    ];
  }

  Scan-free :
      {i bc : ℕ} {bs : Option ℕ}
      → Scan e n i bc bs
      → entry_type (e i) ≡ 0
      → bc + 1 ≢ n
      → Scan e n (i + 1) (bc + 1) (elim bs [ none ↦ some i | some b ↦ some b ])
  Scan-free {i} {bc} v now ne = record {
    small = omega (arith, v.small);
    le = omega (arith, v.le);
    start = ground (arith, v.start, v.le);
    run = λ j h k. run_suc e v.le v.run now j (ground (arith, v.le)) (ground (arith, v.le));
    edge = λ h.
        let same : i + 1 - (bc + 1) - 1 ≡ i - bc - 1 = omega arith in
        rw same (v.edge (omega arith));
    stop = λ s run. elim (Bool-cases (i + 1 == s + n)) [
      | inl p ↦ absurd (
          v.edge (ground (arith, v.small, ne))
            (run (i - bc - 1) (ground (arith, v.small, ne)) (ground (arith, v.small, v.le))))
      | inr p ↦ ground (arith, v.stop s run)
    ];
  }

  found_lem :
      {i total bc : ℕ} {bs : Option ℕ}
      → Scan e n i bc bs
      → entry_type (e i) ≡ 0
      → bc + 1 ≡ n
      → i < total
      → Outcome e total n (bc + 1, elim bs [ none ↦ some i | some b ↦ some b ])
  found_lem {i} {bc} v now hit room = inl (
    i - bc,
    hit,
    ground (arith, v.start, v.le),
    record {
      fits = omega (arith, v.le);
      free_run = λ j h k. run_suc e v.le v.run now j h (omega arith);
      first = λ s run. omega (arith, v.stop s run);
    },
  )

  start_loop_lem :
      (rounds : ℕ) {i total bc : ℕ} {bs : Option ℕ}
      → i + rounds ≡ total
      → Scan e n i bc bs
      → Outcome e total n (start_loop e n rounds i bc bs)
  unfolding start_loop
  start_loop_lem zero {i} {bc} all v =
      inr (λ h. omega (arith, v.small), λ s run. omega (arith, v.stop s run))
  start_loop_lem (suc rounds) {i} {bc} all v = elim (Bool-cases (entry_type (e i) == 0)) [
    | inr taken ↦ rw taken (start_loop_lem rounds (omega arith) (Scan-taken v (ground arith)))
    | inl now ↦ rw now (elim (Bool-cases (bc + 1 == n)) [
      | inl hit ↦ rw hit (found_lem v (ground arith) (ground arith) (omega arith))
      | inr more ↦
          rw more (start_loop_lem rounds (omega arith) (Scan-free v (ground arith) (ground arith)))
    ])
  ]

start : (e : ℕ → ℕ) (n : ℕ) → 0 < n → Scan e n 0 0 none
start e n pos = record {
  small = pos;
  le = omega arith;
  start = refl;
  run = λ j h k. absurd (omega arith);
  edge = λ h. absurd (omega arith);
  stop = λ s run. omega arith;
}

-- What `heap_get_start_block` returns: the first fit, or -ENOMEM with no fit in the table.
abbrev pub Found : (ℕ → ℕ) → ℕ → ℕ → Result ℕ → Type 0
Found e total n r =
    ((s : ℕ) × (r ≡ ok s) × FirstFit e total n s)
    ⊎ ((r ≡ err enomem) × ((s : ℕ) → AllFree e s n → total < s + n))

-- For a positive number of blocks `heap_get_start_block` returns the first run of so many free
-- blocks of the table, or -ENOMEM when the table has none.
pub get_start_block-cases :
    (h : Heap) (n : ℕ) → 0 < n → Found h.entries h.total n (get_start_block h n)
unfolding get_start_block
get_start_block-cases h n pos =
    elim (start_loop_lem h.total {i = 0} {total = h.total} (omega arith) (start h.entries n pos)) [
      | inl (s, count, at, fit) ↦ inl (s, ground (arith, count, at), fit)
      | inr (miss, none_fits) ↦ inr (ground (arith, miss), none_fits)
    ]
