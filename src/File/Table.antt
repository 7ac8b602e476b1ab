-- ===== src/File/Table.antt =====
-- The slots of the tables of fs/file.c.
use peach_os64bit_module_two.Common.{
  ℕ, zero, suc, ◌+◌, ◌<◌, ◌≤◌, ◌≡◌, ◌≢◌, ◌⊎◌, inl, inr, refl, sym, ap, ◌∙◌, Option-cases, arith,
  Option, none, some, update,
}
use peach_os64bit_module_two.File.{max_file_descriptors, FileDescriptor, free_slot}

-- The first of some slots that is free.
pub record FirstFree {A : Type 0} (rounds : ℕ) (table : ℕ → Option A) (i k : ℕ) : Type 0 where
  pub from : i ≤ k
  pub to : k < i + rounds
  pub free : table k ≡ none
  pub taken : (j : ℕ) → i ≤ j → j < k → table j ≢ none

at_or_behind : (i j : ℕ) → i ≤ j → (j ≡ i) ⊎ (i + 1 ≤ j)
at_or_behind i j h = ground (arith, h)

taken_on :
    {A : Type 0} (table : ℕ → Option A) (i m : ℕ) (a : A)
    → table i ≡ some a
    → ((j : ℕ) → i + 1 ≤ j → j < m → table j ≢ none)
    → (j : ℕ) → i ≤ j
    → j < m
    → table j ≢ none
taken_on table i m a used behind j from to = elim (at_or_behind i j from) [
  | inl here ↦ λ free. ground (arith, sym used ∙ ap table (sym here) ∙ free)
  | inr beyond ↦ behind j beyond to
]

pub free_slot-cases :
    {A : Type 0} (rounds : ℕ) (table : ℕ → Option A) (i : ℕ)
    → ((free_slot rounds table i ≡ none) × ((j : ℕ) → i ≤ j → j < i + rounds → table j ≢ none))
      ⊎ ((k : ℕ) × (free_slot rounds table i ≡ some k) × FirstFree rounds table i k)
unfolding free_slot
free_slot-cases zero table i = inl (refl, λ j from to. absurd (omega (arith, from, to)))
free_slot-cases (suc rounds) table i = elim (Option-cases (table i)) [
  | inl free ↦ inr (
    i,
    rw (free_slot, free) refl,
    record {
      from = omega arith;
      to = omega arith;
      free = free;
      taken = λ j from to. absurd (omega (arith, from, to));
    },
  )
  | inr (a, used) ↦ elim (free_slot-cases rounds table (i + 1)) [
    | inl (full, all) ↦ inl (
      rw (free_slot, used) full,
      λ j from to. taken_on table i (i + 1 + rounds) a used all j from (omega (arith, to)),
    )
    | inr (k, found, first) ↦ inr (
      k,
      rw (free_slot, used) found,
      record {
        from = omega (arith, first.from);
        to = omega (arith, first.to);
        free = first.free;
        taken = λ j from to. taken_on table i k a used first.taken j from to;
      },
    )
  ]
]

-- A descriptor knows its slot, and there are no others than those in the table.
pub record IsTable {W : Type 0} (table : ℕ → Option (FileDescriptor W)) : Type 0 where
  pub bounds : (i : ℕ) (d : FileDescriptor W) → table i ≡ some d → i < max_file_descriptors
  pub indexed : (i : ℕ) (d : FileDescriptor W) → table i ≡ some d → d.index ≡ i + 1

pub insert-IsTable :
    {W : Type 0} (table : ℕ → Option (FileDescriptor W)) (i : ℕ) (d : FileDescriptor W)
    → IsTable table
    → i < max_file_descriptors
    → d.index ≡ i + 1
    → IsTable (update table i (some d))
insert-IsTable table i d t bound index = record {
  bounds = ground (arith, t.bounds, bound);
  indexed = ground (arith, t.indexed, index);
}

pub remove-IsTable :
    {W : Type 0} (table : ℕ → Option (FileDescriptor W)) (i : ℕ)
    → IsTable table
    → IsTable (update table i none)
remove-IsTable table i t = record {
  bounds = ground (arith, t.bounds);
  indexed = ground (arith, t.indexed);
}
