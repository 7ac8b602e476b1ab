-- ===== src/E820/Largest.antt =====
-- The choice of `e820_largest_free_entry` in memory/memory.c.
use peach_os64bit_module_two.Common.{
  ℕ, zero, suc, ◌+◌, ◌<◌, ◌≤◌, ◌≡◌, inl, inr, Option, none, some, ltb, ◌==◌, arith, Bool-cases,
  subst,
}
use peach_os64bit_module_two.E820.{MemoryMap, choose, largest_loop, e820_largest_free_entry}

module _ (map : MemoryMap) where
  abbrev pub Usable : ℕ → Type 0
  Usable i = (map.entries i).type ≡ 1

  -- The choice among the first `n` entries: the first of the longest usable ones.
  abbrev pub Largest : ℕ → Option ℕ → Type 0
  Largest n none = (l : ℕ) → l < n → ¬ Usable l
  Largest n (some c) =
      (c < n)
      × Usable c
      × ((l : ℕ)
          → l < n
          → Usable l
          → ((map.entries l).length ≤ (map.entries c).length)
            × (l < c → (map.entries l).length < (map.entries c).length))

  choose-Largest :
      (i : ℕ) (chosen : Option ℕ) → Largest i chosen → Largest (i + 1) (choose map i chosen)
  unfolding choose
  choose-Largest i none so_far = elim (Bool-cases ((map.entries i).type == 1)) [
    | inl usable ↦
        rw usable
          (omega arith, ground (arith, usable), λ l lt there. ground (arith, so_far l, lt, there))
    | inr other ↦ rw other (λ l lt there. ground (arith, so_far l, lt, there, other))
  ]
  choose-Largest i (some c) (before, usable_c, best) =
      elim (Bool-cases ((map.entries i).type == 1)) [
        | inl usable ↦ elim (Bool-cases (ltb (map.entries c).length (map.entries i).length)) [
          | inl longer ↦
              rw (usable, longer)
                (
                  omega arith,
                  ground (arith, usable),
                  λ l lt there. ground (arith, best l, lt, there, longer),
                )
          | inr shorter ↦
              rw (usable, shorter)
                (
                  omega (arith, before),
                  usable_c,
                  λ l lt there. ground (arith, best l, lt, there, shorter, before),
                )
        ]
        | inr other ↦ rw other (
          omega (arith, before),
          usable_c,
          λ l lt there. ground (arith, best l, lt, there, other),
        )
      ]

  largest_loop-Largest :
      (rounds i n : ℕ) (chosen : Option ℕ)
      → i + rounds ≡ n
      → Largest i chosen
      → Largest n (largest_loop rounds map i chosen)
  unfolding largest_loop
  largest_loop-Largest zero i n chosen total so_far =
      subst (λ k. Largest k chosen) (omega (arith, total)) so_far
  largest_loop-Largest (suc rounds) i n chosen total so_far =
      largest_loop-Largest rounds (i + 1) n (choose map i chosen) (omega (arith, total))
        (choose-Largest i chosen so_far)

  -- The entry that e820_largest_free_entry chooses is the first of the longest usable ones, and it
  -- chooses none just where no entry is usable.
  pub e820_largest_free_entry-Largest : Largest map.total_entries (e820_largest_free_entry map)
  unfolding e820_largest_free_entry
  e820_largest_free_entry-Largest =
      largest_loop-Largest map.total_entries 0 map.total_entries none (omega arith)
        (λ l lt. absurd (omega (arith, lt)))
