-- ===== src/Vector/Reorder.antt =====
-- `vector_reorder` of lib/vector/vector.c, a bubble sort through two buffers.
use peach_os64bit_module_two.Common.{
  ℕ, zero, suc, ◌+◌, ◌-◌, Bool, true, false, ◌||◌, ltb, ◌==◌, if◌then◌else◌,
}
use peach_os64bit_module_two.Status.{Result, ok, err}
use peach_os64bit_module_two.Memory.{Mem, memset}
use peach_os64bit_module_two.Vector.{Vector, vector_count, vector_at, vector_overwrite, to_int}

-- Whether a step of `vector_reorder` let its loops go on, and the memory after it.
abbrev pub Step : Type 0
Step = Bool × Mem

-- The next call, unless the one before has failed.
abbrev pub next : Result (Unit {0}) × Mem → (Mem → Step) → Step
next (ok _, m) more = more m
next (err _, m) more = (false, m)

abbrev pub continue : Step → (Mem → Step) → Step
continue (true, m) more = more m
continue (false, m) more = (false, m)

-- `reorder` is the function given, as whether its result is positive.
module _ (reorder : Mem → ℕ → ℕ → Bool) where
  -- One comparison, through the two buffers.
  unfoldable pub compare_swap : Mem → Vector → ℕ → ℕ → ℕ → Step
  compare_swap m vec elem1 elem2 j = next (vector_at m vec j elem1 vec.e_size) (λ m1.
      next (vector_at m1 vec (j + 1) elem2 vec.e_size) (λ m2.
        if reorder m2 elem1 elem2
        then next (vector_overwrite m2 vec (to_int j) elem2 vec.e_size) (λ m3.
          next (vector_overwrite m3 vec (to_int (j + 1)) elem1 vec.e_size) (λ m4. (true, m4)))
        else (true, m2)))

  unfoldable pub inner_loop : ℕ → Mem → Vector → ℕ → ℕ → ℕ → Step
  inner_loop zero m vec elem1 elem2 j = (true, m)
  inner_loop (suc rounds) m vec elem1 elem2 j =
      continue (compare_swap m vec elem1 elem2 j)
        (λ m'. inner_loop rounds m' vec elem1 elem2 (j + 1))

  unfoldable pub outer_loop : ℕ → Mem → Vector → ℕ → ℕ → Step
  outer_loop zero m vec elem1 elem2 = (true, m)
  outer_loop (suc rounds) m vec elem1 elem2 =
      continue (inner_loop (suc rounds) m vec elem1 elem2 0)
        (λ m'. outer_loop rounds m' vec elem1 elem2)

  -- `vector_reorder`, with the addresses of the buffers that `kzalloc` returns. The i-th round of
  -- its outer loop has `count - i - 1` comparisons.
  unfoldable pub vector_reorder : Mem → Vector → ℕ → ℕ → Mem
  vector_reorder m vec elem1 elem2 =
      if ltb (vector_count vec) 2
      then m
      else if (elem1 == 0) || (elem2 == 0)
      then m
      else (outer_loop (vector_count vec - 1)
          (memset (memset m elem1 0 vec.e_size) elem2 0 vec.e_size) vec elem1 elem2).1
