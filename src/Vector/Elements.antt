-- ===== src/Vector/Elements.antt =====
-- Where the elements of a vector of lib/vector/vector.c lie.
use peach_os64bit_module_two.Common.{ℕ, ◌+◌, ◌*◌, ◌%◌, ◌^◌, ◌<◌, ◌≤◌, ◌≡◌, ◌⊎◌, arith}
use peach_os64bit_module_two.Memory.{Mem}
use native.Mathlib.Nat.{mul-le-mul_left}
use peach_os64bit_module_two.Vector.{Vector, vector_memory_at_index}

-- The elements in use are within the reserved ones, which are within the address space, and the
-- size of an element is an `int`.
pub record IsVector (v : Vector) : Type 0 where
  pub count : v.t_elems ≤ v.tm_elems
  pub fits : v.memory + v.e_size * v.tm_elems < 2 ^ 64
  pub small : v.e_size < 2 ^ 31
  pub counted : v.tm_elems < 2 ^ 64

-- Byte `k` of element `i`.
abbrev pub element : Mem → Vector → ℕ → ℕ → ℕ
element m v i k = m (v.memory + v.e_size * i + k)

-- A block of `size` bytes does not meet the memory of the vector.
abbrev pub Apart : Vector → ℕ → ℕ → Type 0
Apart v block size = (block + size ≤ v.memory) ⊎ (v.memory + v.e_size * v.tm_elems ≤ block)

pub slot_bound : (e i n : ℕ) → i < n → e * i + e ≤ e * n
slot_bound e i n lt =
    let step : e * (i + 1) ≤ e * n = mul-le-mul_left e (omega (arith, lt)) in omega (arith, step)

pub vector_memory_at_index_lem :
    (v : Vector)
    → IsVector v
    → (i : ℕ) → i < v.tm_elems
    → vector_memory_at_index v i ≡ v.memory + v.e_size * i
unfolding vector_memory_at_index
vector_memory_at_index_lem v valid i lt =
    let bound : v.e_size * i + v.e_size ≤ v.e_size * v.tm_elems =
      slot_bound v.e_size i v.tm_elems lt in
    let low : v.e_size * i % 2 ^ 64 ≡ v.e_size * i = omega (arith, bound, valid.fits) in
    rw low (omega (arith, bound, valid.fits))
