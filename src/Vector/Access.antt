-- ===== src/Vector/Access.antt =====
-- Reading and writing single elements, in lib/vector/vector.c.
use peach_os64bit_module_two.Common.{
  ℕ, ◌+◌, ◌-◌, ◌*◌, ◌<◌, ◌≤◌, ◌≡◌, ◌≢◌, ◌⊎◌, ◌↔◌, inl, inr, arith, ltb, ◌==◌, if◌then◌else◌,
  Bool-cases,
}
use peach_os64bit_module_two.Common.Int.{pos}
use peach_os64bit_module_two.Status.{ok}
use peach_os64bit_module_two.Memory.{Mem, memcpy}
use peach_os64bit_module_two.Memory.Laws.{memset_lem, memcpy_lem, within}
use peach_os64bit_module_two.Vector.{
  Vector, vector_memory_at_index, vector_valid_bounds, vector_at, vector_overwrite,
}
use peach_os64bit_module_two.Vector.Elements.{
  IsVector, element, Apart, slot_bound, vector_memory_at_index_lem,
}

pub copy_out :
    (m : Mem) (v : Vector)
    → IsVector v
    → (i data_out : ℕ) → i < v.t_elems
    → Apart v data_out v.e_size
    → (a : ℕ)
    → memcpy m data_out (vector_memory_at_index v i) v.e_size a
      ≡ (if within data_out v.e_size a then element m v i (a - data_out) else m a)
copy_out m v valid i data_out lt apart a =
    let at : vector_memory_at_index v i ≡ v.memory + v.e_size * i =
      vector_memory_at_index_lem v valid i (omega (arith, lt, valid.count)) in
    let bound : v.e_size * i + v.e_size ≤ v.e_size * v.tm_elems =
      slot_bound v.e_size i v.tm_elems (omega (arith, lt, valid.count)) in
    let free : (data_out ≤ v.memory + v.e_size * i)
        ⊎ (v.memory + v.e_size * i + v.e_size ≤ data_out) =
      ground (arith, apart, bound) in
    rw at
      (memcpy_lem m data_out (v.memory + v.e_size * i) v.e_size a (omega (arith, valid.small)) free)

-- For a valid vector and a buffer apart from it: vector_at succeeds just where the size is not
-- below that of an element, the buffer is not NULL and the index is in range. Then exactly the
-- bytes of the element are copied to the buffer; otherwise the buffer is cleared, NULL or not, and
-- no other byte.
pub vector_at_lem :
    (m : Mem) (v : Vector)
    → IsVector v
    → (index data_out size : ℕ) → Apart v data_out v.e_size
    → let (res, m') = vector_at m v index data_out size in
      ((res ≡ ok tt) ↔ ((v.e_size ≤ size) × (data_out ≢ 0) × (index < v.t_elems)))
      × ((a : ℕ)
          → (res ≡ ok tt
              → m' a
                ≡ (if within data_out v.e_size a then element m v index (a - data_out) else m a))
            × (res ≢ ok tt → m' a ≡ (if within data_out size a then 0 else m a)))
unfolding vector_at vector_valid_bounds
vector_at_lem m v valid index data_out size apart = (
  ground arith,
  λ a. elim (Bool-cases (ltb index v.t_elems)) [
    | inl lt ↦ ground (
      arith,
      copy_out m v valid index data_out (ground (arith, lt)) apart a,
      memset_lem m data_out 0 size a,
    )
    | inr ge ↦ ground (arith, ge, memset_lem m data_out 0 size a)
  ],
)

-- The bytes of different elements do not meet.
pub slots_apart : (e i j k : ℕ) → i ≢ j → k < e → (e * j + k < e * i) ⊎ (e * i + e ≤ e * j + k)
slots_apart e i j k differ lt = elim (Bool-cases (ltb i j)) [
  | inl before ↦ inr (ground (arith, slot_bound e i j (ground (arith, before))))
  | inr after ↦ inl (ground (arith, lt, slot_bound e j i (ground (arith, after, differ))))
]

copy_in :
    (m : Mem) (v : Vector)
    → IsVector v
    → (i elem : ℕ) → i < v.t_elems
    → Apart v elem v.e_size
    → (a : ℕ)
    → memcpy m (vector_memory_at_index v i) elem v.e_size a ≡ (
        if within (v.memory + v.e_size * i) v.e_size a
        then m (elem + (a - (v.memory + v.e_size * i)))
        else m a)
copy_in m v valid i elem lt apart a =
    let at : vector_memory_at_index v i ≡ v.memory + v.e_size * i =
      vector_memory_at_index_lem v valid i (omega (arith, lt, valid.count)) in
    let bound : v.e_size * i + v.e_size ≤ v.e_size * v.tm_elems =
      slot_bound v.e_size i v.tm_elems (omega (arith, lt, valid.count)) in
    let free : (v.memory + v.e_size * i ≤ elem) ⊎ (elem + v.e_size ≤ v.memory + v.e_size * i) =
      ground (arith, apart, bound) in
    rw at (memcpy_lem m (v.memory + v.e_size * i) elem v.e_size a (omega (arith, valid.small)) free)

-- For a valid vector, a block of the size of an element apart from it, and an index that an `int`
-- holds: vector_overwrite succeeds just where the index is in range and the size not below that of
-- an element. Then the element has the bytes given and the other elements keep theirs; otherwise
-- all memory does.
pub vector_overwrite_lem :
    (m : Mem) (v : Vector)
    → IsVector v
    → (index elem size : ℕ) → Apart v elem v.e_size
    → let (res, m') = vector_overwrite m v (pos index) elem size in
      ((res ≡ ok tt) ↔ ((v.e_size ≤ size) × (index < v.t_elems)))
      × (res ≢ ok tt → m' ≡ m)
      × (res ≡ ok tt
          → (i k : ℕ) → i < v.t_elems
          → k < v.e_size
          → element m' v i k ≡ (if i == index then m (elem + k) else element m v i k))
unfolding vector_overwrite vector_valid_bounds
vector_overwrite_lem m v valid index elem size apart = (
  ground arith,
  λ failed. ground (arith, failed),
  λ done i k lt lt'. elim (Bool-cases (ltb index v.t_elems)) [
    | inl in_range ↦ ground (
      arith,
      done,
      copy_in m v valid index elem (ground (arith, in_range)) apart (v.memory + v.e_size * i + k),
      slots_apart v.e_size index i k,
    )
    | inr out ↦ ground (arith, out, done)
  ],
)
