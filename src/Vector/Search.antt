-- ===== src/Vector/Search.antt =====
-- `vector_pop_element` of lib/vector/vector.c.
use peach_os64bit_module_two.Common.{
  ℕ, zero, suc, ◌+◌, ◌*◌, ◌<◌, ◌≤◌, ◌≡◌, ◌≢◌, ◌⊎◌, ◌↔◌, inl, inr, refl, true, false, arith, ◌==◌,
  if◌then◌else◌, Bool-cases, ap, ◌∙◌, sym, subst, Option, none, some,
}
use peach_os64bit_module_two.Status.{Result, ok, err}
use peach_os64bit_module_two.Memory.{Mem, memcpy}
use peach_os64bit_module_two.Memory.Laws.{memcmp-eq}
use Prim.Native.Nat.{Ordering}
use peach_os64bit_module_two.Vector.{
  Vector, int_count, equal_bytes, vector_at, vector_valid_bounds, vector_memory_at_index, find_loop,
  find_round,
}
use peach_os64bit_module_two.Vector.Elements.{IsVector, element, Apart, slot_bound}
use peach_os64bit_module_two.Vector.Access.{copy_out}

-- Element `i` has the bytes at `mem_val`.
abbrev pub Equal : Mem → Vector → ℕ → ℕ → Type 0
Equal m v mem_val i = (k : ℕ) → k < v.e_size → element m v i k ≡ m (mem_val + k)

-- The buffer of the search does not meet the vector's memory or the value, and is not NULL.
pub record IsBuffer (v : Vector) (mem_val tmp : ℕ) : Type 0 where
  pub there : tmp ≢ 0
  pub apart : Apart v tmp v.e_size
  pub other : (tmp + v.e_size ≤ mem_val) ⊎ (mem_val + v.e_size ≤ tmp)

Ordering-eq :
    (o : Ordering) → ((elim o [ Ordering.eq ↦ true | _ ↦ false ]) ≡ true) ↔ (o ≡ Ordering.eq)
Ordering-eq o = ground arith

module _ (v : Vector) (valid : IsVector v) (mem_val tmp : ℕ) (buffer : IsBuffer v mem_val tmp) where
  -- One round reads the element.
  read_ok :
      (m : Mem) (i : ℕ)
      → i < v.t_elems
      → vector_at m v i tmp v.e_size ≡ (ok tt, memcpy m tmp (vector_memory_at_index v i) v.e_size)
  unfolding vector_at vector_valid_bounds
  read_ok m i lt = ground (arith, buffer.there, lt)

  -- Memory outside the buffer.
  abbrev pub Outside : Mem → Mem → Type 0
  Outside m' m = (a : ℕ) → (a < tmp) ⊎ (tmp + v.e_size ≤ a) → m' a ≡ m a

  read-Outside :
      (m : Mem) (i : ℕ)
      → i < v.t_elems
      → Outside (memcpy m tmp (vector_memory_at_index v i) v.e_size) m
  read-Outside m i lt a out = ground (arith, copy_out m v valid i tmp lt buffer.apart a, out)

  compared :
      (m : Mem) (i : ℕ)
      → i < v.t_elems
      → (equal_bytes (memcpy m tmp (vector_memory_at_index v i) v.e_size) tmp mem_val v.e_size
          ≡ true)
        ↔ Equal m v mem_val i
  compared m i lt =
      let count : int_count v.e_size ≡ v.e_size = ground (arith, valid.small) in
      let both =
        memcmp-eq (int_count v.e_size)
          (λ k. memcpy m tmp (vector_memory_at_index v i) v.e_size (tmp + k))
          (λ k. memcpy m tmp (vector_memory_at_index v i) v.e_size (mem_val + k)) in
      let at = copy_out m v valid i tmp lt buffer.apart in
      (
        λ same k lt'. ground (
          arith,
          both.0 ((Ordering-eq _).0 same) k (omega (arith, count, lt')),
          at (tmp + k),
          at (mem_val + k),
          buffer.other,
        ),
        λ equal. (Ordering-eq _).1 (
            both.1 (λ k lt'. ground (
              arith,
              equal k (omega (arith, count, lt')),
              at (tmp + k),
              at (mem_val + k),
              buffer.other,
              count,
              lt',
            ))),
      )

  -- Elements are outside.
  pub element-Outside :
      (m m' : Mem)
      → Outside m' m
      → (i k : ℕ) → i < v.t_elems
      → k < v.e_size
      → element m' v i k ≡ element m v i k
  element-Outside m m' same i k lt lt' = ground (
    arith,
    same (v.memory + v.e_size * i + k),
    buffer.apart,
    slot_bound v.e_size i v.tm_elems (omega (arith, lt, valid.count)),
  )

  pub Equal-Outside :
      (m m' : Mem)
      → Outside m' m
      → (i : ℕ) → i < v.t_elems
      → Equal m' v mem_val i ↔ Equal m v mem_val i
  Equal-Outside m m' same i lt = (
    λ equal k lt'. ground (
      arith,
      equal k lt',
      element-Outside m m' same i k lt lt',
      same (mem_val + k),
      buffer.other,
    ),
    λ equal k lt'. ground (
      arith,
      equal k lt',
      element-Outside m m' same i k lt lt',
      same (mem_val + k),
      buffer.other,
    ),
  )

  -- The first index from `i` on with the value, or none; the memory stays outside the buffer.
  abbrev pub Found : Mem → ℕ → Result (Option ℕ) × Mem → Type 0
  Found m i (err e, m') = ⊥
  Found m i (ok none, m') = Outside m' m × ((l : ℕ) → i ≤ l → l < v.t_elems → ¬ Equal m v mem_val l)
  Found m i (ok (some j), m') =
      Outside m' m
      × (i ≤ j)
      × (j < v.t_elems)
      × Equal m v mem_val j
      × ((l : ℕ) → i ≤ l → l < j → ¬ Equal m v mem_val l)

  skip :
      (m m' : Mem) (i : ℕ)
      → Outside m' m
      → i < v.t_elems
      → ¬ Equal m v mem_val i
      → (r : Result (Option ℕ) × Mem) → Found m' (i + 1) r
      → Found m i r
  skip m m' i same lt differ (err e, m2) found = found
  skip m m' i same lt differ (ok none, m2) (out, none_there) = (
    λ a free. out a free ∙ same a free,
    λ l le lt' equal. elim (Bool-cases (l == i)) [
      | inl here ↦ differ (subst (Equal m v mem_val) (ground (arith, here)) equal)
      | inr later ↦
          none_there l (ground (arith, le, later)) lt' ((Equal-Outside m m' same l lt').1 equal)
    ],
  )
  skip m m' i same lt differ (ok (some j), m2) (out, le_j, lt_j, equal_j, first) = (
    λ a free. out a free ∙ same a free,
    omega (arith, le_j),
    lt_j,
    (Equal-Outside m m' same j lt_j).0 equal_j,
    λ l le lt' equal. elim (Bool-cases (l == i)) [
      | inl here ↦ differ (subst (Equal m v mem_val) (ground (arith, here)) equal)
      | inr later ↦
          first l (ground (arith, le, later)) lt'
            ((Equal-Outside m m' same l (omega (arith, lt', lt_j))).1 equal)
    ],
  )

  find_step :
      (rounds : ℕ) (m : Mem) (i : ℕ)
      → i < v.t_elems
      → find_loop (suc rounds) m v mem_val v.e_size tmp i ≡ (
          let m' = memcpy m tmp (vector_memory_at_index v i) v.e_size in
          if equal_bytes m' tmp mem_val v.e_size
          then (ok (some i), m')
          else find_loop rounds m' v mem_val v.e_size tmp (i + 1))
  unfolding find_loop
  find_step rounds m i lt =
      ap
        (λ at.
          find_round at (equal_bytes at.1 tmp mem_val v.e_size) i
            (find_loop rounds at.1 v mem_val v.e_size tmp (i + 1)))
        (read_ok m i lt)

  last_round :
      (m : Mem) (i : ℕ) → i + 0 ≡ v.t_elems → Found m i (find_loop 0 m v mem_val v.e_size tmp i)
  unfolding find_loop
  last_round m i end = (λ a free. refl, λ l le lt. absurd (omega (arith, end, le, lt)))

  pub find_loop-Found :
      (rounds : ℕ) (m : Mem) (i : ℕ)
      → i + rounds ≡ v.t_elems
      → Found m i (find_loop rounds m v mem_val v.e_size tmp i)
  find_loop-Found zero m i end = last_round m i end
  find_loop-Found (suc rounds) m i end =
      let lt : i < v.t_elems = omega (arith, end) in
      let m' : Mem = memcpy m tmp (vector_memory_at_index v i) v.e_size in
      subst (Found m i) (sym (find_step rounds m i lt))
        (elim (Bool-cases (equal_bytes m' tmp mem_val v.e_size)) [
          | inl same ↦ rw same (
            read-Outside m i lt,
            omega arith,
            lt,
            (compared m i lt).0 same,
            λ l le lt'. absurd (omega (arith, le, lt')),
          )
          | inr other ↦ rw other (
              skip m m' i (read-Outside m i lt) lt
                (λ equal. ground (arith, other, (compared m i lt).1 equal))
                (find_loop rounds m' v mem_val v.e_size tmp (i + 1))
                (find_loop-Found rounds m' (i + 1) (omega (arith, end))))
        ])
