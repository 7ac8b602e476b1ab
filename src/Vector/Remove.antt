-- ===== src/Vector/Remove.antt =====
-- Taking an element out, in `vector_pop_element` of lib/vector/vector.c.
use peach_os64bit_module_two.Common.{
  ℕ, ◌+◌, ◌-◌, ◌*◌, ◌^◌, ◌<◌, ◌≤◌, ◌≡◌, ◌⊎◌, inl, inr, refl, true, false, arith, ltb, ◌==◌,
  if◌then◌else◌, Bool-cases, ap, ◌∙◌, add64, Option, none, some,
}
use peach_os64bit_module_two.Status.{Result, ok, err, eio}
use peach_os64bit_module_two.Memory.{Mem, memset, memcpy}
use peach_os64bit_module_two.Memory.Laws.{memset_lem, memcpy_lem, within}
use native.Mathlib.Nat.{mul-le-mul_left}
use peach_os64bit_module_two.Vector.{
  Vector, mul64, find_loop, remove_at, removed, vector_pop, vector_pop_element,
}
use peach_os64bit_module_two.Vector.Elements.{IsVector, element, slot_bound}
use peach_os64bit_module_two.Vector.Search.{
  Equal, IsBuffer, Found, find_loop-Found, Outside, element-Outside, Equal-Outside,
}

-- The elements without the one at `j`.
pub record Without (m : Mem) (v : Vector) (j : ℕ) (m' : Mem) (v' : Vector) : Type 0 where
  pub fewer : v' ≡ record v { t_elems = v.t_elems - 1 }
  pub before : (l k : ℕ) → l < j → k < v.e_size → element m' v l k ≡ element m v l k
  pub behind :
      (l k : ℕ)
      → j ≤ l
      → l + 1 < v.t_elems
      → k < v.e_size
      → element m' v l k ≡ element m v (l + 1) k

module _ (v : Vector) (valid : IsVector v) (small : v.e_size * v.t_elems < 2 ^ 31) where
  shifted :
      (m : Mem) (j d : ℕ)
      → v.t_elems ≡ j + 1 + d
      → (l k : ℕ) → l + 1 < v.t_elems
      → k < v.e_size
      → memcpy m
          (v.memory + v.e_size * j)
          (v.memory + v.e_size * j + v.e_size)
          (v.e_size * d)
          (v.memory + v.e_size * l + k)
        ≡ (if ltb l j then element m v l k else element m v (l + 1) k)
  shifted m j d total l k lt lt' =
      let all : v.e_size * v.t_elems ≡ v.e_size * j + v.e_size + v.e_size * d =
        ap (λ n. v.e_size * n) total ∙ omega arith in
      let bytes =
        memcpy_lem m (v.memory + v.e_size * j) (v.memory + v.e_size * j + v.e_size) (v.e_size * d)
          (v.memory + v.e_size * l + k) (omega (arith, all, small)) (inl (omega arith)) in
      let top : v.e_size * (l + 1) + v.e_size ≤ v.e_size * v.t_elems =
        slot_bound v.e_size (l + 1) v.t_elems lt in
      elim (Bool-cases (ltb l j)) [
        | inl low ↦ ground (arith, bytes, slot_bound v.e_size l j (ground (arith, low)), lt', low)
        | inr high ↦
            let order : v.e_size * j ≤ v.e_size * l =
              mul-le-mul_left v.e_size (ground (arith, high)) in
            let from : v.memory
                  + v.e_size * j
                  + v.e_size
                  + (v.memory + v.e_size * l + k - (v.memory + v.e_size * j))
                ≡ v.memory + v.e_size * (l + 1) + k =
              omega (arith, order) in
            let inside : within (v.memory + v.e_size * j) (v.e_size * d)
                  (v.memory + v.e_size * l + k)
                ≡ true =
              ground (arith, order, top, all, lt') in
            ground (arith, bytes, inside, ap m from, high)
      ]

  remove_at-Without :
      (m : Mem) (j : ℕ)
      → j < v.t_elems
      → let (res, v', m') = remove_at m v j v.e_size in (res ≡ ok tt) × Without m v j m' v'
  unfolding remove_at vector_pop
  remove_at-Without m j lt = elim (Bool-cases (j == v.t_elems - 1)) [
    | inl last ↦
        let some_there : (v.t_elems == 0) ≡ false = ground (arith, lt) in
        rw (last, some_there)
          (
            refl,
            record {
              fewer = refl;
              before = λ l k _ _. refl;
              behind = λ l k le top _. absurd (ground (arith, last, le, top));
            },
          )
    | inr inner ↦
        let at : add64 v.memory (mul64 j v.e_size) ≡ v.memory + v.e_size * j = omega (
          arith,
          valid.fits,
          valid.count,
          lt,
          slot_bound v.e_size j v.tm_elems (omega (arith, lt, valid.count)),
        ) in
        let next : add64 (v.memory + v.e_size * j) v.e_size ≡ v.memory + v.e_size * j + v.e_size =
          omega (
            arith,
            valid.fits,
            slot_bound v.e_size j v.tm_elems (omega (arith, lt, valid.count)),
          ) in
        let part : v.e_size * (v.t_elems - j - 1) ≤ v.e_size * v.t_elems =
          mul-le-mul_left v.e_size (omega arith) in
        let bytes : mul64 (v.t_elems - j - 1) v.e_size ≡ v.e_size * (v.t_elems - j - 1) =
          omega (arith, part, small) in
        let moved = shifted m j (v.t_elems - j - 1) (omega (arith, lt)) in
        rw (inner, at, next, bytes)
          (
            refl,
            record {
              fewer = refl;
              before = λ l k low lt'. ground (arith, moved l k (omega (arith, low, lt)) lt', low);
              behind = λ l k le top lt'. ground (arith, moved l k top lt', le);
            },
          )
  ]

  module _ (mem_val tmp : ℕ) (buffer : IsBuffer v mem_val tmp) (m : Mem) where
    -- What `vector_pop_element` may do: the first element with the value is taken out, or there is
    -- none.
    unfoldable pub PopsElement : Result (Unit {0}) × Vector × Mem → Type 0
    PopsElement (res, v', m') =
        ((res ≡ ok tt)
          × ((j : ℕ) × (j < v.t_elems)
              × Equal m v mem_val j
              × ((l : ℕ) → l < j → ¬ Equal m v mem_val l)
              × Without m v j m' v'))
        ⊎ ((res ≡ err eio) × (v' ≡ v) × ((l : ℕ) → l < v.t_elems → ¬ Equal m v mem_val l))

    cleared-Outside : Outside v valid mem_val tmp buffer (memset m tmp 0 v.e_size) m
    cleared-Outside a free = ground (arith, memset_lem m tmp 0 v.e_size a, free)

    Without-Outside :
        (m' : Mem)
        → Outside v valid mem_val tmp buffer m' m
        → (j : ℕ) → j < v.t_elems
        → (m2 : Mem) (v2 : Vector) → Without m' v j m2 v2
        → Without m v j m2 v2
    Without-Outside m' same j lt m2 v2 w = record {
      fewer = w.fewer;
      before = λ l k low lt'.
          w.before l k low lt'
          ∙ element-Outside v valid mem_val tmp buffer m m' same l k (omega (arith, low, lt)) lt';
      behind = λ l k le top lt'.
          w.behind l k le top lt'
          ∙ element-Outside v valid mem_val tmp buffer m m' same (l + 1) k top lt';
    }

    removed-PopsElement :
        (r : Result (Option ℕ) × Mem)
        → Found v valid mem_val tmp buffer (memset m tmp 0 v.e_size) 0 r
        → PopsElement (removed v v.e_size r)
    unfolding PopsElement
    removed-PopsElement (err e, m') found = absurd found
    removed-PopsElement (ok none, m') (out, none_there) = inr (
      refl,
      refl,
      λ l lt equal. none_there l (omega arith) lt (
          (Equal-Outside v valid mem_val tmp buffer m (memset m tmp 0 v.e_size) cleared-Outside l
              lt).1
            equal),
    )
    removed-PopsElement (ok (some j), m') (out, le, lt, equal, first) =
        let same =
          Equal-Outside v valid mem_val tmp buffer m (memset m tmp 0 v.e_size) cleared-Outside in
        let (done, w) = remove_at-Without m' j lt in
        inl (
          done,
          (
            j,
            lt,
            (same j lt).0 equal,
            λ l low equal'. first l (omega arith) low ((same l (omega (arith, low, lt))).1 equal'),
            Without-Outside m' (λ a free. out a free ∙ cleared-Outside a free) j lt _ _ w,
          ),
        )

    -- For a valid vector whose elements have less than 2^31 bytes, and a buffer from kzalloc: where
    -- some element has the value, vector_pop_element takes the first such one out, the elements
    -- before it stay, and those behind it move down by one. Otherwise it returns -EIO, and the
    -- vector stays.
    pub vector_pop_element-PopsElement : PopsElement (vector_pop_element m v mem_val v.e_size tmp)
    unfolding vector_pop_element
    vector_pop_element-PopsElement =
        let size : (v.e_size == v.e_size) ≡ true = ground arith in
        let there : (tmp == 0) ≡ false = ground (arith, buffer.there) in
        rw (size, there)
          (removed-PopsElement
            (find_loop v.t_elems (memset m tmp 0 v.e_size) v mem_val v.e_size tmp 0)
            (find_loop-Found v valid mem_val tmp buffer v.t_elems (memset m tmp 0 v.e_size) 0
              (omega arith)))
