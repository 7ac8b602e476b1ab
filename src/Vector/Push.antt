-- ===== src/Vector/Push.antt =====
-- `vector_resize` and `vector_push` of lib/vector/vector.c.
use peach_os64bit_module_two.Common.{
  ℕ, ◌+◌, ◌-◌, ◌*◌, ◌^◌, ◌<◌, ◌≤◌, ◌≡◌, ◌≢◌, ◌⊎◌, inl, inr, refl, arith, ltb, ◌==◌, if◌then◌else◌,
  Bool-cases, ap, ◌∙◌, add64,
}
use peach_os64bit_module_two.Status.{Result, ok, err, enomem}
use peach_os64bit_module_two.Memory.{Mem, memcpy}
use peach_os64bit_module_two.Memory.Laws.{memcpy_lem, within}
use peach_os64bit_module_two.Vector.{
  Vector, mul64, to_int, vector_memory_at_index, vector_resize, resized, push_resized, vector_push,
}
use peach_os64bit_module_two.Vector.Elements.{
  IsVector, element, Apart, slot_bound, vector_memory_at_index_lem,
}

-- The elements of a vector are those of another, as far as that has some.
pub record Keeps (m : Mem) (v : Vector) (m' : Mem) (v' : Vector) : Type 0 where
  pub size : v'.e_size ≡ v.e_size
  pub elements : (i k : ℕ) → i < v.t_elems → k < v.e_size → element m' v' i k ≡ element m v i k

-- What the outcome of a call of `krealloc` is, for a vector, a size, and a block of `e_size` bytes
-- elsewhere: NULL, or a block of the address space that has the bytes of the elements and does not
-- meet the other block, which stays.
pub record IsRealloc (m : Mem) (v : Vector) (elem size : ℕ) (r : ℕ × Mem) : Type 0 where
  pub fits : r.0 ≢ 0 → r.0 + size < 2 ^ 64
  pub kept : r.0 ≢ 0 → (o : ℕ) → o < v.e_size * v.t_elems → r.1 (r.0 + o) ≡ m (v.memory + o)
  pub other : r.0 ≢ 0 → (k : ℕ) → k < v.e_size → r.1 (elem + k) ≡ m (elem + k)
  pub apart : r.0 ≢ 0 → (elem + v.e_size ≤ r.0) ⊎ (r.0 + size ≤ elem)

-- The vector has room for one element.
pub record HasRoom (m : Mem) (v : Vector) (elem : ℕ) (m' : Mem) (v' : Vector) : Type 0 where
  pub valid : IsVector v'
  pub keeps : Keeps m v m' v'
  pub same : v'.t_elems ≡ v.t_elems
  pub room : v.t_elems < v'.tm_elems
  pub apart : Apart v' elem v.e_size
  pub there : (k : ℕ) → k < v.e_size → m' (elem + k) ≡ m (elem + k)

-- What a resize for one element leads to.
abbrev pub Resized : Mem → Vector → ℕ → Result (Unit {0}) × Vector × Mem → Type 0
Resized m v elem (res, v', m') =
    ((res ≡ ok tt) × HasRoom m v elem m' v') ⊎ ((res ≡ err enomem) × (v' ≡ record v { memory = 0 }))

-- The number of elements that `vector_push` would reserve memory for.
abbrev pub wanted : Vector → ℕ
wanted v = v.t_reserved_elements + (v.t_elems + 1)

moved-HasRoom :
    (m : Mem) (v : Vector)
    → IsVector v
    → (elem p : ℕ) (m' : Mem) → p ≢ 0
    → IsRealloc m v elem (v.e_size * wanted v) (p, m')
    → wanted v < 2 ^ 64
    → HasRoom m v elem m' (record v { memory = p; tm_elems = wanted v })
moved-HasRoom m v valid elem p m' there alloc top = record {
  valid = record {
    count = omega arith;
    fits = alloc.fits there;
    small = valid.small;
    counted = top;
  };
  keeps = record {
    size = refl;
    elements = λ i k lt lt'.
        let bound : v.e_size * i + v.e_size ≤ v.e_size * v.t_elems =
          slot_bound v.e_size i v.t_elems lt in
        let assoc : p + v.e_size * i + k ≡ p + (v.e_size * i + k) = omega arith in
        let assoc' : v.memory + (v.e_size * i + k) ≡ v.memory + v.e_size * i + k = omega arith in
        ap m' assoc ∙ alloc.kept there (v.e_size * i + k) (omega (arith, bound, lt')) ∙ ap m assoc';
  };
  same = refl;
  room = omega arith;
  apart = alloc.apart there;
  there = alloc.other there;
}

resized-Resized :
    (m : Mem) (v : Vector)
    → IsVector v
    → (elem : ℕ) (r : ℕ × Mem) → IsRealloc m v elem (v.e_size * wanted v) r
    → wanted v < 2 ^ 64
    → Resized m v elem (resized v (wanted v) r)
unfolding resized
resized-Resized m v valid elem (p, m') alloc top = elim (Bool-cases (p == 0)) [
  | inl null ↦ rw null (inr (refl, refl))
  | inr there ↦
      rw there (inl (refl, moved-HasRoom m v valid elem p m' (ground (arith, there)) alloc top))
]

stays-HasRoom :
    (m : Mem) (v : Vector)
    → IsVector v
    → (elem : ℕ) → Apart v elem v.e_size
    → v.t_elems < v.tm_elems
    → HasRoom m v elem m v
stays-HasRoom m v valid elem apart lt = record {
  valid = valid;
  keeps = record { size = refl; elements = λ i k _ _. refl };
  same = refl;
  room = lt;
  apart = apart;
  there = λ k _. refl;
}

-- What `vector_push` ends with when its resize has made room.
pub record Pushed (m : Mem) (v : Vector) (elem : ℕ) (m' : Mem) (v' : Vector) : Type 0 where
  pub valid : IsVector v'
  pub keeps : Keeps m v m' v'
  pub count : v'.t_elems ≡ v.t_elems + 1
  pub last : (k : ℕ) → k < v.e_size → element m' v' v.t_elems k ≡ m (elem + k)

module _ (m : Mem) (v : Vector) (elem : ℕ) (m' : Mem) (v' : Vector)
    (h : HasRoom m v elem m' v') where
  end_bound : v'.e_size * v.t_elems + v'.e_size ≤ v'.e_size * v'.tm_elems
  end_bound = slot_bound v'.e_size v.t_elems v'.tm_elems h.room

  -- The bytes after the copy.
  pushed_bytes :
      (a : ℕ)
      → memcpy m' (vector_memory_at_index v' v'.t_elems) elem v'.e_size a ≡ (
          if within (v'.memory + v'.e_size * v.t_elems) v'.e_size a
          then m' (elem + (a - (v'.memory + v'.e_size * v.t_elems)))
          else m' a)
  pushed_bytes a =
      let target : vector_memory_at_index v' v'.t_elems ≡ v'.memory + v'.e_size * v.t_elems =
        vector_memory_at_index_lem v' h.valid v'.t_elems (omega (arith, h.room, h.same))
        ∙ ap (λ n. v'.memory + v'.e_size * n) h.same in
      let free : (v'.memory + v'.e_size * v.t_elems ≤ elem)
          ⊎ (elem + v'.e_size ≤ v'.memory + v'.e_size * v.t_elems) =
        ground (arith, h.apart, end_bound, h.keeps.size) in
      rw target (
        memcpy_lem m' (v'.memory + v'.e_size * v.t_elems) elem v'.e_size a
          (omega (arith, h.valid.small)) free)

  push_resized-Pushed :
      Pushed m v elem (push_resized elem (ok tt, v', m')).2 (push_resized elem (ok tt, v', m')).1
  unfolding push_resized
  push_resized-Pushed = record {
    valid = record {
      count = ground (arith, h.room, h.same);
      fits = h.valid.fits;
      small = h.valid.small;
      counted = h.valid.counted;
    };
    keeps = record {
      size = h.keeps.size;
      elements = λ i k lt lt'. ground (
        arith,
        pushed_bytes (v'.memory + v'.e_size * i + k),
        h.keeps.elements i k lt lt',
        h.keeps.size,
        slot_bound v'.e_size i v.t_elems lt,
      );
    };
    count = ground (arith, h.room, h.same, h.valid.counted);
    last = λ k lt.
        ground
          (arith, pushed_bytes (v'.memory + v'.e_size * v.t_elems + k), h.there k lt, h.keeps.size);
  }

Resized-Pushed :
    (m : Mem) (v : Vector) (elem : ℕ) (r : Result (Unit {0}) × Vector × Mem)
    → Resized m v elem r
    → let (res, v', m') = push_resized elem r in
      ((res ≡ ok (to_int v.t_elems)) × Pushed m v elem m' v')
      ⊎ ((res ≡ err enomem) × (v' ≡ record v { memory = 0 }))
unfolding push_resized
Resized-Pushed m v elem (ok u, v', m') (inl (res, h)) =
    inl (ap (λ n. ok (to_int n)) h.same, push_resized-Pushed m v elem m' v' h)
Resized-Pushed m v elem (ok u, v', m') (inr (res, lost)) = ground (arith, res)
Resized-Pushed m v elem (err e, v', m') (inl (res, h)) = ground (arith, res)
Resized-Pushed m v elem (err e, v', m') (inr (res, lost)) = inr (ground (arith, res), lost)

module _ (krealloc : Mem → ℕ → ℕ → ℕ × Mem) (m : Mem) (v : Vector) (valid : IsVector v) (elem : ℕ)
    (apart : Apart v elem v.e_size) where
  vector_resize-Resized :
      v.e_size * wanted v < 2 ^ 64
      → wanted v < 2 ^ 64
      → IsRealloc m v elem (v.e_size * wanted v) (krealloc m v.memory (v.e_size * wanted v))
      → Resized m v elem (vector_resize krealloc m v 1)
  unfolding vector_resize
  vector_resize-Resized fits fits' alloc =
      let required : add64 v.t_elems 1 ≡ v.t_elems + 1 = omega (arith, fits') in
      let final : add64 v.t_reserved_elements (v.t_elems + 1) ≡ wanted v = omega (arith, fits') in
      let bytes : mul64 (wanted v) v.e_size ≡ v.e_size * wanted v = omega (arith, fits) in
      let moved =
        resized-Resized m v valid elem (krealloc m v.memory (v.e_size * wanted v)) alloc fits' in
      elim (Bool-cases (ltb (v.t_elems + 1) v.tm_elems)) [
        | inl enough ↦
            rw (required, enough)
              (inl (refl, stays-HasRoom m v valid elem apart (ground (arith, enough))))
        | inr full ↦ rw (required, full, final, bytes) moved
      ]

  -- For a valid vector and a block apart from it, where the memory that `vector_push` may ask for
  -- has a size in 64 bits and `krealloc` keeps what a reallocation keeps: it returns the index of
  -- the new element, which has the bytes given, and all other elements keep theirs; or it returns
  -- -ENOMEM, and then the vector has lost its memory but not its count.
  pub vector_push-Pushed :
      v.e_size * wanted v < 2 ^ 64
      → wanted v < 2 ^ 64
      → IsRealloc m v elem (v.e_size * wanted v) (krealloc m v.memory (v.e_size * wanted v))
      → let (res, v', m') = vector_push krealloc m v elem in
        ((res ≡ ok (to_int v.t_elems)) × Pushed m v elem m' v')
        ⊎ ((res ≡ err enomem) × (v' ≡ record v { memory = 0 }))
  unfolding vector_push
  vector_push-Pushed fits fits' alloc =
      Resized-Pushed m v elem (vector_resize krealloc m v 1)
        (vector_resize-Resized fits fits' alloc)
