-- ===== src/Vector.antt =====
-- The vectors of lib/vector/vector.c and vector.h: the struct, and its operations on the memory
-- that the elements lie in. Pointers are addresses, 0 is NULL. A buffer that the source has on its
-- stack, or that `kzalloc` returns, is an argument; `krealloc` returns a new address and the memory
-- after it.
pub mod Elements
pub mod Access
pub mod Push
pub mod Search
pub mod Remove
pub mod Reorder
mod Tests
use Prim.Native.Nat.{Ordering}
use peach_os64bit_module_two.Common.{
  ℕ, zero, suc, ◌+◌, ◌-◌, ◌*◌, ◌%◌, ◌^◌, ◌≤◌, Bool, true, false, not, ◌||◌, Option, none, some, ltb,
  leb, ◌==◌, if◌then◌else◌, add64,
}
use peach_os64bit_module_two.Common.Int.{ℤ, pos, negsuc}
use peach_os64bit_module_two.Status.{Result, ok, err, einvarg, enomem, eoutofrange, eio}
use peach_os64bit_module_two.Memory.{Mem, memset, memcpy, memcmp}

-- `struct vector`
pub record Vector : Type 0 where
  pub memory : ℕ
  pub flags : ℕ
  pub e_size : ℕ
  pub t_elems : ℕ
  pub tm_elems : ℕ
  pub t_reserved_elements : ℕ

abbrev pub mul64 : ℕ → ℕ → ℕ
mul64 a b = a * b % 2 ^ 64

abbrev pub sub64 : ℕ → ℕ → ℕ
sub64 a b = (a + (2 ^ 64 - b)) % 2 ^ 64

-- A `size_t` returned as an `int`, and an `int` passed as a `size_t`.
abbrev pub to_int : ℕ → ℤ
to_int n = if ltb (n % 2 ^ 32) (2 ^ 31) then pos (n % 2 ^ 32) else negsuc (2 ^ 32 - n % 2 ^ 32 - 1)

abbrev pub to_size : ℤ → ℕ
to_size (pos n) = n
to_size (negsuc n) = 2 ^ 64 - n - 1

-- A `size_t` as the count of a loop that ends at a negative `int`.
abbrev pub int_count : ℕ → ℕ
int_count n = if ltb (n % 2 ^ 32) (2 ^ 31) then n % 2 ^ 32 else 0

-- `vector_new`, with the address of the struct.
unfoldable pub vector_new : ℕ → ℕ → ℕ → ℕ → Option Vector
vector_new block element_size total_reserved flags =
    if block == 0
    then none
    else some (record {
      memory = 0;
      flags = flags;
      e_size = element_size;
      t_elems = 0;
      tm_elems = 0;
      t_reserved_elements = total_reserved;
    })

-- `vector_count`
abbrev pub vector_count : Vector → ℕ
vector_count vec = vec.t_elems

-- `vector_valid_bounds`
unfoldable pub vector_valid_bounds : Vector → ℕ → Result (Unit {0})
vector_valid_bounds vec index = if ltb index vec.t_elems then ok tt else err einvarg

-- `vector_memory_at_index`
unfoldable pub vector_memory_at_index : Vector → ℕ → ℕ
vector_memory_at_index vec index = add64 vec.memory (mul64 vec.e_size index)

-- `vector_resize` after `krealloc`.
unfoldable pub resized : Vector → ℕ → ℕ × Mem → Result (Unit {0}) × Vector × Mem
resized vec final (block, m) =
    if block == 0
    then (err enomem, record vec { memory = 0 }, m)
    else (ok tt, record vec { memory = block; tm_elems = final }, m)

abbrev grown : ℕ → Result (Unit {0}) × Vector × Mem → Result (Unit {0}) × Vector × Mem
grown total (ok _, vec, m) = (ok tt, record vec { t_elems = add64 vec.t_elems total }, m)
grown total (err e, vec, m) = (err e, vec, m)

-- `vector_push` after its resize.
unfoldable pub push_resized : ℕ → Result (Unit {0}) × Vector × Mem → Result ℤ × Vector × Mem
push_resized elem (ok _, vec, m) = (
  ok (to_int vec.t_elems),
  record vec { t_elems = add64 vec.t_elems 1 },
  memcpy m (vector_memory_at_index vec vec.t_elems) elem vec.e_size,
)
push_resized elem (err e, vec, m) = (err e, vec, m)

module _ (krealloc : Mem → ℕ → ℕ → ℕ × Mem) where
  -- `vector_resize`
  unfoldable pub vector_resize : Mem → Vector → ℕ → Result (Unit {0}) × Vector × Mem
  vector_resize m vec total_needed =
      let required = add64 vec.t_elems total_needed in
      let final = add64 vec.t_reserved_elements required in
      if ltb required vec.tm_elems
      then (ok tt, vec, m)
      else resized vec final (krealloc m vec.memory (mul64 final vec.e_size))

  -- `vector_grow`
  unfoldable pub vector_grow : Mem → Vector → ℕ → Result (Unit {0}) × Vector × Mem
  vector_grow m vec total = grown total (vector_resize m vec total)

  -- `vector_push`
  unfoldable pub vector_push : Mem → Vector → ℕ → Result ℤ × Vector × Mem
  vector_push m vec elem = push_resized elem (vector_resize m vec 1)

-- `vector_overwrite`
unfoldable pub vector_overwrite : Mem → Vector → ℤ → ℕ → ℕ → Result (Unit {0}) × Mem
vector_overwrite m vec index elem elem_size = elim (vector_valid_bounds vec (to_size index)) [
  | err e ↦ (err e, m)
  | ok _ ↦
      if ltb elem_size vec.e_size
      then (err einvarg, m)
      else (ok tt, memcpy m (vector_memory_at_index vec (to_size index)) elem vec.e_size)
]

-- `vector_at`: the bytes at `data_out` are cleared on an error.
unfoldable pub vector_at : Mem → Vector → ℕ → ℕ → ℕ → Result (Unit {0}) × Mem
vector_at m vec index data_out size =
    if ltb size vec.e_size
    then (err einvarg, memset m data_out 0 size)
    else if data_out == 0
    then (err einvarg, memset m data_out 0 size)
    else (elim (vector_valid_bounds vec index) [
      | err e ↦ (err e, memset m data_out 0 size)
      | ok _ ↦ (ok tt, memcpy m data_out (vector_memory_at_index vec index) vec.e_size)
    ])

-- `vector_pop`
unfoldable pub vector_pop : Vector → Result (Unit {0}) × Vector
vector_pop vec =
    if vec.t_elems == 0 then (err eio, vec) else (ok tt, record vec { t_elems = vec.t_elems - 1 })

-- `vector_back`
unfoldable pub vector_back : Mem → Vector → ℕ → ℕ → Result (Unit {0}) × Mem
vector_back m vec data_out size = vector_at m vec (sub64 vec.t_elems 1) data_out size

-- Whether the bytes at two addresses agree, by `memcmp`, whose count is an `int`.
abbrev pub equal_bytes : Mem → ℕ → ℕ → ℕ → Bool
equal_bytes m a b size = elim (memcmp (λ i. m (a + i)) (λ i. m (b + i)) (int_count size)) [
  | Ordering.eq ↦ true
  | _ ↦ false
]

-- The loop of `vector_has`: `rounds` more elements, from `i` on, through the buffer `tmp_buf`.
unfoldable pub has_loop : ℕ → Mem → Vector → ℕ → ℕ → ℕ → ℕ → Result (Unit {0}) × ℕ × Mem
has_loop zero m vec elem size tmp_buf i = (err eoutofrange, i, m)
has_loop (suc rounds) m vec elem size tmp_buf i =
    let m' = (vector_at m vec i tmp_buf size).1 in
    let rest = has_loop rounds m' vec elem size tmp_buf (i + 1) in
    if equal_bytes m' elem tmp_buf size then (ok tt, i, m') else rest

-- `vector_has`; the index is written to `index_out`, which a size that differs leaves alone.
unfoldable pub vector_has : Mem → Vector → ℕ → ℕ → ℕ → Result (Unit {0}) × Option ℕ × Mem
vector_has m vec elem elem_size tmp_buf =
    if not (vec.e_size == elem_size)
    then (err einvarg, none, m)
    else (let (res, i, m') = has_loop (vector_count vec) m vec elem elem_size tmp_buf 0 in
        (res, some i, m'))

-- A round of the search of `vector_pop_element`: what `vector_at` did, whether the element is the
-- one, and the other rounds.
abbrev pub find_round :
    Result (Unit {0}) × Mem → Bool → ℕ → Result (Option ℕ) × Mem → Result (Option ℕ) × Mem
find_round (err e, m) same i rest = (err e, m)
find_round (ok _, m) same i rest = if same then (ok (some i), m) else rest

-- The search of `vector_pop_element`: an error of `vector_at`, or the index where the element is.
unfoldable pub find_loop : ℕ → Mem → Vector → ℕ → ℕ → ℕ → ℕ → Result (Option ℕ) × Mem
find_loop zero m vec mem_val size tmp i = (ok none, m)
find_loop (suc rounds) m vec mem_val size tmp i =
    let at = vector_at m vec i tmp size in
    let rest = find_loop rounds at.1 vec mem_val size tmp (i + 1) in
    find_round at (equal_bytes at.1 tmp mem_val size) i rest

-- Taking the element at `index` out.
unfoldable pub remove_at : Mem → Vector → ℕ → ℕ → Result (Unit {0}) × Vector × Mem
remove_at m vec index size =
    if index == vec.t_elems - 1
    then (let (res, vec') = vector_pop vec in (res, vec', m))
    else (let to_delete = add64 vec.memory (mul64 index size) in
        let total_bytes = mul64 (vec.t_elems - index - 1) size in
        (
          ok tt,
          record vec { t_elems = vec.t_elems - 1 },
          memcpy m to_delete (add64 to_delete size) total_bytes,
        ))

abbrev pub removed : Vector → ℕ → Result (Option ℕ) × Mem → Result (Unit {0}) × Vector × Mem
removed vec size (err e, m) = (err e, vec, m)
removed vec size (ok none, m) = (err eio, vec, m)
removed vec size (ok (some index), m) = remove_at m vec index size

-- `vector_pop_element`, with the address of the buffer that `kzalloc` returns.
unfoldable pub vector_pop_element : Mem → Vector → ℕ → ℕ → ℕ → Result (Unit {0}) × Vector × Mem
vector_pop_element m vec mem_val size tmp_mem =
    if not (size == vec.e_size)
    then (err einvarg, vec, m)
    else if tmp_mem == 0
    then (err enomem, vec, m)
    else removed vec size
        (find_loop (vector_count vec) (memset m tmp_mem 0 size) vec mem_val size tmp_mem 0)
