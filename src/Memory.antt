-- ===== src/Memory.antt =====
-- The byte routines of memory/memory.c. A memory is a function from an address to the byte there;
-- a pointer is the address, and a pointer that is only read may be the function of its offsets.
pub mod Laws
mod Tests
use Prim.Native.Nat.{compare, Ordering}
use peach_os64bit_module_two.Common.{ℕ, zero, suc, ◌+◌, ◌%◌, ◌^◌, ◌==◌, if◌then◌else◌, update}

abbrev pub Mem : Type 0
Mem = ℕ → ℕ

-- The loop of `memset`: `rounds` more writes, from `ptr[i]` on.
set_from : ℕ → Mem → ℕ → ℕ → ℕ → Mem
set_from zero m ptr c i = m
set_from (suc rounds) m ptr c i = set_from rounds (update m (ptr + i) (c % 256)) ptr c (i + 1)

-- `memset(ptr, c, size)`. Its counter is an `int`: sizes beyond 2^31 are undefined in the source.
unfoldable pub memset : Mem → ℕ → ℕ → ℕ → Mem
unfolding set_from
memset m ptr c size = set_from size m ptr c 0

-- `while (len--) *d++ = *s++;`
copy : ℕ → Mem → ℕ → ℕ → Mem
copy zero m d s = m
copy (suc len) m d s = copy len (update m d (m s)) (d + 1) (s + 1)

-- `memcpy(dest, src, len)`. `len` is an `int`, so only the low 32 bits of a size arrive.
unfoldable pub memcpy : Mem → ℕ → ℕ → ℕ → Mem
unfolding copy
memcpy m dest src len = copy (len % 2 ^ 32) m dest src

-- `char` is signed: the place of a byte in that order.
abbrev pub signed_key : ℕ → ℕ
signed_key c = (c + 128) % 256

-- `memcmp`, its results -1, 0 and 1 as `lt`, `eq` and `gt`.
unfoldable pub memcmp : (ℕ → ℕ) → (ℕ → ℕ) → ℕ → Ordering
memcmp c1 c2 zero = Ordering.eq
memcmp c1 c2 (suc count) =
    let rest = memcmp (λ i. c1 (i + 1)) (λ i. c2 (i + 1)) count in
    if c1 0 == c2 0 then rest else (elim (compare (signed_key (c1 0)) (signed_key (c2 0))) [
      | Ordering.lt ↦ Ordering.lt
      | _ ↦ Ordering.gt
    ])
