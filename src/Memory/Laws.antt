-- ===== src/Memory/Laws.antt =====
-- What the routines of memory/memory.c do, byte by byte.
use Prim.Native.Nat.{Ordering}
use peach_os64bit_module_two.Common.{
  ℕ, zero, suc, ◌+◌, ◌-◌, ◌%◌, ◌^◌, ◌≤◌, ◌<◌, ◌≡◌, ◌⊎◌, ◌↔◌, refl, Bool, ◌&&◌, arith, ltb, leb,
  if◌then◌else◌, update,
}
use peach_os64bit_module_two.Memory.{Mem, set_from, memset, copy, memcpy, memcmp}

-- `a` is one of the `n` addresses from `p` on.
abbrev pub within : ℕ → ℕ → ℕ → Bool
within p n a = leb p a && ltb a (p + n)

set_from_lem :
    (rounds : ℕ) (m : Mem) (ptr c i a : ℕ)
    → set_from rounds m ptr c i a ≡ (if within (ptr + i) rounds a then c % 256 else m a)
unfolding set_from
set_from_lem zero m ptr c i a = ground arith
set_from_lem (suc rounds) m ptr c i a =
    ground (arith, set_from_lem rounds (update m (ptr + i) (c % 256)) ptr c (i + 1) a)

-- `memset` fills exactly the `size` bytes from `ptr` on, and no other byte.
pub memset_lem :
    (m : Mem) (ptr c size a : ℕ)
    → memset m ptr c size a ≡ (if within ptr size a then c % 256 else m a)
unfolding memset
memset_lem m ptr c size a = ground (arith, set_from_lem size m ptr c 0 a)

copy_lem :
    (len : ℕ) (m : Mem) (d s a : ℕ)
    → (d ≤ s) ⊎ (s + len ≤ d)
    → copy len m d s a ≡ (if within d len a then m (s + (a - d)) else m a)
unfolding copy
copy_lem zero m d s a apart = ground arith
copy_lem (suc len) m d s a apart = ground (arith, copy_lem len (update m d (m s)) (d + 1) (s + 1) a)

-- `memcpy` copies the `len` bytes from `src` on to `dest`, and changes no other byte, if the
-- target does not begin inside the source.
pub memcpy_lem :
    (m : Mem) (dest src len a : ℕ)
    → len < 2 ^ 32
    → (dest ≤ src) ⊎ (src + len ≤ dest)
    → memcpy m dest src len a ≡ (if within dest len a then m (src + (a - dest)) else m a)
unfolding memcpy
memcpy_lem m dest src len a small apart = ground (arith, copy_lem len m dest src a apart)

-- The rest of a block agrees, beside its first byte.
agree_suc :
    (count : ℕ) (c1 c2 : ℕ → ℕ)
    → c1 0 ≡ c2 0
    → ((i : ℕ) → i < count → c1 (i + 1) ≡ c2 (i + 1))
    → (i : ℕ) → i < suc count
    → c1 i ≡ c2 i
agree_suc count c1 c2 first rest zero h = first
agree_suc count c1 c2 first rest (suc i) h = ground (arith, rest i)

-- `memcmp` returns 0 exactly when the two blocks agree on each of their `count` bytes.
pub memcmp-eq :
    (count : ℕ) (c1 c2 : ℕ → ℕ)
    → (memcmp c1 c2 count ≡ Ordering.eq) ↔ ((i : ℕ) → i < count → c1 i ≡ c2 i)
unfolding memcmp
memcmp-eq zero c1 c2 = (λ _ i h. absurd (omega arith), λ _. refl)
memcmp-eq (suc count) c1 c2 =
    let ih = memcmp-eq count (λ i. c1 (i + 1)) (λ i. c2 (i + 1)) in
    (
      λ h. agree_suc count c1 c2 (ground arith) (ih.0 (ground arith)),
      λ h. ground (arith, h 0, ih.1 λ i p. h (i + 1) (omega arith)),
    )
