-- ===== src/Strings/Copy.antt =====
-- The copies of string/string.c.
use peach_os64bit_module_two.Common.{
  ℕ, zero, suc, ◌+◌, ◌-◌, ◌<◌, ◌≤◌, ◌≡◌, ◌⊎◌, refl, ◌&&◌, some, arith, ltb, leb, ◌==◌,
  if◌then◌else◌, update,
}
use peach_os64bit_module_two.Memory.{Mem}
use peach_os64bit_module_two.Memory.Laws.{within}
use peach_os64bit_module_two.Strings.{strcpy, strncpy, strncpy_loop, strnlen, strnlen_loop}
use peach_os64bit_module_two.Strings.Length.{IsString}

-- What a copy of the `n` characters at `src` to `dest`, with a terminator, leaves at address `a`.
abbrev pub copied : Mem → ℕ → ℕ → ℕ → ℕ → ℕ
copied m dest src n a =
    if within dest n a then m (src + (a - dest)) else if a == dest + n then 0 else m a

-- `strcpy` of a string of `n` characters to a place that does not begin inside of it copies the
-- characters and the terminator, and writes nothing else.
pub strcpy_lem :
    (n fuel : ℕ) (m : Mem) (dest src : ℕ)
    → IsString (λ i. m (src + i)) n
    → (dest ≤ src) ⊎ (src + n < dest)
    → n < fuel
    → (m' : Mem) × (strcpy fuel m dest src ≡ some m') × ((a : ℕ) → m' a ≡ copied m dest src n a)
unfolding strcpy
strcpy_lem n zero m dest src str apart more = absurd (omega arith)
strcpy_lem zero (suc fuel) m dest src str apart more =
    (update m dest 0, ground (arith, str.ends), λ a. ground arith)
strcpy_lem (suc n) (suc fuel) m dest src str apart more =
    let step = update m dest (m src) in
    let tail : IsString (λ i. step (src + 1 + i)) n = record {
      ends = ground (arith, str.ends);
      body = λ i h. ground (arith, str.body (i + 1));
    } in
    let (m', done, spec) =
      strcpy_lem n fuel step (dest + 1) (src + 1) tail (omega arith) (omega arith) in
    (m', ground (arith, str.body 0, done), λ a. ground (arith, spec a))

strnlen_loop-ext :
    (rounds : ℕ) (p q : ℕ → ℕ) (i : ℕ)
    → ((j : ℕ) → i ≤ j → j < i + rounds → p j ≡ q j)
    → strnlen_loop rounds p i ≡ strnlen_loop rounds q i
unfolding strnlen_loop
strnlen_loop-ext zero p q i same = refl
strnlen_loop-ext (suc rounds) p q i same =
    ground (
      arith,
      same i,
      strnlen_loop-ext rounds p q (i + 1) λ j h k. same j (omega arith) (omega arith),
    )

strnlen_loop-bounds :
    (rounds : ℕ) (p : ℕ → ℕ) (i : ℕ)
    → (i ≤ strnlen_loop rounds p i) × (strnlen_loop rounds p i ≤ i + rounds)
unfolding strnlen_loop
strnlen_loop-bounds zero p i = omega arith
strnlen_loop-bounds (suc rounds) p i = ground (arith, strnlen_loop-bounds rounds p (i + 1))

strncpy_loop_lem :
    (rounds : ℕ) (m : Mem) (dest src i a : ℕ)
    → (dest ≤ src) ⊎ (src + i + rounds ≤ dest)
    → strncpy_loop rounds m dest src i a ≡ (
        let e = strnlen_loop rounds (λ j. m (src + j)) i in
        if leb (dest + i) a && ltb a (dest + e)
        then m (src + (a - dest))
        else if a == dest + e
        then 0
        else m a)
unfolding strncpy_loop strnlen_loop
strncpy_loop_lem zero m dest src i a apart = ground arith
strncpy_loop_lem (suc rounds) m dest src i a apart =
    let step = update m (dest + i) (m (src + i)) in
    let p = λ (j : ℕ). m (src + j) in
    let q = λ (j : ℕ). step (src + j) in
    ground (
      arith,
      strncpy_loop_lem rounds step dest src (i + 1) a,
      strnlen_loop-ext rounds q p (i + 1) λ j x y. ground arith,
      strnlen_loop-bounds rounds p (i + 1),
    )

-- `strncpy` to a place that does not begin inside of the source copies as many characters as the
-- source has, but fewer than `count`, adds a terminator, and writes nothing else.
pub strncpy_lem :
    (m : Mem) (dest src count a : ℕ)
    → (dest ≤ src) ⊎ (src + count ≤ dest)
    → strncpy m dest src count a ≡ copied m dest src (strnlen (λ i. m (src + i)) (count - 1)) a
unfolding strncpy strnlen
strncpy_lem m dest src count a apart = ground (arith, strncpy_loop_lem (count - 1) m dest src 0 a)
