-- ===== src/Strings.antt =====
-- The routines of string/string.c. A string that is only read is the function of its offsets; one
-- that is written lies in a memory.
pub mod Length
pub mod Compare
pub mod Copy
pub mod Decimal
mod Tests
use peach_os64bit_module_two.Common.{
  ℕ, zero, suc, ◌+◌, ◌-◌, ◌/◌, ◌%◌, ◌^◌, Bool, true, false, not, ◌&&◌, ◌||◌, Option, none, some,
  List, [], ◌∷◌, ltb, leb, ◌==◌, if◌then◌else◌, update,
}
use peach_os64bit_module_two.Common.Int.{ℤ, pos, negsuc, sub_ℕ, magnitude}
use peach_os64bit_module_two.Memory.{Mem}

-- Bytes from 128 on are negative `char`s, and no upper-case letters.
unfoldable pub tolower : ℕ → ℕ
tolower s1 = if leb 65 s1 && leb s1 90 then s1 + 32 else s1

-- `none`: no terminator within the fuel, or none before the counter, an `int`, overflows.
unfoldable pub strlen : ℕ → (ℕ → ℕ) → Option ℕ
strlen zero ptr = none
strlen (suc fuel) ptr =
    let rest = strlen fuel (λ i. ptr (i + 1)) in
    if ptr 0 == 0
    then some 0
    else (elim rest [ none ↦ none | some n ↦ if ltb (n + 1) (2 ^ 31) then some (n + 1) else none ])

-- The loop of `strnlen_terminator`, `rounds` before `max`.
terminator_loop : ℕ → (ℕ → ℕ) → ℕ → ℕ → ℕ
terminator_loop zero str terminator i = i
terminator_loop (suc rounds) str terminator i =
    let rest = terminator_loop rounds str terminator (i + 1) in
    if str i == 0 || str i == terminator then i else rest

unfoldable pub strnlen_terminator : (ℕ → ℕ) → ℕ → ℕ → ℕ
unfolding terminator_loop
strnlen_terminator str max terminator = terminator_loop max str terminator 0

strnlen_loop : ℕ → (ℕ → ℕ) → ℕ → ℕ
strnlen_loop zero ptr i = i
strnlen_loop (suc rounds) ptr i =
    let rest = strnlen_loop rounds ptr (i + 1) in if ptr i == 0 then i else rest

unfoldable pub strnlen : (ℕ → ℕ) → ℕ → ℕ
unfolding strnlen_loop
strnlen ptr max = strnlen_loop max ptr 0

unfoldable pub istrncmp : (ℕ → ℕ) → (ℕ → ℕ) → ℕ → ℤ
istrncmp s1 s2 zero = pos 0
istrncmp s1 s2 (suc n) =
    let rest = istrncmp (λ i. s1 (i + 1)) (λ i. s2 (i + 1)) n in
    if not (s1 0 == s2 0) && not (tolower (s1 0) == tolower (s2 0))
    then sub_ℕ (s1 0) (s2 0)
    else if s1 0 == 0
    then pos 0
    else rest

unfoldable pub strncmp : (ℕ → ℕ) → (ℕ → ℕ) → ℕ → ℤ
strncmp str1 str2 zero = pos 0
strncmp str1 str2 (suc n) =
    let rest = strncmp (λ i. str1 (i + 1)) (λ i. str2 (i + 1)) n in
    if not (str1 0 == str2 0) then sub_ℕ (str1 0) (str2 0) else if str1 0 == 0 then pos 0 else rest

-- `none`: no terminator within the fuel, or none before the counter, an `int`, overflows.
unfoldable pub strcpy : ℕ → Mem → ℕ → ℕ → Option Mem
strcpy zero m dest src = none
strcpy (suc fuel) m dest src =
    let rest = strcpy fuel (update m dest (m src)) (dest + 1) (src + 1) in
    if m src == 0 then some (update m dest 0) else rest

-- The loop of `strncpy`, `rounds` before `count - 1`.
strncpy_loop : ℕ → Mem → ℕ → ℕ → ℕ → Mem
strncpy_loop zero m dest src i = update m (dest + i) 0
strncpy_loop (suc rounds) m dest src i =
    let rest = strncpy_loop rounds (update m (dest + i) (m (src + i))) dest src (i + 1) in
    if m (src + i) == 0 then update m (dest + i) 0 else rest

unfoldable pub strncpy : Mem → ℕ → ℕ → ℕ → Mem
unfolding strncpy_loop
strncpy m dest src count = strncpy_loop (count - 1) m dest src 0

-- `while (i)`: the decimal digits of the magnitude, written from the end of the buffer.
digits_loop : ℕ → ℕ → List ℕ → Option (List ℕ)
digits_loop zero n text = none
digits_loop (suc fuel) n text =
    let rest = digits_loop fuel (n / 10) ((b'0' + n % 10) ∷ text) in
    if n == 0 then some text else rest

-- What `itoa` does after the loop: a `0` where there is no digit, and the sign.
signed_text : ℤ → List ℕ → List ℕ
signed_text (pos n) [] = b'0' ∷ []
signed_text (pos n) (c ∷ cs) = c ∷ cs
signed_text (negsuc n) [] = b'-' ∷ b'0' ∷ []
signed_text (negsuc n) (c ∷ cs) = b'-' ∷ c ∷ cs

-- The text before its terminator, as it ends up in the static buffer. Ten digits are the most that
-- an `int` has; the eleventh round of the fuel sees 0.
pub itoa : ℤ → Option (List ℕ)
itoa i = elim (digits_loop 11 (magnitude i) []) [
  | none ↦ none
  | some text ↦ some (signed_text i text)
]

unfoldable pub isdigit : ℕ → Bool
isdigit c = leb 48 c && leb c 57

unfoldable pub tonumericdigit : ℕ → ℤ
tonumericdigit c = sub_ℕ c 48
