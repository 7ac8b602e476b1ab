-- ===== src/Strings/Tests.antt =====
-- Runs of the string routines, and their theorems at short strings.
use peach_os64bit_module_two.Common.{
  ℕ, zero, suc, ◌+◌, ◌<◌, ◌≤◌, ◌≡◌, ◌≢◌, refl, some, List, [], ◌∷◌, arith, get_or, length,
}
use peach_os64bit_module_two.Common.Int.{pos, negsuc}
use peach_os64bit_module_two.Strings.{
  tolower, strlen, strnlen, strncmp, istrncmp, strncpy, digits_loop, signed_text, itoa,
}
use peach_os64bit_module_two.Strings.Length.{IsString, strlen_lem, strnlen_lem}
use peach_os64bit_module_two.Strings.Decimal.{read_text, itoa_lem}

-- "aB" and "Ab" with their terminators.
abbrev first : ℕ → ℕ
first i = get_or (b'a' ∷ b'B' ∷ []) i 0

abbrev second : ℕ → ℕ
second i = get_or (b'A' ∷ b'b' ∷ []) i 0

itoa_runs : itoa (negsuc 41) ≡ some (b'-' ∷ b'4' ∷ b'2' ∷ [])
unfolding itoa digits_loop signed_text
itoa_runs = refl

istrncmp_runs : istrncmp first second 5 ≡ pos 0
unfolding istrncmp tolower
istrncmp_runs = refl

strncmp_runs : strncmp second first 5 ≡ negsuc 31
unfolding strncmp
strncmp_runs = refl

-- A count of 0 still writes the terminator.
strncpy_zero : strncpy first 7 0 0 7 ≡ 0
unfolding strncpy
strncpy_zero = refl

first-body : (i : ℕ) → i < 2 → first i ≢ 0
first-body zero h = omega arith
first-body (suc zero) h = omega arith
first-body (suc (suc i)) h = absurd (omega arith)

first-IsString : IsString first 2
first-IsString = record { ends = refl; body = first-body }

strlen_lem_example : strlen 3 first ≡ some 2
strlen_lem_example = strlen_lem 2 3 first first-IsString (omega arith) (omega arith)

strnlen_lem_example :
    let n = strnlen first 5 in (n ≤ 5) × ((i : ℕ) → i < n → first i ≢ 0) × (n < 5 → first n ≡ 0)
strnlen_lem_example = strnlen_lem first 5

shifted-IsString : IsString (λ i. first (0 + i)) 2
shifted-IsString = record {
  ends = refl;
  body = λ i h. let e : 0 + i ≡ i = omega arith in rw e (first-body i h);
}

itoa_lem_example :
    (text : List ℕ) × (itoa (negsuc 41) ≡ some text)
    × (read_text text ≡ negsuc 41)
    × (length text ≤ 11)
itoa_lem_example = itoa_lem (negsuc 41) (omega arith)
