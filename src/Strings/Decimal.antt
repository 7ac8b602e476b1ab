-- ===== src/Strings/Decimal.antt =====
-- `itoa` and the digits of string/string.c.
use native.Mathlib.Nat.{pow-suc}
use peach_os64bit_module_two.Common.{
  ℕ, zero, suc, ◌+◌, ◌-◌, ◌*◌, ◌/◌, ◌%◌, ◌^◌, ◌<◌, ◌≤◌, ◌≡◌, inl, inr, true, some, List, [], ◌∷◌,
  arith, ◌==◌, if◌then◌else◌, Bool-cases, length, ap, ◌∙◌,
}
use peach_os64bit_module_two.Common.Int.{ℤ, pos, negsuc, magnitude, sub_ℕ}
use peach_os64bit_module_two.Strings.{digits_loop, itoa, signed_text, isdigit}

-- The number that decimal digits stand for, read on from `acc`.
abbrev pub value : ℕ → List ℕ → ℕ
value acc [] = acc
value acc (c ∷ cs) = value (acc * 10 + (c - 48)) cs

-- The number that a text stands for, with its sign.
abbrev pub read_text : List ℕ → ℤ
read_text [] = pos 0
read_text (c ∷ cs) = if c == b'-' then sub_ℕ 0 (value 0 cs) else pos (value 0 (c ∷ cs))

-- Every character is a digit.
abbrev pub AllDigits : List ℕ → Type 0
AllDigits [] = Unit
AllDigits (c ∷ cs) = (isdigit c ≡ true) × AllDigits cs

record Digits (f n : ℕ) (text r : List ℕ) : Type 0 where
  reads : value 0 r ≡ value n text
  digits : AllDigits r
  long : length r ≤ length text + f

digit_lem : (d : ℕ) → d < 10 → isdigit (b'0' + d) ≡ true
unfolding isdigit
digit_lem d small = ground arith

digits_loop_lem :
    (f n : ℕ) (text : List ℕ)
    → n < 10 ^ f
    → AllDigits text
    → (r : List ℕ) × (digits_loop (suc f) n text ≡ some r) × Digits f n text r
unfolding digits_loop
digits_loop_lem zero n text small all = (
  text,
  ground arith,
  record {
    reads = let z : 0 ≡ n = omega arith in ap (λ k. value k text) z;
    digits = all;
    long = omega arith;
  },
)
digits_loop_lem (suc f) n text small all = elim (Bool-cases (n == 0)) [
  | inl end ↦ (
    text,
    rw end,
    record {
      reads = let z : 0 ≡ n = ground arith in ap (λ k. value k text) z;
      digits = all;
      long = omega arith;
    },
  )
  | inr more ↦
      let d = b'0' + n % 10 in
      let (r, done, v) =
        digits_loop_lem f (n / 10) (d ∷ text) (omega (arith, pow-suc 10 f))
          (digit_lem (n % 10) (omega arith), all) in
      let same : n / 10 * 10 + (d - 48) ≡ n = omega arith in
      (
        r,
        rw more done,
        record {
          reads = v.reads ∙ ap (λ k. value k text) same;
          digits = v.digits;
          long = omega (arith, v.long);
        },
      )
]

-- The text of a number, from its digits.
signed_text_lem :
    (i : ℤ) (r : List ℕ)
    → Digits 10 (magnitude i) [] r
    → (read_text (signed_text i r) ≡ i) × (length (signed_text i r) ≤ 11)
unfolding signed_text isdigit
signed_text_lem (pos n) [] v = (ground (arith, v.reads), omega arith)
signed_text_lem (pos n) (c ∷ cs) v = (ground (arith, v.reads, v.digits.0), omega (arith, v.long))
signed_text_lem (negsuc n) [] v = absurd (omega (arith, v.reads))
signed_text_lem (negsuc n) (c ∷ cs) v = (ground (arith, v.reads), omega (arith, v.long))

-- `itoa` of any `int` ends, and returns a text that stands for the number and fits, with its
-- terminator, into the twelve bytes of the static buffer.
pub itoa_lem :
    (i : ℤ)
    → magnitude i ≤ 2 ^ 31
    → (text : List ℕ) × (itoa i ≡ some text) × (read_text text ≡ i) × (length text ≤ 11)
unfolding itoa
itoa_lem i small =
    let (r, done, v) = digits_loop_lem 10 (magnitude i) [] (omega arith) tt in
    let (reads, fits) = signed_text_lem i r v in (signed_text i r, rw (done, itoa), reads, fits)
