-- ===== src/Strings/Length.antt =====
-- The lengths of string/string.c.
use peach_os64bit_module_two.Common.{
  ℕ, zero, suc, ◌+◌, ◌^◌, ◌<◌, ◌≤◌, ◌≡◌, ◌≢◌, ◌⊎◌, inl, inr, refl, ◌||◌, some, arith, ◌==◌,
  Bool-cases,
}
use peach_os64bit_module_two.Strings.{
  strlen, strnlen_terminator, terminator_loop, strnlen, strnlen_loop,
}

-- `s` is a C string of `n` bytes before its terminator.
pub record IsString (s : ℕ → ℕ) (n : ℕ) : Type 0 where
  pub ends : s n ≡ 0
  pub body : (i : ℕ) → i < n → s i ≢ 0

-- On a string of less than 2^31 bytes, with fuel beyond its length, `strlen` ends and returns the
-- length.
pub strlen_lem :
    (n fuel : ℕ) (s : ℕ → ℕ) → IsString s n → n < fuel → n < 2 ^ 31 → strlen fuel s ≡ some n
unfolding strlen
strlen_lem n zero s str more int = absurd (omega arith)
strlen_lem zero (suc fuel) s str more int = ground (arith, str.ends)
strlen_lem (suc n) (suc fuel) s str more int =
    let tail : IsString (λ i. s (i + 1)) n = record {
      ends = let p : n + 1 ≡ suc n = omega arith in rw p str.ends;
      body = λ i h. str.body (i + 1) (omega arith);
    } in
    ground (arith, str.body 0, strlen_lem n fuel (λ i. s (i + 1)) tail)

-- `r` is the first offset from `i` on that holds a zero byte or `t`, or else `max`.
record Stops (str : ℕ → ℕ) (t i max r : ℕ) : Type 0 where
  from : i ≤ r
  most : r ≤ max
  before : (j : ℕ) → i ≤ j → j < r → (str j ≢ 0) × (str j ≢ t)
  there : r < max → (str r ≡ 0) ⊎ (str r ≡ t)

Stops-here : (str : ℕ → ℕ) (t i max : ℕ) → i ≤ max → (str i ≡ 0) ⊎ (str i ≡ t) → Stops str t i max i
Stops-here str t i max le stop = record {
  from = omega arith;
  most = le;
  before = λ j a b. absurd (omega arith);
  there = λ _. stop;
}

Stops-step :
    (str : ℕ → ℕ) (t i max r : ℕ)
    → str i ≢ 0
    → str i ≢ t
    → Stops str t (i + 1) max r
    → Stops str t i max r
Stops-step str t i max r z nt s = record {
  from = omega (arith, s.from);
  most = s.most;
  before = λ j a b. elim (Bool-cases (i == j)) [
    | inl e ↦ ground arith
    | inr ne ↦ s.before j (ground arith) b
  ];
  there = s.there;
}

terminator_loop-Stops :
    (rounds : ℕ) (str : ℕ → ℕ) (t i max : ℕ)
    → i + rounds ≡ max
    → Stops str t i max (terminator_loop rounds str t i)
unfolding terminator_loop
terminator_loop-Stops zero str t i max e = record {
  from = omega arith;
  most = omega arith;
  before = λ j a b. absurd (omega arith);
  there = λ h. absurd (omega arith);
}
terminator_loop-Stops (suc rounds) str t i max e = elim (Bool-cases (str i == 0 || str i == t)) [
  | inl stop ↦ rw stop (Stops-here str t i max (omega arith) (ground arith))
  | inr go ↦ rw go (
      Stops-step str t i max _ (ground arith) (ground arith)
        (terminator_loop-Stops rounds str t (i + 1) max (omega arith)))
]

-- `strnlen_terminator` returns the first offset before `max` that holds the terminator character
-- or a zero byte, and `max` when there is none.
pub strnlen_terminator_lem :
    (str : ℕ → ℕ) (max terminator : ℕ)
    → let n = strnlen_terminator str max terminator in
      (n ≤ max)
      × ((i : ℕ) → i < n → (str i ≢ 0) × (str i ≢ terminator))
      × (n < max → (str n ≡ 0) ⊎ (str n ≡ terminator))
unfolding strnlen_terminator
strnlen_terminator_lem str max terminator =
    let s = terminator_loop-Stops max str terminator 0 max (omega arith) in
    (s.most, λ i h. s.before i (omega arith) h, s.there)

-- `strnlen` is `strnlen_terminator` with the zero byte as the terminator.
strnlen_loop-eq :
    (rounds : ℕ) (ptr : ℕ → ℕ) (i : ℕ) → strnlen_loop rounds ptr i ≡ terminator_loop rounds ptr 0 i
unfolding strnlen_loop terminator_loop
strnlen_loop-eq zero ptr i = refl
strnlen_loop-eq (suc rounds) ptr i = ground (arith, strnlen_loop-eq rounds ptr (i + 1))

-- `strnlen` returns the length of a string that is shorter than `max`, and `max` for a longer one.
pub strnlen_lem :
    (ptr : ℕ → ℕ) (max : ℕ)
    → let n = strnlen ptr max in (n ≤ max) × ((i : ℕ) → i < n → ptr i ≢ 0) × (n < max → ptr n ≡ 0)
unfolding strnlen
strnlen_lem ptr max =
    let s = terminator_loop-Stops max ptr 0 0 max (omega arith) in
    rw (strnlen_loop-eq max ptr 0)
      (s.most, λ i h. (s.before i (omega arith) h).0, λ h. ground (arith, s.there h))
