-- ===== src/Strings/Compare.antt =====
-- The comparisons of string/string.c.
use peach_os64bit_module_two.Common.{
  ℕ, zero, suc, ◌+◌, ◌<◌, ◌≡◌, ◌≢◌, ◌↔◌, inl, inr, refl, arith, ◌==◌, Bool-cases,
}
use peach_os64bit_module_two.Common.Int.{pos, sub_ℕ-eq_zero}
use peach_os64bit_module_two.Strings.{strncmp, istrncmp, tolower}

-- The first `n` characters agree under `f`, as far as the first string goes.
abbrev pub Agree : (ℕ → ℕ) → (ℕ → ℕ) → (ℕ → ℕ) → ℕ → Type 0
Agree f s1 s2 n = (i : ℕ) → i < n → ((j : ℕ) → j < i → s1 j ≢ 0) → f (s1 i) ≡ f (s2 i)

Agree-suc :
    (f s1 s2 : ℕ → ℕ) (n : ℕ)
    → f (s1 0) ≡ f (s2 0)
    → (s1 0 ≢ 0 → Agree f (λ i. s1 (i + 1)) (λ i. s2 (i + 1)) n)
    → Agree f s1 s2 (suc n)
Agree-suc f s1 s2 n first rest zero h live = first
Agree-suc f s1 s2 n first rest (suc i) h live =
    let p : i + 1 ≡ suc i = omega arith in
    rw p at (rest (live 0 (omega arith)) i (omega arith) (λ j k. live (j + 1) (omega arith)))

Agree-tail :
    (f s1 s2 : ℕ → ℕ) (n : ℕ)
    → s1 0 ≢ 0
    → Agree f s1 s2 (suc n)
    → Agree f (λ i. s1 (i + 1)) (λ i. s2 (i + 1)) n
Agree-tail f s1 s2 n nz agree i h live = agree (i + 1) (omega arith) (λ j k. go j k)
  where
    go : (j : ℕ) → j < i + 1 → s1 j ≢ 0
    go zero k = nz
    go (suc j) k = let p : j + 1 ≡ suc j = omega arith in rw p at (live j (omega arith))

-- `strncmp` returns 0 exactly when the strings agree on their first `n` characters, as far as the
-- terminator.
pub strncmp-eq : (n : ℕ) (s1 s2 : ℕ → ℕ) → (strncmp s1 s2 n ≡ pos 0) ↔ Agree (λ c. c) s1 s2 n
unfolding strncmp
strncmp-eq zero s1 s2 = (λ _ i h. absurd (omega arith), λ _. refl)
strncmp-eq (suc n) s1 s2 =
    let ih = strncmp-eq n (λ i. s1 (i + 1)) (λ i. s2 (i + 1)) in
    let diff = sub_ℕ-eq_zero (s1 0) (s2 0) in
    (
      λ h. Agree-suc (λ c. c) s1 s2 n (ground (arith, diff)) (λ nz. ih.0 (ground (arith, diff))),
      λ agree.
          let first = agree 0 (omega arith) (λ j k. absurd (omega arith)) in
          elim (Bool-cases (s1 0 == 0)) [
            | inl end ↦ ground (arith, first, diff)
            | inr more ↦
                ground (arith, first, diff, ih.1 (Agree-tail (λ c. c) s1 s2 n (ground arith) agree))
          ],
    )

-- `istrncmp` returns 0 exactly when the strings agree, but for the case of letters, on their first
-- `n` characters, as far as the terminator of the first.
pub istrncmp-eq : (n : ℕ) (s1 s2 : ℕ → ℕ) → (istrncmp s1 s2 n ≡ pos 0) ↔ Agree tolower s1 s2 n
unfolding istrncmp
istrncmp-eq zero s1 s2 = (λ _ i h. absurd (omega arith), λ _. refl)
istrncmp-eq (suc n) s1 s2 =
    let ih = istrncmp-eq n (λ i. s1 (i + 1)) (λ i. s2 (i + 1)) in
    let diff = sub_ℕ-eq_zero (s1 0) (s2 0) in
    (
      λ h. Agree-suc tolower s1 s2 n (ground (arith, diff)) (λ nz. ih.0 (ground (arith, diff))),
      λ agree.
          let first = agree 0 (omega arith) (λ j k. absurd (omega arith)) in
          elim (Bool-cases (s1 0 == 0)) [
            | inl end ↦ ground (arith, first, diff)
            | inr more ↦
                ground (arith, first, diff, ih.1 (Agree-tail tolower s1 s2 n (ground arith) agree))
          ],
    )
