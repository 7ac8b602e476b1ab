-- ===== src/PathParser/Parse.antt =====
-- `pathparser_parse`: what it accepts, and that it ends.
use peach_os64bit_module_two.Common.{
  ℕ, zero, suc, ◌+◌, ◌<◌, ◌≤◌, ◌≡◌, ◌≢◌, ◌⊎◌, inl, inr, refl, Bool, true, Option, some, List, ◌∷◌,
  arith, leb, length, subst,
}
use peach_os64bit_module_two.Common.Int.{ℤ, pos, sub_ℕ}
use peach_os64bit_module_two.Status.{ok}
use peach_os64bit_module_two.Memory.{memcmp}
use peach_os64bit_module_two.Strings.{strnlen, isdigit, tonumericdigit}
use peach_os64bit_module_two.Strings.Length.{strnlen_lem}
use peach_os64bit_module_two.PathParser.{
  char_at, path_valid_format, get_drive_by_path, parts_loop, rooted, parse,
}
use peach_os64bit_module_two.PathParser.Split.{
  AllParts, join, slashed, parts_loop-join, parts_loop-slashed, length-join, length-slashed,
}

-- The drive that the character `d` stands for: a digit, or `@` for the disk of the primary file
-- system.
abbrev pub DriveOf : Option ℕ → ℕ → ℤ → Type 0
DriveOf primary d drive =
    ((isdigit d ≡ true) × (drive ≡ sub_ℕ d 48))
    ⊎ ((d ≡ b'@') × (drive_id : ℕ) × (primary ≡ some drive_id) × (drive ≡ pos drive_id))

three_of :
    (d : ℕ) (rest : List ℕ) (n : ℕ)
    → d ≢ 0
    → (n < 108 → char_at (d ∷ b':' ∷ b'/' ∷ rest) n ≡ 0)
    → 3 ≤ n
three_of d rest zero nz end = absurd (nz (end (omega arith)))
three_of d rest (suc zero) nz end = omega (arith, end (omega arith))
three_of d rest (suc (suc zero)) nz end = omega (arith, end (omega arith))
three_of d rest (suc (suc (suc n))) nz end = omega arith

three_long :
    (d : ℕ) (rest : List ℕ) → d ≢ 0 → leb 3 (strnlen (char_at (d ∷ b':' ∷ b'/' ∷ rest)) 108) ≡ true
three_long d rest nz =
    let path = d ∷ b':' ∷ b'/' ∷ rest in
    let long = three_of d rest (strnlen (char_at path) 108) nz (strnlen_lem (char_at path) 108).2 in
    ground arith

drive_char : (d : ℕ) → (isdigit d ≡ true) ⊎ (d ≡ b'@') → d ≢ 0
unfolding isdigit
drive_char d (inl dig) z = ground arith
drive_char d (inr at) z = omega arith

path_valid_format_lem :
    (d : ℕ) (rest : List ℕ)
    → (isdigit d ≡ true) ⊎ (d ≡ b'@')
    → path_valid_format (d ∷ b':' ∷ b'/' ∷ rest) ≡ true
unfolding path_valid_format memcmp
path_valid_format_lem d rest dig =
    let long = three_long d rest (drive_char d dig) in ground (arith, long)

get_drive_by_path_lem :
    (primary : Option ℕ) (d : ℕ) (rest : List ℕ) (drive : ℤ)
    → DriveOf primary d drive
    → get_drive_by_path primary (d ∷ b':' ∷ b'/' ∷ rest) ≡ ok (drive, rest)
unfolding get_drive_by_path tonumericdigit isdigit
get_drive_by_path_lem primary d rest drive (inl (dig, e)) =
    ground (arith, path_valid_format_lem d rest (inl dig))
get_drive_by_path_lem primary d rest drive (inr (at, i, p, e)) =
    ground (arith, path_valid_format_lem d rest (inr at))

module _ (alloc : ℕ → Bool) (works : (n : ℕ) → alloc n ≡ true) (primary : Option ℕ) (d : ℕ)
    (drive : ℤ) (on : DriveOf primary d drive) where
  parse_rest :
      (rest : List ℕ) (p : List ℕ) (ps : List (List ℕ))
      → length rest + 3 ≤ 108
      → parts_loop (length rest + 3 + 1) alloc 1 rest ≡ some (p ∷ ps)
      → parse alloc primary (d ∷ b':' ∷ b'/' ∷ rest)
        ≡ some (some (record { drive_no = drive; parts = p ∷ ps }))
  unfolding parse rooted
  parse_rest rest p ps short found =
      let same : length rest + 3 ≡ suc (suc (suc (length rest))) = omega arith in
      let found' = subst (λ k. parts_loop (k + 1) alloc 1 rest ≡ some (p ∷ ps)) same found in
      ground (arith, works 0, get_drive_by_path_lem primary d rest drive on)

  -- Where no allocation fails, a path that is printed from a drive and at least one part, each
  -- neither empty nor with a slash, parses back to them, if it has at most 108 characters.
  pub parse-join :
      (p : List ℕ) (ps : List (List ℕ))
      → AllParts (p ∷ ps)
      → length (join (p ∷ ps)) + 3 ≤ 108
      → parse alloc primary (d ∷ b':' ∷ b'/' ∷ join (p ∷ ps))
        ≡ some (some (record { drive_no = drive; parts = p ∷ ps }))
  parse-join p ps all short =
      parse_rest (join (p ∷ ps)) p ps short
        (parts_loop-join alloc works (p ∷ ps) _ 1 all (omega (arith, length-join (p ∷ ps) all)))

  -- Where no allocation fails, two slashes in a row end the path: the parts before them are
  -- returned with no error, whatever stands behind.
  pub parse-slashed :
      (p : List ℕ) (ps : List (List ℕ)) (more : List ℕ)
      → AllParts (p ∷ ps)
      → length (slashed (p ∷ ps) (b'/' ∷ more)) + 3 ≤ 108
      → parse alloc primary (d ∷ b':' ∷ b'/' ∷ slashed (p ∷ ps) (b'/' ∷ more))
        ≡ some (some (record { drive_no = drive; parts = p ∷ ps }))
  parse-slashed p ps more all short = parse_rest (slashed (p ∷ ps) (b'/' ∷ more)) p ps short (
      parts_loop-slashed alloc works (p ∷ ps) (b'/' ∷ more) _ 1 all (inr (more, refl))
        (omega (arith, length-slashed (p ∷ ps) (b'/' ∷ more) all)))
