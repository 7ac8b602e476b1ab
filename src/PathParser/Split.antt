-- ===== src/PathParser/Split.antt =====
-- The parts of a path, against splitting it at the slashes.
use peach_os64bit_module_two.Common.{
  ℕ, zero, suc, ◌+◌, ◌<◌, ◌≤◌, ◌≡◌, ◌≢◌, ◌⊎◌, inl, inr, refl, Bool, true, none, some, List, [], ◌∷◌,
  ◌++◌, arith, length, length-append,
}
use peach_os64bit_module_two.PathParser.{
  part_chars, skip_slash, nonempty, get_path_part, parse_path_part, parts_loop,
}

-- A part of a path: not empty, and with no slash.
abbrev pub NoSlash : List ℕ → Type 0
NoSlash [] = Unit
NoSlash (c ∷ cs) = (c ≢ b'/') × NoSlash cs

abbrev pub IsPart : List ℕ → Type 0
IsPart p = NoSlash p × (p ≢ [])

abbrev pub AllParts : List (List ℕ) → Type 0
AllParts [] = Unit
AllParts (p ∷ ps) = IsPart p × AllParts ps

-- The parts with a slash between them.
abbrev pub join : List (List ℕ) → List ℕ
join [] = []
join (p ∷ []) = p
join (p ∷ q ∷ ps) = p ++ (b'/' ∷ join (q ∷ ps))

-- Each part with a slash behind it, and then `stop`.
abbrev pub slashed : List (List ℕ) → List ℕ → List ℕ
slashed [] stop = stop
slashed (p ∷ ps) stop = p ++ (b'/' ∷ slashed ps stop)

part_chars-append :
    (p rest : List ℕ) → NoSlash p → part_chars (p ++ (b'/' ∷ rest)) ≡ (p, b'/' ∷ rest)
unfolding part_chars
part_chars-append [] rest ns = refl
part_chars-append (c ∷ p) rest ns = ground (arith, part_chars-append p rest ns.1)

part_chars-end : (p : List ℕ) → NoSlash p → part_chars p ≡ (p, [])
unfolding part_chars
part_chars-end [] ns = refl
part_chars-end (c ∷ p) ns = ground (arith, part_chars-end p ns.1)

module _ (alloc : ℕ → Bool) (works : (n : ℕ) → alloc n ≡ true) where
  parse_path_part-append :
      (n : ℕ) (p rest : List ℕ)
      → IsPart p
      → parse_path_part alloc n (p ++ (b'/' ∷ rest)) ≡ (some p, n + 2, rest)
  unfolding parse_path_part get_path_part skip_slash nonempty
  parse_path_part-append n p rest ip =
      ground (arith, works n, works (n + 1), part_chars-append p rest ip.0)

  parse_path_part-end :
      (n : ℕ) (p : List ℕ) → IsPart p → parse_path_part alloc n p ≡ (some p, n + 2, [])
  unfolding parse_path_part get_path_part skip_slash nonempty
  parse_path_part-end n p ip = ground (arith, works n, works (n + 1), part_chars-end p ip.0)

  parse_path_part-none :
      (n : ℕ) (stop : List ℕ)
      → (stop ≡ []) ⊎ ((more : List ℕ) × (stop ≡ b'/' ∷ more))
      → (parse_path_part alloc n stop).0 ≡ none
  unfolding parse_path_part get_path_part skip_slash nonempty part_chars
  parse_path_part-none n stop (inl e) = ground (arith, works n)
  parse_path_part-none n stop (inr (more, e)) = ground (arith, works n)

  parts_loop-step :
      (fuel n : ℕ) (path : List ℕ) {p : List ℕ} {n' : ℕ} {rest : List ℕ} {ps : List (List ℕ)}
      → parse_path_part alloc n path ≡ (some p, n', rest)
      → parts_loop fuel alloc n' rest ≡ some ps
      → parts_loop (suc fuel) alloc n path ≡ some (p ∷ ps)
  unfolding parts_loop
  parts_loop-step fuel n path part later = ground arith

  parts_loop-stop :
      (fuel n : ℕ) (stop : List ℕ)
      → (stop ≡ []) ⊎ ((more : List ℕ) × (stop ≡ b'/' ∷ more))
      → parts_loop (suc fuel) alloc n stop ≡ some []
  unfolding parts_loop
  parts_loop-stop fuel n stop s = ground (arith, parse_path_part-none n stop s)

  -- With fuel for a round more than there are parts, the loop returns the parts that were joined.
  pub parts_loop-join :
      (ps : List (List ℕ)) (fuel n : ℕ)
      → AllParts ps
      → length ps < fuel
      → parts_loop fuel alloc n (join ps) ≡ some ps
  parts_loop-join ps zero n all more = absurd (omega arith)
  parts_loop-join [] (suc fuel) n all more = parts_loop-stop fuel n [] (inl refl)
  parts_loop-join (p ∷ []) (suc zero) n all more = absurd (omega arith)
  parts_loop-join (p ∷ []) (suc (suc fuel)) n all more =
      parts_loop-step (suc fuel) n p (parse_path_part-end n p all.0)
        (parts_loop-stop fuel (n + 2) [] (inl refl))
  parts_loop-join (p ∷ q ∷ ps) (suc fuel) n all more =
      parts_loop-step fuel n (p ++ (b'/' ∷ join (q ∷ ps)))
        (parse_path_part-append n p (join (q ∷ ps)) all.0)
        (parts_loop-join (q ∷ ps) fuel (n + 2) all.1 (omega arith))

  -- An empty piece ends the path: what stands behind two slashes is not read.
  pub parts_loop-slashed :
      (ps : List (List ℕ)) (stop : List ℕ) (fuel n : ℕ)
      → AllParts ps
      → (stop ≡ []) ⊎ ((more : List ℕ) × (stop ≡ b'/' ∷ more))
      → length ps < fuel
      → parts_loop fuel alloc n (slashed ps stop) ≡ some ps
  parts_loop-slashed ps stop zero n all s more = absurd (omega arith)
  parts_loop-slashed [] stop (suc fuel) n all s more = parts_loop-stop fuel n stop s
  parts_loop-slashed (p ∷ ps) stop (suc fuel) n all s more =
      parts_loop-step fuel n (p ++ (b'/' ∷ slashed ps stop))
        (parse_path_part-append n p (slashed ps stop) all.0)
        (parts_loop-slashed ps stop fuel (n + 2) all.1 s (omega arith))

part_pos : (p : List ℕ) → IsPart p → 1 ≤ length p
part_pos [] ip = absurd (ip.1 refl)
part_pos (c ∷ p) ip = omega arith

-- The parts are no more than the characters.
pub length-join : (ps : List (List ℕ)) → AllParts ps → length ps ≤ length (join ps)
length-join [] all = omega arith
length-join (p ∷ []) all = part_pos p all.0
length-join (p ∷ q ∷ ps) all =
    omega
      (arith, length-join (q ∷ ps) all.1, length-append p (b'/' ∷ join (q ∷ ps)), part_pos p all.0)

pub length-slashed :
    (ps : List (List ℕ)) (stop : List ℕ) → AllParts ps → length ps ≤ length (slashed ps stop)
length-slashed [] stop all = omega arith
length-slashed (p ∷ ps) stop all =
    omega (arith, length-slashed ps stop all.1, length-append p (b'/' ∷ slashed ps stop))
