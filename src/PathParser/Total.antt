-- ===== src/PathParser/Total.antt =====
-- `pathparser_parse` whatever the allocations do: it ends, and what it returns is well formed.
use peach_os64bit_module_two.Common.{
  ℕ, zero, suc, ◌+◌, ◌-◌, ◌<◌, ◌≤◌, ◌≡◌, ◌≢◌, inl, inr, refl, Bool, true, false, Option, none, some,
  List, [], ◌∷◌, arith, ltb, length, Bool-cases, Option-cases, ap, subst,
}
use peach_os64bit_module_two.Common.Int.{ℤ}
use peach_os64bit_module_two.Status.{Result, ok, err}
use peach_os64bit_module_two.PathParser.{
  PathRoot, max_path, get_drive_by_path, drop_three, part_chars, skip_slash, nonempty,
  get_path_part, parse_path_part, parts_loop, rooted, parse,
}
use peach_os64bit_module_two.PathParser.Split.{NoSlash, IsPart, AllParts}

-- What `pathparser_get_path_part` splits off.
part_chars_lem :
    (path : List ℕ)
    → NoSlash (part_chars path).0
      × (length (part_chars path).0 + length (part_chars path).1 ≡ length path)
unfolding part_chars
part_chars_lem [] = (tt, omega arith)
part_chars_lem (c ∷ cs) = let ih = part_chars_lem cs in ground (arith, ih)

skip_slash-le : (path : List ℕ) → length (skip_slash path) ≤ length path
unfolding skip_slash
skip_slash-le [] = omega arith
skip_slash-le (c ∷ cs) = ground arith

-- A part that is found is well formed, and shortens the path.
record Took (path part rest : List ℕ) : Type 0 where
  well : IsPart part
  less : length part + length rest ≤ length path
  some_part : 0 < length part

nonempty_lem : (p : List ℕ) {q : List ℕ} → nonempty p ≡ some q → (p ≡ q) × (0 < length q) × (q ≢ [])
unfolding nonempty
nonempty_lem [] e = cc
nonempty_lem (c ∷ cs) e = (ground arith, ground arith, ground arith)

get_path_part-Took :
    (got : Bool) (path : List ℕ) {part : List ℕ}
    → (get_path_part got path).0 ≡ some part
    → Took path part (get_path_part got path).1
unfolding get_path_part
get_path_part-Took false path e = cc
get_path_part-Took true path {part} e =
    let (split, whole) = part_chars_lem path in
    let (same, more, ne) = nonempty_lem (part_chars path).0 e in
    let skip = skip_slash-le (part_chars path).1 in
    record {
      well = (subst NoSlash same split, ne);
      less = omega (arith, ap length same);
      some_part = more;
    }

parse_path_part-some :
    (alloc : ℕ → Bool) (n : ℕ) (path : List ℕ) {part : List ℕ}
    → (parse_path_part alloc n path).0 ≡ some part
    → ((get_path_part (alloc n) path).0 ≡ some part)
      × ((parse_path_part alloc n path).2 ≡ (get_path_part (alloc n) path).1)
unfolding parse_path_part
parse_path_part-some alloc n path e = ground arith

parse_path_part-Took :
    (alloc : ℕ → Bool) (n : ℕ) (path : List ℕ) {part : List ℕ}
    → (parse_path_part alloc n path).0 ≡ some part
    → Took path part (parse_path_part alloc n path).2
parse_path_part-Took alloc n path {part} e =
    let (found, rest) = parse_path_part-some alloc n path e in
    rw rest (get_path_part-Took (alloc n) path found)

-- Every part has at most `k` characters.
abbrev pub AllWithin : ℕ → List (List ℕ) → Type 0
AllWithin k [] = Unit
AllWithin k (p ∷ ps) = (length p ≤ k) × AllWithin k ps

AllWithin-mono : (j k : ℕ) (ps : List (List ℕ)) → j ≤ k → AllWithin j ps → AllWithin k ps
AllWithin-mono j k [] le all = tt
AllWithin-mono j k (p ∷ ps) le all = (omega (arith, all.0), AllWithin-mono j k ps le all.1)

-- The loop ends with fuel for a round more than there are characters.
parts_loop-total :
    (fuel : ℕ) (alloc : ℕ → Bool) (n : ℕ) (path : List ℕ)
    → length path < fuel
    → (ps : List (List ℕ)) × (parts_loop fuel alloc n path ≡ some ps)
      × AllParts ps
      × AllWithin (length path) ps
unfolding parts_loop
parts_loop-total zero alloc n path more = absurd (omega arith)
parts_loop-total (suc fuel) alloc n path more =
    elim (Option-cases (parse_path_part alloc n path).0) [
      | inl none_left ↦ ([], rw (none_left, parts_loop), tt, tt)
      | inr (part, found) ↦
          let took = parse_path_part-Took alloc n path found in
          let rest = (parse_path_part alloc n path).2 in
          let (ps, done, well, fit) =
            parts_loop-total fuel alloc (parse_path_part alloc n path).1 rest
              (omega (arith, took.less, took.some_part)) in
          (
            part ∷ ps,
            rw (found, done, parts_loop),
            (took.well, well),
            (
              omega (arith, took.less),
              AllWithin-mono (length rest) (length path) ps (omega (arith, took.less)) fit,
            ),
          )
    ]

-- What holds of the root that is returned, if it is not NULL.
abbrev pub WellFormed : Option PathRoot → Type 0
WellFormed none = Unit
WellFormed (some root) = AllParts root.parts × AllWithin 105 root.parts × (root.parts ≢ [])

length-drop_three : (path : List ℕ) → length (drop_three path) ≤ length path - 3
length-drop_three [] = omega arith
length-drop_three (a ∷ []) = omega arith
length-drop_three (a ∷ b ∷ []) = omega arith
length-drop_three (a ∷ b ∷ c ∷ rest) = omega arith

rooted-total :
    (drive : ℤ) (ps : List (List ℕ))
    → AllParts ps
    → AllWithin 105 ps
    → (r : Option PathRoot) × (rooted drive (some ps) ≡ some r) × WellFormed r
unfolding rooted
rooted-total drive [] all fit = (none, refl, tt)
rooted-total drive (p ∷ ps) all fit =
    (some (record { drive_no = drive; parts = p ∷ ps }), refl, (all, fit, λ e. cc))

get_drive_by_path-rest :
    (primary : Option ℕ) (path : List ℕ) {drive : ℤ} {rest : List ℕ}
    → get_drive_by_path primary path ≡ ok (drive, rest)
    → rest ≡ drop_three path
unfolding get_drive_by_path
get_drive_by_path-rest primary path e = ground arith

module _ (alloc : ℕ → Bool) (primary : Option ℕ) (path : List ℕ) where
  after_drive :
      (r : Result (ℤ × List ℕ))
      → get_drive_by_path primary path ≡ r
      → length path ≤ 108
      → (root : Option PathRoot) × (parse alloc primary path ≡ some root) × WellFormed root
  unfolding parse
  after_drive (err e) found short = (none, ground arith, tt)
  after_drive (ok (drive, rest)) found short = elim (Bool-cases (alloc 0)) [
    | inr fails ↦ (none, ground arith, tt)
    | inl got ↦
        let less = length-drop_three path in
        let same = ap length (get_drive_by_path-rest primary path found) in
        let (ps, done, well, fit) = parts_loop-total (length path + 1) alloc 1 rest (omega arith) in
        let fit' = AllWithin-mono (length rest) 105 ps (omega arith) fit in
        let (root, built, holds) = rooted-total drive ps well fit' in (root, ground arith, holds)
  ]

parse_long :
    (alloc : ℕ → Bool) (primary : Option ℕ) (path : List ℕ)
    → ltb max_path (length path) ≡ true
    → parse alloc primary path ≡ some none
unfolding parse
parse_long alloc primary path long = ground arith

-- Whichever allocations fail, `pathparser_parse` ends, and what it returns is NULL or a root with
-- at least one part, whose parts are not empty, have no slash, and fit with their terminator into
-- the 108 bytes that are allocated for each.
pub parse-total :
    (alloc : ℕ → Bool) (primary : Option ℕ) (path : List ℕ)
    → (r : Option PathRoot) × (parse alloc primary path ≡ some r) × WellFormed r
parse-total alloc primary path = elim (Bool-cases (ltb max_path (length path))) [
  | inl long ↦ (none, parse_long alloc primary path long, tt)
  | inr short ↦ after_drive alloc primary path (get_drive_by_path primary path) refl (ground arith)
]
