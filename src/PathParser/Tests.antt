-- ===== src/PathParser/Tests.antt =====
-- Runs of the path parser, and its theorems at short paths.
use peach_os64bit_module_two.Common.{
  ℕ, zero, suc, ◌≡◌, inl, refl, Bool, true, false, Option, none, some, List, [], ◌∷◌, arith,
}
use peach_os64bit_module_two.Common.Int.{pos}
use peach_os64bit_module_two.Strings.{isdigit, tonumericdigit, strnlen}
use peach_os64bit_module_two.Memory.{memcmp}
use peach_os64bit_module_two.PathParser.{
  PathRoot, parse, parts_loop, rooted, get_drive_by_path, parse_path_part, get_path_part,
  part_chars, nonempty, skip_slash,
}
use peach_os64bit_module_two.PathParser.Split.{IsPart}
use peach_os64bit_module_two.PathParser.Parse.{DriveOf, parse-join}
use peach_os64bit_module_two.PathParser.Total.{WellFormed, parse-total}

abbrev works : ℕ → Bool
works n = true

-- The second allocation for the second part fails.
abbrev fails_late : ℕ → Bool
fails_late n = elim n [ suc (suc (suc (suc zero))) ↦ false | _ ↦ true ]

-- "0:/a/b": with that failure the path is cut short, and no error is reported.
abbrev path_ab : List ℕ
path_ab = b'0' ∷ b':' ∷ b'/' ∷ b'a' ∷ b'/' ∷ b'b' ∷ []

cut_short :
    parse fails_late none path_ab
    ≡ some (some (record { drive_no = pos 0; parts = (b'a' ∷ []) ∷ [] }))
unfolding parse parts_loop rooted get_drive_by_path parse_path_part get_path_part part_chars
    nonempty skip_slash strnlen memcmp isdigit tonumericdigit
cut_short = refl

drive_zero : DriveOf none b'0' (pos 0)
unfolding isdigit
drive_zero = inl (refl, refl)

a-IsPart : IsPart (b'a' ∷ [])
a-IsPart = ((omega arith, tt), λ e. cc)

parse-join_example :
    parse works none path_ab
    ≡ some (some (record { drive_no = pos 0; parts = (b'a' ∷ []) ∷ (b'b' ∷ []) ∷ [] }))
parse-join_example =
    parse-join works (λ n. refl) none b'0' (pos 0) drive_zero (b'a' ∷ []) ((b'b' ∷ []) ∷ [])
      (a-IsPart, (((omega arith, tt), λ e. cc), tt)) (omega arith)

parse-total_example :
    (r : Option PathRoot) × (parse fails_late none path_ab ≡ some r) × WellFormed r
parse-total_example = parse-total fails_late none path_ab
