-- ===== src/PathParser.antt =====
-- The path parser of fs/pparser.c. A C string is the list of its characters before the terminator;
-- the linked list of parts is a list. `alloc n` says whether the n-th call of `kzalloc` succeeds,
-- and `primary` is the id of the disk that `disk_primary_fs_disk` returns.
pub mod Split
pub mod Parse
pub mod Total
mod Tests
use Prim.Native.Nat.{Ordering}
use peach_os64bit_module_two.Common.{
  ℕ, zero, suc, ◌+◌, Bool, true, false, not, ◌&&◌, ◌||◌, Option, none, some, List, [], ◌∷◌, ltb,
  leb, ◌==◌, if◌then◌else◌, length, get_or,
}
use peach_os64bit_module_two.Common.Int.{ℤ, pos}
use peach_os64bit_module_two.Status.{Result, ok, err, ebadpath, eio}
use peach_os64bit_module_two.Memory.{memcmp}
use peach_os64bit_module_two.Strings.{strnlen, isdigit, tonumericdigit}

abbrev pub max_path : ℕ
max_path = 108

-- `struct path_root`, with the strings of its `struct path_part`s.
pub record PathRoot : Type 0 where
  pub drive_no : ℤ
  pub parts : List (List ℕ)

-- What stands at an offset of a string, the terminator included.
abbrev pub char_at : List ℕ → ℕ → ℕ
char_at path i = get_or path i 0

abbrev is_equal : Ordering → Bool
is_equal o = elim o [ Ordering.eq ↦ true | _ ↦ false ]

path_valid_format : List ℕ → Bool
path_valid_format filename =
    leb 3 (strnlen (char_at filename) max_path)
    && (isdigit (char_at filename 0) || char_at filename 0 == b'@')
    && is_equal (memcmp (λ i. char_at filename (i + 1)) (λ i. get_or (b':' ∷ b'/' ∷ []) i 0) 2)

abbrev drop_three : List ℕ → List ℕ
drop_three (a ∷ b ∷ c ∷ rest) = rest
drop_three _ = []

-- The drive, and the path behind it.
get_drive_by_path : Option ℕ → List ℕ → Result (ℤ × List ℕ)
unfolding path_valid_format
get_drive_by_path primary path =
    if not (path_valid_format path)
    then err ebadpath
    else if char_at path 0 == b'@'
    then (elim primary [ none ↦ err eio | some id ↦ ok (pos id, drop_three path) ])
    else ok (tonumericdigit (char_at path 0), drop_three path)

-- The loop of `pathparser_get_path_part`: the characters before the next `/`, and the rest.
part_chars : List ℕ → List ℕ × List ℕ
part_chars [] = ([], [])
part_chars (c ∷ cs) =
    let (part, rest) = part_chars cs in if c == b'/' then ([], c ∷ cs) else (c ∷ part, rest)

-- `if (**path == '/') *path += 1;`
skip_slash : List ℕ → List ℕ
skip_slash [] = []
skip_slash (c ∷ cs) = if c == b'/' then cs else c ∷ cs

nonempty : List ℕ → Option (List ℕ)
nonempty [] = none
nonempty (c ∷ cs) = some (c ∷ cs)

-- The part and the path behind it, `got` being the outcome of `kzalloc`.
get_path_part : Bool → List ℕ → Option (List ℕ) × List ℕ
get_path_part got path =
    if got
    then (let (part, rest) = part_chars path in (nonempty part, skip_slash rest))
    else (none, path)

-- The part, the number of allocations made until then, and the path behind it.
parse_path_part : (ℕ → Bool) → ℕ → List ℕ → Option (List ℕ) × ℕ × List ℕ
parse_path_part alloc n path =
    let (part, rest) = get_path_part (alloc n) path in
    elim part [
      | none ↦ (none, n + 1, rest)
      | some str ↦ if alloc (n + 1) then (some str, n + 2, rest) else (none, n + 2, rest)
    ]

-- `while (part) part = pathparser_parse_path_part(...)`: `none` if the fuel runs out.
pub parts_loop : ℕ → (ℕ → Bool) → ℕ → List ℕ → Option (List (List ℕ))
parts_loop zero alloc n path = none
parts_loop (suc fuel) alloc n path =
    let (part, n', rest) = parse_path_part alloc n path in
    elim part [
      | none ↦ some []
      | some str ↦ (elim (parts_loop fuel alloc n' rest) [
        | none ↦ none
        | some strs ↦ some (str ∷ strs)
      ])
    ]

-- The root, once there is a first part.
rooted : ℤ → Option (List (List ℕ)) → Option (Option PathRoot)
rooted drive none = none
rooted drive (some []) = some none
rooted drive (some (first ∷ more)) = some (some (record { drive_no = drive; parts = first ∷ more }))

-- `pathparser_parse`. The outer option is the fuel, one round for each character and one more; the
-- inner one is the pointer, `none` for NULL.
pub parse : (ℕ → Bool) → Option ℕ → List ℕ → Option (Option PathRoot)
parse alloc primary path =
    if ltb max_path (length path) then some none else (elim (get_drive_by_path primary path) [
      | err _ ↦ some none
      | ok (drive, rest) ↦
          if alloc 0 then rooted drive (parts_loop (length path + 1) alloc 1 rest) else some none
    ])
