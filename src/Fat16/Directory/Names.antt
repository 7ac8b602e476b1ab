-- ===== src/Fat16/Directory/Names.antt =====
-- The names of fs/fat/fat16.c.
use peach_os64bit_module_two.Common.{
  ℕ, zero, suc, ◌+◌, ◌<◌, ◌≤◌, ◌≡◌, refl, ap, ◌∙◌, false, true, arith, ◌≢◌, ◌↔◌, ◌||◌, Bool-cases,
  inl, inr, sym, ltb, List, [], ◌∷◌, ◌++◌, length, length-append, ◌==◌, get_or,
}
use peach_os64bit_module_two.Common.Int.{ℤ, pos, negsuc}
use peach_os64bit_module_two.Strings.{istrncmp, tolower}
use peach_os64bit_module_two.Strings.Compare.{Agree, istrncmp-eq}
use peach_os64bit_module_two.Fat16.{FatDirectoryItem}
use peach_os64bit_module_two.Fat16.Directory.{
  to_proper_string, full_relative_filename, is_named, is_zero,
}

-- A part of a name as a directory has it, with spaces behind.
abbrev pub padded : List ℕ → ℕ → ℕ
padded cs i = get_or cs i 0x20

-- Characters other than a terminator and a space.
unfoldable pub IsPart : List ℕ → Type 0
IsPart [] = Unit {0}
IsPart (c ∷ cs) = ((c == 0) ≡ false) × ((c == 0x20) ≡ false) × IsPart cs

-- A name and its extension as one string.
abbrev pub dotted : List ℕ → List ℕ → List ℕ
dotted name [] = name
dotted name (c ∷ ext) = name ++ (b'.' ∷ c ∷ ext)

to_proper_string_lem :
    (cs : List ℕ) (size : ℕ) (in_ : ℕ → ℕ) (i : ℕ)
    → IsPart cs
    → length cs ≤ size
    → ((j : ℕ) → j < size → in_ (i + j) ≡ get_or cs j 0x20)
    → to_proper_string size in_ i ≡ cs
unfolding to_proper_string IsPart
to_proper_string_lem [] zero in_ i part short at = refl
to_proper_string_lem [] (suc size) in_ i part short at =
    let space : in_ i ≡ 0x20 = ap in_ (omega arith) ∙ at 0 (omega arith) in
    rw (to_proper_string, space) refl
to_proper_string_lem (c ∷ cs) zero in_ i part short at = absurd (omega (arith, short))
to_proper_string_lem (c ∷ cs) (suc size) in_ i (some_char, no_space, part) short at =
    let here : in_ i ≡ c = ap in_ (omega arith) ∙ at 0 (omega arith) in
    let rest =
      to_proper_string_lem cs size in_ (i + 1) part (omega (arith, short))
        (λ j low. ap in_ (omega arith) ∙ at (suc j) (omega (arith, low))) in
    rw (to_proper_string, here, some_char, no_space) (ap (λ r. c ∷ r) rest)

-- The name of an item whose fields of 8 and 3 characters have a name and an extension, without
-- spaces in them, padded with spaces is the two joined by a dot, or the name alone when there is no
-- extension.
pub full_relative_filename-padded :
    (item : FatDirectoryItem) (name ext : List ℕ)
    → ((j : ℕ) → j < 8 → item.filename j ≡ padded name j)
    → ((j : ℕ) → j < 3 → item.ext j ≡ padded ext j)
    → IsPart name
    → IsPart ext
    → length name ≤ 8
    → length ext ≤ 3
    → full_relative_filename item ≡ dotted name ext
unfolding full_relative_filename IsPart
full_relative_filename-padded item name [] named extended part part' short short' =
    let field : to_proper_string 8 item.filename 0 ≡ name =
      to_proper_string_lem name 8 item.filename 0 part short
        (λ j low. ap item.filename (omega arith) ∙ named j low) in
    let first : item.ext 0 ≡ 0x20 = extended 0 (omega arith) in
    rw (full_relative_filename, first) field
full_relative_filename-padded item name (c ∷ ext) named extended part (some_char, no_space, part')
      short short' =
    let field : to_proper_string 8 item.filename 0 ≡ name =
      to_proper_string_lem name 8 item.filename 0 part short
        (λ j low. ap item.filename (omega arith) ∙ named j low) in
    let field' : to_proper_string 3 item.ext 0 ≡ c ∷ ext =
      to_proper_string_lem (c ∷ ext) 3 item.ext 0 (some_char, no_space, part') short'
        (λ j low. ap item.ext (omega arith) ∙ extended j low) in
    let first : item.ext 0 ≡ c = extended 0 (omega arith) in
    rw (full_relative_filename, first, some_char, no_space, field, field') refl

-- A string that is the characters `cs` and a terminator, up to the case of letters.
unfoldable pub SameName : List ℕ → (ℕ → ℕ) → Type 0
SameName cs name = (i : ℕ) → i ≤ length cs → tolower (name i) ≡ tolower (get_or cs i 0)

-- Characters other than a terminator.
unfoldable IsText : List ℕ → Type 0
IsText [] = Unit {0}
IsText (c ∷ cs) = (c ≢ 0) × IsText cs

to_proper_string-IsText : (size : ℕ) (in_ : ℕ → ℕ) (i : ℕ) → IsText (to_proper_string size in_ i)
unfolding to_proper_string IsText
to_proper_string-IsText zero in_ i = tt
to_proper_string-IsText (suc size) in_ i = elim (Bool-cases (in_ i == 0 || in_ i == 0x20)) [
  | inl stop ↦ rw stop tt
  | inr go ↦ rw go (ground (arith, go), to_proper_string-IsText size in_ (i + 1))
]

to_proper_string-short :
    (size : ℕ) (in_ : ℕ → ℕ) (i : ℕ) → length (to_proper_string size in_ i) ≤ size
unfolding to_proper_string
to_proper_string-short zero in_ i = omega arith
to_proper_string-short (suc size) in_ i = elim (Bool-cases (in_ i == 0 || in_ i == 0x20)) [
  | inl stop ↦ rw stop (omega arith)
  | inr go ↦ rw go (omega (arith, to_proper_string-short size in_ (i + 1)))
]

++-IsText : (cs ds : List ℕ) → IsText cs → IsText ds → IsText (cs ++ ds)
unfolding IsText
++-IsText [] ds one two = two
++-IsText (c ∷ cs) ds (some_char, one) two = (some_char, ++-IsText cs ds one two)

full_relative_filename-IsText :
    (item : FatDirectoryItem)
    → IsText (full_relative_filename item) × (length (full_relative_filename item) ≤ 12)
unfolding full_relative_filename IsText
full_relative_filename-IsText item = elim (Bool-cases (item.ext 0 == 0 || item.ext 0 == 0x20)) [
  | inl plain ↦
      rw (full_relative_filename, plain)
        (
          to_proper_string-IsText 8 item.filename 0,
          omega (arith, to_proper_string-short 8 item.filename 0),
        )
  | inr extended ↦
      rw (full_relative_filename, extended)
        (
          ++-IsText _ _ (to_proper_string-IsText 8 item.filename 0)
              (omega arith, to_proper_string-IsText 3 item.ext 0),
          omega (
            arith,
            length-append (to_proper_string 8 item.filename 0)
                (b'.' ∷ to_proper_string 3 item.ext 0),
            to_proper_string-short 8 item.filename 0,
            to_proper_string-short 3 item.ext 0,
          ),
        )
]

-- A character of a text, and what lies behind it.
get_or-text : (cs : List ℕ) (i : ℕ) → IsText cs → i < length cs → get_or cs i 0 ≢ 0
unfolding IsText
get_or-text [] i text low = absurd (omega (arith, low))
get_or-text (c ∷ cs) zero (some_char, text) low = some_char
get_or-text (c ∷ cs) (suc i) (some_char, text) low = get_or-text cs i text (omega (arith, low))

get_or-end : (cs : List ℕ) → get_or cs (length cs) 0 ≡ 0
get_or-end [] = refl
get_or-end (c ∷ cs) = get_or-end cs

same_name :
    (cs : List ℕ) (name : ℕ → ℕ)
    → IsText cs
    → length cs ≤ 12
    → Agree tolower (λ i. get_or cs i 0) name 108 ↔ SameName cs name
unfolding SameName
same_name cs name text short = (
  λ agree i low.
      sym (
        agree i (omega (arith, low, short)) (λ j k. get_or-text cs j text (omega (arith, low, k)))),
  λ same i low live. elim (Bool-cases (ltb (length cs) i)) [
    | inl beyond ↦ absurd (live (length cs) (ground (arith, beyond)) (get_or-end cs))
    | inr inside ↦ sym (same i (ground (arith, inside)))
  ],
)

is_zero_lem : (z : ℤ) → (is_zero z ≡ true) ↔ (z ≡ pos 0)
unfolding is_zero
is_zero_lem (pos zero) = (λ _. refl, λ _. refl)
is_zero_lem (pos (suc n)) = (λ e. absurd (ground (arith, e)), λ e. ap is_zero e)
is_zero_lem (negsuc n) = (λ e. absurd (ground (arith, e)), λ e. ap is_zero e)

-- The test of the search is whether the names are the same up to the case of letters.
pub is_named-SameName :
    (item : FatDirectoryItem) (name : ℕ → ℕ)
    → (is_named item name ≡ true) ↔ SameName (full_relative_filename item) name
unfolding is_named
is_named-SameName item name =
    let (text, short) = full_relative_filename-IsText item in
    let same = same_name (full_relative_filename item) name text short in
    let agree = istrncmp-eq 108 (λ i. get_or (full_relative_filename item) i 0) name in
    let answer = is_zero_lem (istrncmp (λ i. get_or (full_relative_filename item) i 0) name 108) in
    (λ h. same.0 (agree.0 (answer.0 h)), λ h. answer.1 (agree.1 (same.1 h)))
