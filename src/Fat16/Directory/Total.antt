-- ===== src/Fat16/Directory/Total.antt =====
-- The number of items of a directory in fs/fat/fat16.c.
use peach_os64bit_module_two.Common.{
  ℕ, zero, suc, ◌+◌, ◌*◌, ◌/◌, ◌%◌, ◌<◌, ◌≤◌, ◌≡◌, inl, inr, refl, ap, ◌∙◌, Bool, false, Bool-cases,
  arith, none, some, ◌==◌, if◌then◌else◌,
}
use peach_os64bit_module_two.Status.{Result, ok}
use peach_os64bit_module_two.Memory.{Mem}
use native.Mathlib.Nat.{mod-lt, div-add-mod}
use peach_os64bit_module_two.Streamer.Read.{Delivers, Serves}
use peach_os64bit_module_two.Fat16.{FatPrivate, FatDirectory, sector_to_absolute, read_at}
use peach_os64bit_module_two.Fat16.Chain.{read_at-Delivers}
use peach_os64bit_module_two.Fat16.Directory.{
  item_size, total_loop, total_items, full_relative_filename, find_item_in_directory,
}
use peach_os64bit_module_two.Fat16.Directory.Names.{SameName}
use peach_os64bit_module_two.Fat16.Directory.Search.{at_or_before, find_item_in_directory-none}

-- How many of `n` items, from item `k` on, are not deleted, by their first bytes.
abbrev pub kept : (ℕ → ℕ) → ℕ → ℕ → ℕ
kept byte zero k = 0
kept byte (suc n) k = let rest = kept byte n (k + 1) in if byte k == 0xE5 then rest else rest + 1

kept-ap : (f g : ℕ → ℕ) (n k : ℕ) → ((j : ℕ) → f j ≡ g j) → kept f n k ≡ kept g n k
kept-ap f g zero k same = refl
kept-ap f g (suc n) k same = ground (arith, same k, kept-ap f g n (k + 1) same)

kept-bound : (byte : ℕ → ℕ) (n k : ℕ) → kept byte n k ≤ n
kept-bound byte zero k = omega arith
kept-bound byte (suc n) k = ground (arith, kept-bound byte n (k + 1))

-- A deleted item is not counted.
kept-deleted : (byte : ℕ → ℕ) (n k d : ℕ) → k ≤ d → d < k + n → byte d ≡ 0xE5 → kept byte n k < n
kept-deleted byte zero k d from to deleted = absurd (omega (arith, from, to))
kept-deleted byte (suc n) k d from to deleted = elim (at_or_before k d from) [
  | inl here ↦ ground (arith, ap byte here ∙ deleted, kept-bound byte n (k + 1))
  | inr before ↦
      ground
        (arith, kept-deleted byte n (k + 1) d (omega (arith, before)) (omega (arith, to)) deleted)
]

item-whole :
    (size sectors_of place q : ℕ)
    → size ≡ sectors_of * item_size
    → 0 < sectors_of
    → place ≡ item_size * q
    → place % size + item_size ≤ size
item-whole size items place q sized some_items at =
    let d : ℕ = place / size in
    let some_size : 0 < size = omega (arith, sized, some_items) in
    let product : size * d ≡ items * d * item_size = ap (λ n. n * d) sized ∙ omega arith in
    omega (arith, div-add-mod place size, mod-lt place some_size, product, sized, at)

module _ {A : Type 0} (fetch : A → ℕ → Result (ℕ → ℕ) × A) (disk : ℕ → ℕ)
    (size items count last : ℕ) (serves : Serves fetch disk size count)
    (sized : size ≡ items * item_size) (some_items : 0 < items) (served : last < count)
    (start : ℕ) where
  abbrev pub at_item : ℕ → ℕ
  at_item k = item_size * (start + k)

  item-Delivers :
      (st : A) (k : ℕ)
      → at_item k + item_size ≤ size * last
      → Delivers disk
          (record { pos = at_item k; sector_size = size })
          (λ a. 0)
          0
          item_size
          (read_at fetch size st (λ a. 0) (at_item k) 0 item_size)
  item-Delivers st k bound =
      read_at-Delivers fetch disk size count serves (omega (arith, sized, some_items)) st (λ a. 0)
        (at_item k) 0 item_size last bound served
        (inr (item-whole size items (at_item k) (start + k) sized some_items refl))

  -- A round of the loop.
  total_step :
      (fuel : ℕ) (st : A) (k i : ℕ)
      → at_item k + item_size ≤ size * last
      → let st' = (read_at fetch size st (λ a. 0) (at_item k) 0 item_size).3 in
        total_loop fetch (suc fuel) size st (at_item k) i ≡ (
          if disk (at_item k) == 0
          then some (ok i, st')
          else if disk (at_item k) == 0xE5
          then total_loop fetch fuel size st' (at_item k + item_size) i
          else total_loop fetch fuel size st' (at_item k + item_size) (i + 1))
  unfolding total_loop
  total_step fuel st k i bound =
      let d = item-Delivers st k bound in
      let byte : (read_at fetch size st (λ a. 0) (at_item k) 0 item_size).2 0 ≡ disk (at_item k) =
        d.bytes 0 ∙ ap disk (omega arith) in
      rw (total_loop, d.succeeds) (rw byte refl)

  next_place : (k : ℕ) → at_item k + item_size ≡ at_item (k + 1)
  next_place k = omega arith

  total_loop-counts :
      (n fuel : ℕ) (st : A) (k i : ℕ)
      → n < fuel
      → ((j : ℕ) → k ≤ j → j < k + n → (disk (at_item j) == 0) ≡ false)
      → disk (at_item (k + n)) ≡ 0
      → at_item (k + n) + item_size ≤ size * last
      → (st' : A) × (total_loop fetch fuel size st (at_item k) i
          ≡ some (ok (i + kept (λ j. disk (at_item j)) n k), st'))
  total_loop-counts n zero st k i enough used end bound = absurd (omega (arith, enough))
  total_loop-counts zero (suc fuel) st k i enough used end bound =
      let st' = (read_at fetch size st (λ a. 0) (at_item k) 0 item_size).3 in
      let here : disk (at_item k) ≡ 0 = ap (λ j. disk (at_item j)) (omega arith) ∙ end in
      (
        st',
        total_step fuel st k i (omega (arith, bound))
            ∙ rw here (ap (λ t. some (ok t, st')) (omega arith)),
      )
  total_loop-counts (suc n) (suc fuel) st k i enough used end bound =
      let st' = (read_at fetch size st (λ a. 0) (at_item k) 0 item_size).3 in
      let byte : ℕ → ℕ = λ j. disk (at_item j) in
      let step =
        total_step fuel st k i (omega (arith, bound))
        ∙ ap
            (λ b.
              if b
              then some (ok i, st')
              else if disk (at_item k) == 0xE5
              then total_loop fetch fuel size st' (at_item k + item_size) i
              else total_loop fetch fuel size st' (at_item k + item_size) (i + 1))
            (used k (omega arith) (omega arith)) in
      let later = λ (t : ℕ).
        total_loop-counts n fuel st' (k + 1) t (omega (arith, enough))
          (λ j from to. used j (omega (arith, from)) (omega (arith, to)))
          (ap byte (omega arith) ∙ end) (omega (arith, bound)) in
      elim (Bool-cases (disk (at_item k) == 0xE5)) [
        | inl deleted ↦
            let (st'', rest) = later i in
            (
              st'',
              step
                  ∙ rw deleted (ap (λ p. total_loop fetch fuel size st' p i) (next_place k) ∙ rest),
            )
        | inr live ↦
            let (st'', rest) = later (i + 1) in
            (
              st'',
              step
                  ∙ rw live (
                      ap (λ p. total_loop fetch fuel size st' p (i + 1)) (next_place k)
                      ∙ rest
                      ∙ ap (λ t. some (ok t, st'')) (omega arith)),
            )
      ]

-- The first byte of item `k` of a directory that begins at a sector.
abbrev pub first_byte : FatPrivate → (ℕ → ℕ) → ℕ → ℕ → ℕ
first_byte fat disk sector k = disk (sector * fat.sector_size + item_size * k)

module _ {A : Type 0} (fetch : A → ℕ → Result (ℕ → ℕ) × A) (disk : ℕ → ℕ) (fat : FatPrivate)
    (items count last : ℕ) (serves : Serves fetch disk fat.sector_size count)
    (sized : fat.sector_size ≡ items * item_size) (some_items : 0 < items)
    (served : last < count) where
  -- In a directory of `n` items and the end mark behind them, in sectors that are served and hold
  -- whole items, fat16_get_total_items_for_directory ends and counts those that are not deleted.
  pub total_items_lem :
      (st : A) (sector n fuel : ℕ)
      → n < fuel
      → ((j : ℕ) → j < n → (first_byte fat disk sector j == 0) ≡ false)
      → first_byte fat disk sector n ≡ 0
      → sector * fat.sector_size + item_size * n + item_size ≤ fat.sector_size * last
      → (st' : A) × (total_items fetch fuel fat st sector
          ≡ some (ok (kept (first_byte fat disk sector) n 0), st'))
  unfolding total_items sector_to_absolute
  total_items_lem st sector n fuel enough used end bound =
      let start : ℕ = sector * items in
      let place : (j : ℕ) → item_size * (start + j) ≡ sector * fat.sector_size + item_size * j =
        λ j. omega (arith, ap (λ s. sector * s) sized) in
      let same : (j : ℕ) → disk (item_size * (start + j)) ≡ first_byte fat disk sector j =
        λ j. ap disk (place j) in
      let (st', done) =
        total_loop-counts fetch disk fat.sector_size items count last serves sized some_items served
          start n fuel st 0 0 enough
          (λ j from to. ap (λ b. b == 0) (same j) ∙ used j (omega (arith, to)))
          (ap disk (omega (arith, place n)) ∙ end) (omega (arith, bound, place n)) in
      let begins : sector * fat.sector_size ≡ item_size * (start + 0) = omega (arith, place 0) in
      let sum : 0 + kept (λ j. disk (item_size * (start + j))) n 0
          ≡ kept (λ j. disk (item_size * (start + j))) n 0 =
        omega arith in
      (
        st',
        ap (λ p. total_loop fetch fuel fat.sector_size st p 0) begins
            ∙ done
            ∙ ap (λ t. some (ok t, st'))
                (sum
                  ∙ kept-ap (λ j. disk (item_size * (start + j))) (first_byte fat disk sector) n 0
                      same),
      )

  -- Where an item of such a directory is deleted, a search in it, with the total that is counted,
  -- does not find its last item, when that alone has the name.
  pub find_item_in_directory-last :
      (kzalloc : A → Bool × A) (null : Mem) (st : A) (sector n fuel deleted : ℕ) (d : FatDirectory)
      (name : ℕ → ℕ)
      → deleted < suc n
      → first_byte fat disk sector deleted ≡ 0xE5
      → d.total ≡ kept (first_byte fat disk sector) (suc n) 0
      → SameName (full_relative_filename (d.item n)) name
      → ((j : ℕ) → j < n → ¬ SameName (full_relative_filename (d.item j)) name)
      → find_item_in_directory fetch kzalloc null fuel fat st d name ≡ some (none, st)
  find_item_in_directory-last kzalloc null st sector n fuel deleted d name low gone total named
        others =
      let fewer : d.total < suc n = ground (
        arith,
        total,
        kept-deleted (first_byte fat disk sector) (suc n) 0 deleted (omega arith)
            (omega (arith, low)) gone,
      ) in
      find_item_in_directory-none fetch kzalloc null fuel fat st d name
        (λ j below. others j (omega (arith, below, fewer)))
