-- ===== src/Streamer/Cache/Places.antt =====
-- Where the cache of disk/streamer.c keeps a sector.
use peach_os64bit_module_two.Common.{
  ℕ, ◌+◌, ◌*◌, ◌/◌, ◌%◌, ◌<◌, ◌≤◌, ◌≡◌, arith, ap, ◌∙◌, sym, ◌^◌, ◌↔◌, refl,
}
use native.Mathlib.Nat.{
  mod-lt, div-add-mod, mod-eq_of_lt, mul_assoc, mul-add-mod_self_left, mul-le-mul_left,
  le_of_mul-le-mul_left, mul-add, div-div-eq-div-mul, mod-mod_of_dvd, dvd-mul_right, dvd_trans,
}
use peach_os64bit_module_two.Streamer.Cache.{
  Place, bucket3_size, bucket2_size, bucket1_size, find_place, find_index,
}

-- The number of a sector on the disk, from its place in the cache.
unfoldable pub sector_number : Place → ℕ → ℕ
sector_number p index = ((p.level1 * 1024 + p.level2) * 1024 + p.level3) * 64 + index

div-mul-add : (a low r : ℕ) → 0 < a → r < a → (a * low + r) / a ≡ low
div-mul-add a low r some_a small =
    let n : ℕ = a * low + r in
    let same : n % a ≡ r = mul-add-mod_self_left a low r ∙ mod-eq_of_lt small in
    let up : n / a ≤ low = le_of_mul-le-mul_left (omega (arith, div-add-mod n a)) some_a in
    let down : low ≤ n / a = le_of_mul-le-mul_left (omega (arith, div-add-mod n a, same)) some_a in
    omega (arith, up, down)

-- The digits of a number in a base, from those in a larger one.
mod-mul-div : (a b x : ℕ) → 0 < a → 0 < b → x % (a * b) / a ≡ x / a % b
mod-mul-div a b x some_a some_b =
    let n : ℕ = x / a in
    let high : ℕ = n / b in
    let low : ℕ = n % b in
    let below : a * (low + 1) ≤ a * b = mul-le-mul_left a (omega (arith, mod-lt n some_b)) in
    let small : a * low + x % a < a * b = omega (arith, mod-lt x some_a, below, mul-add a low 1) in
    let parts : x ≡ a * b * high + (a * low + x % a) = omega (
      arith,
      div-add-mod x a,
      ap (λ k. a * k) (div-add-mod n b),
      mul_assoc a b high,
      mul-add a (b * high) low,
    ) in
    let rest : x % (a * b) ≡ a * low + x % a =
      ap (λ k. k % (a * b)) parts ∙ mul-add-mod_self_left (a * b) high _ ∙ mod-eq_of_lt small in
    ap (λ k. k / a) rest ∙ div-mul-add a low (x % a) some_a (mod-lt x some_a)

module _ (size pos : ℕ) (some : 0 < size) where
  digit1 : pos / bucket1_size size ≡ pos / size / (64 * 1024 * 1024)
  digit1 =
      let all : bucket1_size size ≡ size * (64 * 1024 * 1024) = omega arith in
      ap (λ k. pos / k) all ∙ sym (div-div-eq-div-mul pos size (64 * 1024 * 1024))

  digit2 : pos % bucket1_size size / bucket2_size size ≡ pos / size / (64 * 1024) % 1024
  digit2 =
      let all : bucket2_size size ≡ size * (64 * 1024) = omega arith in
      mod-mul-div (bucket2_size size) 1024 pos (omega (arith, some)) (omega arith)
      ∙ ap (λ k. pos / k % 1024) all
      ∙ ap (λ k. k % 1024) (sym (div-div-eq-div-mul pos size (64 * 1024)))

  digit3 : pos % bucket1_size size % bucket2_size size / bucket3_size size ≡ pos / size / 64 % 1024
  digit3 =
      let all : bucket3_size size ≡ size * 64 = omega arith in
      ap (λ k. k / bucket3_size size)
        (mod-mod_of_dvd (bucket2_size size) pos (dvd-mul_right (bucket2_size size) 1024))
      ∙ mod-mul-div (bucket3_size size) 1024 pos (omega (arith, some)) (omega arith)
      ∙ ap (λ k. pos / k % 1024) all
      ∙ ap (λ k. k % 1024) (sym (div-div-eq-div-mul pos size 64))

  digit4 : find_index size pos ≡ pos / size % 64
  unfolding find_index
  digit4 =
      let in3 : ℕ = pos % bucket1_size size % bucket2_size size % bucket3_size size in
      let below : in3 < bucket3_size size =
        mod-lt (pos % bucket1_size size % bucket2_size size) (omega (arith, some)) in
      let fits : in3 < 64 * 8 * size = omega (arith, below) in
      let whole : in3 ≡ pos % (size * 64) =
        mod-mod_of_dvd (bucket3_size size) (pos % bucket1_size size)
          (dvd-mul_right (bucket3_size size) 1024)
        ∙ mod-mod_of_dvd (bucket3_size size) pos (
            dvd_trans (bucket3_size size) (dvd-mul_right (bucket3_size size) 1024)
              (dvd-mul_right (bucket2_size size) 1024))
        ∙ ap (λ k. pos % k) (omega arith) in
      ap (λ k. k / size) (mod-eq_of_lt fits ∙ whole) ∙ mod-mul-div size 64 pos some (omega arith)

  pub place_level2 : (find_place size pos).level2 < 1024
  unfolding find_place
  place_level2 = omega (arith, digit2)

  pub place_level3 : (find_place size pos).level3 < 1024
  unfolding find_place
  place_level3 = omega (arith, digit3)

  -- The place of a position in the cache, its bucket and the index in it, is that of its sector.
  pub sector_number-find : sector_number (find_place size pos) (find_index size pos) ≡ pos / size
  unfolding sector_number find_place
  sector_number-find = omega (arith, digit1, digit2, digit3, digit4)

place_digits : ℕ → Place
place_digits n = record {
  level1 = n / (64 * 1024 * 1024);
  level2 = n / (64 * 1024) % 1024;
  level3 = n / 64 % 1024;
}

find_place-digits : (size pos : ℕ) → 0 < size → find_place size pos ≡ place_digits (pos / size)
unfolding find_place place_digits
find_place-digits size pos some =
    rw (digit1 size pos some, digit2 size pos some, digit3 size pos some) refl

same_digits :
    (size pos pos' : ℕ)
    → 0 < size
    → pos / size ≡ pos' / size
    → find_place size pos ≡ find_place size pos'
same_digits size pos pos' some same =
    find_place-digits size pos some ∙ ap place_digits same ∙ sym (find_place-digits size pos' some)

-- Two positions, as `int`s that are not negative, have the same place in the cache exactly when
-- they lie in the same sector, and the indices on the levels 2 and 3 and of the sector are within
-- the arrays.
pub find_place-sectors :
    (size pos pos' : ℕ)
    → 0 < size
    → pos < 2 ^ 31
    → pos' < 2 ^ 31
    → (((find_place size pos ≡ find_place size pos') × (find_index size pos ≡ find_index size pos'))
        ↔ (pos / size ≡ pos' / size))
      × ((find_place size pos).level2 < 1024)
      × ((find_place size pos).level3 < 1024)
      × (find_index size pos < 64)
find_place-sectors size pos pos' some int int' =
    let number = sector_number-find size pos some in
    let number' = sector_number-find size pos' some in
    (
      (
        λ (place, index).
            sym number
            ∙ ap (λ p. sector_number p (find_index size pos)) place
            ∙ ap (sector_number (find_place size pos')) index
            ∙ number',
        λ same. (
          same_digits size pos pos' some same,
          digit4 size pos some ∙ ap (λ n. n % 64) same ∙ sym (digit4 size pos' some),
        ),
      ),
      place_level2 size pos some,
      place_level3 size pos some,
      omega (arith, digit4 size pos some),
    )
