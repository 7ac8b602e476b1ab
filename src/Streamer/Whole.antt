-- ===== src/Streamer/Whole.antt =====
-- `diskstreamer_read` of disk/streamer.c as a whole.
use peach_os64bit_module_two.Common.{
  ℕ, suc, ◌+◌, ◌-◌, ◌*◌, ◌/◌, ◌%◌, ◌^◌, ltb, ◌<◌, ◌≤◌, ◌≡◌, ◌≢◌, ◌⊎◌, inl, inr, refl, true, false,
  arith, ◌==◌, if◌then◌else◌, ap, ◌∙◌, sym, subst, Bool-cases,
}
use peach_os64bit_module_two.Status.{Result}
use peach_os64bit_module_two.Memory.{Mem}
use peach_os64bit_module_two.Memory.Laws.{within}
use native.Mathlib.Nat.{
  mod-lt, div-add-mod, mul-div_right, le_of_mul-le-mul_left, div-le_of_le-mul, div-lt_iff_lt-mul,
  mul-mod_right, mul-le-mul_left, mul-add,
}
use peach_os64bit_module_two.Streamer.{
  Stream, copy_loop, starting_sector, aligned_up, read_loop, diskstreamer_read,
}
use peach_os64bit_module_two.Streamer.Read.{
  copy_loop_lem, Delivers, Serves, round_lem, read_none, read_loop-Delivers,
}

pub starting_lem : (pos size : ℕ) → 0 < size → starting_sector pos size ≡ pos / size
starting_lem pos size some = elim (Bool-cases (pos % size == 0)) [
  | inl aligned ↦ ground (arith, aligned)
  | inr inside ↦
      let down : pos - pos % size ≡ size * (pos / size) = omega (arith, div-add-mod pos size) in
      ground (arith, inside, ap (λ p. p / size) down, mul-div_right (pos / size) some)
]

aligned_up-inside :
    (final size : ℕ)
    → 0 < size
    → (final % size == 0) ≡ false
    → aligned_up final size / size ≡ final / size + 1
aligned_up-inside final size some inside =
    let up : final + (size - final % size) ≡ size * (final / size + 1) =
      omega (arith, div-add-mod final size, mod-lt final some) in
    let sector : (final + (size - final % size)) / size ≡ final / size + 1 =
      ap (λ p. p / size) up ∙ mul-div_right (final / size + 1) some in
    ground (arith, inside, sector)

-- The last sector that is read begins at the end of the bytes, or behind it.
pub ending_lem : (final size : ℕ) → 0 < size → final ≤ size * (aligned_up final size / size)
ending_lem final size some = elim (Bool-cases (final % size == 0)) [
  | inl aligned ↦ ground (arith, aligned, div-add-mod final size)
  | inr inside ↦
      rw (aligned_up-inside final size some inside)
        (omega (arith, div-add-mod final size, mod-lt final some))
]

-- It is a whole number of sectors.
pub aligned_up-sectors :
    (final size : ℕ) → 0 < size → aligned_up final size ≡ size * (aligned_up final size / size)
aligned_up-sectors final size some = elim (Bool-cases (final % size == 0)) [
  | inl aligned ↦ ground (arith, aligned, div-add-mod final size)
  | inr inside ↦
      rw (aligned_up-inside final size some inside)
        (ground (arith, inside, div-add-mod final size, mod-lt final some))
]

-- It is not behind one that the bytes do not go beyond.
pub aligned_up-bound :
    (final size last : ℕ) → 0 < size → final ≤ size * last → aligned_up final size / size ≤ last
aligned_up-bound final size last some bound = elim (Bool-cases (final % size == 0)) [
  | inl aligned ↦ ground (arith, aligned, div-le_of_le-mul size bound)
  | inr inside ↦
      let short : final ≢ size * last =
        λ e. ground (arith, inside, ap (λ n. n % size) e, mul-mod_right size last) in
      let before : final / size < last = (div-lt_iff_lt-mul some).1 (omega (arith, short, bound)) in
      rw (aligned_up-inside final size some inside) (omega (arith, before))
]

module _ {A : Type 0} (fetch : A → ℕ → Result (ℕ → ℕ) × A) (disk : ℕ → ℕ) (stream : Stream)
    (count : ℕ) (serves : Serves fetch disk stream.sector_size count)
    (some : 0 < stream.sector_size) where
  -- The sectors that a read asks for.
  abbrev pub last_sector : ℕ → ℕ
  last_sector total = aligned_up (stream.pos + total) stream.sector_size / stream.sector_size

  -- The end of the read is an `int`.
  end_in_int :
      (total : ℕ)
      → last_sector total < count
      → ltb (aligned_up (stream.pos + total) stream.sector_size) (2 ^ 31) ≡ true
  end_in_int total bound =
      let size : ℕ = stream.sector_size in
      let last : ℕ = last_sector total in
      let more : size * (last + 1) ≤ size * count = mul-le-mul_left size (omega (arith, bound)) in
      ground (
        arith,
        aligned_up-sectors (stream.pos + total) size some,
        more,
        serves.in_int,
        mul-add size last 1,
        some,
      )

  first_last : (total : ℕ) → stream.pos / stream.sector_size ≤ last_sector total
  first_last total =
      le_of_mul-le-mul_left
        (omega (
          arith,
          div-add-mod stream.pos stream.sector_size,
          ending_lem (stream.pos + total) stream.sector_size some,
        ))
        some

  -- Where the cache and the disk give every sector up to the one at which the bytes end, and those
  -- lie below 2 GiB, a read of
  -- at least a sector, or of bytes within one sector, succeeds, puts exactly the bytes of the disk
  -- from the position on at its output, and moves the position behind them.
  pub diskstreamer_read-Delivers :
      (st : A) (m : Mem) (out total : ℕ)
      → last_sector total < count
      → (stream.sector_size ≤ total)
        ⊎ (stream.pos % stream.sector_size + total ≤ stream.sector_size)
      → Delivers disk stream m out total (diskstreamer_read fetch st stream m out total)
  unfolding diskstreamer_read
  diskstreamer_read-Delivers st m out total bound whole =
      let size : ℕ = stream.sector_size in
      let first : ℕ = stream.pos / size in
      let rounds : ℕ = last_sector total + 1 - first in
      let order = first_last total in
      let end = ending_lem (stream.pos + total) size some in
      let all : first + rounds ≡ last_sector total + 1 = omega (arith, order) in
      let parts = div-add-mod stream.pos size in
      let enough : size * first + stream.pos % size + total ≤ size * (first + rounds) =
        rw all (omega (arith, parts, end)) in
      rw (starting_lem stream.pos size some, end_in_int total bound)
        (read_loop-Delivers fetch disk size count serves some rounds first st stream m out total
          (stream.pos % size) refl (sym parts) (mod-lt stream.pos some) whole enough
          (omega (arith, all, bound)))

  -- The buffer of the first sector, read as a disk on which it begins at the position.
  abbrev only_buffer : A → ℕ → ℕ
  only_buffer st p =
      serves.buffer st (stream.pos / stream.sector_size)
        (stream.pos % stream.sector_size + (p - stream.pos))

  abbrev only_found : (st : A) → Serves fetch (only_buffer st) 0 count
  only_found st = record {
    buffer = serves.buffer;
    found = serves.found;
    in_int = omega arith;
    content = λ st' i j _ lt. absurd (omega (arith, lt));
  }

  first_only :
      (st : A) (m : Mem) (out total rounds : ℕ)
      → total < stream.sector_size
      → stream.pos / stream.sector_size + suc rounds ≤ count
      → Delivers
          (only_buffer st)
          stream
          m
          out
          total
          (read_loop fetch (suc rounds) (stream.pos / stream.sector_size) st stream m out total)
  first_only st m out total rounds small bound =
      let size : ℕ = stream.sector_size in
      let first : ℕ = stream.pos / size in
      let whole_total : total + 0 ≡ total = omega arith in
      let copied : (a : ℕ)
          → copy_loop total m out (serves.buffer st first) (stream.pos % size) 0 a
            ≡ (if within out total a then only_buffer st (stream.pos + (a - out)) else m a) =
        λ a.
          let place : stream.pos % size + (0 + (a - out))
              ≡ stream.pos % size + (stream.pos + (a - out) - stream.pos) =
            omega arith in
          ground (
            arith,
            copy_loop_lem total m out (serves.buffer st first) (stream.pos % size) 0 a,
            ap (serves.buffer st first) place,
          ) in
      subst
        (λ k.
          Delivers (only_buffer st) stream m out k
            (read_loop fetch (suc rounds) first st stream m out k))
        whole_total
        (round_lem fetch (only_buffer st) 0 count (only_found st) rounds first st stream m out total
          0 (omega (arith, bound)) (ground (arith, small)) copied
          (read_none fetch (only_buffer st) 0 count (only_found st) rounds (first + 1)
            (fetch st first).1 (record stream { pos = stream.pos + total }) _ (out + total) some
            (omega (arith, bound))))

  -- A read of less than a sector takes all its bytes from the buffer of the first sector: where it
  -- runs over the end of that sector, those behind it in the buffer, and none of the next sector.
  pub diskstreamer_read-crossing :
      (st : A) (m : Mem) (out total : ℕ)
      → last_sector total < count
      → total < stream.sector_size
      → (j : ℕ) → j < total
      → (diskstreamer_read fetch st stream m out total).2 (out + j)
        ≡ serves.buffer st (stream.pos / stream.sector_size) (stream.pos % stream.sector_size + j)
  unfolding diskstreamer_read
  diskstreamer_read-crossing st m out total bound small j lt =
      let size : ℕ = stream.sector_size in
      let first : ℕ = stream.pos / size in
      let rounds : ℕ = last_sector total - first in
      let order = first_last total in
      let split : last_sector total + 1 - first ≡ suc rounds = omega (arith, order) in
      let d = first_only st m out total (rounds) small (omega (arith, order, bound)) in
      let there : within out total (out + j) ≡ true = ground (arith, lt) in
      let place : stream.pos % size + (stream.pos + (out + j - out) - stream.pos)
          ≡ stream.pos % size + j =
        omega arith in
      rw (starting_lem stream.pos size some, end_in_int total bound, split)
        (ground (arith, d.bytes (out + j), there, ap (serves.buffer st first) place))
