-- ===== src/Streamer/Read.antt =====
-- The loop of `diskstreamer_read` of disk/streamer.c against the bytes of the disk.
use peach_os64bit_module_two.Common.{
  ℕ, zero, suc, ◌+◌, ◌-◌, ◌*◌, ◌%◌, ◌^◌, ◌<◌, ◌≤◌, ◌≡◌, ◌⊎◌, inl, inr, refl, arith, ltb, ◌==◌,
  if◌then◌else◌, update, ap, ◌∙◌, sym, subst, Bool-cases,
}
use peach_os64bit_module_two.Status.{Result, ok}
use peach_os64bit_module_two.Memory.{Mem}
use peach_os64bit_module_two.Memory.Laws.{within}
use native.Mathlib.Nat.{mul-add-mod_self_left, mod-eq_of_lt}
use peach_os64bit_module_two.Streamer.{Stream, copy_loop, amount_read, read_loop}

pub copy_loop_lem :
    (rounds : ℕ) (m : Mem) (out : ℕ) (buf : ℕ → ℕ) (offset j a : ℕ)
    → copy_loop rounds m out buf offset j a
      ≡ (if within out rounds a then buf (offset + (j + (a - out))) else m a)
unfolding copy_loop
copy_loop_lem zero m out buf offset j a = ground arith
copy_loop_lem (suc rounds) m out buf offset j a = elim (Bool-cases (a == out)) [
  | inl here ↦
      let at : offset + j ≡ offset + (j + (a - out)) = ground (arith, here) in
      ground (
        arith,
        copy_loop_lem rounds (update m out (buf (offset + j))) (out + 1) buf offset (j + 1) a,
        here,
        ap buf at,
      )
  | inr away ↦ elim (Bool-cases (ltb out a)) [
    | inl behind ↦
        let at : offset + (j + 1 + (a - (out + 1))) ≡ offset + (j + (a - out)) =
          ground (arith, behind) in
        ground (
          arith,
          copy_loop_lem rounds (update m out (buf (offset + j))) (out + 1) buf offset (j + 1) a,
          away,
          ap buf at,
        )
    | inr before ↦ ground (
      arith,
      copy_loop_lem rounds (update m out (buf (offset + j))) (out + 1) buf offset (j + 1) a,
      away,
      before,
    )
  ]
]

-- The outcome of a read: the bytes of the disk from the position on are at `out`.
pub record Delivers {A : Type 0} (disk : ℕ → ℕ) (stream : Stream) (m : Mem) (out total : ℕ)
    (r : Result (Unit {0}) × Stream × Mem × A) : Type 0 where
  pub succeeds : r.0 ≡ ok tt
  pub moved : r.1 ≡ record stream { pos = stream.pos + total }
  pub bytes : (a : ℕ) → r.2 a ≡ (if within out total a then disk (stream.pos + (a - out)) else m a)

-- The cache and the disk give every sector before `count`, its bytes first in the buffer; these
-- sectors end within 2 GiB, as far as an `int` goes.
pub record Serves {A : Type 0} (fetch : A → ℕ → Result (ℕ → ℕ) × A) (disk : ℕ → ℕ) (size count : ℕ)
    : Type 0 where
  pub buffer : A → ℕ → ℕ → ℕ
  pub found : (st : A) (i : ℕ) → i < count → (fetch st i).0 ≡ ok (buffer st i)
  pub in_int : size * count ≤ 2 ^ 31
  pub content : (st : A) (i j : ℕ) → i < count → j < size → buffer st i j ≡ disk (size * i + j)

module _ {A : Type 0} (fetch : A → ℕ → Result (ℕ → ℕ) × A) (disk : ℕ → ℕ) (size count : ℕ)
    (serves : Serves fetch disk size count) where
  read_step :
      (rounds i : ℕ) (st : A) (stream : Stream) (m : Mem) (out total : ℕ)
      → i < count
      → read_loop fetch (suc rounds) i st stream m out total
        ≡ read_loop fetch rounds
            (i + 1)
            (fetch st i).1
            (record stream { pos = stream.pos + amount_read stream.pos stream.sector_size total })
            (copy_loop
              (amount_read stream.pos stream.sector_size total)
              m
              out
              (serves.buffer st i)
              (stream.pos % stream.sector_size)
              0)
            (out + amount_read stream.pos stream.sector_size total)
            (total - amount_read stream.pos stream.sector_size total)
  unfolding read_loop
  read_step rounds i st stream m out total lt = rw (read_loop, serves.found st i lt) refl

  -- One read and the reads behind it.
  pub Delivers-chain :
      (stream : Stream) (m m' : Mem) (out amount rest : ℕ)
      (r : Result (Unit {0}) × Stream × Mem × A)
      → Delivers disk (record stream { pos = stream.pos + amount }) m' (out + amount) rest r
      → ((a : ℕ) → m' a ≡ (if within out amount a then disk (stream.pos + (a - out)) else m a))
      → Delivers disk stream m out (amount + rest) r
  Delivers-chain stream m m' out amount rest r d copied = record {
    succeeds = d.succeeds;
    moved = d.moved ∙ ap (λ n. record stream { pos = n }) (omega arith);
    bytes = λ a. elim (Bool-cases (within (out + amount) rest a)) [
      | inl later ↦
          let at : stream.pos + amount + (a - (out + amount)) ≡ stream.pos + (a - out) =
            ground (arith, later) in
          ground (arith, d.bytes a, later, ap disk at)
      | inr first ↦ ground (arith, d.bytes a, first, copied a)
    ];
  }

  -- What one round copies, where it starts in sector `i` and stays in it.
  round_bytes :
      (i : ℕ) (st : A) (stream : Stream) (m : Mem) (out amount off : ℕ)
      → i < count
      → stream.pos ≡ size * i + off
      → off + amount ≤ size
      → off < size
      → (a : ℕ)
      → copy_loop amount m out (serves.buffer st i) (stream.pos % size) 0 a
        ≡ (if within out amount a then disk (stream.pos + (a - out)) else m a)
  round_bytes i st stream m out amount off lt at fits low a =
      let offset : stream.pos % size ≡ off =
        ap (λ p. p % size) at ∙ mul-add-mod_self_left size i off ∙ mod-eq_of_lt low in
      elim (Bool-cases (within out amount a)) [
        | inl inside ↦
            let place : size * i + (off + (0 + (a - out))) ≡ stream.pos + (a - out) =
              omega (arith, at) in
            ground (
              arith,
              copy_loop_lem amount m out (serves.buffer st i) (stream.pos % size) 0 a,
              offset,
              inside,
              serves.content st i (off + (0 + (a - out))) lt (ground (arith, inside, fits)),
              ap disk place,
            )
        | inr outside ↦ ground (
          arith,
          copy_loop_lem amount m out (serves.buffer st i) (stream.pos % size) 0 a,
          outside,
        )
      ]

  -- A round that reads `n` bytes, before rounds that deliver the rest.
  pub round_lem :
      (rounds i : ℕ) (st : A) (stream : Stream) (m : Mem) (out n rest : ℕ)
      → i < count
      → amount_read stream.pos stream.sector_size (n + rest) ≡ n
      → (let m' : Mem =
            copy_loop n m out (serves.buffer st i) (stream.pos % stream.sector_size) 0 in
          ((a : ℕ) → m' a ≡ (if within out n a then disk (stream.pos + (a - out)) else m a))
          → Delivers disk
              (record stream { pos = stream.pos + n })
              m'
              (out + n)
              rest
              (read_loop fetch rounds
                (i + 1)
                (fetch st i).1
                (record stream { pos = stream.pos + n })
                m'
                (out + n)
                rest)
          → Delivers disk stream m out
              (n + rest)
              (read_loop fetch (suc rounds) i st stream m out (n + rest)))
  round_lem rounds i st stream m out n rest lt amount copied d =
      let m' : Mem = copy_loop n m out (serves.buffer st i) (stream.pos % stream.sector_size) 0 in
      let left : n + rest - n ≡ rest = omega arith in
      subst (Delivers disk stream m out (n + rest))
        (sym (read_step rounds i st stream m out (n + rest) lt))
        (subst
          (λ k. Delivers disk stream m out (n + rest) (
            read_loop fetch rounds (i + 1) (fetch st i).1 (record stream { pos = stream.pos + k })
              (copy_loop k m out (serves.buffer st i) (stream.pos % stream.sector_size) 0) (out + k)
              (n + rest - k)))
          (sym amount)
          (subst
            (λ k. Delivers disk stream m out (n + rest) (
              read_loop fetch rounds (i + 1) (fetch st i).1 (record stream { pos = stream.pos + n })
                m' (out + n) k))
            (sym left) (Delivers-chain stream m m' out n rest _ d copied)))

  -- With nothing more to read the loop only asks for sectors.
  pub read_none :
      (rounds i : ℕ) (st : A) (stream : Stream) (m : Mem) (out : ℕ)
      → 0 < stream.sector_size
      → i + rounds ≤ count
      → Delivers disk stream m out 0 (read_loop fetch rounds i st stream m out 0)
  unfolding read_loop
  read_none zero i st stream m out some bound = record {
    succeeds = refl;
    moved = ap (λ n. record stream { pos = n }) (omega arith);
    bytes = λ a. ground arith;
  }
  read_none (suc rounds) i st stream m out some bound =
      let copied : (a : ℕ)
          → copy_loop 0 m out (serves.buffer st i) (stream.pos % stream.sector_size) 0 a
            ≡ (if within out 0 a then disk (stream.pos + (a - out)) else m a) =
        λ a. ground (
          arith,
          copy_loop_lem 0 m out (serves.buffer st i) (stream.pos % stream.sector_size) 0 a,
        ) in
      round_lem rounds i st stream m out 0 0 (omega (arith, bound)) (ground (arith, some)) copied (
        read_none rounds (i + 1) (fetch st i).1 (record stream { pos = stream.pos + 0 }) _ (out + 0)
          some (omega (arith, bound)))

  module _ (some : 0 < size) where
    pub read_loop-Delivers :
        (rounds i : ℕ) (st : A) (stream : Stream) (m : Mem) (out total off : ℕ)
        → stream.sector_size ≡ size
        → stream.pos ≡ size * i + off
        → off < size
        → (size ≤ total) ⊎ (off + total ≤ size)
        → size * i + off + total ≤ size * (i + rounds)
        → i + rounds ≤ count
        → Delivers disk stream m out total (read_loop fetch rounds i st stream m out total)
    unfolding read_loop
    read_loop-Delivers zero i st stream m out total off same at low whole enough bound =
        let nothing : 0 ≡ total = omega (arith, enough) in
        subst (λ k. Delivers disk stream m out k (ok tt, stream, m, st)) nothing
          (record {
            succeeds = refl;
            moved = ap (λ n. record stream { pos = n }) (omega arith);
            bytes = λ a. ground arith;
          })
    read_loop-Delivers (suc rounds) i st stream m out total off same at low whole enough bound =
        elim (Bool-cases (ltb total size)) [
          | inl last ↦
              let lt : i < count = omega (arith, bound) in
              let in_sector : off + total ≤ size = ground (arith, whole, last) in
              let copied =
                subst
                  (λ z.
                    (a : ℕ)
                    → copy_loop total m out (serves.buffer st i) (stream.pos % z) 0 a
                      ≡ (if within out total a then disk (stream.pos + (a - out)) else m a))
                  (sym same) (round_bytes i st stream m out total off lt at in_sector low) in
              let whole_total : total + 0 ≡ total = omega arith in
              subst
                (λ k.
                  Delivers disk stream m out k (read_loop fetch (suc rounds) i st stream m out k))
                whole_total
                (round_lem rounds i st stream m out total 0 lt (ground (arith, last, same)) copied (
                  read_none rounds (i + 1) (fetch st i).1
                    (record stream { pos = stream.pos + total }) _ (out + total)
                    (omega (arith, same, some)) (omega (arith, bound))))
          | inr more ↦
              let lt : i < count = omega (arith, bound) in
              let n : ℕ = size - off in
              let rest : ℕ = total - n in
              let large : size ≤ total = ground (arith, more) in
              let offset : stream.pos % size ≡ off =
                ap (λ p. p % size) at ∙ mul-add-mod_self_left size i off ∙ mod-eq_of_lt low in
              let whole_total : n + rest ≡ total = omega (arith, large) in
              let amount : amount_read stream.pos stream.sector_size (n + rest) ≡ n =
                rw (same, whole_total) (ground (arith, more, offset)) in
              let copied =
                subst
                  (λ z.
                    (a : ℕ)
                    → copy_loop n m out (serves.buffer st i) (stream.pos % z) 0 a
                      ≡ (if within out n a then disk (stream.pos + (a - out)) else m a))
                  (sym same) (round_bytes i st stream m out n off lt at (omega (arith, low)) low) in
              subst
                (λ k.
                  Delivers disk stream m out k (read_loop fetch (suc rounds) i st stream m out k))
                whole_total
                (round_lem rounds i st stream m out n rest lt amount copied (
                  read_loop-Delivers rounds (i + 1) (fetch st i).1
                    (record stream { pos = stream.pos + n }) _ (out + n) rest 0 same
                    (omega (arith, at, low)) some (ground arith) (omega (arith, enough, low, large))
                    (omega (arith, bound))))
        ]
