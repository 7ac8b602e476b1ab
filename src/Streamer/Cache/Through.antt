-- ===== src/Streamer/Cache/Through.antt =====
-- Whole reads of disk/streamer.c through its cache.
use peach_os64bit_module_two.Common.{
  ℕ, zero, suc, ◌+◌, ◌-◌, ◌*◌, ◌/◌, ◌%◌, ◌^◌, ◌<◌, ◌≤◌, ◌≡◌, ◌⊎◌, inl, inr, refl, arith, ltb, ap,
  ◌∙◌, sym, subst, Bool-cases,
}
use native.Mathlib.Nat.{mul-le-mul_left, mul-add, div-le_of_le-mul}
use peach_os64bit_module_two.Status.{Result, ok, err, Errno, eio}
use peach_os64bit_module_two.Memory.{Mem}
use peach_os64bit_module_two.Disk.{Disk}
use peach_os64bit_module_two.Streamer.{
  Stream, aligned_up, starting_sector, read_loop, diskstreamer_read,
}
use peach_os64bit_module_two.Streamer.Read.{Delivers, Serves}
use peach_os64bit_module_two.Streamer.Whole.{starting_lem, ending_lem, diskstreamer_read-Delivers}
use peach_os64bit_module_two.Streamer.Cache.{Cache, Answers, fetch_sector}
use peach_os64bit_module_two.Streamer.Cache.Walk.{Succeeds}
use peach_os64bit_module_two.Streamer.Cache.Fetch.{Faithful, Gives, fetch_sector-Gives}

-- Two kinds of state behind the same reads.
carried :
    {A B : Type 0}
    → (A → B)
    → Result (Unit {0}) × Stream × Mem × A
    → Result (Unit {0}) × Stream × Mem × B
carried f r = (r.0, r.1, r.2, f r.3)

Result-cases : {A : Type 0} (r : Result A) → ((a : A) × (r ≡ ok a)) ⊎ ((e : Errno) × (r ≡ err e))
Result-cases (ok a) = inl (a, refl)
Result-cases (err e) = inr (e, refl)

module _ {A B : Type 0} (f : A → B) (fetch_a : A → ℕ → Result (ℕ → ℕ) × A)
    (fetch_b : B → ℕ → Result (ℕ → ℕ) × B) (count : ℕ)
    (same : (st : A) (i : ℕ) → i < count → (fetch_b (f st) i).0 ≡ (fetch_a st i).0)
    (next : (st : A) (i : ℕ) → i < count → (fetch_b (f st) i).1 ≡ f (fetch_a st i).1) where
  read_loop-carried :
      (rounds i : ℕ) (st : A) (stream : Stream) (m : Mem) (out total : ℕ)
      → i + rounds ≤ count
      → read_loop fetch_b rounds i (f st) stream m out total
        ≡ carried f (read_loop fetch_a rounds i st stream m out total)
  unfolding carried read_loop
  read_loop-carried zero i st stream m out total bound = refl
  read_loop-carried (suc rounds) i st stream m out total bound =
      let lt : i < count = omega (arith, bound) in
      elim (Result-cases (fetch_a st i).0) [
        | inl (buf, given) ↦
            rw (read_loop, same st i lt, given, next st i lt)
              (read_loop-carried rounds (i + 1) (fetch_a st i).1 _ _ _ _ (omega (arith, bound)))
        | inr (e, failed) ↦ rw (read_loop, same st i lt, failed, next st i lt) refl
      ]

  diskstreamer_read-carried :
      (st : A) (stream : Stream) (m : Mem) (out total : ℕ)
      → 0 < stream.sector_size
      → aligned_up (stream.pos + total) stream.sector_size / stream.sector_size < count
      → diskstreamer_read fetch_b (f st) stream m out total
        ≡ carried f (diskstreamer_read fetch_a st stream m out total)
  unfolding diskstreamer_read carried
  diskstreamer_read-carried st stream m out total positive bound =
      let size : ℕ = stream.sector_size in
      let last : ℕ = aligned_up (stream.pos + total) size / size in
      let end : stream.pos + total ≤ size * last = ending_lem (stream.pos + total) size positive in
      let order : stream.pos / size ≤ last = div-le_of_le-mul size (omega (arith, end)) in
      let start = starting_lem stream.pos size positive in
      elim (Bool-cases (ltb (aligned_up (stream.pos + total) size) (2 ^ 31))) [
        | inl fits ↦ rw fits (
            read_loop-carried (last + 1 - starting_sector stream.pos size)
              (starting_sector stream.pos size) st stream m out total
              (rw start (omega (arith, order, bound))))
        | inr wraps ↦ rw wraps refl
      ]

module _ (answers : ℕ → Answers) (read_block : ℕ → Result (ℕ → ℕ)) (disk : Disk) (contents : ℕ → ℕ)
    (count : ℕ) (bytes : ℕ → ℕ → ℕ) (succeeds : (i : ℕ) → i < count → Succeeds (answers i))
    (block : (i : ℕ) → i < count → read_block i ≡ ok (bytes i))
    (right : (i j : ℕ)
      → i < count
      → j < disk.sector_size
      → bytes i j ≡ contents (disk.sector_size * (disk.starting_lba + i) + j))
    (positive : 0 < disk.sector_size)
    (below : disk.sector_size * (disk.starting_lba + count) < 2 ^ 31) where
  -- A cache that is true to the disk.
  abbrev True : Type 0
  True = (c : Cache) × Faithful contents disk.sector_size c

  gives :
      (st : True) (i : ℕ)
      → i < count
      → Gives contents disk.sector_size
          (disk.starting_lba + i)
          (fetch_sector answers read_block disk st.0 i)
  gives st i lt =
      let more : disk.sector_size * (disk.starting_lba + i)
          ≤ disk.sector_size * (disk.starting_lba + count) =
        mul-le-mul_left disk.sector_size (omega (arith, lt)) in
      fetch_sector-Gives answers read_block disk contents st.0 i (bytes i) st.1 (succeeds i lt)
        positive (omega (arith, more, below)) (block i lt) (λ j. right i j lt)

  -- The same reads on caches that are true to the disk, up to the last sector.
  unfoldable fetch_true : (st : True) (i : ℕ) → (i < count) ⊎ (count ≤ i) → Result (ℕ → ℕ) × True
  fetch_true st i (inl lt) = (
    ok (gives st i lt).buffer,
    ((fetch_sector answers read_block disk st.0 i).1, (gives st i lt).stays),
  )
  fetch_true st i (inr beyond) = (err eio, st)

  inside_or : (i : ℕ) → (i < count) ⊎ (count ≤ i)
  inside_or i = elim (Bool-cases (ltb i count)) [
    | inl inside ↦ inl (ground (arith, inside))
    | inr outside ↦ inr (ground (arith, outside))
  ]

  fetch_true-same :
      (st : True) (i : ℕ) (d : (i < count) ⊎ (count ≤ i))
      → i < count
      → ((fetch_sector answers read_block disk st.0 i).0 ≡ (fetch_true st i d).0)
        × ((fetch_sector answers read_block disk st.0 i).1 ≡ (fetch_true st i d).1.0)
  unfolding fetch_true
  fetch_true-same st i (inl lt) low = ((gives st i lt).found, refl)
  fetch_true-same st i (inr beyond) low = absurd (omega (arith, beyond, low))

  buffer_of : (st : True) (i : ℕ) → (i < count) ⊎ (count ≤ i) → ℕ → ℕ
  buffer_of st i (inl lt) = (gives st i lt).buffer
  buffer_of st i (inr beyond) = λ _. 0

  buffer_of-found :
      (st : True) (i : ℕ) (d : (i < count) ⊎ (count ≤ i))
      → i < count
      → (fetch_true st i d).0 ≡ ok (buffer_of st i d)
  unfolding fetch_true buffer_of
  buffer_of-found st i (inl lt) low = refl
  buffer_of-found st i (inr beyond) low = absurd (omega (arith, beyond, low))

  buffer_of-content :
      (st : True) (i : ℕ) (d : (i < count) ⊎ (count ≤ i)) (j : ℕ)
      → i < count
      → j < disk.sector_size
      → buffer_of st i d j ≡ contents (disk.sector_size * (disk.starting_lba + i) + j)
  unfolding buffer_of
  buffer_of-content st i (inl lt) j low small = (gives st i lt).content j small
  buffer_of-content st i (inr beyond) j low small = absurd (omega (arith, beyond, low))

  -- The disk as its streams see it, from its first sector on.
  abbrev pub stream_bytes : ℕ → ℕ
  stream_bytes p = contents (disk.sector_size * disk.starting_lba + p)

  cache-Serves : Serves (λ st i. fetch_true st i (inside_or i)) stream_bytes disk.sector_size count
  cache-Serves = record {
    buffer = λ st i. buffer_of st i (inside_or i);
    found = λ st i lt. buffer_of-found st i (inside_or i) lt;
    in_int = omega (arith, below, mul-add disk.sector_size disk.starting_lba count);
    content = λ st i j lt small.
        let place : disk.sector_size * (disk.starting_lba + i) + j
            ≡ disk.sector_size * disk.starting_lba + (disk.sector_size * i + j) =
          omega (arith, mul-add disk.sector_size disk.starting_lba i) in
        buffer_of-content st i (inside_or i) j lt small ∙ ap contents place;
  }

  -- Through the cache: where every allocation succeeds, the disk gives each of its sectors and they
  -- end below 2 GiB, a read of at least a sector, or within one, from a cache that is true to the
  -- disk delivers the bytes of the disk and leaves a cache that is true to it.
  pub diskstreamer_read-Faithful :
      (c : Cache) (stream : Stream) (m : Mem) (out total : ℕ)
      → Faithful contents disk.sector_size c
      → stream.sector_size ≡ disk.sector_size
      → aligned_up (stream.pos + total) disk.sector_size / disk.sector_size < count
      → (disk.sector_size ≤ total) ⊎ (stream.pos % disk.sector_size + total ≤ disk.sector_size)
      → (let r = diskstreamer_read (fetch_sector answers read_block disk) c stream m out total in
          Delivers stream_bytes stream m out total r × Faithful contents disk.sector_size r.3)
  unfolding carried
  diskstreamer_read-Faithful c stream m out total faithful same bound whole =
      let fetch : True → ℕ → Result (ℕ → ℕ) × True = λ st i. fetch_true st i (inside_or i) in
      let size : ℕ = stream.sector_size in
      let served : Serves fetch stream_bytes size count =
        subst (λ z. Serves fetch stream_bytes z count) (sym same) cache-Serves in
      let some_size : 0 < size = omega (arith, same, positive) in
      let last : aligned_up (stream.pos + total) size / size < count = rw same bound in
      let d =
        diskstreamer_read-Delivers fetch stream_bytes stream count served some_size (c, faithful) m
          out total last (rw same whole) in
      let both : diskstreamer_read (fetch_sector answers read_block disk) c stream m out total
          ≡ carried (λ st. st.0) (diskstreamer_read fetch (c, faithful) stream m out total) =
        diskstreamer_read-carried (λ st. st.0) fetch (fetch_sector answers read_block disk) count
          (λ st i lt. (fetch_true-same st i (inside_or i) lt).0)
          (λ st i lt. (fetch_true-same st i (inside_or i) lt).1) (c, faithful) stream m out total
          some_size last in
      subst
        (λ r. Delivers stream_bytes stream m out total r × Faithful contents disk.sector_size r.3)
        (sym both)
        (
          record { succeeds = d.succeeds; moved = d.moved; bytes = d.bytes },
          (diskstreamer_read fetch (c, faithful) stream m out total).3.1,
        )
