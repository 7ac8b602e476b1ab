-- ===== src/Fat16/Chain.antt =====
-- The entries of the table in fs/fat/fat16.c and the clusters that they lead to.
use peach_os64bit_module_two.Common.{
  ℕ, zero, suc, ◌+◌, ◌*◌, ◌/◌, ◌%◌, ◌^◌, ◌<◌, ◌≤◌, ◌≡◌, ◌⊎◌, inl, inr, refl, ap, ◌∙◌, false, arith,
  ◌==◌,
}
use peach_os64bit_module_two.Status.{Errno, Result, ok, err, eio, eoutofrange}
use peach_os64bit_module_two.Memory.{Mem}
use native.Mathlib.Nat.{mod-lt, div-add-mod, mul-add-mod_self_right, mod-eq_of_lt}
use peach_os64bit_module_two.Streamer.{Stream, diskstreamer_seek}
use peach_os64bit_module_two.Streamer.Read.{Delivers, Serves}
use peach_os64bit_module_two.Streamer.Whole.{aligned_up-bound, diskstreamer_read-Delivers}
use peach_os64bit_module_two.Fat16.{
  FatPrivate, check_entry, as_entry, read_at, entry_of, get_fat_entry, cluster_loop,
  get_cluster_for_offset, size_of_cluster_bytes,
}

-- Two bytes of the disk that a cluster has in the table.
abbrev pub disk_entry : FatPrivate → (ℕ → ℕ) → ℕ → ℕ
disk_entry fat disk cluster =
    let p = fat.header.reserved_sectors * fat.sector_size + cluster * 2 in
    (disk p + 2 ^ 8 * disk (p + 1)) % 2 ^ 16

-- The clusters of a file, from the first one on: each but the last has the next in the table.
pub record IsChain (fat : FatPrivate) (disk : ℕ → ℕ) (chain : ℕ → ℕ) (n : ℕ) : Type 0 where
  pub links : (k : ℕ) → k < n → disk_entry fat disk (chain k) ≡ chain (k + 1)
  pub usable : (k : ℕ) → k ≤ n → (2 ≤ chain k) × (chain k < 0xFFF0)
  pub sane : (k : ℕ) → k ≤ n → (chain k == 0xFF7) ≡ false

-- The table lies before a sector that is served, and its entries do not cross sectors.
pub record TableFits (fat : FatPrivate) (count half last : ℕ) : Type 0 where
  pub even : fat.sector_size ≡ half * 2
  pub some_size : 0 < half
  pub fits : fat.header.reserved_sectors * fat.sector_size + 2 ^ 17 ≤ fat.sector_size * last
  pub served : last < count

module _ {A : Type 0} (fetch : A → ℕ → Result (ℕ → ℕ) × A) (disk : ℕ → ℕ) (size count : ℕ)
    (serves : Serves fetch disk size count) (some_size : 0 < size) where
  -- A read that fits before a sector that is served.
  pub read_at-Delivers :
      (st : A) (m : Mem) (pos out total last : ℕ)
      → pos + total ≤ size * last
      → last < count
      → (size ≤ total) ⊎ (pos % size + total ≤ size)
      → Delivers disk
          (record { pos = pos; sector_size = size })
          m
          out
          total
          (read_at fetch size st m pos out total)
  unfolding read_at diskstreamer_seek
  read_at-Delivers st m pos out total last bound served whole =
      diskstreamer_read-Delivers fetch disk (record { pos = pos; sector_size = size }) count serves
        some_size st m out total
        (omega (arith, aligned_up-bound (pos + total) size last some_size bound, served)) whole

entry_lem :
    {A : Type 0} (r : Result (Unit {0}) × Stream × Mem × A) (disk : ℕ → ℕ) (size p : ℕ)
    → Delivers disk (record { pos = p; sector_size = size }) (λ a. 0) 0 2 r
    → as_entry (entry_of r).0 ≡ (disk p + 2 ^ 8 * disk (p + 1)) % 2 ^ 16
unfolding entry_of as_entry
entry_lem (ok _, stream, m, st) disk size p d = ground (arith, d.bytes 0, d.bytes 1)
entry_lem (err e, stream, m, st) disk size p d = ground (arith, d.succeeds)

check_entry-usable : (d : ℕ) → 2 ≤ d → d < 0xFFF0 → (d == 0xFF7) ≡ false → check_entry d ≡ ok d
unfolding check_entry
check_entry-usable d low high sane = ground (arith, low, high, sane)

check_entry-end : (e : ℕ) → 0xFFF8 ≤ e → check_entry e ≡ err eoutofrange
unfolding check_entry
check_entry-end e h = ground (arith, h)

at_end : (i n : ℕ) → i ≤ n → (i ≡ n) ⊎ (i < n)
at_end i n h = ground (arith, h)

module _ {A : Type 0} (fetch : A → ℕ → Result (ℕ → ℕ) × A) (disk : ℕ → ℕ) (fat : FatPrivate)
    (count half last : ℕ) (serves : Serves fetch disk fat.sector_size count)
    (table : TableFits fat count half last) where
  sized : 0 < fat.sector_size
  sized = omega (arith, table.even, table.some_size)

  -- An entry begins at an even place of its sector.
  entry-whole :
      (cluster : ℕ)
      → (fat.header.reserved_sectors * fat.sector_size + cluster * 2) % fat.sector_size + 2
        ≤ fat.sector_size
  entry-whole cluster =
      let size : ℕ = fat.sector_size in
      let q : ℕ = cluster * 2 / size in
      let even : size * q ≡ half * q * 2 = ap (λ n. n * q) table.even ∙ omega arith in
      omega (
        arith,
        mul-add-mod_self_right fat.header.reserved_sectors size (cluster * 2),
        div-add-mod (cluster * 2) size,
        mod-lt (cluster * 2) sized,
        even,
        table.even,
      )

  pub get_fat_entry_lem :
      (st : A) (cluster : ℕ)
      → cluster < 2 ^ 16
      → as_entry (get_fat_entry fetch fat st cluster).0 ≡ disk_entry fat disk cluster
  unfolding get_fat_entry
  get_fat_entry_lem st cluster low =
      let p : ℕ = fat.header.reserved_sectors * fat.sector_size + cluster * 2 in
      let d =
        read_at-Delivers fetch disk fat.sector_size count serves sized st (λ a. 0) p 0 2 last
          (omega (arith, table.fits, low)) table.served (inr (entry-whole cluster)) in
      entry_lem (read_at fetch fat.sector_size st (λ a. 0) p 0 2) disk fat.sector_size p d

  step_ok :
      (n c d : ℕ) (st : A)
      → c < 2 ^ 16
      → check_entry (disk_entry fat disk c) ≡ ok d
      → cluster_loop fetch (suc n) fat st c
        ≡ cluster_loop fetch n fat (get_fat_entry fetch fat st c).1 d
  unfolding cluster_loop
  step_ok n c d st low good =
      let read : check_entry (as_entry (get_fat_entry fetch fat st c).0) ≡ ok d =
        ap check_entry (get_fat_entry_lem st c low) ∙ good in
      rw (cluster_loop, read) refl

  step_err :
      (n c : ℕ) (e : Errno) (st : A)
      → c < 2 ^ 16
      → check_entry (disk_entry fat disk c) ≡ err e
      → (cluster_loop fetch (suc n) fat st c).0 ≡ err e
  unfolding cluster_loop
  step_err n c e st low bad =
      let read : check_entry (as_entry (get_fat_entry fetch fat st c).0) ≡ err e =
        ap check_entry (get_fat_entry_lem st c low) ∙ bad in
      rw (cluster_loop, read) refl

  module _ (chain : ℕ → ℕ) (n : ℕ) (c : IsChain fat disk chain n) where
    small : (k : ℕ) → k ≤ n → chain k < 2 ^ 16
    small k h = omega (arith, (c.usable k h).1)

    along : (k : ℕ) → k < n → check_entry (disk_entry fat disk (chain k)) ≡ ok (chain (k + 1))
    along k h =
        let next = c.usable (k + 1) (omega (arith, h)) in
        ap check_entry (c.links k h)
        ∙ check_entry-usable (chain (k + 1)) next.0 next.1 (c.sane (k + 1) (omega (arith, h)))

    cluster_loop_lem :
        (rounds i : ℕ) (st : A)
        → i + rounds ≤ n
        → (cluster_loop fetch rounds fat st (chain i)).0 ≡ ok (chain (i + rounds))
    unfolding cluster_loop
    cluster_loop_lem zero i st bound = ap (λ k. ok (chain k)) (omega arith)
    cluster_loop_lem (suc rounds) i st bound =
        let here : i < n = omega (arith, bound) in
        ap (λ r. r.0)
          (step_ok rounds (chain i) (chain (i + 1)) st (small i (omega (arith, here)))
            (along i here))
        ∙ cluster_loop_lem rounds (i + 1) (get_fat_entry fetch fat st (chain i)).1
            (omega (arith, bound))
        ∙ ap (λ k. ok (chain k)) (omega arith)

    -- Past the last cluster the result is what its entry gives.
    cluster_loop-past :
        (rounds i : ℕ) (e : Errno) (st : A)
        → i ≤ n
        → n < i + rounds
        → check_entry (disk_entry fat disk (chain n)) ≡ err e
        → (cluster_loop fetch rounds fat st (chain i)).0 ≡ err e
    unfolding cluster_loop
    cluster_loop-past zero i e st from to bad = absurd (omega (arith, from, to))
    cluster_loop-past (suc rounds) i e st from to bad = elim (at_end i n from) [
      | inl last ↦
          step_err rounds (chain i) e st (small i from)
            (ap (λ k. check_entry (disk_entry fat disk (chain k))) last ∙ bad)
      | inr here ↦
          ap (λ r. r.0) (step_ok rounds (chain i) (chain (i + 1)) st (small i from) (along i here))
          ∙ cluster_loop-past rounds (i + 1) e (get_fat_entry fetch fat st (chain i)).1
              (omega (arith, here)) (omega (arith, to)) bad
    ]

    pub get_cluster_for_offset-chain :
        (st : A) (offset : ℕ)
        → offset / size_of_cluster_bytes fat ≤ n
        → (get_cluster_for_offset fetch fat st (chain 0) offset).0
          ≡ ok (chain (offset / size_of_cluster_bytes fat))
    unfolding get_cluster_for_offset
    get_cluster_for_offset-chain st offset bound =
        let rounds : ℕ = offset / size_of_cluster_bytes fat in
        ap (λ k. (cluster_loop fetch rounds fat st k).0) (mod-eq_of_lt (small 0 (omega arith)))
        ∙ cluster_loop_lem rounds 0 st (omega (arith, bound))
        ∙ ap (λ k. ok (chain k)) (omega arith)

    get_cluster_for_offset-past :
        (st : A) (offset : ℕ) (e : Errno)
        → n < offset / size_of_cluster_bytes fat
        → check_entry (disk_entry fat disk (chain n)) ≡ err e
        → (get_cluster_for_offset fetch fat st (chain 0) offset).0 ≡ err e
    unfolding get_cluster_for_offset
    get_cluster_for_offset-past st offset e past bad =
        let rounds : ℕ = offset / size_of_cluster_bytes fat in
        ap (λ k. (cluster_loop fetch rounds fat st k).0) (mod-eq_of_lt (small 0 (omega arith)))
        ∙ cluster_loop-past rounds 0 e st (omega arith) (omega (arith, past)) bad

    -- For a chain of clusters from 2 to 0xFFEF other than 4087 that the table on the disk leads
    -- through, fat16_get_cluster_for_offset gives the cluster in which an offset within the chain
    -- lies, and -EOUTOFRANGE for an offset behind it when the last entry ends the chain.
    pub get_cluster_for_offset_lem :
        (st : A) (offset : ℕ)
        → let r = (get_cluster_for_offset fetch fat st (chain 0) offset).0 in
          let k = offset / size_of_cluster_bytes fat in
          (k ≤ n → r ≡ ok (chain k))
          × (n < k → 0xFFF8 ≤ disk_entry fat disk (chain n) → r ≡ err eoutofrange)
    get_cluster_for_offset_lem st offset = (
      get_cluster_for_offset-chain st offset,
      λ past end.
          get_cluster_for_offset-past st offset eoutofrange past
            (check_entry-end (disk_entry fat disk (chain n)) end),
    )

    -- Where the cluster behind such a chain is 4087, an offset in it is refused with -EIO.
    pub get_cluster_for_offset-4087 :
        (st : A) (offset : ℕ)
        → n < offset / size_of_cluster_bytes fat
        → disk_entry fat disk (chain n) ≡ 4087
        → (get_cluster_for_offset fetch fat st (chain 0) offset).0 ≡ err eio
    unfolding check_entry
    get_cluster_for_offset-4087 st offset past entry =
        get_cluster_for_offset-past st offset eio past (ap check_entry entry)
