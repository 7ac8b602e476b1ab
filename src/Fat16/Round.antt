-- ===== src/Fat16/Round.antt =====
-- A round of the reads of fs/fat/fat16.c: bytes of a file from one of its clusters.
use peach_os64bit_module_two.Common.{
  ℕ, ◌+◌, ◌-◌, ◌*◌, ◌/◌, ◌%◌, ◌<◌, ◌≤◌, ◌≡◌, ◌⊎◌, inl, inr, refl, sym, ap, ◌∙◌, subst, Bool-cases,
  arith, if◌then◌else◌,
}
use peach_os64bit_module_two.Status.{Result}
use peach_os64bit_module_two.Memory.{Mem}
use peach_os64bit_module_two.Memory.Laws.{within}
use native.Mathlib.Nat.{
  mod-lt, div-add-mod, mul-add-mod_self_right, mul-add-mod_self_left, mod-eq_of_lt, mul-add-div,
  div-eq_of_lt, mul-le-mul, mul-le-mul_right,
}
use peach_os64bit_module_two.Streamer.Read.{Delivers, Serves}
use peach_os64bit_module_two.Fat16.{
  FatPrivate, cluster_to_sector, size_of_cluster_bytes, total_to_read, read_cluster,
}
use peach_os64bit_module_two.Fat16.Chain.{read_at-Delivers, IsChain, TableFits}

-- The byte at an offset of a file, on the disk.
abbrev pub content : FatPrivate → (ℕ → ℕ) → (ℕ → ℕ) → ℕ → ℕ
content fat disk chain offset =
    let size = size_of_cluster_bytes fat in
    disk (cluster_to_sector fat (chain (offset / size)) * fat.sector_size + offset % size)

-- The clusters of the chain lie before a sector that is served.
pub record DataFits (fat : FatPrivate) (chain : ℕ → ℕ) (n end count : ℕ) : Type 0 where
  pub some_sectors : 0 < fat.header.sectors_per_cluster
  pub fits :
      (k : ℕ) → k ≤ n → cluster_to_sector fat (chain k) + fat.header.sectors_per_cluster ≤ end
  pub served : end < count

-- Places in one block.
block-div :
    (size offset j : ℕ) → 0 < size → offset % size + j < size → (offset + j) / size ≡ offset / size
block-div size offset j some_size inside =
    let at : offset + j ≡ size * (offset / size) + (offset % size + j) =
      omega (arith, div-add-mod offset size) in
    ap (λ n. n / size) at
    ∙ mul-add-div some_size (offset / size) (offset % size + j)
    ∙ ap (λ k. offset / size + k) (div-eq_of_lt inside)
    ∙ omega arith

block-mod : (size offset j : ℕ) → offset % size + j < size → (offset + j) % size ≡ offset % size + j
block-mod size offset j inside =
    let at : offset + j ≡ size * (offset / size) + (offset % size + j) =
      omega (arith, div-add-mod offset size) in
    ap (λ n. n % size) at
    ∙ mul-add-mod_self_left size (offset / size) (offset % size + j)
    ∙ mod-eq_of_lt inside

-- A sector within a block.
sector-mod : (count size offset : ℕ) → offset % (count * size) % size ≡ offset % size
sector-mod count size offset =
    let at : offset ≡ (offset / (count * size)) * count * size + offset % (count * size) =
      sym (div-add-mod offset (count * size)) ∙ omega arith in
    sym (
      ap (λ n. n % size) at
      ∙ mul-add-mod_self_right (offset / (count * size) * count) size (offset % (count * size)))

pub size_lem :
    (fat : FatPrivate)
    → size_of_cluster_bytes fat ≡ fat.header.sectors_per_cluster * fat.sector_size
unfolding size_of_cluster_bytes
size_lem fat = refl

pub total_to_read-bounds :
    (fat : FatPrivate) (offset total : ℕ)
    → offset % size_of_cluster_bytes fat < size_of_cluster_bytes fat
    → let t = total_to_read fat offset total in
      (t ≤ total)
      × (offset % size_of_cluster_bytes fat + t ≤ size_of_cluster_bytes fat)
      × (0 < total → 0 < t)
      × (t < total → offset % size_of_cluster_bytes fat + t ≡ size_of_cluster_bytes fat)
unfolding total_to_read
total_to_read-bounds fat offset total low = ground (arith, low)

fits_area :
    (sectors size sector end rem t : ℕ)
    → sector + sectors ≤ end
    → rem + t ≤ sectors * size
    → sector * size + rem + t ≤ size * end
fits_area sectors size sector end rem t fits inside =
    omega (arith, mul-le-mul_right size fits, inside)

aligned_place : (sector size rem : ℕ) → rem % size ≡ 0 → (sector * size + rem) % size ≡ 0
aligned_place sector size rem aligned = mul-add-mod_self_right sector size rem ∙ aligned

whole_or : (size place t : ℕ) → place % size ≡ 0 → (size ≤ t) ⊎ (place % size + t ≤ size)
whole_or size place t aligned = ground (arith, aligned)

-- Two reads, one behind the other.
pub join_reads :
    (m m' m'' : Mem) (file : ℕ → ℕ) (offset out t total : ℕ)
    → t ≤ total
    → ((a : ℕ) → m' a ≡ (if within out t a then file (offset + (a - out)) else m a))
    → ((a : ℕ)
        → m'' a
          ≡ (if within (out + t) (total - t) a then file (offset + t + (a - (out + t))) else m' a))
    → (a : ℕ) → m'' a ≡ (if within out total a then file (offset + (a - out)) else m a)
join_reads m m' m'' file offset out t total bound first second a =
    elim (Bool-cases (within (out + t) (total - t) a)) [
      | inl here ↦
          let at : offset + t + (a - (out + t)) ≡ offset + (a - out) = ground (arith, here) in
          ground (arith, second a, here, ap file at, bound)
      | inr away ↦ elim (Bool-cases (within out t a)) [
        | inl early ↦ ground (arith, second a, first a, away, early, bound)
        | inr outside ↦ ground (arith, second a, first a, away, outside, bound)
      ]
    ]

module _ {A : Type 0} (fetch : A → ℕ → Result (ℕ → ℕ) × A) (disk : ℕ → ℕ) (fat : FatPrivate)
    (count half last : ℕ) (serves : Serves fetch disk fat.sector_size count)
    (table : TableFits fat count half last) (chain : ℕ → ℕ) (n end : ℕ)
    (c : IsChain fat disk chain n) (data_fits : DataFits fat chain n end count) where
  pub sized : 0 < fat.sector_size
  sized = omega (arith, table.even, table.some_size)

  pub cluster_sized : 0 < size_of_cluster_bytes fat
  unfolding size_of_cluster_bytes
  cluster_sized = omega (arith, mul-le-mul data_fits.some_sectors sized)

  -- The round at an offset: where it reads, and how much.
  abbrev pub place : ℕ → ℕ
  place offset =
      cluster_to_sector fat (chain (offset / size_of_cluster_bytes fat)) * fat.sector_size
      + offset % size_of_cluster_bytes fat

  pub cluster_bound : (offset : ℕ) → offset % size_of_cluster_bytes fat < size_of_cluster_bytes fat
  cluster_bound offset = mod-lt offset cluster_sized

  -- The read of a round.
  pub round-Delivers :
      (st : A) (m : Mem) (offset total out : ℕ)
      → offset / size_of_cluster_bytes fat ≤ n
      → offset % fat.sector_size ≡ 0
      → Delivers disk
          (record { pos = place offset; sector_size = fat.sector_size })
          m
          out
          (total_to_read fat offset total)
          (read_cluster fetch fat st m
            (chain (offset / size_of_cluster_bytes fat))
            offset
            total
            out)
  unfolding read_cluster
  round-Delivers st m offset total out inside aligned =
      let k : ℕ = offset / size_of_cluster_bytes fat in
      let t : ℕ = total_to_read fat offset total in
      let (least, within_cluster, more, cut) =
        total_to_read-bounds fat offset total (cluster_bound offset) in
      let rem : offset % size_of_cluster_bytes fat % fat.sector_size ≡ 0 =
        ap (λ b. offset % b % fat.sector_size) (size_lem fat)
        ∙ sector-mod fat.header.sectors_per_cluster fat.sector_size offset
        ∙ aligned in
      read_at-Delivers fetch disk fat.sector_size count serves sized st m (place offset) out t end
        (fits_area fat.header.sectors_per_cluster fat.sector_size (cluster_to_sector fat (chain k))
          end (offset % size_of_cluster_bytes fat) t (data_fits.fits k inside)
          (subst (λ b. offset % size_of_cluster_bytes fat + t ≤ b) (size_lem fat) within_cluster))
        data_fits.served
        (whole_or fat.sector_size (place offset) t (
          aligned_place (cluster_to_sector fat (chain k)) fat.sector_size
            (offset % size_of_cluster_bytes fat) rem))

  place-content :
      (offset j : ℕ)
      → offset % size_of_cluster_bytes fat + j < size_of_cluster_bytes fat
      → disk (place offset + j) ≡ content fat disk chain (offset + j)
  place-content offset j inside =
      let size : ℕ = size_of_cluster_bytes fat in
      let k : ℕ = offset / size in
      let at : cluster_to_sector fat (chain k) * fat.sector_size + offset % size + j
          ≡ cluster_to_sector fat (chain k) * fat.sector_size + (offset % size + j) =
        omega arith in
      sym (
        ap (λ i. disk (cluster_to_sector fat (chain i) * fat.sector_size + (offset + j) % size))
          (block-div size offset j cluster_sized inside)
        ∙ ap (λ i. disk (cluster_to_sector fat (chain k) * fat.sector_size + i))
            (block-mod size offset j inside)
        ∙ ap disk (sym at))

  -- The bytes of a round, as bytes of the file.
  pub round-bytes :
      (st : A) (m : Mem) (offset total out : ℕ)
      → offset / size_of_cluster_bytes fat ≤ n
      → offset % fat.sector_size ≡ 0
      → (a : ℕ)
      → (read_cluster fetch fat st m
            (chain (offset / size_of_cluster_bytes fat))
            offset
            total
            out).2
          a
        ≡ (if within out (total_to_read fat offset total) a
            then content fat disk chain (offset + (a - out))
            else m a)
  round-bytes st m offset total out inside aligned a =
      let t : ℕ = total_to_read fat offset total in
      let (least, within_cluster, more, cut) =
        total_to_read-bounds fat offset total (cluster_bound offset) in
      elim (Bool-cases (within out t a)) [
        | inl here ↦
            let inner : offset % size_of_cluster_bytes fat + (a - out) < size_of_cluster_bytes fat =
              ground (arith, here, within_cluster) in
            ground (
              arith,
              (round-Delivers st m offset total out inside aligned).bytes a,
              place-content offset (a - out) inner,
              here,
            )
        | inr away ↦
            ground (arith, (round-Delivers st m offset total out inside aligned).bytes a, away)
      ]
