-- ===== src/Fat16.antt =====
-- The FAT16 file system of fs/fat/fat16.c over the reads of Streamer. Every use of a stream begins
-- with a seek, so a stream is its sector size; an `int` of the source is a position on the disk,
-- not negative and below 2^31.
pub mod Chain
pub mod Round
pub mod Read
pub mod Directory
pub mod Calls
mod Tests
use peach_os64bit_module_two.Common.{
  ℕ, zero, suc, ◌+◌, ◌-◌, ◌*◌, ◌/◌, ◌%◌, ◌^◌, Bool, true, false, not, ◌&&◌, ◌||◌, Option, none,
  some, List, [], ◌∷◌, ltb, leb, ◌==◌, if◌then◌else◌,
}
use peach_os64bit_module_two.Status.{
  Errno, errno_value, Result, ok, err, eio, einvarg, eunimp, eoutofrange,
}
use peach_os64bit_module_two.Memory.{Mem}
use peach_os64bit_module_two.Streamer.{Stream, diskstreamer_seek, diskstreamer_read}
use peach_os64bit_module_two.File.{SeekMode, seek_set, seek_cur, seek_end, FileStat}

-- The fields of `struct fat_header` that the file system reads.
pub record FatHeader : Type 0 where
  pub sectors_per_cluster : ℕ
  pub reserved_sectors : ℕ
  pub fat_copies : ℕ
  pub root_dir_entries : ℕ
  pub sectors_per_fat : ℕ

-- `struct fat_directory_item`; the names are functions of the place of a character.
pub record FatDirectoryItem : Type 0 where
  pub filename : ℕ → ℕ
  pub ext : ℕ → ℕ
  pub attribute : ℕ
  pub high_16_bits_first_cluster : ℕ
  pub low_16_bits_first_cluster : ℕ
  pub filesize : ℕ

-- `struct fat_directory`
pub record FatDirectory : Type 0 where
  pub item : ℕ → FatDirectoryItem
  pub total : ℕ
  pub sector_pos : ℕ
  pub ending_sector_pos : ℕ

-- `struct fat_private`, with the sector size of its disk.
pub record FatPrivate : Type 0 where
  pub header : FatHeader
  pub root_directory : FatDirectory
  pub sector_size : ℕ

-- `struct fat_item`; the pointer of a directory that was not loaded is NULL.
pub data FatItem : Type 0 where
  directory_item : Option FatDirectory → FatItem
  file_item : FatDirectoryItem → FatItem

-- `struct fat_file_descriptor`
pub record FatFileDescriptor : Type 0 where
  pub item : FatItem
  pub pos : ℕ

-- `fat16_get_first_cluster`
unfoldable pub first_cluster : FatDirectoryItem → ℕ
first_cluster item = item.high_16_bits_first_cluster * 2 ^ 16 + item.low_16_bits_first_cluster

-- `fat16_sector_to_absolute`
unfoldable pub sector_to_absolute : FatPrivate → ℕ → ℕ
sector_to_absolute fat sector = sector * fat.sector_size

-- `fat16_cluster_to_sector`
unfoldable pub cluster_to_sector : FatPrivate → ℕ → ℕ
cluster_to_sector fat cluster =
    fat.root_directory.ending_sector_pos
    + cluster * fat.header.sectors_per_cluster
    - 2 * fat.header.sectors_per_cluster

unfoldable pub size_of_cluster_bytes : FatPrivate → ℕ
size_of_cluster_bytes fat = fat.header.sectors_per_cluster * fat.sector_size

-- What the test of an entry of the table makes of it.
unfoldable pub check_entry : ℕ → Result ℕ
check_entry entry =
    if leb 0xFFF8 entry
    then err eoutofrange
    else if entry == 0xFF7 || (leb 0xFFF0 entry && leb entry 0xFFF6) || entry == 0
    then err eio
    else ok entry

-- The `uint16_t` that the `int` of fat16_get_fat_entry is stored in.
unfoldable pub as_entry : Result ℕ → ℕ
as_entry (ok n) = n % 2 ^ 16
as_entry (err e) = 2 ^ 16 - errno_value e

-- The `uint16_t` that two bytes at the start of a memory are.
unfoldable pub entry_of : {A : Type 0} → Result (Unit {0}) × Stream × Mem × A → Result ℕ × A
entry_of (ok _, stream, m, st) = (ok (m 0 + 2 ^ 8 * m 1), st)
entry_of (err e, stream, m, st) = (err e, st)

-- `bytes_read`, which is the total when no read fails.
unfoldable pub bytes_read :
    {A : Type 0} → ℕ → Option (Result (Unit {0}) × Mem × A) → Option (Result ℕ × Mem × A)
bytes_read total none = none
bytes_read total (some (ok _, m, st)) = some (ok total, m, st)
bytes_read total (some (err e, m, st)) = some (err e, m, st)

-- How much a round reads.
unfoldable pub total_to_read : FatPrivate → ℕ → ℕ → ℕ
total_to_read fat offset total =
    let rest = size_of_cluster_bytes fat - offset % size_of_cluster_bytes fat in
    if ltb total rest then total else rest

-- The result of `fat16_read`.
unfoldable pub after_members :
    {A : Type 0}
    → FatFileDescriptor
    → ℕ
    → Option (Result ℕ × Mem × A)
    → Option (Result ℕ × FatFileDescriptor × Mem × A)
after_members desc nmemb none = none
after_members desc nmemb (some (err e, m, st)) = some (err e, desc, m, st)
after_members desc nmemb (some (ok offset, m, st)) =
    some (ok nmemb, record desc { pos = offset }, m, st)

module _ {A : Type 0} (fetch : A → ℕ → Result (ℕ → ℕ) × A) where
  -- A seek and a read.
  unfoldable pub read_at : ℕ → A → Mem → ℕ → ℕ → ℕ → Result (Unit {0}) × Stream × Mem × A
  read_at size st m pos out total =
      diskstreamer_read fetch st (diskstreamer_seek (record { pos = 0; sector_size = size }) pos) m
        out total

  -- `fat16_get_fat_entry`, whose local result is a memory of its own.
  unfoldable pub get_fat_entry : FatPrivate → A → ℕ → Result ℕ × A
  get_fat_entry fat st cluster = entry_of (
      read_at fat.sector_size st (λ a. 0)
        (fat.header.reserved_sectors * fat.sector_size + cluster * 2) 0 2)

  -- The loop of `fat16_get_cluster_for_offset`, `clusters_ahead` more rounds.
  unfoldable pub cluster_loop : ℕ → FatPrivate → A → ℕ → Result ℕ × A
  cluster_loop zero fat st cluster_to_use = (ok cluster_to_use, st)
  cluster_loop (suc clusters_ahead) fat st cluster_to_use =
      let (r, st') = get_fat_entry fat st cluster_to_use in
      elim (check_entry (as_entry r)) [
        | err e ↦ (err e, st')
        | ok entry ↦ cluster_loop clusters_ahead fat st' entry
      ]

  -- `fat16_get_cluster_for_offset`; the first cluster is a `uint16_t`.
  unfoldable pub get_cluster_for_offset : FatPrivate → A → ℕ → ℕ → Result ℕ × A
  get_cluster_for_offset fat st starting_cluster offset =
      cluster_loop (offset / size_of_cluster_bytes fat) fat st (starting_cluster % 2 ^ 16)

  -- The read of a round, in a cluster.
  unfoldable pub read_cluster :
      FatPrivate → A → Mem → ℕ → ℕ → ℕ → ℕ → Result (Unit {0}) × Stream × Mem × A
  read_cluster fat st m cluster offset total out =
      read_at fat.sector_size st m
        (cluster_to_sector fat cluster * fat.sector_size + offset % size_of_cluster_bytes fat) out
        (total_to_read fat offset total)

  -- The loop of `fat16_read_internal_from_stream`: `none` when the fuel is used up, where a total
  -- is fuel enough. The bytes read are the total when it does not fail.
  unfoldable pub read_clusters :
      ℕ → FatPrivate → A → Mem → ℕ → ℕ → ℕ → ℕ → Option (Result (Unit {0}) × Mem × A)
  read_clusters fuel fat st m cluster offset zero out = some (ok tt, m, st)
  read_clusters zero fat st m cluster offset (suc total) out = none
  read_clusters (suc fuel) fat st m cluster offset (suc total) out =
      let (r, st') = get_cluster_for_offset fat st cluster offset in
      elim r [
        | err e ↦ some (err e, m, st')
        | ok cluster_to_use ↦
            let (r', stream, m', st'') =
              read_cluster fat st' m cluster_to_use offset (suc total) out in
            let n = total_to_read fat offset (suc total) in
            elim r' [
              | err e ↦ some (err e, m', st'')
              | ok _ ↦ read_clusters fuel fat st'' m' cluster (offset + n) (suc total - n) (out + n)
            ]
      ]

  -- `fat16_read_internal`
  unfoldable pub read_internal : FatPrivate → A → Mem → ℕ → ℕ → ℕ → ℕ → Option (Result ℕ × Mem × A)
  read_internal fat st m starting_cluster offset total out =
      bytes_read total (read_clusters total fat st m starting_cluster offset total out)

  -- The loop of `fat16_read`, `nmemb` more rounds; the offset behind the last one.
  unfoldable pub read_members :
      ℕ → FatPrivate → A → Mem → ℕ → ℕ → ℕ → ℕ → Option (Result ℕ × Mem × A)
  read_members zero fat st m cluster offset size out = some (ok offset, m, st)
  read_members (suc nmemb) fat st m cluster offset size out =
      elim (read_internal fat st m cluster offset size out) [
        | none ↦ none
        | some (err e, m', st') ↦ some (err e, m', st')
        | some (ok _, m', st') ↦
            read_members nmemb fat st' m' cluster (offset + size) size (out + size)
      ]

  -- `fat16_read`, for a descriptor of the file `item`: the source does not test that it is one, nor
  -- where the file ends.
  unfoldable pub fat16_read :
      FatPrivate
      → A
      → Mem
      → FatFileDescriptor
      → FatDirectoryItem
      → ℕ
      → ℕ
      → ℕ
      → Option (Result ℕ × FatFileDescriptor × Mem × A)
  fat16_read fat st m desc item size nmemb out =
      after_members desc nmemb (read_members nmemb fat st m (first_cluster item) desc.pos size out)

-- The offset that a seek moves to.
unfoldable pub seek_to : FatFileDescriptor → ℕ → SeekMode → Result ℕ × FatFileDescriptor
seek_to desc offset seek_set = (ok 0, record desc { pos = offset })
seek_to desc offset seek_end = (err eunimp, desc)
seek_to desc offset seek_cur = (ok 0, record desc { pos = (desc.pos + offset) % 2 ^ 32 })

-- `fat16_seek`, for a `uint32_t`.
unfoldable pub fat16_seek : FatFileDescriptor → ℕ → SeekMode → Result ℕ × FatFileDescriptor
fat16_seek desc offset seek_mode = elim desc.item [
  | directory_item _ ↦ (err einvarg, desc)
  | file_item ritem ↦
      if leb ritem.filesize offset then (err eio, desc) else seek_to desc offset seek_mode
]

-- `fat16_stat`
unfoldable pub fat16_stat : FatFileDescriptor → Result FileStat
fat16_stat desc = elim desc.item [
  | directory_item _ ↦ err einvarg
  | file_item ritem ↦ ok (record { flags = ritem.attribute % 2; filesize = ritem.filesize })
]
