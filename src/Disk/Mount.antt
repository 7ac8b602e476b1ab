-- ===== src/Disk/Mount.antt =====
-- Which disks the partitions of a disk become in disk/gpt.c.
use peach_os64bit_module_two.Common.{
  ℕ, zero, suc, ◌+◌, ◌*◌, ◌<◌, ◌≡◌, Bool, true, false, List, [], ◌∷◌, ◌++◌, length, if◌then◌else◌,
  ◌==◌,
}
use peach_os64bit_module_two.Status.{Result}
use peach_os64bit_module_two.Memory.{Mem}
use peach_os64bit_module_two.Memory.Laws.{within}
use peach_os64bit_module_two.Streamer.{Stream, diskstreamer_read}
use peach_os64bit_module_two.Streamer.Read.{Serves}
use peach_os64bit_module_two.Disk.{real, partition, Disk, lba_of}
use peach_os64bit_module_two.Disk.Gpt.{PartitionEntry, entry_at}

-- The size of an entry that the standard gives.
abbrev pub standard_size : ℕ
standard_size = 128

-- The entry at a place of the disk.
abbrev pub entry_on : (ℕ → ℕ) → ℕ → PartitionEntry
entry_on disk place = entry_at (λ a. if within 0 standard_size a then disk (place + a) else 0)

-- The disk that an entry describes, with the sector size and the driver of its hardware disk.
abbrev pub disk_of : Disk → List Disk → PartitionEntry → Disk
disk_of primary disks e = record {
  disk_type = partition;
  id = length disks;
  sector_size = primary.sector_size;
  starting_lba = lba_of e.starting_lba;
  ending_lba = lba_of e.ending_lba;
  driver = primary.driver;
}

-- The disks with those of the used ones of `n` entries behind them.
abbrev pub with_partitions : (ℕ → ℕ) → Disk → ℕ → ℕ → List Disk → List Disk
with_partitions disk primary zero place disks = disks
with_partitions disk primary (suc n) place disks =
    let over = with_partitions disk primary n (place + standard_size) disks in
    let more =
      with_partitions disk primary n (place + standard_size)
        (disks ++ (disk_of primary disks (entry_on disk place) ∷ [])) in
    if (entry_on disk place).unused then over else more

-- No allocation fails.
abbrev pub always : {A : Type 0} → A → Bool
always st = true

module _ {A : Type 0} (fetch : A → ℕ → Result (ℕ → ℕ) × A) (mount : A → Disk → A) (disk : ℕ → ℕ)
    (primary : Disk) (driven : (primary.driver == 0) ≡ false) (hardware : primary.disk_type ≡ real)
    (entries count last : ℕ) (serves : Serves fetch disk primary.sector_size count)
    (sized : primary.sector_size ≡ entries * standard_size) (some_size : 0 < primary.sector_size)
    (served : last < count) where
  -- The stream at an entry, and the read of it.
  abbrev at_entry : ℕ → Stream
  at_entry q = record { pos = standard_size * q; sector_size = primary.sector_size }

  read_entry : A → ℕ → Result (Unit {0}) × Stream × Mem × A
  read_entry st q = diskstreamer_read fetch st (at_entry q) (λ a. 0) 0 standard_size
