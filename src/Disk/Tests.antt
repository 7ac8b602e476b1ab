-- ===== src/Disk/Tests.antt =====
-- Disks of disk/disk.c and partitions of disk/gpt.c on a small disk.
use peach_os64bit_module_two.Common.{
  ℕ, ◌+◌, ◌*◌, ◌≤◌, ◌≡◌, ◌≢◌, ◌⊎◌, refl, arith, some, ◌==◌, if◌then◌else◌,
}
use peach_os64bit_module_two.Status.{Result, ok, err, eio}
use peach_os64bit_module_two.Streamer.Read.{Serves}
use peach_os64bit_module_two.Disk.{real, partition, Disk, disk_read_block}
use peach_os64bit_module_two.Disk.Gpt.{PartitionTableHeader}
use peach_os64bit_module_two.Disk.Bounds.{disk_read_block-within}

abbrev a_partition : Disk
a_partition = record {
  disk_type = partition;
  id = 1;
  sector_size = 512;
  starting_lba = 2048;
  ending_lba = 4095;
  driver = 1;
}

abbrev zero_lba : ℕ
zero_lba = 0

starts : a_partition.starting_lba ≢ zero_lba
starts = omega arith

ends : a_partition.ending_lba ≢ zero_lba
ends = omega arith

-- A driver that answers with its request.
abbrev recording : ℕ → Disk → ℕ → ℕ → Result (Unit {0}) × ℕ
recording st disk lba total = (ok tt, lba * 1000 + total)

disk_read_block-within_example :
    (disk_read_block (some recording) 0 a_partition 5 3 ≡ (err eio, 0))
    ⊎ ((disk_read_block (some recording) 0 a_partition 5 3 ≡ (ok tt, 2053003))
        × (2048 + 5 + 3 ≤ 4095))
disk_read_block-within_example =
    disk_read_block-within recording 0 a_partition 5 3 starts ends (omega arith)

-- A disk of sectors of 512 bytes; the first of two entries at sector 2 is used.
abbrev table_bytes : ℕ → ℕ
table_bytes p =
    if p == 1024 then 1 else if p == 1024 + 33 then 8 else if p == 1024 + 41 then 16 else 0

abbrev fetch_table : ℕ → ℕ → Result (ℕ → ℕ) × ℕ
fetch_table st i = (ok (λ j. table_bytes (512 * i + j)), st)

abbrev served_table : Serves fetch_table table_bytes 512 100
served_table = record {
  buffer = λ st i j. table_bytes (512 * i + j);
  found = λ st i _. refl;
  in_int = omega arith;
  content = λ st i j _ _. refl;
}

abbrev primary : Disk
primary = record {
  disk_type = real;
  id = 0;
  sector_size = 512;
  starting_lba = 0;
  ending_lba = 0;
  driver = 1;
}

abbrev two_entries : PartitionTableHeader
two_entries = record { guid_array_lba_start = 2; total_array_entries = 2; array_entry_size = 128 }
