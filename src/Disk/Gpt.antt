-- ===== src/Disk/Gpt.antt =====
-- The partitions of a disk, which disk/gpt.c mounts.
use peach_os64bit_module_two.Common.{
  ℕ, zero, suc, ◌+◌, ◌*◌, ◌%◌, ◌^◌, Bool, true, false, not, List, if◌then◌else◌,
}
use peach_os64bit_module_two.Status.{Result, ok, err, einvarg}
use peach_os64bit_module_two.Memory.{Mem, memcmp}
use Prim.Native.Nat.{Ordering}
use peach_os64bit_module_two.Streamer.{Stream, diskstreamer_seek, diskstreamer_read}
use peach_os64bit_module_two.Disk.{Disk, disk_create_partition}

-- The unsigned number in `n` bytes.
abbrev pub le_bytes : ℕ → Mem → ℕ → ℕ
le_bytes zero m a = 0
le_bytes (suc n) m a = m a + 2 ^ 8 * le_bytes n m (a + 1)

-- The fields of `struct gpt_partition_table_header` that are read.
pub record PartitionTableHeader : Type 0 where
  pub guid_array_lba_start : ℕ
  pub total_array_entries : ℕ
  pub array_entry_size : ℕ

unfoldable pub header_at : Mem → PartitionTableHeader
header_at m = record {
  guid_array_lba_start = le_bytes 8 m 72;
  total_array_entries = le_bytes 4 m 80;
  array_entry_size = le_bytes 4 m 84;
}

-- The fields of `struct gpt_partition_entry` that are read.
pub record PartitionEntry : Type 0 where
  pub unused : Bool
  pub starting_lba : ℕ
  pub ending_lba : ℕ

abbrev pub is_equal : Ordering → Bool
is_equal o = elim o [ Ordering.eq ↦ true | _ ↦ false ]

unfoldable pub entry_at : Mem → PartitionEntry
entry_at m = record {
  unused = is_equal (memcmp m (λ i. 0) 16);
  starting_lba = le_bytes 8 m 32;
  ending_lba = le_bytes 8 m 40;
}

-- `fetch` gives the sectors of the primary disk, `kzalloc` and `pushes` say whether the allocation
-- of a disk and its vector_push succeed, and `mount` is what disk_filesystem_mount does with a
-- disk.
module _ {A : Type 0} (fetch : A → ℕ → Result (ℕ → ℕ) × A) (kzalloc pushes : A → Bool)
    (mount : A → Disk → A) where
  -- The loop of `gpt_mount_partitions`, `rounds` more entries.
  unfoldable pub mount_loop :
      ℕ → A → Stream → Disk → ℕ → List Disk → Result (Unit {0}) × List Disk × A
  mount_loop zero st stream primary entry_size disks = (ok tt, disks, st)
  mount_loop (suc rounds) st stream primary entry_size disks =
      let (r, stream', m, st') = diskstreamer_read fetch st stream (λ a. 0) 0 entry_size in
      let (created, disks') =
        disk_create_partition (kzalloc st') (pushes st') disks primary (entry_at m).starting_lba
          (entry_at m).ending_lba in
      let over = mount_loop rounds st' stream' primary entry_size disks in
      elim r [
        | err e ↦ (err e, disks, st')
        | ok _ ↦ if (entry_at m).unused then over else (elim created [
          | err e ↦ (err e, disks', st')
          | ok d ↦ mount_loop rounds (mount st' d) stream' primary entry_size disks'
        ])
      ]

  -- `gpt_mount_partitions`, where `streamed` says whether its stream is made. Its `starting_byte`
  -- becomes an `int`; one that is negative is not modelled further.
  unfoldable pub gpt_mount_partitions :
      Bool → A → Disk → PartitionTableHeader → List Disk → Result (Unit {0}) × List Disk × A
  gpt_mount_partitions streamed st primary header disks =
      let start : Stream = record { pos = 0; sector_size = primary.sector_size } in
      if not streamed
      then (err einvarg, disks, st)
      else mount_loop header.total_array_entries st
          (diskstreamer_seek start
            (header.guid_array_lba_start * primary.sector_size % 2 ^ 64 % 2 ^ 32))
          primary header.array_entry_size disks
