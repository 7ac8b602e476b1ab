-- ===== src/Disk.antt =====
-- The disks of disk/disk.c and the partitions of disk/gpt.c. `disk_vector` is the list of its
-- disks, and a disk is named by its place in it.
pub mod Bounds
pub mod Gpt
pub mod Mount
mod Tests
use peach_os64bit_module_two.Common.{
  ℕ, zero, suc, ◌+◌, ◌-◌, ◌*◌, ◌%◌, ◌^◌, Bool, true, false, not, ◌&&◌, ◌||◌, Option, none, some,
  List, [], ◌∷◌, ◌++◌, ltb, leb, ◌==◌, if◌then◌else◌, add64, length, get_elem?,
}
use peach_os64bit_module_two.Common.Int.{ℤ, pos, negsuc}
use peach_os64bit_module_two.Status.{Result, ok, err, eio, einvarg, enomem, eunimp}

pub data DiskType : Type 0 where
  real partition : DiskType

-- `struct disk`, without what its driver, its file system and its cache keep. `driver` names the
-- driver, 0 for NULL.
pub record Disk : Type 0 where
  pub disk_type : DiskType
  pub id : ℕ
  pub sector_size : ℕ
  pub starting_lba : ℕ
  pub ending_lba : ℕ
  pub driver : ℕ

-- The `size_t` of an `int` that a `uint64_t` was passed as.
unfoldable pub lba_of : ℕ → ℕ
lba_of lba = if ltb (lba % 2 ^ 32) (2 ^ 31) then lba % 2 ^ 32 else lba % 2 ^ 32 + (2 ^ 64 - 2 ^ 32)

-- The tests of `disk_create_new` on the hardware disk and the type.
unfoldable pub check_hardware : Option Disk → DiskType → Result (Unit {0})
check_hardware (some hardware) real = err einvarg
check_hardware none real = ok tt
check_hardware none partition = err einvarg
check_hardware (some hardware) partition = elim hardware.disk_type [
  | real ↦ ok tt
  | partition ↦ err einvarg
]

-- `disk_create_new`, where `got` says whether kzalloc succeeds and `pushed` whether vector_push
-- does.
unfoldable pub disk_create_new :
    Bool → Bool → List Disk → ℕ → Option Disk → DiskType → ℕ → ℕ → ℕ → Result Disk × List Disk
disk_create_new got pushed disks driver hardware type starting_lba ending_lba sector_size =
    let d : Disk = record {
      disk_type = type;
      id = length disks;
      sector_size = sector_size;
      starting_lba = lba_of starting_lba;
      ending_lba = lba_of ending_lba;
      driver = driver;
    } in
    if not got then (err enomem, disks) else (elim (check_hardware hardware type) [
      | err e ↦ (err e, disks)
      | ok _ ↦ (ok d, if pushed then disks ++ (d ∷ []) else disks)
    ])

-- `disk_create_partition`: disk_driver_mount_partition, with the driver of the disk, and the
-- mount_partition of drivers/nvme.c.
unfoldable pub disk_create_partition :
    Bool → Bool → List Disk → Disk → ℕ → ℕ → Result Disk × List Disk
disk_create_partition got pushed disks disk starting_lba ending_lba =
    if disk.driver == 0 then (err einvarg, disks) else (elim disk.disk_type [
      | partition ↦ (err eunimp, disks)
      | real ↦
          disk_create_new got pushed disks disk.driver (some disk) partition starting_lba ending_lba
            disk.sector_size
    ])

-- `disk_get`, for an `int`.
unfoldable pub disk_get : List Disk → ℤ → Option Disk
disk_get disks (negsuc n) = none
disk_get disks (pos index) = get_elem? disks index

-- `disk_real_sector` and `disk_real_offset`
unfoldable pub disk_real_sector : Disk → ℕ → ℕ
disk_real_sector disk lba = add64 disk.starting_lba lba

unfoldable pub disk_real_offset : Disk → ℕ → ℕ
disk_real_offset disk lba = disk_real_sector disk lba * disk.sector_size % 2 ^ 64

-- The sectors that `disk_read_block` asks its driver for: the first one and how many.
unfoldable pub read_request : Disk → ℕ → ℕ → Result (ℕ × ℕ)
read_request disk lba total =
    let absolute_lba = add64 disk.starting_lba lba in
    if ltb disk.ending_lba (add64 absolute_lba total)
      && (not (disk.starting_lba == 0) && not (disk.ending_lba == 0))
    then err eio
    else ok (absolute_lba, total)

-- `disk_read_block`, with the read of the driver, if it has one, and the state that it changes.
unfoldable pub disk_read_block :
    {A : Type 0}
    → Option (A → Disk → ℕ → ℕ → Result (Unit {0}) × A)
    → A
    → Disk
    → ℕ
    → ℕ
    → Result (Unit {0}) × A
disk_read_block read st disk lba total = elim (read_request disk lba total) [
  | err e ↦ (err e, st)
  | ok (absolute_lba, n) ↦ (elim read [ none ↦ (err eio, st) | some f ↦ f st disk absolute_lba n ])
]
