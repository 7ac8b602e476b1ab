-- ===== src/Disk/Bounds.antt =====
-- The bounds of the disks of disk/disk.c.
use peach_os64bit_module_two.Common.{
  ℕ, ◌+◌, ◌-◌, ◌^◌, ◌<◌, ◌≤◌, ◌≡◌, ◌≢◌, ◌⊎◌, inl, inr, refl, Bool-cases, arith, Option, some, ltb,
  add64,
}
use peach_os64bit_module_two.Status.{Result, ok, err, eio}
use peach_os64bit_module_two.Disk.{Disk, read_request, disk_read_block}

-- A request that a partition lets through, with sectors that do not wrap, stays within its sectors.
request-within :
    (disk : Disk) (lba total : ℕ)
    → disk.starting_lba ≢ 0
    → disk.ending_lba ≢ 0
    → disk.starting_lba + lba + total < 2 ^ 64
    → (read_request disk lba total ≡ err eio)
      ⊎ ((read_request disk lba total ≡ ok (disk.starting_lba + lba, total))
          × (disk.starting_lba + lba + total ≤ disk.ending_lba))
unfolding read_request
request-within disk lba total some_start some_end bound =
    elim (Bool-cases (ltb disk.ending_lba (disk.starting_lba + lba + total))) [
      | inl beyond ↦ inl (ground (arith, beyond, some_start, some_end, bound))
      | inr inside ↦
          let first : add64 disk.starting_lba lba ≡ disk.starting_lba + lba =
            omega (arith, bound) in
          inr (ground (arith, inside, bound, first), ground (arith, inside))
    ]

-- Whatever its driver is, a partition is read by disk_read_block only within its sectors: a request
-- whose sectors do not wrap is refused with -EIO, or the driver is asked for sectors from the first
-- one of the partition on that end before or at its ending LBA.
pub disk_read_block-within :
    {A : Type 0} (read : A → Disk → ℕ → ℕ → Result (Unit {0}) × A) (st : A) (disk : Disk)
    (lba total : ℕ)
    → disk.starting_lba ≢ 0
    → disk.ending_lba ≢ 0
    → disk.starting_lba + lba + total < 2 ^ 64
    → (disk_read_block (some read) st disk lba total ≡ (err eio, st))
      ⊎ ((disk_read_block (some read) st disk lba total
            ≡ read st disk (disk.starting_lba + lba) total)
          × (disk.starting_lba + lba + total ≤ disk.ending_lba))
unfolding disk_read_block
disk_read_block-within read st disk lba total some_start some_end bound =
    elim (request-within disk lba total some_start some_end bound) [
      | inl refused ↦ inl (rw (disk_read_block, refused) refl)
      | inr (asked, inside) ↦ inr (rw (disk_read_block, asked) refl, inside)
    ]

last-refused :
    (disk : Disk)
    → 0 < disk.starting_lba
    → disk.starting_lba ≤ disk.ending_lba
    → disk.ending_lba + 1 < 2 ^ 64
    → read_request disk (disk.ending_lba - disk.starting_lba) 1 ≡ err eio
unfolding read_request
last-refused disk some_start order bound = ground (arith, some_start, order, bound)

-- The sector at the ending LBA of a partition, which a partition table counts as part of it, is
-- refused by disk_read_block.
pub disk_read_block-last :
    {A : Type 0} (read : Option (A → Disk → ℕ → ℕ → Result (Unit {0}) × A)) (st : A) (disk : Disk)
    → 0 < disk.starting_lba
    → disk.starting_lba ≤ disk.ending_lba
    → disk.ending_lba + 1 < 2 ^ 64
    → disk_read_block read st disk (disk.ending_lba - disk.starting_lba) 1 ≡ (err eio, st)
unfolding disk_read_block
disk_read_block-last read st disk some_start order bound =
    rw (disk_read_block, last-refused disk some_start order bound) refl
