-- ===== src/Streamer.antt =====
-- The disk streams of disk/streamer.c. `fetch` stands for diskstreamer_cache_find and the
-- disk_read_block behind it: the buffer of a sector, or an error, and the state of the cache and
-- the disk after it.
pub mod Cache
pub mod Read
pub mod Whole
mod Tests
use peach_os64bit_module_two.Common.{
  ℕ, zero, suc, ◌+◌, ◌-◌, ◌/◌, ◌%◌, ◌^◌, ltb, ◌==◌, if◌then◌else◌, update,
}
use peach_os64bit_module_two.Status.{Result, ok, err}
use peach_os64bit_module_two.Memory.{Mem}

-- `struct disk_stream`; a position and a count are `int`s, not negative and within its range.
pub record Stream : Type 0 where
  pub pos : ℕ
  pub sector_size : ℕ

-- `diskstreamer_seek`
unfoldable pub diskstreamer_seek : Stream → ℕ → Stream
diskstreamer_seek stream pos = record stream { pos = pos }

-- `*(char*)out++ = cache_sector->buf[offset_in_sector+j];`, `rounds` more times.
unfoldable pub copy_loop : ℕ → Mem → ℕ → (ℕ → ℕ) → ℕ → ℕ → Mem
copy_loop zero m out buf offset j = m
copy_loop (suc rounds) m out buf offset j =
    copy_loop rounds (update m out (buf (offset + j))) (out + 1) buf offset (j + 1)

-- The sectors from `starting_sector` to `ending_sector`.
abbrev pub starting_sector : ℕ → ℕ → ℕ
starting_sector offset size = (if offset % size == 0 then offset else offset - offset % size) / size

abbrev pub aligned_up : ℕ → ℕ → ℕ
aligned_up final size = if final % size == 0 then final else final + (size - final % size)

abbrev pub amount_read : ℕ → ℕ → ℕ → ℕ
amount_read pos size total = if ltb total size then total else size - pos % size

-- A failed read leaves the bytes read before it and the position there.
module _ {A : Type 0} (fetch : A → ℕ → Result (ℕ → ℕ) × A) where
  -- The loop over the sectors, `rounds` more, at sector `i`.
  unfoldable pub read_loop : ℕ → ℕ → A → Stream → Mem → ℕ → ℕ → Result (Unit {0}) × Stream × Mem × A
  read_loop zero i st stream m out total = (ok tt, stream, m, st)
  read_loop (suc rounds) i st stream m out total = elim (fetch st i).0 [
    | err e ↦ (err e, stream, m, (fetch st i).1)
    | ok buf ↦
        let amount = amount_read stream.pos stream.sector_size total in
        read_loop rounds (i + 1) (fetch st i).1 (record stream { pos = stream.pos + amount })
          (copy_loop amount m out buf (stream.pos % stream.sector_size) 0) (out + amount)
          (total - amount)
  ]

  -- `diskstreamer_read`. An end that is no `int` wraps to a negative one, and nothing is read.
  unfoldable pub diskstreamer_read : A → Stream → Mem → ℕ → ℕ → Result (Unit {0}) × Stream × Mem × A
  diskstreamer_read st stream m out total =
      let first = starting_sector stream.pos stream.sector_size in
      let final = aligned_up (stream.pos + total) stream.sector_size in
      let last = final / stream.sector_size in
      if ltb final (2 ^ 31)
      then read_loop (last + 1 - first) first st stream m out total
      else (ok tt, stream, m, st)
