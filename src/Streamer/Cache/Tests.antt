-- ===== src/Streamer/Cache/Tests.antt =====
-- Reads through the cache of disk/streamer.c, from a partition of sectors of four bytes.
use peach_os64bit_module_two.Common.{
  ℕ, ◌↔◌, ◌+◌, ◌*◌, ◌/◌, ◌%◌, ◌<◌, ◌≡◌, inl, refl, arith, true, false, none, [],
}
use peach_os64bit_module_two.Status.{Result, ok}
use peach_os64bit_module_two.Memory.{Mem}
use peach_os64bit_module_two.Disk.{Disk, partition}
use peach_os64bit_module_two.Streamer.{Stream, diskstreamer_read}
use peach_os64bit_module_two.Streamer.Read.{Delivers}
use peach_os64bit_module_two.Streamer.Cache.{
  Cache, Answers, fetch_sector, find_place, find_index, diskstreamer_cache_find, cache_found,
  new_cache_entry, then_level, diskstreamer_cache_bucket_level1_get, level1_lookup, level1_grow,
  find_sector, update_place, same_place, diskstreamer_cache_bucket_level2_get,
  diskstreamer_cache_bucket_level3_get,
}
use peach_os64bit_module_two.Streamer.Cache.Again.{cache_find-again}
use peach_os64bit_module_two.Streamer.Cache.Places.{find_place-sectors}
use peach_os64bit_module_two.Streamer.Cache.Walk.{Succeeds}
use peach_os64bit_module_two.Streamer.Cache.Fetch.{Faithful}
use peach_os64bit_module_two.Streamer.Cache.Through.{diskstreamer_read-Faithful}

abbrev contents : ℕ → ℕ
contents p = p % 256

abbrev disk : Disk
disk = record {
  disk_type = partition;
  id = 1;
  sector_size = 4;
  starting_lba = 100;
  ending_lba = 300;
  driver = 1;
}

abbrev bytes : ℕ → ℕ → ℕ
bytes i j = contents (4 * (100 + i) + j)

abbrev read_block : ℕ → Result (ℕ → ℕ)
read_block i = ok (bytes i)

abbrev answers : ℕ → Answers
answers i = record { krealloc = true; level1 = true; level2 = true; level3 = true; sector = true }

abbrev no_memory : Answers
no_memory = record {
  krealloc = false;
  level1 = false;
  level2 = false;
  level3 = false;
  sector = false;
}

abbrev empty : Cache
empty = record {
  total = 0;
  buckets = λ _. false;
  level1_buckets = λ _ _. false;
  level2_buckets = λ _ _ _. false;
  sectors = λ _ _. none;
  total_sectors = λ _. 0;
  roundrobin_count = λ _. 0;
  queue = λ _. none;
  pos = 0;
  freed = [];
}

empty-Faithful : Faithful contents 4 empty
unfolding Faithful
empty-Faithful p index buf e = absurd (ground (arith, e))

abbrev at_six : Stream
at_six = record { pos = 6; sector_size = 4 }

abbrev zeros : Mem
zeros a = 0

all_succeed : (i : ℕ) → i < 50 → Succeeds (answers i)
all_succeed i _ = record {
  krealloc_ok = refl;
  level1_ok = refl;
  level2_ok = refl;
  level3_ok = refl;
  sector_ok = refl;
}

diskstreamer_read-Faithful_example :
    (let r = diskstreamer_read (fetch_sector answers read_block disk) empty at_six zeros 7 9 in
      Delivers (λ p. contents (4 * 100 + p)) at_six zeros 7 9 r × Faithful contents 4 r.3)
diskstreamer_read-Faithful_example =
    diskstreamer_read-Faithful answers read_block disk contents 50 bytes all_succeed (λ i _. refl)
      (λ i j _ _. refl) (omega arith) (omega arith) empty at_six zeros 7 9 empty-Faithful refl
      (omega arith) (inl (omega arith))

find_place-sectors_example :
    (((find_place 512 70000 ≡ find_place 512 70100) × (find_index 512 70000 ≡ find_index 512 70100))
      ↔ (70000 / 512 ≡ 70100 / 512))
    × ((find_place 512 70000).level2 < 1024)
    × ((find_place 512 70000).level3 < 1024)
    × (find_index 512 70000 < 64)
find_place-sectors_example =
    find_place-sectors 512 70000 70100 (omega arith) (omega arith) (omega arith)

found_new : (diskstreamer_cache_find (answers 0) 4 empty 400).0 ≡ ok new_cache_entry
unfolding diskstreamer_cache_find then_level diskstreamer_cache_bucket_level1_get level1_lookup
    level1_grow diskstreamer_cache_bucket_level2_get diskstreamer_cache_bucket_level3_get
    find_sector find_place find_index update_place same_place
found_new = refl

cache_find-again_example :
    diskstreamer_cache_find no_memory 4 (diskstreamer_cache_find (answers 0) 4 empty 400).1 400
    ≡ (ok cache_found, (diskstreamer_cache_find (answers 0) 4 empty 400).1)
cache_find-again_example =
    cache_find-again 4 400 (answers 0) no_memory empty new_cache_entry found_new
