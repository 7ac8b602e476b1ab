-- ===== src/Streamer/Cache.antt =====
-- The cache of sectors of disk/streamer.c: three levels of buckets and the round robin of those of
-- the third. `kzalloc` never returns memory in use, so that a bucket is named by the indices
-- that lead to it; `kfree` only notes which buckets it was called for, since the kernel's does
-- nothing.
pub mod Places
pub mod Walk
pub mod Fetch
pub mod Through
pub mod Again
mod Tests
use peach_os64bit_module_two.Common.{
  ℕ, zero, suc, ◌+◌, ◌-◌, ◌*◌, ◌/◌, ◌%◌, ◌^◌, Bool, true, false, ◌&&◌, Option, none, some, List, [],
  ◌∷◌, ltb, leb, ◌==◌, if◌then◌else◌, update,
}
use peach_os64bit_module_two.Status.{Result, ok, err, enomem, einval}
use peach_os64bit_module_two.Disk.{Disk, disk_real_offset}

-- A bucket of level 3, by the indices on the three levels.
pub record Place : Type 0 where
  pub level1 : ℕ
  pub level2 : ℕ
  pub level3 : ℕ

unfoldable pub same_place : Place → Place → Bool
same_place p q = (p.level1 == q.level1) && (p.level2 == q.level2) && (p.level3 == q.level3)

unfoldable pub update_place {ℓ} : {A : Type ℓ} → (Place → A) → Place → A → Place → A
update_place f p v q = if same_place q p then v else f q

-- `struct disk_stream_cache` with its buckets: which pointers on each level are set, and what the
-- buckets of level 3 hold.
pub record Cache : Type 0 where
  pub total : ℕ
  pub buckets : ℕ → Bool
  pub level1_buckets : ℕ → ℕ → Bool
  pub level2_buckets : ℕ → ℕ → ℕ → Bool
  pub sectors : Place → ℕ → Option (ℕ → ℕ)
  pub total_sectors : Place → ℕ
  pub roundrobin_count : Place → ℕ
  pub queue : ℕ → Option Place
  pub pos : ℕ
  pub freed : List Place

-- Whether the allocations of one call succeed.
pub record Answers : Type 0 where
  pub krealloc : Bool
  pub level1 : Bool
  pub level2 : Bool
  pub level3 : Bool
  pub sector : Bool

-- `diskstreamer_cache_new`
unfoldable pub diskstreamer_cache_new : Bool → Option Cache
diskstreamer_cache_new got =
    if got
    then some (record {
      total = 0;
      buckets = λ _. false;
      level1_buckets = λ _ _. false;
      level2_buckets = λ _ _ _. false;
      sectors = λ _ _. none;
      total_sectors = λ _. 0;
      roundrobin_count = λ _. 0;
      queue = λ _. none;
      pos = 0;
      freed = [];
    })
    else none

-- `diskstreamer_cache_bucket_level1_get`: the array grows, then the bucket is looked up. Each of
-- these functions returns whether it found or made the bucket.
unfoldable pub level1_grow : Cache → ℕ → Cache
level1_grow c index = record c {
  buckets = λ i. if leb c.total i && ltb i (index + 1) then false else c.buckets i;
  total = index + 1;
}

unfoldable pub level1_lookup : Answers → Cache → ℕ → Bool × Cache
level1_lookup a c index =
    if c.buckets index
    then (true, c)
    else if a.level1
    then (
      true,
      record c {
        buckets = update c.buckets index true;
        level1_buckets = update c.level1_buckets index (λ _. false);
      },
    )
    else (false, c)

unfoldable pub diskstreamer_cache_bucket_level1_get : Answers → Cache → ℕ → Bool × Cache
diskstreamer_cache_bucket_level1_get a c index =
    if leb c.total index
    then (if a.krealloc then level1_lookup a (level1_grow c index) index else (false, c))
    else level1_lookup a c index

-- `diskstreamer_cache_bucket_level2_get`, in the bucket `one` of level 1.
unfoldable pub diskstreamer_cache_bucket_level2_get : Answers → Cache → ℕ → ℕ → Bool × Cache
diskstreamer_cache_bucket_level2_get a c one index =
    if leb 1024 index
    then (false, c)
    else if c.level1_buckets one index
    then (true, c)
    else (if a.level2
        then (
          true,
          record c {
            level1_buckets = update c.level1_buckets one (update (c.level1_buckets one) index true);
            level2_buckets =
                update c.level2_buckets one (update (c.level2_buckets one) index (λ _. false));
          },
        )
        else (false, c))

-- `diskstreamer_cache_bucket_level3_get`, in the bucket `one`, `two` of level 2.
unfoldable pub diskstreamer_cache_bucket_level3_get : Answers → Cache → ℕ → ℕ → ℕ → Bool × Cache
diskstreamer_cache_bucket_level3_get a c one two index =
    let p : Place = record { level1 = one; level2 = two; level3 = index } in
    if leb 1024 index
    then (false, c)
    else if c.level2_buckets one two index
    then (true, c)
    else (if a.level3
        then (
          true,
          record c {
            level2_buckets =
                update c.level2_buckets one (
                  update (c.level2_buckets one) two (update (c.level2_buckets one two) index true));
            sectors = update_place c.sectors p (λ _. none);
            total_sectors = update_place c.total_sectors p 0;
            roundrobin_count = update_place c.roundrobin_count p 0;
          },
        )
        else (false, c))

-- `diskstreamer_cache_bucket_level3_free`: the buffers and the bucket go to kfree.
unfoldable pub diskstreamer_cache_bucket_level3_free : Cache → Place → Cache
diskstreamer_cache_bucket_level3_free c p = record c { freed = p ∷ c.freed }

-- `diskstreamer_cache_round_robin_add`: the bucket that leaves the queue, then the one that enters.
unfoldable pub roundrobin_leave : Cache → Option Place → Cache
roundrobin_leave c none = c
roundrobin_leave c (some old) =
    let count = c.roundrobin_count old - 1 in
    let left : Cache = record c { roundrobin_count = update_place c.roundrobin_count old count } in
    if count == 0 then diskstreamer_cache_bucket_level3_free left old else left

unfoldable pub diskstreamer_cache_round_robin_add : Cache → Place → Cache
diskstreamer_cache_round_robin_add c p =
    let index = c.pos % 1024 in
    let left = roundrobin_leave c (c.queue index) in
    record left {
      queue = update left.queue index (some p);
      roundrobin_count = update_place left.roundrobin_count p (left.roundrobin_count p + 1);
      pos = left.pos + 1;
    }

pub data CacheStatus : Type 0 where
  cache_found new_cache_entry : CacheStatus

-- Where `diskstreamer_cache_find` looks for a position: DISK_STREAM_BUCKET3_BYTE_SIZE and its
-- like, the bucket, and the index of the sector in it.
abbrev pub bucket3_size : ℕ → ℕ
bucket3_size sector_size = 64 * sector_size

abbrev pub bucket2_size : ℕ → ℕ
bucket2_size sector_size = bucket3_size sector_size * 1024

abbrev pub bucket1_size : ℕ → ℕ
bucket1_size sector_size = bucket2_size sector_size * 1024

unfoldable pub find_place : ℕ → ℕ → Place
find_place sector_size pos = record {
  level1 = pos / bucket1_size sector_size;
  level2 = pos % bucket1_size sector_size / bucket2_size sector_size;
  level3 = pos % bucket1_size sector_size % bucket2_size sector_size / bucket3_size sector_size;
}

unfoldable pub find_index : ℕ → ℕ → ℕ
find_index sector_size pos =
    let pos_in_level3 =
      pos % bucket1_size sector_size % bucket2_size sector_size % bucket3_size sector_size in
    pos_in_level3 % (64 * 8 * sector_size) / sector_size

-- A level that is missing ends the search with -EINVAL.
unfoldable pub then_level {ℓ} :
    {A : Type ℓ} → Bool × Cache → (Cache → Result A × Cache) → Result A × Cache
then_level r next = if r.0 then next r.1 else (err einval, r.1)

-- The sector in its bucket, made with zeros where it is missing.
unfoldable pub find_sector : Answers → Place → ℕ → Cache → Result CacheStatus × Cache
find_sector a p index c = elim (c.sectors p index) [
  | some buf ↦ (ok cache_found, c)
  | none ↦
      if a.sector
      then (
        ok new_cache_entry,
        diskstreamer_cache_round_robin_add
            (record c {
              sectors = update_place c.sectors p (update (c.sectors p) index (some (λ _. 0)));
              total_sectors = update_place c.total_sectors p (c.total_sectors p + 1);
            })
            p,
      )
      else (err enomem, c)
]

-- `diskstreamer_cache_find`, of a disk that has a cache and for a position that is not negative.
unfoldable pub diskstreamer_cache_find : Answers → ℕ → Cache → ℕ → Result CacheStatus × Cache
diskstreamer_cache_find a sector_size c position =
    let p = find_place sector_size position in
    then_level (diskstreamer_cache_bucket_level1_get a c p.level1) (λ c1.
      then_level (diskstreamer_cache_bucket_level2_get a c1 p.level1 p.level2) (λ c2.
        then_level (diskstreamer_cache_bucket_level3_get a c2 p.level1 p.level2 p.level3)
          (λ c3. find_sector a p (find_index sector_size position) c3)))

-- The buffer that `cache_sector` points at.
unfoldable pub sector_buf : Cache → Place → ℕ → ℕ → ℕ
sector_buf c p index = elim (c.sectors p index) [ some buf ↦ buf | none ↦ λ _. 0 ]

-- What disk_read_block leaves in the buffer: a sector, before what the buffer had.
unfoldable pub fill_sector : ℕ → (ℕ → ℕ) → (ℕ → ℕ) → ℕ → ℕ
fill_sector sector_size bytes buf j = if ltb j sector_size then bytes j else buf j

unfoldable pub read_new : ℕ → Cache → Place → ℕ → Result (ℕ → ℕ) → Result (ℕ → ℕ) × Cache
read_new sector_size c p index (err e) = (err e, c)
read_new sector_size c p index (ok bytes) =
    let buf = fill_sector sector_size bytes (sector_buf c p index) in
    (
      ok buf,
      record c { sectors = update_place c.sectors p (update (c.sectors p) index (some buf)) },
    )

-- What `diskstreamer_read` does about one sector: the cache, and behind it the disk.
unfoldable pub cached_sector :
    ℕ → Result (ℕ → ℕ) → Place → ℕ → Result CacheStatus × Cache → Result (ℕ → ℕ) × Cache
cached_sector sector_size block p index (err e, c) = (err e, c)
cached_sector sector_size block p index (ok cache_found, c) = (ok (sector_buf c p index), c)
cached_sector sector_size block p index (ok new_cache_entry, c) =
    read_new sector_size c p index block

-- The place is that of the first byte of the sector on the whole disk, as an `int`.
unfoldable pub fetch_sector :
    (ℕ → Answers) → (ℕ → Result (ℕ → ℕ)) → Disk → Cache → ℕ → Result (ℕ → ℕ) × Cache
fetch_sector answers read_block disk c i =
    let real_offset = disk_real_offset disk i % 2 ^ 32 in
    cached_sector disk.sector_size (read_block i) (find_place disk.sector_size real_offset)
      (find_index disk.sector_size real_offset)
      (diskstreamer_cache_find (answers i) disk.sector_size c real_offset)
