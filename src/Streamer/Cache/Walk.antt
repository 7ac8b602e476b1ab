-- ===== src/Streamer/Cache/Walk.antt =====
-- The walk of `diskstreamer_cache_find` of disk/streamer.c through the levels of the cache.
use peach_os64bit_module_two.Common.{
  ℕ, ◌-◌, ◌%◌, ◌<◌, ◌≡◌, inl, inr, refl, arith, Bool, true, false, Option, none, some, leb, ◌==◌,
  if◌then◌else◌, update, ap, ◌∙◌, sym, Bool-cases, Option-cases,
}
use peach_os64bit_module_two.Status.{Result, ok}
use peach_os64bit_module_two.Streamer.Cache.{
  Place, Cache, Answers, CacheStatus, cache_found, new_cache_entry, same_place, update_place,
  level1_grow, level1_lookup, diskstreamer_cache_bucket_level1_get,
  diskstreamer_cache_bucket_level2_get, diskstreamer_cache_bucket_level3_get, roundrobin_leave,
  diskstreamer_cache_round_robin_add, then_level, find_sector, diskstreamer_cache_find, find_place,
  find_index, diskstreamer_cache_bucket_level3_free,
}
use peach_os64bit_module_two.Streamer.Cache.Places.{place_level2, place_level3}

-- Every allocation of a call succeeds.
pub record Succeeds (a : Answers) : Type 0 where
  pub krealloc_ok : a.krealloc ≡ true
  pub level1_ok : a.level1 ≡ true
  pub level2_ok : a.level2 ≡ true
  pub level3_ok : a.level3 ≡ true
  pub sector_ok : a.sector ≡ true

pub same_place_lem : (p q : Place) → same_place p q ≡ true → p ≡ q
unfolding same_place
same_place_lem p q same =
    let one : p.level1 ≡ q.level1 = ground (arith, same) in
    let two : p.level2 ≡ q.level2 = ground (arith, same) in
    let three : p.level3 ≡ q.level3 = ground (arith, same) in
    ap (λ k. record { level1 = k; level2 = p.level2; level3 = p.level3 }) one
    ∙ ap (λ k. record { level1 = q.level1; level2 = k; level3 = p.level3 }) two
    ∙ ap (λ k. record { level1 = q.level1; level2 = q.level2; level3 = k }) three

pub same_place_refl : (p : Place) → same_place p p ≡ true
unfolding same_place
same_place_refl p = ground arith

-- A step of the walk gives a bucket, and no sector is added.
record Opens (c : Cache) (r : Bool × Cache) : Type 0 where
  there : r.0 ≡ true
  keeps :
      (p : Place) (index : ℕ) (buf : ℕ → ℕ)
      → r.1.sectors p index ≡ some buf
      → c.sectors p index ≡ some buf

same-Opens : (c c' : Cache) → c'.sectors ≡ c.sectors → Opens c (true, c')
same-Opens c c' same = record {
  there = refl;
  keeps = λ p index buf e. sym (ap (λ s. s p index) same) ∙ e;
}

level1_lookup-Opens :
    (a : Answers) (c : Cache) (index : ℕ) → a.level1 ≡ true → Opens c (level1_lookup a c index)
unfolding level1_lookup
level1_lookup-Opens a c index got = elim (Bool-cases (c.buckets index)) [
  | inl here ↦ rw here (same-Opens c c refl)
  | inr missing ↦ rw (missing, got) (same-Opens c _ refl)
]

if_Opens :
    (c : Cache) (b : Bool) (r r' : Bool × Cache)
    → b ≡ true
    → Opens c r
    → Opens c (if b then r else r')
if_Opens c true r r' e o = o
if_Opens c false r r' e o = absurd (ground (arith, e))

level1_get-Opens :
    (a : Answers) (c : Cache) (index : ℕ)
    → Succeeds a
    → Opens c (diskstreamer_cache_bucket_level1_get a c index)
unfolding diskstreamer_cache_bucket_level1_get level1_grow
level1_get-Opens a c index s = elim (Bool-cases (leb c.total index)) [
  | inl grows ↦
      let o = level1_lookup-Opens a (level1_grow c index) index s.level1_ok in
      rw grows
        (if_Opens c a.krealloc _ _ s.krealloc_ok (record { there = o.there; keeps = o.keeps }))
  | inr fits ↦ rw fits (level1_lookup-Opens a c index s.level1_ok)
]

level2_get-Opens :
    (a : Answers) (c : Cache) (one index : ℕ)
    → Succeeds a
    → index < 1024
    → Opens c (diskstreamer_cache_bucket_level2_get a c one index)
unfolding diskstreamer_cache_bucket_level2_get
level2_get-Opens a c one index s low =
    let inside : leb 1024 index ≡ false = ground (arith, low) in
    elim (Bool-cases (c.level1_buckets one index)) [
      | inl here ↦ rw (inside, here) (same-Opens c c refl)
      | inr missing ↦ rw (inside, missing, s.level2_ok) (same-Opens c _ refl)
    ]

cleared_lem :
    (f : Place → ℕ → Option (ℕ → ℕ)) (p q : Place) (index : ℕ) (buf : ℕ → ℕ)
    → update_place f p (λ _. none) q index ≡ some buf
    → f q index ≡ some buf
unfolding update_place
cleared_lem f p q index buf = elim (Bool-cases (same_place q p)) [
  | inl here ↦ rw here (λ e. absurd (ground (arith, e)))
  | inr away ↦ rw away (λ e. e)
]

level3_get-Opens :
    (a : Answers) (c : Cache) (one two index : ℕ)
    → Succeeds a
    → index < 1024
    → Opens c (diskstreamer_cache_bucket_level3_get a c one two index)
unfolding diskstreamer_cache_bucket_level3_get
level3_get-Opens a c one two index s low =
    let inside : leb 1024 index ≡ false = ground (arith, low) in
    elim (Bool-cases (c.level2_buckets one two index)) [
      | inl here ↦ rw (inside, here) (same-Opens c c refl)
      | inr missing ↦
          rw (inside, missing, s.level3_ok)
            (record { there = refl; keeps = λ p k buf e. cleared_lem c.sectors _ p k buf e })
    ]

-- The round robin changes no sector.
roundrobin_leave-sectors :
    (c : Cache) (o : Option Place) → (roundrobin_leave c o).sectors ≡ c.sectors
unfolding roundrobin_leave diskstreamer_cache_bucket_level3_free
roundrobin_leave-sectors c none = refl
roundrobin_leave-sectors c (some old) = elim (Bool-cases (c.roundrobin_count old - 1 == 0)) [
  | inl last ↦ rw last refl
  | inr more ↦ rw more refl
]

round_robin-sectors :
    (c : Cache) (p : Place) → (diskstreamer_cache_round_robin_add c p).sectors ≡ c.sectors
unfolding diskstreamer_cache_round_robin_add
round_robin-sectors c p = roundrobin_leave-sectors c (c.queue (c.pos % 1024))

-- The answer of a cache that has the sector, or has made it.
pub data Answered (c : Cache) (p : Place) (index : ℕ) : Result CacheStatus × Cache → Type 0 where
  had :
      (c' : Cache) (buf : ℕ → ℕ)
      → ((q : Place) (k : ℕ) (b : ℕ → ℕ) → c'.sectors q k ≡ some b → c.sectors q k ≡ some b)
      → c'.sectors p index ≡ some buf
      → Answered c p index (ok cache_found, c')
  made :
      (c' c'' : Cache)
      → ((q : Place) (k : ℕ) (b : ℕ → ℕ) → c'.sectors q k ≡ some b → c.sectors q k ≡ some b)
      → c''.sectors ≡ update_place c'.sectors p (update (c'.sectors p) index (some (λ _. 0)))
      → Answered c p index (ok new_cache_entry, c'')

then_level-lem :
    (P : Result CacheStatus × Cache → Type 0) (c : Cache) (r : Bool × Cache)
    (next : Cache → Result CacheStatus × Cache)
    → Opens c r
    → P (next r.1)
    → P (then_level r next)
unfolding then_level
then_level-lem P c r next o p = rw (o.there) p

find_sector-Answered :
    (a : Answers) (c c' : Cache) (p : Place) (index : ℕ)
    → a.sector ≡ true
    → ((q : Place) (k : ℕ) (b : ℕ → ℕ) → c'.sectors q k ≡ some b → c.sectors q k ≡ some b)
    → Answered c p index (find_sector a p index c')
unfolding find_sector
find_sector-Answered a c c' p index got keeps = elim (Option-cases (c'.sectors p index)) [
  | inl missing ↦ rw (find_sector, missing, got) (made c' _ keeps (round_robin-sectors _ p))
  | inr (buf, here) ↦ rw (find_sector, here) (had c' buf keeps here)
]

-- The walk finds or makes the sector where every allocation succeeds.
pub cache_find-Answered :
    (a : Answers) (size : ℕ) (c : Cache) (pos : ℕ)
    → Succeeds a
    → 0 < size
    → Answered c (find_place size pos) (find_index size pos) (diskstreamer_cache_find a size c pos)
unfolding diskstreamer_cache_find
cache_find-Answered a size c pos s positive =
    let p : Place = find_place size pos in
    let o1 = level1_get-Opens a c p.level1 s in
    let c1 : Cache = (diskstreamer_cache_bucket_level1_get a c p.level1).1 in
    let o2 = level2_get-Opens a c1 p.level1 p.level2 s (place_level2 size pos positive) in
    let c2 : Cache = (diskstreamer_cache_bucket_level2_get a c1 p.level1 p.level2).1 in
    let o3 = level3_get-Opens a c2 p.level1 p.level2 p.level3 s (place_level3 size pos positive) in
    then_level-lem (Answered c p (find_index size pos)) c _ _ o1 (
      then_level-lem (Answered c p (find_index size pos)) c1 _ _ o2 (
        then_level-lem (Answered c p (find_index size pos)) c2 _ _ o3 (
          find_sector-Answered a c _ p (find_index size pos) s.sector_ok
            (λ q k b e. o1.keeps q k b (o2.keeps q k b (o3.keeps q k b e))))))
