-- ===== src/Streamer/Cache/Again.antt =====
-- A sector that `diskstreamer_cache_find` of disk/streamer.c has given is found again.
use peach_os64bit_module_two.Common.{
  ℕ, ◌-◌, ◌%◌, ◌≡◌, inl, inr, refl, Bool, true, false, Option, none, some, leb, ◌==◌, arith, ap,
  ◌∙◌, Bool-cases, Option-cases,
}
use peach_os64bit_module_two.Status.{Result, ok}
use peach_os64bit_module_two.Streamer.Cache.{
  Place, Cache, Answers, CacheStatus, cache_found, update_place, level1_grow, level1_lookup,
  diskstreamer_cache_bucket_level1_get, diskstreamer_cache_bucket_level2_get,
  diskstreamer_cache_bucket_level3_get, roundrobin_leave, diskstreamer_cache_round_robin_add,
  then_level, find_sector, diskstreamer_cache_find, find_place, find_index,
  diskstreamer_cache_bucket_level3_free,
}
use peach_os64bit_module_two.Streamer.Cache.Walk.{same_place_refl}

-- The pointers on the three levels lead to a bucket.
abbrev Leads1 : Cache → ℕ → Type 0
Leads1 c i = (leb c.total i ≡ false) × (c.buckets i ≡ true)

abbrev Leads2 : Cache → ℕ → ℕ → Type 0
Leads2 c i j = Leads1 c i × (leb 1024 j ≡ false) × (c.level1_buckets i j ≡ true)

abbrev Leads3 : Cache → ℕ → ℕ → ℕ → Type 0
Leads3 c i j k = Leads2 c i j × (leb 1024 k ≡ false) × (c.level2_buckets i j k ≡ true)

level1_hit :
    (a : Answers) (c : Cache) (i : ℕ)
    → Leads1 c i
    → diskstreamer_cache_bucket_level1_get a c i ≡ (true, c)
unfolding diskstreamer_cache_bucket_level1_get level1_lookup
level1_hit a c i (inside, set) = rw (inside, set) refl

level2_hit :
    (a : Answers) (c : Cache) (i j : ℕ)
    → Leads2 c i j
    → diskstreamer_cache_bucket_level2_get a c i j ≡ (true, c)
unfolding diskstreamer_cache_bucket_level2_get
level2_hit a c i j (one, inside, set) = rw (inside, set) refl

level3_hit :
    (a : Answers) (c : Cache) (i j k : ℕ)
    → Leads3 c i j k
    → diskstreamer_cache_bucket_level3_get a c i j k ≡ (true, c)
unfolding diskstreamer_cache_bucket_level3_get
level3_hit a c i j k (two, inside, set) = rw (inside, set) refl

level1_lookup-Leads1 :
    (a : Answers) (c : Cache) (i : ℕ)
    → leb c.total i ≡ false
    → (level1_lookup a c i).0 ≡ true
    → Leads1 (level1_lookup a c i).1 i
unfolding level1_lookup
level1_lookup-Leads1 a c i inside = elim (Bool-cases (c.buckets i)) [
  | inl here ↦ rw here (λ _. (inside, here))
  | inr missing ↦ elim (Bool-cases a.level1) [
    | inl got ↦ simp (missing, got) (λ _. (inside, ground arith))
    | inr failed ↦ simp (missing, failed) (λ e. absurd (ground (arith, e)))
  ]
]

level1_get-Leads1 :
    (a : Answers) (c : Cache) (i : ℕ)
    → (diskstreamer_cache_bucket_level1_get a c i).0 ≡ true
    → Leads1 (diskstreamer_cache_bucket_level1_get a c i).1 i
unfolding diskstreamer_cache_bucket_level1_get level1_grow
level1_get-Leads1 a c i = elim (Bool-cases (leb c.total i)) [
  | inl grows ↦ elim (Bool-cases a.krealloc) [
    | inl got ↦ simp (grows, got) (level1_lookup-Leads1 a (level1_grow c i) i (ground arith))
    | inr failed ↦ simp (grows, failed) (λ e. absurd (ground (arith, e)))
  ]
  | inr fits ↦ simp fits (level1_lookup-Leads1 a c i fits)
]

level2_get-Leads2 :
    (a : Answers) (c : Cache) (i j : ℕ)
    → Leads1 c i
    → (diskstreamer_cache_bucket_level2_get a c i j).0 ≡ true
    → Leads2 (diskstreamer_cache_bucket_level2_get a c i j).1 i j
unfolding diskstreamer_cache_bucket_level2_get
level2_get-Leads2 a c i j one = elim (Bool-cases (leb 1024 j)) [
  | inl beyond ↦ rw beyond (λ e. absurd (ground (arith, e)))
  | inr inside ↦ elim (Bool-cases (c.level1_buckets i j)) [
    | inl here ↦ rw (inside, here) (λ _. (one, refl, here))
    | inr missing ↦ elim (Bool-cases a.level2) [
      | inl got ↦ rw (inside, missing, got) (λ _. (one, refl, ground arith))
      | inr failed ↦ rw (inside, missing, failed) (λ e. absurd (ground (arith, e)))
    ]
  ]
]

level3_get-Leads3 :
    (a : Answers) (c : Cache) (i j k : ℕ)
    → Leads2 c i j
    → (diskstreamer_cache_bucket_level3_get a c i j k).0 ≡ true
    → Leads3 (diskstreamer_cache_bucket_level3_get a c i j k).1 i j k
unfolding diskstreamer_cache_bucket_level3_get
level3_get-Leads3 a c i j k two = elim (Bool-cases (leb 1024 k)) [
  | inl beyond ↦ rw beyond (λ e. absurd (ground (arith, e)))
  | inr inside ↦ elim (Bool-cases (c.level2_buckets i j k)) [
    | inl here ↦ rw (inside, here) (λ _. (two, refl, here))
    | inr missing ↦ elim (Bool-cases a.level3) [
      | inl got ↦ rw (inside, missing, got) (λ _. (two, refl, ground arith))
      | inr failed ↦ rw (inside, missing, failed) (λ e. absurd (ground (arith, e)))
    ]
  ]
]

-- The bucket of a place and a sector in it.
record Held (c : Cache) (p : Place) (index : ℕ) : Type 0 where
  ways : Leads3 c p.level1 p.level2 p.level3
  buf : ℕ → ℕ
  there : c.sectors p index ≡ some buf

-- The round robin changes none of the pointers.
leave-Held :
    (c : Cache) (o : Option Place) (p : Place) (index : ℕ)
    → Held c p index
    → Held (roundrobin_leave c o) p index
unfolding roundrobin_leave diskstreamer_cache_bucket_level3_free
leave-Held c none p index h = h
leave-Held c (some old) p index h = elim (Bool-cases (c.roundrobin_count old - 1 == 0)) [
  | inl last ↦ rw last (record { ways = h.ways; buf = h.buf; there = h.there })
  | inr more ↦ rw more (record { ways = h.ways; buf = h.buf; there = h.there })
]

add-Held :
    (c : Cache) (q p : Place) (index : ℕ)
    → Held c p index
    → Held (diskstreamer_cache_round_robin_add c q) p index
unfolding diskstreamer_cache_round_robin_add
add-Held c q p index h =
    let left = leave-Held c (c.queue (c.pos % 1024)) p index h in
    record { ways = left.ways; buf = left.buf; there = left.there }

find_sector-Held :
    (a : Answers) (c : Cache) (p : Place) (index : ℕ) (status : CacheStatus)
    → Leads3 c p.level1 p.level2 p.level3
    → (find_sector a p index c).0 ≡ ok status
    → Held (find_sector a p index c).1 p index
unfolding find_sector update_place
find_sector-Held a c p index status ways = elim (Option-cases (c.sectors p index)) [
  | inl missing ↦ elim (Bool-cases a.sector) [
    | inl got ↦
        rw (find_sector, missing, got)
          (λ _.
            add-Held _ p p index
              (record { ways = ways; buf = λ _. 0; there = ground (arith, same_place_refl p) }))
    | inr failed ↦ rw (find_sector, missing, failed) (λ e. absurd (ground (arith, e)))
  ]
  | inr (b, here) ↦ rw (find_sector, here) (λ _. record { ways = ways; buf = b; there = here })
]

then_level-ok :
    (P : Cache → Type 0) (r : Bool × Cache) (next : Cache → Result CacheStatus × Cache)
    (status : CacheStatus)
    → (r.0 ≡ true → (next r.1).0 ≡ ok status → P (next r.1).1)
    → (then_level r next).0 ≡ ok status
    → P (then_level r next).1
unfolding then_level
then_level-ok P (true, c) next status k e = k refl e
then_level-ok P (false, c) next status k e = absurd (ground (arith, e))

then_level-hit :
    (r : Bool × Cache) (c : Cache) (next : Cache → Result CacheStatus × Cache)
    → r ≡ (true, c)
    → then_level r next ≡ next c
unfolding then_level
then_level-hit r c next hit = ap (λ z. then_level z next) hit

find_sector-hit :
    (a : Answers) (c : Cache) (p : Place) (index : ℕ) (buf : ℕ → ℕ)
    → c.sectors p index ≡ some buf
    → find_sector a p index c ≡ (ok cache_found, c)
unfolding find_sector
find_sector-hit a c p index buf there = rw (find_sector, there) refl

module _ (size pos : ℕ) where
  abbrev place : Place
  place = find_place size pos

  cache_find-Held :
      (a : Answers) (c : Cache) (status : CacheStatus)
      → (diskstreamer_cache_find a size c pos).0 ≡ ok status
      → Held (diskstreamer_cache_find a size c pos).1 place (find_index size pos)
  unfolding diskstreamer_cache_find
  cache_find-Held a c status =
      let P : Cache → Type 0 = λ c'. Held c' place (find_index size pos) in
      then_level-ok P (diskstreamer_cache_bucket_level1_get a c place.level1) _ status (λ yes1.
        let one = level1_get-Leads1 a c place.level1 yes1 in
        then_level-ok P _ _ status (λ yes2.
          let two = level2_get-Leads2 a _ place.level1 place.level2 one yes2 in
          then_level-ok P _ _ status (λ yes3.
            find_sector-Held a _ place (find_index size pos) status
              (level3_get-Leads3 a _ place.level1 place.level2 place.level3 two yes3))))

  cache_find-hit :
      (a : Answers) (c : Cache)
      → Held c place (find_index size pos)
      → diskstreamer_cache_find a size c pos ≡ (ok cache_found, c)
  unfolding diskstreamer_cache_find
  cache_find-hit a c h =
      let two = h.ways.0 in
      then_level-hit _ c _ (level1_hit a c place.level1 two.0)
      ∙ then_level-hit _ c _ (level2_hit a c place.level1 place.level2 two)
      ∙ then_level-hit _ c _ (level3_hit a c place.level1 place.level2 place.level3 h.ways)
      ∙ find_sector-hit a c place (find_index size pos) h.buf h.there

  -- Once `diskstreamer_cache_find` gives a sector, it finds it again in the cache that it leaves,
  -- without an allocation, and that search changes nothing.
  pub cache_find-again :
      (a again : Answers) (c : Cache) (status : CacheStatus)
      → (diskstreamer_cache_find a size c pos).0 ≡ ok status
      → diskstreamer_cache_find again size (diskstreamer_cache_find a size c pos).1 pos
        ≡ (ok cache_found, (diskstreamer_cache_find a size c pos).1)
  cache_find-again a again c status given =
      cache_find-hit again _ (cache_find-Held a c status given)
