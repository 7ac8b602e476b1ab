-- ===== src/Streamer/Cache/Fetch.antt =====
-- A sector through the cache of disk/streamer.c.
use peach_os64bit_module_two.Common.{
  ℕ, ◌+◌, ◌*◌, ◌/◌, ◌%◌, ◌^◌, ◌<◌, ◌≤◌, ◌≡◌, inl, inr, refl, arith, true, false, Option, none, some,
  ltb, ◌==◌, update, ap, ◌∙◌, sym, subst, Bool-cases,
}
use peach_os64bit_module_two.Status.{Result, ok}
use native.Mathlib.Nat.{mul-div_cancel_left, mod-eq_of_lt, mul_comm, le-mul_of_pos_right}
use peach_os64bit_module_two.Disk.{Disk, disk_real_sector, disk_real_offset}
use peach_os64bit_module_two.Streamer.Cache.{
  fetch_sector, Place, Cache, Answers, CacheStatus, same_place, update_place, sector_buf,
  fill_sector, read_new, cached_sector, find_place, find_index,
}
use peach_os64bit_module_two.Streamer.Cache.Places.{sector_number, sector_number-find}
use peach_os64bit_module_two.Streamer.Cache.Walk.{
  Succeeds, same_place_lem, same_place_refl, Answered, had, made, cache_find-Answered,
}

-- Every sector of the cache has the bytes that `disk` has there.
unfoldable pub Faithful : (ℕ → ℕ) → ℕ → Cache → Type 0
Faithful disk size c =
    (p : Place) (index : ℕ) (buf : ℕ → ℕ)
    → c.sectors p index ≡ some buf
    → (j : ℕ) → j < size
    → buf j ≡ disk (size * sector_number p index + j)

-- A sector of the disk is given, and the cache stays true to the disk.
pub record Gives (disk : ℕ → ℕ) (size number : ℕ) (r : Result (ℕ → ℕ) × Cache) : Type 0 where
  pub buffer : ℕ → ℕ
  pub found : r.0 ≡ ok buffer
  pub content : (j : ℕ) → j < size → buffer j ≡ disk (size * number + j)
  pub stays : Faithful disk size r.1

place_same {ℓ} :
    {A : Type ℓ} (f : Place → A) (p : Place) (v : A) (q : Place)
    → same_place q p ≡ true
    → update_place f p v q ≡ v
unfolding update_place
place_same f p v q here = rw here refl

place_other {ℓ} :
    {A : Type ℓ} (f : Place → A) (p : Place) (v : A) (q : Place)
    → same_place q p ≡ false
    → update_place f p v q ≡ f q
unfolding update_place
place_other f p v q away = rw away refl

update_same {ℓ} :
    {A : Type ℓ} (f : ℕ → A) (i : ℕ) (v : A) (k : ℕ) → (k == i) ≡ true → update f i v k ≡ v
update_same f i v k here = rw here refl

update_other {ℓ} :
    {A : Type ℓ} (f : ℕ → A) (i : ℕ) (v : A) (k : ℕ) → (k == i) ≡ false → update f i v k ≡ f k
update_other f i v k away = rw away refl

abbrev held : Option (ℕ → ℕ) → ℕ → ℕ
held none = λ _. 0
held (some b) = b

module _ (disk : ℕ → ℕ) (size : ℕ) (c : Cache) (faithful : Faithful disk size c) (p : Place)
    (index : ℕ) (bytes : ℕ → ℕ)
    (right : (j : ℕ) → j < size → bytes j ≡ disk (size * sector_number p index + j)) where
  filled_lem :
      (buf : ℕ → ℕ) (j : ℕ)
      → j < size
      → fill_sector size bytes buf j ≡ disk (size * sector_number p index + j)
  unfolding fill_sector
  filled_lem buf j low =
      let inside : ltb j size ≡ true = ground (arith, low) in rw inside (right j low)

  -- A sector that the cache had, or the one that has just been read.
  replaced_lem :
      (c' : Cache) (old new : ℕ → ℕ)
      → ((q : Place) (k : ℕ) (b : ℕ → ℕ) → c'.sectors q k ≡ some b → c.sectors q k ≡ some b)
      → ((j : ℕ) → j < size → new j ≡ disk (size * sector_number p index + j))
      → (f : Place → ℕ → Option (ℕ → ℕ))
      → f ≡ update_place c'.sectors p (update (c'.sectors p) index (some old))
      → (q : Place) (k : ℕ) (b : ℕ → ℕ)
      → update_place f p (update (f p) index (some new)) q k ≡ some b
      → (j : ℕ) → j < size
      → b j ≡ disk (size * sector_number q k + j)
  unfolding Faithful
  replaced_lem c' old new keeps good f stored q k b e j low = elim (Bool-cases (same_place q p)) [
    | inl here ↦
        let at : q ≡ p = same_place_lem q p here in
        let kept : update (f p) index (some new) k ≡ some b =
          sym (ap (λ g. g k) (place_same f p _ q here)) ∙ e in
        elim (Bool-cases (k == index)) [
          | inl same ↦
              let at_index : k ≡ index = ground (arith, same) in
              let is_new : some new ≡ some b = sym (update_same (f p) index _ k same) ∙ kept in
              sym (ap (λ o. held o j) is_new)
              ∙ good j low
              ∙ ap (λ n. disk (size * n + j))
                  (ap (λ z. sector_number z index) (sym at) ∙ ap (sector_number q) (sym at_index))
          | inr other ↦
              let before : f p k ≡ c'.sectors p k =
                ap (λ g. g p k) stored
                ∙ ap (λ g. g k) (place_same c'.sectors p _ p (same_place_refl p))
                ∙ update_other (c'.sectors p) index _ k other in
              let was : c'.sectors p k ≡ some b =
                sym before ∙ sym (update_other (f p) index _ k other) ∙ kept in
              faithful p k b (keeps p k b was) j low
              ∙ ap (λ z. disk (size * sector_number z k + j)) (sym at)
        ]
    | inr away ↦
        let was : c'.sectors q k ≡ some b =
          sym (ap (λ g. g k) (place_other c'.sectors p _ q away))
          ∙ sym (ap (λ g. g q k) stored)
          ∙ sym (ap (λ g. g k) (place_other f p _ q away))
          ∙ e in
        faithful q k b (keeps q k b was) j low
  ]

  cached_sector-Gives :
      (r : Result CacheStatus × Cache)
      → Answered c p index r
      → Gives disk size (sector_number p index) (cached_sector size (ok bytes) p index r)
  unfolding cached_sector sector_buf read_new Faithful
  cached_sector-Gives _ (had c' buf keeps here) =
      rw (cached_sector, sector_buf, here)
        (record {
          buffer = buf;
          found = refl;
          content = λ j low. faithful p index buf (keeps p index buf here) j low;
          stays = λ q k b e. faithful q k b (keeps q k b e);
        })
  cached_sector-Gives _ (made c' c'' keeps new) = record {
    buffer = fill_sector size bytes (sector_buf c'' p index);
    found = refl;
    content = λ j low. filled_lem _ j low;
    stays = λ q k b e.
        replaced_lem c' (λ _. 0) _ keeps (λ j low. filled_lem _ j low) c''.sectors new q k b e;
  }

-- Below 2 GiB the `int` that the cache is asked for is where the sector lies.
offset_lem :
    (disk : Disk) (i : ℕ)
    → 0 < disk.sector_size
    → disk.sector_size * (disk.starting_lba + i) < 2 ^ 31
    → disk_real_offset disk i % 2 ^ 32 ≡ disk.sector_size * (disk.starting_lba + i)
unfolding disk_real_offset disk_real_sector
offset_lem disk i positive below =
    let size : ℕ = disk.sector_size in
    let sector : ℕ = disk.starting_lba + i in
    let swap : sector * size ≡ size * sector = mul_comm sector size in
    let bound : sector ≤ sector * size = le-mul_of_pos_right sector positive in
    let fits : sector % 2 ^ 64 ≡ sector = mod-eq_of_lt (omega (arith, swap, bound, below)) in
    ap (λ k. k * size % 2 ^ 64 % 2 ^ 32) fits
    ∙ ap (λ k. k % 2 ^ 64 % 2 ^ 32) swap
    ∙ ap (λ k. k % 2 ^ 32) (mod-eq_of_lt (omega (arith, below)))
    ∙ mod-eq_of_lt (omega (arith, below))

-- Where the sector lies below 2 GiB, every allocation succeeds and the disk gives the sector, the
-- cache gives its bytes, as one it had or one it has just read, and stays true to the disk.
pub fetch_sector-Gives :
    (answers : ℕ → Answers) (read_block : ℕ → Result (ℕ → ℕ)) (disk : Disk) (contents : ℕ → ℕ)
    (c : Cache) (i : ℕ) (bytes : ℕ → ℕ)
    → Faithful contents disk.sector_size c
    → Succeeds (answers i)
    → 0 < disk.sector_size
    → disk.sector_size * (disk.starting_lba + i) < 2 ^ 31
    → read_block i ≡ ok bytes
    → ((j : ℕ)
        → j < disk.sector_size
        → bytes j ≡ contents (disk.sector_size * (disk.starting_lba + i) + j))
    → Gives contents disk.sector_size
        (disk.starting_lba + i)
        (fetch_sector answers read_block disk c i)
unfolding fetch_sector
fetch_sector-Gives answers read_block disk contents c i bytes faithful s positive below block
      right =
    let size : ℕ = disk.sector_size in
    let sector : ℕ = disk.starting_lba + i in
    let offset : ℕ = disk_real_offset disk i % 2 ^ 32 in
    let at : offset ≡ size * sector = offset_lem disk i positive below in
    let number : sector_number (find_place size offset) (find_index size offset) ≡ sector =
      sector_number-find size offset positive
      ∙ ap (λ k. k / size) at
      ∙ mul-div_cancel_left sector positive in
    subst (λ n. Gives contents size n (fetch_sector answers read_block disk c i)) number
      (rw (fetch_sector, block)
        (cached_sector-Gives contents size c faithful _ _ bytes
          (λ j low. right j low ∙ ap (λ n. contents (size * n + j)) (sym number)) _
          (cache_find-Answered (answers i) size c offset s positive)))
