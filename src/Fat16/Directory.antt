-- ===== src/Fat16/Directory.antt =====
-- The directories of fs/fat/fat16.c: their items, the names and the search along a path.
pub mod Names
pub mod Search
pub mod Total
mod Tests
use peach_os64bit_module_two.Common.{
  ℕ, zero, suc, ◌+◌, ◌-◌, ◌*◌, ◌/◌, ◌%◌, ◌^◌, Bool, true, false, not, ◌&&◌, ◌||◌, Option, none,
  some, List, [], ◌∷◌, ◌++◌, ltb, leb, ◌==◌, if◌then◌else◌, get_or,
}
use peach_os64bit_module_two.Common.Int.{ℤ, pos, negsuc}
use peach_os64bit_module_two.Status.{
  Errno, errno_value, Result, ok, err, eio, enomem, erdonly, efsnotus,
}
use peach_os64bit_module_two.Memory.{Mem}
use peach_os64bit_module_two.Strings.{istrncmp}
use peach_os64bit_module_two.Streamer.{Stream}
use peach_os64bit_module_two.File.{FileMode, read_mode, write_mode, append_mode, invalid_mode}
use peach_os64bit_module_two.Fat16.{
  FatHeader, FatDirectoryItem, FatDirectory, FatPrivate, FatItem, directory_item, file_item,
  FatFileDescriptor, first_cluster, sector_to_absolute, cluster_to_sector, read_at, read_internal,
}

-- `sizeof(struct fat_directory_item)`
abbrev pub item_size : ℕ
item_size = 32

abbrev pub le16 : Mem → ℕ → ℕ
le16 m a = m a + 2 ^ 8 * m (a + 1)

-- The item that lies at an address; the fields that nothing reads are left out. A field is read
-- at places below its size only, 8 and 3.
unfoldable pub item_at : Mem → ℕ → FatDirectoryItem
item_at m a = record {
  filename = λ i. m (a + i);
  ext = λ i. m (a + 8 + i);
  attribute = m (a + 11);
  high_16_bits_first_cluster = le16 m (a + 20);
  low_16_bits_first_cluster = le16 m (a + 26);
  filesize = le16 m (a + 28) + 2 ^ 16 * le16 m (a + 30);
}

-- `fat16_to_proper_string` of a field of `size` characters, from place `i` on.
unfoldable pub to_proper_string : ℕ → (ℕ → ℕ) → ℕ → List ℕ
to_proper_string zero in_ i = []
to_proper_string (suc size) in_ i =
    let rest = to_proper_string size in_ (i + 1) in
    if in_ i == 0 || in_ i == 0x20 then [] else in_ i ∷ rest

-- `fat16_get_full_relative_filename`, the characters before the zeros.
unfoldable pub full_relative_filename : FatDirectoryItem → List ℕ
full_relative_filename item =
    if item.ext 0 == 0 || item.ext 0 == 0x20
    then to_proper_string 8 item.filename 0
    else to_proper_string 8 item.filename 0 ++ (b'.' ∷ to_proper_string 3 item.ext 0)

unfoldable pub is_zero : ℤ → Bool
is_zero (pos n) = n == 0
is_zero (negsuc n) = false

-- The test of `fat16_find_item_in_directory`, on a buffer of PEACHOS_MAX_PATH characters.
unfoldable pub is_named : FatDirectoryItem → (ℕ → ℕ) → Bool
is_named item name = is_zero (istrncmp (λ i. get_or (full_relative_filename item) i 0) name 108)

-- `item->attribute & FAT_FILE_SUBDIRECTORY`
abbrev pub is_subdirectory : FatDirectoryItem → Bool
is_subdirectory item = item.attribute / 2 ^ 4 % 2 == 1

-- The `total` of a directory, an `int`: a negative one is no item.
abbrev pub as_total : Result ℕ → ℕ
as_total (ok n) = n
as_total (err _) = 0

-- The header that lies at the start of a memory, and its signature.
unfoldable pub header_at : Mem → FatHeader
header_at m = record {
  sectors_per_cluster = m 13;
  reserved_sectors = le16 m 14;
  fat_copies = m 16;
  root_dir_entries = le16 m 17;
  sectors_per_fat = le16 m 22;
}

abbrev pub signature_at : Mem → ℕ
signature_at m = m 38

-- Where the root directory lies.
unfoldable pub root_dir_sector_pos : FatHeader → ℕ
root_dir_sector_pos h = h.fat_copies * h.sectors_per_fat + h.reserved_sectors

unfoldable pub root_sectors : FatHeader → ℕ → ℕ
root_sectors h size =
    let bytes = h.root_dir_entries * item_size in
    bytes / size + (if bytes % size == 0 then 0 else 1)

-- The end of a walk along a path: an item, NULL, or a pointer NULL that is read through.
pub data Walked : Type 0 where
  found : FatItem → Walked
  missing : Walked
  reads_null : Walked

module _ {A : Type 0} (fetch : A → ℕ → Result (ℕ → ℕ) × A) where
  -- The loop of `fat16_get_total_items_for_directory`, at a position, with the items counted, and
  -- the state after it: `none` when the fuel is used up.
  unfoldable pub total_loop : ℕ → ℕ → A → ℕ → ℕ → Option (Result ℕ × A)
  total_loop zero size st place i = none
  total_loop (suc fuel) size st place i =
      let (r, stream, m, st') = read_at fetch size st (λ a. 0) place 0 item_size in
      let over = total_loop fuel size st' (place + item_size) i in
      let more = total_loop fuel size st' (place + item_size) (i + 1) in
      elim r [
        | err _ ↦ some (err eio, st')
        | ok _ ↦ if m 0 == 0 then some (ok i, st') else if m 0 == 0xE5 then over else more
      ]

  -- `fat16_get_total_items_for_directory`
  unfoldable pub total_items : ℕ → FatPrivate → A → ℕ → Option (Result ℕ × A)
  total_items fuel fat st sector =
      total_loop fuel fat.sector_size st (sector_to_absolute fat sector) 0

-- The descriptor of `fat16_open`: the inner `none` is the pointer NULL that is read through.
unfoldable pub descriptor_of : Walked → Option (Result FatFileDescriptor)
descriptor_of (found item) = some (ok (record { item = item; pos = 0 }))
descriptor_of missing = some (err eio)
descriptor_of reads_null = none

-- `kzalloc` says whether it succeeds, and `null` is what lies at the address NULL.
module _ {A : Type 0} (fetch : A → ℕ → Result (ℕ → ℕ) × A) (kzalloc : A → Bool × A)
    (null : Mem) where
  -- The items of a directory, as its clusters have them: `directory->item`.
  unfoldable pub load_items : FatPrivate → A → ℕ → ℕ → Option (FatDirectory × A)
  load_items fat st cluster total =
      let (got, st') = kzalloc st in
      let at_null : FatDirectory = record {
        item = λ i. item_at null (item_size * i);
        total = total;
        sector_pos = 0;
        ending_sector_pos = 0;
      } in
      if not got
      then some (at_null, st')
      else (elim (read_internal fetch fat st' (λ a. 0) cluster 0 (total * item_size) 0) [
        | none ↦ none
        | some (r, m, st'') ↦ some (record at_null { item = λ i. item_at m (item_size * i) }, st'')
      ])

  -- `fat16_load_fat_directory` of an item that is a directory. It takes the count of bytes read for
  -- an error, and gives the directory to kfree, which does nothing.
  unfoldable pub load_fat_directory :
      ℕ → FatPrivate → A → FatDirectoryItem → Option (Option FatDirectory × A)
  load_fat_directory fuel fat st item =
      let (got, st') = kzalloc st in
      if not got
      then some (none, st')
      else (elim (total_items fetch fuel fat st' (cluster_to_sector fat (first_cluster item))) [
        | none ↦ none
        | some (r, st'') ↦ (elim (load_items fat st'' (first_cluster item) (as_total r)) [
          | none ↦ none
          | some (d, st3) ↦ some (some d, st3)
        ])
      ])

  -- `fat16_new_fat_item_for_directory_item`, with the clone of a file's item.
  unfoldable pub new_fat_item : ℕ → FatPrivate → A → FatDirectoryItem → Option (Option FatItem × A)
  new_fat_item fuel fat st item =
      let (got, st') = kzalloc st in
      let (cloned, st'') = kzalloc st' in
      if not got
      then some (none, st')
      else if is_subdirectory item
      then (elim (load_fat_directory fuel fat st' item) [
        | none ↦ none
        | some (d, st3) ↦ some (some (directory_item d), st3)
      ])
      else some (some (file_item (if cloned then item else item_at null 0)), st'')

  -- The loop of `fat16_find_item_in_directory`, `rounds` more items from item `i` on.
  unfoldable pub find_loop :
      ℕ
      → ℕ
      → FatPrivate
      → A
      → FatDirectory
      → (ℕ → ℕ)
      → ℕ
      → Option FatItem
      → Option (Option FatItem × A)
  find_loop zero fuel fat st directory name i f_item = some (f_item, st)
  find_loop (suc rounds) fuel fat st directory name i f_item =
      let over = find_loop rounds fuel fat st directory name (i + 1) f_item in
      if is_named (directory.item i) name
      then (elim (new_fat_item fuel fat st (directory.item i)) [
        | none ↦ none
        | some (item, st') ↦ find_loop rounds fuel fat st' directory name (i + 1) item
      ])
      else over

  -- `fat16_find_item_in_directory`
  unfoldable pub find_item_in_directory :
      ℕ → FatPrivate → A → FatDirectory → (ℕ → ℕ) → Option (Option FatItem × A)
  find_item_in_directory fuel fat st directory name =
      find_loop directory.total fuel fat st directory name 0 none

  -- The loop of `fat16_get_directory_entry`, from `current_item` on.
  unfoldable pub walk : ℕ → FatPrivate → A → Option FatItem → List (ℕ → ℕ) → Option (Walked × A)
  walk fuel fat st none [] = some (missing, st)
  walk fuel fat st (some item) [] = some (found item, st)
  walk fuel fat st none (part ∷ parts) = some (reads_null, st)
  walk fuel fat st (some (file_item item)) (part ∷ parts) = some (missing, st)
  walk fuel fat st (some (directory_item none)) (part ∷ parts) = some (reads_null, st)
  walk fuel fat st (some (directory_item (some d))) (part ∷ parts) =
      elim (find_item_in_directory fuel fat st d part) [
        | none ↦ none
        | some (item, st') ↦ walk fuel fat st' item parts
      ]

  -- `fat16_get_directory_entry`, whose path has a first part.
  unfoldable pub get_directory_entry :
      ℕ → FatPrivate → A → (ℕ → ℕ) → List (ℕ → ℕ) → Option (Walked × A)
  get_directory_entry fuel fat st part parts =
      elim (find_item_in_directory fuel fat st fat.root_directory part) [
        | none ↦ none
        | some (none, st') ↦ some (missing, st')
        | some (some item, st') ↦ walk fuel fat st' (some item) parts
      ]

  -- `fat16_open`
  unfoldable pub fat16_open :
      ℕ
      → FatPrivate
      → A
      → (ℕ → ℕ)
      → List (ℕ → ℕ)
      → FileMode
      → Option (Option (Result FatFileDescriptor) × A)
  fat16_open fuel fat st part parts read_mode =
      let (got, st') = kzalloc st in
      if not got
      then some (some (err enomem), st')
      else (elim (get_directory_entry fuel fat st' part parts) [
        | none ↦ none
        | some (w, st'') ↦ some (descriptor_of w, st'')
      ])
  fat16_open fuel fat st part parts mode = some (some (err erdonly), st)

  -- The items of the root directory.
  unfoldable pub root_items : FatHeader → ℕ → A → ℕ → Result FatDirectory × A
  root_items h size st total =
      let (got, st') = kzalloc st in
      let (r, stream, m, st'') =
        read_at fetch size st' (λ a. 0) (root_dir_sector_pos h * size) 0
          (h.root_dir_entries * item_size) in
      let d : FatDirectory = record {
        item = λ i. item_at m (item_size * i);
        total = total;
        sector_pos = root_dir_sector_pos h;
        ending_sector_pos = root_dir_sector_pos h + root_sectors h size;
      } in
      if not got
      then (err enomem, st')
      else (elim r [ ok _ ↦ (ok d, st'') | err _ ↦ (err eio, st'') ])

  -- `fat16_get_root_directory`
  unfoldable pub get_root_directory : ℕ → FatHeader → ℕ → A → Option (Result FatDirectory × A)
  get_root_directory fuel h size st =
      elim (total_loop fetch fuel size st (root_dir_sector_pos h * size) 0) [
        | none ↦ none
        | some (r, st') ↦ some (root_items h size st' (as_total r))
      ]

  -- What `fat16_resolve` does with the header.
  unfoldable pub resolve_header : ℕ → ℕ → A → Mem → Option (Result FatPrivate × A)
  resolve_header fuel size st m =
      if not (signature_at m == 0x29)
      then some (err efsnotus, st)
      else (elim (get_root_directory fuel (header_at m) size st) [
        | none ↦ none
        | some (err _, st') ↦ some (err eio, st')
        | some (ok d, st') ↦
            some (ok (record { header = header_at m; root_directory = d; sector_size = size }), st')
      ])

  -- `fat16_resolve`, where `kzalloc` is asked for the stream of the header; the private data and
  -- its streams are not tested. The name of the volume is left out.
  unfoldable pub fat16_resolve : ℕ → ℕ → A → Option (Result FatPrivate × A)
  fat16_resolve fuel size st =
      let (got, st') = kzalloc st in
      let (r, stream, m, st'') = read_at fetch size st' (λ a. 0) 0 0 62 in
      if not got
      then some (err enomem, st')
      else (elim r [ err _ ↦ some (err eio, st'') | ok _ ↦ resolve_header fuel size st'' m ])
