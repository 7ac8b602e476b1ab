-- ===== src/Fat16/Directory/Tests.antt =====
-- The directories of fs/fat/fat16.c on small ones.
use peach_os64bit_module_two.Common.{
  ℕ, zero, suc, ◌+◌, ◌*◌, ◌<◌, ◌≡◌, ◌≢◌, refl, Bool, true, false, arith, some, List, [], ◌∷◌, ◌==◌,
  ltb, ◌%◌, if◌then◌else◌, get_or,
}
use peach_os64bit_module_two.Status.{Result, ok, err, eio}
use peach_os64bit_module_two.Memory.{Mem}
use peach_os64bit_module_two.Strings.{istrncmp, tolower}
use peach_os64bit_module_two.Streamer.{diskstreamer_seek, diskstreamer_read, read_loop}
use peach_os64bit_module_two.Streamer.Read.{Serves}
use peach_os64bit_module_two.Fat16.{
  FatDirectoryItem, FatDirectory, FatPrivate, directory_item, file_item, first_cluster,
  sector_to_absolute, cluster_to_sector, read_at, read_internal, read_clusters, bytes_read,
}
use peach_os64bit_module_two.Fat16.Directory.{
  item_size, item_at, total_loop, to_proper_string, full_relative_filename, is_named, is_zero,
  is_subdirectory, total_items, load_fat_directory, load_items, new_fat_item, find_loop,
  find_item_in_directory,
}
use peach_os64bit_module_two.Fat16.Directory.Names.{
  padded, IsPart, SameName, is_named-SameName, full_relative_filename-padded,
}
use peach_os64bit_module_two.Fat16.Directory.Search.{a_file, find_item_in_directory_lem}

-- Two items as a directory has them: A.T and B, of 64 bytes from cluster 2 on.
abbrev directory_memory : Mem
directory_memory a =
    if a % 32 == 28
    then 64
    else if a % 32 == 26
    then 2
    else if a % 32 == 11
    then 0x20
    else (if a == 0
        then b'A'
        else if a == 8
        then b'T'
        else if a == 32
        then b'B'
        else (if ltb (a % 32) 11 then 0x20 else 0))

abbrev item_a : FatDirectoryItem
item_a = item_at directory_memory 0

abbrev item_b : FatDirectoryItem
item_b = item_at directory_memory item_size

abbrev string_of : List ℕ → ℕ → ℕ
string_of cs i = get_or cs i 0

abbrev two_items : FatDirectory
two_items = record {
  item = λ i. if i == 0 then item_a else item_b;
  total = 2;
  sector_pos = 2;
  ending_sector_pos = 3;
}

is_part : IsPart (b'A' ∷ [])
unfolding IsPart
is_part = ground arith

is_part' : IsPart (b'T' ∷ [])
unfolding IsPart
is_part' = ground arith

field_a : (j : ℕ) → j < 8 → item_a.filename j ≡ padded (b'A' ∷ []) j
unfolding item_at
field_a zero low = refl
field_a (suc j) low = ground (arith, low)

ext_a : (j : ℕ) → j < 3 → item_a.ext j ≡ padded (b'T' ∷ []) j
unfolding item_at
ext_a zero low = refl
ext_a (suc j) low = ground (arith, low)

full_relative_filename-padded_example : full_relative_filename item_a ≡ b'A' ∷ b'.' ∷ b'T' ∷ []
full_relative_filename-padded_example =
    full_relative_filename-padded item_a (b'A' ∷ []) (b'T' ∷ []) field_a ext_a is_part is_part'
      (omega arith) (omega arith)

-- Item `deleted` of a directory at sector 2 is deleted and item 2 is the end mark.
abbrev directory_bytes : ℕ → ℕ
directory_bytes p = if p == 64 then 0xE5 else if p == 96 then b'B' else 0

abbrev fetch_directory : ℕ → ℕ → Result (ℕ → ℕ) × ℕ
fetch_directory st i = (ok (λ j. directory_bytes (32 * i + j)), st)

abbrev served_directory : Serves fetch_directory directory_bytes 32 100
served_directory = record {
  buffer = λ st i j. directory_bytes (32 * i + j);
  found = λ st i _. refl;
  in_int = omega arith;
  content = λ st i j _ _. refl;
}

abbrev plenty : ℕ → Bool × ℕ
plenty st = (true, st)

abbrev small_fat : FatPrivate
small_fat = record {
  header = record {
    sectors_per_cluster = 1;
    reserved_sectors = 1;
    fat_copies = 1;
    root_dir_entries = 16;
    sectors_per_fat = 1;
  };
  root_directory = two_items;
  sector_size = 32;
}

abbrev zeros : Mem
zeros a = 0

named_b : is_named item_b (string_of (b'b' ∷ [])) ≡ true
unfolding is_named is_zero full_relative_filename to_proper_string istrncmp tolower item_at
named_b = refl

other_a : is_named item_a (string_of (b'b' ∷ [])) ≡ false
unfolding is_named is_zero full_relative_filename to_proper_string istrncmp tolower item_at
other_a = refl

others_b :
    (j : ℕ)
    → j < 2
    → j ≢ 1
    → ¬ SameName (full_relative_filename (two_items.item j)) (string_of (b'b' ∷ []))
others_b zero low other same =
    absurd (ground (arith, other_a, (is_named-SameName item_a (string_of (b'b' ∷ []))).1 same))
others_b (suc zero) low other same = absurd (other refl)
others_b (suc (suc j)) low other same = absurd (omega (arith, low))

plain_b : is_subdirectory item_b ≡ false
unfolding item_at
plain_b = refl

find_item_in_directory_lem_example :
    find_item_in_directory fetch_directory plenty zeros 9 small_fat 0 two_items
      (string_of (b'b' ∷ []))
    ≡ some (some (file_item item_b), 0)
find_item_in_directory_lem_example =
    find_item_in_directory_lem fetch_directory plenty zeros 9 small_fat 0 0 two_items
      (string_of (b'b' ∷ [])) 1 (file_item item_b) (omega arith)
      ((is_named-SameName item_b (string_of (b'b' ∷ []))).0 named_b) others_b
      (a_file plain_b refl refl)

-- A root directory with one item, a directory that no sector is served of.
abbrev folder : FatDirectoryItem
folder = record item_b { attribute = 0x10 }

abbrev unreadable : ℕ → ℕ → Result (ℕ → ℕ) × ℕ
unreadable st i = (err eio, st)

abbrev folder_fat : FatPrivate
folder_fat = record small_fat {
  root_directory = record { item = λ i. folder; total = 1; sector_pos = 2; ending_sector_pos = 3 };
}

abbrev empty_folder : FatDirectory
empty_folder = record {
  item = λ i. item_at zeros (item_size * i);
  total = 0;
  sector_pos = 0;
  ending_sector_pos = 0;
}

finds_folder :
    find_item_in_directory unreadable plenty zeros 9 folder_fat 0 folder_fat.root_directory
      (string_of (b'b' ∷ []))
    ≡ some (some (directory_item (some empty_folder)), 0)
unfolding find_item_in_directory find_loop is_named is_zero item_at full_relative_filename
    to_proper_string istrncmp tolower new_fat_item load_fat_directory total_items total_loop
    sector_to_absolute cluster_to_sector first_cluster read_at diskstreamer_seek diskstreamer_read
    read_loop load_items read_internal read_clusters bytes_read
finds_folder = refl
