-- ===== src/Fat16/Tests.antt =====
-- Reads of fs/fat/fat16.c from a disk of sectors of 32 bytes, each a cluster.
use peach_os64bit_module_two.Common.{
  ℕ, zero, suc, ◌+◌, ◌-◌, ◌*◌, ◌/◌, ◌%◌, ◌<◌, ◌≡◌, refl, arith, some, ◌==◌, if◌then◌else◌,
}
use peach_os64bit_module_two.Status.{Result, ok}
use peach_os64bit_module_two.Memory.{Mem}
use peach_os64bit_module_two.Memory.Laws.{within}
use peach_os64bit_module_two.Streamer.Read.{Serves}
use peach_os64bit_module_two.Fat16.{
  FatDirectoryItem, FatPrivate, file_item, FatFileDescriptor, first_cluster, cluster_to_sector,
  size_of_cluster_bytes, fat16_read,
}
use peach_os64bit_module_two.Fat16.Chain.{disk_entry, IsChain, TableFits}
use peach_os64bit_module_two.Fat16.Round.{content, DataFits}
use peach_os64bit_module_two.Fat16.Calls.{fat16_read-content}

-- Cluster 2 leads to the cluster given; all else are the low bytes of the place.
abbrev bytes_with : ℕ → ℕ → ℕ
bytes_with next p = if p == 36 then next % 256 else if p == 37 then next / 256 else p % 256

abbrev fetch_from : (ℕ → ℕ) → ℕ → ℕ → Result (ℕ → ℕ) × ℕ
fetch_from disk st i = (ok (λ j. disk (32 * i + j)), st)

abbrev no_item : FatDirectoryItem
no_item = record {
  filename = λ i. 0;
  ext = λ i. 0;
  attribute = 0;
  high_16_bits_first_cluster = 0;
  low_16_bits_first_cluster = 0;
  filesize = 0;
}

abbrev small_fat : FatPrivate
small_fat = record {
  header = record {
    sectors_per_cluster = 1;
    reserved_sectors = 1;
    fat_copies = 1;
    root_dir_entries = 16;
    sectors_per_fat = 1;
  };
  root_directory = record {
    item = λ i. no_item;
    total = 0;
    sector_pos = 2;
    ending_sector_pos = 5000;
  };
  sector_size = 32;
}

served_from : (disk : ℕ → ℕ) → Serves (fetch_from disk) disk 32 10000
served_from disk = record {
  buffer = λ st i j. disk (32 * i + j);
  found = λ st i _. refl;
  in_int = omega arith;
  content = λ st i j _ _. refl;
}

table_fits : TableFits small_fat 10000 16 4097
table_fits = record {
  even = refl;
  some_size = omega arith;
  fits = omega arith;
  served = omega arith;
}

abbrev two_clusters : ℕ → ℕ
two_clusters k = k + 2

two-links :
    (k : ℕ) → k < 1 → disk_entry small_fat (bytes_with 3) (two_clusters k) ≡ two_clusters (k + 1)
two-links zero low = refl
two-links (suc k) low = absurd (omega (arith, low))

two-IsChain : IsChain small_fat (bytes_with 3) two_clusters 1
two-IsChain = record {
  links = two-links;
  usable = λ k low. (omega arith, omega (arith, low));
  sane = λ k low. ground (arith, low);
}

two-DataFits : DataFits small_fat two_clusters 1 5002 10000
unfolding cluster_to_sector
two-DataFits = record {
  some_sectors = omega arith;
  fits = λ k low. omega (arith, low);
  served = omega arith;
}

one-IsChain : IsChain small_fat (bytes_with 4087) two_clusters 0
one-IsChain = record {
  links = λ k low. absurd (omega (arith, low));
  usable = λ k low. (omega arith, omega (arith, low));
  sane = λ k low. ground (arith, low);
}

abbrev buffer : Mem
buffer a = 0

abbrev small_file : FatDirectoryItem
small_file = record no_item { low_16_bits_first_cluster = 2; filesize = 64 }

abbrev open_file : FatFileDescriptor
open_file = record { item = file_item small_file; pos = 0 }

two_members : (k : ℕ) → k < 2 → (0 + k * 32) % 32 ≡ 0
two_members zero low = refl
two_members (suc zero) low = refl
two_members (suc (suc k)) low = absurd (omega (arith, low))

fat16_read-content_example :
    (m' : Mem) × (st' : ℕ) × (fat16_read
        (fetch_from (bytes_with 3))
        small_fat
        0
        buffer
        open_file
        small_file
        32
        2
        100
      ≡ some (ok 2, record open_file { pos = 0 + 2 * 32 }, m', st'))
    × ((a : ℕ)
        → m' a ≡ (
            if within 100 (2 * 32) a
            then content small_fat (bytes_with 3) two_clusters (0 + (a - 100))
            else buffer a))
unfolding size_of_cluster_bytes first_cluster
fat16_read-content_example =
    fat16_read-content (fetch_from (bytes_with 3)) (bytes_with 3) small_fat 10000 16 4097
      (served_from (bytes_with 3)) table_fits two_clusters 1 5002 two-IsChain two-DataFits 0 buffer
      open_file small_file 32 2 100 refl (omega arith) two_members
