-- ===== src/File/Tests.antt =====
-- The calls of fs/file.c over a small file system.
use peach_os64bit_module_two.Common.{
  ℕ, ◌+◌, ◌≡◌, refl, true, arith, Option, none, some, List, [], ◌∷◌, ltb, if◌then◌else◌, get_or,
}
use peach_os64bit_module_two.Common.Int.{ℤ, pos}
use peach_os64bit_module_two.Status.{ok, err, eio}
use peach_os64bit_module_two.Strings.{strncmp}
use peach_os64bit_module_two.File.{
  max_file_descriptors, read_mode, Filesystem, MountedDisk, Files, file_get_mode_by_string,
  free_slot, file_free_descriptor, file_new_descriptor, file_get_descriptor, answered, opened,
  open_mounted, open_on, fopen_root, after_close, fclose, fread,
}
use peach_os64bit_module_two.File.Table.{IsTable}
use peach_os64bit_module_two.File.Open.{open_files}
use peach_os64bit_module_two.File.Refine.{
  Call, opens, closes, reads, number, status, perform, perform_all, Trace, perform_all-Trace,
}
use peach_os64bit_module_two.File.Session.{fopen_root-fread-fclose, fopen_root-last}

-- A file system that counts its calls, opens every path at the address 4096 and reads the bytes
-- asked.
abbrev counting : Filesystem ℕ
counting = record {
  resolve = λ w disk. (true, w + 1);
  open_file = λ w disk path mode. (4096, w + 1);
  read = λ w disk private size nmemb ptr. (ok nmemb, w + 1);
  seek = λ w private offset whence. (ok 0, w + 1);
  stat = λ w disk private. (err eio, w + 1);
  close = λ w private. (ok 0, w + 1);
}

abbrev one_disk : ℕ → ℤ → Option (MountedDisk ℕ)
one_disk w drive = some (record { address = 64; filesystem = some counting })

abbrev no_files : Files ℕ
no_files = record { file_descriptors = λ i. none; world = 0 }

abbrev hello : List ℕ
hello = b'h' ∷ b'i' ∷ []

abbrev reading : ℕ → ℕ
reading i = get_or (b'r' ∷ []) i 0

reading_mode : file_get_mode_by_string reading ≡ read_mode
unfolding file_get_mode_by_string strncmp
reading_mode = refl

no_files-IsTable : IsTable no_files.file_descriptors
no_files-IsTable = record {
  bounds = λ i d h. ground (arith, h);
  indexed = λ i d h. ground (arith, h);
}

abbrev session : List Call
session =
    opens (some (record { drive_no = pos 0; parts = hello ∷ [] })) reading
    ∷ reads 0 1 5 (pos 1)
    ∷ closes (pos 1)
    ∷ []

session_runs :
    (perform_all one_disk no_files session).0 ≡ number 1 ∷ status (ok 5) ∷ status (ok 0) ∷ []
unfolding perform_all perform fopen_root open_on open_mounted opened answered file_new_descriptor
    free_slot file_get_descriptor fread fclose after_close file_free_descriptor
    file_get_mode_by_string strncmp
session_runs = refl

perform_all-Trace_example :
    let (rs, s') = perform_all one_disk no_files session in
    Trace (open_files no_files) (open_files s') session rs × IsTable s'.file_descriptors
perform_all-Trace_example = perform_all-Trace one_disk no_files session no_files-IsTable

first_slot : free_slot max_file_descriptors no_files.file_descriptors 0 ≡ some 0
unfolding free_slot
first_slot = refl

fopen_root-fread-fclose_example :
    (fopen_root one_disk no_files
      (some (record { drive_no = pos 0; parts = hello ∷ [] }))
      reading).0
    ≡ 1
fopen_root-fread-fclose_example =
    (fopen_root-fread-fclose one_disk no_files (pos 0) hello [] reading counting 64 4096 0 1
      reading_mode refl refl refl first_slot refl (ground arith)).0

abbrev many_files : Files ℕ
many_files = record {
  file_descriptors = λ i.
      if ltb i 511
      then some (record { index = i + 1; filesystem = counting; private = 4096; disk = 64 })
      else none;
  world = 0;
}

last_slot : free_slot max_file_descriptors many_files.file_descriptors 0 ≡ some 511
unfolding free_slot
last_slot = refl

fopen_root-last_example :
    (fopen_root one_disk many_files
      (some (record { drive_no = pos 0; parts = hello ∷ [] }))
      reading).0
    ≡ 512
fopen_root-last_example =
    (fopen_root-last one_disk many_files (pos 0) hello [] reading counting 64 4096 1 reading_mode
      refl refl refl last_slot).0
