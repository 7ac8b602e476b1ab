-- ===== src/File/Session.antt =====
-- What fopen of fs/file.c opens, as the other calls find it.
use peach_os64bit_module_two.Common.{
  ℕ, ◌+◌, ◌<◌, ◌≡◌, ◌≢◌, inl, inr, refl, ap, ◌∙◌, false, ◌||◌, Bool-cases, arith, Option, none,
  some, List, ◌∷◌, ◌==◌, update,
}
use peach_os64bit_module_two.Common.Int.{ℤ, pos}
use peach_os64bit_module_two.Status.{ok, err, eio, einvarg}
use peach_os64bit_module_two.File.{
  max_file_descriptors, read_mode, SeekMode, Filesystem, MountedDisk, FileDescriptor, Files, iserr,
  file_get_mode_by_string, free_slot, file_free_descriptor, file_new_descriptor,
  file_get_descriptor, close_private, answered, opened, open_mounted, open_on, fopen_root, fstat,
  after_close, fclose, fseek, fread,
}
use peach_os64bit_module_two.File.Open.{new_found}
use peach_os64bit_module_two.File.Close.{fclose-found}

module _ {W : Type 0} where
  -- The state after an fopen that takes slot `i`.
  unfoldable pub with_file : Files W → W → ℕ → Filesystem W → ℕ → ℕ → Files W
  with_file s w i fs private disk = record {
    file_descriptors =
        update s.file_descriptors i
          (some (record { index = i + 1; filesystem = fs; private = private; disk = disk }));
    world = w;
  }

  opened-with_file :
      (s : Files W) (fs : Filesystem W) (private disk i : ℕ)
      → iserr private ≡ false
      → free_slot max_file_descriptors s.file_descriptors 0 ≡ some i
      → opened s fs private disk ≡ (i + 1, with_file s s.world i fs private disk)
  unfolding opened answered with_file
  opened-with_file s fs private disk i good found =
      ap (λ b. answered b (close_private s fs private) (file_new_descriptor s fs private disk)) good
      ∙ ap (answered false (close_private s fs private)) (new_found s fs private disk i found)

  -- fopen for reading of a file that the file system opens.
  fopen_root-with_file :
      (disk_get : W → ℤ → Option (MountedDisk W)) (s : Files W) (drive : ℤ) (part : List ℕ)
      (parts : List (List ℕ)) (mode_str : ℕ → ℕ) (fs : Filesystem W) (disk private i : ℕ) (w : W)
      → file_get_mode_by_string mode_str ≡ read_mode
      → disk_get s.world drive ≡ some (record { address = disk; filesystem = some fs })
      → fs.open_file s.world disk (part ∷ parts) read_mode ≡ (private, w)
      → iserr private ≡ false
      → free_slot max_file_descriptors s.file_descriptors 0 ≡ some i
      → fopen_root disk_get s (some (record { drive_no = drive; parts = part ∷ parts })) mode_str
        ≡ (i + 1, with_file s w i fs private disk)
  unfolding fopen_root open_on open_mounted with_file
  fopen_root-with_file disk_get s drive part parts mode_str fs disk private i w mode finds opens
        good found =
      rw (fopen_root, mode, finds)
        (ap (λ p. opened (record s { world = p.1 }) fs p.0 disk) opens
          ∙ opened-with_file (record s { world = w }) fs private disk i good found)

  -- The descriptor is found, but under the number 512.
  get-with_file :
      (s : Files W) (w : W) (i : ℕ) (fs : Filesystem W) (private disk : ℕ)
      → i + 1 < max_file_descriptors
      → file_get_descriptor (with_file s w i fs private disk) (pos (i + 1))
        ≡ some (record { index = i + 1; filesystem = fs; private = private; disk = disk })
  unfolding file_get_descriptor with_file
  get-with_file s w i fs private disk bound = ground (arith, bound)

  -- What the calls do with an open file whose number is below 512, where its slot was free before.
  fread-with_file :
      (s : Files W) (w : W) (i : ℕ) (fs : Filesystem W) (private disk ptr size nmemb : ℕ)
      → i + 1 < max_file_descriptors
      → size ≢ 0
      → nmemb ≢ 0
      → let s1 = with_file s w i fs private disk in
        fread s1 ptr size nmemb (pos (i + 1)) ≡ (
          (fs.read w disk private size nmemb ptr).0,
          record s1 { world = (fs.read w disk private size nmemb ptr).1 },
        )
  unfolding fread with_file
  fread-with_file s w i fs private disk ptr size nmemb bound some_size some_count =
      let sized : (size == 0 || nmemb == 0) ≡ false = ground (arith, some_size, some_count) in
      rw (fread, sized, get-with_file s w i fs private disk bound) refl

  fclose-with_file :
      (s : Files W) (w : W) (i : ℕ) (fs : Filesystem W) (private disk : ℕ)
      → i + 1 < max_file_descriptors
      → s.file_descriptors i ≡ none
      → (fs.close w private).0 ≡ ok 0
      → let (r, s2) = fclose (with_file s w i fs private disk) (pos (i + 1)) in
        (r ≡ ok 0) × ((j : ℕ) → s2.file_descriptors j ≡ s.file_descriptors j)
  unfolding fclose with_file after_close file_free_descriptor
  fclose-with_file s w i fs private disk bound free closes =
      let s1 = with_file s w i fs private disk in
      let d : FileDescriptor W = record {
        index = i + 1;
        filesystem = fs;
        private = private;
        disk = disk;
      } in
      let s2 : Files W = record s1 { world = (fs.close w private).1 } in
      let e : fclose s1 (pos (i + 1)) ≡ (ok 0, file_free_descriptor s2 d) =
        fclose-found s1 (pos (i + 1)) d (get-with_file s w i fs private disk bound)
        ∙ ap (λ r. (r, after_close s2 d r)) closes in
      (ap (λ p. p.0) e, λ j. ap (λ p. p.1.file_descriptors j) e ∙ ground (arith, free))

  -- Where a disk has a file system that opens the path of a file for reading, and slot `i` is the
  -- first free one and not the last, fopen answers i + 1; fread under that number reads by the file
  -- system from what it opened, and fclose, where the file system closes it, restores the table.
  pub fopen_root-fread-fclose :
      (disk_get : W → ℤ → Option (MountedDisk W)) (s : Files W) (drive : ℤ) (part : List ℕ)
      (parts : List (List ℕ)) (mode_str : ℕ → ℕ) (fs : Filesystem W) (disk private i : ℕ) (w : W)
      → file_get_mode_by_string mode_str ≡ read_mode
      → disk_get s.world drive ≡ some (record { address = disk; filesystem = some fs })
      → fs.open_file s.world disk (part ∷ parts) read_mode ≡ (private, w)
      → iserr private ≡ false
      → free_slot max_file_descriptors s.file_descriptors 0 ≡ some i
      → s.file_descriptors i ≡ none
      → i + 1 < max_file_descriptors
      → let (fd, s1) =
          fopen_root disk_get s
            (some (record { drive_no = drive; parts = part ∷ parts }))
            mode_str in
        (fd ≡ i + 1)
        × ((ptr size nmemb : ℕ)
            → size ≢ 0
            → nmemb ≢ 0
            → fread s1 ptr size nmemb (pos (i + 1)) ≡ (
              (fs.read w disk private size nmemb ptr).0,
              record s1 { world = (fs.read w disk private size nmemb ptr).1 },
            ))
        × ((fs.close w private).0 ≡ ok 0
            → ((fclose s1 (pos (i + 1))).0 ≡ ok 0)
              × ((j : ℕ) → (fclose s1 (pos (i + 1))).1.file_descriptors j ≡ s.file_descriptors j))
  fopen_root-fread-fclose disk_get s drive part parts mode_str fs disk private i w mode finds opens
        good found free bound =
      rw
        (fopen_root-with_file disk_get s drive part parts mode_str fs disk private i w mode finds
          opens good found)
        (
          refl,
          λ ptr size nmemb some_size some_count.
              fread-with_file s w i fs private disk ptr size nmemb bound some_size some_count,
          λ closes. fclose-with_file s w i fs private disk bound free closes,
        )

  get_last : (s : Files W) → file_get_descriptor s (pos 512) ≡ none
  unfolding file_get_descriptor
  get_last s = refl

  fread_last :
      (s : Files W) (ptr size nmemb : ℕ) → fread s ptr size nmemb (pos 512) ≡ (err einvarg, s)
  unfolding fread
  fread_last s ptr size nmemb = elim (Bool-cases (size == 0 || nmemb == 0)) [
    | inl nothing ↦ rw (fread, nothing) refl
    | inr sized ↦ rw (fread, sized, get_last s) refl
  ]

  -- Where only the last slot is free, fopen opens the file and answers 512, and no call finds it
  -- under that number: reading, seeking, asking and closing fail and change nothing.
  pub fopen_root-last :
      (disk_get : W → ℤ → Option (MountedDisk W)) (s : Files W) (drive : ℤ) (part : List ℕ)
      (parts : List (List ℕ)) (mode_str : ℕ → ℕ) (fs : Filesystem W) (disk private : ℕ) (w : W)
      → file_get_mode_by_string mode_str ≡ read_mode
      → disk_get s.world drive ≡ some (record { address = disk; filesystem = some fs })
      → fs.open_file s.world disk (part ∷ parts) read_mode ≡ (private, w)
      → iserr private ≡ false
      → free_slot max_file_descriptors s.file_descriptors 0 ≡ some 511
      → let (fd, s1) =
          fopen_root disk_get s
            (some (record { drive_no = drive; parts = part ∷ parts }))
            mode_str in
        (fd ≡ 512)
        × (s1.file_descriptors 511 ≢ none)
        × (fclose s1 (pos fd) ≡ (err eio, s1))
        × (fstat s1 (pos fd) ≡ (err eio, s1))
        × ((ptr size nmemb : ℕ) → fread s1 ptr size nmemb (pos fd) ≡ (err einvarg, s1))
        × ((offset : ℤ) (whence : SeekMode) → fseek s1 (pos fd) offset whence ≡ (err eio, s1))
  unfolding fclose fstat fseek with_file
  fopen_root-last disk_get s drive part parts mode_str fs disk private w mode finds opens good
        found =
      let s1 = with_file s w 511 fs private disk in
      rw
        (fopen_root-with_file disk_get s drive part parts mode_str fs disk private 511 w mode finds
          opens good found)
        (
          refl,
          (λ h. ground (arith, h)),
          rw (fclose, get_last s1) refl,
          rw (fstat, get_last s1) refl,
          fread_last s1,
          λ offset whence. rw (fseek, get_last s1) refl,
        )
