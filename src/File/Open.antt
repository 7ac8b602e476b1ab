-- ===== src/File/Open.antt =====
-- fopen of fs/file.c as a change of the files that are open, by their numbers.
use peach_os64bit_module_two.Common.{
  ℕ, ◌+◌, ◌-◌, ◌≤◌, ◌≡◌, ◌⊎◌, inl, inr, refl, sym, ap, ◌∙◌, subst, false, Bool-cases, arith, Option,
  none, some, List, [], ◌∷◌, ◌==◌, if◌then◌else◌, update,
}
use peach_os64bit_module_two.Common.Int.{ℤ}
use peach_os64bit_module_two.Status.{ok, err, enomem}
use peach_os64bit_module_two.PathParser.{PathRoot}
use peach_os64bit_module_two.File.{
  max_file_descriptors, FileMode, read_mode, write_mode, append_mode, invalid_mode, Filesystem,
  MountedDisk, FileDescriptor, Files, iserr, file_get_mode_by_string, free_slot,
  file_new_descriptor, close_private, answered, opened, open_mounted, open_on, fopen_root,
}
use peach_os64bit_module_two.File.Table.{FirstFree, free_slot-cases, IsTable, insert-IsTable}

-- The descriptor of an open file, by the number that fopen gives: the abstract state.
unfoldable pub open_files : {W : Type 0} → Files W → ℕ → Option (FileDescriptor W)
open_files s fd = if fd == 0 then none else s.file_descriptors (fd - 1)

-- What fopen may do: answer 0 and open nothing, or answer a number that is not in use and open a
-- file under it.
pub data Opens {W : Type 0} (before after : ℕ → Option (FileDescriptor W)) : ℕ → Type 0 where
  refused : ((n : ℕ) → after n ≡ before n) → Opens before after 0
  added :
      (fd : ℕ) (d : FileDescriptor W)
      → 1 ≤ fd
      → fd ≤ max_file_descriptors
      → before fd ≡ none
      → d.index ≡ fd
      → iserr d.private ≡ false
      → ((n : ℕ) → after n ≡ update before fd (some d) n)
      → Opens before after fd

module _ {W : Type 0} where
  pub open_files-insert :
      (s : Files W) (i : ℕ) (d : Option (FileDescriptor W)) (n : ℕ)
      → open_files (record s { file_descriptors = update s.file_descriptors i d }) n
        ≡ update (open_files s) (i + 1) d n
  unfolding open_files
  open_files-insert s i d n = ground arith

  pub open_files-slot : (s : Files W) (i : ℕ) → open_files s (i + 1) ≡ s.file_descriptors i
  unfolding open_files
  open_files-slot s i = ground arith

  new_full :
      (s : Files W) (fs : Filesystem W) (private disk : ℕ)
      → free_slot max_file_descriptors s.file_descriptors 0 ≡ none
      → file_new_descriptor s fs private disk ≡ (err enomem, s)
  unfolding file_new_descriptor
  new_full s fs private disk full = rw (file_new_descriptor, full) refl

  pub new_found :
      (s : Files W) (fs : Filesystem W) (private disk i : ℕ)
      → free_slot max_file_descriptors s.file_descriptors 0 ≡ some i
      → file_new_descriptor s fs private disk ≡ (
        ok (i + 1),
        record s {
          file_descriptors =
              update s.file_descriptors i
                (some (record { index = i + 1; filesystem = fs; private = private; disk = disk }));
        },
      )
  unfolding file_new_descriptor
  new_found s fs private disk i found = rw (file_new_descriptor, found) refl

  closed_table :
      (s : Files W) (fs : Filesystem W) (private : ℕ)
      → (close_private s fs private).file_descriptors ≡ s.file_descriptors
  unfolding close_private
  closed_table s fs private = ground arith

  -- A slot of the table is found, or what was opened is closed again.
  pub opened-cases :
      (s : Files W) (fs : Filesystem W) (private disk : ℕ)
      → (opened s fs private disk ≡ (0, close_private s fs private))
        ⊎ ((i : ℕ) × (iserr private ≡ false)
            × FirstFree max_file_descriptors s.file_descriptors 0 i
            × (opened s fs private disk ≡ (
              i + 1,
              record s {
                file_descriptors = update s.file_descriptors i (
                    some
                      (record { index = i + 1; filesystem = fs; private = private; disk = disk }));
              },
            )))
  unfolding opened answered
  opened-cases s fs private disk = elim (Bool-cases (iserr private)) [
    | inl bad ↦ inl (
        ap (λ b. answered b (close_private s fs private) (file_new_descriptor s fs private disk))
          bad)
    | inr good ↦
        let good' =
          ap (λ b. answered b (close_private s fs private) (file_new_descriptor s fs private disk))
            good in
        elim (free_slot-cases max_file_descriptors s.file_descriptors 0) [
          | inl (full, all) ↦ inl (
              good'
              ∙ ap (answered false (close_private s fs private)) (new_full s fs private disk full))
          | inr (k, found, first) ↦ inr (
            k,
            good,
            first,
            good'
                ∙ ap (answered false (close_private s fs private))
                    (new_found s fs private disk k found),
          )
        ]
  ]

  -- What a call does to the table and to the files that are open.
  abbrev pub OpensTo : Files W → ℕ × Files W → Type 0
  OpensTo s (r, s') = Opens (open_files s) (open_files s') r × IsTable s'.file_descriptors

  pub same_files :
      (s s' : Files W)
      → s'.file_descriptors ≡ s.file_descriptors
      → (n : ℕ) → open_files s' n ≡ open_files s n
  unfolding open_files
  same_files s s' e n = ground (arith, ap (λ f. f (n - 1)) e)

  refuses :
      (s s' : Files W)
      → IsTable s.file_descriptors
      → s'.file_descriptors ≡ s.file_descriptors
      → OpensTo s (0, s')
  refuses s s' t e = (refused (same_files s s' e), subst IsTable (sym e) t)

  opened-Opens :
      (s : Files W) (fs : Filesystem W) (private disk : ℕ)
      → IsTable s.file_descriptors
      → OpensTo s (opened s fs private disk)
  opened-Opens s fs private disk t = elim (opened-cases s fs private disk) [
    | inl shut ↦
        subst (OpensTo s) (sym shut)
          (refuses s (close_private s fs private) t (closed_table s fs private))
    | inr (i, good, first, done) ↦
        let d : FileDescriptor W = record {
          index = i + 1;
          filesystem = fs;
          private = private;
          disk = disk;
        } in
        subst (OpensTo s) (sym done) (
          added (i + 1) d (omega arith) (omega (arith, first.to)) (open_files-slot s i ∙ first.free)
              refl good (open_files-insert s i (some d)),
          insert-IsTable s.file_descriptors i d t (omega (arith, first.to)) refl,
        )
  ]

  -- The table after a call of a file system.
  moved : (s : Files W) (w : W) (r : ℕ × Files W) → OpensTo (record s { world = w }) r → OpensTo s r
  unfolding open_files
  moved s w (r, s') h = h

  open_mounted-Opens :
      (s : Files W) (mode : FileMode) (path : List (List ℕ)) (disk : ℕ) (fs : Option (Filesystem W))
      → IsTable s.file_descriptors
      → OpensTo s (open_mounted s mode path disk fs)
  unfolding open_mounted
  open_mounted-Opens s mode path disk none t = refuses s s t refl
  open_mounted-Opens s mode path disk (some fs) t =
      let (private, w) = fs.open_file s.world disk path mode in
      moved s w (opened (record s { world = w }) fs private disk)
        (opened-Opens (record s { world = w }) fs private disk t)

  open_on-Opens :
      (s : Files W) (mode : FileMode) (path : List (List ℕ)) (disk : Option (MountedDisk W))
      → IsTable s.file_descriptors
      → OpensTo s (open_on s mode path disk)
  unfolding open_on
  open_on-Opens s mode path none t = refuses s s t refl
  open_on-Opens s invalid_mode path (some disk) t = refuses s s t refl
  open_on-Opens s read_mode path (some disk) t =
      open_mounted-Opens s read_mode path disk.address disk.filesystem t
  open_on-Opens s write_mode path (some disk) t =
      open_mounted-Opens s write_mode path disk.address disk.filesystem t
  open_on-Opens s append_mode path (some disk) t =
      open_mounted-Opens s append_mode path disk.address disk.filesystem t

  root-Opens :
      (disk_get : W → ℤ → Option (MountedDisk W)) (s : Files W) (drive : ℤ) (parts : List (List ℕ))
      (mode_str : ℕ → ℕ)
      → IsTable s.file_descriptors
      → OpensTo s
          (fopen_root disk_get s (some (record { drive_no = drive; parts = parts })) mode_str)
  unfolding fopen_root
  root-Opens disk_get s drive [] mode_str t = refuses s s t refl
  root-Opens disk_get s drive (p ∷ ps) mode_str t =
      open_on-Opens s (file_get_mode_by_string mode_str) (p ∷ ps) (disk_get s.world drive) t

  pub fopen_root-Opens :
      (disk_get : W → ℤ → Option (MountedDisk W)) (s : Files W) (root : Option PathRoot)
      (mode_str : ℕ → ℕ)
      → IsTable s.file_descriptors
      → OpensTo s (fopen_root disk_get s root mode_str)
  unfolding fopen_root
  fopen_root-Opens disk_get s none mode_str t = refuses s s t refl
  fopen_root-Opens disk_get s (some root) mode_str t =
      root-Opens disk_get s root.drive_no root.parts mode_str t
