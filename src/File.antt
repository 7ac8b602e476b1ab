-- ===== src/File.antt =====
-- The open files of fs/file.c. A file system is the table of its functions, over whatever `W` they
-- change; the disks come from `disk_get`. A pointer is an address, a descriptor stands in its slot.
pub mod Table
pub mod Open
pub mod Close
pub mod Refine
pub mod Session
mod Tests
use peach_os64bit_module_two.Common.{
  ℕ, zero, suc, ◌+◌, ◌-◌, ◌%◌, ◌^◌, Bool, true, false, not, ◌&&◌, ◌||◌, Option, none, some, List,
  [], ◌∷◌, ltb, leb, ◌==◌, if◌then◌else◌, update, get_or,
}
use peach_os64bit_module_two.Common.Int.{ℤ, pos, negsuc}
use peach_os64bit_module_two.Status.{Result, ok, err, eio, einvarg, enomem}
use peach_os64bit_module_two.Strings.{strncmp}
use peach_os64bit_module_two.PathParser.{PathRoot, parse}

abbrev pub max_filesystems : ℕ
max_filesystems = 12

abbrev pub max_file_descriptors : ℕ
max_file_descriptors = 512

pub data FileMode : Type 0 where
  read_mode write_mode append_mode invalid_mode : FileMode

pub data SeekMode : Type 0 where
  seek_set seek_cur seek_end : SeekMode

pub record FileStat : Type 0 where
  pub flags : ℕ
  pub filesize : ℕ

-- `struct filesystem`, without its name. `resolve` says 0 by `true`.
pub record Filesystem (W : Type 0) : Type 0 where
  pub resolve : W → ℕ → Bool × W
  pub open_file : W → ℕ → List (List ℕ) → FileMode → ℕ × W
  pub read : W → ℕ → ℕ → ℕ → ℕ → ℕ → Result ℕ × W
  pub seek : W → ℕ → ℤ → SeekMode → Result ℕ × W
  pub stat : W → ℕ → ℕ → Result FileStat × W
  pub close : W → ℕ → Result ℕ × W

-- What fopen reads of a `struct disk`: its address and its file system, if one is mounted.
pub record MountedDisk (W : Type 0) : Type 0 where
  pub address : ℕ
  pub filesystem : Option (Filesystem W)

-- `struct file_descriptor`
pub record FileDescriptor (W : Type 0) : Type 0 where
  pub index : ℕ
  pub filesystem : Filesystem W
  pub private : ℕ
  pub disk : ℕ

-- `file_descriptors`, and what the file systems change.
pub record Files (W : Type 0) : Type 0 where
  pub file_descriptors : ℕ → Option (FileDescriptor W)
  pub world : W

-- `ISERR`: the low 32 bits of the value are negative as an `int`.
abbrev pub iserr : ℕ → Bool
iserr p = leb (2 ^ 31) (p % 2 ^ 32)

-- `file_get_mode_by_string`
unfoldable pub file_get_mode_by_string : (ℕ → ℕ) → FileMode
file_get_mode_by_string str =
    if is_zero (strncmp str (λ i. get_or (b'r' ∷ []) i 0) 1)
    then read_mode
    else if is_zero (strncmp str (λ i. get_or (b'w' ∷ []) i 0) 1)
    then write_mode
    else if is_zero (strncmp str (λ i. get_or (b'a' ∷ []) i 0) 1)
    then append_mode
    else invalid_mode
  where
    is_zero : ℤ → Bool
    is_zero (pos n) = n == 0
    is_zero (negsuc n) = false

-- The loop of `fs_get_free_filesystem`: the first of `rounds` more slots that is free.
unfoldable pub free_slot : {A : Type 0} → ℕ → (ℕ → Option A) → ℕ → Option ℕ
free_slot zero table i = none
free_slot (suc rounds) table i =
    let rest = free_slot rounds table (i + 1) in elim (table i) [ none ↦ some i | some _ ↦ rest ]

module _ {W : Type 0} where
  -- `fs_insert_filesystem`: `none` is the endless loop of a full table.
  unfoldable pub fs_insert_filesystem :
      (ℕ → Option (Filesystem W)) → Filesystem W → Option (ℕ → Option (Filesystem W))
  fs_insert_filesystem filesystems filesystem = elim (free_slot max_filesystems filesystems 0) [
    | none ↦ none
    | some i ↦ some (update filesystems i (some filesystem))
  ]

  -- The loop of `fs_resolve`.
  unfoldable pub resolve_loop :
      ℕ → (ℕ → Option (Filesystem W)) → ℕ → ℕ → W → Option (Filesystem W) × W
  resolve_loop zero filesystems i disk w = (none, w)
  resolve_loop (suc rounds) filesystems i disk w = elim (filesystems i) [
    | none ↦ resolve_loop rounds filesystems (i + 1) disk w
    | some fs ↦
        let (here, w') = fs.resolve w disk in
        let rest = resolve_loop rounds filesystems (i + 1) disk w' in
        if here then (some fs, w') else rest
  ]

  unfoldable pub fs_resolve : (ℕ → Option (Filesystem W)) → ℕ → W → Option (Filesystem W) × W
  fs_resolve filesystems disk w = resolve_loop max_filesystems filesystems 0 disk w

  -- `file_free_descriptor`
  unfoldable pub file_free_descriptor : Files W → FileDescriptor W → Files W
  file_free_descriptor s desc = record s {
    file_descriptors = update s.file_descriptors (desc.index - 1) none;
  }

  -- The search of `file_new_descriptor`, which does not test what kzalloc returns. The fields of
  -- the descriptor but its index are those that fopen then sets.
  unfoldable pub file_new_descriptor : Files W → Filesystem W → ℕ → ℕ → Result ℕ × Files W
  file_new_descriptor s filesystem private disk =
      elim (free_slot max_file_descriptors s.file_descriptors 0) [
        | none ↦ (err enomem, s)
        | some i ↦
            let desc : FileDescriptor W = record {
              index = i + 1;
              filesystem = filesystem;
              private = private;
              disk = disk;
            } in
            (ok (i + 1), record s { file_descriptors = update s.file_descriptors i (some desc) })
      ]

  -- `file_get_descriptor`, for an `int`.
  unfoldable pub file_get_descriptor : Files W → ℤ → Option (FileDescriptor W)
  file_get_descriptor s (negsuc n) = none
  file_get_descriptor s (pos fd) =
      if fd == 0 || leb max_file_descriptors fd then none else s.file_descriptors (fd - 1)

  -- The error path of fopen closes what the file system's open returned, unless that is NULL.
  unfoldable pub close_private : Files W → Filesystem W → ℕ → Files W
  close_private s filesystem private =
      if private == 0 then s else record s { world = (filesystem.close s.world private).1 }

  unfoldable pub answered : Bool → Files W → Result ℕ × Files W → ℕ × Files W
  answered true closed (r, s') = (0, closed)
  answered false closed (ok fd, s') = (fd, s')
  answered false closed (err _, s') = (0, closed)

  -- fopen from the call of the file system's open on.
  unfoldable pub opened : Files W → Filesystem W → ℕ → ℕ → ℕ × Files W
  opened s filesystem private disk =
      answered (iserr private) (close_private s filesystem private)
        (file_new_descriptor s filesystem private disk)

  -- fopen on a file system.
  unfoldable pub open_mounted :
      Files W → FileMode → List (List ℕ) → ℕ → Option (Filesystem W) → ℕ × Files W
  open_mounted s mode path disk none = (0, s)
  open_mounted s mode path disk (some fs) =
      let (private, w) = fs.open_file s.world disk path mode in
      opened (record s { world = w }) fs private disk

  -- fopen from the disk on.
  unfoldable pub open_on : Files W → FileMode → List (List ℕ) → Option (MountedDisk W) → ℕ × Files W
  open_on s mode path none = (0, s)
  open_on s invalid_mode path (some disk) = (0, s)
  open_on s mode path (some disk) = open_mounted s mode path disk.address disk.filesystem

  -- `fopen` from the parsed path on, and the whole of it, where `none` says that the parser runs
  -- out of fuel. Its result 0 stands for every failure.
  unfoldable pub fopen_root :
      (W → ℤ → Option (MountedDisk W)) → Files W → Option PathRoot → (ℕ → ℕ) → ℕ × Files W
  fopen_root disk_get s none mode_str = (0, s)
  fopen_root disk_get s (some root) mode_str = elim root.parts [
    | [] ↦ (0, s)
    | first ∷ rest ↦
        open_on s (file_get_mode_by_string mode_str) (first ∷ rest) (disk_get s.world root.drive_no)
  ]

  unfoldable pub fopen :
      (ℕ → Bool)
      → Option ℕ
      → (W → ℤ → Option (MountedDisk W))
      → Files W
      → List ℕ
      → (ℕ → ℕ)
      → Option (ℕ × Files W)
  fopen alloc primary disk_get s filename mode_str = elim (parse alloc primary filename) [
    | none ↦ none
    | some root ↦ some (fopen_root disk_get s root mode_str)
  ]

  unfoldable pub fstat : Files W → ℤ → Result FileStat × Files W
  fstat s fd = elim (file_get_descriptor s fd) [
    | none ↦ (err eio, s)
    | some desc ↦
        let (r, w) = desc.filesystem.stat s.world desc.disk desc.private in
        (r, record s { world = w })
  ]

  -- What fclose does after the file system's close.
  unfoldable pub after_close : Files W → FileDescriptor W → Result ℕ → Files W
  after_close s desc (err _) = s
  after_close s desc (ok n) = if n == 0 then file_free_descriptor s desc else s

  unfoldable pub fclose : Files W → ℤ → Result ℕ × Files W
  fclose s fd = elim (file_get_descriptor s fd) [
    | none ↦ (err eio, s)
    | some desc ↦
        let (r, w) = desc.filesystem.close s.world desc.private in
        (r, after_close (record s { world = w }) desc r)
  ]

  unfoldable pub fseek : Files W → ℤ → ℤ → SeekMode → Result ℕ × Files W
  fseek s fd offset whence = elim (file_get_descriptor s fd) [
    | none ↦ (err eio, s)
    | some desc ↦
        let (r, w) = desc.filesystem.seek s.world desc.private offset whence in
        (r, record s { world = w })
  ]

  unfoldable pub fread : Files W → ℕ → ℕ → ℕ → ℤ → Result ℕ × Files W
  fread s ptr size nmemb fd =
      if size == 0 || nmemb == 0 then (err einvarg, s) else (elim (file_get_descriptor s fd) [
        | none ↦ (err einvarg, s)
        | some desc ↦
            let (r, w) = desc.filesystem.read s.world desc.disk desc.private size nmemb ptr in
            (r, record s { world = w })
      ])
