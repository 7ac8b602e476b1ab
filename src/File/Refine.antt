-- ===== src/File/Refine.antt =====
-- Sequences of the calls of fs/file.c, and what they do to the files that are open.
use peach_os64bit_module_two.Common.{ℕ, ◌≡◌, sym, subst, arith, Option, List, [], ◌∷◌}
use peach_os64bit_module_two.Common.Int.{ℤ}
use peach_os64bit_module_two.Status.{Result}
use peach_os64bit_module_two.PathParser.{PathRoot}
use peach_os64bit_module_two.File.{
  SeekMode, FileStat, MountedDisk, FileDescriptor, Files, fopen_root, fstat, fclose, fseek, fread,
}
use peach_os64bit_module_two.File.Table.{IsTable}
use peach_os64bit_module_two.File.Open.{open_files, same_files, Opens, fopen_root-Opens}
use peach_os64bit_module_two.File.Close.{Closes, fclose-Closes}

-- A call with its arguments, an fopen with its path as it was parsed.
pub data Call : Type 0 where
  opens : Option PathRoot → (ℕ → ℕ) → Call
  closes : ℤ → Call
  reads : ℕ → ℕ → ℕ → ℤ → Call
  seeks : ℤ → ℤ → SeekMode → Call
  stats : ℤ → Call

pub data Reply : Type 0 where
  number : ℕ → Reply
  status : Result ℕ → Reply
  statistics : Result FileStat → Reply

module _ {W : Type 0} where
  unfoldable pub perform : (W → ℤ → Option (MountedDisk W)) → Files W → Call → Reply × Files W
  perform disk_get s (opens root mode_str) =
      let (fd, s') = fopen_root disk_get s root mode_str in (number fd, s')
  perform disk_get s (closes fd) = let (r, s') = fclose s fd in (status r, s')
  perform disk_get s (reads ptr size nmemb fd) =
      let (r, s') = fread s ptr size nmemb fd in (status r, s')
  perform disk_get s (seeks fd offset whence) =
      let (r, s') = fseek s fd offset whence in (status r, s')
  perform disk_get s (stats fd) = let (r, s') = fstat s fd in (statistics r, s')

  unfoldable pub perform_all :
      (W → ℤ → Option (MountedDisk W)) → Files W → List Call → List Reply × Files W
  perform_all disk_get s [] = ([], s)
  perform_all disk_get s (c ∷ cs) =
      let (r, s') = perform disk_get s c in
      let (rs, s'') = perform_all disk_get s' cs in (r ∷ rs, s'')

-- What a call may do to the files that are open.
pub data Allowed {W : Type 0} (before after : ℕ → Option (FileDescriptor W))
    : Call → Reply → Type 0 where
  may_open :
      {root : Option PathRoot} {mode_str : ℕ → ℕ} {fd : ℕ}
      → Opens before after fd
      → Allowed before after (opens root mode_str) (number fd)
  may_close :
      {fd : ℤ} {r : Result ℕ}
      → Closes before after fd r
      → Allowed before after (closes fd) (status r)
  keeps_reading :
      {ptr size nmemb : ℕ} {fd : ℤ} {r : Result ℕ}
      → ((n : ℕ) → after n ≡ before n)
      → Allowed before after (reads ptr size nmemb fd) (status r)
  keeps_seeking :
      {fd offset : ℤ} {whence : SeekMode} {r : Result ℕ}
      → ((n : ℕ) → after n ≡ before n)
      → Allowed before after (seeks fd offset whence) (status r)
  keeps_asking :
      {fd : ℤ} {r : Result FileStat}
      → ((n : ℕ) → after n ≡ before n)
      → Allowed before after (stats fd) (statistics r)

-- Calls one after the other.
pub data Trace {W : Type 0}
    : (ℕ → Option (FileDescriptor W))
      → (ℕ → Option (FileDescriptor W))
      → List Call
      → List Reply
      → Type 0 where
  done : {before : ℕ → Option (FileDescriptor W)} → Trace before before [] []
  next :
      {before mid after : ℕ → Option (FileDescriptor W)} {c : Call} {r : Reply} {cs : List Call}
      {rs : List Reply}
      → Allowed before mid c r
      → Trace mid after cs rs
      → Trace before after (c ∷ cs) (r ∷ rs)

module _ {W : Type 0} where
  fread-keeps :
      (s : Files W) (ptr size nmemb : ℕ) (fd : ℤ)
      → (fread s ptr size nmemb fd).1.file_descriptors ≡ s.file_descriptors
  unfolding fread
  fread-keeps s ptr size nmemb fd = ground arith

  fseek-keeps :
      (s : Files W) (fd offset : ℤ) (whence : SeekMode)
      → (fseek s fd offset whence).1.file_descriptors ≡ s.file_descriptors
  unfolding fseek
  fseek-keeps s fd offset whence = ground arith

  fstat-keeps : (s : Files W) (fd : ℤ) → (fstat s fd).1.file_descriptors ≡ s.file_descriptors
  unfolding fstat
  fstat-keeps s fd = ground arith

  perform-Allowed :
      (disk_get : W → ℤ → Option (MountedDisk W)) (s : Files W) (c : Call)
      → IsTable s.file_descriptors
      → let (r, s') = perform disk_get s c in
        Allowed (open_files s) (open_files s') c r × IsTable s'.file_descriptors
  unfolding perform
  perform-Allowed disk_get s (opens root mode_str) t =
      let (o, t') = fopen_root-Opens disk_get s root mode_str t in (may_open o, t')
  perform-Allowed disk_get s (closes fd) t = let (o, t') = fclose-Closes s fd t in (may_close o, t')
  perform-Allowed disk_get s (reads ptr size nmemb fd) t = (
    keeps_reading (same_files s (fread s ptr size nmemb fd).1 (fread-keeps s ptr size nmemb fd)),
    subst IsTable (sym (fread-keeps s ptr size nmemb fd)) t,
  )
  perform-Allowed disk_get s (seeks fd offset whence) t = (
    keeps_seeking (same_files s (fseek s fd offset whence).1 (fseek-keeps s fd offset whence)),
    subst IsTable (sym (fseek-keeps s fd offset whence)) t,
  )
  perform-Allowed disk_get s (stats fd) t = (
    keeps_asking (same_files s (fstat s fd).1 (fstat-keeps s fd)),
    subst IsTable (sym (fstat-keeps s fd)) t,
  )

  -- Whatever the file systems do, from a table in which each descriptor knows its slot, every
  -- sequence of calls of fopen, fclose, fread, fseek and fstat does to the files that are open, by
  -- their numbers, what each call may do: fopen answers 0 and opens nothing, or opens a file under
  -- a number from 1 to 512 that was not in use; fclose closes the file that it is given or answers
  -- something else than 0; the others leave all as they are. Each descriptor still knows its slot.
  pub perform_all-Trace :
      (disk_get : W → ℤ → Option (MountedDisk W)) (s : Files W) (cs : List Call)
      → IsTable s.file_descriptors
      → let (rs, s') = perform_all disk_get s cs in
        Trace (open_files s) (open_files s') cs rs × IsTable s'.file_descriptors
  unfolding perform_all
  perform_all-Trace disk_get s [] t = (done, t)
  perform_all-Trace disk_get s (c ∷ cs) t =
      let (r, s') = perform disk_get s c in
      let (here, t') = perform-Allowed disk_get s c t in
      let (rest, t'') = perform_all-Trace disk_get s' cs t' in (next here rest, t'')
