-- ===== src/File/Close.antt =====
-- fclose of fs/file.c as a change of the files that are open.
use peach_os64bit_module_two.Common.{
  ℕ, zero, suc, ◌+◌, ◌-◌, ◌≡◌, ◌≢◌, ◌⊎◌, inl, inr, refl, sym, ap, ◌∙◌, subst, false, Bool-cases,
  Option-cases, arith, Option, none, some, leb, ◌==◌, update,
}
use peach_os64bit_module_two.Common.Int.{ℤ, pos, negsuc}
use peach_os64bit_module_two.Status.{Errno, Result, ok, err, eio}
use peach_os64bit_module_two.File.{
  max_file_descriptors, FileDescriptor, Files, file_free_descriptor, file_get_descriptor,
  after_close, fclose,
}
use peach_os64bit_module_two.File.Table.{IsTable, remove-IsTable}
use peach_os64bit_module_two.File.Open.{open_files, open_files-slot}

-- What fclose may do: answer something else than 0 and leave all open, or close the file.
pub data Closes {W : Type 0} (before after : ℕ → Option (FileDescriptor W)) (fd : ℤ) (r : Result ℕ)
    : Type 0 where
  left : r ≢ ok 0 → ((n : ℕ) → after n ≡ before n) → Closes before after fd r
  closed :
      (k : ℕ) (d : FileDescriptor W)
      → fd ≡ pos k
      → r ≡ ok 0
      → before k ≡ some d
      → ((n : ℕ) → after n ≡ update before k none n)
      → Closes before after fd r

abbrev all_ok : Result ℕ
all_ok = ok 0

err-differs : (e : Errno) → err e ≢ all_ok
err-differs e h = ground (arith, h)

positive-differs : (n : ℕ) → ok (suc n) ≢ all_ok
positive-differs n h = ground (arith, h)

module _ {W : Type 0} where
  -- file_get_descriptor finds the open files but the last.
  pub file_get_descriptor-cases :
      (s : Files W) (fd : ℤ)
      → (file_get_descriptor s fd ≡ none)
        ⊎ ((k : ℕ) × (d : FileDescriptor W) × (fd ≡ pos (k + 1))
            × (s.file_descriptors k ≡ some d)
            × (file_get_descriptor s fd ≡ some d))
  unfolding file_get_descriptor
  file_get_descriptor-cases s (negsuc n) = inl refl
  file_get_descriptor-cases s (pos zero) = inl refl
  file_get_descriptor-cases s (pos (suc k)) = elim (Bool-cases (leb max_file_descriptors (suc k))) [
    | inl out ↦ inl (ground (arith, out))
    | inr within ↦ elim (Option-cases (s.file_descriptors k)) [
      | inl free ↦ inl (ground (arith, free))
      | inr (d, used) ↦ inr (k, d, ap pos (omega arith), used, ground (arith, used, within))
    ]
  ]

  abbrev pub ClosesTo : Files W → ℤ → Result ℕ × Files W → Type 0
  ClosesTo s fd (r, s') = Closes (open_files s) (open_files s') fd r × IsTable s'.file_descriptors

  removed :
      (s : Files W) (w : W) (k : ℕ) (d : FileDescriptor W)
      → IsTable s.file_descriptors
      → s.file_descriptors k ≡ some d
      → ((n : ℕ)
          → open_files (file_free_descriptor (record s { world = w }) d) n
            ≡ update (open_files s) (k + 1) none n)
        × IsTable (file_free_descriptor (record s { world = w }) d).file_descriptors
  unfolding file_free_descriptor open_files
  removed s w k d t used =
      let at : d.index - 1 ≡ k = omega (arith, t.indexed k d used) in
      ((λ n. ground (arith, at)), remove-IsTable s.file_descriptors (d.index - 1) t)

  after_close-Closes :
      (s : Files W) (w : W) (k : ℕ) (d : FileDescriptor W) (r : Result ℕ)
      → IsTable s.file_descriptors
      → s.file_descriptors k ≡ some d
      → ClosesTo s (pos (k + 1)) (r, after_close (record s { world = w }) d r)
  unfolding after_close open_files
  after_close-Closes s w k d (err e) t used = (left (err-differs e) (λ n. refl), t)
  after_close-Closes s w k d (ok zero) t used =
      let (gone, t') = removed s w k d t used in
      (closed (k + 1) d refl refl (open_files-slot s k ∙ used) gone, t')
  after_close-Closes s w k d (ok (suc n)) t used =
      let there : (suc n == 0) ≡ false = ground arith in
      rw there (left (positive-differs n) (λ n. refl), t)

  pub fclose-found :
      (s : Files W) (fd : ℤ) (d : FileDescriptor W)
      → file_get_descriptor s fd ≡ some d
      → fclose s fd ≡ (
        (d.filesystem.close s.world d.private).0,
        after_close
            (record s { world = (d.filesystem.close s.world d.private).1 })
            d
            (d.filesystem.close s.world d.private).0,
      )
  unfolding fclose
  fclose-found s fd d found = rw (fclose, found) refl

  pub fclose-Closes :
      (s : Files W) (fd : ℤ) → IsTable s.file_descriptors → ClosesTo s fd (fclose s fd)
  unfolding fclose
  fclose-Closes s fd t = elim (file_get_descriptor-cases s fd) [
    | inl nothing ↦ rw (fclose, nothing) (left (err-differs eio) (λ n. refl), t)
    | inr (k, d, number, used, found) ↦
        let (r, w) = d.filesystem.close s.world d.private in
        subst (ClosesTo s fd) (sym (fclose-found s fd d found)) (
          subst (λ i. ClosesTo s i (r, after_close (record s { world = w }) d r)) (sym number)
            (after_close-Closes s w k d r t used))
  ]
