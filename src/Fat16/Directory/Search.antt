-- ===== src/Fat16/Directory/Search.antt =====
-- The search of fs/fat/fat16.c in a directory and along a path.
use peach_os64bit_module_two.Common.{
  ℕ, zero, suc, ◌+◌, ◌<◌, ◌≤◌, ◌≡◌, ◌≢◌, ◌⊎◌, inl, inr, refl, ap, ◌∙◌, Bool, true, false, arith,
  Bool-cases, Option, none, some, List, ◌∷◌,
}
use peach_os64bit_module_two.Status.{Result}
use peach_os64bit_module_two.Memory.{Mem}
use peach_os64bit_module_two.Fat16.{
  FatPrivate, FatDirectory, FatItem, FatDirectoryItem, directory_item, file_item,
}
use peach_os64bit_module_two.Fat16.Directory.{
  full_relative_filename, is_subdirectory, load_fat_directory, is_named, new_fat_item, find_loop,
  find_item_in_directory, reads_null, walk, get_directory_entry,
}
use peach_os64bit_module_two.Fat16.Directory.Names.{SameName, is_named-SameName}

pub at_or_before : (i k : ℕ) → i ≤ k → (i ≡ k) ⊎ (i < k)
at_or_before i k h = ground (arith, h)

module _ {A : Type 0} (fetch : A → ℕ → Result (ℕ → ℕ) × A) (kzalloc : A → Bool × A) (null : Mem)
    (fuel : ℕ) (fat : FatPrivate) where
  pass_by :
      (rounds : ℕ) (st : A) (d : FatDirectory) (name : ℕ → ℕ) (i : ℕ) (f : Option FatItem)
      → is_named (d.item i) name ≡ false
      → find_loop fetch kzalloc null (suc rounds) fuel fat st d name i f
        ≡ find_loop fetch kzalloc null rounds fuel fat st d name (i + 1) f
  unfolding find_loop
  pass_by rounds st d name i f other = rw (find_loop, other) refl

  -- Items of other names leave what was found.
  find_loop-passes :
      (rounds : ℕ) (st : A) (d : FatDirectory) (name : ℕ → ℕ) (i : ℕ) (f : Option FatItem)
      → ((j : ℕ) → i ≤ j → j < i + rounds → is_named (d.item j) name ≡ false)
      → find_loop fetch kzalloc null rounds fuel fat st d name i f ≡ some (f, st)
  unfolding find_loop
  find_loop-passes zero st d name i f others = refl
  find_loop-passes (suc rounds) st d name i f others =
      pass_by rounds st d name i f (others i (omega arith) (omega arith))
      ∙ find_loop-passes rounds st d name (i + 1) f
          (λ j from to. others j (omega (arith, from)) (omega (arith, to)))

  stop_at :
      (rounds : ℕ) (st st' : A) (d : FatDirectory) (name : ℕ → ℕ) (i : ℕ) (f it : Option FatItem)
      → is_named (d.item i) name ≡ true
      → new_fat_item fetch kzalloc null fuel fat st (d.item i) ≡ some (it, st')
      → find_loop fetch kzalloc null (suc rounds) fuel fat st d name i f
        ≡ find_loop fetch kzalloc null rounds fuel fat st' d name (i + 1) it
  unfolding find_loop
  stop_at rounds st st' d name i f it named made = rw (find_loop, named, made) refl

  -- The one item of the name is the result.
  find_loop-finds :
      (rounds : ℕ) (st st' : A) (d : FatDirectory) (name : ℕ → ℕ) (i k : ℕ) (f it : Option FatItem)
      → i ≤ k
      → k < i + rounds
      → is_named (d.item k) name ≡ true
      → ((j : ℕ) → i ≤ j → j < i + rounds → j ≢ k → is_named (d.item j) name ≡ false)
      → new_fat_item fetch kzalloc null fuel fat st (d.item k) ≡ some (it, st')
      → find_loop fetch kzalloc null rounds fuel fat st d name i f ≡ some (it, st')
  unfolding find_loop
  find_loop-finds zero st st' d name i k f it from to named others made =
      absurd (omega (arith, from, to))
  find_loop-finds (suc rounds) st st' d name i k f it from to named others made =
      elim (at_or_before i k from) [
        | inl here ↦
            stop_at rounds st st' d name i f it (ap (λ j. is_named (d.item j) name) here ∙ named)
              (ap (λ j. new_fat_item fetch kzalloc null fuel fat st (d.item j)) here ∙ made)
            ∙ find_loop-passes rounds st' d name (i + 1) it (λ j from' to'.
              others j (omega (arith, from')) (omega (arith, to')) (omega (arith, from', here)))
        | inr before ↦
            pass_by rounds st d name i f
              (others i (omega arith) (omega arith) (omega (arith, before)))
            ∙ find_loop-finds rounds st st' d name (i + 1) k f it (omega (arith, before))
                (omega (arith, to)) named
                (λ j from' to'. others j (omega (arith, from')) (omega (arith, to'))) made
      ]

  -- What a file system item is made of an item of a directory: a file of it itself, or the
  -- directory that it leads to.
  pub data Makes (st : A) (item : FatDirectoryItem) : FatItem → A → Type 0 where
    a_file :
        is_subdirectory item ≡ false
        → (kzalloc st).0 ≡ true
        → (kzalloc (kzalloc st).1).0 ≡ true
        → Makes st item (file_item item) (kzalloc (kzalloc st).1).1
    a_directory :
        (loaded : Option FatDirectory) (st' : A)
        → is_subdirectory item ≡ true
        → (kzalloc st).0 ≡ true
        → load_fat_directory fetch kzalloc null fuel fat (kzalloc st).1 item ≡ some (loaded, st')
        → Makes st item (directory_item loaded) st'

  new_fat_item-Makes :
      (st st' : A) (item : FatDirectoryItem) (it : FatItem)
      → Makes st item it st'
      → new_fat_item fetch kzalloc null fuel fat st item ≡ some (some it, st')
  unfolding new_fat_item
  new_fat_item-Makes st _ item _ (a_file plain got cloned) =
      rw (new_fat_item, got, plain, cloned) refl
  new_fat_item-Makes st _ item _ (a_directory loaded st' sub got load) =
      rw (new_fat_item, got, sub, load) refl

  not_named :
      (item : FatDirectoryItem) (name : ℕ → ℕ)
      → ¬ SameName (full_relative_filename item) name
      → is_named item name ≡ false
  not_named item name other = elim (Bool-cases (is_named item name)) [
    | inl named ↦ absurd (other ((is_named-SameName item name).0 named))
    | inr away ↦ away
  ]

  -- Where one item of a directory has the name that is asked for, up to the case of letters, and no
  -- other item has it, the search finds that item: a file of the item itself, or the directory that
  -- it leads to.
  pub find_item_in_directory_lem :
      (st st' : A) (d : FatDirectory) (name : ℕ → ℕ) (k : ℕ) (it : FatItem)
      → k < d.total
      → SameName (full_relative_filename (d.item k)) name
      → ((j : ℕ) → j < d.total → j ≢ k → ¬ SameName (full_relative_filename (d.item j)) name)
      → Makes st (d.item k) it st'
      → find_item_in_directory fetch kzalloc null fuel fat st d name ≡ some (some it, st')
  unfolding find_item_in_directory
  find_item_in_directory_lem st st' d name k it low named others made =
      find_loop-finds d.total st st' d name 0 k none (some it) (omega arith) (omega (arith, low))
        ((is_named-SameName (d.item k) name).1 named)
        (λ j from to other. not_named (d.item j) name (others j (omega (arith, to)) other))
        (new_fat_item-Makes st st' (d.item k) it made)

  -- Where no item below the total has the name, the search finds nothing.
  pub find_item_in_directory-none :
      (st : A) (d : FatDirectory) (name : ℕ → ℕ)
      → ((j : ℕ) → j < d.total → ¬ SameName (full_relative_filename (d.item j)) name)
      → find_item_in_directory fetch kzalloc null fuel fat st d name ≡ some (none, st)
  unfolding find_item_in_directory
  find_item_in_directory-none st d name others =
      find_loop-passes d.total st d name 0 none
        (λ j from to. not_named (d.item j) name (others j (omega (arith, to))))

  -- Where the first part of a path is a directory of the root, the second part is no item of it,
  -- and there is a third part, the type of an item at NULL is read.
  pub get_directory_entry-null :
      (st st' : A) (d : FatDirectory) (first second third : ℕ → ℕ) (rest : List (ℕ → ℕ))
      → find_item_in_directory fetch kzalloc null fuel fat st fat.root_directory first
        ≡ some (some (directory_item (some d)), st')
      → ((j : ℕ) → j < d.total → ¬ SameName (full_relative_filename (d.item j)) second)
      → get_directory_entry fetch kzalloc null fuel fat st first (second ∷ third ∷ rest)
        ≡ some (reads_null, st')
  unfolding get_directory_entry walk
  get_directory_entry-null st st' d first second third rest root none_named =
      rw (get_directory_entry, root, walk, find_item_in_directory-none st' d second none_named) refl
