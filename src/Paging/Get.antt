-- ===== src/Paging/Get.antt =====
-- `paging_get` and `paging_get_physical_address` of memory/paging/paging.c against the page walk.
use peach_os64bit_module_two.Common.{
  ℕ, ◌+◌, ◌*◌, ◌/◌, ◌%◌, ◌^◌, ◌≤◌, ◌≡◌, ◌≢◌, refl, true, false, arith, ap, ◌∙◌, sym, none, some, [],
  ◌∷◌,
}
use peach_os64bit_module_two.Paging.{
  Entry, null_entry, Desc, page_entry, paging_map, paging_get, paging_get_physical_address,
  pml4_index, pdpt_index, pd_index, pt_index,
}
use peach_os64bit_module_two.Paging.Walk.{
  indexes, indexes-same, null_entry-null_desc, walk-down, walk-up, Shape, IsTree, walk, translate,
  same_page,
}
use peach_os64bit_module_two.Paging.Map.{
  paging_map-translate, paging_map-pml, grow_map, paging_map-IsTree, f3, f2, map-pdpt, map-pd,
  map-pdpt_there, map-pd_there, map-new_pdpt,
}

-- The walk of a tree of tables whose three entries above the page are not null.
walk_lem :
    (kzalloc : ℕ → ℕ) (s : Shape) (d : Desc)
    → IsTree kzalloc s d
    → (va : ℕ)
    → let pdpt = (d.tables d.pml (pml4_index va)).address in
      let pd = (d.tables pdpt (pdpt_index va)).address in
      null_entry (d.tables d.pml (pml4_index va)) ≡ false
      → null_entry (d.tables pdpt (pdpt_index va)) ≡ false
      → null_entry (d.tables pd (pd_index va)) ≡ false
      → translate d va ≡ d.tables (d.tables pd (pd_index va)).address (pt_index va)
unfolding walk
walk_lem kzalloc s d tree va one two three =
    let pdpt : ℕ = (d.tables d.pml (pml4_index va)).address in
    let pd : ℕ = (d.tables pdpt (pdpt_index va)).address in
    let rank3 = (tree.below d.pml (pml4_index va) 2 tree.root one).0 in
    let rank2 = (tree.below pdpt (pdpt_index va) 1 rank3 two).0 in
    walk-down kzalloc s d tree d.pml (pml4_index va) (pdpt_index va) 2
      (pd_index va ∷ pt_index va ∷ []) tree.root one
    ∙ walk-down kzalloc s d tree pdpt (pdpt_index va) (pd_index va) 1 (pt_index va ∷ []) rank3 two
    ∙ walk-down kzalloc s d tree pd (pd_index va) (pt_index va) 0 [] rank2 three

-- An entry that `paging_get` returns from a tree of tables is the one that the processor finds.
pub paging_get-translate :
    (kzalloc : ℕ → ℕ) (s : Shape) (d : Desc)
    → IsTree kzalloc s d
    → (va : ℕ) (e : Entry) → paging_get d va ≡ some e
    → translate d va ≡ e
unfolding paging_get
paging_get-translate kzalloc s d tree va e got = ground (arith, got, walk_lem kzalloc s d tree va)

-- A null first entry of the table below hides the page.
pub paging_get-first :
    (d : Desc) (va : ℕ)
    → null_entry (d.tables (d.tables d.pml (pml4_index va)).address 0) ≡ true
    → paging_get d va ≡ none
unfolding paging_get
paging_get-first d va first = ground (arith, first)

-- Where the first entries of the two tables of a tree are present, `paging_get` is the walk.
pub paging_get-present :
    (kzalloc : ℕ → ℕ) (s : Shape) (d : Desc)
    → IsTree kzalloc s d
    → (va : ℕ) → null_entry (translate d va) ≡ false
    → let pdpt = (d.tables d.pml (pml4_index va)).address in
      null_entry (d.tables pdpt 0) ≡ false
      → null_entry (d.tables (d.tables pdpt (pdpt_index va)).address 0) ≡ false
      → paging_get d va ≡ some (translate d va)
unfolding paging_get
paging_get-present kzalloc s d tree va present one two =
    let pdpt : ℕ = (d.tables d.pml (pml4_index va)).address in
    let pd : ℕ = (d.tables pdpt (pdpt_index va)).address in
    let there1 =
      walk-up kzalloc d d.pml (pml4_index va) (pdpt_index va) (pd_index va ∷ pt_index va ∷ [])
        present in
    let rank3 = (tree.below d.pml (pml4_index va) 2 tree.root there1).0 in
    let down1 =
      walk-down kzalloc s d tree d.pml (pml4_index va) (pdpt_index va) 2
        (pd_index va ∷ pt_index va ∷ []) tree.root there1 in
    let there2 =
      walk-up kzalloc d pdpt (pdpt_index va) (pd_index va) (pt_index va ∷ [])
        (ap null_entry (sym down1) ∙ present) in
    let down2 =
      walk-down kzalloc s d tree pdpt (pdpt_index va) (pd_index va) 1 (pt_index va ∷ []) rank3
        there2 in
    let there3 =
      walk-up kzalloc d pd (pd_index va) (pt_index va) []
        (ap null_entry (sym down2) ∙ ap null_entry (sym down1) ∙ present) in
    ground
      (arith, one, two, there1, there2, there3, walk_lem kzalloc s d tree va there1 there2 there3)

-- It looks at the page of the address only.
paging_get-same :
    (d : Desc) (va virt : ℕ) → indexes va ≡ indexes virt → paging_get d va ≡ paging_get d virt
unfolding paging_get
paging_get-same d va virt same =
    let a : pml4_index va ≡ pml4_index virt = ground (arith, same) in
    let b : pdpt_index va ≡ pdpt_index virt = ground (arith, same) in
    let c : pd_index va ≡ pd_index virt = ground (arith, same) in
    let e : pt_index va ≡ pt_index virt = ground (arith, same) in rw (a, b, c, e) refl

page_entry-null : (phys flags : ℕ) → flags % 2 ≡ 1 → null_entry (page_entry phys flags) ≡ false
unfolding null_entry
page_entry-null phys flags present = ground (arith, present)

module _ (kzalloc : ℕ → ℕ) (s : Shape) (d : Desc) (tree : IsTree kzalloc s d)
    (room : d.allocs + 3 ≤ s.limit) (virt phys flags : ℕ) where
  abbrev after : Desc
  after = paging_map kzalloc d virt phys flags

  map-here : translate after virt ≡ page_entry phys flags
  map-here = paging_map-translate kzalloc s d tree room virt phys flags virt ∙ ground arith

  map-pdpt_entry :
      (j : ℕ)
      → after.tables (after.tables after.pml (pml4_index virt)).address j
        ≡ after.tables (f3 kzalloc s d tree room virt) j
  map-pdpt_entry j =
      ap (λ f. after.tables (after.tables f (pml4_index virt)).address j)
        (paging_map-pml kzalloc s d tree room virt phys flags)
      ∙ ap (λ f. after.tables f j) (map-pdpt kzalloc s d tree room virt phys flags)

  -- Where the tables are a tree and `kzalloc` has three frames left: a page mapped where its PDPT
  -- had to be allocated, other than in the first gigabyte of that table, is there for the
  -- processor, but `paging_get` returns NULL for it.
  pub paging_get-misses :
      null_entry (d.tables d.pml (pml4_index virt)) ≡ true
      → pdpt_index virt ≢ 0
      → (translate (paging_map kzalloc d virt phys flags) virt ≡ page_entry phys flags)
        × (paging_get (paging_map kzalloc d virt phys flags) virt ≡ none)
  paging_get-misses null other = (
    map-here,
    paging_get-first after virt (
        ap null_entry
          (map-pdpt_entry 0 ∙ map-new_pdpt kzalloc s d tree room virt phys flags 0 null other)
        ∙ null_entry-null_desc),
  )

  map-pd_entry :
      (j : ℕ)
      → after.tables
          (after.tables
            (after.tables after.pml (pml4_index virt)).address
            (pdpt_index virt)).address
          j
        ≡ after.tables (f2 kzalloc s d tree room virt) j
  map-pd_entry j =
      ap (λ e. after.tables e.address j)
        (map-pdpt_entry (pdpt_index virt) ∙ map-pd kzalloc s d tree room virt phys flags)

  -- Where the tables are a tree, `kzalloc` has three frames left, and the page is in the first
  -- gigabyte of its PDPT and in the first two megabytes of its PD,
  -- the physical address of every byte of a page that was mapped as present is the one it was
  -- mapped to.
  pub paging_get_physical_address-map :
      (va : ℕ)
      → same_page va virt ≡ true
      → flags % 2 ≡ 1
      → pdpt_index virt ≡ 0
      → pd_index virt ≡ 0
      → paging_get_physical_address (paging_map kzalloc d virt phys flags) va
        ≡ phys / 4096 % 2 ^ 40 * 4096 + va % 4096
  unfolding paging_get_physical_address
  paging_get_physical_address-map va same present one two =
      let pdpt_there : null_entry
            (after.tables (after.tables after.pml (pml4_index virt)).address 0)
          ≡ false =
        ap null_entry
          (map-pdpt_entry 0 ∙ ap (λ j. after.tables (f3 kzalloc s d tree room virt) j) (sym one))
        ∙ map-pdpt_there kzalloc s d tree room virt phys flags in
      let pd_there : null_entry (
            after.tables
              (after.tables (after.tables after.pml (pml4_index virt)).address
                (pdpt_index virt)).address
              0)
          ≡ false =
        ap null_entry
          (map-pd_entry 0 ∙ ap (λ j. after.tables (f2 kzalloc s d tree room virt) j) (sym two))
        ∙ map-pd_there kzalloc s d tree room virt phys flags in
      let got : paging_get after va ≡ some (page_entry phys flags) =
        paging_get-same after va virt (indexes-same va virt same)
        ∙ paging_get-present kzalloc (grow_map kzalloc s d tree room virt) after
            (paging_map-IsTree kzalloc s d tree room virt phys flags) virt
            (ap null_entry map-here ∙ page_entry-null phys flags present) pdpt_there pd_there
        ∙ ap some map-here in
      rw (paging_get_physical_address, got) refl
