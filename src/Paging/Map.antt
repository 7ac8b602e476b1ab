-- ===== src/Paging/Map.antt =====
-- What `paging_map` of memory/paging/paging.c does to the page walk, at every address.
use peach_os64bit_module_two.Common.{
  ℕ, ◌+◌, ◌<◌, ◌≤◌, ◌≡◌, ◌≢◌, inl, inr, refl, true, false, List, [], ◌∷◌, arith, if◌then◌else◌,
  Bool-cases, length, ap, ◌∙◌, sym, subst,
}
use peach_os64bit_module_two.Paging.{
  null_desc, Desc, null_entry, page_entry, ensure, write_page, paging_map, pml4_index, pdpt_index,
  pd_index, pt_index,
}
use peach_os64bit_module_two.Paging.Walk.{
  walk, translate, same_page, indexes, indexes-same, same_page-indexes, Reaches, Reaches-unique,
  Shape, IsTree,
}
use peach_os64bit_module_two.Paging.Ensure.{
  ensure-child, grow, grow-rank, ensure-keeps, ensure-pml, ensure-null, ensure-allocs, grow-limit,
  ensure-IsTree, ensure-walk,
}
use peach_os64bit_module_two.Paging.Write.{write_page-here, write_page-there, write_page-IsTree}

module _ (kzalloc : ℕ → ℕ) where
  module _ (s : Shape) (d : Desc) (tree : IsTree kzalloc s d) (room : d.allocs + 3 ≤ s.limit)
      (virt : ℕ) where
    room4 : d.allocs < s.limit
    room4 = omega (arith, room)

    abbrev d4 : Desc
    d4 = ensure kzalloc d d.pml (pml4_index virt)

    abbrev s4 : Shape
    s4 = grow kzalloc s d d.pml (pml4_index virt)

    tree4 : IsTree kzalloc s4 d4
    tree4 = ensure-IsTree kzalloc s d tree room4 d.pml (pml4_index virt) 2 tree.root

    abbrev pub f3 : ℕ
    f3 = (d4.tables d.pml (pml4_index virt)).address

    root4 : s4.rank d.pml ≡ 4
    root4 =
        grow-rank kzalloc s d tree room4 d.pml (pml4_index virt) d.pml (ground (arith, tree.root))
        ∙ tree.root

    rank3 : s4.rank f3 ≡ 3
    rank3 =
        (tree4.below d.pml (pml4_index virt) 2 root4
          (ensure-null kzalloc d d.pml (pml4_index virt))).0

    -- Each step allocates once at most.
    room3 : d4.allocs + 2 ≤ s4.limit
    room3 = omega (
      arith,
      room,
      ensure-allocs kzalloc d d.pml (pml4_index virt),
      grow-limit kzalloc s d d.pml (pml4_index virt),
    )

    abbrev d3 : Desc
    d3 = ensure kzalloc d4 f3 (pdpt_index virt)

    abbrev s3 : Shape
    s3 = grow kzalloc s4 d4 f3 (pdpt_index virt)

    tree3 : IsTree kzalloc s3 d3
    tree3 = ensure-IsTree kzalloc s4 d4 tree4 (omega (arith, room3)) f3 (pdpt_index virt) 1 rank3

    abbrev pub f2 : ℕ
    f2 = (d3.tables f3 (pdpt_index virt)).address

    root3 : s3.rank d.pml ≡ 4
    root3 =
        grow-rank kzalloc s4 d4 tree4 (omega (arith, room3)) f3 (pdpt_index virt) d.pml
          (ground (arith, root4))
        ∙ root4

    rank2 : s3.rank f2 ≡ 2
    rank2 =
        (tree3.below f3 (pdpt_index virt) 1
          (grow-rank kzalloc s4 d4 tree4 (omega (arith, room3)) f3 (pdpt_index virt) f3
              (ground (arith, rank3))
            ∙ rank3)
          (ensure-null kzalloc d4 f3 (pdpt_index virt))).0

    room2 : d3.allocs < s3.limit
    room2 = omega (
      arith,
      room3,
      ensure-allocs kzalloc d4 f3 (pdpt_index virt),
      grow-limit kzalloc s4 d4 f3 (pdpt_index virt),
    )

    abbrev d2 : Desc
    d2 = ensure kzalloc d3 f2 (pd_index virt)

    abbrev s2 : Shape
    s2 = grow kzalloc s3 d3 f2 (pd_index virt)

    tree2 : IsTree kzalloc s2 d2
    tree2 = ensure-IsTree kzalloc s3 d3 tree3 room2 f2 (pd_index virt) 0 rank2

    abbrev f1 : ℕ
    f1 = (d2.tables f2 (pd_index virt)).address

    root2 : s2.rank d.pml ≡ 4
    root2 =
        grow-rank kzalloc s3 d3 tree3 room2 f2 (pd_index virt) d.pml (ground (arith, root3)) ∙ root3

    rank1 : s2.rank f1 ≡ 1
    rank1 =
        (tree2.below f2 (pd_index virt) 0
          (grow-rank kzalloc s3 d3 tree3 room2 f2 (pd_index virt) f2 (ground (arith, rank2))
            ∙ rank2)
          (ensure-null kzalloc d3 f2 (pd_index virt))).0

    -- The three steps leave every walk as it was.
    walk-d2 : (is : List ℕ) → 4 ≡ length is → walk d2.tables d.pml is ≡ walk d.tables d.pml is
    walk-d2 is len =
        ensure-walk kzalloc s3 d3 tree3 room2 f2 (pd_index virt) 0 rank2 d.pml is (root3 ∙ len)
        ∙ ensure-walk kzalloc s4 d4 tree4 (omega (arith, room3)) f3 (pdpt_index virt) 1 rank3 d.pml
            is (root4 ∙ len)
        ∙ ensure-walk kzalloc s d tree room4 d.pml (pml4_index virt) 2 tree.root d.pml is
            (tree.root ∙ len)

    entry3 : d3.tables d.pml (pml4_index virt) ≡ d4.tables d.pml (pml4_index virt)
    entry3 =
        ensure-keeps kzalloc s4 d4 tree4 (omega (arith, room3)) f3 (pdpt_index virt) d.pml
          (pml4_index virt) (ground (arith, root4))
          (λ h. ensure-null kzalloc d d.pml (pml4_index virt))

    entry2 : d2.tables d.pml (pml4_index virt) ≡ d4.tables d.pml (pml4_index virt)
    entry2 =
        ensure-keeps kzalloc s3 d3 tree3 room2 f2 (pd_index virt) d.pml (pml4_index virt)
          (ground (arith, root3))
          (λ h. ap null_entry entry3 ∙ ensure-null kzalloc d d.pml (pml4_index virt))
        ∙ entry3

    entry2' : d2.tables f3 (pdpt_index virt) ≡ d3.tables f3 (pdpt_index virt)
    entry2' =
        ensure-keeps kzalloc s3 d3 tree3 room2 f2 (pd_index virt) f3 (pdpt_index virt)
          (ground (
            arith,
            rank3,
            grow-rank kzalloc s4 d4 tree4 (omega (arith, room3)) f3 (pdpt_index virt) f3,
          ))
          (λ h. ensure-null kzalloc d4 f3 (pdpt_index virt))

    deep3 : s2.rank f3 ≡ 3
    deep3 = ground (
      arith,
      rank3,
      grow-rank kzalloc s4 d4 tree4 (omega (arith, room3)) f3 (pdpt_index virt) f3,
      grow-rank kzalloc s3 d3 tree3 room2 f2 (pd_index virt) f3,
    )

    deep2 : s2.rank f2 ≡ 2
    deep2 = ground (arith, rank2, grow-rank kzalloc s3 d3 tree3 room2 f2 (pd_index virt) f2)

    -- The last step writes in the page table only.
    write-other :
        (phys flags g j : ℕ)
        → s2.rank g ≢ 1
        → (paging_map kzalloc d virt phys flags).tables g j ≡ d2.tables g j
    unfolding paging_map write_page
    write-other phys flags g j rank = ground (arith, rank1)

    reaches : Reaches d2.tables f1 (pt_index virt) d.pml (indexes virt)
    unfolding Reaches
    reaches = (
      ap null_entry entry2 ∙ ensure-null kzalloc d d.pml (pml4_index virt),
      subst
          (λ e.
            Reaches d2.tables f1 (pt_index virt) e.address
              (pdpt_index virt ∷ pd_index virt ∷ pt_index virt ∷ []))
          (sym entry2)
          (
            ap null_entry entry2' ∙ ensure-null kzalloc d4 f3 (pdpt_index virt),
            subst
                (λ e.
                  Reaches d2.tables f1 (pt_index virt) e.address
                    (pd_index virt ∷ pt_index virt ∷ []))
                (sym entry2') (ensure-null kzalloc d3 f2 (pd_index virt), (refl, refl)),
          ),
    )

    pml2 : d2.pml ≡ d.pml
    pml2 =
        ensure-pml kzalloc d3 f2 (pd_index virt)
        ∙ ensure-pml kzalloc d4 f3 (pdpt_index virt)
        ∙ ensure-pml kzalloc d d.pml (pml4_index virt)

    pub paging_map-pml : (phys flags : ℕ) → (paging_map kzalloc d virt phys flags).pml ≡ d.pml
    unfolding paging_map write_page
    paging_map-pml phys flags = pml2

    walk-map :
        (phys flags va : ℕ)
        → walk (write_page kzalloc d2 f1 virt phys flags).tables d.pml (indexes va)
          ≡ (if same_page va virt then page_entry phys flags else walk d.tables d.pml (indexes va))
    walk-map phys flags va = elim (Bool-cases (same_page va virt)) [
      | inl same ↦
          rw (same, indexes-same va virt same)
            (write_page-here kzalloc s2 d2 tree2 f1 virt phys flags rank1 d.pml (indexes virt) root2
              reaches)
      | inr other ↦
          let apart : ¬ Reaches d2.tables f1 (pt_index virt) d.pml (indexes va) = λ there.
            same_page-indexes va virt other (
              sym (
                Reaches-unique kzalloc s2 d2 tree2 f1 (pt_index virt) d.pml (indexes virt)
                  (indexes va) root2 refl reaches there)) in
          rw other (
            write_page-there kzalloc s2 d2 tree2 f1 virt phys flags rank1 d.pml (indexes va) root2
              apart
            ∙ walk-d2 (indexes va) refl)
    ]

    -- `grow` for the three steps.
    abbrev pub grow_map : Shape
    grow_map = s2

    -- `paging_map` keeps the tables a tree, where `kzalloc` has three frames left.
    pub paging_map-IsTree :
        (phys flags : ℕ) → IsTree kzalloc grow_map (paging_map kzalloc d virt phys flags)
    unfolding paging_map
    paging_map-IsTree phys flags = write_page-IsTree kzalloc s2 d2 tree2 f1 virt phys flags rank1

    -- Where the tables are a tree and `kzalloc` has three frames left: after `paging_map` the
    -- processor finds the new entry at every address of the page, with the physical address and the
    -- flags of the call, and at every other address what it found before.
    pub paging_map-translate :
        (phys flags va : ℕ)
        → translate (paging_map kzalloc d virt phys flags) va
          ≡ (if same_page va virt then page_entry phys flags else translate d va)
    unfolding paging_map
    paging_map-translate phys flags va =
        ap (λ f. walk (write_page kzalloc d2 f1 virt phys flags).tables f (indexes va))
          (paging_map-pml phys flags)
        ∙ walk-map phys flags va

    -- The tables that the address goes through afterwards.
    pub map-pdpt :
        (phys flags : ℕ)
        → ((paging_map kzalloc d virt phys flags).tables d.pml (pml4_index virt)).address ≡ f3
    map-pdpt phys flags =
        ap (λ e. e.address)
          (write-other phys flags d.pml (pml4_index virt) (ground (arith, root2)) ∙ entry2)

    pub map-pd :
        (phys flags : ℕ)
        → (paging_map kzalloc d virt phys flags).tables f3 (pdpt_index virt)
          ≡ d3.tables f3 (pdpt_index virt)
    map-pd phys flags =
        write-other phys flags f3 (pdpt_index virt) (ground (arith, deep3)) ∙ entry2'

    pub map-pt :
        (phys flags : ℕ)
        → (paging_map kzalloc d virt phys flags).tables f2 (pd_index virt)
          ≡ d2.tables f2 (pd_index virt)
    map-pt phys flags = write-other phys flags f2 (pd_index virt) (ground (arith, deep2))

    -- In a PDPT that was just allocated, the other entries stay null.
    pub map-new_pdpt :
        (phys flags j : ℕ)
        → null_entry (d.tables d.pml (pml4_index virt)) ≡ true
        → pdpt_index virt ≢ j
        → (paging_map kzalloc d virt phys flags).tables f3 j ≡ null_desc
    map-new_pdpt phys flags j null other =
        write-other phys flags f3 j (ground (arith, deep3))
        ∙ ensure-keeps kzalloc s3 d3 tree3 room2 f2 (pd_index virt) f3 j
            (ground (
              arith,
              rank3,
              grow-rank kzalloc s4 d4 tree4 (omega (arith, room3)) f3 (pdpt_index virt) f3,
            ))
            (λ (same, _). absurd (
              omega (
                arith,
                rank2,
                grow-rank kzalloc s4 d4 tree4 (omega (arith, room3)) f3 (pdpt_index virt) f3
                    (ground (arith, rank3)),
                rank3,
                ap s3.rank same,
              )))
        ∙ ensure-keeps kzalloc s4 d4 tree4 (omega (arith, room3)) f3 (pdpt_index virt) f3 j
            (ground (arith, rank3)) (λ (_, same). absurd (other (sym same)))
        ∙ ensure-child kzalloc s d tree room4 d.pml (pml4_index virt) (ground (arith, tree.root))
            null j

    pub map-pdpt_there :
        (phys flags : ℕ)
        → null_entry ((paging_map kzalloc d virt phys flags).tables f3 (pdpt_index virt)) ≡ false
    map-pdpt_there phys flags =
        ap null_entry (map-pd phys flags) ∙ ensure-null kzalloc d4 f3 (pdpt_index virt)

    pub map-pd_there :
        (phys flags : ℕ)
        → null_entry ((paging_map kzalloc d virt phys flags).tables f2 (pd_index virt)) ≡ false
    map-pd_there phys flags =
        ap null_entry (map-pt phys flags) ∙ ensure-null kzalloc d3 f2 (pd_index virt)

    pub paging_map-allocs :
        (phys flags : ℕ) → (paging_map kzalloc d virt phys flags).allocs ≤ d.allocs + 3
    unfolding paging_map write_page
    paging_map-allocs phys flags = omega (
      arith,
      ensure-allocs kzalloc d d.pml (pml4_index virt),
      ensure-allocs kzalloc d4 f3 (pdpt_index virt),
      ensure-allocs kzalloc d3 f2 (pd_index virt),
    )

    pub paging_map-limit : grow_map.limit ≡ s.limit
    paging_map-limit =
        grow-limit kzalloc s3 d3 f2 (pd_index virt)
        ∙ grow-limit kzalloc s4 d4 f3 (pdpt_index virt)
        ∙ grow-limit kzalloc s d d.pml (pml4_index virt)
