-- ===== src/Paging/Range.antt =====
-- `paging_map_range` and `paging_map_to` of memory/paging/paging.c.
use peach_os64bit_module_two.Common.{
  ℕ, zero, suc, ◌+◌, ◌-◌, ◌*◌, ◌/◌, ◌%◌, ◌^◌, ◌≤◌, ◌≡◌, ◌↔◌, inl, inr, Bool, ◌&&◌, arith, ltb, leb,
  ◌==◌, if◌then◌else◌, Bool-cases, ap, ◌∙◌, add64,
}
use peach_os64bit_module_two.Status.{ok}
use peach_os64bit_module_two.Paging.{
  Entry, Desc, page_entry, paging_map, paging_map_range, paging_map_to, page_size,
}
use peach_os64bit_module_two.Paging.Walk.{Shape, IsTree, translate}
use peach_os64bit_module_two.Paging.Map.{
  paging_map-allocs, paging_map-limit, grow_map, paging_map-translate, paging_map-IsTree,
}

-- What an address of the range, or another, leads to once `count` pages from `virt` on are mapped.
abbrev pub in_range : ℕ → ℕ → ℕ → Bool
in_range virt count va =
    leb (virt / 4096) (va / 4096 % 2 ^ 36) && ltb (va / 4096 % 2 ^ 36) (virt / 4096 + count)

abbrev pub range_entry : ℕ → ℕ → ℕ → ℕ → Entry
range_entry virt phys flags va = page_entry (phys + (va / 4096 % 2 ^ 36 - virt / 4096) * 4096) flags

-- One page more, where `q` is the page of an address, `v` the first page of the range.
range_step :
    (leads : ℕ → Entry) (e : Entry) (q v phys count : ℕ)
    → (if leb (v + 1) q && ltb q (v + 1 + count)
        then leads (phys + 4096 + (q - (v + 1)) * 4096)
        else if q == v
        then leads phys
        else e)
      ≡ (if leb v q && ltb q (v + suc count) then leads (phys + (q - v) * 4096) else e)
range_step leads e q v phys count = elim (Bool-cases (q == v)) [
  | inl first ↦
      let zero_off : phys + (q - v) * 4096 ≡ phys = ground arith in
      ground (arith, ap leads zero_off)
  | inr other ↦ elim (Bool-cases (leb v q)) [
    | inl above ↦
        let next : phys + 4096 + (q - (v + 1)) * 4096 ≡ phys + (q - v) * 4096 = ground arith in
        ground (arith, ap leads next)
    | inr under ↦ ground arith
  ]
]

module _ (kzalloc : ℕ → ℕ) where
  -- Mapping `count` pages from an aligned virtual address on, where neither range runs over the end
  -- of its address space, the tables are a tree and three frames a page are left: page k of the
  -- range leads to the k-th physical page, and every other address to what it led to before.
  pub paging_map_range-translate :
      (count : ℕ) (s : Shape) (d : Desc)
      → IsTree kzalloc s d
      → d.allocs + 3 * count ≤ s.limit
      → (virt phys flags : ℕ) → virt % 4096 ≡ 0
      → virt + count * 4096 ≤ 2 ^ 48
      → phys + count * 4096 ≤ 2 ^ 52
      → (va : ℕ)
      → translate (paging_map_range kzalloc count d virt phys flags) va
        ≡ (if in_range virt count va then range_entry virt phys flags va else translate d va)
  unfolding paging_map_range
  paging_map_range-translate zero s d tree room virt phys flags aligned fits fits' va = ground arith
  paging_map_range-translate (suc count) s d tree room virt phys flags aligned fits fits' va =
      let virt' : add64 virt page_size ≡ virt + 4096 = ground arith in
      let phys' : add64 phys page_size ≡ phys + 4096 = ground arith in
      let room3 : d.allocs + 3 ≤ s.limit = omega (arith, room) in
      let room' : (paging_map kzalloc d virt phys flags).allocs + 3 * count
          ≤ (grow_map kzalloc s d tree room3 virt).limit =
        omega (
          arith,
          room,
          paging_map-allocs kzalloc s d tree room3 virt phys flags,
          paging_map-limit kzalloc s d tree room3 virt,
        ) in
      let page : (virt + 4096) / 4096 ≡ virt / 4096 + 1 = omega arith in
      let low : virt / 4096 % 2 ^ 36 ≡ virt / 4096 = omega (arith, fits) in
      ap
        (λ v.
          translate
            (paging_map_range kzalloc count (paging_map kzalloc d virt phys flags) v
              (add64 phys page_size) flags)
            va)
        virt'
      ∙ ap
          (λ p.
            translate
              (paging_map_range kzalloc count (paging_map kzalloc d virt phys flags) (virt + 4096) p
                flags)
              va)
          phys'
      ∙ paging_map_range-translate count (grow_map kzalloc s d tree room3 virt)
          (paging_map kzalloc d virt phys flags)
          (paging_map-IsTree kzalloc s d tree room3 virt phys flags) room' (virt + 4096)
          (phys + 4096) flags (omega (arith, aligned)) (omega (arith, fits)) (omega (arith, fits'))
          va
      ∙ ap
          (λ e.
            if in_range (virt + 4096) count va
            then range_entry (virt + 4096) (phys + 4096) flags va
            else e)
          (paging_map-translate kzalloc s d tree room3 virt phys flags va)
      ∙ rw (page, low)
          (range_step (λ a. page_entry a flags) (translate d va) (va / 4096 % 2 ^ 36) (virt / 4096)
            phys count)

  -- `paging_map_to` succeeds just where its three addresses are aligned and the physical end is not
  -- before the start.
  pub paging_map_to-err :
      (d : Desc) (virt phys phys_end flags : ℕ)
      → ((paging_map_to kzalloc d virt phys phys_end flags).0 ≡ ok tt)
        ↔ ((virt % 4096 ≡ 0) × (phys % 4096 ≡ 0) × (phys_end % 4096 ≡ 0) × (phys ≤ phys_end))
  unfolding paging_map_to
  paging_map_to-err d virt phys phys_end flags = ground arith

  -- Where `paging_map_to` succeeds and neither range runs over the end of its address space, the
  -- tables are a tree and three frames a page are left, the pages lead to the physical range from
  -- start to end, and no other address leads elsewhere than before.
  pub paging_map_to-translate :
      (s : Shape) (d : Desc)
      → IsTree kzalloc s d
      → (virt phys phys_end flags : ℕ) → d.allocs + 3 * ((phys_end - phys) / 4096) ≤ s.limit
      → (paging_map_to kzalloc d virt phys phys_end flags).0 ≡ ok tt
      → virt + (phys_end - phys) ≤ 2 ^ 48
      → phys_end ≤ 2 ^ 52
      → (va : ℕ)
      → translate (paging_map_to kzalloc d virt phys phys_end flags).1 va ≡ (
          if in_range virt ((phys_end - phys) / 4096) va
          then range_entry virt phys flags va
          else translate d va)
  unfolding paging_map_to
  paging_map_to-translate s d tree virt phys phys_end flags room done fits fits' va =
      let (v, p, e, le) = (paging_map_to-err d virt phys phys_end flags).0 done in
      ground (
        arith,
        v,
        p,
        e,
        le,
        paging_map_range-translate ((phys_end - phys) / 4096) s d tree room virt phys flags v
            (omega (arith, fits)) (omega (arith, fits', le)) va,
      )
