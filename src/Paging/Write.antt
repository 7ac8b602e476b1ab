-- ===== src/Paging/Write.antt =====
-- What the last step of `paging_map` in memory/paging/paging.c does to the page walk.
use peach_os64bit_module_two.Common.{
  ℕ, ◌≡◌, inl, inr, refl, List, [], ◌∷◌, arith, Bool-cases, length,
}
use peach_os64bit_module_two.Paging.{Desc, null_entry, page_entry, write_page, pt_index}
use peach_os64bit_module_two.Paging.Walk.{
  walk, null_entry-present, restrict-all, Reaches, Shape, IsTree,
}

module _ (kzalloc : ℕ → ℕ) where
  -- An entry written in a page table is what a walk that ends there gives.
  pub write_page-here :
      (s : Shape) (d : Desc)
      → IsTree kzalloc s d
      → (f virt phys flags : ℕ) → s.rank f ≡ 1
      → (g : ℕ) (is : List ℕ) → s.rank g ≡ length is
      → Reaches d.tables f (pt_index virt) g is
      → walk (write_page kzalloc d f virt phys flags).tables g is ≡ page_entry phys flags
  unfolding walk write_page Reaches
  write_page-here s d tree f virt phys flags rank g [] len there = absurd there
  write_page-here s d tree f virt phys flags rank g (i ∷ []) len there = ground (arith, there)
  write_page-here s d tree f virt phys flags rank g (i ∷ j ∷ is) len (some, rest) = ground (
    arith,
    some,
    tree.leads g i (length is) len some,
    tree.below g i (length is),
    restrict-all (d.tables g i)
        (walk (write_page kzalloc d f virt phys flags).tables (d.tables g i).address (j ∷ is)),
    write_page-here s d tree f virt phys flags rank (d.tables g i).address (j ∷ is),
    rest,
  )

  pub write_page-there :
      (s : Shape) (d : Desc)
      → IsTree kzalloc s d
      → (f virt phys flags : ℕ) → s.rank f ≡ 1
      → (g : ℕ) (is : List ℕ) → s.rank g ≡ length is
      → ¬ Reaches d.tables f (pt_index virt) g is
      → walk (write_page kzalloc d f virt phys flags).tables g is ≡ walk d.tables g is
  unfolding walk write_page Reaches
  write_page-there s d tree f virt phys flags rank g [] len away = refl
  write_page-there s d tree f virt phys flags rank g (i ∷ []) len away = ground (arith, away)
  write_page-there s d tree f virt phys flags rank g (i ∷ j ∷ is) len away =
      elim (Bool-cases (null_entry (d.tables g i))) [
        | inl null ↦ ground (arith, null_entry-present (d.tables g i) null)
        | inr some ↦ ground (
          arith,
          tree.leads g i (length is) len some,
          tree.below g i (length is),
          write_page-there s d tree f virt phys flags rank (d.tables g i).address (j ∷ is)
              ((tree.below g i (length is) len some).0) (λ r. away (some, r)),
        )
      ]

  pub write_page-IsTree :
      (s : Shape) (d : Desc)
      → IsTree kzalloc s d
      → (f virt phys flags : ℕ) → s.rank f ≡ 1
      → IsTree kzalloc s (write_page kzalloc d f virt phys flags)
  unfolding write_page
  write_page-IsTree s d tree f virt phys flags rank = record {
    root = tree.root;
    below = λ g i l deep some. ground (arith, tree.below g i l);
    leads = λ g i l deep some. ground (arith, tree.leads g i l);
    fresh = tree.fresh;
    apart = tree.apart;
  }
