-- ===== src/Paging/Ensure.antt =====
-- What one step of `paging_map` in memory/paging/paging.c, which allocates a missing table, does to
-- the tables.
use peach_os64bit_module_two.Common.{
  ℕ, suc, ◌+◌, ◌-◌, ◌<◌, ◌≤◌, ◌≡◌, ◌≢◌, inl, inr, refl, true, false, ◌&&◌, List, [], ◌∷◌, arith,
  ◌==◌, if◌then◌else◌, Bool-cases, length, update, ap, ◌∙◌, sym,
}
use peach_os64bit_module_two.Paging.{Entry, null_desc, Desc, null_entry, ensure}
use peach_os64bit_module_two.Paging.Walk.{
  walk, Shape, IsTree, null_entry-table_entry, null_entry-null_desc, null_entry-present,
  walk-null_below, walk-absent,
}

module _ (kzalloc : ℕ → ℕ) where
  -- The shape after `ensure`.
  unfoldable pub grow : Shape → Desc → ℕ → ℕ → Shape
  grow s d f i =
      if null_entry (d.tables f i)
      then record {
        rank = update s.rank (kzalloc d.allocs) (s.rank f - 1);
        table = update s.table (kzalloc d.allocs) f;
        place = update s.place (kzalloc d.allocs) i;
        limit = s.limit;
      }
      else s

  -- Another table's entry, and an entry that leads on, stay.
  pub ensure-keeps :
      (s : Shape) (d : Desc)
      → IsTree kzalloc s d
      → d.allocs < s.limit
      → (f i g j : ℕ) → s.rank g ≢ 0
      → ((g ≡ f) × (j ≡ i) → null_entry (d.tables g j) ≡ false)
      → (ensure kzalloc d f i).tables g j ≡ d.tables g j
  unfolding ensure
  ensure-keeps s d tree room f i g j rank keeps = ground (arith, tree.fresh d.allocs)

  pub ensure-pml : (d : Desc) (f i : ℕ) → (ensure kzalloc d f i).pml ≡ d.pml
  unfolding ensure
  ensure-pml d f i = ground arith

  -- The entry leads on.
  pub ensure-null : (d : Desc) (f i : ℕ) → null_entry ((ensure kzalloc d f i).tables f i) ≡ false
  unfolding ensure
  ensure-null d f i = ground (arith, null_entry-table_entry (kzalloc d.allocs))

  pub ensure-IsTree :
      (s : Shape) (d : Desc)
      → IsTree kzalloc s d
      → d.allocs < s.limit
      → (f i l : ℕ) → s.rank f ≡ suc (suc l)
      → IsTree kzalloc (grow s d f i) (ensure kzalloc d f i)
  unfolding grow ensure
  ensure-IsTree s d tree room f i l rank = elim (Bool-cases (null_entry (d.tables f i))) [
    | inl null ↦ rw null record {
      root = ground (arith, tree.root, tree.fresh d.allocs);
      below = λ g j k deep some.
          ground (arith, tree.fresh d.allocs, tree.below g j k, null_entry-null_desc);
      leads = λ g j k deep some.
          ground (arith, tree.fresh d.allocs, tree.leads g j k, null_entry-null_desc);
      fresh = λ n le top. ground (arith, tree.fresh n, tree.apart d.allocs n);
      apart = λ n m le lt top. tree.apart n m (omega (arith, le)) lt top;
    }
    | inr some ↦ rw some tree
  ]

  -- A table just allocated is empty.
  pub ensure-child :
      (s : Shape) (d : Desc)
      → IsTree kzalloc s d
      → d.allocs < s.limit
      → (f i : ℕ) → s.rank f ≢ 0
      → null_entry (d.tables f i) ≡ true
      → (j : ℕ)
      → (ensure kzalloc d f i).tables ((ensure kzalloc d f i).tables f i).address j ≡ null_desc
  unfolding ensure
  ensure-child s d tree room f i rank null j = ground (arith, tree.fresh d.allocs)

  -- The walk from any table stays.
  pub ensure-walk :
      (s : Shape) (d : Desc)
      → IsTree kzalloc s d
      → d.allocs < s.limit
      → (f i l : ℕ) → s.rank f ≡ suc (suc l)
      → (g : ℕ) (is : List ℕ) → s.rank g ≡ length is
      → walk (ensure kzalloc d f i).tables g is ≡ walk d.tables g is
  unfolding walk
  ensure-walk s d tree room f i l rank g [] len = refl
  ensure-walk s d tree room f i l rank g (j ∷ []) len =
      ensure-keeps s d tree room f i g j (ground arith) (ground arith)
  ensure-walk s d tree room f i l rank g (j ∷ j' ∷ is) len =
      elim (Bool-cases (null_entry (d.tables g j))) [
        | inl null ↦
            let absent = null_entry-present (d.tables g j) null in
            elim (Bool-cases ((g == f) && (j == i))) [
              | inl here ↦
                  let t : ℕ → ℕ → Entry = (ensure kzalloc d f i).tables in
                  let table_at : g ≡ f = ground (arith, here) in
                  let place_at : j ≡ i = ground (arith, here) in
                  let below : (t g j).address ≡ (t f i).address =
                    ap (λ x. (t x j).address) table_at ∙ ap (λ x. (t f x).address) place_at in
                  let empty =
                    ensure-child s d tree room f i (omega (arith, rank))
                      (ground (arith, here, null)) in
                  walk-null_below t g j j' is (λ k. ap (λ x. t x k) below ∙ empty k)
                  ∙ sym (walk-absent d.tables g j j' is absent)
              | inr away ↦ ground (arith, absent, ensure-keeps s d tree room f i g j)
            ]
        | inr some ↦ ground (
          arith,
          ensure-keeps s d tree room f i g j,
          ensure-walk s d tree room f i l rank (d.tables g j).address (j' ∷ is),
          tree.below g j (length is),
          tree.leads g j (length is),
        )
      ]

  pub grow-rank :
      (s : Shape) (d : Desc)
      → IsTree kzalloc s d
      → d.allocs < s.limit
      → (f i g : ℕ) → s.rank g ≢ 0
      → (grow s d f i).rank g ≡ s.rank g
  unfolding grow
  grow-rank s d tree room f i g rank = ground (arith, tree.fresh d.allocs)

  pub ensure-allocs : (d : Desc) (f i : ℕ) → (ensure kzalloc d f i).allocs ≤ d.allocs + 1
  unfolding ensure
  ensure-allocs d f i = ground arith

  pub grow-limit : (s : Shape) (d : Desc) (f i : ℕ) → (grow s d f i).limit ≡ s.limit
  unfolding grow
  grow-limit s d f i = ground arith
