-- ===== src/Paging/Walk.antt =====
-- The page walk of the processor, and the shape of the tables of memory/paging/paging.c.
use peach_os64bit_module_two.Common.{
  ℕ, zero, suc, ◌/◌, ◌%◌, ◌^◌, ◌<◌, ◌≤◌, ◌≡◌, ◌≢◌, inl, inr, Bool-cases, refl, Bool, true, false,
  List, [], ◌∷◌, arith, ◌==◌, if◌then◌else◌, length, ap, ◌∙◌, ◌&&◌, sym, subst,
}
use peach_os64bit_module_two.Paging.{
  Entry, null_desc, Desc, null_entry, table_entry, pml4_index, pdpt_index, pd_index, pt_index,
}

-- What an entry above allows of what an entry below allows.
unfoldable pub restrict : Entry → Entry → Entry
restrict above e = record e {
  read_write = above.read_write && e.read_write;
  user_supervisor = above.user_supervisor && e.user_supervisor;
}

-- The entry that the indexes lead to from the table in frame `f`, as the processor finds it: an
-- entry above the last level leads on where its present bit is set, and else to nothing, and the
-- rights are those that every level gives.
unfoldable pub walk : (ℕ → ℕ → Entry) → ℕ → List ℕ → Entry
walk t f [] = null_desc
walk t f (i ∷ []) = t f i
walk t f (i ∷ j ∷ is) =
    if (t f i).present then restrict (t f i) (walk t (t f i).address (j ∷ is)) else null_desc

-- The walk from table `g` ends at entry `p` of table `f`.
unfoldable pub Reaches : (ℕ → ℕ → Entry) → ℕ → ℕ → ℕ → List ℕ → Type 0
Reaches t f p g [] = ⊥
Reaches t f p g (i ∷ []) = (g ≡ f) × (i ≡ p)
Reaches t f p g (i ∷ j ∷ is) = (null_entry (t g i) ≡ false) × Reaches t f p (t g i).address (j ∷ is)

-- `rank` is the level of a table's frame, 0 for any other frame; the table stands in entry `place`
-- of `table`. `limit` is the number of calls of `kzalloc` that memory is there for.
pub record Shape : Type 0 where
  pub rank : ℕ → ℕ
  pub table : ℕ → ℕ
  pub place : ℕ → ℕ
  pub limit : ℕ

-- The tables form a tree, an entry above the last level that is not null is present and gives every
-- right, and the frames that `kzalloc` returns up to that limit are
-- different ones of 40 bits, and no tables yet.
pub record IsTree (kzalloc : ℕ → ℕ) (s : Shape) (d : Desc) : Type 0 where
  pub root : s.rank d.pml ≡ 4
  pub below :
      (f i l : ℕ)
      → s.rank f ≡ suc (suc l)
      → null_entry (d.tables f i) ≡ false
      → (s.rank (d.tables f i).address ≡ suc l)
        × (s.table (d.tables f i).address ≡ f)
        × (s.place (d.tables f i).address ≡ i)
  pub leads :
      (f i l : ℕ)
      → s.rank f ≡ suc (suc l)
      → null_entry (d.tables f i) ≡ false
      → ((d.tables f i).present ≡ true)
        × ((d.tables f i).read_write ≡ true)
        × ((d.tables f i).user_supervisor ≡ true)
  pub fresh : (n : ℕ) → d.allocs ≤ n → n < s.limit → (s.rank (kzalloc n) ≡ 0) × (kzalloc n < 2 ^ 40)
  pub apart : (n m : ℕ) → d.allocs ≤ n → n < m → m < s.limit → kzalloc n ≢ kzalloc m

pub null_entry-table_entry : (f : ℕ) → null_entry (table_entry f) ≡ false
unfolding null_entry
null_entry-table_entry f = refl

pub null_entry-null_desc : null_entry null_desc ≡ true
unfolding null_entry
null_entry-null_desc = refl

-- A null entry is not present.
pub null_entry-present : (e : Entry) → null_entry e ≡ true → e.present ≡ false
unfolding null_entry
null_entry-present e null = ground (arith, null)

pub restrict-all :
    (above e : Entry)
    → above.read_write ≡ true
    → above.user_supervisor ≡ true
    → restrict above e ≡ e
unfolding restrict
restrict-all above e writes user =
    ap
      (λ b. record e {
        read_write = b && e.read_write;
        user_supervisor = above.user_supervisor && e.user_supervisor;
      })
      writes
    ∙ ap (λ b. record e { user_supervisor = b && e.user_supervisor }) user

and-false : (b : Bool) → (b && false) ≡ false
and-false true = refl
and-false false = refl

pub restrict-null : (above : Entry) → restrict above null_desc ≡ null_desc
unfolding restrict
restrict-null above =
    ap (λ b. record null_desc { read_write = b; user_supervisor = above.user_supervisor && false })
      (and-false above.read_write)
    ∙ ap (λ b. record null_desc { user_supervisor = b }) (and-false above.user_supervisor)

-- A table of null entries leads nowhere.
pub walk-null :
    (t : ℕ → ℕ → Entry) (g : ℕ) (is : List ℕ)
    → ((j : ℕ) → t g j ≡ null_desc)
    → walk t g is ≡ null_desc
unfolding walk
walk-null t g [] null = refl
walk-null t g (i ∷ []) null = null i
walk-null t g (i ∷ j ∷ is) null =
    ap (λ e. if e.present then restrict e (walk t e.address (j ∷ is)) else null_desc) (null i)

-- An entry that leads to a table of null entries leads nowhere, and so does one that is absent.
pub walk-null_below :
    (t : ℕ → ℕ → Entry) (g i j : ℕ) (is : List ℕ)
    → ((k : ℕ) → t (t g i).address k ≡ null_desc)
    → walk t g (i ∷ j ∷ is) ≡ null_desc
unfolding walk
walk-null_below t g i j is null = elim (Bool-cases (t g i).present) [
  | inl present ↦ ground (
    arith,
    present,
    ap (restrict (t g i)) (walk-null t (t g i).address (j ∷ is) null) ∙ restrict-null (t g i),
  )
  | inr absent ↦ ground (arith, absent)
]

pub walk-absent :
    (t : ℕ → ℕ → Entry) (g i j : ℕ) (is : List ℕ)
    → (t g i).present ≡ false
    → walk t g (i ∷ j ∷ is) ≡ null_desc
unfolding walk
walk-absent t g i j is absent = ground (arith, absent)

-- Two addresses of one page, that is, with the same bits 12 to 47.
abbrev pub same_page : ℕ → ℕ → Bool
same_page va virt = va / 4096 % 2 ^ 36 == virt / 4096 % 2 ^ 36

abbrev pub indexes : ℕ → List ℕ
indexes va = pml4_index va ∷ pdpt_index va ∷ pd_index va ∷ pt_index va ∷ []

-- What the processor finds for an address.
abbrev pub translate : Desc → ℕ → Entry
translate d va = walk d.tables d.pml (indexes va)

pub indexes-same : (va virt : ℕ) → same_page va virt ≡ true → indexes va ≡ indexes virt
indexes-same va virt same =
    let a : pml4_index va ≡ pml4_index virt = ground arith in
    let b : pdpt_index va ≡ pdpt_index virt = ground arith in
    let c : pd_index va ≡ pd_index virt = ground arith in
    let d : pt_index va ≡ pt_index virt = ground arith in rw (a, b, c, d) refl

same_page-parts :
    (va virt : ℕ)
    → pml4_index va ≡ pml4_index virt
    → pdpt_index va ≡ pdpt_index virt
    → pd_index va ≡ pd_index virt
    → pt_index va ≡ pt_index virt
    → same_page va virt ≡ true
same_page-parts va virt a b c d = ground arith

pub same_page-indexes : (va virt : ℕ) → same_page va virt ≡ false → indexes va ≢ indexes virt
same_page-indexes va virt other same = ground (arith, same_page-parts va virt)

-- The table `n` levels above.
abbrev pub ancestor : Shape → ℕ → ℕ → ℕ
ancestor s zero f = f
ancestor s (suc n) f = s.table (ancestor s n f)

module _ (kzalloc : ℕ → ℕ) where
  -- In a tree an entry that is not null leads on as it is, and only such an entry leads to one.
  pub walk-down :
      (s : Shape) (d : Desc)
      → IsTree kzalloc s d
      → (g i j l : ℕ) (is : List ℕ) → s.rank g ≡ suc (suc l)
      → null_entry (d.tables g i) ≡ false
      → walk d.tables g (i ∷ j ∷ is) ≡ walk d.tables (d.tables g i).address (j ∷ is)
  unfolding walk
  walk-down s d tree g i j l is rank some =
      let (present, writes, user) = tree.leads g i l rank some in
      ground (
        arith,
        present,
        restrict-all (d.tables g i) (walk d.tables (d.tables g i).address (j ∷ is)) writes user,
      )

  pub walk-up :
      (d : Desc) (g i j : ℕ) (is : List ℕ)
      → null_entry (walk d.tables g (i ∷ j ∷ is)) ≡ false
      → null_entry (d.tables g i) ≡ false
  walk-up d g i j is some = elim (Bool-cases (null_entry (d.tables g i))) [
    | inl null ↦
        let nothing = walk-absent d.tables g i j is (null_entry-present (d.tables g i) null) in
        absurd (ground (arith, some, ap null_entry nothing, null_entry-null_desc))
    | inr more ↦ more
  ]

  pub Reaches-ancestor :
      (s : Shape) (d : Desc)
      → IsTree kzalloc s d
      → (f p g : ℕ) (i : ℕ) (is : List ℕ) → s.rank g ≡ suc (length is)
      → Reaches d.tables f p g (i ∷ is)
      → ancestor s (length is) f ≡ g
  unfolding Reaches
  Reaches-ancestor s d tree f p g i [] rank (here, last) = ground (arith, here)
  Reaches-ancestor s d tree f p g i (j ∷ is) rank (some, rest) =
      let (down, up, at) = tree.below g i (length is) rank some in
      ground (arith, up, Reaches-ancestor s d tree f p (d.tables g i).address j is down rest)

  -- Two walks of one length from one table end in one entry only if they are the same.
  pub Reaches-unique :
      (s : Shape) (d : Desc)
      → IsTree kzalloc s d
      → (f p g : ℕ) (is js : List ℕ) → s.rank g ≡ length is
      → length js ≡ length is
      → Reaches d.tables f p g is
      → Reaches d.tables f p g js
      → is ≡ js
  unfolding Reaches
  Reaches-unique s d tree f p g [] js rank len one two = absurd one
  Reaches-unique s d tree f p g (i ∷ is) [] rank len one two = absurd two
  Reaches-unique s d tree f p g (i ∷ []) (j ∷ []) rank len (here, last) (here', last') =
      ground (arith, last, last')
  Reaches-unique s d tree f p g (i ∷ []) (j ∷ j' ∷ js) rank len one two = absurd (omega arith)
  Reaches-unique s d tree f p g (i ∷ i' ∷ is) (j ∷ []) rank len one two = absurd (omega arith)
  Reaches-unique s d tree f p g (i ∷ i' ∷ is) (j ∷ j' ∷ js) rank len (some, rest) (some', rest') =
      let (down, up, at) = tree.below g i (length is) rank some in
      let (down', up', at') = tree.below g j (length is) rank some' in
      let one = Reaches-ancestor s d tree f p (d.tables g i).address i' is down rest in
      let two =
        Reaches-ancestor s d tree f p (d.tables g j).address j' js (omega (arith, down', len))
          rest' in
      let same : length js ≡ length is = omega (arith, len) in
      let first : i ≡ j = ground (arith, one, two, at, at', same) in
      ap (λ ks. i ∷ ks)
        (Reaches-unique s d tree f p (d.tables g i).address (i' ∷ is) (j' ∷ js) down
          (omega (arith, len)) rest
          (subst (λ k. Reaches d.tables f p (d.tables g k).address (j' ∷ js)) (sym first) rest'))
      ∙ ap (λ k. k ∷ (j' ∷ js)) first
