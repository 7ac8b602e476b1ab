-- ===== src/Heap/Create.antt =====
-- `heap_create`: which regions and tables it accepts, and the heap that it makes.
use peach_os64bit_module_two.Common.{
  ℕ, ◌-◌, ◌*◌, ◌/◌, ◌%◌, ◌^◌, ◌<◌, ◌≤◌, ◌≡◌, ◌≢◌, ◌⊎◌, refl, false, arith, if◌then◌else◌,
}
use peach_os64bit_module_two.Status.{ok, err, einvarg}
use peach_os64bit_module_two.Memory.{memset}
use peach_os64bit_module_two.Memory.Laws.{within, memset_lem}
use peach_os64bit_module_two.Heap.{Heap, assigned, create}
use peach_os64bit_module_two.Heap.Count.{IsValid, count_in-const}

create-ok :
    (h : Heap) (ptr end : ℕ) (entries : ℕ → ℕ) (total : ℕ)
    → ptr % 4096 ≡ 0
    → end % 4096 ≡ 0
    → ptr ≤ end
    → end < 2 ^ 64
    → total * 4096 ≡ end - ptr
    → create h ptr end entries total
      ≡ (ok tt, record (assigned h ptr end entries total) { entries = memset entries 0 0 total })
unfolding create
create-ok h ptr end entries total lo hi le small fit = ground arith

-- An aligned region whose table has an entry for each of its blocks becomes a valid heap with no
-- block used; the entries of the table are cleared, and no byte behind them is written.
pub create-IsValid :
    (h : Heap) (ptr end : ℕ) (entries : ℕ → ℕ) (total : ℕ)
    → ptr % 4096 ≡ 0
    → end % 4096 ≡ 0
    → ptr ≤ end
    → end < 2 ^ 64
    → total * 4096 ≡ end - ptr
    → let (r, h') = create h ptr end entries total in
      (r ≡ ok tt)
      × IsValid h'
      × (h'.used_blocks ≡ 0)
      × ((j : ℕ) → h'.entries j ≡ (if within 0 total j then 0 else entries j))
unfolding assigned
create-IsValid h ptr end entries total lo hi le small fit =
    let cleared : (j : ℕ)
        → memset entries 0 0 total j ≡ (if within 0 total j then 0 else entries j) =
      λ j. memset_lem entries 0 0 total j in
    let count =
      count_in-const total (memset entries 0 0 total) 0 false
        (λ j x y. ground (arith, cleared j)) in
    rw (create-ok h ptr end entries total lo hi le small fit) (
      refl,
      record {
        used = ground (arith, count);
        all = omega arith;
        small = omega arith;
        kinds = λ j room. ground (arith, cleared j);
      },
      refl,
      cleared,
    )

-- A region with an unaligned end, or whose table has not an entry for each of its blocks, is
-- refused with -EINVARG, and no entry of the table is written.
pub create-refused :
    (h : Heap) (ptr end : ℕ) (entries : ℕ → ℕ) (total : ℕ)
    → ptr ≤ end
    → end < 2 ^ 64
    → (ptr % 4096 ≢ 0) ⊎ (end % 4096 ≢ 0) ⊎ (total ≢ (end - ptr) / 4096)
    → let (r, h') = create h ptr end entries total in
      (r ≡ err einvarg) × ((h' ≡ h) ⊎ (h'.entries ≡ entries))
unfolding create
create-refused h ptr end entries total le small bad = ground arith
