-- ===== src/Paging.antt =====
-- The page tables of memory/paging/paging.c and paging.h. A table is named by its frame number, the
-- address shifted right by 12; `tables f i` is entry `i` of the table in frame `f`.
pub mod Walk
pub mod Ensure
pub mod Write
pub mod Map
pub mod Range
pub mod Get
pub mod Align
mod Tests
use peach_os64bit_module_two.Common.{
  ℕ, zero, suc, ◌+◌, ◌-◌, ◌*◌, ◌/◌, ◌%◌, ◌^◌, Bool, true, false, not, ◌&&◌, ◌||◌, Option, none,
  some, List, [], ◌∷◌, ltb, leb, ◌==◌, if◌then◌else◌, add64,
}
use peach_os64bit_module_two.Status.{Result, ok, err, einvarg}

abbrev pub page_size : ℕ
page_size = 4096

-- `struct paging_desc_entry`. The fields that the kernel never writes are 0 in every entry, and
-- are left out.
pub record Entry : Type 0 where
  pub present : Bool
  pub read_write : Bool
  pub user_supervisor : Bool
  pub address : ℕ

abbrev pub null_desc : Entry
null_desc = record { present = false; read_write = false; user_supervisor = false; address = 0 }

-- `struct paging_desc` with the memory that its tables lie in. `pml` is the frame of the root
-- table, `allocs` counts the calls of `kzalloc`, and `invalidated` has the addresses whose TLB
-- entries were invalidated, the latest first.
pub record Desc : Type 0 where
  pub tables : ℕ → ℕ → Entry
  pub pml : ℕ
  pub level : ℕ
  pub allocs : ℕ
  pub invalidated : List ℕ

-- `paging_null_entry`
unfoldable pub null_entry : Entry → Bool
null_entry e = not (e.present || e.read_write || e.user_supervisor) && e.address == 0

-- The indexes of a virtual address.
abbrev pub pml4_index : ℕ → ℕ
pml4_index va = va / 2 ^ 39 % 512

abbrev pub pdpt_index : ℕ → ℕ
pdpt_index va = va / 2 ^ 30 % 512

abbrev pub pd_index : ℕ → ℕ
pd_index va = va / 2 ^ 21 % 512

abbrev pub pt_index : ℕ → ℕ
pt_index va = va / 2 ^ 12 % 512

-- Writing one entry.
abbrev pub set_entry : (ℕ → ℕ → Entry) → ℕ → ℕ → Entry → ℕ → ℕ → Entry
set_entry t f i e g j = if g == f && j == i then e else t g j

-- An entry that leads to the table in frame `f`; its address field has 40 bits.
abbrev pub table_entry : ℕ → Entry
table_entry f = record {
  present = true;
  read_write = true;
  user_supervisor = true;
  address = f % 2 ^ 40;
}

-- The last entry: `PAGING_IS_PRESENT`, `PAGING_IS_WRITEABLE` and `PAGING_ACCESS_FROM_ALL` are bits
-- 0, 1 and 2 of the flags.
abbrev pub page_entry : ℕ → ℕ → Entry
page_entry phys flags = record {
  present = flags % 2 == 1;
  read_write = flags / 2 % 2 == 1;
  user_supervisor = flags / 4 % 2 == 1;
  address = phys / 4096 % 2 ^ 40;
}

-- `kzalloc n` is the frame that the n-th call returns.
module _ (kzalloc : ℕ → ℕ) where
  -- The next level is allocated, and cleared, where entry `i` of table `f` is null.
  unfoldable pub ensure : Desc → ℕ → ℕ → Desc
  ensure d f i =
      if null_entry (d.tables f i)
      then record d {
        tables =
            set_entry (λ g j. if g == kzalloc d.allocs then null_desc else d.tables g j) f i
              (table_entry (kzalloc d.allocs));
        allocs = d.allocs + 1;
      }
      else d

  -- The table that entry `i` of table `f` leads to.
  abbrev pub child : Desc → ℕ → ℕ → ℕ
  child d f i = (d.tables f i).address

  -- The last step of `paging_map`, in the page table in frame `f`.
  unfoldable pub write_page : Desc → ℕ → ℕ → ℕ → ℕ → Desc
  write_page d f virt phys flags = record d {
    tables = set_entry d.tables f (pt_index virt) (page_entry phys flags);
    invalidated =
        if null_entry (d.tables f (pt_index virt)) then d.invalidated else virt ∷ d.invalidated;
  }

  -- `paging_map`, which always returns 0.
  unfoldable pub paging_map : Desc → ℕ → ℕ → ℕ → Desc
  paging_map d virt phys flags =
      let d4 = ensure d d.pml (pml4_index virt) in
      let pdpt = child d4 d.pml (pml4_index virt) in
      let d3 = ensure d4 pdpt (pdpt_index virt) in
      let pd = child d3 pdpt (pdpt_index virt) in
      let d2 = ensure d3 pd (pd_index virt) in
      write_page d2 (child d2 pd (pd_index virt)) virt phys flags

  -- `paging_map_range`
  unfoldable pub paging_map_range : ℕ → Desc → ℕ → ℕ → ℕ → Desc
  paging_map_range zero d virt phys flags = d
  paging_map_range (suc count) d virt phys flags =
      paging_map_range count (paging_map d virt phys flags) (add64 virt page_size)
        (add64 phys page_size) flags

  -- `paging_map_to`
  unfoldable pub paging_map_to : Desc → ℕ → ℕ → ℕ → ℕ → Result (Unit {0}) × Desc
  paging_map_to d virt phys phys_end flags =
      if not (virt % page_size == 0)
      then (err einvarg, d)
      else if not (phys % page_size == 0)
      then (err einvarg, d)
      else if not (phys_end % page_size == 0)
      then (err einvarg, d)
      else if ltb phys_end phys
      then (err einvarg, d)
      else (ok tt, paging_map_range ((phys_end - phys) / page_size) d virt phys flags)

-- `paging_get`: `none` is NULL. The tests of the tables look at their first entry.
unfoldable pub paging_get : Desc → ℕ → Option Entry
paging_get d virt =
    let pml4_entry = d.tables d.pml (pml4_index virt) in
    let pdpt = pml4_entry.address in
    let pdpt_entry = d.tables pdpt (pdpt_index virt) in
    let pd = pdpt_entry.address in
    let pd_entry = d.tables pd (pd_index virt) in
    if null_entry pml4_entry
    then none
    else if null_entry (d.tables pdpt 0)
    then none
    else if null_entry pdpt_entry
    then none
    else if null_entry (d.tables pd 0)
    then none
    else if null_entry pd_entry
    then none
    else if null_entry (d.tables pd 0)
    then none
    else some (d.tables pd_entry.address (pt_index virt))

-- `paging_get_physical_address`: 0 for NULL.
unfoldable pub paging_get_physical_address : Desc → ℕ → ℕ
paging_get_physical_address d virtual_address = elim (paging_get d virtual_address) [
  | none ↦ 0
  | some e ↦ e.address * 4096 + virtual_address % 4096
]

unfoldable pub paging_align_address : ℕ → ℕ
paging_align_address ptr =
    if ptr % page_size == 0 then ptr else add64 ptr (page_size - ptr % page_size)

unfoldable pub paging_align_to_lower_page : ℕ → ℕ
paging_align_to_lower_page addr = addr - addr % page_size

unfoldable pub paging_is_aligned : ℕ → Bool
paging_is_aligned addr = addr % page_size == 0

unfoldable pub paging_align_value_to_upper_page : ℕ → ℕ
paging_align_value_to_upper_page val_in =
    if val_in % page_size == 0 then val_in else add64 val_in (page_size - val_in % page_size)
