-- ===== src/Heap/Count.antt =====
-- How many blocks of the table are taken, and the invariant of the heap's counters.
use peach_os64bit_module_two.Common.{
  ℕ, zero, suc, ◌+◌, ◌-◌, ◌^◌, ◌≤◌, ◌<◌, ◌≡◌, ◌⊎◌, inl, inr, refl, Bool, arith, if◌then◌else◌,
}
use peach_os64bit_module_two.Heap.{Heap, is_taken, entry_type}

-- The taken blocks among the `n` from block `i` on.
unfoldable pub count_in : (ℕ → ℕ) → ℕ → ℕ → ℕ
count_in e i zero = 0
count_in e i (suc n) = (if is_taken (e i) then 1 else 0) + count_in e (i + 1) n

pub count_in-ext :
    (n : ℕ) (e e' : ℕ → ℕ) (i : ℕ)
    → ((j : ℕ) → i ≤ j → j < i + n → is_taken (e' j) ≡ is_taken (e j))
    → count_in e' i n ≡ count_in e i n
unfolding count_in
count_in-ext zero e e' i same = refl
count_in-ext (suc n) e e' i same =
    ground (arith, same i, count_in-ext n e e' (i + 1) λ j h k. same j (omega arith) (omega arith))

-- The second part begins at `k`, and the whole has `t` blocks.
pub count_in-add :
    (n m : ℕ) (e : ℕ → ℕ) (i k t : ℕ)
    → k ≡ i + n
    → t ≡ n + m
    → count_in e i t ≡ count_in e i n + count_in e k m
unfolding count_in
count_in-add zero m e i k t p q =
    let p' : k ≡ i = omega arith in let q' : t ≡ m = omega arith in rw (p', q') (omega arith)
count_in-add (suc n) m e i k t p q =
    let q' : t ≡ suc (n + m) = omega arith in
    rw q' (omega (arith, count_in-add n m e (i + 1) k (n + m) (omega arith) refl))

pub count_in-const :
    (n : ℕ) (e : ℕ → ℕ) (i : ℕ) (b : Bool)
    → ((j : ℕ) → i ≤ j → j < i + n → is_taken (e j) ≡ b)
    → count_in e i n ≡ (if b then n else 0)
unfolding count_in
count_in-const zero e i b all = ground arith
count_in-const (suc n) e i b all =
    ground (arith, all i, count_in-const n e (i + 1) b λ j h k. all j (omega arith) (omega arith))

-- A table is counted in three parts.
count_in-split :
    (e : ℕ → ℕ) (s n total : ℕ)
    → s + n ≤ total
    → count_in e 0 total ≡ count_in e 0 s + count_in e s n + count_in e (s + n) (total - (s + n))
count_in-split e s n total fits = omega (
  arith,
  count_in-add (s + n) (total - (s + n)) e 0 (s + n) total (omega arith) (omega arith),
  count_in-add s n e 0 s (s + n) (omega arith) refl,
)

-- Changing the `n` blocks from `s` on, all alike before and all alike after.
pub count_in-change :
    (e e' : ℕ → ℕ) (s n total : ℕ) (b b' : Bool)
    → s + n ≤ total
    → ((j : ℕ) → s ≤ j → j < s + n → is_taken (e j) ≡ b)
    → ((j : ℕ) → s ≤ j → j < s + n → is_taken (e' j) ≡ b')
    → ((j : ℕ) → (j < s) ⊎ (s + n ≤ j) → is_taken (e' j) ≡ is_taken (e j))
    → count_in e' 0 total + (if b then n else 0) ≡ count_in e 0 total + (if b' then n else 0)
count_in-change e e' s n total b b' fits before after same = omega (
  arith,
  count_in-split e s n total fits,
  count_in-split e' s n total fits,
  count_in-const n e s b before,
  count_in-const n e' s b' after,
  count_in-ext s e e' 0 (λ j h k. same j (inl (omega arith))),
  count_in-ext (total - (s + n)) e e' (s + n) (λ j h k. same j (inr h)),
)

-- An entry of the table: free, or taken with any flags.
abbrev pub IsEntry : ℕ → Type 0
IsEntry x = (x ≡ 0) ⊎ (entry_type x ≡ 1)

-- The counters count the taken and the free blocks, and the size of the heap in bytes does not
-- wrap. Where the heap begins is not bounded: its addresses are taken to lie in the address space.
pub record IsValid (h : Heap) : Type 0 where
  pub used : h.used_blocks ≡ count_in h.entries 0 h.total
  pub all : h.used_blocks + h.free_blocks ≡ h.total
  pub small : h.total < 2 ^ 52
  pub kinds : (j : ℕ) → j < h.total → IsEntry (h.entries j)

pub count_in-le : (n : ℕ) (e : ℕ → ℕ) (i : ℕ) → count_in e i n ≤ n
unfolding count_in
count_in-le zero e i = omega arith
count_in-le (suc n) e i = ground (arith, count_in-le n e (i + 1))
