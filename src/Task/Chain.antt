-- ===== src/Task/Chain.antt =====
-- The tasks in the list of task/task.c, from one node on.
use peach_os64bit_module_two.Common.{ℕ, ◌≡◌, ◌≢◌, List, [], ◌∷◌, ◌++◌, arith, sym}
use peach_os64bit_module_two.Task.{Node, Tasks, set_next}

-- The `next` pointers lead from `t` through the tasks given to NULL.
unfoldable pub Linked : (ℕ → Node) → ℕ → List ℕ → Type 0
Linked nodes t [] = t ≡ 0
Linked nodes t (x ∷ xs) = (t ≡ x) × (x ≢ 0) × Linked nodes (nodes x).next xs

-- They do so, and the `prev` pointers lead back, to `p` from the first one.
unfoldable pub DLinked : (ℕ → Node) → ℕ → ℕ → List ℕ → Type 0
DLinked nodes p t [] = t ≡ 0
DLinked nodes p t (x ∷ xs) =
    (t ≡ x) × (x ≢ 0) × ((nodes x).prev ≡ p) × DLinked nodes x (nodes x).next xs

unfoldable pub Absent : ℕ → List ℕ → Type 0
Absent a [] = Unit {0}
Absent a (x ∷ xs) = (x ≢ a) × Absent a xs

unfoldable pub Distinct : List ℕ → Type 0
Distinct [] = Unit {0}
Distinct (x ∷ xs) = Absent x xs × Distinct xs

-- The last of some tasks, or `p` where there is none.
abbrev pub last_or : ℕ → List ℕ → ℕ
last_or p [] = p
last_or p (x ∷ xs) = last_or x xs

-- The list that the kernel keeps.
pub record IsTaskList (s : Tasks) (ts : List ℕ) : Type 0 where
  pub linked : DLinked s.nodes 0 s.head ts
  pub ends : s.tail ≡ last_or 0 ts
  pub distinct : Distinct ts

pub DLinked-Linked :
    (nodes : ℕ → Node) (p t : ℕ) (ts : List ℕ) → DLinked nodes p t ts → Linked nodes t ts
unfolding Linked DLinked
DLinked-Linked nodes p t [] d = d
DLinked-Linked nodes p t (x ∷ xs) (at, real, back, rest) =
    (at, real, DLinked-Linked nodes x (nodes x).next xs rest)

-- From a task in the list the rest goes on.
pub Linked-append :
    (nodes : ℕ → Node) (t c : ℕ) (xs ys : List ℕ)
    → Linked nodes t (xs ++ (c ∷ ys))
    → (c ≢ 0) × Linked nodes (nodes c).next ys
unfolding Linked
Linked-append nodes t c [] ys (at, real, rest) = (real, rest)
Linked-append nodes t c (x ∷ xs) ys (at, real, rest) =
    Linked-append nodes (nodes x).next c xs ys rest

pub Absent-append : (a : ℕ) (xs ys : List ℕ) → Absent a (xs ++ ys) → Absent a xs × Absent a ys
unfolding Absent
Absent-append a [] ys h = (tt, h)
Absent-append a (x ∷ xs) ys (here, h) =
    let (left, right) = Absent-append a xs ys h in ((here, left), right)

pub Distinct-append :
    (c : ℕ) (xs ys : List ℕ) → Distinct (xs ++ (c ∷ ys)) → Absent c xs × Absent c ys
unfolding Distinct Absent
Distinct-append c [] ys (absent, rest) = (tt, absent)
Distinct-append c (x ∷ xs) ys (absent, rest) =
    let (left, right) = Distinct-append c xs ys rest in
    (((λ e. (Absent-append x xs (c ∷ ys) absent).1.0 (sym e)), left), right)

-- A pointer of a node outside does not matter.
pub Linked-set_next :
    (nodes : ℕ → Node) (a next t : ℕ) (ts : List ℕ)
    → Absent a ts
    → Linked nodes t ts
    → Linked (set_next nodes a next) t ts
unfolding Linked Absent
Linked-set_next nodes a next t [] absent l = l
Linked-set_next nodes a next t (x ∷ xs) (differs, absent) (at, real, rest) =
    (at, real, ground (arith, differs, Linked-set_next nodes a next (nodes x).next xs absent rest))

pub last_or-differs : (a b : ℕ) (bs rest : List ℕ) → Absent a (b ∷ bs ++ rest) → last_or b bs ≢ a
unfolding Absent
last_or-differs a b [] rest (differs, h) = differs
last_or-differs a b (b' ∷ bs) rest (differs, h) = last_or-differs a b' bs rest h

pub last_or-real :
    (nodes : ℕ → Node) (p t b : ℕ) (bs rest : List ℕ)
    → DLinked nodes p t (b ∷ bs ++ rest)
    → last_or b bs ≢ 0
unfolding DLinked
last_or-real nodes p t b [] rest (at, real, back, h) = real
last_or-real nodes p t b (b' ∷ bs) rest (at, real, back, h) =
    last_or-real nodes b (nodes b).next b' bs rest h
