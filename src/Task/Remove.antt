-- ===== src/Task/Remove.antt =====
-- `task_list_remove` and `task_new` of task/task.c on the whole list.
use peach_os64bit_module_two.Common.{
  ℕ, ◌≡◌, ◌≢◌, refl, false, List, [], ◌∷◌, ◌++◌, arith, ◌==◌, ap, ◌∙◌, sym,
}
use peach_os64bit_module_two.Task.{
  Node, Tasks, set_next, unlink_prev, move_head, move_tail, move_current, task_list_remove,
}
use peach_os64bit_module_two.Task.Chain.{
  Linked, DLinked, Absent, Distinct, last_or, last_or-differs, last_or-real, IsTaskList,
  DLinked-Linked, Absent-append, Distinct-append, Linked-set_next,
}

-- A task stands behind the last of those before it.
DLinked-prev :
    (nodes : ℕ → Node) (p t x : ℕ) (before after : List ℕ)
    → DLinked nodes p t (before ++ (x ∷ after))
    → (nodes x).prev ≡ last_or p before
unfolding DLinked
DLinked-prev nodes p t x [] after (at, real, back, rest) = back
DLinked-prev nodes p t x (b ∷ before) after (at, real, back, rest) =
    DLinked-prev nodes b (nodes b).next x before after rest

-- The pointer of the last task before one is led past it.
unlink :
    (nodes : ℕ → Node) (t b x : ℕ) (bs after : List ℕ)
    → Linked nodes t (b ∷ bs ++ (x ∷ after))
    → Distinct (b ∷ bs ++ (x ∷ after))
    → Linked (set_next nodes (last_or b bs) (nodes x).next) t (b ∷ bs ++ after)
unfolding Linked Distinct Absent
unlink nodes t b x [] after (at, real, (next, real', rest)) ((differs, absent), distinct) = (
  at,
  real,
  ground (arith, Linked-set_next nodes b (nodes x).next (nodes x).next after absent rest),
)
unlink nodes t b x (b' ∷ bs) after (at, real, rest) (absent, distinct) = (
  at,
  real,
  ground (
    arith,
    last_or-differs b b' bs (x ∷ after) absent,
    unlink nodes (nodes b).next b' x bs after rest distinct,
  ),
)

-- Moving the three pointers leaves the nodes and, for the last two, the head.
removed-nodes : (s : Tasks) (t : ℕ) → (task_list_remove s t).nodes ≡ (unlink_prev s t).nodes
unfolding task_list_remove move_current move_tail move_head
removed-nodes s t = ground (arith)

removed-head :
    (s : Tasks) (t : ℕ) → (task_list_remove s t).head ≡ (move_head (unlink_prev s t) t).head
unfolding task_list_remove move_current move_tail
removed-head s t = ground (arith)

links_first :
    (s : Tasks) (t : ℕ)
    → (s.nodes t).prev ≡ 0
    → s.head ≡ t
    → ((task_list_remove s t).nodes ≡ s.nodes) × ((task_list_remove s t).head ≡ (s.nodes t).next)
unfolding unlink_prev move_head
links_first s t back at =
    let same : unlink_prev s t ≡ s = rw (unlink_prev, back) refl in
    (
      removed-nodes s t ∙ ap (λ u. u.nodes) same,
      removed-head s t ∙ ap (λ u. (move_head u t).head) same ∙ ground (arith, at),
    )

links_behind :
    (s : Tasks) (t p : ℕ)
    → (s.nodes t).prev ≡ p
    → p ≢ 0
    → s.head ≢ t
    → ((task_list_remove s t).nodes ≡ set_next s.nodes p (s.nodes t).next)
      × ((task_list_remove s t).head ≡ s.head)
unfolding unlink_prev move_head
links_behind s t p back real other =
    let there : (p == 0) ≡ false = ground (arith, real) in
    let same : unlink_prev s t ≡ record s { nodes = set_next s.nodes p (s.nodes t).next } =
      rw (unlink_prev, back, there) refl in
    (
      removed-nodes s t ∙ ap (λ u. u.nodes) same,
      removed-head s t ∙ ap (λ u. (move_head u t).head) same ∙ ground (arith, other),
    )

links_first-Linked :
    (s : Tasks) (t : ℕ) (after : List ℕ)
    → IsTaskList s (t ∷ after)
    → Linked (task_list_remove s t).nodes (task_list_remove s t).head after
unfolding DLinked
links_first-Linked s t after l =
    let (at, real, back, rest) = l.linked in
    let (nodes, head) = links_first s t back at in
    rw (nodes, head) (DLinked-Linked s.nodes t (s.nodes t).next after rest)

head-differs :
    (nodes : ℕ → Node) (p t b x : ℕ) (bs after : List ℕ)
    → DLinked nodes p t (b ∷ bs ++ (x ∷ after))
    → Distinct (b ∷ bs ++ (x ∷ after))
    → t ≢ x
unfolding DLinked Distinct Absent
head-differs nodes p t b x bs after (at, real, back, h) (absent, distinct) =
    let (left, right) = Absent-append b bs (x ∷ after) absent in λ e. right.0 (sym e ∙ at)

links_behind_list :
    (s : Tasks) (t b : ℕ) (bs after : List ℕ)
    → IsTaskList s (b ∷ bs ++ (t ∷ after))
    → ((task_list_remove s t).nodes ≡ set_next s.nodes (last_or b bs) (s.nodes t).next)
      × ((task_list_remove s t).head ≡ s.head)
links_behind_list s t b bs after l =
    let back = DLinked-prev s.nodes 0 s.head t (b ∷ bs) after l.linked in
    let real = last_or-real s.nodes 0 s.head b bs (t ∷ after) l.linked in
    links_behind s t (last_or b bs) back real
      (head-differs s.nodes 0 s.head b t bs after l.linked l.distinct)

links_behind-Linked :
    (s : Tasks) (t b : ℕ) (bs after : List ℕ)
    → IsTaskList s (b ∷ bs ++ (t ∷ after))
    → Linked (task_list_remove s t).nodes (task_list_remove s t).head (b ∷ bs ++ after)
links_behind-Linked s t b bs after l =
    let (nodes, head) = links_behind_list s t b bs after l in
    rw (nodes, head)
      (unlink s.nodes s.head b t bs after
        (DLinked-Linked s.nodes 0 s.head (b ∷ bs ++ (t ∷ after)) l.linked) l.distinct)

-- From a doubly linked list of tasks `task_list_remove` takes the task wherever it stands: the
-- `next` pointers lead from the head through the others in their order.
pub task_list_remove-Linked :
    (s : Tasks) (t : ℕ) (before after : List ℕ)
    → IsTaskList s (before ++ (t ∷ after))
    → Linked (task_list_remove s t).nodes (task_list_remove s t).head (before ++ after)
task_list_remove-Linked s t [] after l = links_first-Linked s t after l
task_list_remove-Linked s t (b ∷ bs) after l = links_behind-Linked s t b bs after l

DLinked-neighbours :
    (nodes : ℕ → Node) (p h t x : ℕ) (before after : List ℕ)
    → DLinked nodes p h (before ++ (t ∷ x ∷ after))
    → ((nodes x).prev ≡ t) × (t ≢ 0)
unfolding DLinked
DLinked-neighbours nodes p h t x [] after (at, real, back, (at', real', back', rest)) =
    (back', real)
DLinked-neighbours nodes p h t x (b ∷ before) after (at, real, back, rest) =
    DLinked-neighbours nodes b (nodes b).next t x before after rest

Absent-join : (a : ℕ) (xs ys : List ℕ) → Absent a xs → Absent a ys → Absent a (xs ++ ys)
unfolding Absent
Absent-join a [] ys left right = right
Absent-join a (x ∷ xs) ys (differs, left) right = (differs, Absent-join a xs ys left right)

Distinct-tail : (xs ys : List ℕ) → Distinct (xs ++ ys) → Distinct ys
unfolding Distinct
Distinct-tail [] ys h = h
Distinct-tail (x ∷ xs) ys (absent, h) = Distinct-tail xs ys h

head-differs_next :
    (nodes : ℕ → Node) (p t b y x : ℕ) (bs after : List ℕ)
    → DLinked nodes p t (b ∷ bs ++ (y ∷ x ∷ after))
    → Distinct (b ∷ bs ++ (y ∷ x ∷ after))
    → t ≢ x
unfolding DLinked Distinct Absent
head-differs_next nodes p t b y x bs after (at, real, back, h) (absent, distinct) =
    let (left, right) = Absent-append b bs (y ∷ x ∷ after) absent in λ e. right.1.0 (sym e ∙ at)

set_next-prev :
    (nodes : ℕ → Node) (a next x p : ℕ) → (nodes x).prev ≡ p → (set_next nodes a next x).prev ≡ p
set_next-prev nodes a next x p h = ground (arith, h)

-- Removing a task that is not the first, and then the one behind it, leaves the second one in the
-- list, since its `prev` still names the first one.
pub task_list_remove-stale :
    (s : Tasks) (t x b : ℕ) (bs after : List ℕ)
    → IsTaskList s (b ∷ bs ++ (t ∷ x ∷ after))
    → let s' = task_list_remove (task_list_remove s t) x in
      Linked s'.nodes s'.head (b ∷ bs ++ (x ∷ after))
task_list_remove-stale s t x b bs after l =
    let s1 = task_list_remove s t in
    let (nodes, head) = links_behind_list s t b bs (x ∷ after) l in
    let (back, real) = DLinked-neighbours s.nodes 0 s.head t x (b ∷ bs) after l.linked in
    let other = head-differs_next s.nodes 0 s.head b t x bs after l.linked l.distinct in
    let back' : (s1.nodes x).prev ≡ t =
      ap (λ n. (n x).prev) nodes ∙ set_next-prev s.nodes (last_or b bs) (s.nodes t).next x t back in
    let (nodes', head') = links_behind s1 x t back' real (λ e. other (sym head ∙ e)) in
    let (left, right) = Distinct-append t (b ∷ bs) (x ∷ after) l.distinct in
    let gone : Absent t (b ∷ bs ++ (x ∷ after)) = Absent-join t (b ∷ bs) (x ∷ after) left right in
    rw (nodes', head')
      (Linked-set_next s1.nodes t (s1.nodes x).next s1.head (b ∷ bs ++ (x ∷ after)) gone
        (links_behind-Linked s t b bs (x ∷ after) l))
