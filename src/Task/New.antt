-- ===== src/Task/New.antt =====
-- `task_new` of task/task.c on the whole list.
use peach_os64bit_module_two.Common.{
  ℕ, ◌≡◌, ◌≢◌, refl, false, Option, List, [], ◌∷◌, ◌++◌, arith, ◌==◌, ◌∙◌, sym, subst,
}
use peach_os64bit_module_two.Status.{ok, err, enomem}
use peach_os64bit_module_two.Task.{Node, Tasks, set_node, task_init, link_task, task_new}
use peach_os64bit_module_two.Task.Chain.{
  DLinked, Absent, Distinct, last_or, last_or-differs, IsTaskList,
}

-- What linking a task makes of the memory.
record Links (nodes nodes' : ℕ → Node) (last t : ℕ) : Type 0 where
  keeps : (a : ℕ) → a ≢ t → (nodes' a).prev ≡ (nodes a).prev
  goes : (a : ℕ) → a ≢ t → a ≢ last → (nodes' a).next ≡ (nodes a).next
  leads : last ≢ t → (nodes' last).next ≡ t
  end : (nodes' t).next ≡ 0
  back : (nodes' t).prev ≡ last

Absent-nil : (a : ℕ) (xs : List ℕ) → Absent a xs → Absent a (xs ++ [])
unfolding Absent
Absent-nil a [] h = h
Absent-nil a (x ∷ xs) (differs, h) = (differs, Absent-nil a xs h)

Absent-last_or : (a y : ℕ) (ys : List ℕ) → Absent a (y ∷ ys) → last_or y ys ≢ a
Absent-last_or a y ys h = last_or-differs a y ys [] (Absent-nil a (y ∷ ys) h)

DLinked-link :
    (nodes nodes' : ℕ → Node) (t p x : ℕ) (y : ℕ) (ys : List ℕ)
    → Links nodes nodes' (last_or y ys) t
    → t ≢ 0
    → DLinked nodes p x (y ∷ ys)
    → Distinct (y ∷ ys)
    → Absent t (y ∷ ys)
    → DLinked nodes' p x (y ∷ ys ++ (t ∷ []))
unfolding DLinked Distinct Absent
DLinked-link nodes nodes' t p x y [] l real (at, real', back, rest) distinct (other, absent) =
    (at, real', l.keeps y other ∙ back, (l.leads other, real, l.back, l.end))
DLinked-link nodes nodes' t p x y (z ∷ zs) l real (at, real', back, rest) (fresh, distinct)
      (other, absent) =
    let inner : y ≢ last_or z zs = λ e. Absent-last_or y z zs fresh (sym e) in
    let link : (nodes' y).next ≡ (nodes y).next = l.goes y other inner in
    (
      at,
      real',
      l.keeps y other ∙ back,
      subst (λ n. DLinked nodes' y n (z ∷ zs ++ (t ∷ []))) (sym link)
          (DLinked-link nodes nodes' t y (nodes y).next z zs l real rest distinct absent),
    )

link_task-Links :
    (s : Tasks) (t process : ℕ) (entry : Option ℕ)
    → s.head ≢ 0
    → s.tail ≢ t
    → Links s.nodes (link_task s t (task_init process entry)).nodes s.tail t
unfolding link_task task_init
link_task-Links s t process entry real other = record {
  keeps = ground (arith, real, other);
  goes = ground (arith, real, other);
  leads = ground (arith, real, other);
  end = ground (arith, real, other);
  back = ground (arith, real, other);
}

last_or-append : (p t : ℕ) (ts : List ℕ) → last_or p (ts ++ (t ∷ [])) ≡ t
last_or-append p t [] = refl
last_or-append p t (x ∷ xs) = last_or-append x t xs

Absent-snoc : (a t : ℕ) (ts : List ℕ) → t ≢ a → Absent a ts → Absent a (ts ++ (t ∷ []))
unfolding Absent
Absent-snoc a t [] other h = (other, tt)
Absent-snoc a t (x ∷ xs) other (differs, h) = (differs, Absent-snoc a t xs other h)

Distinct-snoc : (t : ℕ) (ts : List ℕ) → Absent t ts → Distinct ts → Distinct (ts ++ (t ∷ []))
unfolding Distinct Absent
Distinct-snoc t [] fresh h = (tt, h)
Distinct-snoc t (x ∷ xs) (other, fresh) (absent, h) =
    (Absent-snoc x t xs (λ e. other (sym e)) absent, Distinct-snoc t xs fresh h)

link_ends :
    (s : Tasks) (t : ℕ) (node : Node)
    → s.head ≢ 0
    → ((link_task s t node).head ≡ s.head) × ((link_task s t node).tail ≡ t)
unfolding link_task
link_ends s t node real = ground (arith, real)

link_empty :
    (s : Tasks) (t : ℕ) (node : Node)
    → s.head ≡ 0
    → link_task s t node
      ≡ record { nodes = set_node s.nodes t node; head = t; tail = t; current = t }
unfolding link_task
link_empty s t node empty = rw (link_task, empty) refl

alone :
    (nodes : ℕ → Node) (t process : ℕ) (entry : Option ℕ)
    → t ≢ 0
    → IsTaskList
        (record {
          nodes = set_node nodes t (task_init process entry);
          head = t;
          tail = t;
          current = t;
        })
        (t ∷ [])
unfolding DLinked Distinct Absent task_init
alone nodes t process entry real = record {
  linked = ground (arith, real);
  ends = refl;
  distinct = ground arith;
}

link_task-IsTaskList :
    (s : Tasks) (t process : ℕ) (entry : Option ℕ) (ts : List ℕ)
    → IsTaskList s ts
    → t ≢ 0
    → Absent t ts
    → IsTaskList (link_task s t (task_init process entry)) (ts ++ (t ∷ []))
unfolding DLinked Distinct Absent
link_task-IsTaskList s t process entry [] l real fresh =
    rw (link_empty s t (task_init process entry) l.linked) (alone s.nodes t process entry real)
link_task-IsTaskList s t process entry (x ∷ xs) l real fresh =
    let (at, real', back, rest) = l.linked in
    let some_head : s.head ≢ 0 = λ e. real' (sym at ∙ e) in
    let other : s.tail ≢ t = λ e. Absent-last_or t x xs fresh (sym l.ends ∙ e) in
    let links = link_task-Links s t process entry some_head other in
    let (head, tail) = link_ends s t (task_init process entry) some_head in
    record {
      linked =
          subst
            (λ h. DLinked (link_task s t (task_init process entry)).nodes 0 h (x ∷ xs ++ (t ∷ [])))
            (sym head)
            (DLinked-link s.nodes (link_task s t (task_init process entry)).nodes t 0 s.head x xs
              (subst (λ e. Links s.nodes (link_task s t (task_init process entry)).nodes e t) l.ends
                links)
              real l.linked l.distinct fresh);
      ends = tail ∙ sym (last_or-append 0 t (x ∷ xs));
      distinct = Distinct-snoc t (x ∷ xs) fresh l.distinct;
    }

-- With the address of memory that is not a task in the list, `task_new` returns it and leaves the
-- doubly linked list with the task at the end; without memory it fails with ENOMEM.
pub task_new-IsTaskList :
    (s : Tasks) (t process : ℕ) (entry : Option ℕ) (ts : List ℕ)
    → IsTaskList s ts
    → Absent t ts
    → let (r, s') = task_new s t process entry in
      (t ≢ 0 → (r ≡ ok t) × IsTaskList s' (ts ++ (t ∷ []))) × (t ≡ 0 → r ≡ err enomem)
unfolding task_new
task_new-IsTaskList s t process entry ts l fresh = (
  λ real.
      let there : (t == 0) ≡ false = ground (arith, real) in
      rw (task_new, there) (refl, link_task-IsTaskList s t process entry ts l real fresh),
  λ failed. rw (task_new, failed) refl,
)
