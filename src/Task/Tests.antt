-- ===== src/Task/Tests.antt =====
-- The tasks of task/task.c on small lists.
use peach_os64bit_module_two.Common.{
  ℕ, ◌≡◌, ◌≢◌, refl, Bool, none, [], ◌∷◌, arith, ltb, ◌==◌, if◌then◌else◌,
}
use peach_os64bit_module_two.Status.{ok}
use peach_os64bit_module_two.Task.{
  Node, Tasks, task_init, task_new, task_next, task_list_remove, unfinished,
}
use peach_os64bit_module_two.Task.Chain.{Linked, DLinked, Absent, Distinct, IsTaskList}
use peach_os64bit_module_two.Task.Live.{Asleep, task_next-starves, run, run-visits}
use peach_os64bit_module_two.Task.Remove.{task_list_remove-Linked, task_list_remove-stale}
use peach_os64bit_module_two.Task.New.{task_new-IsTaskList}

abbrev blank : Node
unfolding task_init
blank = task_init 0 none

-- Tasks at 10, 20, 30 and 40, of which the second runs.
abbrev four_nodes : ℕ → Node
four_nodes a =
    if a == 10
    then record blank { next = 20 }
    else if a == 20
    then record blank { next = 30; prev = 10 }
    else if a == 30
    then record blank { next = 40; prev = 20 }
    else if a == 40
    then record blank { prev = 30 }
    else blank

abbrev four : Tasks
four = record { nodes = four_nodes; head = 10; tail = 40; current = 20 }

four-IsTaskList : IsTaskList four (10 ∷ 20 ∷ 30 ∷ 40 ∷ [])
unfolding DLinked Distinct Absent task_init
four-IsTaskList = record { linked = ground arith; ends = refl; distinct = ground arith }

four-Linked : Linked four.nodes four.head (10 ∷ 20 ∷ 30 ∷ 40 ∷ [])
unfolding Linked task_init
four-Linked = ground arith

abbrev third_sleeps : ℕ → Bool
third_sleeps a = a == 30

abbrev rest_sleeps : ℕ → ℕ → Bool
rest_sleeps k a = ltb 20 a

task_next-starves_example : task_next 5 10 four rest_sleeps 0 ≡ unfinished
unfolding Asleep
task_next-starves_example =
    task_next-starves 5 10 four rest_sleeps 0 20 30 (10 ∷ []) (40 ∷ []) four-Linked refl
      (ground arith) (λ k. ground arith)

run-visits_example : (run 3 10 four).current ≡ 10
run-visits_example =
    (run-visits 10 four 20 (10 ∷ []) (30 ∷ 40 ∷ []) four-Linked refl (ground arith) 10 []
        (20 ∷ 30 ∷ 40 ∷ [])).1
      refl

task_list_remove-Linked_example :
    Linked (task_list_remove four 30).nodes (task_list_remove four 30).head (10 ∷ 20 ∷ 40 ∷ [])
task_list_remove-Linked_example =
    task_list_remove-Linked four 30 (10 ∷ 20 ∷ []) (40 ∷ []) four-IsTaskList

task_list_remove-stale_example :
    let s' = task_list_remove (task_list_remove four 20) 30 in
    Linked s'.nodes s'.head (10 ∷ 30 ∷ 40 ∷ [])
task_list_remove-stale_example = task_list_remove-stale four 20 30 10 [] (40 ∷ []) four-IsTaskList

fifth-Absent : Absent 50 (10 ∷ 20 ∷ 30 ∷ 40 ∷ [])
unfolding Absent
fifth-Absent = ground arith

abbrev fifth : ℕ
fifth = 50

fifth_real : fifth ≢ 0
fifth_real = omega arith

task_new-IsTaskList_example :
    let (r, s') = task_new four 50 7 none in
    (r ≡ ok 50) × IsTaskList s' (10 ∷ 20 ∷ 30 ∷ 40 ∷ 50 ∷ [])
task_new-IsTaskList_example =
    (task_new-IsTaskList four 50 7 none (10 ∷ 20 ∷ 30 ∷ 40 ∷ []) four-IsTaskList fifth-Absent).0
      fifth_real
