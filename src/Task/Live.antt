-- ===== src/Task/Live.antt =====
-- Which tasks `task_next` of task/task.c comes to run.
use peach_os64bit_module_two.Common.{
  ℕ, zero, suc, ◌+◌, ◌<◌, ◌≡◌, ◌≢◌, refl, Bool, true, false, some, List, [], ◌∷◌, ◌++◌, arith, ◌==◌,
  if◌then◌else◌, length, length-append, ap, ◌∙◌, subst,
}
use peach_os64bit_module_two.Status.{ok}
use peach_os64bit_module_two.Task.{
  Tasks, task_get_next_non_sleeping_task, Next, unfinished, panics, waits, switches, next_of,
  task_next, task_switch,
}
use peach_os64bit_module_two.Task.Chain.{Linked, Linked-append}
use peach_os64bit_module_two.Task.Schedule.{
  first_awake, task_get_next_non_sleeping_task_lem, choice_behind, choice_last,
}

-- A round of `task_next` switches to the task chosen, or waits.
next_of-choice :
    (s : Tasks) (fuel : ℕ) (asleep : ℕ → Bool) (x : ℕ)
    → task_get_next_non_sleeping_task fuel s asleep ≡ some (ok x)
    → next_of s (task_get_next_non_sleeping_task fuel s asleep)
      ≡ (if x == 0 then waits else switches (task_switch s x))
unfolding next_of
next_of-choice s fuel asleep x choice = rw choice refl

unfoldable pub Asleep : (ℕ → Bool) → List ℕ → Type 0
Asleep asleep [] = Unit {0}
Asleep asleep (x ∷ xs) = (asleep x ≡ true) × Asleep asleep xs

Asleep-first_awake :
    (asleep : ℕ → Bool) (xs : List ℕ) → Asleep asleep xs → first_awake asleep xs ≡ 0
unfolding Asleep
Asleep-first_awake asleep [] h = refl
Asleep-first_awake asleep (x ∷ xs) (here, h) = ground (arith, here, Asleep-first_awake asleep xs h)

-- Where the tasks behind the one that runs, at least one, are asleep in every round, `task_next`
-- never switches, in however many rounds, whichever other tasks are awake, the one that runs among
-- them.
pub task_next-starves :
    (rounds fuel : ℕ) (s : Tasks) (asleep : ℕ → ℕ → Bool) (n c d : ℕ) (before after : List ℕ)
    → Linked s.nodes s.head (before ++ (c ∷ d ∷ after))
    → s.current ≡ c
    → length (before ++ (c ∷ d ∷ after)) < fuel
    → ((k : ℕ) → Asleep (asleep k) (d ∷ after))
    → task_next rounds fuel s asleep n ≡ unfinished
unfolding task_next
task_next-starves zero fuel s asleep n c d before after linked at enough sleep = refl
task_next-starves (suc rounds) fuel s asleep n c d before after linked at enough sleep =
    let choice =
      task_get_next_non_sleeping_task_lem s (asleep n) fuel c before (d ∷ after) linked at enough in
    let waiting : next_of s (task_get_next_non_sleeping_task fuel s (asleep n)) ≡ waits =
      next_of-choice s fuel (asleep n) (first_awake (asleep n) (d ∷ after)) choice
      ∙ ground (arith, Asleep-first_awake (asleep n) (d ∷ after) (sleep n)) in
    rw (task_next, waiting)
      (task_next-starves rounds fuel s asleep (n + 1) c d before after linked at enough sleep)

nobody : ℕ → ℕ → Bool
nobody n task = false

abbrev pub after_next : Tasks → Next → Tasks
after_next s unfinished = s
after_next s panics = s
after_next s waits = s
after_next s (switches s') = s'

-- The tasks after some calls of `task_next` with nobody asleep.
unfoldable pub run : ℕ → ℕ → Tasks → Tasks
unfolding nobody
run zero fuel s = s
run (suc k) fuel s = run k fuel (after_next s (task_next 1 fuel s nobody 0))

-- With nobody asleep the first candidate is switched to.
switch_lem :
    (s : Tasks) (fuel x : ℕ) (xs : List ℕ)
    → x ≢ 0
    → task_get_next_non_sleeping_task fuel s (nobody 0)
      ≡ some (ok (first_awake (nobody 0) (x ∷ xs)))
    → after_next s (task_next 1 fuel s nobody 0) ≡ task_switch s x
unfolding task_next nobody
switch_lem s fuel x xs real choice =
    let goes : next_of s (task_get_next_non_sleeping_task fuel s (nobody 0))
        ≡ switches (task_switch s x) =
      next_of-choice s fuel (nobody 0) x choice ∙ ground (arith, real) in
    rw (task_next, goes) refl

-- One call of `task_next` at a task that is not the last, and at the last.
run_behind :
    (k fuel : ℕ) (s : Tasks) (c x : ℕ) (xs : List ℕ)
    → s.current ≡ c
    → c ≢ 0
    → x ≢ 0
    → Linked s.nodes (s.nodes c).next (x ∷ xs)
    → length xs < fuel
    → run (suc k) fuel s ≡ run k fuel (task_switch s x)
unfolding run
run_behind k fuel s c x xs at real real' rest enough =
    ap (run k fuel)
      (switch_lem s fuel x xs real' (choice_behind s (nobody 0) fuel c x xs at real rest enough))

run_last :
    (k fuel : ℕ) (s : Tasks) (c x : ℕ) (xs : List ℕ)
    → s.current ≡ c
    → c ≢ 0
    → x ≢ 0
    → (s.nodes c).next ≡ 0
    → Linked s.nodes s.head (x ∷ xs)
    → length xs < fuel
    → run (suc k) fuel s ≡ run k fuel (task_switch s x)
unfolding run
run_last k fuel s c x xs at real real' end linked enough =
    ap (run k fuel) (
      switch_lem s fuel x xs real' (choice_last s (nobody 0) fuel c x xs at real end linked enough))

-- To a task behind the one that runs.
forward :
    (mid : List ℕ) (fuel : ℕ) (s : Tasks) (c x : ℕ) (rest : List ℕ)
    → s.current ≡ c
    → c ≢ 0
    → Linked s.nodes (s.nodes c).next (mid ++ (x ∷ rest))
    → length (mid ++ (x ∷ rest)) < fuel
    → (run (suc (length mid)) fuel s).current ≡ x
unfolding Linked task_switch run
forward [] fuel s c x rest at real (next, real', linked) enough =
    ap (λ t. t.current)
      (run_behind 0 fuel s c x rest at real real' (next, real', linked) (omega (arith, enough)))
forward (d ∷ mid) fuel s c x rest at real (next, real', linked) enough =
    ap (λ t. t.current)
      (run_behind (suc (length mid)) fuel s c d (mid ++ (x ∷ rest)) at real real'
        (next, real', linked) (omega (arith, enough)))
    ∙ forward mid fuel (task_switch s d) d x rest refl real' linked (omega (arith, enough))

-- To any task of the list, past its end.
around :
    (behind : List ℕ) (fuel : ℕ) (s : Tasks) (c x : ℕ) (mid rest : List ℕ)
    → s.current ≡ c
    → c ≢ 0
    → Linked s.nodes (s.nodes c).next behind
    → Linked s.nodes s.head (mid ++ (x ∷ rest))
    → length behind < fuel
    → length (mid ++ (x ∷ rest)) < fuel
    → (run (length behind + suc (length mid)) fuel s).current ≡ x
unfolding Linked task_switch run
around [] fuel s c x [] rest at real end (next, real', linked) enough enough' =
    ap (λ t. t.current)
      (run_last 0 fuel s c x rest at real real' end (next, real', linked) (omega (arith, enough')))
around [] fuel s c x (d ∷ mid) rest at real end (next, real', linked) enough enough' =
    let steps : suc (suc (length mid)) ≡ 0 + suc (suc (length mid)) = omega arith in
    subst (λ k. (run k fuel s).current ≡ x) steps
      (ap (λ t. t.current)
          (run_last (suc (length mid)) fuel s c d (mid ++ (x ∷ rest)) at real real' end
            (next, real', linked) (omega (arith, enough')))
        ∙ forward mid fuel (task_switch s d) d x rest refl real' linked (omega (arith, enough')))
around (d ∷ behind) fuel s c x mid rest at real (next, real', linked) all enough enough' =
    let steps : suc (length behind + suc (length mid)) ≡ suc (length behind) + suc (length mid) =
      omega arith in
    subst (λ k. (run k fuel s).current ≡ x) steps
      (ap (λ t. t.current)
          (run_behind (length behind + suc (length mid)) fuel s c d behind at real real'
            (next, real', linked) (omega (arith, enough)))
        ∙ around behind fuel (task_switch s d) d x mid rest refl real' linked all
            (omega (arith, enough)) enough')

-- With nobody asleep, each task of the list comes to run: one behind the task that runs after as
-- many switches as its distance, any other one after the switches to the end of the list, one to
-- its start, and those from there.
pub run-visits :
    (fuel : ℕ) (s : Tasks) (c : ℕ) (before after : List ℕ)
    → Linked s.nodes s.head (before ++ (c ∷ after))
    → s.current ≡ c
    → length (before ++ (c ∷ after)) < fuel
    → (x : ℕ) (mid rest : List ℕ)
    → (after ≡ mid ++ (x ∷ rest) → (run (suc (length mid)) fuel s).current ≡ x)
      × (before ++ (c ∷ after) ≡ mid ++ (x ∷ rest)
          → (run (length after + suc (length mid)) fuel s).current ≡ x)
run-visits fuel s c before after linked at enough x mid rest =
    let (real, behind) = Linked-append s.nodes s.head c before after linked in
    let short : length after < fuel = omega (arith, enough, length-append before (c ∷ after)) in
    (
      λ place.
          forward mid fuel s c x rest at real (subst (Linked s.nodes (s.nodes c).next) place behind)
            (subst (λ l. length l < fuel) place short),
      λ place.
          around after fuel s c x mid rest at real behind
            (subst (Linked s.nodes s.head) place linked) short
            (subst (λ l. length l < fuel) place enough),
    )
