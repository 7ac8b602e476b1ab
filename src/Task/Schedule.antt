-- ===== src/Task/Schedule.antt =====
-- The choice of `task_get_next_non_sleeping_task` in task/task.c.
use peach_os64bit_module_two.Common.{
  ℕ, zero, suc, ◌<◌, ◌≡◌, ◌≢◌, inl, inr, refl, Bool, false, some, List, [], ◌∷◌, ◌++◌, arith, ◌==◌,
  if◌then◌else◌, Bool-cases, length, length-append, ap, ◌∙◌,
}
use peach_os64bit_module_two.Status.{ok}
use peach_os64bit_module_two.Task.{
  Node, Tasks, round_at, awake_loop, task_get_next_non_sleeping_task,
}
use peach_os64bit_module_two.Task.Chain.{Linked, Linked-append}

-- The first task that is awake, NULL if there is none.
abbrev pub first_awake : (ℕ → Bool) → List ℕ → ℕ
first_awake asleep [] = 0
first_awake asleep (x ∷ xs) = let rest = first_awake asleep xs in if asleep x then rest else x

-- The tasks that the choice goes through when `c` runs: those behind it, or all when it is the
-- last.
abbrev pub candidates : List ℕ → ℕ → List ℕ → List ℕ
candidates before c [] = before ++ (c ∷ [])
candidates before c (x ∷ after) = x ∷ after

awake_step :
    (s : Tasks) (asleep : ℕ → Bool) (fuel t : ℕ)
    → t ≢ 0
    → awake_loop (suc fuel) s asleep t
      ≡ round_at (asleep t) t (s.nodes t).next (awake_loop fuel s asleep (s.nodes t).next)
unfolding awake_loop
awake_step s asleep fuel t real =
    let there : (t == 0) ≡ false = ground (arith, real) in rw (awake_loop, there, there) refl

-- At a task, the loop finds the first one from there on that is awake.
pub awake_loop_lem :
    (s : Tasks) (asleep : ℕ → Bool) (fuel t x : ℕ) (xs : List ℕ)
    → Linked s.nodes t (x ∷ xs)
    → length xs < fuel
    → awake_loop fuel s asleep t ≡ some (ok (first_awake asleep (x ∷ xs)))
unfolding round_at Linked
awake_loop_lem s asleep zero t x xs linked enough = absurd (omega (arith, enough))
awake_loop_lem s asleep (suc fuel) t x [] (at, real, rest) enough =
    rw (at, awake_step s asleep fuel x real)
      (elim (Bool-cases (asleep x)) [
        | inl sleeps ↦ rw sleeps (ground (arith, rest))
        | inr wakes ↦ rw wakes refl
      ])
awake_loop_lem s asleep (suc fuel) t x (y ∷ ys) (at, real, rest) enough =
    rw (at, awake_step s asleep fuel x real)
      (elim (Bool-cases (asleep x)) [
        | inl sleeps ↦ rw sleeps (
            rw (awake_loop_lem s asleep fuel (s.nodes x).next y ys rest (omega (arith, enough)))
              (ground (arith, rest)))
        | inr wakes ↦ rw wakes refl
      ])

-- NULL stands for the head.
awake_loop-head :
    (s : Tasks) (asleep : ℕ → Bool) (fuel : ℕ)
    → s.head ≢ 0
    → awake_loop fuel s asleep 0 ≡ awake_loop fuel s asleep s.head
unfolding awake_loop
awake_loop-head s asleep zero real = refl
awake_loop-head s asleep (suc fuel) real =
    let there : (s.head == 0) ≡ false = ground (arith, real) in
    rw (awake_loop, there) (rw (awake_loop, there) refl)

Linked-head : (nodes : ℕ → Node) (t x : ℕ) (xs : List ℕ) → Linked nodes t (x ∷ xs) → t ≢ 0
unfolding Linked
Linked-head nodes t x xs (at, real, rest) = ground (arith, at, real)

-- From the list's start, for a list with something in it.
from_head :
    (s : Tasks) (asleep : ℕ → Bool) (fuel x : ℕ) (xs : List ℕ)
    → Linked s.nodes s.head (x ∷ xs)
    → length xs < fuel
    → awake_loop fuel s asleep 0 ≡ some (ok (first_awake asleep (x ∷ xs)))
from_head s asleep fuel x xs linked enough =
    awake_loop-head s asleep fuel (Linked-head s.nodes s.head x xs linked)
    ∙ awake_loop_lem s asleep fuel s.head x xs linked enough

-- The choice of a task that runs, by what its pointer leads to.
pub choice_behind :
    (s : Tasks) (asleep : ℕ → Bool) (fuel c x : ℕ) (xs : List ℕ)
    → s.current ≡ c
    → c ≢ 0
    → Linked s.nodes (s.nodes c).next (x ∷ xs)
    → length xs < fuel
    → task_get_next_non_sleeping_task fuel s asleep ≡ some (ok (first_awake asleep (x ∷ xs)))
unfolding task_get_next_non_sleeping_task
choice_behind s asleep fuel c x xs at real rest enough =
    let runs : (s.current == 0) ≡ false = ground (arith, real, at) in
    rw runs (
      ap (λ t. awake_loop fuel s asleep (s.nodes t).next) at
      ∙ awake_loop_lem s asleep fuel (s.nodes c).next x xs rest enough)

pub choice_last :
    (s : Tasks) (asleep : ℕ → Bool) (fuel c x : ℕ) (xs : List ℕ)
    → s.current ≡ c
    → c ≢ 0
    → (s.nodes c).next ≡ 0
    → Linked s.nodes s.head (x ∷ xs)
    → length xs < fuel
    → task_get_next_non_sleeping_task fuel s asleep ≡ some (ok (first_awake asleep (x ∷ xs)))
unfolding task_get_next_non_sleeping_task
choice_last s asleep fuel c x xs at real end linked enough =
    let runs : (s.current == 0) ≡ false = ground (arith, real, at) in
    rw runs (
      ap (λ t. awake_loop fuel s asleep (s.nodes t).next) at
      ∙ ap (awake_loop fuel s asleep) end
      ∙ from_head s asleep fuel x xs linked enough)

-- Where the task that runs stands in the list and the fuel is beyond its length, the choice is the
-- first task behind it that is awake, or NULL when there are such tasks and all are asleep; only
-- when it is the last task are all considered, in the list's order.
pub task_get_next_non_sleeping_task_lem :
    (s : Tasks) (asleep : ℕ → Bool) (fuel c : ℕ) (before after : List ℕ)
    → Linked s.nodes s.head (before ++ (c ∷ after))
    → s.current ≡ c
    → length (before ++ (c ∷ after)) < fuel
    → task_get_next_non_sleeping_task fuel s asleep
      ≡ some (ok (first_awake asleep (candidates before c after)))
unfolding Linked
task_get_next_non_sleeping_task_lem s asleep fuel c [] [] linked at enough =
    let (real, rest) = Linked-append s.nodes s.head c [] [] linked in
    choice_last s asleep fuel c c [] at real rest linked (omega (arith, enough))
task_get_next_non_sleeping_task_lem s asleep fuel c (b ∷ before) [] linked at enough =
    let (real, rest) = Linked-append s.nodes s.head c (b ∷ before) [] linked in
    choice_last s asleep fuel c b (before ++ (c ∷ [])) at real rest linked (omega (arith, enough))
task_get_next_non_sleeping_task_lem s asleep fuel c before (x ∷ after) linked at enough =
    let (real, rest) = Linked-append s.nodes s.head c before (x ∷ after) linked in
    choice_behind s asleep fuel c x after at real rest
      (omega (arith, enough, length-append before (c ∷ x ∷ after)))
