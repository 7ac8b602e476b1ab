-- ===== src/Task.antt =====
-- The tasks of task/task.c and task.h: their doubly linked list and the choice of the next task. A
-- task is named by its address, 0 is NULL, and `nodes` is the memory that the structs lie in.
pub mod Chain
pub mod New
pub mod Remove
pub mod Schedule
pub mod Live
mod Tests
use peach_os64bit_module_two.Common.{
  ℕ, zero, suc, ◌+◌, Bool, true, false, not, Option, none, some, ltb, ◌==◌, if◌then◌else◌, add64,
}
use peach_os64bit_module_two.Status.{Result, ok, err, eio, enomem}

-- `struct registers`
pub record Registers : Type 0 where
  pub rdi : ℕ
  pub rsi : ℕ
  pub rbp : ℕ
  pub rbx : ℕ
  pub rdx : ℕ
  pub rcx : ℕ
  pub rax : ℕ
  pub ip : ℕ
  pub cs : ℕ
  pub flags : ℕ
  pub rsp : ℕ
  pub ss : ℕ

-- `struct task`
pub record Node : Type 0 where
  pub registers : Registers
  pub process : ℕ
  pub sleep_until_microseconds : ℕ
  pub next : ℕ
  pub prev : ℕ

-- The list of tasks, with `task_head`, `task_tail` and `current_task`.
pub record Tasks : Type 0 where
  pub nodes : ℕ → Node
  pub head : ℕ
  pub tail : ℕ
  pub current : ℕ

abbrev pub set_node : (ℕ → Node) → ℕ → Node → ℕ → Node
set_node nodes t n a = if a == t then n else nodes a

abbrev pub set_next : (ℕ → Node) → ℕ → ℕ → ℕ → Node
set_next nodes t next a = if a == t then record (nodes a) { next = next } else nodes a

-- `task_init`, where `entry` is the start of the program in an ELF file, if there is one.
unfoldable pub task_init : ℕ → Option ℕ → Node
task_init process entry = record {
  registers = record {
    rdi = 0;
    rsi = 0;
    rbp = 0;
    rbx = 0;
    rdx = 0;
    rcx = 0;
    rax = 0;
    ip = elim entry [ none ↦ 0x400000 | some e ↦ e ];
    cs = 0x2b;
    flags = 0;
    rsp = 0x3ff000;
    ss = 0x33;
  };
  process = process;
  sleep_until_microseconds = 0;
  next = 0;
  prev = 0;
}

-- `task_get_next`
unfoldable pub task_get_next : Tasks → ℕ
task_get_next s = if (s.nodes s.current).next == 0 then s.head else (s.nodes s.current).next

-- The four steps of `task_list_remove`.
unfoldable pub unlink_prev : Tasks → ℕ → Tasks
unlink_prev s task =
    let prev = (s.nodes task).prev in
    if prev == 0 then s else record s { nodes = set_next s.nodes prev (s.nodes task).next }

unfoldable pub move_head : Tasks → ℕ → Tasks
move_head s task = if task == s.head then record s { head = (s.nodes task).next } else s

unfoldable pub move_tail : Tasks → ℕ → Tasks
move_tail s task = if task == s.tail then record s { tail = (s.nodes task).prev } else s

unfoldable pub move_current : Tasks → ℕ → Tasks
move_current s task = if task == s.current then record s { current = task_get_next s } else s

-- `task_list_remove`
unfoldable pub task_list_remove : Tasks → ℕ → Tasks
task_list_remove s task = move_current (move_tail (move_head (unlink_prev s task) task) task) task

-- `task_free`: the memory goes back to the kernel heap.
unfoldable pub task_free : Tasks → ℕ → Tasks
task_free s task = task_list_remove s task

-- The list of `task_new` with the task at the end.
unfoldable pub link_task : Tasks → ℕ → Node → Tasks
link_task s task node =
    let nodes = set_node s.nodes task node in
    if s.head == 0
    then record { nodes = nodes; head = task; tail = task; current = task }
    else record s {
      nodes =
          (let n1 = set_next nodes s.tail task in
            set_node n1 task (record (n1 task) { prev = s.tail }));
      tail = task;
    }

-- `task_new`, with the address that `kzalloc` returns. When it fails, `task_free` of NULL is
-- called, which reads the fields of a task at NULL: node 0 stands for the memory there.
unfoldable pub task_new : Tasks → ℕ → ℕ → Option ℕ → Result ℕ × Tasks
task_new s task process entry =
    if task == 0
    then (err enomem, task_free s 0)
    else (ok task, link_task s task (task_init process entry))

-- `task_save_state`, from the registers of the interrupt frame.
unfoldable pub task_save_state : Tasks → ℕ → Registers → Tasks
task_save_state s task frame = record s {
  nodes = set_node s.nodes task (record (s.nodes task) { registers = frame });
}

-- `task_asleep` and `task_sleep` at the time `now`, in microseconds.
unfoldable pub task_asleep : ℕ → Tasks → ℕ → Bool
task_asleep now s task = ltb now (s.nodes task).sleep_until_microseconds

unfoldable pub task_sleep : ℕ → Tasks → ℕ → ℕ → Tasks
task_sleep now s task microseconds = record s {
  nodes =
      set_node s.nodes task
        (record (s.nodes task) { sleep_until_microseconds = add64 now microseconds });
}

-- `task_switch`; the page tables of the process are loaded with it.
unfoldable pub task_switch : Tasks → ℕ → Tasks
task_switch s task = record s { current = task }

-- What one round of the loop of `task_get_next_non_sleeping_task` does at a task that is not NULL.
unfoldable pub round_at : Bool → ℕ → ℕ → Option (Result ℕ) → Option (Result ℕ)
round_at true task next more = if next == 0 then some (ok 0) else more
round_at false task next more = some (ok task)

-- The loop of `task_get_next_non_sleeping_task`, from the task or NULL that it looks at: `none`
-- when the fuel is used up. `asleep` says of each task whether `task_asleep` holds when it is
-- looked at.
unfoldable pub awake_loop : ℕ → Tasks → (ℕ → Bool) → ℕ → Option (Result ℕ)
awake_loop zero s asleep task = none
awake_loop (suc fuel) s asleep task =
    let t = if task == 0 then s.head else task in
    let more = awake_loop fuel s asleep (s.nodes t).next in
    if t == 0 then some (err eio) else round_at (asleep t) t (s.nodes t).next more

-- `task_get_next_non_sleeping_task`
unfoldable pub task_get_next_non_sleeping_task : ℕ → Tasks → (ℕ → Bool) → Option (Result ℕ)
task_get_next_non_sleeping_task fuel s asleep =
    awake_loop fuel s asleep (if s.current == 0 then s.head else (s.nodes s.current).next)

-- What a round of `task_next` makes of the choice: the kernel panics, waits, or switches. Rounds or
-- fuel may be used up before.
pub data Next : Type 0 where
  unfinished : Next
  panics : Next
  waits : Next
  switches : Tasks → Next

unfoldable pub next_of : Tasks → Option (Result ℕ) → Next
next_of s none = unfinished
next_of s (some (err e)) = panics
next_of s (some (ok task)) = if task == 0 then waits else switches (task_switch s task)

-- `task_next`: `rounds` more rounds, of which the n-th finds the tasks asleep that `asleep n` says.
unfoldable pub task_next : ℕ → ℕ → Tasks → (ℕ → ℕ → Bool) → ℕ → Next
task_next zero fuel s asleep n = unfinished
task_next (suc rounds) fuel s asleep n =
    let more = task_next rounds fuel s asleep (n + 1) in
    elim (next_of s (task_get_next_non_sleeping_task fuel s (asleep n))) [
      | unfinished ↦ unfinished
      | panics ↦ panics
      | waits ↦ more
      | switches s' ↦ switches s'
    ]
