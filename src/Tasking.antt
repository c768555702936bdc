-- ===== src/Tasking.antt =====
-- module/tasking/main.c: the round list of kernel tasks and the choice of the next one to run.
pub mod RoundRobin
pub mod Ticks
mod Tests
use modit_micro.Base.{
  ℕ, zero, suc, ◌+◌, Bool, true, false, not, ◌||◌, Option, none, some, List, [], ◌∷◌, ◌++◌, length,
  ltb, ◌==◌, if◌then◌else◌,
}

-- `task_t`, without the time slice and the I/O bitmap.
pub record Task : Type 0 where
  pub ksp : ℕ
  pub kbp : ℕ
  pub ip : ℕ
  pub kstack_top : ℕ
  pub dir : ℕ
  pub blocked : Bool

-- `task_order`, the place of `current_task` in it, and `_enabled`. In a round list the last node's
-- `next` is the first node.
pub record Tasks : Type 0 where
  pub task_order : List Task
  pub current_task : ℕ
  pub enabled : Bool

-- `current_task->next`, as a place.
abbrev pub next_place : ℕ → ℕ → ℕ
next_place n i = if ltb (i + 1) n then i + 1 else 0

abbrev pub is_blocked : ℕ → List Task → Bool
is_blocked i [] = false
is_blocked zero (t ∷ ts) = t.blocked
is_blocked (suc i) (t ∷ ts) = is_blocked i ts

-- `none`: the fuel ran out. Where every task is blocked, the code calls itself without end.
pub task_switch : ℕ → Tasks → Option Tasks
task_switch zero s = none
task_switch (suc fuel) s =
    let s1 = record s { current_task = next_place (length s.task_order) s.current_task } in
    let rest = task_switch fuel s1 in
    if is_blocked s1.current_task s1.task_order then rest else some s1

-- `func` is entered on the stack `stk`; the new task has a copy `dir` of the page directory.
pub task_newtask : ℕ → ℕ → ℕ → Tasks → Tasks
task_newtask func stk dir s = record s {
  task_order =
      s.task_order
      ++ record { ksp = stk; kbp = stk; ip = func; kstack_top = stk; dir = dir; blocked = false }
        ∷ [];
}

-- The registers of the task that is left.
abbrev pub save : ℕ → ℕ → ℕ → ℕ → List Task → List Task
save i esp ebp eip [] = []
save zero esp ebp eip (t ∷ ts) = record t { ksp = esp; kbp = ebp; ip = eip } ∷ ts
save (suc i) esp ebp eip (t ∷ ts) = t ∷ save i esp ebp eip ts

-- The guards of `tasking_tick`: no task, only one task, or not enabled.
abbrev pub stays : Tasks → Bool
stays s =
    length s.task_order == 0
    || (next_place (length s.task_order) s.current_task == s.current_task || not s.enabled)

-- `eip` is what `read_eip` answers: 0 when the task comes back from a switch.
pub tasking_tick : ℕ → ℕ → ℕ → ℕ → Tasks → Option Tasks
unfolding task_switch
tasking_tick fuel esp ebp eip s =
    if stays s
    then some s
    else if eip == 0
    then some s
    else task_switch fuel (record s { task_order = save s.current_task esp ebp eip s.task_order })

pub tasking_disable : Tasks → Tasks
tasking_disable s = record s { enabled = false }

pub tasking_enable : Tasks → Tasks
tasking_enable s = record s { enabled = true }
