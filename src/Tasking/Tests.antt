-- ===== src/Tasking/Tests.antt =====
-- Runs of the choice of tasks in module/tasking/main.c, and the lemmas at a concrete round list.
use modit_micro.Base.{ℕ, zero, suc, ◌<◌, ◌≡◌, refl, arith, Bool, true, false, [], ◌∷◌}
use modit_micro.Tasking.{Task, Tasks, is_blocked}
use modit_micro.Tasking.RoundRobin.{Turn, task_switch-Turn}

abbrev task : ℕ → Bool → Task
task n b = record { ksp = n; kbp = n; ip = n; kstack_top = n; dir = 0; blocked = b }

-- The second of four tasks runs, the third one is blocked.
abbrev four : Tasks
four = record {
  task_order = task 1 false ∷ task 2 false ∷ task 3 true ∷ task 4 false ∷ [];
  current_task = 1;
  enabled = true;
}

task_switch-Turn_example : Turn four 0 4 4
task_switch-Turn_example = task_switch-Turn 4 0 four (omega arith) (omega arith) refl (omega arith)

-- Two tasks that both wait.
abbrev waiting : Tasks
waiting = record { task_order = task 1 true ∷ task 2 true ∷ []; current_task = 1; enabled = true }

waiting_all : (j : ℕ) → j < 2 → is_blocked j waiting.task_order ≡ true
waiting_all zero b = refl
waiting_all (suc zero) b = refl
waiting_all (suc (suc j)) b = absurd (omega arith)
