-- ===== src/Tasking/Ticks.antt =====
-- `tasking_tick` of module/tasking/main.c: the task that is left keeps its registers for its next turn.
use modit_micro.Base.{
  ==-false, ℕ, zero, suc, ◌≤◌, ◌<◌, ◌≡◌, ◌≢◌, ◌∙◌, refl, ap, arith, false, Option, some, List, [],
  ◌∷◌, length, ◌==◌, if◌then◌else◌,
}
use modit_micro.Tasking.{Task, Tasks, is_blocked, save, stays, tasking_tick}
use modit_micro.Tasking.RoundRobin.{
  after, after-distance, distance, distance_bounds, task_switch-Next,
}

pub length-save : (i esp ebp eip : ℕ) (ts : List Task) → length (save i esp ebp eip ts) ≡ length ts
length-save i esp ebp eip [] = refl
length-save zero esp ebp eip (t ∷ ts) = refl
length-save (suc i) esp ebp eip (t ∷ ts) = ap suc (length-save i esp ebp eip ts)

pub is_blocked-save :
    (j i esp ebp eip : ℕ) (ts : List Task) → is_blocked j (save i esp ebp eip ts) ≡ is_blocked j ts
is_blocked-save j i esp ebp eip [] = refl
is_blocked-save zero zero esp ebp eip (t ∷ ts) = refl
is_blocked-save (suc j) zero esp ebp eip (t ∷ ts) = refl
is_blocked-save zero (suc i) esp ebp eip (t ∷ ts) = refl
is_blocked-save (suc j) (suc i) esp ebp eip (t ∷ ts) = is_blocked-save j i esp ebp eip ts

-- Where a task goes on, and on which stack.
abbrev pub resume : ℕ → List Task → ℕ × (ℕ × ℕ)
resume i [] = (0, (0, 0))
resume zero (t ∷ ts) = (t.ip, (t.ksp, t.kbp))
resume (suc i) (t ∷ ts) = resume i ts

resume-save :
    (j i esp ebp eip : ℕ) (ts : List Task)
    → i < length ts
    → resume j (save i esp ebp eip ts) ≡ (if i == j then (eip, (esp, ebp)) else resume j ts)
resume-save j i esp ebp eip [] b = absurd (omega arith)
resume-save zero zero esp ebp eip (t ∷ ts) b = refl
resume-save (suc j) zero esp ebp eip (t ∷ ts) b =
    let differ : (0 == suc j) ≡ false = ground arith in rw differ refl
resume-save zero (suc i) esp ebp eip (t ∷ ts) b =
    let differ : (suc i == 0) ≡ false = ground arith in rw differ refl
resume-save (suc j) (suc i) esp ebp eip (t ∷ ts) b =
    let same : (suc i == suc j) ≡ (i == j) = ground arith in
    rw same (resume-save j i esp ebp eip ts (omega arith))

-- What a tick leaves behind.
pub record Ticked (s : Tasks) (esp ebp eip : ℕ) (out : Option Tasks) : Type 0 where
  pub left : Tasks
  pub done : out ≡ some left
  pub ready : is_blocked left.current_task left.task_order ≡ false
  pub size : length left.task_order ≡ length s.task_order
  pub flags : (j : ℕ) → is_blocked j left.task_order ≡ is_blocked j s.task_order
  pub registers :
      (j : ℕ)
      → resume j left.task_order
        ≡ (if s.current_task == j then (eip, (esp, ebp)) else resume j s.task_order)

-- A tick that switches, when some task is not blocked, runs a task that is not blocked; the task that
-- is left will go on with the registers that it had, and nothing changes for the others.
pub tasking_tick-Ticked :
    (fuel esp ebp eip j : ℕ) (s : Tasks)
    → stays s ≡ false
    → eip ≢ 0
    → s.current_task < length s.task_order
    → j < length s.task_order
    → is_blocked j s.task_order ≡ false
    → length s.task_order ≤ fuel
    → Ticked s esp ebp eip (tasking_tick fuel esp ebp eip s)
unfolding tasking_tick
tasking_tick-Ticked fuel esp ebp eip j s go ne a b free f =
    let i = s.current_task in
    let ts = save i esp ebp eip s.task_order in
    let s1 = record s { task_order = ts } in
    let n = length ts in
    let size = length-save i esp ebp eip s.task_order in
    let k = distance n i j in
    let bounds = distance_bounds n i j (omega (arith, size)) (omega (arith, size)) in
    let there : is_blocked (after n i k) ts ≡ false =
      rw (after-distance n i j (omega (arith, size)) (omega (arith, size)))
        (is_blocked-save j i esp ebp eip s.task_order ∙ free) in
    let nx = task_switch-Next fuel k s1 bounds.0 (omega (arith, bounds.1, size)) there in
    rw (tasking_tick, go, ==-false ne)
      (record {
        left = record s1 { current_task = after n i nx.steps };
        done = nx.done;
        ready = nx.ready;
        size = size;
        flags = λ q. is_blocked-save q i esp ebp eip s.task_order;
        registers = λ q. resume-save q i esp ebp eip s.task_order a;
      })
