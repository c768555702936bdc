-- ===== src/Tasking/RoundRobin.antt =====
-- `task_switch` of module/tasking/main.c goes round: it takes the first task that is not blocked, and
-- every such task has its turn.
use modit_micro.Base.{
  Bool-cases, zero-cases, true_ne_false, ℕ, zero, suc, ◌+◌, ◌-◌, ◌≤◌, ◌<◌, ◌≡◌, inl, inr, ◌∙◌, refl,
  sym, subst, ap, arith, true, false, Option, none, some, List, length, ltb, if◌then◌else◌,
}
use modit_micro.Tasking.{Task, Tasks, next_place, is_blocked, task_switch}

-- The place that is `k` steps behind `i`.
abbrev pub after : ℕ → ℕ → ℕ → ℕ
after n i zero = i
after n i (suc k) = after n (next_place n i) k

after-split : (n i k l : ℕ) → after n (after n i k) l ≡ after n i (k + l)
after-split n i zero l = let e : l ≡ 0 + l = omega arith in ap (after n i) e
after-split n i (suc k) l =
    let e : suc (k + l) ≡ suc k + l = omega arith in
    after-split n (next_place n i) k l ∙ ap (after n i) e

next_low : (n i : ℕ) → i < n → next_place n i < n
next_low n i a = ground arith

next_sum :
    (n i k : ℕ)
    → i < n
    → k < n
    → (if ltb (next_place n i + k) n then next_place n i + k else next_place n i + k - n)
      ≡ (if ltb (i + suc k) n then i + suc k else i + suc k - n)
next_sum n i k a b = ground arith

after_place :
    (n i k : ℕ) → i < n → k ≤ n → after n i k ≡ (if ltb (i + k) n then i + k else i + k - n)
after_place n i zero a b = ground arith
after_place n i (suc k) a b =
    after_place n (next_place n i) k (next_low n i a) (omega arith) ∙ next_sum n i k a (omega arith)

-- The steps from one place to another, at least one.
abbrev pub distance : ℕ → ℕ → ℕ → ℕ
distance n i j = if ltb i j then j - i else j + n - i

pub distance_bounds : (n i j : ℕ) → i < n → j < n → (0 < distance n i j) × (distance n i j ≤ n)
distance_bounds n i j a b = ground arith

distance_sum :
    (n i j : ℕ)
    → i < n
    → j < n
    → (if ltb (i + distance n i j) n then i + distance n i j else i + distance n i j - n) ≡ j
distance_sum n i j a b = ground arith

pub after-distance : (n i j : ℕ) → i < n → j < n → after n i (distance n i j) ≡ j
after-distance n i j a b =
    after_place n i (distance n i j) a (distance_bounds n i j a b).1 ∙ distance_sum n i j a b

-- The task that `task_switch` takes is `steps` places on, and those between are blocked.
pub record Next (s : Tasks) (k : ℕ) (out : Option Tasks) : Type 0 where
  pub steps : ℕ
  pub some_steps : 0 < steps
  pub most : steps ≤ k
  pub done :
      out ≡ some (record s { current_task = after (length s.task_order) s.current_task steps })
  pub ready : is_blocked (after (length s.task_order) s.current_task steps) s.task_order ≡ false
  pub between :
      (l : ℕ)
      → 0 < l
      → l < steps
      → is_blocked (after (length s.task_order) s.current_task l) s.task_order ≡ true

between-shift :
    (n i steps : ℕ) (ts : List Task)
    → is_blocked (next_place n i) ts ≡ true
    → ((l : ℕ) → 0 < l → l < steps → is_blocked (after n (next_place n i) l) ts ≡ true)
    → (l : ℕ) → 0 < l
    → l < suc steps
    → is_blocked (after n i l) ts ≡ true
between-shift n i steps ts first rest zero a b = absurd (omega arith)
between-shift n i steps ts first rest (suc zero) a b = first
between-shift n i steps ts first rest (suc (suc l)) a b = rest (suc l) (omega arith) (omega arith)

more_steps :
    (n i k : ℕ) (ts : List Task)
    → is_blocked (next_place n i) ts ≡ true
    → is_blocked (after n i (suc k)) ts ≡ false
    → 0 < k
more_steps n i zero ts taken free = absurd (true_ne_false (sym taken ∙ free))
more_steps n i (suc k) ts taken free = omega arith

-- With enough fuel for the steps to some task that is not blocked, `task_switch` takes the first task
-- behind the current one that is not blocked, and changes nothing else.
pub task_switch-Next :
    (fuel k : ℕ) (s : Tasks)
    → 0 < k
    → k ≤ fuel
    → is_blocked (after (length s.task_order) s.current_task k) s.task_order ≡ false
    → Next s k (task_switch fuel s)
unfolding task_switch
task_switch-Next zero k s pos f e = absurd (omega arith)
task_switch-Next (suc fuel) zero s pos f e = absurd (omega arith)
task_switch-Next (suc fuel) (suc k) s pos f e =
    let n = length s.task_order in
    let s1 = record s { current_task = next_place n s.current_task } in
    elim (Bool-cases (is_blocked s1.current_task s.task_order)) [
      | inr free ↦ rw free (record {
        steps = 1;
        some_steps = omega arith;
        most = omega arith;
        done = refl;
        ready = free;
        between = λ l a b. absurd (omega arith);
      })
      | inl taken ↦
          (let go = more_steps n s.current_task k s.task_order taken e in
            let ih = task_switch-Next fuel k s1 go (omega arith) e in
            rw taken (record {
              steps = suc ih.steps;
              some_steps = omega arith;
              most = omega (arith, ih.most);
              done = ih.done;
              ready = ih.ready;
              between = between-shift n s.current_task ih.steps s.task_order taken ih.between;
            }))
    ]

-- `r` switches, one after the other.
pub switches : ℕ → ℕ → Tasks → Option Tasks
unfolding task_switch
switches zero fuel s = some s
switches (suc r) fuel s = elim (task_switch fuel s) [ none ↦ none | some s' ↦ switches r fuel s' ]

-- The task at the place `j` runs after one to `k` switches.
abbrev pub Turn : Tasks → ℕ → ℕ → ℕ → Type 0
Turn s j k fuel =
    (r : ℕ) × (0 < r) × (r ≤ k) × (switches r fuel s ≡ some (record s { current_task = j }))

bounded-Turn :
    (bound fuel k j : ℕ) (s : Tasks)
    → k ≤ bound
    → 0 < k
    → k ≤ fuel
    → after (length s.task_order) s.current_task k ≡ j
    → is_blocked j s.task_order ≡ false
    → Turn s j k fuel
unfolding switches
bounded-Turn zero fuel k j s b pos f e free = absurd (omega arith)
bounded-Turn (suc bound) fuel k j s b pos f e free =
    let n = length s.task_order in
    let i = s.current_task in
    let nx =
      task_switch-Next fuel k s pos f
        (subst (λ t. is_blocked t s.task_order ≡ false) (sym e) free) in
    let s' = record s { current_task = after n i nx.steps } in
    elim (zero-cases (k - nx.steps)) [
      | inl z ↦
          (let all : nx.steps ≡ k = omega (arith, nx.most) in
            let here : after n i nx.steps ≡ j = ap (after n i) all ∙ e in
            (
              1,
              omega arith,
              pos,
              rw (switches, nx.done) (ap (λ t. some (record s { current_task = t })) here),
            ))
      | inr more ↦
          (let sum : nx.steps + (k - nx.steps) ≡ k = omega (arith, nx.most) in
            let there : after n (after n i nx.steps) (k - nx.steps) ≡ j =
              after-split n i nx.steps (k - nx.steps) ∙ ap (after n i) sum ∙ e in
            let (r, pr, le, done) =
              bounded-Turn bound fuel (k - nx.steps) j s' (omega (arith, nx.some_steps)) more
                (omega arith) there free in
            (
              suc r,
              omega arith,
              omega (arith, nx.some_steps, nx.most, sum),
              rw (switches, nx.done) done,
            ))
    ]

-- While no task is made, blocked or awakened, every task that is not blocked runs after at most as many
-- switches as there are tasks.
pub task_switch-Turn :
    (fuel j : ℕ) (s : Tasks)
    → s.current_task < length s.task_order
    → j < length s.task_order
    → is_blocked j s.task_order ≡ false
    → length s.task_order ≤ fuel
    → Turn s j (length s.task_order) fuel
task_switch-Turn fuel j s a b free f =
    let n = length s.task_order in
    let k = distance n s.current_task j in
    let (pos, le) = distance_bounds n s.current_task j a b in
    let (r, pr, most, done) =
      bounded-Turn k fuel k j s (omega arith) pos (omega (arith, le))
        (after-distance n s.current_task j a b) free in
    (r, pr, omega (arith, most, le), done)

-- When every task is blocked, `task_switch` finds none, however often it calls itself.
pub task_switch_endless :
    (fuel : ℕ) (s : Tasks)
    → s.current_task < length s.task_order
    → ((j : ℕ) → j < length s.task_order → is_blocked j s.task_order ≡ true)
    → task_switch fuel s ≡ none
unfolding task_switch
task_switch_endless zero s b all = refl
task_switch_endless (suc fuel) s b all =
    let n = length s.task_order in
    let low = next_low n s.current_task b in
    rw (all (next_place n s.current_task) low)
      (task_switch_endless fuel (record s { current_task = next_place n s.current_task }) low all)
