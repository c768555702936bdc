-- ===== src/User/Table.antt =====
-- The table of user tasks of module/user/main.c: ids are unique, and the loops over the table change
-- and find the task with the id.
use modit_micro.Base.{
  ==-self, ==-false, Bool-cases, ℕ, ◌+◌, ◌^◌, ◌≤◌, ◌<◌, ◌≡◌, ◌≢◌, inl, inr, ◌∙◌, refl, sym, ap,
  arith, true, false, none, some, List, [], ◌∷◌, ◌++◌, ◌==◌, if◌then◌else◌,
}
use modit_micro.User.{
  UserTask, Users, new_task, enlist, user_fork, change_first, user_block, user_awake, find_first,
  user_find, user_isblocked,
}

-- How many tasks have the id.
abbrev pub holders : ℕ → List UserTask → ℕ
holders id [] = 0
holders id (t ∷ ts) = (if t.pid == id then 1 else 0) + holders id ts

-- Ids are unique and lie below the next one.
pub record IsTable (u : Users) : Type 0 where
  pub unique : (id : ℕ) → holders id u.utsk_list ≤ 1
  pub below : (id : ℕ) → 0 < holders id u.utsk_list → id < u.next_pid

holders-append :
    (id : ℕ) (xs ys : List UserTask) → holders id (xs ++ ys) ≡ holders id xs + holders id ys
holders-append id [] ys = omega arith
holders-append id (x ∷ xs) ys = omega (arith, holders-append id xs ys)

-- A task with the next id joins the table; before the ids run out, no task has its id.
pub enlist-IsTable :
    (perms : ℕ) (memory : ℕ → ℕ) (u : Users)
    → IsTable u
    → u.next_pid + 1 < 2 ^ 32
    → IsTable (enlist perms memory u).1 × (holders u.next_pid u.utsk_list ≡ 0)
enlist-IsTable perms memory u h room =
    let new = new_task u.next_pid perms memory in
    let fresh : holders u.next_pid u.utsk_list ≡ 0 = ground (arith, h.below u.next_pid) in
    let many = λ (id : ℕ). holders-append id u.utsk_list (new ∷ []) in
    (
      record {
        unique = λ id. ground (arith, many id, h.unique id);
        below = λ id b. ground (arith, many id, h.below id);
      },
      fresh,
    )

pub find_first-append :
    (id : ℕ) (ts : List UserTask) (t : UserTask)
    → holders id ts ≡ 0
    → t.pid ≡ id
    → find_first id (ts ++ t ∷ []) ≡ some t
unfolding find_first
find_first-append id [] t z e = rw (e, ==-self id) refl
find_first-append id (x ∷ xs) t z e =
    let ne : (x.pid == id) ≡ false = ground (arith, z) in
    rw ne (find_first-append id xs t (omega (arith, z)) e)

find_first-none : (id : ℕ) (ts : List UserTask) → holders id ts ≡ 0 → find_first id ts ≡ none
unfolding find_first
find_first-none id [] z = refl
find_first-none id (t ∷ ts) z =
    let ne : (t.pid == id) ≡ false = ground (arith, z) in
    rw ne (find_first-none id ts (omega (arith, z)))

pub change_first-same :
    (id other : ℕ) (f : UserTask → UserTask) (ts : List UserTask)
    → ((t : UserTask) → (f t).pid ≡ t.pid)
    → other ≢ id
    → find_first other (change_first id f ts) ≡ find_first other ts
unfolding find_first change_first
change_first-same id other f [] keep ne = refl
change_first-same id other f (t ∷ ts) keep ne = elim (Bool-cases (t.pid == id)) [
  | inl y ↦
      (let e : t.pid ≡ id = ground (arith, y) in
        let o : (t.pid == other) ≡ false = ==-false (λ x. ne (sym x ∙ e)) in
        let k : ((f t).pid == other) ≡ false = ap (λ p. p == other) (keep t) ∙ o in
        rw (y, k, o) refl)
  | inr n ↦ rw (n, change_first-same id other f ts keep ne) refl
]

pub change_first-own :
    (id : ℕ) (f : UserTask → UserTask) (ts : List UserTask)
    → ((t : UserTask) → (f t).pid ≡ t.pid)
    → find_first id (change_first id f ts)
      ≡ elim (find_first id ts) [ none ↦ none | some t ↦ some (f t) ]
unfolding find_first change_first
change_first-own id f [] keep = refl
change_first-own id f (t ∷ ts) keep = elim (Bool-cases (t.pid == id)) [
  | inl y ↦ (let k : ((f t).pid == id) ≡ true = ap (λ p. p == id) (keep t) ∙ y in rw (y, k) refl)
  | inr n ↦ rw (n, n, change_first-own id f ts keep) refl
]

pub block-find :
    (id : ℕ) (u : Users) (t : UserTask)
    → user_find id u ≡ some t
    → (user_find id (user_block id u) ≡ some (record t { blocked = true }))
      × ((other : ℕ) → other ≢ id → user_find other (user_block id u) ≡ user_find other u)
unfolding user_block user_find
block-find id u t e =
    let f = λ (x : UserTask). record x { blocked = true } in
    (
      change_first-own id f u.utsk_list (λ x. refl) ∙ rw e refl,
      λ other ne. change_first-same id other f u.utsk_list (λ x. refl) ne,
    )

awake-find :
    (id : ℕ) (u : Users) (t : UserTask)
    → user_find id u ≡ some t
    → (user_find id (user_awake id u) ≡ some (record t { blocked = false }))
      × ((other : ℕ) → other ≢ id → user_find other (user_awake id u) ≡ user_find other u)
unfolding user_awake user_find
awake-find id u t e =
    let f = λ (x : UserTask). record x { blocked = false } in
    (
      change_first-own id f u.utsk_list (λ x. refl) ∙ rw e refl,
      λ other ne. change_first-same id other f u.utsk_list (λ x. refl) ne,
    )

pub isblocked-find :
    (id : ℕ) (u : Users) (t : UserTask) → user_find id u ≡ some t → user_isblocked id u ≡ t.blocked
unfolding user_isblocked user_find
isblocked-find id u t e = rw (user_isblocked, e) refl

-- After `user_block` the task with the id is blocked, and after `user_awake` it is not; every other task
-- is found as before.
pub user_block-isblocked :
    (id : ℕ) (u : Users) (t : UserTask)
    → user_find id u ≡ some t
    → (user_isblocked id (user_block id u) ≡ true)
      × (user_isblocked id (user_awake id u) ≡ false)
      × ((other : ℕ)
          → other ≢ id
          → (user_find other (user_block id u) ≡ user_find other u)
            × (user_find other (user_awake id u) ≡ user_find other u))
user_block-isblocked id u t e =
    let (b, same_b) = block-find id u t e in
    let (a, same_a) = awake-find id u t e in
    (
      isblocked-find id (user_block id u) (record t { blocked = true }) b,
      isblocked-find id (user_awake id u) (record t { blocked = false }) a,
      λ other ne. (same_b other ne, same_a other ne),
    )

-- Before the ids run out, `user_fork` keeps the ids unique, and its answer is the id of a task that has
-- the caller's permissions and nothing in its ring.
pub user_fork-IsTable :
    (memory : ℕ → ℕ) (caller : UserTask) (u : Users)
    → IsTable u
    → u.next_pid + 1 < 2 ^ 32
    → let (pid, u') = user_fork memory caller u in
      IsTable u'
      × (user_find pid u' ≡ some (new_task pid caller.perms memory))
      × (user_find pid u ≡ none)
unfolding user_fork user_find
user_fork-IsTable memory caller u h room =
    let (table, fresh) = enlist-IsTable caller.perms memory u h room in
    (
      table,
      find_first-append u.next_pid u.utsk_list (new_task u.next_pid caller.perms memory) fresh refl,
      find_first-none u.next_pid u.utsk_list fresh,
    )
