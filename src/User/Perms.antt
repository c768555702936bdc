-- ===== src/User/Perms.antt =====
-- The permissions of user tasks in module/user/main.c: no task gives away more than it has.
use modit_micro.Base.{
  Bool-cases, true_ne_false, ℕ, ◌+◌, ◌^◌, ◌≤◌, ◌<◌, ◌≡◌, ◌↔◌, ◌⊎◌, inl, inr, ◌∙◌, refl, sym, subst,
  ap, arith, true, false, Option, none, some, List, [], ◌∷◌, ◌++◌, ◌==◌, bit_and, bit_xor,
}
use modit_micro.Base.Bits.{bit, bit-le, bit-bit_and, bit-bit_xor, bits-zero, bit-zero, min-differ}
use modit_micro.User.{
  UserTask, Users, new_task, adds_perms, user_spawn, user_fork, user_find, user_block, user_awake,
  change_first, find_first,
}
use modit_micro.User.Table.{IsTable, enlist-IsTable, find_first-append}

-- Every permission of `p` is one of `own`.
abbrev pub Within : ℕ → ℕ → Type 0
Within p own = (k : ℕ) → bit k p ≤ bit k own

excess : ℕ → ℕ → ℕ
excess p own = bit_and (bit_xor p own) p

excess-bit : (k p own : ℕ) → (bit k (excess p own) ≡ 0) ↔ (bit k p ≤ bit k own)
unfolding excess
excess-bit k p own =
    rw (bit-bit_and k (bit_xor p own) p, bit-bit_xor k p own)
      (min-differ (bit k p) (bit k own) (bit-le k p) (bit-le k own))

-- The test of `user_spawn` and `user_exec` is the inclusion of permission sets.
pub adds_perms-Within : (p own : ℕ) → (adds_perms p own ≡ false) ↔ Within p own
unfolding adds_perms excess
adds_perms-Within p own = (
  λ e k.
      let zero_excess : excess p own ≡ 0 = ground (arith, e) in
      (excess-bit k p own).0 (ap (bit k) zero_excess ∙ bit-zero k),
  λ within.
      let zero_excess : excess p own ≡ 0 =
        bits-zero (excess p own) (λ k. (excess-bit k p own).1 (within k)) in
      rw zero_excess refl,
)

-- What `user_spawn` answers to a user task that asks for the permissions `p`.
abbrev pub Spawned : ℕ → (ℕ → ℕ) → UserTask → Users → Option UserTask × Users → Type 0
Spawned p memory caller u out =
    (Within p caller.perms
      × (out.0 ≡ some (new_task u.next_pid p memory))
      × IsTable out.1
      × (user_find u.next_pid out.1 ≡ some (new_task u.next_pid p memory)))
    ⊎ ((Within p caller.perms → ⊥) × (out.0 ≡ none) × (out.1 ≡ u))

-- Before the ids run out, `user_spawn` makes a task with the next id and the permissions that are
-- asked for when the caller has them all, and otherwise changes nothing and answers NULL.
pub user_spawn-Spawned :
    (p : ℕ) (memory : ℕ → ℕ) (caller : UserTask) (u : Users)
    → IsTable u
    → u.next_pid + 1 < 2 ^ 32
    → Spawned p memory caller u (user_spawn p memory (some caller) u)
unfolding user_spawn user_find
user_spawn-Spawned p memory caller u h room = elim (Bool-cases (adds_perms p caller.perms)) [
  | inl y ↦ rw y (
      inr
        (λ within. true_ne_false (sym y ∙ (adds_perms-Within p caller.perms).1 within), refl, refl))
  | inr n ↦
      (let (table, fresh) = enlist-IsTable p memory u h room in
        rw n (
          inl (
            (adds_perms-Within p caller.perms).0 n,
            refl,
            table,
            find_first-append u.next_pid u.utsk_list (new_task u.next_pid p memory) fresh refl,
          )))
]

-- All tasks of a table keep to the permissions of `root`.
abbrev pub AllWithin : ℕ → List UserTask → Type 0
AllWithin root [] = Unit {0}
AllWithin root (t ∷ ts) = Within t.perms root × AllWithin root ts

AllWithin-append :
    (root : ℕ) (ts : List UserTask) (t : UserTask)
    → AllWithin root ts
    → Within t.perms root
    → AllWithin root (ts ++ t ∷ [])
AllWithin-append root [] t a w = (w, tt)
AllWithin-append root (x ∷ xs) t a w = (a.0, AllWithin-append root xs t a.1 w)

AllWithin-change :
    (root id : ℕ) (f : UserTask → UserTask) (ts : List UserTask)
    → ((t : UserTask) → (f t).perms ≡ t.perms)
    → AllWithin root ts
    → AllWithin root (change_first id f ts)
unfolding change_first
AllWithin-change root id f [] keep a = tt
AllWithin-change root id f (t ∷ ts) keep a = elim (Bool-cases (t.pid == id)) [
  | inl y ↦ rw y (subst (λ p. Within p root) (sym (keep t)) a.0, a.1)
  | inr n ↦ rw n (a.0, AllWithin-change root id f ts keep a.1)
]

AllWithin-find :
    (root id : ℕ) (ts : List UserTask) (t : UserTask)
    → AllWithin root ts
    → find_first id ts ≡ some t
    → Within t.perms root
unfolding find_first
AllWithin-find root id [] t a e = absurd (ground arith)
AllWithin-find root id (x ∷ xs) t a e = elim (Bool-cases (x.pid == id)) [
  | inl y ↦
      (let here : find_first id (x ∷ xs) ≡ some x = rw y refl in
        subst (λ o. elim o [ none ↦ Unit {0} | some c ↦ Within c.perms root ]) (sym here ∙ e) a.0)
  | inr n ↦
      (let there : find_first id (x ∷ xs) ≡ find_first id xs = rw n refl in
        AllWithin-find root id xs t a.1 (sym there ∙ e))
]

-- The tables that follow on the first task, which has the permissions `root`, when the tasks of the
-- table make others, and when any task is blocked or awakened.
pub data Descends (root : ℕ) (memory : ℕ → ℕ) : Users → Type 0 where
  first :
      Descends root memory (user_spawn root memory none record { next_pid = 0; utsk_list = [] }).1
  spawned :
      (p id : ℕ) (caller : UserTask) (u : Users)
      → Descends root memory u
      → user_find id u ≡ some caller
      → Descends root memory (user_spawn p memory (some caller) u).1
  forked :
      (id : ℕ) (caller : UserTask) (u : Users)
      → Descends root memory u
      → user_find id u ≡ some caller
      → Descends root memory (user_fork memory caller u).1
  blocked : (id : ℕ) (u : Users) → Descends root memory u → Descends root memory (user_block id u)
  awoken : (id : ℕ) (u : Users) → Descends root memory u → Descends root memory (user_awake id u)

spawn-AllWithin :
    (root p : ℕ) (memory : ℕ → ℕ) (caller : UserTask) (u : Users)
    → AllWithin root u.utsk_list
    → Within caller.perms root
    → AllWithin root (user_spawn p memory (some caller) u).1.utsk_list
unfolding user_spawn
spawn-AllWithin root p memory caller u a w = elim (Bool-cases (adds_perms p caller.perms)) [
  | inl y ↦ rw y a
  | inr n ↦ rw n (
      AllWithin-append root u.utsk_list (new_task u.next_pid p memory) a
        (λ k. omega (arith, (adds_perms-Within p caller.perms).0 n k, w k)))
]

-- No task that descends from the first one by `user_spawn` and `user_fork` has a permission that the
-- first one does not have.
pub Descends-AllWithin :
    (root : ℕ) (memory : ℕ → ℕ) (u : Users) → Descends root memory u → AllWithin root u.utsk_list
unfolding user_spawn user_fork user_block user_awake user_find
Descends-AllWithin root memory _ first = (λ k. omega arith, tt)
Descends-AllWithin root memory _ (spawned p id caller u d e) =
    let a = Descends-AllWithin root memory u d in
    spawn-AllWithin root p memory caller u a (AllWithin-find root id u.utsk_list caller a e)
Descends-AllWithin root memory _ (forked id caller u d e) =
    let a = Descends-AllWithin root memory u d in
    AllWithin-append root u.utsk_list (new_task u.next_pid caller.perms memory) a
      (AllWithin-find root id u.utsk_list caller a e)
Descends-AllWithin root memory _ (blocked id u d) =
    AllWithin-change root id (λ t. record t { blocked = true }) u.utsk_list (λ t. refl)
      (Descends-AllWithin root memory u d)
Descends-AllWithin root memory _ (awoken id u d) =
    AllWithin-change root id (λ t. record t { blocked = false }) u.utsk_list (λ t. refl)
      (Descends-AllWithin root memory u d)
