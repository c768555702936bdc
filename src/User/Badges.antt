-- ===== src/User/Badges.antt =====
-- What the functions of module/user/main.c and module/message/main.c do to the ids and permissions of
-- the table.
use modit_micro.Base.{
  SomeHas, Bool-cases, Option-cases, ℕ, ◌≡◌, inl, inr, ◌∙◌, refl, subst, ap, arith, true, false,
  some, List, [], ◌∷◌, ◌++◌, ◌==◌, leb,
}
use modit_micro.Message.{message_push, message_pop, msg_maxcount}
use modit_micro.User.{
  UserTask, Users, new_task, user_spawn, user_fork, user_find, user_block, user_awake,
  user_isblocked, change_first, deliver, Send, not_found, busy, waits, sent, message_async_send,
  Receive, sleeps, takes, message_async_recv, message_async_recv_poll,
}
use modit_micro.User.Perms.{adds_perms-Within}

-- The id and the permissions of every task.
abbrev pub badges : List UserTask → List (ℕ × ℕ)
badges [] = []
badges (t ∷ ts) = (t.pid, t.perms) ∷ badges ts

badges-append :
    (ts : List UserTask) (t : UserTask) → badges (ts ++ t ∷ []) ≡ badges ts ++ (t.pid, t.perms) ∷ []
badges-append [] t = refl
badges-append (x ∷ xs) t = ap (λ b. (x.pid, x.perms) ∷ b) (badges-append xs t)

badges-change_first :
    (id : ℕ) (f : UserTask → UserTask) (ts : List UserTask)
    → ((t : UserTask) → (f t).pid ≡ t.pid)
    → ((t : UserTask) → (f t).perms ≡ t.perms)
    → badges (change_first id f ts) ≡ badges ts
unfolding change_first
badges-change_first id f [] a b = refl
badges-change_first id f (t ∷ ts) a b = elim (Bool-cases (t.pid == id)) [
  | inl y ↦ rw (y, a t, b t) refl
  | inr n ↦ rw n (ap (λ bs. (t.pid, t.perms) ∷ bs) (badges-change_first id f ts a b))
]

block-badges : (id : ℕ) (u : Users) → badges (user_block id u).utsk_list ≡ badges u.utsk_list
unfolding user_block
block-badges id u =
    badges-change_first id (λ t. record t { blocked = true }) u.utsk_list (λ t. refl) (λ t. refl)

pub deliver-badges :
    (msg dst : ℕ) (u : Users) → badges (deliver msg dst u).utsk_list ≡ badges u.utsk_list
unfolding deliver user_awake
deliver-badges msg dst u =
    let push = λ (x : UserTask). record x { recvbuf = message_push msg x.recvbuf } in
    let ts = change_first dst push u.utsk_list in
    let pushed = badges-change_first dst push u.utsk_list (λ t. refl) (λ t. refl) in
    elim (Bool-cases (user_isblocked dst (record u { utsk_list = ts }))) [
      | inl y ↦ rw y (
          badges-change_first dst (λ t. record t { blocked = false }) ts (λ t. refl) (λ t. refl)
          ∙ pushed)
      | inr n ↦ rw n pushed
    ]

-- The table that a call of `message_async_send` leaves has the same ids and permissions.
abbrev pub SendKeepsBadges : Users → Send → Type 0
SendKeepsBadges u not_found = Unit {0}
SendKeepsBadges u busy = Unit {0}
SendKeepsBadges u (waits u') = badges u'.utsk_list ≡ badges u.utsk_list
SendKeepsBadges u (sent u') = badges u'.utsk_list ≡ badges u.utsk_list

pub message_async_send-badges :
    (msg src dst : ℕ) (u : Users) → SomeHas (SendKeepsBadges u) (message_async_send msg src dst u)
unfolding message_async_send
message_async_send-badges msg src dst u =
    let queue = λ (t : UserTask). record t { sendbuf = t.sendbuf ++ msg ∷ [] } in
    let u1 = record u { utsk_list = change_first dst queue u.utsk_list } in
    let queued =
      block-badges src u1 ∙ badges-change_first dst queue u.utsk_list (λ t. refl) (λ t. refl) in
    elim (Option-cases (user_find dst u)) [
      | inl n ↦ rw (SomeHas, n) tt
      | inr (d, ed) ↦ elim (Option-cases (user_find src u)) [
        | inl n ↦ rw (SomeHas, ed, n) tt
        | inr (s, es) ↦ elim (Bool-cases s.msg_ack) [
          | inl y ↦ rw (SomeHas, ed, es, y) tt
          | inr n ↦ elim (Bool-cases (leb msg_maxcount d.recvbuf.count)) [
            | inl y ↦ rw (SomeHas, ed, es, n, y) queued
            | inr m ↦ rw (SomeHas, ed, es, n, m) (deliver-badges msg dst u)
          ]
        ]
      ]
    ]

pub message_async_recv_poll-badges :
    (id : ℕ) (u : Users)
    → SomeHas
        (λ (out : ℕ × Users). badges out.1.utsk_list ≡ badges u.utsk_list)
        (message_async_recv_poll id u)
unfolding message_async_recv_poll
message_async_recv_poll-badges id u = elim (Option-cases (user_find id u)) [
  | inl n ↦ rw (SomeHas, n) tt
  | inr (t, e) ↦
      rw (SomeHas, e)
        (badges-change_first id (λ x. record x { recvbuf = (message_pop x.recvbuf).1 }) u.utsk_list
          (λ x. refl) (λ x. refl))
]

abbrev pub ReceiveKeepsBadges : Users → Receive → Type 0
ReceiveKeepsBadges u (sleeps u') = badges u'.utsk_list ≡ badges u.utsk_list
ReceiveKeepsBadges u (takes m u') = badges u'.utsk_list ≡ badges u.utsk_list

pub message_async_recv-badges :
    (id : ℕ) (u : Users) → SomeHas (ReceiveKeepsBadges u) (message_async_recv id u)
unfolding message_async_recv
message_async_recv-badges id u = elim (Option-cases (user_find id u)) [
  | inl n ↦ rw (SomeHas, n) tt
  | inr (t, e) ↦ elim (Bool-cases (t.recvbuf.count == 0)) [
    | inl y ↦ rw (SomeHas, e, y) (block-badges id u)
    | inr n ↦
        rw (SomeHas, e, n)
          (elim (Option-cases (message_async_recv_poll id u)) [
            | inl z ↦ rw (SomeHas, z) tt
            | inr (out, z) ↦
                rw (SomeHas, z)
                  (subst (SomeHas (λ (o : ℕ × Users). badges o.1.utsk_list ≡ badges u.utsk_list)) z
                    (message_async_recv_poll-badges id u))
          ])
  ]
]

-- A task that asks for its own permissions gets them.
pub user_spawn-badges :
    (memory : ℕ → ℕ) (caller : UserTask) (u : Users)
    → badges (user_spawn caller.perms memory (some caller) u).1.utsk_list
      ≡ badges u.utsk_list ++ (u.next_pid, caller.perms) ∷ []
unfolding user_spawn
user_spawn-badges memory caller u =
    let granted = (adds_perms-Within caller.perms caller.perms).1 (λ k. omega arith) in
    rw granted (badges-append u.utsk_list (new_task u.next_pid caller.perms memory))

pub user_fork-badges :
    (memory : ℕ → ℕ) (caller : UserTask) (u : Users)
    → badges (user_fork memory caller u).1.utsk_list
      ≡ badges u.utsk_list ++ (u.next_pid, caller.perms) ∷ []
unfolding user_fork
user_fork-badges memory caller u =
    badges-append u.utsk_list (new_task u.next_pid caller.perms memory)
