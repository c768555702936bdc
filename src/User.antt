-- ===== src/User.antt =====
-- module/user/main.c: the table of user tasks, their process ids and permissions; and the messages of
-- module/message/main.c that go between them.
pub mod Table
pub mod Perms
pub mod Messages
pub mod Badges
mod Tests
use modit_micro.Base.{
  ℕ, ◌+◌, ◌%◌, ◌^◌, Bool, true, false, not, Option, none, some, List, [], ◌∷◌, ◌++◌, leb, ◌==◌,
  if◌then◌else◌, bit_and, bit_xor,
}
use modit_micro.Message.{Ring, message_push, message_pop, msg_maxcount}

-- `user_task_t`, with the `blocked` flag of its `task_t`.
pub record UserTask : Type 0 where
  pub pid : ℕ
  pub perms : ℕ
  pub blocked : Bool
  pub recvbuf : Ring
  pub sendbuf : List ℕ
  pub msg_ack : Bool

-- `next_pid` and `utsk_list`.
pub record Users : Type 0 where
  pub next_pid : ℕ
  pub utsk_list : List UserTask

-- A task after `memset`, with its id and permissions; `memory` is what stands behind its ring.
abbrev pub new_task : ℕ → ℕ → (ℕ → ℕ) → UserTask
new_task pid perms memory = record {
  pid = pid;
  perms = perms;
  blocked = false;
  recvbuf = record {
    head = 0;
    tail = 0;
    count = 0;
    buffer = λ i. if leb msg_maxcount i then memory i else 0;
  };
  sendbuf = [];
  msg_ack = false;
}

-- `list_push(utsk_list, utsk)` with the next id.
abbrev pub enlist : ℕ → (ℕ → ℕ) → Users → UserTask × Users
enlist perms memory u =
    let t = new_task u.next_pid perms memory in
    (t, record u { next_pid = (u.next_pid + 1) % 2 ^ 32; utsk_list = u.utsk_list ++ t ∷ [] })

-- The caller does not have one of the permissions.
pub adds_perms : ℕ → ℕ → Bool
adds_perms perms own = not (bit_and (bit_xor perms own) perms == 0)

-- `caller` is the user task that runs, if the kernel does not run by itself.
pub user_spawn : ℕ → (ℕ → ℕ) → Option UserTask → Users → Option UserTask × Users
unfolding adds_perms
user_spawn perms memory none u = let (t, u') = enlist perms memory u in (some t, u')
user_spawn perms memory (some caller) u =
    if adds_perms perms caller.perms
    then (none, u)
    else let (t, u') = enlist perms memory u in (some t, u')

-- The answer is the new task's id.
pub user_fork : (ℕ → ℕ) → UserTask → Users → ℕ × Users
user_fork memory caller u = let (t, u') = enlist caller.perms memory u in (t.pid, u')

-- The loops over `utsk_list` stop at the first task with the id.
pub change_first : ℕ → (UserTask → UserTask) → List UserTask → List UserTask
change_first id f [] = []
change_first id f (t ∷ ts) =
    let rest = change_first id f ts in if t.pid == id then f t ∷ ts else t ∷ rest

pub user_block : ℕ → Users → Users
unfolding change_first
user_block id u = record u {
  utsk_list = change_first id (λ t. record t { blocked = true }) u.utsk_list;
}

pub user_awake : ℕ → Users → Users
unfolding change_first
user_awake id u = record u {
  utsk_list = change_first id (λ t. record t { blocked = false }) u.utsk_list;
}

pub find_first : ℕ → List UserTask → Option UserTask
find_first id [] = none
find_first id (t ∷ ts) = let rest = find_first id ts in if t.pid == id then some t else rest

unfoldable pub user_find : ℕ → Users → Option UserTask
unfolding find_first
user_find id u = find_first id u.utsk_list

pub user_isblocked : ℕ → Users → Bool
unfolding find_first
user_isblocked id u = elim (find_first id u.utsk_list) [ none ↦ false | some t ↦ t.blocked ]

-- `message_push(&dtsk->recvbuf, msg)` and the wake-up that follows.
pub deliver : ℕ → ℕ → Users → Users
unfolding change_first user_isblocked user_awake
deliver msg dst u =
    let u1 = record u {
      utsk_list =
          change_first dst (λ t. record t { recvbuf = message_push msg t.recvbuf }) u.utsk_list;
    } in
    if user_isblocked dst u1 then user_awake dst u1 else u1

-- What `message_async_send` has done when it returns, or when it gives the processor away before
-- `deliver`.
pub data Send : Type 0 where
  not_found : Send
  busy : Send
  waits : Users → Send
  sent : Users → Send

-- The first part of `message_async_send` of a message from `src` to `dst`. `none` means that the sender
-- is not in the table, so that the code reads through NULL.
pub message_async_send : ℕ → ℕ → ℕ → Users → Option Send
unfolding user_find user_block deliver change_first
message_async_send msg src dst u = elim (user_find dst u) [
  | none ↦ some not_found
  | some d ↦ elim (user_find src u) [
    | none ↦ none
    | some s ↦ some (
        if s.msg_ack
        then busy
        else if leb msg_maxcount d.recvbuf.count
        then waits (
            user_block src (record u {
              utsk_list =
                  change_first dst (λ t. record t { sendbuf = t.sendbuf ++ msg ∷ [] }) u.utsk_list;
            }))
        else sent (deliver msg dst u))
  ]
]

-- `message_async_recv_poll` of the task with the id `id`.
pub message_async_recv_poll : ℕ → Users → Option (ℕ × Users)
unfolding user_find change_first
message_async_recv_poll id u = elim (user_find id u) [
  | none ↦ none
  | some t ↦ some (
    (message_pop t.recvbuf).0,
    record u {
      utsk_list =
          change_first id (λ t. record t { recvbuf = (message_pop t.recvbuf).1 }) u.utsk_list;
    },
  )
]

-- What `message_async_recv` has done when it returns, or when it gives the processor away before it
-- goes on as `message_async_recv_poll` does.
pub data Receive : Type 0 where
  sleeps : Users → Receive
  takes : ℕ → Users → Receive

pub message_async_recv : ℕ → Users → Option Receive
unfolding user_find user_block message_async_recv_poll
message_async_recv id u = elim (user_find id u) [
  | none ↦ none
  | some t ↦
      if t.recvbuf.count == 0
      then some (sleeps (user_block id u))
      else elim (message_async_recv_poll id u) [ none ↦ none | some (m, u') ↦ some (takes m u') ]
]
