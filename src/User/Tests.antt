-- ===== src/User/Tests.antt =====
-- Runs of module/user/main.c and of the messages between tasks, and the lemmas at a concrete table.
use modit_micro.Base.{ℕ, ◌<◌, ◌≡◌, ◌≢◌, refl, arith, true, false, none, some, [], ◌∷◌}
use modit_micro.Message.Queue.{Holds}
use modit_micro.User.{
  UserTask, Users, new_task, sent, user_spawn, user_fork, user_find, message_async_send,
}
use modit_micro.User.Table.{holders, IsTable, user_fork-IsTable}
use modit_micro.User.Perms.{
  Spawned, user_spawn-Spawned, AllWithin, first, forked, Descends-AllWithin,
}
use modit_micro.User.Messages.{message_async_send-Holds}

abbrev silence : ℕ → ℕ
silence i = 0

abbrev init : UserTask
init = new_task 0 7 silence

-- A task with one message.
abbrev server : UserTask
server = record (new_task 1 3 silence) {
  recvbuf = record { head = 5; tail = 6; count = 1; buffer = λ i. 40 };
}

-- A task that has to acknowledge a message.
abbrev debtor : UserTask
debtor = record (new_task 2 1 silence) { msg_ack = true }

-- A task whose ring is full.
abbrev crowded : UserTask
crowded = record (new_task 3 1 silence) {
  recvbuf = record { head = 0; tail = 0; count = 128; buffer = λ i. 40 };
}

abbrev four : Users
four = record { next_pid = 4; utsk_list = init ∷ server ∷ debtor ∷ crowded ∷ [] }

four_unique : (id : ℕ) → holders id four.utsk_list < 2
four_unique id = ground arith

four_below : (id : ℕ) → 0 < holders id four.utsk_list → id < 4
four_below id b = ground arith

four-IsTable : IsTable four
four-IsTable = record {
  unique = λ id. omega (arith, four_unique id);
  below = λ id b. omega (arith, four_below id b);
}

server-Holds : Holds server.recvbuf (40 ∷ [])
server-Holds = record {
  inside = omega arith;
  count = refl;
  fits = omega arith;
  tail = refl;
  filled = (refl, tt);
}

init-Holds : Holds init.recvbuf []
init-Holds = record {
  inside = omega arith;
  count = refl;
  fits = omega arith;
  tail = refl;
  filled = tt;
}

found_init : user_find 0 four ≡ some init
unfolding user_find
found_init = refl

found_server : user_find 1 four ≡ some server
unfolding user_find
found_server = refl

found_debtor : user_find 2 four ≡ some debtor
unfolding user_find
found_debtor = refl

found_crowded : user_find 3 four ≡ some crowded
unfolding user_find
found_crowded = refl

user_fork-IsTable_example :
    IsTable (user_fork silence server four).1
    × (user_find (user_fork silence server four).0 (user_fork silence server four).1
        ≡ some (new_task 4 3 silence))
    × (user_find (user_fork silence server four).0 four ≡ none)
unfolding user_fork
user_fork-IsTable_example = user_fork-IsTable silence server four four-IsTable (omega arith)

user_spawn-Spawned_example : Spawned 4 silence server four (user_spawn 4 silence (some server) four)
user_spawn-Spawned_example = user_spawn-Spawned 4 silence server four four-IsTable (omega arith)

abbrev alone : Users
alone = (user_spawn 7 silence none record { next_pid = 0; utsk_list = [] }).1

found_alone : user_find 0 alone ≡ some init
unfolding user_find user_spawn
found_alone = refl

Descends-AllWithin_example : AllWithin 7 (user_fork silence init alone).1.utsk_list
Descends-AllWithin_example =
    Descends-AllWithin 7 silence (user_fork silence init alone).1
      (forked 0 init alone first found_alone)

message_async_send-Holds_example :
    (u' : Users) × (d' : UserTask) × (message_async_send 9 0 1 four ≡ some (sent u'))
    × (user_find 1 u' ≡ some d')
    × (d'.blocked ≡ false)
    × (d'.recvbuf.head ≡ 5)
    × Holds d'.recvbuf (40 ∷ 9 ∷ [])
    × ((other : ℕ) → other ≢ 1 → user_find other u' ≡ user_find other four)
message_async_send-Holds_example =
    message_async_send-Holds 9 0 1 four init server (40 ∷ []) found_init refl found_server
      server-Holds (omega arith)
