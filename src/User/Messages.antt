-- ===== src/User/Messages.antt =====
-- The messages of module/message/main.c between the tasks of the table.
use modit_micro.Base.{
  inl, inr, Bool-cases, Option-cases, ==-cases, true_ne_false, ==-self, ℕ, ◌≤◌, ◌<◌, ◌≡◌, ◌≢◌, ◌∙◌,
  refl, sym, subst, ap, arith, true, false, none, some, List, [], ◌∷◌, ◌++◌, ◌==◌, leb, length,
}
use modit_micro.Message.{message_push, message_pop, msg_maxcount}
use modit_micro.Message.Queue.{Holds, message_push-Holds, message_pop-Holds, message_push_head}
use modit_micro.User.{
  UserTask, Users, not_found, busy, waits, sent, change_first, find_first, user_find,
  user_isblocked, user_block, user_awake, deliver, message_async_send, message_async_recv_poll,
  message_async_recv, sleeps,
}
use modit_micro.User.Table.{change_first-own, change_first-same, block-find, isblocked-find}

-- The receiver as `deliver` leaves it.
abbrev pub received : ℕ → UserTask → UserTask
received msg t = record t { recvbuf = message_push msg t.recvbuf; blocked = false }

pub deliver-find :
    (msg dst : ℕ) (u : Users) (t : UserTask)
    → user_find dst u ≡ some t
    → (user_find dst (deliver msg dst u) ≡ some (received msg t))
      × ((other : ℕ) → other ≢ dst → user_find other (deliver msg dst u) ≡ user_find other u)
unfolding user_find deliver user_isblocked user_awake
deliver-find msg dst u t e =
    let push = λ (x : UserTask). record x { recvbuf = message_push msg x.recvbuf } in
    let awake = λ (x : UserTask). record x { blocked = false } in
    let ts = change_first dst push u.utsk_list in
    let pushed : find_first dst ts ≡ some (push t) =
      change_first-own dst push u.utsk_list (λ x. refl) ∙ rw e refl in
    let same = λ (other : ℕ) (ne : other ≢ dst).
      change_first-same dst other push u.utsk_list (λ x. refl) ne in
    elim (Bool-cases t.blocked) [
      | inl b ↦
          (let up = change_first-own dst awake ts (λ x. refl) in
            (
              rw (deliver, user_isblocked, pushed, b) (up ∙ rw pushed refl),
              λ other ne.
                  rw (deliver, user_isblocked, pushed, b)
                    (change_first-same dst other awake ts (λ x. refl) ne ∙ same other ne),
            ))
      | inr b ↦ (
        rw (deliver, user_isblocked, pushed, b)
            (pushed ∙ ap (λ x. some (record (push t) { blocked = x })) b),
        λ other ne. rw (deliver, user_isblocked, pushed, b) (same other ne),
      )
    ]

-- A message from a task in the table with no acknowledgement due, to a task in the table whose ring
-- holds a queue of fewer than 128 messages with its head inside the array, is sent: the receiver is
-- awake with the message at the end of its ring, and every other task is as before.
pub message_async_send-Holds :
    (msg src dst : ℕ) (u : Users) (s d : UserTask) (q : List ℕ)
    → user_find src u ≡ some s
    → s.msg_ack ≡ false
    → user_find dst u ≡ some d
    → Holds d.recvbuf q
    → length q < 128
    → (u' : Users) × (d' : UserTask) × (message_async_send msg src dst u ≡ some (sent u'))
      × (user_find dst u' ≡ some d')
      × (d'.blocked ≡ false)
      × (d'.recvbuf.head ≡ d.recvbuf.head)
      × Holds d'.recvbuf (q ++ msg ∷ [])
      × ((other : ℕ) → other ≢ dst → user_find other u' ≡ user_find other u)
unfolding message_async_send
message_async_send-Holds msg src dst u s d q es ack ed h room =
    let (own, same) = deliver-find msg dst u d ed in
    let free : leb msg_maxcount d.recvbuf.count ≡ false = ground (arith, h.count) in
    (
      deliver msg dst u,
      received msg d,
      rw (message_async_send, ed, es, ack, free) refl,
      own,
      refl,
      message_push_head msg d.recvbuf,
      message_push-Holds msg d.recvbuf q h room,
      same,
    )

-- The table while the sender waits.
abbrev pub queued : ℕ → ℕ → ℕ → Users → Users
queued msg src dst u = user_block src (record u {
  utsk_list = change_first dst (λ t. record t { sendbuf = t.sendbuf ++ msg ∷ [] }) u.utsk_list;
})

queued_found :
    (msg src dst : ℕ) (u : Users) (s : UserTask)
    → user_find src u ≡ some s
    → (t : UserTask) × (find_first src
          (change_first dst (λ t. record t { sendbuf = t.sendbuf ++ msg ∷ [] }) u.utsk_list)
        ≡ some t)
unfolding user_find
queued_found msg src dst u s e =
    let f = λ (t : UserTask). record t { sendbuf = t.sendbuf ++ msg ∷ [] } in
    elim (==-cases src dst) [
      | inl eq ↦ (
        f s,
        subst (λ d. find_first src (change_first d f u.utsk_list) ≡ some (f s)) eq
            (change_first-own src f u.utsk_list (λ x. refl) ∙ rw e refl),
      )
      | inr n ↦ (
        s,
        change_first-same dst src f u.utsk_list (λ x. refl)
              (λ eq. true_ne_false (sym (rw eq (==-self dst)) ∙ n))
            ∙ e,
      )
    ]

queued_blocked :
    (msg src dst : ℕ) (u : Users) (s : UserTask)
    → user_find src u ≡ some s
    → user_isblocked src (queued msg src dst u) ≡ true
unfolding user_isblocked user_block
queued_blocked msg src dst u s e =
    let (t, found) = queued_found msg src dst u s e in
    let ts = change_first dst (λ t. record t { sendbuf = t.sendbuf ++ msg ∷ [] }) u.utsk_list in
    let own = change_first-own src (λ t. record t { blocked = true }) ts (λ x. refl) in
    rw (user_isblocked, own, found) refl

-- A message to a task whose ring is full makes the sender wait, blocked, before it is put in the ring.
pub message_async_send_waits :
    (msg src dst : ℕ) (u : Users) (s d : UserTask)
    → user_find src u ≡ some s
    → s.msg_ack ≡ false
    → user_find dst u ≡ some d
    → 128 ≤ d.recvbuf.count
    → (u' : Users) × (message_async_send msg src dst u ≡ some (waits u'))
      × (user_isblocked src u' ≡ true)
unfolding message_async_send
message_async_send_waits msg src dst u s d es ack ed full =
    let over : leb msg_maxcount d.recvbuf.count ≡ true = ground arith in
    (
      queued msg src dst u,
      rw (message_async_send, ed, es, ack, over) refl,
      queued_blocked msg src dst u s es,
    )

-- A task that has a message to acknowledge sends none: the answer says whether the receiver exists.
pub message_async_send_refused :
    (msg src dst : ℕ) (u : Users) (s : UserTask)
    → user_find src u ≡ some s
    → s.msg_ack ≡ true
    → message_async_send msg src dst u
      ≡ some (elim (user_find dst u) [ none ↦ not_found | some d ↦ busy ])
unfolding message_async_send
message_async_send_refused msg src dst u s es ack = elim (Option-cases (user_find dst u)) [
  | inl e ↦ rw (message_async_send, e) refl
  | inr (d, e) ↦ rw (message_async_send, e, es, ack) refl
]

-- `message_async_recv_poll` answers the oldest message of the caller's ring and takes it out.
pub message_async_recv_poll-Holds :
    (id m : ℕ) (u : Users) (t : UserTask) (q : List ℕ)
    → user_find id u ≡ some t
    → Holds t.recvbuf (m ∷ q)
    → t.recvbuf.head < 127
    → (u' : Users) × (t' : UserTask) × (message_async_recv_poll id u ≡ some (m, u'))
      × (user_find id u' ≡ some t')
      × Holds t'.recvbuf q
      × ((other : ℕ) → other ≢ id → user_find other u' ≡ user_find other u)
unfolding message_async_recv_poll user_find
message_async_recv_poll-Holds id m u t q e h small =
    let (answer, peeped, rest) = message_pop-Holds t.recvbuf m q h small in
    let pop = λ (x : UserTask). record x { recvbuf = (message_pop x.recvbuf).1 } in
    (
      record u { utsk_list = change_first id pop u.utsk_list },
      pop t,
      rw (message_async_recv_poll, e, answer) refl,
      change_first-own id pop u.utsk_list (λ x. refl) ∙ rw e refl,
      rest,
      λ other ne. change_first-same id other pop u.utsk_list (λ x. refl) ne,
    )

-- A task that finds its ring empty is blocked; a message that is sent to it then awakens it, and is
-- what it receives.
pub message_async_recv-awakes :
    (id src msg : ℕ) (u : Users) (t s : UserTask)
    → user_find id u ≡ some t
    → Holds t.recvbuf []
    → t.recvbuf.head < 127
    → user_find src u ≡ some s
    → s.msg_ack ≡ false
    → src ≢ id
    → (u1 : Users) × (u2 : Users) × (u3 : Users) × (message_async_recv id u ≡ some (sleeps u1))
      × (user_isblocked id u1 ≡ true)
      × (message_async_send msg src id u1 ≡ some (sent u2))
      × (user_isblocked id u2 ≡ false)
      × (message_async_recv_poll id u2 ≡ some (msg, u3))
unfolding message_async_recv
message_async_recv-awakes id src msg u t s e h small es ack ne =
    let u1 = user_block id u in
    let t1 = record t { blocked = true } in
    let (found, apart) = block-find id u t e in
    let (u2, t2, done, e2, awake, at, h2, same) =
      message_async_send-Holds msg src id u1 s t1 [] (apart src ne ∙ es) ack found h
        (omega arith) in
    let (u3, t3, polled, e3, h3, same3) =
      message_async_recv_poll-Holds id msg u2 t2 [] e2 h2 (omega (arith, at)) in
    let empty : (t.recvbuf.count == 0) ≡ true = ground (arith, h.count) in
    (
      u1,
      u2,
      u3,
      rw (message_async_recv, e, empty) refl,
      isblocked-find id u1 t1 found,
      done,
      isblocked-find id u2 t2 e2 ∙ awake,
      polled,
    )
