-- ===== src/Message.antt =====
-- module/message/main.c and api/message.h: the ring of received messages that every user task has.
pub mod Queue
pub mod Faults
mod Tests
use modit_micro.Base.{
  ℕ, suc, ◌+◌, ◌-◌, ◌^◌, Bool, true, false, List, [], ◌∷◌, ltb, leb, ◌==◌, if◌then◌else◌,
}

abbrev pub msg_maxcount : ℕ
msg_maxcount = 128

-- `message_buffer_t`. `buffer` is the memory from the array's start on, and the array is its first
-- `msg_maxcount` words. A message is its address.
pub record Ring : Type 0 where
  pub head : ℕ
  pub tail : ℕ
  pub count : ℕ
  pub buffer : ℕ → ℕ

pub message_push : ℕ → Ring → Ring
message_push msg r = record {
  head = r.head;
  tail = if leb msg_maxcount (r.tail + 1) then 0 else r.tail + 1;
  count = if ltb r.count msg_maxcount then r.count + 1 else r.count;
  buffer = λ i. if r.tail == i then msg else r.buffer i;
}

-- `head` is an `int16_t`: one more than 2^15 - 1 is negative.
pub next_head : ℕ → ℕ
next_head head = if leb (2 ^ 15) (head + 1) then msg_maxcount - 1 else head + 1

-- 0 stands for NULL.
pub message_pop : Ring → ℕ × Ring
unfolding next_head
message_pop r =
    if r.count == 0
    then (0, r)
    else (r.buffer r.head, record r { head = next_head r.head; count = r.count - 1 })

pub message_peep : Ring → ℕ
message_peep r = if r.count == 0 then 0 else r.buffer r.head
