-- ===== src/Syscall/Delivery.antt =====
-- A message from `syscall_msg_send` of one task to `syscall_msg_poll` of another, through the ring of
-- module/message/main.c and the heap, in module/syscall/main.c.
use modit_micro.Base.{ℕ, ◌≡◌}
use modit_micro.Heap.{Heap}
use modit_micro.User.{UserTask}
use modit_micro.Kernel.{Message, Surroundings, Kernel, returns}
use modit_micro.Syscall.{syscall_msg_send, syscall_msg_poll}

-- What the receiver is to get.
abbrev pub delivered : ℕ → ℕ → Message → Message
delivered src dst m = record m { src = src; dst = dst }

-- `msg_send` and then `msg_poll` answer 0, and the header at `buf` is the sender's, with the ids.
pub record Delivered {T : Type 0} (e : Surroundings T) (msg buf dst : ℕ) (s d : UserTask)
    (k : Kernel T) : Type 0 where
  after_sending : Kernel T
  after_polling : Kernel T
  sends : syscall_msg_send e msg dst s k ≡ returns 0 after_sending
  polls : syscall_msg_poll e buf d after_sending ≡ returns 0 after_polling
  header : after_polling.messages buf ≡ delivered s.pid dst (k.messages msg)
