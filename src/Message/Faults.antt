-- ===== src/Message/Faults.antt =====
-- Where the ring of module/message/main.c is no queue.
use modit_micro.Base.{
  ==-self, ==-false, ℕ, ◌+◌, ◌^◌, ◌≤◌, ◌<◌, ◌≡◌, ◌∙◌, refl, ap, arith, List, [], ◌∷◌, length, ltb,
  leb, if◌then◌else◌,
}
use modit_micro.Message.{Ring, message_push, message_pop, next_head}
use modit_micro.Message.Queue.{Holds, slot_first, next_small}

-- Each message is pushed and popped again.
pub cycles : List ℕ → Ring → Ring
cycles [] r = r
cycles (m ∷ ms) r = cycles ms (message_pop (message_push m r)).1

-- An empty ring whose next slot is inside the array.
abbrev pub Drained : Ring → Type 0
Drained r = (r.count ≡ 0) × (r.tail < 128)

tail_inside : (t : ℕ) → t < 128 → (if leb 128 (t + 1) then 0 else t + 1) < 128
tail_inside t a = ground arith

one_cycle :
    (m : ℕ) (r : Ring)
    → Drained r
    → r.head + 1 < 2 ^ 15
    → let r' = (message_pop (message_push m r)).1 in
      Drained r' × (r'.head ≡ r.head + 1) × ((i : ℕ) → 128 ≤ i → r'.buffer i ≡ r.buffer i)
unfolding message_pop message_push next_head
one_cycle m r d small =
    let c : (if ltb r.count 128 then r.count + 1 else r.count) ≡ 1 = ground (arith, d.0) in
    rw c (
      (refl, tail_inside r.tail d.1),
      next_small r.head (omega arith),
      λ i b. rw (==-false {a = r.tail} {b = i} (λ e. absurd (omega arith))) refl,
    )

cycles_head :
    (ms : List ℕ) (r : Ring)
    → Drained r
    → r.head + length ms < 2 ^ 15
    → let r' = cycles ms r in
      Drained r' × (r'.head ≡ r.head + length ms) × ((i : ℕ) → 128 ≤ i → r'.buffer i ≡ r.buffer i)
unfolding cycles
cycles_head [] r d small = (d, omega arith, λ i b. refl)
cycles_head (m ∷ ms) r d small =
    let (d1, e1, s1) = one_cycle m r d (omega arith) in
    let (d2, e2, s2) = cycles_head ms (message_pop (message_push m r)).1 d1 (omega (arith, e1)) in
    (d2, omega (arith, e1, e2), λ i b. s2 i b ∙ s1 i b)

overrun :
    (m : ℕ) (r : Ring)
    → Drained r
    → 128 ≤ r.head
    → (message_pop (message_push m r)).0 ≡ r.buffer r.head
unfolding message_pop message_push
overrun m r d big =
    let c : (if ltb r.count 128 then r.count + 1 else r.count) ≡ 1 = ground (arith, d.0) in
    rw (c, ==-false {a = r.tail} {b = r.head} (λ e. absurd (omega arith))) refl

-- `head` never goes back to 0: once 128 messages were popped, `message_pop` answers what stands in
-- memory behind the array, whichever message was pushed.
pub message_pop_overruns :
    (ms : List ℕ) (m : ℕ) (r : Ring)
    → Holds r []
    → 128 ≤ r.head + length ms
    → r.head + length ms < 2 ^ 15
    → (message_pop (message_push m (cycles ms r))).0 ≡ r.buffer (r.head + length ms)
message_pop_overruns ms m r h big small =
    let d : Drained r = (h.count, omega (arith, h.inside, h.tail, slot_first r.head h.inside)) in
    let (d', e, same) = cycles_head ms r d small in
    overrun m (cycles ms r) d' (omega (arith, e))
    ∙ ap (cycles ms r).buffer e
    ∙ same (r.head + length ms) big

-- A push to a full ring takes the oldest message's place: the next pop answers the newest message.
pub message_push_overwrites :
    (m x : ℕ) (r : Ring) (q : List ℕ)
    → Holds r (x ∷ q)
    → length q ≡ 127
    → (message_pop (message_push m r)).0 ≡ m
unfolding message_pop message_push
message_push_overwrites m x r q h full =
    let tail : r.tail ≡ r.head = ground (arith, h.tail, h.inside) in
    let c : (if ltb r.count 128 then r.count + 1 else r.count) ≡ 128 = ground (arith, h.count) in
    rw (c, tail, ==-self r.head) refl
