-- ===== src/Message/Queue.antt =====
-- The ring of module/message/main.c as a queue.
use modit_micro.Base.{
  ==-self, ℕ, suc, ◌+◌, ◌-◌, ◌^◌, ◌≤◌, ◌<◌, ◌≡◌, ◌∙◌, refl, sym, subst, ap, arith, false, List, [],
  ◌∷◌, ◌++◌, length, length-append, ltb, leb, ◌==◌, if◌then◌else◌,
}
use modit_micro.Message.{Ring, message_push, message_pop, message_peep, next_head}

-- The slot `i` places behind `head`, in an array of 128 slots.
abbrev pub slot : ℕ → ℕ → ℕ
slot head i = if ltb (head + i) 128 then head + i else head + i - 128

-- The slots from the place `i` on hold the messages.
abbrev pub Filled : (ℕ → ℕ) → ℕ → ℕ → List ℕ → Type 0
Filled buffer head i [] = Unit {0}
Filled buffer head i (m ∷ ms) = (buffer (slot head i) ≡ m) × Filled buffer head (suc i) ms

-- The ring holds the messages `q`, oldest first, and `head` is inside the array.
pub record Holds (r : Ring) (q : List ℕ) : Type 0 where
  pub inside : r.head < 128
  pub count : r.count ≡ length q
  pub fits : length q ≤ 128
  pub tail : r.tail ≡ slot r.head (length q)
  pub filled : Filled r.buffer r.head 0 q

Filled-frame :
    (f g : ℕ → ℕ) (head i : ℕ) (q : List ℕ)
    → ((j : ℕ) → i ≤ j → j < i + length q → g (slot head j) ≡ f (slot head j))
    → Filled f head i q
    → Filled g head i q
Filled-frame f g head i [] same h = tt
Filled-frame f g head i (m ∷ ms) same h = (
  same i (omega arith) (omega arith) ∙ h.0,
  Filled-frame f g head (suc i) ms (λ j a b. same j (omega arith) (omega arith)) h.1,
)

Filled-snoc :
    (f : ℕ → ℕ) (head i m : ℕ) (q : List ℕ)
    → Filled f head i q
    → f (slot head (i + length q)) ≡ m
    → Filled f head i (q ++ m ∷ [])
Filled-snoc f head i m [] h e = (subst (λ t. f (slot head t) ≡ m) (omega arith) e, tt)
Filled-snoc f head i m (x ∷ xs) h e =
    (h.0, Filled-snoc f head (suc i) m xs h.1 (subst (λ t. f (slot head t) ≡ m) (omega arith) e))

-- Different places within the array's size have different slots.
slot_ne : (head i j : ℕ) → head < 128 → i < 128 → j < i → (slot head i == slot head j) ≡ false
slot_ne head i j a b c = ground arith

slot_next :
    (head n : ℕ)
    → head < 128
    → n < 128
    → (if leb 128 (slot head n + 1) then 0 else slot head n + 1) ≡ slot head (n + 1)
slot_next head n a b = ground arith

slot_shift : (head i : ℕ) → head < 127 → slot (head + 1) i ≡ slot head (suc i)
slot_shift head i a = ground arith

Filled-shift :
    (f : ℕ → ℕ) (head i : ℕ) (q : List ℕ)
    → head < 127
    → Filled f head (suc i) q
    → Filled f (head + 1) i q
Filled-shift f head i [] a h = tt
Filled-shift f head i (m ∷ ms) a h =
    (ap f (slot_shift head i a) ∙ h.0, Filled-shift f head (suc i) ms a h.1)

pub slot_first : (head : ℕ) → head < 128 → head ≡ slot head 0
slot_first head a = ground arith

pub next_small :
    (head : ℕ) → head < 2 ^ 15 - 1 → (if leb (2 ^ 15) (head + 1) then 127 else head + 1) ≡ head + 1
next_small head a = ground arith

push_count : (n : ℕ) → n < 128 → (if ltb n 128 then n + 1 else n) ≡ n + 1
push_count n a = ground arith

pub message_push_head : (m : ℕ) (r : Ring) → (message_push m r).head ≡ r.head
unfolding message_push
message_push_head m r = refl

-- A message that is pushed to a ring that is not full becomes the last one.
pub message_push-Holds :
    (m : ℕ) (r : Ring) (q : List ℕ)
    → Holds r q
    → length q < 128
    → Holds (message_push m r) (q ++ m ∷ [])
unfolding message_push
message_push-Holds m r q h room =
    let zero_more : length q ≡ 0 + length q = omega arith in
    let len : length (q ++ m ∷ []) ≡ length q + 1 = omega (arith, length-append q (m ∷ [])) in
    record {
      inside = h.inside;
      count = rw (h.count, len) (push_count (length q) room);
      fits = omega (arith, len);
      tail = rw (h.tail, len) (slot_next r.head (length q) h.inside room);
      filled =
          Filled-snoc (λ i. if r.tail == i then m else r.buffer i) r.head 0 m q
            (Filled-frame r.buffer (λ i. if r.tail == i then m else r.buffer i) r.head 0 q
              (λ j a b. rw (h.tail, slot_ne r.head (length q) j h.inside room (omega arith)) refl)
              h.filled)
            (subst (λ t. (if r.tail == slot r.head t then m else r.buffer (slot r.head t)) ≡ m)
              zero_more (rw (h.tail, ==-self (slot r.head (length q))) refl));
    }

-- The oldest message of a ring is popped, as long as `head` does not leave the array.
pub message_pop-Holds :
    (r : Ring) (m : ℕ) (q : List ℕ)
    → Holds r (m ∷ q)
    → r.head < 127
    → ((message_pop r).0 ≡ m) × (message_peep r ≡ m) × Holds (message_pop r).1 q
unfolding message_pop message_peep next_head
message_pop-Holds r m q h small =
    let some_left : (r.count == 0) ≡ false = ground (arith, h.count) in
    let first : r.buffer r.head ≡ m = ap r.buffer (slot_first r.head h.inside) ∙ h.filled.0 in
    let step : (if leb (2 ^ 15) (r.head + 1) then 127 else r.head + 1) ≡ r.head + 1 =
      next_small r.head (omega arith) in
    (
      rw some_left first,
      rw some_left first,
      rw (some_left, step)
          (record {
            inside = omega arith;
            count = omega (arith, h.count);
            fits = omega (arith, h.fits);
            tail = h.tail ∙ sym (slot_shift r.head (length q) small);
            filled = Filled-shift r.buffer r.head 0 q small h.filled.1;
          }),
    )
