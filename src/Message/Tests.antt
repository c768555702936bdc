-- ===== src/Message/Tests.antt =====
-- Runs of the ring of module/message/main.c, and the lemmas at concrete rings.
use modit_micro.Base.{ℕ, zero, suc, ◌+◌, ◌≡◌, refl, arith, List, [], ◌∷◌, length}
use modit_micro.Message.{Ring, message_push, message_pop, message_peep}
use modit_micro.Message.Queue.{Filled, Holds, message_push-Holds, message_pop-Holds}

-- Two messages at the end of the array, the second one in its first slot.
abbrev two : Ring
two = record { head = 126; tail = 0; count = 2; buffer = λ i. i + 7 }

two-Holds : Holds two (133 ∷ 134 ∷ [])
two-Holds = record {
  inside = omega arith;
  count = refl;
  fits = omega arith;
  tail = refl;
  filled = (refl, (refl, tt));
}

message_push-Holds_example : Holds (message_push 9 two) (133 ∷ 134 ∷ 9 ∷ [])
message_push-Holds_example = message_push-Holds 9 two (133 ∷ 134 ∷ []) two-Holds (omega arith)

message_pop-Holds_example :
    ((message_pop two).0 ≡ 133) × (message_peep two ≡ 133) × Holds (message_pop two).1 (134 ∷ [])
message_pop-Holds_example = message_pop-Holds two 133 (134 ∷ []) two-Holds (omega arith)

-- An empty ring that is one pop away from the end of the array.
abbrev late : Ring
late = record { head = 127; tail = 127; count = 0; buffer = λ i. i + 7 }

late-Holds : Holds late []
late-Holds = record {
  inside = omega arith;
  count = refl;
  fits = omega arith;
  tail = refl;
  filled = tt;
}

-- A full ring, whose messages are all 7.
sevens : ℕ → List ℕ
sevens zero = []
sevens (suc n) = 7 ∷ sevens n

sevens-Filled : (n head i : ℕ) → Filled (λ j. 7) head i (sevens n)
unfolding sevens
sevens-Filled zero head i = tt
sevens-Filled (suc n) head i = (refl, sevens-Filled n head (suc i))

length-sevens : (n : ℕ) → length (sevens n) ≡ n
unfolding sevens
length-sevens zero = refl
length-sevens (suc n) = omega (arith, length-sevens n)

abbrev full : Ring
full = record { head = 0; tail = 0; count = 128; buffer = λ i. 7 }

full-Holds : Holds full (7 ∷ sevens 127)
full-Holds = record {
  inside = omega arith;
  count = omega (arith, length-sevens 127);
  fits = omega (arith, length-sevens 127);
  tail = rw (length-sevens 127) refl;
  filled = (refl, sevens-Filled 127 0 1);
}
