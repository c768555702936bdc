-- ===== src/Arguments/Tests.antt =====
-- A stack for two arguments, made as in lib/libc/sys/argconst.c, and the theorem at it.
use modit_micro.Base.{ℕ, ◌+◌, ◌<◌, ◌^◌, ◌≡◌, refl, List, [], ◌∷◌, arith}
use modit_micro.Arguments.{write_words, stack_size, Stack, push_text, push_texts, construct_ustk}
use modit_micro.Arguments.Texts.{Constructed, construct_ustk-Constructed}

abbrev argv : List (List ℕ)
argv = (104 ∷ 105 ∷ []) ∷ (97 ∷ []) ∷ []

abbrev stack : Stack
stack = construct_ustk 0x5000 argv (λ a. 0)

-- The count of the arguments stands two bytes below the buffer.
count_below : stack.mem 0x4FFE ≡ 2
unfolding construct_ustk push_texts stack_size write_words push_text
count_below = refl

pointers_test : stack.argv ≡ 0xCFFFFFFD ∷ 0xCFFFFFFB ∷ []
unfolding construct_ustk push_texts stack_size push_text
pointers_test = refl

size_small : 0x5000 + stack_size argv < 2 ^ 32
unfolding stack_size
size_small = omega arith

construct_ustk-Constructed_example : Constructed 0x5000 argv stack
construct_ustk-Constructed_example =
    construct_ustk-Constructed 0x5000 argv (λ a. 0) (omega arith) (omega arith) (omega arith)
      size_small
