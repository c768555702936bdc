-- ===== src/Print/Tests.antt =====
-- Runs of lib/libc/stdio/print.c, and the theorems at concrete numbers.
use modit_micro.Base.{◌-◌, ◌^◌, ◌≡◌, refl, arith, true, false, some, [], ◌∷◌}
use modit_micro.Print.{word, printi, printi_loop, convert, conversion, vfprintf}
use modit_micro.Print.Numbers.{Readable, printi-Readable}

-- -5 as a word.
printi-Readable_example : Readable 10 (2 ^ 32 - 5) (printi 32 (2 ^ 32 - 5) 10 true)
printi-Readable_example =
    printi-Readable 32 (2 ^ 32 - 5) 10 true (omega arith) (omega arith) (omega arith) (omega arith)

plain_end : vfprintf 32 false [] [] ≡ some []
unfolding vfprintf
plain_end = refl

minus_run : printi 32 (2 ^ 32 - 5) 10 true ≡ some (45 ∷ 53 ∷ [])
unfolding printi printi_loop
minus_run = refl

hex_run :
    vfprintf 32 false (37 ∷ 120 ∷ 10 ∷ []) (word 0xBEEF ∷ []) ≡ some (66 ∷ 69 ∷ 69 ∷ 70 ∷ 10 ∷ [])
unfolding vfprintf convert conversion printi printi_loop
hex_run = refl
