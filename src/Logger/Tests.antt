-- ===== src/Logger/Tests.antt =====
-- Runs of module/logger/print.c, and instances of the theorems.
use modit_micro.Base.{◌-◌, ◌^◌, ◌≡◌, refl, true, false, none, some, [], ◌∷◌, arith}
use modit_micro.Logger.{
  raise_dec, writes, emit, put_digits, l_itoa, word, string, conversion, convert, l_vsprintf,
}
use modit_micro.Logger.Readable.{Readable, l_itoa-Readable}

-- -42.
negative_test : l_itoa 34 (2 ^ 32 - 42) 10 true false ≡ some (45 ∷ 52 ∷ 50 ∷ [])
unfolding l_itoa raise_dec put_digits writes emit
negative_test = refl

-- "p %x" of 0xB8000 and "%s%u" of a text and a number.
pointer_test :
    l_vsprintf 34 false (112 ∷ 32 ∷ 37 ∷ 120 ∷ []) (word 0xB8000 ∷ [])
    ≡ some (112 ∷ 32 ∷ 48 ∷ 120 ∷ 98 ∷ 56 ∷ 48 ∷ 48 ∷ 48 ∷ [])
unfolding l_vsprintf convert conversion l_itoa raise_dec put_digits writes emit
pointer_test = refl

string_test :
    l_vsprintf 34 false (37 ∷ 115 ∷ 37 ∷ 117 ∷ []) (string (97 ∷ 61 ∷ []) ∷ word 7 ∷ [])
    ≡ some (97 ∷ 61 ∷ 55 ∷ [])
unfolding l_vsprintf convert conversion l_itoa raise_dec put_digits writes emit
string_test = refl

-- A `%` at the end.
dangling_test : l_vsprintf 34 false (37 ∷ []) [] ≡ none
unfolding l_vsprintf
dangling_test = refl

l_itoa-Readable_example : Readable 16 0xFFFF0000 (l_itoa 34 0xFFFF0000 16 false false)
l_itoa-Readable_example =
    l_itoa-Readable 0xFFFF0000 16 false false (omega arith) (omega arith) (omega arith)
