-- ===== src/Logger.antt =====
-- module/logger/print.c: the texts that the kernel makes for its messages.
pub mod Digits
pub mod Powers
pub mod Readable
mod Tests
use modit_micro.Base.{
  ℕ, zero, suc, ◌+◌, ◌-◌, ◌*◌, ◌/◌, ◌%◌, ◌^◌, Bool, true, false, not, ◌&&◌, ◌||◌, Option, none,
  some, List, [], ◌∷◌, ◌++◌, leb, ltb, ◌==◌, if◌then◌else◌,
}

-- The character of a digit.
abbrev pub digit : Bool → ℕ → ℕ
digit caps d = if ltb d 10 then d + 48 else if caps then d + 55 else d + 87

-- `while(n / dec >= base)`; `none`, here and below, means that the fuel ran out.
pub raise_dec : ℕ → ℕ → ℕ → ℕ → Option ℕ
raise_dec zero n base dec = none
raise_dec (suc fuel) n base dec =
    let rest = raise_dec fuel n base (dec * base % 2 ^ 32) in
    if leb base (n / dec) then rest else some dec

-- Whether a digit is put: `some_out` is `i > 0`, and `dec` is what is left of it.
pub writes : Bool → ℕ → ℕ → Bool
writes some_out d dec = some_out || (not (d == 0) || dec == 0)

pub emit : Bool → ℕ → Option (List ℕ) → Option (List ℕ)
emit written c none = none
emit true c (some cs) = some (c ∷ cs)
emit false c (some cs) = some cs

-- `while(dec != 0)`.
pub put_digits : ℕ → ℕ → ℕ → ℕ → Bool → Bool → Option (List ℕ)
put_digits zero n base dec some_out caps = none
put_digits (suc fuel) n base dec some_out caps =
    let d = n / dec in
    let written = writes some_out d (dec / base) in
    let rest = put_digits fuel (n % dec) base (dec / base) written caps in
    if dec == 0 then some [] else emit written (digit caps d) rest

-- `n` is the 32-bit word, `s` says whether it is signed.
pub l_itoa : ℕ → ℕ → ℕ → Bool → Bool → Option (List ℕ)
l_itoa fuel n base s caps =
    let negative = leb (2 ^ 31) n && s in
    let m = if negative then 2 ^ 32 - n else n in
    elim (raise_dec fuel m base 1) [
      | none ↦ none
      | some dec ↦ elim (put_digits fuel m base dec negative caps) [
        | none ↦ none
        | some cs ↦ some (if negative then 45 ∷ cs else cs)
      ]
    ]

-- An argument is a 32-bit word or a string.
pub data Arg : Type 0 where
  word : ℕ → Arg
  string : List ℕ → Arg

-- The prefix, the base and the sign of a conversion; `none` for a character that converts no number.
pub conversion : ℕ → Option (List ℕ × ℕ × Bool)
conversion c =
    if c == 120 || (c == 112 || c == 88)
    then some (48 ∷ 120 ∷ [], 16, false)
    else if c == 111
    then some (48 ∷ [], 8, false)
    else if c == 117
    then some ([], 10, false)
    else if c == 105
    then some ([], 10, true)
    else none

abbrev pub number_of : ℕ → List ℕ × ℕ × Bool → List Arg → Option (List ℕ × List Arg)
number_of fuel (prefix, base, s) [] = none
number_of fuel (prefix, base, s) (string cs ∷ args) = none
number_of fuel (prefix, base, s) (word n ∷ args) = elim (l_itoa fuel n base s false) [
  | none ↦ none
  | some ds ↦ some (prefix ++ ds, args)
]

abbrev pub text_of : List Arg → Option (List ℕ × List Arg)
text_of [] = none
text_of (word n ∷ args) = none
text_of (string cs ∷ args) = some (cs, args)

-- What one conversion puts out, and the arguments that are left; `none` also where the argument is missing
-- or of the other kind.
pub convert : ℕ → ℕ → List Arg → Option (List ℕ × List Arg)
convert fuel c args = elim (conversion c) [
  | none ↦ if c == 115 then text_of args else some ([], args)
  | some how ↦ number_of fuel how args
]

-- What is put for the rest of a format, after a `%` or not. At a `%` before the end of the format the code
-- reads on behind it: `none`.
pub l_vsprintf : ℕ → Bool → List ℕ → List Arg → Option (List ℕ)
l_vsprintf fuel false [] args = some []
l_vsprintf fuel true [] args = none
l_vsprintf fuel false (c ∷ cs) args =
    let rest = l_vsprintf fuel false cs args in
    let converted = l_vsprintf fuel true cs args in
    if c == 37 then converted else elim rest [ none ↦ none | some out ↦ some (c ∷ out) ]
l_vsprintf fuel true (c ∷ cs) args = elim (convert fuel c args) [
  | none ↦ none
  | some (put, left) ↦ elim (l_vsprintf fuel false cs left) [
    | none ↦ none
    | some out ↦ some (put ++ out)
  ]
]
