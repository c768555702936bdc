-- ===== src/Print.antt =====
-- lib/libc/stdio/print.c: formatted output of user programs.
pub mod Numbers
mod Tests
use modit_micro.Base.{
  ℕ, zero, suc, ◌+◌, ◌-◌, ◌/◌, ◌%◌, ◌^◌, Bool, true, false, ◌&&◌, ◌||◌, Option, none, some, List,
  [], ◌∷◌, ◌++◌, leb, ltb, ◌==◌, if◌then◌else◌,
}

-- The character that `__printi_loop` puts for a digit.
abbrev pub digit : ℕ → ℕ
digit d = if leb 10 d then d + 55 else d + 48

-- `none`: the fuel ran out, as the code recurs without end for the bases 0 and 1.
pub printi_loop : ℕ → ℕ → ℕ → Option (List ℕ)
printi_loop zero n base = none
printi_loop (suc fuel) n base =
    let rest = printi_loop fuel (n / base) base in
    if leb base n
    then elim rest [ none ↦ none | some ds ↦ some (ds ++ digit (n % base) ∷ []) ]
    else some (digit (n % base) ∷ [])

-- `signed` is the flag `PRINTF_FLAG_SIGNED`; `n` is the 32-bit word.
pub printi : ℕ → ℕ → ℕ → Bool → Option (List ℕ)
printi fuel n base signed =
    if leb (2 ^ 31) n && signed
    then elim (printi_loop fuel (2 ^ 32 - n) base) [ none ↦ none | some ds ↦ some (45 ∷ ds) ]
    else printi_loop fuel n base

-- An argument is a 32-bit word or a string.
pub data Arg : Type 0 where
  word : ℕ → Arg
  string : List ℕ → Arg

-- The base of a conversion, and whether it is signed; `none` for a character that converts no number.
pub conversion : ℕ → Option (ℕ × Bool)
conversion c =
    if c == 100 || c == 105
    then some (10, true)
    else if c == 111
    then some (8, false)
    else if c == 117
    then some (10, false)
    else if c == 120 || (c == 88 || c == 112)
    then some (16, false)
    else none

abbrev pub text_of : List Arg → Option (List ℕ × List Arg)
text_of [] = none
text_of (word n ∷ args) = none
text_of (string cs ∷ args) = some (cs, args)

abbrev pub number_of : ℕ → ℕ → Bool → List Arg → Option (List ℕ × List Arg)
number_of fuel base signed [] = none
number_of fuel base signed (string cs ∷ args) = none
number_of fuel base signed (word n ∷ args) = elim (printi fuel n base signed) [
  | none ↦ none
  | some ds ↦ some (ds, args)
]

-- What one conversion puts out, and the arguments that are left; `none` where the argument is missing or
-- of the other kind.
pub convert : ℕ → ℕ → List Arg → Option (List ℕ × List Arg)
convert fuel c args = elim (conversion c) [
  | none ↦ if c == 115 then text_of args else some ([], args)
  | some (base, signed) ↦ number_of fuel base signed args
]

-- What is written for the rest of a format, after a `%` or not. At a `%` before the end of the format the
-- code reads on behind it.
pub vfprintf : ℕ → Bool → List ℕ → List Arg → Option (List ℕ)
vfprintf fuel false [] args = some []
vfprintf fuel true [] args = none
vfprintf fuel false (c ∷ cs) args =
    let rest = vfprintf fuel false cs args in
    let converted = vfprintf fuel true cs args in
    if c == 37 then converted else elim rest [ none ↦ none | some out ↦ some (c ∷ out) ]
vfprintf fuel true (c ∷ cs) args = elim (convert fuel c args) [
  | none ↦ none
  | some (put, left) ↦ elim (vfprintf fuel false cs left) [
    | none ↦ none
    | some out ↦ some (put ++ out)
  ]
]
