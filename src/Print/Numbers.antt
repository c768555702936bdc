-- ===== src/Print/Numbers.antt =====
-- The numbers that `printf` of lib/libc/stdio/print.c writes can be read again.
use modit_micro.Base.{
  ==-false, Bool-cases, ℕ, zero, suc, ◌+◌, ◌-◌, ◌*◌, ◌/◌, ◌%◌, ◌^◌, ◌≤◌, ◌<◌, ◌≡◌, refl, ◌∙◌, ap,
  inl, inr, Bool, true, false, ◌&&◌, arith, Option, some, List, [], ◌∷◌, ◌++◌, leb, ◌==◌,
  if◌then◌else◌,
}
use native.Mathlib.Nat.{
  mod-lt, mod-add-div', div-lt_iff_lt-mul, pow-suc, mul-le-mul_left, mod-eq_of_lt, pow-le-pow_right,
}
use modit_micro.Print.{
  digit, printi_loop, printi, Arg, word, number_of, vfprintf, convert, conversion,
}

abbrev pub digit_value : ℕ → ℕ
digit_value c = if leb 65 c then c - 55 else c - 48

digit_value-digit : (d : ℕ) → d < 36 → digit_value (digit d) ≡ d
digit_value-digit d l = ground arith

-- The number that is written, most significant digit first.
abbrev pub value : ℕ → ℕ → List ℕ → ℕ
value base acc [] = acc
value base acc (c ∷ cs) = value base (acc * base + digit_value c) cs

-- A minus sign stands for the negative of a 32-bit word.
abbrev pub read_number : ℕ → List ℕ → ℕ
read_number base [] = 0
read_number base (c ∷ cs) =
    if c == 45 then (2 ^ 32 - value base 0 cs) % 2 ^ 32 else value base 0 (c ∷ cs)

value-append :
    (base acc : ℕ) (xs : List ℕ) (c : ℕ)
    → value base acc (xs ++ c ∷ []) ≡ value base acc xs * base + digit_value c
value-append base acc [] c = refl
value-append base acc (x ∷ xs) c = value-append base (acc * base + digit_value x) xs c

-- `out` is there, begins with a digit and means `n`.
record Writes (base n : ℕ) (out : Option (List ℕ)) : Type 0 where
  first : ℕ
  others : List ℕ
  done : out ≡ some (first ∷ others)
  is_digit : 48 ≤ first
  means : value base 0 (first ∷ others) ≡ n

more_fuel : (fuel n base : ℕ) → 2 ≤ base → base ≤ n → n < 2 ^ suc fuel → 0 < fuel
more_fuel zero n base lo le l = absurd (omega arith)
more_fuel (suc fuel) n base lo le l = omega arith

shorter : (fuel n base : ℕ) → 2 ≤ base → n < 2 ^ suc fuel → n / base < 2 ^ fuel
shorter fuel n base lo l =
    let wide : 2 ^ fuel * 2 ≤ 2 ^ fuel * base = mul-le-mul_left (2 ^ fuel) lo in
    (div-lt_iff_lt-mul {k = base} {x = n} {y = 2 ^ fuel} (omega arith)).1
      (omega (arith, wide, pow-suc 2 fuel))

next_digit :
    (n base q : ℕ)
    → 2 ≤ base
    → base ≤ 36
    → q ≡ n / base
    → q * base + digit_value (digit (n % base)) ≡ n
next_digit n base q lo hi e =
    let low : n % base < base = mod-lt n (omega arith) in
    let d = digit_value-digit (n % base) (omega arith) in
    ap (λ x. x * base + digit_value (digit (n % base))) e
    ∙ ap (λ x. n / base * base + x) d
    ∙ omega (arith, mod-add-div' n base)

printi_loop-Writes :
    (fuel n base : ℕ)
    → 2 ≤ base
    → base ≤ 36
    → 0 < fuel
    → n < 2 ^ fuel
    → Writes base n (printi_loop fuel n base)
unfolding printi_loop
printi_loop-Writes zero n base lo hi pos l = absurd (omega arith)
printi_loop-Writes (suc fuel) n base lo hi pos l = elim (Bool-cases (leb base n)) [
  | inl y ↦
      (let le : base ≤ n = ground arith in
        let r =
          printi_loop-Writes fuel (n / base) base lo hi (more_fuel fuel n base lo le l)
            (shorter fuel n base lo l) in
        record {
          first = r.first;
          others = r.others ++ digit (n % base) ∷ [];
          done = rw (printi_loop, y, r.done) refl;
          is_digit = r.is_digit;
          means =
              value-append base (0 * base + digit_value r.first) r.others (digit (n % base))
              ∙ next_digit n base (value base 0 (r.first ∷ r.others)) lo hi r.means;
        })
  | inr m ↦
      (let lt : n < base = ground arith in
        let last : n % base ≡ n = mod-eq_of_lt lt in
        record {
          first = digit (n % base);
          others = [];
          done = rw (printi_loop, m) refl;
          is_digit = ground arith;
          means =
              ap (λ x. 0 * base + digit_value (digit x)) last
              ∙ omega (arith, digit_value-digit n (omega arith));
        })
]

-- `out` is there and is read as `n`.
pub record Readable (base n : ℕ) (out : Option (List ℕ)) : Type 0 where
  pub text : List ℕ
  pub done : out ≡ some text
  pub reads : read_number base text ≡ n

digits_read : (base n : ℕ) (out : Option (List ℕ)) → Writes base n out → Readable base n out
digits_read base n out w =
    let no_sign : (w.first == 45) ≡ false =
      ==-false {a = w.first} {b = 45} (λ e. absurd (omega (arith, e, w.is_digit))) in
    record { text = w.first ∷ w.others; done = w.done; reads = rw no_sign w.means }

at_least : (n : ℕ) (signed : Bool) → (leb (2 ^ 31) n && signed) ≡ true → 2 ^ 31 ≤ n
at_least n true y = ground (arith, y)
at_least n false y = ground (arith, y)

-- Every 32-bit word that `__printi` writes, signed or not and in a base from 2 to 36, is read as the same
-- word, with fuel for 32 digits.
pub printi-Readable :
    (fuel n base : ℕ) (signed : Bool)
    → 2 ≤ base
    → base ≤ 36
    → 32 ≤ fuel
    → n < 2 ^ 32
    → Readable base n (printi fuel n base signed)
unfolding printi
printi-Readable fuel n base signed lo hi enough small =
    let room : 2 ^ 32 ≤ 2 ^ fuel = pow-le-pow_right {n = 2} (omega arith) enough in
    elim (Bool-cases (leb (2 ^ 31) n && signed)) [
      | inl y ↦
          (let large : 2 ^ 31 ≤ n = at_least n signed y in
            let w =
              printi_loop-Writes fuel (2 ^ 32 - n) base lo hi (omega arith)
                (omega (arith, room, large)) in
            record {
              text = 45 ∷ w.first ∷ w.others;
              done = rw (printi, y, w.done) refl;
              reads = ap (λ v. (2 ^ 32 - v) % 2 ^ 32) w.means ∙ omega (arith, large, small);
            })
      | inr m ↦
          rw (printi, m)
            (digits_read base n (printi_loop fuel n base)
              (printi_loop-Writes fuel n base lo hi (omega arith) (omega (arith, room))))
    ]

-- No character of the text is a `%`.
abbrev pub IsPlain : List ℕ → Type 0
IsPlain [] = Unit {0}
IsPlain (c ∷ cs) = ((c == 37) ≡ false) × IsPlain cs

plain_first :
    (fuel : ℕ) (pre rest : List ℕ) (args : List Arg) (out : List ℕ)
    → IsPlain pre
    → vfprintf fuel false rest args ≡ some out
    → vfprintf fuel false (pre ++ rest) args ≡ some (pre ++ out)
unfolding vfprintf
plain_first fuel [] rest args out p e = e
plain_first fuel (c ∷ cs) rest args out p e =
    let more = plain_first fuel cs rest args out p.1 e in rw (vfprintf, p.0, more) refl

number_decimal :
    (fuel n : ℕ) (args : List Arg) (text : List ℕ)
    → printi fuel n 10 true ≡ some text
    → number_of fuel 10 true (word n ∷ args) ≡ some (text, args)
number_decimal fuel n args text e = rw (number_of, e) refl

convert_decimal :
    (fuel n : ℕ) (args : List Arg) (text : List ℕ)
    → printi fuel n 10 true ≡ some text
    → convert fuel 100 (word n ∷ args) ≡ some (text, args)
unfolding convert conversion
convert_decimal fuel n args text e = number_decimal fuel n args text e

percent :
    (fuel : ℕ) (cs : List ℕ) (args : List Arg)
    → vfprintf fuel false (37 ∷ cs) args ≡ vfprintf fuel true cs args
unfolding vfprintf
percent fuel cs args = refl

converted :
    (fuel c : ℕ) (cs : List ℕ) (args left : List Arg) (put out : List ℕ)
    → convert fuel c args ≡ some (put, left)
    → vfprintf fuel false cs left ≡ some out
    → vfprintf fuel true (c ∷ cs) args ≡ some (put ++ out)
unfolding vfprintf
converted fuel c cs args left put out e f = rw (vfprintf, e, f) refl

-- `printf` of plain text, a `%d` and more: the text is written as it is, then a number that is read as the
-- argument, and then what the rest of the format writes.
pub vfprintf-decimal :
    (fuel n : ℕ) (pre rest : List ℕ) (args : List Arg) (out : List ℕ)
    → 32 ≤ fuel
    → n < 2 ^ 32
    → IsPlain pre
    → vfprintf fuel false rest args ≡ some out
    → (text : List ℕ) × (read_number 10 text ≡ n)
      × (vfprintf fuel false (pre ++ 37 ∷ 100 ∷ rest) (word n ∷ args) ≡ some (pre ++ (text ++ out)))
vfprintf-decimal fuel n pre rest args out enough small plain e =
    let r = printi-Readable fuel n 10 true (omega arith) (omega arith) enough small in
    (
      r.text,
      r.reads,
      plain_first fuel pre (37 ∷ 100 ∷ rest) (word n ∷ args) (r.text ++ out) plain (
          percent fuel (100 ∷ rest) (word n ∷ args)
          ∙ converted fuel 100 rest (word n ∷ args) args r.text out
              (convert_decimal fuel n args r.text r.done) e),
    )
