-- ===== src/Logger/Digits.antt =====
-- The digits that `l_itoa` of module/logger/print.c puts out.
use native.Mathlib.Nat.{
  pow-zero, add-mul, mul_comm, mul_assoc, div-one, div-eq_of_lt, mul-div_cancel, one-le-pow, mod-lt,
  div-lt_iff_lt-mul, mod-add-div', pow-suc, pow-succ',
}
use modit_micro.Base.{
  ==-false, Bool-cases, ℕ, zero, suc, ◌+◌, ◌-◌, ◌*◌, ◌/◌, ◌%◌, ◌^◌, ◌≤◌, ◌<◌, ◌≡◌, ◌⊎◌, inl, inr,
  refl, sym, ap, ◌∙◌, arith, Bool, true, false, Option, some, List, [], ◌∷◌, leb, ◌==◌,
  if◌then◌else◌, true_ne_false,
}
use modit_micro.Logger.{digit, writes, emit, put_digits}

abbrev pub digit_value : ℕ → ℕ
digit_value c = if leb 97 c then c - 87 else if leb 65 c then c - 55 else c - 48

-- The number that is written, most significant digit first.
abbrev pub value : ℕ → ℕ → List ℕ → ℕ
value base acc [] = acc
value base acc (c ∷ cs) = value base (acc * base + digit_value c) cs

digit_value-digit : (caps : Bool) (d : ℕ) → d < 36 → digit_value (digit caps d) ≡ d
digit_value-digit true d h = ground arith
digit_value-digit false d h = ground arith

power_next : (base k : ℕ) → base ^ suc k ≡ base ^ k * base
power_next base k = pow-suc base k

pub power_pos : (base k : ℕ) → 2 ≤ base → 0 < base ^ k
power_pos base k lo = omega (arith, one-le-pow k base (omega arith))

-- No character at the start is a minus sign.
abbrev pub IsUnsigned : List ℕ → Type 0
IsUnsigned [] = Unit {0}
IsUnsigned (c ∷ cs) = (c == 45) ≡ false

-- The digits stand for the number, behind what was written before.
pub record Put (base n dec : ℕ) (some_out : Bool) (out : Option (List ℕ)) : Type 0 where
  pub chars : List ℕ
  pub done : out ≡ some chars
  pub means :
      (acc : ℕ) → (some_out ≡ true) ⊎ (acc ≡ 0) → value base acc chars ≡ acc * (dec * base) + n
  pub no_minus : IsUnsigned chars

last_written : (some_out : Bool) (d : ℕ) → writes some_out d 0 ≡ true
unfolding writes
last_written true d = refl
last_written false d = ground arith

not_written :
    (some_out : Bool) (d dec : ℕ) → writes some_out d dec ≡ false → (some_out ≡ false) × (d ≡ 0)
unfolding writes
not_written true d dec m = absurd (true_ne_false m)
not_written false d dec m = (refl, ground (arith, m))

put_nothing : (fuel n base : ℕ) (w caps : Bool) → put_digits (suc fuel) n base 0 w caps ≡ some []
unfolding put_digits
put_nothing fuel n base w caps = refl

digit_unsigned : (caps : Bool) (d : ℕ) → (digit caps d == 45) ≡ false
digit_unsigned true d = ground arith
digit_unsigned false d = ground arith

-- One round of the loop, `w` saying whether it puts its digit.
put_round :
    (fuel n base dec dec' : ℕ) (some_out caps w : Bool)
    → (dec == 0) ≡ false
    → dec / base ≡ dec'
    → writes some_out (n / dec) dec' ≡ w
    → put_digits (suc fuel) n base dec some_out caps
      ≡ emit w (digit caps (n / dec)) (put_digits fuel (n % dec) base dec' w caps)
unfolding put_digits
put_round fuel n base dec dec' some_out caps w pos down e = rw (pos, down, e) refl

-- The digit for the units.
Put-units :
    (fuel n base : ℕ) (some_out caps : Bool)
    → 2 ≤ base
    → base ≤ 36
    → n < base
    → Put base n 1 some_out (put_digits (suc (suc fuel)) n base 1 some_out caps)
unfolding emit
Put-units fuel n base some_out caps lo hi one = record {
  chars = digit caps (n / 1) ∷ [];
  done =
      put_round (suc fuel) n base 1 0 some_out caps true refl (div-eq_of_lt (omega arith))
        (last_written some_out (n / 1))
      ∙ ap (emit true (digit caps (n / 1))) (put_nothing fuel (n % 1) base true caps);
  means = λ acc h.
      ap (λ d. acc * base + d)
        (digit_value-digit caps (n / 1) (omega (arith, div-one n)) ∙ div-one n)
      ∙ ap (λ d. acc * d + n) (omega arith);
  no_minus = digit_unsigned caps (n / 1);
}

more_digits :
    (acc base d dec n : ℕ) → d ≡ n / dec → (acc * base + d) * dec + n % dec ≡ acc * (dec * base) + n
more_digits acc base d dec n e =
    let all : n % dec + d * dec ≡ n = ap (λ t. n % dec + t * dec) e ∙ mod-add-div' n dec in
    let spread : (acc * base + d) * dec ≡ acc * base * dec + d * dec = add-mul (acc * base) d dec in
    let order : acc * base * dec ≡ acc * (dec * base) =
      mul_assoc acc base dec ∙ ap (λ t. acc * t) (mul_comm base dec) in
    omega (arith, all, spread, order)

-- A digit is put.
Put-more :
    (fuel n base dec dec' : ℕ) (some_out caps : Bool)
    → base ≤ 36
    → n / dec < base
    → (dec == 0) ≡ false
    → dec / base ≡ dec'
    → dec ≡ dec' * base
    → writes some_out (n / dec) dec' ≡ true
    → Put base (n % dec) dec' true (put_digits fuel (n % dec) base dec' true caps)
    → Put base n dec some_out (put_digits (suc fuel) n base dec some_out caps)
unfolding emit
Put-more fuel n base dec dec' some_out caps hi one pos down up y r = record {
  chars = digit caps (n / dec) ∷ r.chars;
  done =
      put_round fuel n base dec dec' some_out caps true pos down y
      ∙ ap (emit true (digit caps (n / dec))) r.done;
  means = λ acc h.
      r.means (acc * base + digit_value (digit caps (n / dec))) (inl refl)
      ∙ ap (λ t. (acc * base + digit_value (digit caps (n / dec))) * t + n % dec) (sym up)
      ∙ more_digits acc base (digit_value (digit caps (n / dec))) dec n
          (digit_value-digit caps (n / dec) (omega (arith, one, hi)));
  no_minus = digit_unsigned caps (n / dec);
}

-- A zero at the start is left out.
Put-skip :
    (fuel n base dec dec' : ℕ) (some_out caps : Bool)
    → (dec == 0) ≡ false
    → dec / base ≡ dec'
    → writes some_out (n / dec) dec' ≡ false
    → Put base (n % dec) dec' false (put_digits fuel (n % dec) base dec' false caps)
    → Put base n dec some_out (put_digits (suc fuel) n base dec some_out caps)
unfolding emit
Put-skip fuel n base dec dec' some_out caps pos down m r =
    let none_before = not_written some_out (n / dec) dec' m in
    let same : n % dec ≡ n = omega (arith, mod-add-div' n dec, ap (λ t. t * dec) none_before.1) in
    record {
      chars = r.chars;
      done =
          put_round fuel n base dec dec' some_out caps false pos down m
          ∙ ap (emit false (digit caps (n / dec))) r.done;
      means = λ acc h.
          let z : acc ≡ 0 = elim h [
            | inl t ↦ absurd (true_ne_false (sym t ∙ none_before.0))
            | inr z ↦ z
          ] in
          r.means acc (inr z)
          ∙ omega (arith, same, ap (λ t. t * (dec' * base)) z, ap (λ t. t * (dec * base)) z);
      no_minus = r.no_minus;
    }

-- The digits from a power of the base on.
pub put_digits-Put :
    (k fuel n base : ℕ) (some_out caps : Bool)
    → 2 ≤ base
    → base ≤ 36
    → n / base ^ k < base
    → suc k < fuel
    → Put base n (base ^ k) some_out (put_digits fuel n base (base ^ k) some_out caps)
put_digits-Put k zero n base some_out caps lo hi one enough = absurd (omega arith)
put_digits-Put zero (suc zero) n base some_out caps lo hi one enough = absurd (omega arith)
put_digits-Put zero (suc (suc fuel)) n base some_out caps lo hi one enough =
    let p0 : base ^ 0 ≡ 1 = pow-zero base in
    rw p0 (
      Put-units fuel n base some_out caps lo hi (omega (arith, one, div-one n, ap (λ t. n / t) p0)))
put_digits-Put (suc k) (suc fuel) n base some_out caps lo hi one enough =
    let dec = base ^ suc k in
    let pos : (dec == 0) ≡ false =
      ==-false (λ z. absurd (omega (arith, z, power_pos base (suc k) lo))) in
    let down : dec / base ≡ base ^ k =
      ap (λ t. t / base) (pow-suc base k) ∙ mul-div_cancel (base ^ k) (omega arith) in
    let low : n % dec < dec = mod-lt n (power_pos base (suc k) lo) in
    let fits : n % dec / base ^ k < base =
      (div-lt_iff_lt-mul {k = base ^ k} {x = n % dec} {y = base} (power_pos base k lo)).1
        (omega (arith, low, pow-succ' base k)) in
    let rest = λ (w : Bool). put_digits-Put k fuel (n % dec) base w caps lo hi fits (omega arith) in
    elim (Bool-cases (writes some_out (n / dec) (base ^ k))) [
      | inl y ↦
          Put-more fuel n base dec (base ^ k) some_out caps hi one pos down (pow-suc base k) y
            (rest true)
      | inr m ↦ Put-skip fuel n base dec (base ^ k) some_out caps pos down m (rest false)
    ]
