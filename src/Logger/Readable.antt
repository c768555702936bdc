-- ===== src/Logger/Readable.antt =====
-- The numbers that `l_itoa` of module/logger/print.c writes can be read again.
use native.Mathlib.Nat.{pow-zero}
use modit_micro.Base.{
  Bool-cases, ℕ, ◌-◌, ◌*◌, ◌%◌, ◌^◌, ◌≤◌, ◌<◌, ◌≡◌, inl, inr, refl, sym, ap, ◌∙◌, arith, Bool, true,
  false, ◌&&◌, Option, some, List, [], ◌∷◌, leb, ◌==◌, if◌then◌else◌,
}
use modit_micro.Logger.{raise_dec, put_digits, l_itoa}
use modit_micro.Logger.Digits.{IsUnsigned, value, Put, put_digits-Put}
use modit_micro.Logger.Powers.{raise_dec-power, raise_more}

-- `out` is there and is read as the word `n`.
abbrev pub read_number : ℕ → List ℕ → ℕ
read_number base [] = 0
read_number base (c ∷ cs) =
    if c == 45 then (2 ^ 32 - value base 0 cs) % 2 ^ 32 else value base 0 (c ∷ cs)

pub record Readable (base n : ℕ) (out : Option (List ℕ)) : Type 0 where
  pub text : List ℕ
  pub done : out ≡ some text
  pub reads : read_number base text ≡ n

unsigned_read : (base : ℕ) (cs : List ℕ) → IsUnsigned cs → read_number base cs ≡ value base 0 cs
unsigned_read base [] u = refl
unsigned_read base (c ∷ cs) u = rw u refl

-- The digits of a number below 2 ^ 32.
record Digits (m base : ℕ) (some_out caps : Bool) : Type 0 where
  start : ℕ
  raised : raise_dec 34 m base 1 ≡ some start
  put : Put base m start some_out (put_digits 34 m base start some_out caps)

Digits-below :
    (m base : ℕ) (some_out caps : Bool)
    → 2 ≤ base
    → base ≤ 36
    → m < 2 ^ 32
    → Digits m base some_out caps
Digits-below m base some_out caps lo hi small =
    let p0 : base ^ 0 ≡ 1 = pow-zero base in
    let enough : m < base ^ 0 * 2 ^ 32 = rw p0 (omega (arith, small)) in
    let (k, done, one, far) = raise_dec-power 32 m base 0 lo small enough in
    record {
      start = base ^ k;
      raised = raise_more 33 m base 1 (base ^ k) (ap (raise_dec 33 m base) (sym p0) ∙ done);
      put = put_digits-Put k 34 m base some_out caps lo hi one (omega (arith, far));
    }

at_least : (n : ℕ) (s : Bool) → (leb (2 ^ 31) n && s) ≡ true → 2 ^ 31 ≤ n
at_least n true y = ground (arith, y)
at_least n false y = ground (arith, y)

l_itoa_negative :
    (n base dec : ℕ) (s caps : Bool) (cs : List ℕ)
    → (leb (2 ^ 31) n && s) ≡ true
    → raise_dec 34 (2 ^ 32 - n) base 1 ≡ some dec
    → put_digits 34 (2 ^ 32 - n) base dec true caps ≡ some cs
    → l_itoa 34 n base s caps ≡ some (45 ∷ cs)
unfolding l_itoa
l_itoa_negative n base dec s caps cs y d e = rw (l_itoa, y, d, y, e, y) refl

l_itoa_plain :
    (n base dec : ℕ) (s caps : Bool) (cs : List ℕ)
    → (leb (2 ^ 31) n && s) ≡ false
    → raise_dec 34 n base 1 ≡ some dec
    → put_digits 34 n base dec false caps ≡ some cs
    → l_itoa 34 n base s caps ≡ some cs
unfolding l_itoa
l_itoa_plain n base dec s caps cs m d e = rw (l_itoa, m, d, m, e, m) refl

-- Every 32-bit word that `l_itoa` writes, signed or not and in a base from 2 to 36, is read as the same word,
-- with fuel for 34 rounds.
pub l_itoa-Readable :
    (n base : ℕ) (s caps : Bool)
    → 2 ≤ base
    → base ≤ 36
    → n < 2 ^ 32
    → Readable base n (l_itoa 34 n base s caps)
l_itoa-Readable n base s caps lo hi small = elim (Bool-cases (leb (2 ^ 31) n && s)) [
  | inl y ↦
      (let large : 2 ^ 31 ≤ n = at_least n s y in
        let d = Digits-below (2 ^ 32 - n) base true caps lo hi (omega (arith, large)) in
        record {
          text = 45 ∷ d.put.chars;
          done = l_itoa_negative n base d.start s caps d.put.chars y d.raised d.put.done;
          reads =
              ap (λ v. (2 ^ 32 - v) % 2 ^ 32) (d.put.means 0 (inr refl))
              ∙ omega (arith, large, small);
        })
  | inr m ↦
      (let d = Digits-below n base false caps lo hi small in
        record {
          text = d.put.chars;
          done = l_itoa_plain n base d.start s caps d.put.chars m d.raised d.put.done;
          reads =
              unsigned_read base d.put.chars d.put.no_minus
              ∙ d.put.means 0 (inr refl)
              ∙ omega arith;
        })
]
