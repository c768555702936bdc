-- ===== src/Logger/Powers.antt =====
-- The power of the base that `l_itoa` of module/logger/print.c begins with.
use native.Mathlib.Nat.{mul_assoc, le-div_iff_mul-le, pow-suc, pow-succ', mul-le-mul_right}
use modit_micro.Base.{
  Bool-cases, ℕ, zero, suc, ◌+◌, ◌*◌, ◌/◌, ◌%◌, ◌^◌, ◌≤◌, ◌<◌, ◌≡◌, inl, inr, refl, sym, ap, ◌∙◌,
  arith, true, false, Option, none, some, leb,
}
use modit_micro.Logger.{raise_dec}
use modit_micro.Logger.Digits.{power_pos}

wider : (fuel n base j : ℕ) → 2 ≤ base → n < base ^ j * 2 ^ suc fuel → n < base ^ suc j * 2 ^ fuel
wider fuel n base j lo enough =
    let two : base ^ j * 2 ^ suc fuel ≡ 2 * (base ^ j * 2 ^ fuel) = grind (arith, pow-suc 2 fuel) in
    let many : base ^ suc j * 2 ^ fuel ≡ base * (base ^ j * 2 ^ fuel) =
      ap (λ t. t * 2 ^ fuel) (pow-succ' base j) ∙ mul_assoc base (base ^ j) (2 ^ fuel) in
    omega (arith, two, many, enough, mul-le-mul_right (base ^ j * 2 ^ fuel) lo)

-- The test of the loop, as a product.
one_more : (n base j : ℕ) → 2 ≤ base → leb base (n / base ^ j) ≡ true → base ^ suc j ≤ n
one_more n base j lo more = omega (
  arith,
  (le-div_iff_mul-le {k = base ^ j} {x = base} {y = n} (power_pos base j lo)).0
      (ground (arith, more)),
  pow-succ' base j,
)

-- A power of the base by which the number has one digit, found with enough fuel.
pub raise_dec-power :
    (fuel n base j : ℕ)
    → 2 ≤ base
    → n < 2 ^ 32
    → n < base ^ j * 2 ^ fuel
    → (k : ℕ) × (raise_dec (suc fuel) n base (base ^ j) ≡ some (base ^ k))
      × (n / base ^ k < base)
      × (k ≤ j + fuel)
unfolding raise_dec
raise_dec-power zero n base j lo small enough = elim (Bool-cases (leb base (n / base ^ j))) [
  | inr last ↦ (j, rw last refl, ground (arith, last), omega arith)
  | inl more ↦ absurd (
      omega (
        arith,
        one_more n base j lo more,
        pow-succ' base j,
        mul-le-mul_right (base ^ j) lo,
        enough,
      ))
]
raise_dec-power (suc fuel) n base j lo small enough = elim (Bool-cases (leb base (n / base ^ j))) [
  | inr last ↦ (j, rw last refl, ground (arith, last), omega arith)
  | inl more ↦
      (let le = one_more n base j lo more in
        let next : base ^ j * base % 2 ^ 32 ≡ base ^ suc j =
          omega (arith, le, small, pow-suc base j) in
        let (k, done, one, far) =
          raise_dec-power fuel n base (suc j) lo small (wider fuel n base j lo enough) in
        (k, rw (more, next) done, one, omega (arith, far)))
]

none-some : {d : ℕ} → ◌≡◌ {A = Option ℕ} none (some d) → ⊥
none-some e = cc

raise_on :
    (fuel n base dec : ℕ)
    → leb base (n / dec) ≡ true
    → raise_dec (suc fuel) n base dec ≡ raise_dec fuel n base (dec * base % 2 ^ 32)
unfolding raise_dec
raise_on fuel n base dec more = rw more refl

raise_off :
    (fuel n base dec : ℕ) → leb base (n / dec) ≡ false → raise_dec (suc fuel) n base dec ≡ some dec
unfolding raise_dec
raise_off fuel n base dec last = rw last refl

raise_none : (n base dec : ℕ) → raise_dec 0 n base dec ≡ none
unfolding raise_dec
raise_none n base dec = refl

-- More fuel changes nothing.
pub raise_more :
    (fuel n base dec d : ℕ)
    → raise_dec fuel n base dec ≡ some d
    → raise_dec (suc fuel) n base dec ≡ some d
raise_more zero n base dec d e = absurd (none-some (sym (raise_none n base dec) ∙ e))
raise_more (suc fuel) n base dec d e = elim (Bool-cases (leb base (n / dec))) [
  | inr last ↦ raise_off (suc fuel) n base dec last ∙ sym (raise_off fuel n base dec last) ∙ e
  | inl more ↦
      raise_on (suc fuel) n base dec more
      ∙ raise_more fuel n base (dec * base % 2 ^ 32) d (sym (raise_on fuel n base dec more) ∙ e)
]
