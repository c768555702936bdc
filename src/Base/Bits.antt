-- ===== src/Base/Bits.antt =====
-- The binary digits of a number, and what `&` and `|` do to each of them.
use Prim.Native.Nat.{digits, differ, bit_and-bitwise, bit_or-bitwise, bit_xor-bitwise}
use Prim.Native.Nat.{
  ℕ, zero, suc, ◌+◌, ◌-◌, ◌*◌, ◌/◌, ◌%◌, ◌^◌, ◌≤◌, ◌<◌, min, max, bit_and, bit_or, bit_xor,
}
use mathlib.Core.Path.{◌≡◌, refl, ap, sym, ◌∙◌}
use mathlib.Core.Logic.{◌↔◌}
use native.Mathlib.Nat.{pow-suc, one-le-pow, pow-le-pow_right}
use native.Mathlib.Omega.{arith}
use modit_micro.Base.Tests.{◌==◌, if◌then◌else◌}

-- Any operation that works digit by digit, `z` being its result on the rest once the first number
-- has run out.
module _ (z : ℕ → ℕ) (f : ℕ → ℕ → ℕ) (rest : (b : ℕ) → z b ≡ z (b / 2) * 2 + f 0 (b % 2)) where
  -- More rounds than the number itself change nothing.
  settle : (top n a b : ℕ) → n ≤ top → a ≤ n → digits z f n a b ≡ digits z f a a b
  settle top zero zero b s t = refl
  settle top (suc n) zero b s t = refl
  settle top zero (suc a) b s t = elim t [ ]
  settle zero (suc n) (suc a) b s t = elim s [ ]
  settle (suc top) (suc n) (suc a) b s t =
      let long = settle top n (suc a / 2) (b / 2) (omega arith) (omega arith) in
      let short = settle top a (suc a / 2) (b / 2) (omega arith) (omega arith) in
      ap (λ t. t * 2 + f (suc a % 2) (b % 2)) (long ∙ sym short)

  step : (a b : ℕ) → digits z f a a b ≡ digits z f (a / 2) (a / 2) (b / 2) * 2 + f (a % 2) (b % 2)
  step zero b = rest b
  step (suc a) b =
      ap (λ t. t * 2 + f (suc a % 2) (b % 2))
        (settle a a (suc a / 2) (b / 2) (omega arith) (omega arith))

bit_and_halves : (a b : ℕ) → bit_and a b ≡ bit_and (a / 2) (b / 2) * 2 + min (a % 2) (b % 2)
bit_and_halves a b = omega (
  arith,
  step (λ _. 0) min (λ c. omega arith) a b,
  bit_and-bitwise a b,
  bit_and-bitwise (a / 2) (b / 2),
)

bit_or_halves : (a b : ℕ) → bit_or a b ≡ bit_or (a / 2) (b / 2) * 2 + max (a % 2) (b % 2)
bit_or_halves a b = omega (
  arith,
  step (λ c. c) max (λ c. omega arith) a b,
  bit_or-bitwise a b,
  bit_or-bitwise (a / 2) (b / 2),
)

-- The digit of `w` at place `k`, the lowest place being 0.
pub bit : ℕ → ℕ → ℕ
bit zero w = w % 2
bit (suc k) w = bit k (w / 2)

pub bit-le : (k w : ℕ) → bit k w ≤ 1
unfolding bit
bit-le zero w = omega arith
bit-le (suc k) w = bit-le k (w / 2)

pub bit-bit_and : (k a b : ℕ) → bit k (bit_and a b) ≡ min (bit k a) (bit k b)
unfolding bit
bit-bit_and zero a b = omega (arith, bit_and_halves a b)
bit-bit_and (suc k) a b =
    let half : bit_and a b / 2 ≡ bit_and (a / 2) (b / 2) = omega (arith, bit_and_halves a b) in
    rw half (bit-bit_and k (a / 2) (b / 2))

pub bit-bit_or : (k a b : ℕ) → bit k (bit_or a b) ≡ max (bit k a) (bit k b)
unfolding bit
bit-bit_or zero a b = omega (arith, bit_or_halves a b)
bit-bit_or (suc k) a b =
    let half : bit_or a b / 2 ≡ bit_or (a / 2) (b / 2) = omega (arith, bit_or_halves a b) in
    rw half (bit-bit_or k (a / 2) (b / 2))

pub bit-zero : (k : ℕ) → bit k 0 ≡ 0
unfolding bit
bit-zero zero = refl
bit-zero (suc k) = bit-zero k

-- `1 << k` has the one digit at place `k`.
pub bit-pow : (j k : ℕ) → bit j (2 ^ k) ≡ (if j == k then 1 else 0)
unfolding bit
bit-pow zero zero = refl
bit-pow zero (suc k) = ground (arith, pow-suc 2 k)
bit-pow (suc j) zero = ground (arith, bit-zero j)
bit-pow (suc j) (suc k) =
    let half : 2 ^ suc k / 2 ≡ 2 ^ k = omega (arith, pow-suc 2 k) in
    rw half (ground (arith, bit-pow j k))

pow-lt-pow : {k n : ℕ} → k < n → 2 ^ k < 2 ^ n
pow-lt-pow {k} {n} h = omega (
  arith,
  pow-suc 2 k,
  one-le-pow k 2,
  pow-le-pow_right {n = 2} (omega arith) {i = suc k} {j = n} h,
)

pub bit-ones : (n j : ℕ) → j < n → bit j (2 ^ n - 1) ≡ 1
unfolding bit
bit-ones zero j p = absurd (omega arith)
bit-ones (suc n) zero p = omega (arith, pow-suc 2 n, one-le-pow n 2)
bit-ones (suc n) (suc j) p =
    let half : (2 ^ suc n - 1) / 2 ≡ 2 ^ n - 1 = omega (arith, pow-suc 2 n, one-le-pow n 2) in
    rw half (ground (arith, bit-ones n j))

-- `~(1 << k)` in a word of `n` digits lacks the one digit at place `k`.
pub bit-mask : (n j k : ℕ) → j < n → k < n → bit j (2 ^ n - 1 - 2 ^ k) ≡ (if j == k then 0 else 1)
unfolding bit
bit-mask zero j k p q = absurd (omega arith)
bit-mask (suc n) zero zero p q = omega (arith, pow-suc 2 n, one-le-pow n 2)
bit-mask (suc n) zero (suc k) p q =
    ground (arith, pow-suc 2 n, pow-suc 2 k, pow-lt-pow {k = k} {n = n} (omega arith))
bit-mask (suc n) (suc j) zero p q =
    let half : (2 ^ suc n - 1 - 1) / 2 ≡ 2 ^ n - 1 = omega (arith, pow-suc 2 n, one-le-pow n 2) in
    rw half (ground (arith, bit-ones n j))
bit-mask (suc n) (suc j) (suc k) p q =
    let half : (2 ^ suc n - 1 - 2 ^ suc k) / 2 ≡ 2 ^ n - 1 - 2 ^ k =
      omega (arith, pow-suc 2 n, pow-suc 2 k, pow-lt-pow {k = k} {n = n} (omega arith)) in
    rw half (ground (arith, bit-mask n j k (omega arith) (omega arith)))

no_digits : (top w : ℕ) → w ≤ top → bit_and w 0 ≡ 0
no_digits top zero h = bit_and-bitwise 0 0
no_digits zero (suc w) h = elim h [ ]
no_digits (suc top) (suc w) h =
    omega (arith, no_digits top (suc w / 2) (omega arith), bit_and_halves (suc w) 0)

-- A word tested against one digit.
pub bit_and-pow : (k w : ℕ) → bit_and w (2 ^ k) ≡ bit k w * 2 ^ k
unfolding bit
bit_and-pow zero w = omega (arith, bit_and_halves w 1, no_digits (w / 2) (w / 2) (omega arith))
bit_and-pow (suc k) w =
    let half : 2 ^ suc k / 2 ≡ 2 ^ k = omega (arith, pow-suc 2 k) in
    let rest : bit_and (w / 2) (2 ^ suc k / 2) ≡ bit k (w / 2) * 2 ^ k =
      rw half (bit_and-pow k (w / 2)) in
    omega (
      arith,
      rest,
      bit_and_halves w (2 ^ suc k),
      pow-suc 2 k,
      ap (λ (t : ℕ). bit k (w / 2) * t) (pow-suc 2 k),
    )

-- `w & (1 << k)` is 0 exactly when the digit is.
pub bit_and-pow_zero : (k w : ℕ) → (bit_and w (2 ^ k) == 0) ≡ (bit k w == 0)
bit_and-pow_zero k w = ground (arith, bit_and-pow k w, one-le-pow k 2, bit-le k w)

bit_xor_halves : (a b : ℕ) → bit_xor a b ≡ bit_xor (a / 2) (b / 2) * 2 + differ (a % 2) (b % 2)
bit_xor_halves a b = omega (
  arith,
  step (λ c. c) differ (λ c. omega arith) a b,
  bit_xor-bitwise a b,
  bit_xor-bitwise (a / 2) (b / 2),
)

differ_le : (x y : ℕ) → x ≤ 1 → y ≤ 1 → differ x y ≤ 1
differ_le zero y a b = b
differ_le (suc zero) zero a b = omega arith
differ_le (suc zero) (suc zero) a b = omega arith
differ_le (suc zero) (suc (suc y)) a b = absurd (omega arith)
differ_le (suc (suc x)) y a b = absurd (omega arith)

pub bit-bit_xor : (k a b : ℕ) → bit k (bit_xor a b) ≡ differ (bit k a) (bit k b)
unfolding bit
bit-bit_xor zero a b =
    omega (arith, bit_xor_halves a b, differ_le (a % 2) (b % 2) (omega arith) (omega arith))
bit-bit_xor (suc k) a b =
    let half : bit_xor a b / 2 ≡ bit_xor (a / 2) (b / 2) =
      omega (arith, bit_xor_halves a b, differ_le (a % 2) (b % 2) (omega arith) (omega arith)) in
    rw half (bit-bit_xor k (a / 2) (b / 2))

-- A number with no digit 1 is 0.
no_ones : (top w : ℕ) → w ≤ top → ((k : ℕ) → bit k w ≡ 0) → w ≡ 0
unfolding bit
no_ones zero w le none_set = omega arith
no_ones (suc top) w le none_set =
    let half = no_ones top (w / 2) (omega arith) (λ k. none_set (suc k)) in
    omega (arith, none_set 0)

pub bits-zero : (w : ℕ) → ((k : ℕ) → bit k w ≡ 0) → w ≡ 0
bits-zero w none_set = no_ones w w (omega arith) none_set

-- For digits, `x` differs from `y` where it is 1 exactly when it is larger.
pub min-differ : (x y : ℕ) → x ≤ 1 → y ≤ 1 → (min (differ x y) x ≡ 0) ↔ (x ≤ y)
min-differ zero y a b = (λ e. omega arith, λ l. omega arith)
min-differ (suc zero) zero a b = (λ e. absurd (omega arith), λ l. absurd (omega arith))
min-differ (suc zero) (suc zero) a b = (λ e. omega arith, λ l. refl)
min-differ (suc zero) (suc (suc y)) a b = absurd (omega arith)
min-differ (suc (suc x)) y a b = absurd (omega arith)

or_nothing : (top w : ℕ) → w ≤ top → bit_or w 0 ≡ w
or_nothing top zero h = refl
or_nothing zero (suc w) h = elim h [ ]
or_nothing (suc top) (suc w) h =
    omega (arith, or_nothing top (suc w / 2) (omega arith), bit_or_halves (suc w) 0)

-- A multiple of `2 ^ k` and a smaller number have no digit in common.
pub bit_or_disjoint : (k q a : ℕ) → a < 2 ^ k → bit_or (q * 2 ^ k) a ≡ q * 2 ^ k + a
bit_or_disjoint zero q a l =
    let none : a ≡ 0 = omega arith in
    let whole : q * 2 ^ 0 ≡ q = omega arith in
    rw (none, whole) (or_nothing q q (omega arith) ∙ omega arith)
bit_or_disjoint (suc k) q a l =
    let double : q * 2 ^ suc k ≡ q * 2 ^ k * 2 =
      omega (arith, ap (λ (t : ℕ). q * t) (pow-suc 2 k)) in
    let half : q * 2 ^ suc k / 2 ≡ q * 2 ^ k = omega (arith, double) in
    let rest : bit_or (q * 2 ^ suc k / 2) (a / 2) ≡ q * 2 ^ k + a / 2 =
      rw half (bit_or_disjoint k q (a / 2) (omega (arith, l, pow-suc 2 k))) in
    omega (arith, rest, double, bit_or_halves (q * 2 ^ suc k) a)

-- The `k` low digits.
pub bit_and_low : (k q a : ℕ) → a < 2 ^ k → bit_and (q * 2 ^ k + a) (2 ^ k - 1) ≡ a
bit_and_low zero q a l = omega (arith, no_digits (q * 2 ^ 0 + a) (q * 2 ^ 0 + a) (omega arith))
bit_and_low (suc k) q a l =
    let double : q * 2 ^ suc k ≡ q * 2 ^ k * 2 =
      omega (arith, ap (λ (t : ℕ). q * t) (pow-suc 2 k)) in
    let half : (q * 2 ^ suc k + a) / 2 ≡ q * 2 ^ k + a / 2 = omega (arith, double) in
    let ones : (2 ^ suc k - 1) / 2 ≡ 2 ^ k - 1 = omega (arith, pow-suc 2 k) in
    let rest : bit_and ((q * 2 ^ suc k + a) / 2) ((2 ^ suc k - 1) / 2) ≡ a / 2 =
      rw (half, ones) (bit_and_low k q (a / 2) (omega (arith, l, pow-suc 2 k))) in
    omega (
      arith,
      rest,
      double,
      pow-suc 2 k,
      one-le-pow k 2,
      bit_and_halves (q * 2 ^ suc k + a) (2 ^ suc k - 1),
    )

pub bit_or_odd : (a b : ℕ) → bit_or a b % 2 ≡ max (a % 2) (b % 2)
bit_or_odd a b = omega (arith, bit_or_halves a b)

nothing_or : (top w : ℕ) → w ≤ top → bit_or 0 w ≡ w
nothing_or top zero h = refl
nothing_or zero (suc w) h = elim h [ ]
nothing_or (suc top) (suc w) h =
    omega (arith, nothing_or top (suc w / 2) (omega arith), bit_or_halves 0 (suc w))

-- As `bit_or_disjoint`, with the smaller number first.
pub bit_or_low : (k q a : ℕ) → a < 2 ^ k → bit_or a (q * 2 ^ k) ≡ q * 2 ^ k + a
bit_or_low zero q a l =
    let none : a ≡ 0 = omega arith in
    let whole : q * 2 ^ 0 ≡ q = omega arith in
    rw (none, whole) (nothing_or q q (omega arith) ∙ omega arith)
bit_or_low (suc k) q a l =
    let double : q * 2 ^ suc k ≡ q * 2 ^ k * 2 =
      omega (arith, ap (λ (t : ℕ). q * t) (pow-suc 2 k)) in
    let half : q * 2 ^ suc k / 2 ≡ q * 2 ^ k = omega (arith, double) in
    let rest : bit_or (a / 2) (q * 2 ^ suc k / 2) ≡ q * 2 ^ k + a / 2 =
      rw half (bit_or_low k q (a / 2) (omega (arith, l, pow-suc 2 k))) in
    omega (arith, rest, double, bit_or_halves a (q * 2 ^ suc k))

-- A mask of digits from place `k` on leaves the digits below out.
pub bit_and_shift :
    (k q a m : ℕ) → a < 2 ^ k → bit_and (q * 2 ^ k + a) (m * 2 ^ k) ≡ bit_and q m * 2 ^ k
bit_and_shift zero q a m l =
    let whole : q * 2 ^ 0 + a ≡ q = omega arith in
    let mask : m * 2 ^ 0 ≡ m = omega arith in rw (whole, mask) (omega arith)
bit_and_shift (suc k) q a m l =
    let double : q * 2 ^ suc k ≡ q * 2 ^ k * 2 =
      omega (arith, ap (λ (t : ℕ). q * t) (pow-suc 2 k)) in
    let mask : m * 2 ^ suc k ≡ m * 2 ^ k * 2 = omega (arith, ap (λ (t : ℕ). m * t) (pow-suc 2 k)) in
    let result : bit_and q m * 2 ^ suc k ≡ bit_and q m * 2 ^ k * 2 =
      omega (arith, ap (λ (t : ℕ). bit_and q m * t) (pow-suc 2 k)) in
    let half : (q * 2 ^ suc k + a) / 2 ≡ q * 2 ^ k + a / 2 = omega (arith, double) in
    let half_mask : m * 2 ^ suc k / 2 ≡ m * 2 ^ k = omega (arith, mask) in
    let rest : bit_and ((q * 2 ^ suc k + a) / 2) (m * 2 ^ suc k / 2) ≡ bit_and q m * 2 ^ k =
      rw (half, half_mask) (bit_and_shift k q (a / 2) m (omega (arith, l, pow-suc 2 k))) in
    omega (arith, rest, mask, result, bit_and_halves (q * 2 ^ suc k + a) (m * 2 ^ suc k))
