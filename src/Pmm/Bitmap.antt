-- ===== src/Pmm/Bitmap.antt =====
-- What `BM_SET` and `BM_UNSET` of module/bmpmm/main.c do to `BM_TEST`.
use modit_micro.Base.{ℕ, ◌-◌, ◌/◌, ◌%◌, ◌^◌, ◌≡◌, ap, true, false, not, arith, ◌==◌, if◌then◌else◌}
use modit_micro.Base.Bits.{
  bit, bit-le, bit-bit_and, bit-bit_or, bit-pow, bit-mask, bit_and-pow_zero,
}
use modit_micro.Pmm.{Words, bm_test, bm_set, bm_unset}

bm_test-bit : (f : Words) (i : ℕ) → bm_test f i ≡ not (bit (i % 32) (f (i / 32)) == 0)
unfolding bm_test
bm_test-bit f i = ap not (bit_and-pow_zero (i % 32) (f (i / 32)))

-- Setting a bit makes its own test true and leaves every other test alone.
pub bm_test-bm_set :
    (f : Words) (p q : ℕ) → bm_test (bm_set f p) q ≡ (if p == q then true else bm_test f q)
unfolding bm_set
bm_test-bm_set f p q = ground (
  arith,
  bm_test-bit (bm_set f p) q,
  bm_test-bit f q,
  bit-bit_or (q % 32) (f (p / 32)) (2 ^ (p % 32)),
  bit-pow (q % 32) (p % 32),
  bit-le (q % 32) (f (p / 32)),
)

-- Clearing a bit makes its own test false and leaves every other test alone.
pub bm_test-bm_unset :
    (f : Words) (p q : ℕ) → bm_test (bm_unset f p) q ≡ (if p == q then false else bm_test f q)
unfolding bm_unset
bm_test-bm_unset f p q = ground (
  arith,
  bm_test-bit (bm_unset f p) q,
  bm_test-bit f q,
  bit-bit_and (q % 32) (f (p / 32)) (2 ^ 32 - 1 - 2 ^ (p % 32)),
  bit-mask 32 (q % 32) (p % 32) (omega arith) (omega arith),
  bit-le (q % 32) (f (p / 32)),
)
