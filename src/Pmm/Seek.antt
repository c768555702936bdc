-- ===== src/Pmm/Seek.antt =====
-- `bm_seek_free` of module/bmpmm/main.c finds the first free page.
use modit_micro.Base.{
  ℕ, zero, suc, ◌+◌, ◌*◌, ◌/◌, ◌%◌, ◌^◌, ◌≤◌, ◌<◌, ◌≡◌, ◌∙◌, inl, inr, Bool, true, false, not, none,
  some, refl, arith, ◌==◌, Bool-cases, Option, bit_and, ap,
}
use modit_micro.Base.Bits.{bit_and-pow_zero, bit-ones}
use modit_micro.Pmm.{Words, bm_test, seek_bit, seek_word}
use native.Mathlib.Decide.{dec_lt}

-- `some p` is the first place from `lo` on where `t` fails; `none`: it holds up to `hi`.
pub data FirstClear (t : ℕ → Bool) (lo hi : ℕ) : Option ℕ → Type 0 where
  missing : ((q : ℕ) → lo ≤ q → q < hi → t q ≡ true) → FirstClear t lo hi none
  found :
      (p : ℕ)
      → lo ≤ p
      → p < hi
      → t p ≡ false
      → ((q : ℕ) → lo ≤ q → q < p → t q ≡ true)
      → FirstClear t lo hi (some p)

module _ (t : ℕ → Bool) (lo mid hi : ℕ) (all : (q : ℕ) → lo ≤ q → q < mid → t q ≡ true) where
  both : (n : ℕ) → ((q : ℕ) → mid ≤ q → q < n → t q ≡ true) → (q : ℕ) → lo ≤ q → q < n → t q ≡ true
  both n rest q a b = elim (dec_lt q mid) [ yes c ↦ all q a c | no c ↦ rest q (omega arith) b ]

  -- Where `t` holds below `mid`, the search may start there.
  join : {r : Option ℕ} → lo ≤ mid → FirstClear t mid hi r → FirstClear t lo hi r
  join le (missing h) = missing (both hi h)
  join le (found p a b c d) = found p (omega arith) b c (both p d)

-- `w & (1 << k)`, read as a truth value.
abbrev word_bit : ℕ → ℕ → Bool
word_bit w k = not (bit_and w (2 ^ k) == 0)

seek_bit-FirstClear : (n j hi w : ℕ) → j + n ≡ hi → FirstClear (word_bit w) j hi (seek_bit n j w)
unfolding seek_bit
seek_bit-FirstClear zero j hi w e = missing (λ q a b. absurd (omega arith))
seek_bit-FirstClear (suc n) j hi w e = elim (Bool-cases (bit_and w (2 ^ j) == 0)) [
  | inl clear ↦
      rw clear (found j (omega arith) (omega arith) (rw clear) (λ q a b. absurd (omega arith)))
  | inr taken ↦ rw taken (
      join (word_bit w) j (j + 1) hi (λ q a b. let here : q ≡ j = omega arith in rw (here, taken))
        (omega arith) (seek_bit-FirstClear n (j + 1) hi w (omega arith)))
]

bm_test-word_bit : (f : Words) (i q : ℕ) → q / 32 ≡ i → bm_test f q ≡ word_bit (f i) (q % 32)
unfolding bm_test
bm_test-word_bit f i q e = rw e refl

-- What the inner loop found in word `i`, and the outer loop behind it.
from_word :
    (f : Words) (i hi : ℕ) {r rest : Option ℕ}
    → (i + 1) * 32 ≤ hi
    → FirstClear (word_bit (f i)) 0 32 r
    → FirstClear (bm_test f) ((i + 1) * 32) hi rest
    → FirstClear (bm_test f) (i * 32) hi (elim r [ none ↦ rest | some j ↦ some (i * 32 + j) ])
from_word f i hi le (missing h) rest =
    join (bm_test f) (i * 32) ((i + 1) * 32) hi
      (λ q a b. bm_test-word_bit f i q (omega arith) ∙ h (q % 32) (omega arith) (omega arith))
      (omega arith) rest
from_word f i hi le (found p a b c d) rest =
    found (i * 32 + p) (omega arith) (omega arith)
      (bm_test-word_bit f i (i * 32 + p) (omega arith) ∙ ap (word_bit (f i)) (omega arith) ∙ c)
      (λ q x y. bm_test-word_bit f i q (omega arith) ∙ d (q % 32) (omega arith) (omega arith))

full_word : (w : ℕ) → w ≡ 0xFFFFFFFF → FirstClear (word_bit w) 0 32 none
full_word w e =
    missing
      (λ q a b. rw (e, bit_and-pow_zero q 0xFFFFFFFF) (ap (λ k. not (k == 0)) (bit-ones 32 q b)))

pub seek_word-FirstClear :
    (n i hi : ℕ) (f : Words)
    → (i + n) * 32 ≡ hi
    → FirstClear (bm_test f) (i * 32) hi (seek_word n i f)
unfolding seek_word
seek_word-FirstClear zero i hi f e = missing (λ q a b. absurd (omega arith))
seek_word-FirstClear (suc n) i hi f e =
    let rest = seek_word-FirstClear n (i + 1) hi f (omega arith) in
    elim (Bool-cases (f i == 0xFFFFFFFF)) [
      | inl full ↦ rw full (from_word f i hi (omega arith) (full_word (f i) (ground arith)) rest)
      | inr room ↦
          rw room (from_word f i hi (omega arith) (seek_bit-FirstClear 32 0 32 (f i) refl) rest)
    ]
