-- ===== src/Pmm/Count.antt =====
-- The number of pages that the bitmap marks as taken.
use modit_micro.Base.{
  ℕ, zero, suc, ◌+◌, ◌≤◌, ◌<◌, ◌≡◌, Bool, true, false, refl, arith, ◌==◌, if◌then◌else◌,
}
use native.Mathlib.Numerals.{add-one}
use modit_micro.Pmm.{Words, bm_test}

abbrev pub of_bool : Bool → ℕ
of_bool b = if b then 1 else 0

-- The pages below `n` whose bit is set.
unfoldable pub count_taken : Words → ℕ → ℕ
count_taken f zero = 0
count_taken f (suc n) = count_taken f n + of_bool (bm_test f n)

pub count-zero : (f : Words) → count_taken f 0 ≡ 0
unfolding count_taken
count-zero f = refl

pub count-add_one :
    (f : Words) (n : ℕ) → count_taken f (n + 1) ≡ count_taken f n + of_bool (bm_test f n)
unfolding count_taken
count-add_one f n = rw add-one refl

-- The bitmaps differ at most at page `p`, where the second has `b`.
abbrev pub ChangedAt : Words → Words → ℕ → Bool → Type 0
ChangedAt f g p b = (q : ℕ) → bm_test g q ≡ (if p == q then b else bm_test f q)

module _ (f g : Words) (p : ℕ) (b : Bool) (h : ChangedAt f g p b) where
  count-changed_above : (n : ℕ) → n ≤ p → count_taken g n ≡ count_taken f n
  unfolding count_taken
  count-changed_above zero le = refl
  count-changed_above (suc n) le = ground (arith, count-changed_above n, h n)

  pub count-changed :
      (n : ℕ) → p < n → count_taken g n + of_bool (bm_test f p) ≡ count_taken f n + of_bool b
  unfolding count_taken
  count-changed zero lt = absurd (omega arith)
  count-changed (suc n) lt = ground (arith, count-changed n, count-changed_above n, h n)

pub count-le : (f : Words) (n : ℕ) → count_taken f n ≤ n
unfolding count_taken
count-le f zero = omega arith
count-le f (suc n) = ground (arith, count-le f n)

-- If every page below `n` is taken, the count is `n`.
pub count_full : (f : Words) (n : ℕ) → ((q : ℕ) → q < n → bm_test f q ≡ true) → count_taken f n ≡ n
unfolding count_taken
count_full f zero h = refl
count_full f (suc n) h = ground (arith, count_full f n (λ q lt. h q (omega arith)), h n)

-- A taken page below `n` is counted.
pub count_pos : (f : Words) (p n : ℕ) → p < n → bm_test f p ≡ true → 0 < count_taken f n
unfolding count_taken
count_pos f p zero lt t = absurd (omega arith)
count_pos f p (suc n) lt t = ground (arith, count_pos f p n)

-- A free page below `n` is not.
pub count_room : (f : Words) (p n : ℕ) → p < n → bm_test f p ≡ false → count_taken f n < n
unfolding count_taken
count_room f p zero lt t = absurd (omega arith)
count_room f p (suc n) lt t = ground (arith, count_room f p n, count-le f n)
