-- ===== src/Pmm/Getpg.antt =====
-- `bm_getpg` of module/bmpmm/main.c: it hands out a page of the memory that was free, if one is.
use native.Mathlib.Decide.{dec_lt}
use modit_micro.Base.{
  ℕ, ◌+◌, ◌/◌, ◌*◌, ◌≤◌, ◌<◌, ◌≡◌, ◌⊎◌, inl, inr, true, false, arith, refl, Option, some, ◌==◌,
  if◌then◌else◌, Bool-cases,
}
use modit_micro.Pmm.{Pmm, Words, bm_test, bm_get_free, bm_seek_free, seek_word, bm_getpg}
use modit_micro.Pmm.Bitmap.{bm_test-bm_set}
use modit_micro.Pmm.Count.{count_taken, count_full, count_room}
use modit_micro.Pmm.Seek.{FirstClear, missing, found, seek_word-FirstClear}
use modit_micro.Pmm.Balance.{IsBalanced, count-bm_set}

-- With fewer than `total` pages taken, the first free page lies below `total`.
free_below :
    (f : Words) (total hi : ℕ) {r : Option ℕ}
    → count_taken f total < total
    → total ≤ hi
    → FirstClear (bm_test f) 0 hi r
    → (p : ℕ) × (r ≡ some p) × (p < total) × (bm_test f p ≡ false)
free_below f total hi room le (missing h) =
    absurd (omega (arith, count_full f total (λ q lt. h q (omega arith) (omega arith))))
free_below f total hi room le (found p a b c d) = elim (dec_lt p total) [
  | yes lt ↦ (p, refl, lt, c)
  | no ge ↦ absurd (omega (arith, count_full f total (λ q lt. d q (omega arith) (omega arith))))
]

-- Where `bm_get_free` starts looking, it does not overrun the memory.
abbrev pub IsSettled : Pmm → Type 0
IsSettled m = (m.last_free < m.pages_total) ⊎ (bm_test m.bitmap m.last_free ≡ true)

-- A page was given: which, that it was free, and all that changed.
pub record Gives (m : Pmm) (out : ℕ × Pmm) (page : ℕ) : Type 0 where
  pub address : out.0 ≡ page * 4096
  pub inside : page < m.pages_total
  pub was_free : bm_test m.bitmap page ≡ false
  pub bits : (q : ℕ) → bm_test out.1.bitmap q ≡ (if page == q then true else bm_test m.bitmap q)
  pub counted : out.1.pages_taken ≡ m.pages_taken + 1
  pub balanced : IsBalanced out.1
  pub next : out.1.last_free ≡ page + 1
  pub total : out.1.pages_total ≡ m.pages_total

module _ {m : Pmm} (v : IsBalanced m) (room : m.pages_taken < m.pages_total) where
  seek_free_lem :
      (p : ℕ) × (bm_seek_free m ≡ p) × (p < m.pages_total) × (bm_test m.bitmap p ≡ false)
  unfolding bm_seek_free
  seek_free_lem = go (
      free_below m.bitmap m.pages_total (m.mapsize / 32 * 32) (omega arith) (omega arith)
        (seek_word-FirstClear (m.mapsize / 32) 0 (m.mapsize / 32 * 32) m.bitmap (omega arith)))
    where
      go :
          (p : ℕ) × (seek_word (m.mapsize / 32) 0 m.bitmap ≡ some p)
            × (p < m.pages_total)
            × (bm_test m.bitmap p ≡ false)
          → (p : ℕ) × (bm_seek_free m ≡ p) × (p < m.pages_total) × (bm_test m.bitmap p ≡ false)
      go (p, e, lt, t) = (p, rw (e, bm_seek_free) (omega arith), lt, t)

  get_free_lem :
      IsSettled m
      → (p : ℕ) × (bm_get_free m ≡ (p, record m { last_free = p + 1 }))
        × (p < m.pages_total)
        × (bm_test m.bitmap p ≡ false)
  unfolding bm_get_free
  get_free_lem s = elim (Bool-cases (bm_test m.bitmap m.last_free)) [
    | inl t ↦ let (p, e, lt, t') = seek_free_lem in (p, ground arith, lt, t')
    | inr t ↦ (m.last_free, ground arith, ground arith, t)
  ]

  -- With a page to spare, `bm_getpg` hands out a page of the memory that was free and is now taken,
  -- changes no other bit, counts it, and keeps the counters in agreement with the bitmap.
  pub bm_getpg-Gives : IsSettled m → (p : ℕ) × Gives m (bm_getpg m) p
  unfolding bm_getpg
  bm_getpg-Gives s = go (get_free_lem s)
    where
      go :
          (p : ℕ) × (bm_get_free m ≡ (p, record m { last_free = p + 1 }))
            × (p < m.pages_total)
            × (bm_test m.bitmap p ≡ false)
          → (p : ℕ) × Gives m (bm_getpg m) p
      go (p, e, lt, t) = (
        p,
        ground (
          arith,
          e,
          bm_test-bm_set m.bitmap p,
          count-bm_set m.bitmap p m.pages_total lt,
          count_room m.bitmap p m.pages_total lt t,
        ),
      )
