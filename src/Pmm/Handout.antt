-- ===== src/Pmm/Handout.antt =====
-- `bm_getpg` of module/bmpmm/main.c never hands out a page that is taken.
use modit_micro.Base.{
  ℕ, ◌+◌, ◌-◌, ◌*◌, ◌/◌, ◌%◌, ◌^◌, ◌≡◌, ◌≢◌, ◌<◌, refl, true, false, inl, inr, ◌==◌, if◌then◌else◌,
  arith, Bool-cases, none, some, Option,
}
use modit_micro.Pmm.{Pmm, bm_test, bm_get_free, bm_seek_free, seek_word, bm_getpg}
use modit_micro.Pmm.Bitmap.{bm_test-bm_set}
use modit_micro.Pmm.Seek.{FirstClear, missing, found, seek_word-FirstClear}

-- A page that a call hands out, whatever the counters say.
pub record GivesFree (m : Pmm) (out : ℕ × Pmm) (page : ℕ) : Type 0 where
  pub address : out.0 ≡ page * 4096 % 2 ^ 32
  pub was_free : bm_test m.bitmap page ≡ false
  pub bits : (q : ℕ) → bm_test out.1.bitmap q ≡ (if page == q then true else bm_test m.bitmap q)

seek_free_clear :
    (m : Pmm)
    → m.mapsize < 2 ^ 32
    → bm_seek_free m ≢ 2 ^ 32 - 1
    → bm_test m.bitmap (bm_seek_free m) ≡ false
unfolding bm_seek_free
seek_free_clear m small ne = go (seek_word-FirstClear (m.mapsize / 32) 0 _ m.bitmap refl) refl
  where
    go :
        {r : Option ℕ}
        → FirstClear (bm_test m.bitmap) (0 * 32) ((0 + m.mapsize / 32) * 32) r
        → r ≡ seek_word (m.mapsize / 32) 0 m.bitmap
        → bm_test m.bitmap (bm_seek_free m) ≡ false
    go (missing h) e = absurd (ne (rw (← e, bm_seek_free)))
    go (found p a b c d) e = rw (← e, bm_seek_free) (let q : p % 2 ^ 32 ≡ p = omega arith in rw q c)

seek_free_lt : (m : Pmm) → bm_seek_free m < 2 ^ 32
unfolding bm_seek_free
seek_free_lt m = go (seek_word (m.mapsize / 32) 0 m.bitmap) refl
  where
    go : (r : Option ℕ) → r ≡ seek_word (m.mapsize / 32) 0 m.bitmap → bm_seek_free m < 2 ^ 32
    go none e = rw (← e, bm_seek_free) (omega arith)
    go (some p) e = rw (← e, bm_seek_free) (omega arith)

get_free_eq :
    (m : Pmm)
    → m.last_free < 2 ^ 32
    → (bm_get_free m).0 ≡ (if bm_test m.bitmap m.last_free then bm_seek_free m else m.last_free)
unfolding bm_get_free
get_free_eq m start = ground (arith, seek_free_lt m)

get_free_clear :
    (m : Pmm)
    → m.mapsize < 2 ^ 32
    → m.last_free < 2 ^ 32
    → (bm_get_free m).0 ≢ 2 ^ 32 - 1
    → bm_test m.bitmap (bm_get_free m).0 ≡ false
get_free_clear m small start ne = elim (Bool-cases (bm_test m.bitmap m.last_free)) [
  | inl t ↦
      let e : (bm_get_free m).0 ≡ bm_seek_free m = ground (arith, get_free_eq m start) in
      rw e (seek_free_clear m small (rw e at ne))
  | inr t ↦ let e : (bm_get_free m).0 ≡ m.last_free = ground (arith, get_free_eq m start) in rw e t
]

-- An answer that is not 0 names a page that was free and is taken from then on; no other page
-- changes. The counters and where the search starts play no part.
pub bm_getpg-GivesFree :
    (m : Pmm)
    → m.mapsize < 2 ^ 32
    → m.last_free < 2 ^ 32
    → (bm_getpg m).0 ≢ 0
    → (p : ℕ) × GivesFree m (bm_getpg m) p
unfolding bm_getpg
bm_getpg-GivesFree m small start ne = (
  (bm_get_free m).0,
  ground (arith, get_free_clear m small start, bm_test-bm_set m.bitmap (bm_get_free m).0),
)

-- No call of `bm_getpg` makes a page free.
pub bm_getpg_keeps :
    (m : Pmm) (q : ℕ) → bm_test m.bitmap q ≡ true → bm_test (bm_getpg m).1.bitmap q ≡ true
unfolding bm_getpg bm_get_free
bm_getpg_keeps m q t = ground (arith, t, bm_test-bm_set m.bitmap (bm_get_free m).0 q)

-- Whatever the answer, it is the address of a page.
pub bm_getpg_frame : (m : Pmm) → (f : ℕ) × ((bm_getpg m).0 ≡ f * 4096)
unfolding bm_getpg
bm_getpg_frame m = ((bm_getpg m).0 / 4096, ground arith)
