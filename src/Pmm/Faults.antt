-- ===== src/Pmm/Faults.antt =====
-- Where module/bmpmm/main.c does not do what it means to.
use modit_micro.Base.{
  ℕ, ◌+◌, ◌*◌, ◌/◌, ◌%◌, ◌^◌, ◌≡◌, ◌≤◌, ◌<◌, true, false, arith, ◌==◌, if◌then◌else◌,
}
use modit_micro.Pmm.{Pmm, bm_test, bm_getpg, bm_freepg, bm_addblock, reserve}
use modit_micro.Pmm.Bitmap.{bm_test-bm_set}
use modit_micro.Pmm.Count.{count-le}
use modit_micro.Pmm.Balance.{IsBalanced, count-bm_unset}

-- Once the search mark has run off the end of the memory, onto a bit that is clear there, `bm_getpg`
-- hands out that page, though it does not exist.
pub bm_getpg_overruns :
    (m : Pmm)
    → m.pages_taken < m.pages_total
    → m.pages_total ≤ m.last_free
    → m.last_free < 2 ^ 20
    → bm_test m.bitmap m.last_free ≡ false
    → (bm_getpg m).0 ≡ m.last_free * 4096
unfolding bm_getpg
bm_getpg_overruns m room over small clear = ground arith

-- A page of the memory that is free already: freeing it again moves the counters, and they no
-- longer agree with the bitmap.
pub bm_freepg_twice :
    (ptr : ℕ) (m : Pmm)
    → IsBalanced m
    → ptr / 4096 < m.pages_total
    → bm_test m.bitmap (ptr / 4096) ≡ false
    → ¬ IsBalanced (bm_freepg ptr m)
unfolding bm_freepg
bm_freepg_twice ptr m v h t w = ground (
  arith,
  w.taken,
  count-bm_unset m.bitmap (ptr / 4096) m.pages_total h,
  count-le m.bitmap m.pages_total,
)

-- While a page is left, and page 0 is free and next in line, `bm_getpg` takes page 0 and answers 0.
pub bm_getpg_page_zero :
    (m : Pmm)
    → m.pages_taken < m.pages_total
    → m.pages_total < 2 ^ 20
    → m.last_free ≡ 0
    → bm_test m.bitmap 0 ≡ false
    → ((bm_getpg m).0 ≡ 0) × ((bm_getpg m).1.pages_taken ≡ m.pages_taken + 1)
unfolding bm_getpg
bm_getpg_page_zero m room small start clear = ground arith

bm_test-reserve :
    (p q : ℕ) (m : Pmm)
    → bm_test (reserve p m).bitmap q ≡ (if p == q then true else bm_test m.bitmap q)
unfolding reserve
bm_test-reserve p q m = ground (arith, bm_test-bm_set m.bitmap p q)

-- Page numbers of a block are cut to 16 bits: reserving one page above 256 MiB leaves that page as it
-- was, and takes the page 2 ^ 16 below it (or a multiple of that).
pub bm_addblock_truncates :
    (start : ℕ) (m : Pmm)
    → 2 ^ 28 ≤ start
    → (bm_test (bm_addblock start 1 m).bitmap (start / 4096) ≡ bm_test m.bitmap (start / 4096))
      × (bm_test (bm_addblock start 1 m).bitmap (start / 4096 % 2 ^ 16) ≡ true)
unfolding bm_addblock
bm_addblock_truncates start m high = ground (
  arith,
  bm_test-reserve (start / 4096 % 2 ^ 16) (start / 4096) m,
  bm_test-reserve (start / 4096 % 2 ^ 16) (start / 4096 % 2 ^ 16) m,
)
