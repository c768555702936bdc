-- ===== src/Pmm/Blocks.antt =====
-- `bm_addblock` and `bm_rmblock` of module/bmpmm/main.c: which pages a block call changes.
use modit_micro.Base.{
  ℕ, zero, suc, ◌+◌, ◌/◌, ◌%◌, ◌^◌, ◌≡◌, ◌<◌, Bool, true, false, ◌&&◌, arith, ltb, leb, ◌==◌,
  if◌then◌else◌,
}
use modit_micro.Pmm.{Pmm, bm_test, reserve, release, block_loop, bm_addblock, bm_rmblock}
use modit_micro.Pmm.Bitmap.{bm_test-bm_set, bm_test-bm_unset}

abbrev pub in_block : ℕ → ℕ → ℕ → Bool
in_block lo n q = leb lo q && ltb q (lo + n)

bm_test-reserve :
    (p : ℕ) (m : Pmm) (q : ℕ)
    → bm_test (reserve p m).bitmap q ≡ (if p == q then true else bm_test m.bitmap q)
unfolding reserve
bm_test-reserve p m q = ground (arith, bm_test-bm_set m.bitmap p q)

bm_test-release :
    (p : ℕ) (m : Pmm) (q : ℕ)
    → bm_test (release p m).bitmap q ≡ (if p == q then false else bm_test m.bitmap q)
unfolding release
bm_test-release p m q = ground (arith, bm_test-bm_unset m.bitmap p q)

-- The body of a block loop gives page `p` the bit `b`.
abbrev Marks : Bool → (ℕ → Pmm → Pmm) → Type 0
Marks b body =
    (p : ℕ) (m : Pmm) (q : ℕ)
    → bm_test (body p m).bitmap q ≡ (if p == q then b else bm_test m.bitmap q)

module _ (b : Bool) (body : ℕ → Pmm → Pmm) (bits : Marks b body) where
  block_loop-bits :
      (n p q : ℕ) (m : Pmm)
      → p + n < 2 ^ 16
      → bm_test (block_loop body n p m).bitmap q
        ≡ (if in_block p n q then b else bm_test m.bitmap q)
  unfolding block_loop
  block_loop-bits zero p q m small = ground arith
  block_loop-bits (suc n) p q m small =
      let next : (p + 1) % 2 ^ 16 ≡ p + 1 = omega arith in
      rw (next, block_loop) (ground (arith, block_loop-bits n (p + 1) q (body p m), bits p m q))

-- A block call below page 2 ^ 16 makes every page of its block taken (`addblock`) or free
-- (`rmblock`), and leaves the bits of all other pages as they were.
pub block_bits :
    (start len q : ℕ) (m : Pmm)
    → start / 4096 + len < 2 ^ 16
    → let inside = in_block (start / 4096) len q in
      (bm_test (bm_addblock start len m).bitmap q ≡ (if inside then true else bm_test m.bitmap q))
      × (bm_test (bm_rmblock start len m).bitmap q ≡ (if inside then false else bm_test m.bitmap q))
unfolding bm_addblock bm_rmblock
block_bits start len q m small =
    let cut : start / 4096 % 2 ^ 16 ≡ start / 4096 = omega arith in
    rw cut (
      block_loop-bits true reserve bm_test-reserve len (start / 4096) q m small,
      block_loop-bits false release bm_test-release len (start / 4096) q m small,
    )
