-- ===== src/Pmm/Balance.antt =====
-- The counters of module/bmpmm/main.c agree with its bitmap, and the operations keep it so.
use modit_micro.Base.{ℕ, zero, suc, ◌+◌, ◌/◌, ◌%◌, ◌^◌, ◌≤◌, ◌<◌, ◌≡◌, true, false, arith}
use modit_micro.Pmm.{
  Pmm, bm_test, bm_set, bm_unset, reserve, release, block_loop, bm_resvpg, bm_freepg, bm_addblock,
  bm_rmblock, Words,
}
use modit_micro.Pmm.Bitmap.{bm_test-bm_set, bm_test-bm_unset}
use modit_micro.Pmm.Count.{count_taken, count-changed, count-le, count_pos, count_room, of_bool}

-- The counters agree with the bitmap, over a memory of less than 4 GiB.
pub record IsBalanced (m : Pmm) : Type 0 where
  pub taken : m.pages_taken ≡ count_taken m.bitmap m.pages_total
  pub free : m.pages_free + m.pages_taken ≡ m.pages_total
  pub sized : m.pages_total ≡ m.mapsize / 4096
  pub small : m.mapsize < 2 ^ 32

pub count-bm_set :
    (f : Words) (p n : ℕ)
    → p < n
    → count_taken (bm_set f p) n + of_bool (bm_test f p) ≡ count_taken f n + 1
count-bm_set f p n lt = count-changed f (bm_set f p) p true (bm_test-bm_set f p) n lt

pub count-bm_unset :
    (f : Words) (p n : ℕ)
    → p < n
    → count_taken (bm_unset f p) n + of_bool (bm_test f p) ≡ count_taken f n
count-bm_unset f p n lt =
    ground (arith, count-changed f (bm_unset f p) p false (bm_test-bm_unset f p) n lt)

module _ (p : ℕ) {m : Pmm} (inside : p < m.pages_total) (v : IsBalanced m) where
  pub reserve-IsBalanced : IsBalanced (reserve p m)
  unfolding reserve
  reserve-IsBalanced = ground (
    arith,
    count-bm_set m.bitmap p m.pages_total inside,
    count_room m.bitmap p m.pages_total inside,
  )

  pub release-IsBalanced : IsBalanced (release p m)
  unfolding release
  release-IsBalanced = ground (
    arith,
    count-bm_unset m.bitmap p m.pages_total inside,
    count_pos m.bitmap p m.pages_total inside,
    count-le m.bitmap m.pages_total,
  )

pages_total-reserve : (p : ℕ) (m : Pmm) → (reserve p m).pages_total ≡ m.pages_total
unfolding reserve
pages_total-reserve p m = ground arith

pages_total-release : (p : ℕ) (m : Pmm) → (release p m).pages_total ≡ m.pages_total
unfolding release
pages_total-release p m = ground arith

-- The block loop keeps the balance if its body does, on pages of the memory below 2 ^ 16.
block_loop-IsBalanced :
    (body : ℕ → Pmm → Pmm)
    → ((p : ℕ) (m : Pmm) → p < m.pages_total → IsBalanced m → IsBalanced (body p m))
    → ((p : ℕ) (m : Pmm) → (body p m).pages_total ≡ m.pages_total)
    → (n p : ℕ) (m : Pmm) → p + n ≤ m.pages_total
    → p + n ≤ 2 ^ 16
    → IsBalanced m
    → IsBalanced (block_loop body n p m)
unfolding block_loop
block_loop-IsBalanced body keep same zero p m a b v = v
block_loop-IsBalanced body keep same (suc zero) p m a b v = keep p m (omega arith) v
block_loop-IsBalanced body keep same (suc (suc n)) p m a b v =
    block_loop-IsBalanced body keep same (suc n) ((p + 1) % 2 ^ 16) (body p m)
      (omega (arith, same p m)) (omega arith) (keep p m (omega arith) v)

-- Reserving a page of the memory keeps the counters in agreement with the bitmap.
pub bm_resvpg-IsBalanced :
    (ptr : ℕ) {m : Pmm} → ptr / 4096 < m.pages_total → IsBalanced m → IsBalanced (bm_resvpg ptr m)
unfolding bm_resvpg
bm_resvpg-IsBalanced ptr h v = reserve-IsBalanced (ptr / 4096) h v

-- Freeing a page of the memory that is taken keeps the counters in agreement with the bitmap.
pub bm_freepg-IsBalanced :
    (ptr : ℕ) {m : Pmm}
    → ptr / 4096 < m.pages_total
    → bm_test m.bitmap (ptr / 4096) ≡ true
    → IsBalanced m
    → IsBalanced (bm_freepg ptr m)
unfolding bm_freepg
bm_freepg-IsBalanced ptr {m} h t v = ground (
  arith,
  count-bm_unset m.bitmap (ptr / 4096) m.pages_total h,
  count_pos m.bitmap (ptr / 4096) m.pages_total h,
  count-le m.bitmap m.pages_total,
)

-- Reserving a block of pages keeps the counters in agreement with the bitmap, if the block lies in
-- the memory and below page 2 ^ 16.
pub bm_addblock-IsBalanced :
    (start len : ℕ) {m : Pmm}
    → start / 4096 + len ≤ m.pages_total
    → start / 4096 + len < 2 ^ 16
    → IsBalanced m
    → IsBalanced (bm_addblock start len m)
unfolding bm_addblock
bm_addblock-IsBalanced start len {m} a b v =
    block_loop-IsBalanced reserve (λ p m h v. reserve-IsBalanced p h v) pages_total-reserve len _ m
      (omega arith) (omega arith) v

-- The same of releasing a block, whatever its pages were before.
pub bm_rmblock-IsBalanced :
    (start len : ℕ) {m : Pmm}
    → start / 4096 + len ≤ m.pages_total
    → start / 4096 + len < 2 ^ 16
    → IsBalanced m
    → IsBalanced (bm_rmblock start len m)
unfolding bm_rmblock
bm_rmblock-IsBalanced start len {m} a b v =
    block_loop-IsBalanced release (λ p m h v. release-IsBalanced p h v) pages_total-release len _ m
      (omega arith) (omega arith) v
