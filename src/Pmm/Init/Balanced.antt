-- ===== src/Pmm/Init/Balanced.antt =====
-- The state in which `_pmm_init` of module/bmpmm/main.c leaves the allocator.
use modit_micro.Base.{ℕ, zero, suc, ◌+◌, ◌/◌, ◌^◌, ◌≡◌, ◌<◌, ap, ◌∙◌, arith, Bool-cases, inl, inr}
use modit_micro.Pmm.{Pmm, bm_test}
use modit_micro.Pmm.Count.{count_taken, count-le, count-zero, count-add_one}
use modit_micro.Pmm.Balance.{IsBalanced}
use modit_micro.Pmm.Init.{Boot, map_size, uncounted, count_loop, pmm_init}

count_loop-IsBalanced :
    (n i : ℕ) (m : Pmm)
    → i + n ≡ m.pages_total
    → m.pages_total ≡ m.mapsize / 4096
    → m.mapsize < 2 ^ 32
    → m.pages_taken ≡ count_taken m.bitmap i
    → m.pages_free + m.pages_taken ≡ i
    → IsBalanced (count_loop n i m)
unfolding count_loop
count_loop-IsBalanced zero i m e sized small taken free =
    let here : i ≡ m.pages_total = omega arith in
    record {
      taken = taken ∙ ap (count_taken m.bitmap) here;
      free = free ∙ here;
      sized = sized;
      small = small;
    }
count_loop-IsBalanced (suc n) i m e sized small taken free =
    elim (Bool-cases (bm_test m.bitmap i)) [
      | inl t ↦ rw t (
          count_loop-IsBalanced n (i + 1) _ (omega arith) sized small
            (ground (arith, count-add_one m.bitmap i, count-le m.bitmap i)) (ground (arith)))
      | inr t ↦ rw t (
          count_loop-IsBalanced n (i + 1) _ (omega arith) sized small
            (ground (arith, count-add_one m.bitmap i, count-le m.bitmap i)) (ground (arith)))
    ]

-- Whatever the boot loader reports, the allocator starts with counters that agree with its bitmap.
pub pmm_init-IsBalanced : (b : Boot) → IsBalanced (pmm_init b).pmm
unfolding pmm_init
pmm_init-IsBalanced b =
    count_loop-IsBalanced (map_size b / 4096) 0 (uncounted b) (omega arith) (omega arith)
      (omega arith) (omega (arith, count-zero (uncounted b).bitmap)) (omega arith)
