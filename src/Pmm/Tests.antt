-- ===== src/Pmm/Tests.antt =====
-- Runs of module/bmpmm/main.c on a memory of 40 pages, and the theorems at it.
use modit_micro.Base.{
  ℕ, ◌≡◌, ◌≢◌, refl, inl, inr, true, false, [], ◌∷◌, arith, ◌==◌, ◌*◌, if◌then◌else◌,
}
use modit_micro.Pmm.{Pmm, bm_test, bm_getpg}
use modit_micro.Pmm.Count.{count_taken}
use modit_micro.Pmm.Balance.{IsBalanced}
use modit_micro.Pmm.Getpg.{Gives, bm_getpg-Gives}
use modit_micro.Pmm.Init.{Boot, pmm_init}
use modit_micro.Pmm.Init.Balanced.{pmm_init-IsBalanced}
use modit_micro.Pmm.Calls.{Allowed, getpg, freepg, apply, here, call, Reach-IsBalanced}

-- 40 pages, of which the first four are taken. Page 40 and those behind it do not exist.
abbrev forty : Pmm
forty = record {
  bitmap = λ i. if i == 0 then 0xF else 0;
  mapsize = 163_840;
  pages_free = 36;
  pages_taken = 4;
  pages_total = 40;
  last_free = 0;
}

forty-IsBalanced : IsBalanced forty
unfolding count_taken bm_test
forty-IsBalanced = record { taken = refl; free = refl; sized = refl; small = omega arith }

four_taken : bm_test forty.bitmap 3 ≡ true
unfolding bm_test
four_taken = refl

fifth_free : bm_test forty.bitmap 4 ≡ false
unfolding bm_test
fifth_free = refl

first_taken : bm_test forty.bitmap 0 ≡ true
unfolding bm_test
first_taken = refl

getpg_runs : (bm_getpg forty).0 ≡ 4 * 4096
unfolding bm_getpg
getpg_runs = refl

bm_getpg-Gives_example : (p : ℕ) × Gives forty (bm_getpg forty) p
bm_getpg-Gives_example = bm_getpg-Gives forty-IsBalanced (omega arith) (inr first_taken)

getpg_ne_zero : (bm_getpg forty).0 ≢ 0
unfolding getpg_runs bm_getpg
getpg_ne_zero e = ground (arith, getpg_runs)

taken_after_getpg : Allowed (freepg 0x3000) (apply getpg forty)
unfolding apply bm_getpg
taken_after_getpg = (omega arith, refl)

Reach-IsBalanced_example : IsBalanced (apply (freepg 0x3000) (apply getpg forty))
Reach-IsBalanced_example =
    Reach-IsBalanced forty-IsBalanced
      (call (freepg 0x3000) (call getpg here (inl (inl (omega arith)))) taken_after_getpg)

-- A machine of 160 KiB whose loader reports one region.
abbrev boot : Boot
boot = record {
  mem_lower = 100;
  mem_upper = 60;
  entries = record { kind = 1; addr = 0; len = 163_840 } ∷ [];
  old_bitmap = λ i. if i == 0 then 0xF else 0;
  old_map_end = 0x10000;
  next_free_pg = 0xC0100000;
  memory = λ _. 0xFFFFFFFF;
}

pmm_init_runs : ((pmm_init boot).pmm.pages_taken ≡ 4) × ((pmm_init boot).pmm.pages_free ≡ 36)
unfolding pmm_init
pmm_init_runs = (refl, refl)

pmm_init-IsBalanced_example : IsBalanced (pmm_init boot).pmm
pmm_init-IsBalanced_example = pmm_init-IsBalanced boot

fortieth_free : bm_test forty.bitmap 40 ≡ false
unfolding bm_test
fortieth_free = refl

zero_free : bm_test (λ _. 0) 0 ≡ false
unfolding bm_test
zero_free = refl
