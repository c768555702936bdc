-- ===== src/Paging/Stock.antt =====
-- What module/paging/main.c relies on in the physical allocator, whose pages it takes one after another.
use modit_micro.Base.{
  ==-cases, Bool-cases, true_ne_false, ℕ, ◌<◌, ◌≤◌, ◌≡◌, refl, sym, ◌∙◌, ap, inl, inr, true, arith,
  ◌==◌,
}
use modit_micro.Pmm.{Pmm, bm_test, bm_getpg}
use modit_micro.Pmm.Balance.{IsBalanced}
use modit_micro.Pmm.Getpg.{IsSettled, Gives, bm_getpg-Gives}

-- The counters are right, page 0 and the page behind the memory are marked as taken, and the search
-- starts inside the memory or behind it.
pub record Stocked (m : Pmm) : Type 0 where
  pub balanced : IsBalanced m
  pub first : bm_test m.bitmap 0 ≡ true
  pub guard : bm_test m.bitmap m.pages_total ≡ true
  pub start : m.last_free ≤ m.pages_total

Stocked-IsSettled : (m : Pmm) → Stocked m → IsSettled m
Stocked-IsSettled m k = elim (==-cases m.last_free m.pages_total) [
  | inl e ↦ inr (ap (bm_test m.bitmap) e ∙ k.guard)
  | inr n ↦ inl (ground (arith, n, k.start))
]

pub getpg_keeps :
    (m : Pmm) (p q : ℕ)
    → Gives m (bm_getpg m) p
    → bm_test m.bitmap q ≡ true
    → bm_test (bm_getpg m).1.bitmap q ≡ true
getpg_keeps m p q g h = g.bits q ∙ elim (Bool-cases (p == q)) [ inl y ↦ rw y refl | inr n ↦ rw n h ]

-- `getpg` of a memory with a page to spare gives a page that is not page 0, and leaves such a memory.
pub record Stock (m : Pmm) (out : ℕ × Pmm) : Type 0 where
  pub page : ℕ
  pub gives : Gives m out page
  pub positive : 0 < page
  pub stocked : Stocked out.1

pub getpg-Stock : (m : Pmm) → Stocked m → m.pages_taken < m.pages_total → Stock m (bm_getpg m)
getpg-Stock m k room =
    let (p, g) = bm_getpg-Gives k.balanced room (Stocked-IsSettled m k) in
    let kept : (q : ℕ) → bm_test m.bitmap q ≡ true → bm_test (bm_getpg m).1.bitmap q ≡ true =
      λ q h. getpg_keeps m p q g h in
    record {
      page = p;
      gives = g;
      positive = elim (==-cases p 0) [
        | inl e ↦ absurd (true_ne_false (sym k.first ∙ ap (bm_test m.bitmap) (sym e) ∙ g.was_free))
        | inr n ↦ ground (arith, n)
      ];
      stocked = record {
        balanced = g.balanced;
        first = kept 0 k.first;
        guard = ap (bm_test (bm_getpg m).1.bitmap) g.total ∙ kept m.pages_total k.guard;
        start = omega (arith, g.next, g.inside, g.total);
      };
    }
