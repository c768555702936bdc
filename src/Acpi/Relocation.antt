-- ===== src/Acpi/Relocation.antt =====
-- Where the pointers of `load_rsdt` of module/acpi/rsdt.c lead after they are relocated.
use modit_micro.Base.{
  ℕ, zero, suc, ◌+◌, ◌-◌, ◌*◌, ◌/◌, ◌%◌, ◌^◌, ◌≤◌, ◌<◌, ◌≡◌, sym, subst, ap, ◌∙◌, arith, List, [],
  ◌∷◌, ltb, if◌then◌else◌, map,
}
use modit_micro.Acpi.{max_from, min_from, min_range, alloc_size, remap_pages, relocate}

abbrev pub Bounded : ℕ → ℕ → List ℕ → Type 0
Bounded lo hi [] = Unit {0}
Bounded lo hi (p ∷ ps) = (lo ≤ p) × (p ≤ hi) × Bounded lo hi ps

max_from-le : (m : ℕ) (ps : List ℕ) → m ≤ max_from m ps
unfolding max_from
max_from-le m [] = omega arith
max_from-le m (p ∷ ps) = ground (arith, max_from-le (if ltb m p then p else m) ps)

min_from-le : (m : ℕ) (ps : List ℕ) → min_from m ps ≤ m
unfolding min_from
min_from-le m [] = omega arith
min_from-le m (p ∷ ps) = ground (arith, min_from-le (if ltb p m then p else m) ps)

range-Bounded : (m n : ℕ) (ps : List ℕ) → Bounded (min_from m ps) (max_from n ps) ps
unfolding max_from min_from
range-Bounded m n [] = tt
range-Bounded m n (p ∷ ps) = (
  ground (arith, min_from-le (if ltb p m then p else m) ps),
  ground (arith, max_from-le (if ltb n p then p else n) ps),
  range-Bounded (if ltb p m then p else m) (if ltb n p then p else n) ps,
)

-- The mapping of page `k`, (0, 0) past the end.
abbrev pub page_at : List (ℕ × ℕ) → ℕ → ℕ × ℕ
page_at [] k = (0, 0)
page_at (x ∷ xs) zero = x
page_at (x ∷ xs) (suc k) = page_at xs k

pair_eq : {a b c d : ℕ} → a ≡ c → b ≡ d → ◌≡◌ {A = ℕ × ℕ} (a, b) (c, d)
pair_eq e f = λ i. (e i, f i)

page_at-remap_pages :
    (n k phys virt : ℕ)
    → k < n
    → page_at (remap_pages n phys virt) k ≡ ((phys + 4096 * k) % 2 ^ 32, (virt + 4096 * k) % 2 ^ 32)
unfolding remap_pages
page_at-remap_pages zero k phys virt h = absurd (omega arith)
page_at-remap_pages (suc n) zero phys virt h = pair_eq (omega arith) (omega arith)
page_at-remap_pages (suc n) (suc k) phys virt h =
    page_at-remap_pages n k (phys + 4096) (virt + 4096) (omega arith)
    ∙ pair_eq (omega arith) (omega arith)

-- The virtual address `q` is in a page that was mapped to the physical page of `p`, at the same place in it.
pub record Reaches (p q : ℕ) (pages : List (ℕ × ℕ)) : Type 0 where
  pub page : ℕ
  pub mapped : page_at pages page ≡ (p - p % 0x1000, q - q % 0x1000)
  pub offset : q % 0x1000 ≡ p % 0x1000

abbrev pub AllReach : List ℕ → List ℕ → List (ℕ × ℕ) → Type 0
AllReach [] qs pages = Unit {0}
AllReach (p ∷ ps) [] pages = ⊥
AllReach (p ∷ ps) (q ∷ qs) pages = Reaches p q pages × AllReach ps qs pages

-- The relocated pointer of one table.
abbrev pub moved : ℕ → ℕ → ℕ → ℕ
moved remap lo p = (remap + (p + 2 ^ 32 - lo) % 2 ^ 32) % 2 ^ 32

module _ (remap lo hi : ℕ) (low : lo % 0x1000 ≡ 0) (le : lo ≤ hi) (high : hi + 0x1000 < 2 ^ 32)
    (page : remap % 0x1000 ≡ 0) (room : remap + ((hi / 4096 + 1) * 4096 - lo) ≤ 2 ^ 32) where
  abbrev count : ℕ
  count = ((hi / 4096 + 1) * 4096 - lo + 4095) / 4096

  moved-Reaches :
      (p : ℕ) → lo ≤ p → p ≤ hi → Reaches p (moved remap lo p) (remap_pages count lo remap)
  moved-Reaches p a b =
      let k = (p - lo) / 4096 in
      let far : moved remap lo p ≡ remap + (p - lo) = omega (arith, high, room, a, b) in
      record {
        page = k;
        mapped =
            page_at-remap_pages count k lo remap (omega (arith, low, a, b))
            ∙ pair_eq (omega (arith, low, a, b, high))
                (omega (arith, far, low, page, a, b, high, room));
        offset = omega (arith, far, low, page, a);
      }

  all_moved :
      (ps : List ℕ)
      → Bounded lo hi ps
      → AllReach ps (map (moved remap lo) ps) (remap_pages count lo remap)
  all_moved [] b = tt
  all_moved (p ∷ ps) b = (moved-Reaches p b.0 b.1, all_moved ps b.2)

Bounded-below : (lo lo' hi : ℕ) (ps : List ℕ) → lo' ≤ lo → Bounded lo hi ps → Bounded lo' hi ps
Bounded-below lo lo' hi [] le b = tt
Bounded-below lo lo' hi (p ∷ ps) le b =
    (omega (arith, le, b.0), b.1, Bounded-below lo lo' hi ps le b.2)

alloc_size_plain :
    (p : ℕ) (ps : List ℕ)
    → max_from 0 (p ∷ ps) + 0x1000 < 2 ^ 32
    → alloc_size (p ∷ ps) ≡ (max_from 0 (p ∷ ps) / 4096 + 1) * 4096 - min_range (p ∷ ps)
unfolding alloc_size
alloc_size_plain p ps high =
    let b = range-Bounded 0xFFFFFFFF 0 (p ∷ ps) in omega (arith, b.0, b.1, high)

-- Every pointer of the table leads, once it is relocated, to the place in virtual memory where the page of
-- its physical address is mapped, and to the same place in this page; the table has a pointer, the
-- pointers lie below the last page of physical memory, and the memory for the pages begins at a page and ends below
-- 2^32.
pub relocate-AllReach :
    (remap p : ℕ) (ps : List ℕ)
    → max_from 0 (p ∷ ps) + 0x1000 < 2 ^ 32
    → remap % 0x1000 ≡ 0
    → remap + alloc_size (p ∷ ps) ≤ 2 ^ 32
    → AllReach (p ∷ ps) (relocate remap (p ∷ ps)).rsdt_ptrs (relocate remap (p ∷ ps)).remapped
unfolding relocate
relocate-AllReach remap p ps high page room =
    let all = p ∷ ps in
    let lo = min_range all in
    let b = range-Bounded 0xFFFFFFFF 0 all in
    let hi = max_from 0 all in
    let le : lo ≤ hi = omega (arith, b.0, b.1) in
    let size : alloc_size all ≡ (hi / 4096 + 1) * 4096 - lo = alloc_size_plain p ps high in
    let rounds : (alloc_size all + 4095) / 4096 ≡ ((hi / 4096 + 1) * 4096 - lo + 4095) / 4096 =
      ap (λ t. (t + 4095) / 4096) size in
    subst (λ n. AllReach all (map (moved remap lo) all) (remap_pages n lo remap)) (sym rounds)
      (all_moved remap lo hi (omega arith) le high page (omega (arith, room, size)) all
        (Bounded-below (min_from 0xFFFFFFFF all) lo hi all (omega arith) b))
