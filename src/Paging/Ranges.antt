-- ===== src/Paging/Ranges.antt =====
-- The loop of `allocpgs` of module/paging/main.c.
use modit_micro.Base.{
  ==-self, Bool-cases, true_ne_false, ℕ, zero, suc, ◌+◌, ◌*◌, ◌/◌, ◌%◌, ◌^◌, ◌<◌, ◌≤◌, ◌≡◌, ◌≢◌,
  refl, sym, ◌∙◌, ap, subst, inl, inr, Bool, true, false, arith, Option, some, if◌then◌else◌,
}
use modit_micro.Pmm.{bm_test}
use modit_micro.Paging.{Space, dindex, present, alloc_loop, page_count, allocpg, allocpgs}
use modit_micro.Paging.Views.{translate, old_entry, same_page, Sound}
use modit_micro.Paging.Stock.{Stocked}
use modit_micro.Paging.Alloc.{Allocates, allocpg-Allocates}

abbrev behind : ℕ → (ℕ → ℕ) → ℕ → ℕ
behind p f zero = p
behind p f (suc j) = f j

-- The `n` pages from `req` on are sent to pages of the memory that were free and are taken, each to another one.
pub record Range (s : Space) (req n : ℕ) (space : Space) : Type 0 where
  pub page : ℕ → ℕ
  pub was_free : (j : ℕ) → j < n → bm_test s.pmm.bitmap (page j) ≡ false
  pub taken : (j : ℕ) → j < n → bm_test space.pmm.bitmap (page j) ≡ true
  pub differ : (i j : ℕ) → i < j → j < n → page i ≢ page j
  pub sent :
      (j : ℕ)
      → j < n
      → translate space (req + j * 0x1000) ≡ some (page j * 0x1000 + (req + j * 0x1000) % 0x1000)
  pub others :
      (other : ℕ)
      → dindex other < 1023
      → ((j : ℕ) → j < n → same_page (req + j * 0x1000) other ≡ false)
      → translate space other ≡ translate s other
  pub kept : (q : ℕ) → bm_test s.pmm.bitmap q ≡ true → bm_test space.pmm.bitmap q ≡ true

apart_pages : (req i j : ℕ) → i < j → same_page (req + i * 0x1000) (req + j * 0x1000) ≡ false
apart_pages req i j l = ground (arith, l)

-- The first page of a range, and the pages behind it.
module _ (s : Space) (space : Space) (req n : ℕ) (out : Option (ℕ × Space))
    (top : req + suc n * 0x1000 ≤ 0xFFC00000) (a : Allocates s req out)
    (r : Range a.space (req + 0x1000) n space) where
  abbrev pages : ℕ → ℕ
  pages = behind a.page r.page

  free_before : (j : ℕ) → j < suc n → bm_test s.pmm.bitmap (pages j) ≡ false
  free_before zero l = a.was_free
  free_before (suc j) l = elim (Bool-cases (bm_test s.pmm.bitmap (r.page j))) [
    | inl y ↦ absurd (true_ne_false (sym (a.kept (r.page j) y) ∙ r.was_free j (omega (arith, l))))
    | inr m ↦ m
  ]

  taken_after : (j : ℕ) → j < suc n → bm_test space.pmm.bitmap (pages j) ≡ true
  taken_after zero l = r.kept a.page a.taken
  taken_after (suc j) l = r.taken j (omega (arith, l))

  all_differ : (i j : ℕ) → i < j → j < suc n → pages i ≢ pages j
  all_differ i zero l h e = absurd (omega (arith, l))
  all_differ zero (suc j) l h e =
      true_ne_false
        (sym a.taken ∙ ap (bm_test a.space.pmm.bitmap) e ∙ r.was_free j (omega (arith, h)))
  all_differ (suc i) (suc j) l h e = r.differ i j (omega (arith, l)) (omega (arith, h)) e

  next_page :
      (j other : ℕ)
      → same_page (req + 0x1000 + j * 0x1000) other ≡ same_page (req + suc j * 0x1000) other
  next_page j other =
      let e : req + 0x1000 + j * 0x1000 ≡ req + suc j * 0x1000 = omega arith in
      ap (λ x. same_page x other) e

  first_sent : translate space req ≡ some (a.page * 0x1000 + req % 0x1000)
  first_sent =
      let low : dindex req < 1023 = omega (arith, top) in
      r.others req low (λ j l. ground arith)
      ∙ a.sent req low
      ∙ ap (λ (b : Bool). if b then some (a.page * 0x1000 + req % 0x1000) else translate s req)
          (==-self (req / 0x1000))

  all_sent :
      (j : ℕ)
      → j < suc n
      → translate space (req + j * 0x1000) ≡ some (pages j * 0x1000 + (req + j * 0x1000) % 0x1000)
  all_sent zero l =
      let e : req ≡ req + 0 * 0x1000 = omega arith in
      subst (λ x. translate space x ≡ some (a.page * 0x1000 + x % 0x1000)) e first_sent
  all_sent (suc j) l =
      let e : req + 0x1000 + j * 0x1000 ≡ req + suc j * 0x1000 = omega arith in
      subst (λ x. translate space x ≡ some (r.page j * 0x1000 + x % 0x1000)) e
        (r.sent j (omega (arith, l)))

  others_stay :
      (other : ℕ)
      → dindex other < 1023
      → ((j : ℕ) → j < suc n → same_page (req + j * 0x1000) other ≡ false)
      → translate space other ≡ translate s other
  others_stay other low out_of =
      let first : same_page req other ≡ false =
        subst (λ x. same_page x other ≡ false) (omega arith) (out_of 0 (omega arith)) in
      r.others other low (λ j l. next_page j other ∙ out_of (suc j) (omega (arith, l)))
      ∙ a.sent other low
      ∙ ap (λ (b : Bool). if b then some (a.page * 0x1000 + other % 0x1000) else translate s other)
          first

  Range-joined : Range s req (suc n) space
  Range-joined = record {
    page = pages;
    was_free = free_before;
    taken = taken_after;
    differ = all_differ;
    sent = all_sent;
    others = others_stay;
    kept = λ q h. r.kept q (a.kept q h);
  }

loop_goes_on :
    (n req flags : ℕ) (s s1 : Space)
    → allocpg req flags s ≡ some (req, s1)
    → req + 0x1000 < 2 ^ 32
    → alloc_loop (suc n) req flags s ≡ alloc_loop n (req + 0x1000) flags s1
unfolding alloc_loop
loop_goes_on n req flags s s1 e l =
    let next : (req + 0x1000) % 2 ^ 32 ≡ req + 0x1000 = omega arith in
    rw (alloc_loop, e, ==-self req, next) refl

alloc_loop-Range :
    (n req flags : ℕ) (s : Space)
    → Sound s
    → Stocked s.pmm
    → req + n * 0x1000 ≤ 0xFFC00000
    → present flags ≡ true
    → flags < 0x1000
    → ((j : ℕ) → j < n → old_entry s (req + j * 0x1000) ≡ 0)
    → s.pmm.pages_taken + 2 * n ≤ s.pmm.pages_total
    → (space : Space) × (alloc_loop n req flags s ≡ some (true, space)) × Range s req n space
unfolding alloc_loop
alloc_loop-Range zero req flags s v k top odd narrow fresh room = (
  s,
  refl,
  record {
    page = λ j. 0;
    was_free = λ j l. absurd (omega arith);
    taken = λ j l. absurd (omega arith);
    differ = λ i j l h. absurd (omega arith);
    sent = λ j l. absurd (omega arith);
    others = λ other l h. refl;
    kept = λ q h. h;
  },
)
alloc_loop-Range (suc n) req flags s v k top odd narrow fresh room =
    let empty : old_entry s req ≡ 0 =
      subst (λ x. old_entry s x ≡ 0) (omega arith) (fresh 0 (omega arith)) in
    let a =
      allocpg-Allocates req flags s v k (omega (arith, top)) odd narrow empty
        (omega (arith, room)) in
    let rest : (j : ℕ) → j < n → old_entry a.space (req + 0x1000 + j * 0x1000) ≡ 0 = λ j l.
      a.entries (req + 0x1000 + j * 0x1000) (omega (arith, top, l)) (ground arith)
      ∙ ap (old_entry s) (omega arith)
      ∙ fresh (suc j) (omega (arith, l)) in
    let (space, done, r) =
      alloc_loop-Range n (req + 0x1000) flags a.space a.sound a.stocked (omega (arith, top)) odd
        narrow rest (omega (arith, room, a.counted.0, a.counted.1)) in
    (
      space,
      loop_goes_on n req flags s a.space a.done (omega (arith, top)) ∙ done,
      Range-joined s space req n (allocpg req flags s) top a r,
    )

-- In an address space whose tables are sound, with a stocked physical allocator that has two pages to
-- spare for each page of the range, for flags below 0x1000 that have the present bit and a range below
-- 0xFFC00000 whose pages have no entries, allocpgs answers the first address and sends the pages of the
-- range to as many different pages of the memory that were free and are taken now, and no other page
-- below 0xFFC00000 changes.
pub allocpgs-Range :
    (req size flags : ℕ) (s : Space)
    → Sound s
    → Stocked s.pmm
    → req + page_count size * 0x1000 ≤ 0xFFC00000
    → present flags ≡ true
    → flags < 0x1000
    → ((j : ℕ) → j < page_count size → old_entry s (req + j * 0x1000) ≡ 0)
    → s.pmm.pages_taken + 2 * page_count size ≤ s.pmm.pages_total
    → (space : Space) × (allocpgs req size flags s ≡ some (req, space))
      × Range s req (page_count size) space
unfolding allocpgs
allocpgs-Range req size flags s v k top odd narrow fresh room =
    let (space, done, r) =
      alloc_loop-Range (page_count size) req flags s v k top odd narrow fresh room in
    (space, rw (allocpgs, done) refl, r)
