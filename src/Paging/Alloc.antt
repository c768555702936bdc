-- ===== src/Paging/Alloc.antt =====
-- The calls of module/paging/main.c that take pages from the physical allocator.
use modit_micro.Base.{
  ==-self, ==-false, ℕ, ◌+◌, ◌*◌, ◌%◌, ◌<◌, ◌≤◌, ◌≡◌, ◌≢◌, refl, ◌∙◌, ap, inl, inr, Bool, true,
  false, arith, Option, none, some, ◌==◌, if◌then◌else◌,
}
use modit_micro.Pmm.{bm_test, bm_getpg, bm_freepg}
use modit_micro.Paging.{Space, dindex, present, mappg, allocpg}
use modit_micro.Paging.Views.{translate, old_entry, same_page, Sound, Sound-carry}
use modit_micro.Paging.Translate.{mappg-Remapped}
use modit_micro.Paging.Stock.{Stocked, getpg-Stock, getpg_keeps}

-- `out` answers `req`, whose page is sent to a page of the memory that was free and is taken now; every
-- other page below the tables is sent to where it was.
pub record Allocates (s : Space) (req : ℕ) (out : Option (ℕ × Space)) : Type 0 where
  pub page : ℕ
  pub space : Space
  pub done : out ≡ some (req, space)
  pub was_free : bm_test s.pmm.bitmap page ≡ false
  pub taken : bm_test space.pmm.bitmap page ≡ true
  pub sent :
      (other : ℕ)
      → dindex other < 1023
      → translate space other
        ≡ (if same_page req other then some (page * 0x1000 + other % 0x1000) else translate s other)
  pub entries :
      (other : ℕ)
      → dindex other < 1023
      → same_page req other ≡ false
      → old_entry space other ≡ old_entry s other
  pub sound : Sound space
  pub stocked : Stocked space.pmm
  pub kept : (q : ℕ) → bm_test s.pmm.bitmap q ≡ true → bm_test space.pmm.bitmap q ≡ true
  pub counted :
      (space.pmm.pages_total ≡ s.pmm.pages_total) × (space.pmm.pages_taken ≤ s.pmm.pages_taken + 2)

abbrev got_page : Space → ℕ
got_page s = (bm_getpg s.pmm).0

abbrev without_page : Space → Space
without_page s = record s { pmm = (bm_getpg s.pmm).1 }

allocpg_maps :
    (req flags prev : ℕ) (s s1 : Space)
    → got_page s ≢ 0
    → mappg (got_page s) req flags (without_page s) ≡ some (prev, s1)
    → allocpg req flags s
      ≡ some (req, if prev == 0 then s1 else record s1 { pmm = bm_freepg (got_page s) s1.pmm })
unfolding allocpg
allocpg_maps req flags prev s s1 ne e = rw (==-false ne, e) refl

-- In an address space whose tables are sound, with a stocked physical allocator that has two pages to
-- spare, for a page below 0xFFC00000 without an entry and flags below 0x1000 that have the present bit,
-- allocpg answers the address and sends the page to a page of the memory that was free and is taken
-- now, and no other page below 0xFFC00000 changes; the tables stay sound.
pub allocpg-Allocates :
    (req flags : ℕ) (s : Space)
    → Sound s
    → Stocked s.pmm
    → dindex req < 1023
    → present flags ≡ true
    → flags < 0x1000
    → old_entry s req ≡ 0
    → s.pmm.pages_taken + 2 ≤ s.pmm.pages_total
    → Allocates s req (allocpg req flags s)
allocpg-Allocates req flags s v k low odd narrow fresh room =
    let st = getpg-Stock s.pmm k (omega (arith, room)) in
    let g = st.gives in
    let s0 = without_page s in
    let keeps : (q : ℕ) → bm_test s.pmm.bitmap q ≡ true → bm_test s0.pmm.bitmap q ≡ true =
      λ q h. getpg_keeps s.pmm st.page q g h in
    let v0 = Sound-carry s s0 refl (λ d. refl) (λ d. refl) keeps v in
    let ne : got_page s ≢ 0 =
      λ (z : got_page s ≡ 0). absurd (omega (arith, z, g.address, st.positive)) in
    elim (mappg-Remapped st.page req flags s0 v0 st.stocked low odd narrow
      (omega (arith, g.total, g.counted, room))) [
        | inl (used, e) ↦ absurd (used fresh)
        | inr (z, r) ↦ record {
          page = st.page;
          space = r.space;
          done =
              allocpg_maps req flags 0 s r.space ne
                (ap (λ x. mappg x req flags s0) g.address ∙ r.done);
          was_free = g.was_free;
          taken = r.taken st.page (g.bits st.page ∙ rw (==-self st.page) refl);
          sent = λ other l.
              r.translates other l
              ∙ ap
                  (λ (b : Bool).
                    if same_page req other
                    then (if b then some (st.page * 0x1000 + other % 0x1000) else none)
                    else translate s other)
                  odd;
          entries = λ other l n.
              r.entries other l
              ∙ ap
                  (λ (b : Bool). if b then st.page * 0x1000 + flags % 0x1000 else old_entry s other)
                  n;
          sound = r.sound;
          stocked = r.stocked;
          kept = λ q h. r.taken q (keeps q h);
          counted = (r.counted.0 ∙ g.total, omega (arith, r.counted.1, g.counted));
        }
      ]
