-- ===== src/Paging/Releases.antt =====
-- What `freepg` of module/paging/main.c gives back, and a table that is not there when it is cleared.
use modit_micro.Base.{
  ==-self, ==-false, ==-cases, Bool-cases, ℕ, ◌*◌, ◌%◌, ◌^◌, ◌<◌, ◌≡◌, refl, ◌∙◌, ap, inl, inr,
  true, false, arith, none, some, ◌==◌, if◌then◌else◌, bit_or,
}
use modit_micro.Base.Bits.{bit_or_odd}
use modit_micro.Pmm.{bm_test, bm_getpg, bm_freepg}
use modit_micro.Paging.{
  Space, dindex, present, addr, tables_phys, table_at, frame_at, linked, new_table, remappg, freepg,
}
use modit_micro.Paging.Views.{translate, old_entry, same_page, Sound, table_at_place}
use modit_micro.Paging.Stock.{Stocked}
use modit_micro.Paging.Translate.{remappg-Remapped}

freepg_after :
    (req old : ℕ) (s s1 : Space)
    → remappg 0 req 0 s ≡ some (old, s1)
    → freepg req s ≡ some (if old == 0 then record s1 { pmm = bm_freepg 0 s1.pmm } else s1)
unfolding freepg
freepg_after req old s s1 e = elim (==-cases old 0) [
  | inl z ↦
      (let y : (old == 0) ≡ true = ap (λ x. x == 0) z in
        rw (freepg, e, y)
          (ap (λ x. some (record s1 { pmm = bm_freepg (addr x * 0x1000 % 2 ^ 32) s1.pmm })) z))
  | inr n ↦ rw (freepg, e, n) refl
]

-- In a sound address space, for a page below 0xFFC00000 that has a table: the page is sent nowhere after
-- `freepg`, and of the memory that was taken only page 0 is given back, and that for a page without an entry.
pub freepg_inverted :
    (req : ℕ) (s : Space)
    → Sound s
    → Stocked s.pmm
    → dindex req < 1023
    → present (tables_phys s (dindex req)) ≡ true
    → (s1 : Space) × ((other : ℕ)
        → dindex other < 1023
        → translate s1 other ≡ (if same_page req other then none else translate s other))
      × ((q : ℕ) → bm_test s.pmm.bitmap q ≡ true → bm_test s1.pmm.bitmap q ≡ true)
      × (freepg req s
          ≡ some (if old_entry s req == 0 then record s1 { pmm = bm_freepg 0 s1.pmm } else s1))
freepg_inverted req s v k low there =
    let r = remappg-Remapped 0 req 0 s v k low (inr there) in
    (r.space, r.translates, r.taken, freepg_after req (old_entry s req) s r.space r.done)

even_entry :
    (s : Space) (flags : ℕ)
    → present flags ≡ false
    → present (bm_getpg s.pmm).0 ≡ false
    → present (bit_or (bm_getpg s.pmm).0 flags) ≡ false
even_entry s flags fl even = ground (arith, fl, even, bit_or_odd (bm_getpg s.pmm).0 flags)

-- In a sound address space, for a page below 0xFFC00000 without a table: `remappg` with flags that lack the
-- present bit faults, when the frame that it takes for the table has an even address.
pub remappg_faults :
    (phys virt flags : ℕ) (s : Space)
    → Sound s
    → dindex virt < 1023
    → present (tables_phys s (dindex virt)) ≡ false
    → present flags ≡ false
    → present (bm_getpg s.pmm).0 ≡ false
    → remappg phys virt flags s ≡ none
unfolding remappg new_table frame_at
remappg_faults phys virt flags s v low absent fl even =
    let d = dindex virt in
    let s1 = linked d flags s in
    let not_last : (d == 1023) ≡ false =
      ==-false (λ (e : d ≡ 1023). absurd (omega (arith, e, low))) in
    let last : tables_phys s1 1023 ≡ tables_phys s 1023 = rw (==-self s.dir, not_last) refl in
    let own : tables_phys s1 d ≡ bit_or (bm_getpg s.pmm).0 flags =
      rw (==-self s.dir, ==-self d) refl in
    let ptr : s1.tables d ≡ table_at d = rw (==-self d) refl in
    let place = table_at_place d (omega (arith, low)) in
    let gone : present (s1.words (addr (tables_phys s1 1023)) d) ≡ false =
      ap (λ x. present (s1.words (addr x) d)) last
      ∙ ap (λ f. present (s1.words f d)) v.itself
      ∙ ap (λ x. present x) own
      ∙ even_entry s flags fl even in
    let at : frame_at (s1.tables d) s1 ≡ none =
      ap (λ p. frame_at p s1) ptr
      ∙ rw (frame_at, place.0, place.1, gone)
          (elim (Bool-cases (present (tables_phys s1 1023))) [
            | inl y ↦ rw y refl
            | inr n ↦ rw n refl
          ]) in
    let faults : new_table d flags s ≡ none = rw (new_table, at) refl in
    rw (remappg, absent, faults) refl
