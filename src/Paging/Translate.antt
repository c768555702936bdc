-- ===== src/Paging/Translate.antt =====
-- Where the tables of module/paging/main.c send an address, and how `remappg` and `mappg` change it.
use modit_micro.Base.{
  ==-cases, Bool-cases, true_ne_false, ℕ, ◌+◌, ◌*◌, ◌/◌, ◌%◌, ◌^◌, ◌<◌, ◌≤◌, ◌≡◌, ◌≢◌, refl, sym,
  ◌∙◌, ap, subst, ◌⊎◌, inl, inr, Bool, true, false, arith, Option, none, some, ◌==◌, if◌then◌else◌,
  bit_and, bit_or,
}
use modit_micro.Base.Bits.{bit_or_disjoint, bit_and_low}
use modit_micro.Pmm.{bm_test}
use modit_micro.Paging.{
  Space, dindex, tindex, present, addr, tables_phys, put_word, swap_entry, remappg, mappg,
}
use modit_micro.Paging.Views.{
  frame, translate, old_entry, sent_by, translate-old_entry, same_page, Sound, table_found,
  swap_entry-put, put-Sound, put-old_entry,
}
use modit_micro.Paging.Tables.{
  new_table-made, made, made_present, made-Sound, made-fresh, made-old_entry,
}
use modit_micro.Paging.Stock.{Stocked, getpg-Stock, getpg_keeps}

-- The entry for a page frame `f` with the flags `flags`.
pub entry_of :
    (f flags : ℕ) → bit_or (f * 0x1000) (bit_and flags 0xFFF) ≡ f * 0x1000 + flags % 0x1000
entry_of f flags =
    let split : flags ≡ flags / 0x1000 * 2 ^ 12 + flags % 0x1000 = omega arith in
    let low : bit_and flags 0xFFF ≡ flags % 0x1000 =
      ap (λ x. bit_and x 0xFFF) split
      ∙ bit_and_low 12 (flags / 0x1000) (flags % 0x1000) (omega arith) in
    ap (bit_or (f * 0x1000)) low ∙ bit_or_disjoint 12 f (flags % 0x1000) (omega arith)

-- What `translate` answers where an entry is written.
abbrev pub sends : ℕ → ℕ → ℕ → Option ℕ
sends f flags other = if present flags then some (f * 0x1000 + other % 0x1000) else none

entry_sends :
    (f flags other : ℕ)
    → (if present (f * 0x1000 + flags % 0x1000)
        then some (addr (f * 0x1000 + flags % 0x1000) * 0x1000 + other % 0x1000)
        else none)
      ≡ sends f flags other
entry_sends f flags other =
    let odd : (f * 0x1000 + flags % 0x1000) % 2 ≡ flags % 2 = omega arith in
    let frame : (f * 0x1000 + flags % 0x1000) / 2 ^ 12 ≡ f = omega arith in rw (odd, frame) refl

-- `out` answers `old`; page `virt` of its space is sent to frame `f` if the flags say that it is
-- present, and every other page below the tables to where it was sent before.
pub record Remapped (s : Space) (f virt flags old : ℕ) (out : Option (ℕ × Space)) : Type 0 where
  pub space : Space
  pub done : out ≡ some (old, space)
  pub sound : Sound space
  pub stocked : Stocked space.pmm
  pub entries :
      (other : ℕ)
      → dindex other < 1023
      → old_entry space other
        ≡ (if same_page virt other then f * 0x1000 + flags % 0x1000 else old_entry s other)
  pub translates :
      (other : ℕ)
      → dindex other < 1023
      → translate space other
        ≡ (if same_page virt other then sends f flags other else translate s other)
  pub taken : (q : ℕ) → bm_test s.pmm.bitmap q ≡ true → bm_test space.pmm.bitmap q ≡ true
  pub counted :
      (space.pmm.pages_total ≡ s.pmm.pages_total) × (space.pmm.pages_taken ≤ s.pmm.pages_taken + 1)

sent_entries :
    (s space : Space) (f virt flags other : ℕ)
    → old_entry space other
      ≡ (if same_page virt other then f * 0x1000 + flags % 0x1000 else old_entry s other)
    → translate space other
      ≡ (if same_page virt other then sends f flags other else translate s other)
sent_entries s space f virt flags other e =
    translate-old_entry space other
    ∙ ap (λ x. sent_by x other) e
    ∙ elim (Bool-cases (same_page virt other)) [
      | inl y ↦ rw y (entry_sends f flags other)
      | inr n ↦ rw n (sym (translate-old_entry s other))
    ]

swapped_entry :
    (f virt flags : ℕ) (s : Space)
    → Sound s
    → dindex virt < 1023
    → present (tables_phys s (dindex virt)) ≡ true
    → swap_entry (dindex virt) (tindex virt) (bit_or (f * 0x1000) (bit_and flags 0xFFF)) s
      ≡ some (
        s.words (frame s (dindex virt)) (tindex virt),
        put_word (frame s (dindex virt)) (tindex virt) (f * 0x1000 + flags % 0x1000) s,
      )
swapped_entry f virt flags s v low there =
    ap (λ e. swap_entry (dindex virt) (tindex virt) e s) (entry_of f flags)
    ∙ swap_entry-put s v (dindex virt) (tindex virt) (f * 0x1000 + flags % 0x1000) low there

remap_present :
    (f virt flags : ℕ) (s : Space)
    → Sound s
    → Stocked s.pmm
    → dindex virt < 1023
    → present (tables_phys s (dindex virt)) ≡ true
    → Remapped s f virt flags
        (s.words (frame s (dindex virt)) (tindex virt))
        (remappg (f * 0x1000) virt flags s)
unfolding remappg
remap_present f virt flags s v k low there =
    let d = dindex virt in
    let t = tindex virt in
    let e = f * 0x1000 + flags % 0x1000 in
    let at = λ (other : ℕ) (l : dindex other < 1023).
      put-old_entry s v d t e low there virt other refl refl (omega (arith, l)) in
    record {
      space = put_word (frame s d) t e s;
      done = rw there (swapped_entry f virt flags s v low there);
      sound = put-Sound s v d t e low there;
      stocked = k;
      entries = at;
      translates =
          λ other l. sent_entries s (put_word (frame s d) t e s) f virt flags other (at other l);
      taken = λ q h. h;
      counted = (refl, omega arith);
    }

remap_absent :
    (f virt flags : ℕ) (s : Space)
    → Sound s
    → Stocked s.pmm
    → dindex virt < 1023
    → present (tables_phys s (dindex virt)) ≡ false
    → present flags ≡ true
    → flags < 0x1000
    → s.pmm.pages_taken < s.pmm.pages_total
    → Remapped s f virt flags 0 (remappg (f * 0x1000) virt flags s)
unfolding remappg
remap_absent f virt flags s v k low absent odd narrow room =
    let d = dindex virt in
    let t = tindex virt in
    let e = f * 0x1000 + flags % 0x1000 in
    let st = getpg-Stock s.pmm k room in
    let g = st.gives in
    let s1 = made s v d flags st.page low absent odd narrow g in
    let v1 = made-Sound s v d flags st.page low absent odd narrow g in
    let there = made_present s v d flags st.page low absent odd narrow g in
    let at = λ (other : ℕ) (l : dindex other < 1023).
      put-old_entry s1 v1 d t e low there virt other refl refl (omega (arith, l))
      ∙ ap (λ x. if same_page virt other then e else x)
          (made-old_entry s v d flags st.page low absent odd narrow g other l) in
    record {
      space = put_word (frame s1 d) t e s1;
      done =
          rw (absent, new_table-made s v d flags st.page low absent odd narrow g)
            (swapped_entry f virt flags s1 v1 low there)
          ∙ ap (λ x. some (x, put_word (frame s1 d) t e s1))
              (made-fresh s v d flags st.page low absent odd narrow g t);
      sound = put-Sound s1 v1 d t e low there;
      stocked = st.stocked;
      entries = at;
      translates =
          λ other l. sent_entries s (put_word (frame s1 d) t e s1) f virt flags other (at other l);
      taken = λ q h. getpg_keeps s.pmm st.page q g h;
      counted = (g.total, omega (arith, g.counted));
    }

-- In an address space whose tables are sound, with a stocked physical allocator, for a page below
-- 0xFFC00000 that has a table, or with flags below 0x1000 that have the present bit and a page of
-- memory to spare, remappg of a page frame answers the old entry and sends this page, and no other
-- below 0xFFC00000, to the frame; the tables stay sound, and no taken page of the memory becomes free.
pub remappg-Remapped :
    (f virt flags : ℕ) (s : Space)
    → Sound s
    → Stocked s.pmm
    → dindex virt < 1023
    → ((present flags ≡ true) × (flags < 0x1000) × (s.pmm.pages_taken < s.pmm.pages_total))
      ⊎ (present (tables_phys s (dindex virt)) ≡ true)
    → Remapped s f virt flags (old_entry s virt) (remappg (f * 0x1000) virt flags s)
remappg-Remapped f virt flags s v k low ok =
    elim (Bool-cases (present (tables_phys s (dindex virt)))) [
      | inl y ↦ rw y (remap_present f virt flags s v k low y)
      | inr n ↦ rw n (elim ok [
        | inl (odd, narrow, room) ↦ remap_absent f virt flags s v k low n odd narrow room
        | inr y ↦ absurd (true_ne_false (sym y ∙ n))
      ])
    ]

mappg_there :
    (phys virt flags : ℕ) (s : Space)
    → Sound s
    → dindex virt < 1023
    → present (tables_phys s (dindex virt)) ≡ true
    → mappg phys virt flags s ≡ (
        if s.words (frame s (dindex virt)) (tindex virt) == 0
        then remappg phys virt flags s
        else some (s.words (frame s (dindex virt)) (tindex virt), s))
unfolding mappg
mappg_there phys virt flags s v low there =
    let at = table_found s v (dindex virt) (omega (arith, low)) there in rw (there, at) refl

-- `mappg`, under the conditions of `remappg`, leaves a page that has an entry alone and answers that entry;
-- any other page is mapped as `remappg` maps it.
pub mappg-Remapped :
    (f virt flags : ℕ) (s : Space)
    → Sound s
    → Stocked s.pmm
    → dindex virt < 1023
    → present flags ≡ true
    → flags < 0x1000
    → s.pmm.pages_taken < s.pmm.pages_total
    → ((old_entry s virt ≢ 0) × (mappg (f * 0x1000) virt flags s ≡ some (old_entry s virt, s)))
      ⊎ ((old_entry s virt ≡ 0) × Remapped s f virt flags 0 (mappg (f * 0x1000) virt flags s))
unfolding mappg
mappg-Remapped f virt flags s v k low odd narrow room =
    elim (Bool-cases (present (tables_phys s (dindex virt)))) [
      | inl y ↦
          (let w = s.words (frame s (dindex virt)) (tindex virt) in
            let entry : old_entry s virt ≡ w = rw y refl in
            let eq = mappg_there (f * 0x1000) virt flags s v low y in
            elim (==-cases w 0) [
              | inl z ↦
                  (let zero_word : (w == 0) ≡ true = ap (λ x. x == 0) z in
                    let r =
                      subst (λ o. Remapped s f virt flags o (remappg (f * 0x1000) virt flags s)) z
                        (remap_present f virt flags s v k low y) in
                    let go : mappg (f * 0x1000) virt flags s ≡ remappg (f * 0x1000) virt flags s =
                      eq
                      ∙ ap
                          (λ (b : Bool).
                            if b then remappg (f * 0x1000) virt flags s else some (w, s))
                          zero_word in
                    inr (entry ∙ z, subst (Remapped s f virt flags 0) (sym go) r))
              | inr n ↦ inl (
                λ z. true_ne_false (sym (ap (λ x. x == 0) (sym entry ∙ z)) ∙ n),
                eq
                    ∙ ap
                        (λ (b : Bool). if b then remappg (f * 0x1000) virt flags s else some (w, s))
                        n
                    ∙ ap (λ x. some (x, s)) (sym entry),
              )
            ])
      | inr n ↦ inr (rw n refl, rw n (remap_absent f virt flags s v k low n odd narrow room))
    ]
