-- ===== src/Paging/Tables.antt =====
-- The tables that `remappg` of module/paging/main.c makes.
use modit_micro.Base.{
  ==-self, ==-false, ==-cases, Bool-cases, true_ne_false, ℕ, ◌+◌, ◌*◌, ◌%◌, ◌<◌, ◌≡◌, ◌≢◌, refl,
  sym, ◌∙◌, ap, ◌⊎◌, inl, inr, Bool, true, false, arith, some, ◌==◌, if◌then◌else◌, bit_or,
}
use modit_micro.Base.Bits.{bit_or_disjoint}
use modit_micro.Pmm.{bm_test, bm_getpg}
use modit_micro.Pmm.Getpg.{Gives}
use modit_micro.Paging.{
  Space, dindex, tindex, present, addr, tables_phys, table_at, frame_at, clear_frame, linked,
  new_table,
}
use modit_micro.Paging.Views.{frame, old_entry, Sound, frame_at_self}

-- `getpg` gives `page` of the memory for the table of entry `d`, which has none.
module _ (s : Space) (v : Sound s) (d flags page : ℕ) (low : d < 1023)
    (absent : present (tables_phys s d) ≡ false) (odd : present flags ≡ true)
    (narrow : flags < 0x1000) (g : Gives s.pmm (bm_getpg s.pmm) page) where
  abbrev pub before : Space
  before = linked d flags s

  abbrev pub made : Space
  made = clear_frame page before

  abbrev entry : ℕ
  entry = page * 0x1000 + flags

  entry_bits : bit_or (bm_getpg s.pmm).0 flags ≡ entry
  entry_bits = ap (λ x. bit_or x flags) g.address ∙ bit_or_disjoint 12 page flags narrow

  entry_present : present entry ≡ true
  entry_present =
      let same : (page * 0x1000 + flags) % 2 ≡ flags % 2 = omega arith in
      ap (λ x. x == 1) same ∙ odd

  entry_frame : addr entry ≡ page
  entry_frame = omega (arith, narrow)

  fresh : (i : ℕ) → i < 1024 → present (tables_phys s i) ≡ true → page ≢ frame s i
  fresh i l h e =
      true_ne_false (sym (v.taken i l h) ∙ ap (bm_test s.pmm.bitmap) (sym e) ∙ g.was_free)

  off_dir : (page == s.dir) ≡ false
  off_dir = ==-false (λ (e : page ≡ s.dir). fresh 1023 (omega arith) v.here (e ∙ sym v.itself))

  before_dir : (i : ℕ) → tables_phys before i ≡ (if d == i then entry else tables_phys s i)
  before_dir i =
      rw (==-self s.dir) refl ∙ ap (λ x. if d == i then x else tables_phys s i) entry_bits

  made_dir : (i : ℕ) → tables_phys made i ≡ (if d == i then entry else tables_phys s i)
  made_dir i = rw off_dir (before_dir i)

  others : (i : ℕ) → (d == i) ≡ false → tables_phys made i ≡ tables_phys s i
  others i n = made_dir i ∙ ap (λ (b : Bool). if b then entry else tables_phys s i) n

  own : tables_phys made d ≡ entry
  own = made_dir d ∙ ap (λ (b : Bool). if b then entry else tables_phys s d) (==-self d)

  not_last : (d == 1023) ≡ false
  not_last = ==-false (λ (e : d ≡ 1023). absurd (omega (arith, e, low)))

  -- Clearing the table finds it.
  pub new_table-made : new_table d flags s ≡ some made
  unfolding new_table
  new_table-made =
      let last : tables_phys before 1023 ≡ tables_phys s 1023 =
        before_dir 1023 ∙ ap (λ (b : Bool). if b then entry else tables_phys s 1023) not_last in
      let own_entry : tables_phys before d ≡ entry =
        before_dir d ∙ ap (λ (b : Bool). if b then entry else tables_phys s d) (==-self d) in
      let ptr : before.tables d ≡ table_at d = rw (==-self d) refl in
      let at : frame_at (before.tables d) before ≡ some page =
        ap (λ p. frame_at p before) ptr
        ∙ frame_at_self before d (omega (arith, low)) (ap (λ x. present x) last ∙ v.here)
            (ap (λ x. addr x) last ∙ v.itself) (ap (λ x. present x) own_entry ∙ entry_present)
        ∙ ap (λ x. some (addr x)) own_entry
        ∙ ap some entry_frame in
      rw (new_table, at) refl

  pub made_present : present (tables_phys made d) ≡ true
  made_present = ap (λ x. present x) own ∙ entry_present

  made-frame : frame made d ≡ page
  made-frame = ap (λ x. addr x) own ∙ entry_frame

  -- An entry of the new directory is the new one, or an old one.
  which :
      (i : ℕ)
      → present (tables_phys made i) ≡ true
      → ((d ≡ i) × (frame made i ≡ page))
        ⊎ (((d == i) ≡ false) × (present (tables_phys s i) ≡ true) × (frame made i ≡ frame s i))
  which i h = elim (==-cases d i) [
    | inl e ↦ inl (e, ap (frame made) (sym e) ∙ made-frame)
    | inr n ↦ inr (n, ap (λ x. present x) (sym (others i n)) ∙ h, ap (λ x. addr x) (others i n))
  ]

  keeps_taken : (q : ℕ) → bm_test s.pmm.bitmap q ≡ true → bm_test made.pmm.bitmap q ≡ true
  keeps_taken q h = g.bits q ∙ elim (Bool-cases (page == q)) [ inl y ↦ rw y refl | inr n ↦ rw n h ]

  page_taken : bm_test made.pmm.bitmap page ≡ true
  page_taken = g.bits page ∙ rw (==-self page) refl

  pub made-Sound : Sound made
  made-Sound = record {
    here = ap (λ x. present x) (others 1023 not_last) ∙ v.here;
    itself = ap (λ x. addr x) (others 1023 not_last) ∙ v.itself;
    pointers = λ i l h. elim (==-cases d i) [
      | inl e ↦
          (let y : (d == i) ≡ true = ap (λ x. x == i) e ∙ ==-self i in
            rw y (ap (λ x. table_at x) e))
      | inr n ↦ rw n (v.pointers i l (ap (λ x. present x) (sym (others i n)) ∙ h))
    ];
    apart = λ i j l l' h h' eq. elim (which i h) [
      | inl (e, f) ↦ elim (which j h') [
        | inl (e', f') ↦ sym e ∙ e'
        | inr (n', p', f') ↦ absurd (fresh j l' p' (sym f ∙ eq ∙ f'))
      ]
      | inr (n, p, f) ↦ elim (which j h') [
        | inl (e', f') ↦ absurd (fresh i l p (sym f' ∙ sym eq ∙ f))
        | inr (n', p', f') ↦ v.apart i j l l' p p' (sym f ∙ eq ∙ f')
      ]
    ];
    taken = λ i l h. elim (which i h) [
      | inl (e, f) ↦ ap (bm_test made.pmm.bitmap) f ∙ page_taken
      | inr (n, p, f) ↦ ap (bm_test made.pmm.bitmap) f ∙ keeps_taken (frame s i) (v.taken i l p)
    ];
  }

  made_words :
      (i j : ℕ)
      → i < 1023
      → present (tables_phys s i) ≡ true
      → made.words (frame s i) j ≡ s.words (frame s i) j
  made_words i j l h =
      let new : (page == frame s i) ≡ false = ==-false (fresh i (omega (arith, l)) h) in
      let not_dir : (s.dir == frame s i) ≡ false = ==-false (λ (e : s.dir ≡ frame s i).
        (let last : i ≡ 1023 =
            v.apart i 1023 (omega (arith, l)) (omega arith) h v.here (sym e ∙ sym v.itself) in
          absurd (omega (arith, l, last)))) in
      rw (new, not_dir) refl

  made_zero : (j : ℕ) → made.words page j ≡ 0
  made_zero j = rw (==-self page) refl

  pub made-fresh : (j : ℕ) → made.words (frame made d) j ≡ 0
  made-fresh j = ap (λ f. made.words f j) made-frame ∙ made_zero j

  -- A table of zeros gives no page an entry.
  pub made-old_entry : (other : ℕ) → dindex other < 1023 → old_entry made other ≡ old_entry s other
  made-old_entry other l = elim (==-cases d (dindex other)) [
    | inl e ↦
        (let gone : present (tables_phys s (dindex other)) ≡ false =
            ap (λ x. present (tables_phys s x)) (sym e) ∙ absent in
          let now : present (tables_phys made (dindex other)) ≡ true =
            ap (λ x. present (tables_phys made x)) (sym e) ∙ made_present in
          let zero_word : made.words (frame made (dindex other)) (tindex other) ≡ 0 =
            ap (λ x. made.words (frame made x) (tindex other)) (sym e)
            ∙ made-fresh (tindex other) in
          ap (λ (b : Bool). if b then made.words (frame made (dindex other)) (tindex other) else 0)
            now
          ∙ zero_word
          ∙ rw gone refl)
    | inr n ↦
        ap (λ x. if present x then made.words (addr x) (tindex other) else 0)
          (others (dindex other) n)
        ∙ elim (Bool-cases (present (tables_phys s (dindex other)))) [
          | inl y ↦ rw y (made_words (dindex other) (tindex other) l y)
          | inr m ↦ rw m refl
        ]
  ]
