-- ===== src/Paging/Views.antt =====
-- What the tables of module/paging/main.c say of each page, and when they are apart from one another.
use modit_micro.Base.{
  ==-self, ==-false, ==-cases, Bool-cases, true_ne_false, ℕ, ◌+◌, ◌*◌, ◌/◌, ◌%◌, ◌<◌, ◌≡◌, refl,
  sym, ◌∙◌, ap, inl, inr, Bool, true, false, arith, Option, none, some, ◌==◌, if◌then◌else◌, ◌&&◌,
}
use modit_micro.Pmm.{bm_test}
use modit_micro.Paging.{
  Space, dindex, tindex, present, addr, tables_phys, put_word, table_at, frame_at, swap_entry,
}

abbrev pub frame : Space → ℕ → ℕ
frame s d = addr (tables_phys s d)

-- The physical address that the processor finds for `virt`.
abbrev pub translate : Space → ℕ → Option ℕ
translate s virt =
    let entry = s.words (frame s (dindex virt)) (tindex virt) in
    if present (tables_phys s (dindex virt)) && present entry
    then some (addr entry * 0x1000 + virt % 0x1000)
    else none

-- The entry that a page has, 0 where there is no table.
abbrev pub old_entry : Space → ℕ → ℕ
old_entry s virt =
    if present (tables_phys s (dindex virt))
    then s.words (frame s (dindex virt)) (tindex virt)
    else 0

abbrev pub sent_by : ℕ → ℕ → Option ℕ
sent_by entry virt = if present entry then some (addr entry * 0x1000 + virt % 0x1000) else none

pub translate-old_entry :
    (s : Space) (virt : ℕ) → translate s virt ≡ sent_by (old_entry s virt) virt
translate-old_entry s virt = elim (Bool-cases (present (tables_phys s (dindex virt)))) [
  | inl y ↦ rw y refl
  | inr n ↦ rw n refl
]

-- Two addresses in the same page.
abbrev pub same_page : ℕ → ℕ → Bool
same_page virt other = virt / 0x1000 == other / 0x1000

pub same_page_places :
    (virt other : ℕ)
    → same_page virt other ≡ (dindex virt == dindex other && tindex virt == tindex other)
same_page_places virt other = ground arith

-- The last directory entry is the directory itself, the pointers go through it, and the tables stand in
-- frames of their own that are taken.
pub record Sound (s : Space) : Type 0 where
  pub here : present (tables_phys s 1023) ≡ true
  pub itself : frame s 1023 ≡ s.dir
  pub pointers : (d : ℕ) → d < 1024 → present (tables_phys s d) ≡ true → s.tables d ≡ table_at d
  pub apart :
      (d e : ℕ)
      → d < 1024
      → e < 1024
      → present (tables_phys s d) ≡ true
      → present (tables_phys s e) ≡ true
      → frame s d ≡ frame s e
      → d ≡ e
  pub taken :
      (d : ℕ)
      → d < 1024
      → present (tables_phys s d) ≡ true
      → bm_test s.pmm.bitmap (frame s d) ≡ true

pub table_at_place : (d : ℕ) → d < 1024 → (dindex (table_at d) ≡ 1023) × (tindex (table_at d) ≡ d)
table_at_place d l = (omega arith, omega arith)

-- A table is found through the last directory entry.
pub frame_at_self :
    (s : Space) (d : ℕ)
    → d < 1024
    → present (tables_phys s 1023) ≡ true
    → frame s 1023 ≡ s.dir
    → present (tables_phys s d) ≡ true
    → frame_at (table_at d) s ≡ some (frame s d)
unfolding frame_at
frame_at_self s d l here itself there =
    let place = table_at_place d l in rw (place.0, place.1, here, itself, there) refl

-- The same directory, with as many pages taken.
pub Sound-carry :
    (s s' : Space)
    → s'.dir ≡ s.dir
    → ((d : ℕ) → tables_phys s' d ≡ tables_phys s d)
    → ((d : ℕ) → s'.tables d ≡ s.tables d)
    → ((q : ℕ) → bm_test s.pmm.bitmap q ≡ true → bm_test s'.pmm.bitmap q ≡ true)
    → Sound s
    → Sound s'
Sound-carry s s' dir same ptr more v =
    let old =
      λ (d : ℕ) (h : present (tables_phys s' d) ≡ true). ap (λ x. present x) (sym (same d)) ∙ h in
    record {
      here = ap (λ x. present x) (same 1023) ∙ v.here;
      itself = ap (λ x. addr x) (same 1023) ∙ v.itself ∙ sym dir;
      pointers = λ d l h. ptr d ∙ v.pointers d l (old d h);
      apart = λ d e l l' h h' eq.
          v.apart d e l l' (old d h) (old e h')
            (ap (λ x. addr x) (sym (same d)) ∙ eq ∙ ap (λ x. addr x) (same e));
      taken = λ d l h.
          ap (λ x. bm_test s'.pmm.bitmap (addr x)) (same d)
          ∙ more (frame s d) (v.taken d l (old d h));
    }

pub table_found :
    (s : Space)
    → Sound s
    → (d : ℕ) → d < 1024
    → present (tables_phys s d) ≡ true
    → frame_at (s.tables d) s ≡ some (frame s d)
table_found s v d l there =
    ap (λ p. frame_at p s) (v.pointers d l there) ∙ frame_at_self s d l v.here v.itself there

module _ (s : Space) (v : Sound s) (d t e : ℕ) (low : d < 1023)
    (there : present (tables_phys s d) ≡ true) where
  abbrev written : Space
  written = put_word (frame s d) t e s

  off_dir : (frame s d == s.dir) ≡ false
  off_dir = ==-false (λ (eq : frame s d ≡ s.dir).
      (let last : d ≡ 1023 =
          v.apart d 1023 (omega (arith, low)) (omega arith) there v.here (eq ∙ sym v.itself) in
        absurd (omega (arith, low, last))))

  same_dir : (i : ℕ) → tables_phys written i ≡ tables_phys s i
  same_dir i = rw off_dir refl

  pub swap_entry-put : swap_entry d t e s ≡ some (s.words (frame s d) t, written)
  unfolding swap_entry
  swap_entry-put = let at = table_found s v d (omega (arith, low)) there in rw (swap_entry, at) refl

  pub put-Sound : Sound written
  put-Sound = Sound-carry s written refl same_dir (λ i. refl) (λ q h. h) v

  put_words :
      (i j : ℕ)
      → i < 1024
      → present (tables_phys s i) ≡ true
      → written.words (frame s i) j ≡ (if d == i && t == j then e else s.words (frame s i) j)
  put_words i j l h = elim (==-cases d i) [
    | inl eq ↦
        (let f : (frame s d == frame s i) ≡ true =
            ap (λ x. frame s x == frame s i) eq ∙ ==-self (frame s i) in
          let y : (d == i) ≡ true = ap (λ x. x == i) eq ∙ ==-self i in rw (f, y) refl)
    | inr n ↦
        (let f : (frame s d == frame s i) ≡ false = ==-false (λ eq.
            true_ne_false
              (sym (ap (λ x. x == i) (v.apart d i (omega arith) l there h eq) ∙ ==-self i) ∙ n)) in
          rw (f, n) refl)
  ]

  pub put-old_entry :
      (virt other : ℕ)
      → dindex virt ≡ d
      → tindex virt ≡ t
      → dindex other < 1024
      → old_entry written other ≡ (if same_page virt other then e else old_entry s other)
  put-old_entry virt other dv tv l =
      let places : same_page virt other ≡ (d == dindex other && t == tindex other) =
        same_page_places virt other
        ∙ ap (λ x. x == dindex other && tindex virt == tindex other) dv
        ∙ ap (λ x. d == dindex other && x == tindex other) tv in
      elim (Bool-cases (present (tables_phys s (dindex other)))) [
        | inl y ↦
            rw (places, same_dir (dindex other), y) (put_words (dindex other) (tindex other) l y)
        | inr n ↦
            (let differ : (d == dindex other) ≡ false =
                ==-false
                  (λ eq. true_ne_false (sym there ∙ ap (λ x. present (tables_phys s x)) eq ∙ n)) in
              rw (places, same_dir (dindex other), n, differ) refl)
      ]
