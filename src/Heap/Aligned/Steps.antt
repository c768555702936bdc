-- ===== src/Heap/Aligned/Steps.antt =====
-- The parts of `kalloc_a` of module/heap/main.c: the search, and aligning the end of the heap.
use modit_micro.Base.{
  ==-false, Bool-cases, true_ne_false, inl, inr, ℕ, zero, suc, ◌+◌, ◌-◌, ◌%◌, ◌≤◌, ◌<◌, ◌≡◌, ◌≢◌,
  ◌∙◌, refl, sym, ap, arith, true, false, some, List, [], ◌∷◌, length,
}
use modit_micro.Heap.{Bin, Heap, append_bin}
use modit_micro.Heap.Bins.{IsLinked, SameBlock}
use modit_micro.Heap.Alloc.{Ready}
use modit_micro.Heap.Links.{count, first, Seg}
use modit_micro.Heap.Aligned.{aligned_better, aligned_from}

-- A free bin of at least `rsize` bytes at a multiple of `a`.
abbrev pub FitsAligned : ℕ → ℕ → Bin → Type 0
FitsAligned rsize a b = (b.taken ≡ false) × (rsize ≤ b.size) × (b.addr % a ≡ 0)

better-FitsAligned :
    (s rsize a bin best : ℕ) (h : Heap)
    → aligned_better s rsize a bin best h ≡ true
    → FitsAligned rsize a (h.bins bin)
unfolding aligned_better
better-FitsAligned s rsize a bin best h e = ground arith

-- The padding ends at a multiple of `a`.
pub padded : (a x : ℕ) → 0 < a → (x + (a - x % a)) % a ≡ 0
padded a x pos = grind arith

-- What the search answers from the bins `ps` and the best fit `best` so far.
pub record Chosen (rsize a : ℕ) (f : ℕ → Bin) (best : ℕ) (ps : List ℕ) (r : ℕ) : Type 0 where
  pub fits : r ≢ 0 → FitsAligned rsize a (f r)
  pub from : r ≢ best → 0 < count r ps

aligned_from-Chosen :
    (fuel s rsize a best before : ℕ) (h : Heap) (ps : List ℕ)
    → Seg h.bins before ps 0
    → count 0 ps ≡ 0
    → (best ≢ 0 → FitsAligned rsize a (h.bins best))
    → length ps < fuel
    → (r : ℕ) × (aligned_from fuel s rsize a (first ps 0) best h ≡ some r)
      × Chosen rsize a h.bins best ps r
unfolding aligned_from
aligned_from-Chosen zero s rsize a best before h ps g z bf f = absurd (omega arith)
aligned_from-Chosen (suc fuel) s rsize a best before h [] g z bf f =
    (best, refl, record { fits = bf; from = λ ne. absurd (ne refl) })
aligned_from-Chosen (suc fuel) s rsize a best before h (p ∷ ps) g z bf f =
    let nz : p ≢ 0 = ground arith in
    let z' : count 0 ps ≡ 0 = ground arith in
    elim (Bool-cases (aligned_better s rsize a p best h)) [
      | inl e ↦
          (let (r, done, b) =
              aligned_from-Chosen fuel s rsize a p p h ps g.2 z'
                (λ n. better-FitsAligned s rsize a p best h e) (omega arith) in
            (
              r,
              rw (==-false nz, g.1, e) done,
              record { fits = b.fits; from = λ ne. ground (arith, b.from) },
            ))
      | inr e ↦
          (let (r, done, b) =
              aligned_from-Chosen fuel s rsize a best p h ps g.2 z' bf (omega arith) in
            (
              r,
              rw (==-false nz, g.1, e) done,
              record { fits = b.fits; from = λ ne. ground (arith, b.from ne) },
            ))
    ]

pub search-Chosen :
    (fuel s rsize a : ℕ) (h : Heap) (ps es : List ℕ)
    → IsLinked h ps es
    → length ps < fuel
    → (r : ℕ) × (aligned_from fuel s rsize a h.bin_head 0 h ≡ some r) × Chosen rsize a h.bins 0 ps r
search-Chosen fuel s rsize a h ps es l f =
    let (r, done, b) =
      aligned_from-Chosen fuel s rsize a 0 0 h ps l.chain (omega (arith, l.null))
        (λ nz. absurd (nz refl)) f in
    (r, ap (λ t. aligned_from fuel s rsize a t 0 h) l.head ∙ done, b)

-- What stays while the end of the heap is aligned.
pub record Carries (h : Heap) (ps : List ℕ) (h1 : Heap) (ps1 : List ℕ) : Type 0 where
  pub listed : (q : ℕ) → 0 < count q ps → 0 < count q ps1
  pub same : (q : ℕ) → 0 < count q ps → (h.bins q).taken ≡ true → SameBlock (h1.bins q) (h.bins q)
  pub no_more :
      (q : ℕ)
      → 0 < count q ps1
      → (h1.bins q).taken ≡ true
      → (0 < count q ps) × ((h.bins q).taken ≡ true)

pub Ready-after :
    (h : Heap) (ps : List ℕ) (h1 : Heap) (ps1 : List ℕ) (r : ℕ) (out : ℕ × Heap)
    → Carries h ps h1 ps1
    → Ready h1 ps1 r out
    → Ready h ps r out
Ready-after h ps h1 ps1 r out c rd = record {
  ps1 = rd.ps1;
  es1 = rd.es1;
  whole = rd.whole;
  listed = rd.listed;
  free = rd.free;
  enough = rd.enough;
  header = rd.header;
  was_free = λ b. elim (Bool-cases (h.bins out.0).taken) [
    | inr f ↦ f
    | inl t ↦
        absurd (true_ne_false (sym ((c.same out.0 b t).1 ∙ t) ∙ rd.was_free (c.listed out.0 b)))
  ];
  kept = λ q b t.
      let s = c.same q b t in
      let k = rd.kept q (c.listed q b) (s.1 ∙ t) in (k.0, (k.1.0 ∙ s.0, k.1.1 ∙ s.1, k.1.2 ∙ s.2));
  no_more = λ q b t. let n = rd.no_more q b t in c.no_more q n.0 n.1;
}

pub append_bin_zero : (h : Heap) → append_bin 0 h ≡ (0, h)
unfolding append_bin
append_bin_zero h = ground arith

pub append_bin_high : (r : ℕ) (h : Heap) → (append_bin r h).1.bin_hiaddr ≤ h.bin_hiaddr + 16
unfolding append_bin
append_bin_high r h = ground arith
