-- ===== src/Heap/Fit.antt =====
-- The search of module/heap/main.c for the smallest free bin that is large enough.
use modit_micro.Base.{
  ==-false, ℕ, zero, suc, ◌≤◌, ◌<◌, ◌≡◌, ◌≢◌, refl, sym, subst, ap, ◌∙◌, arith, true, false, some,
  List, [], ◌∷◌, length, ==-cases, Bool-cases, inl, inr,
}
use modit_micro.Heap.{Bin, Heap, fits_better, best_fit_from, find_best_fit}
use modit_micro.Heap.Links.{count, first, Seg}
use modit_micro.Heap.Bins.{IsLinked}

-- The bin is free and has room for `s` bytes.
abbrev pub Fits : ℕ → Bin → Type 0
Fits s b = (b.taken ≡ false) × (s ≤ b.size)

-- What the search answers from the bins `ps` and the best fit `best` so far.
pub record BestOf (s : ℕ) (f : ℕ → Bin) (best : ℕ) (ps : List ℕ) (r : ℕ) : Type 0 where
  pub fits : r ≢ 0 → Fits s (f r)
  pub from : r ≢ best → 0 < count r ps
  pub kept : best ≢ 0 → (r ≢ 0) × ((f r).size ≤ (f best).size)
  pub least : (q : ℕ) → 0 < count q ps → Fits s (f q) → (r ≢ 0) × ((f r).size ≤ (f q).size)

better-Fits :
    (s p best : ℕ) (h : Heap)
    → fits_better s p best h ≡ true
    → Fits s (h.bins p) × (best ≢ 0 → (h.bins p).size ≤ (h.bins best).size)
unfolding fits_better
better-Fits s p best h e = ground arith

worse-Fits :
    (s p best : ℕ) (h : Heap)
    → fits_better s p best h ≡ false
    → Fits s (h.bins p)
    → (best ≢ 0 → Fits s (h.bins best))
    → (best ≢ 0) × ((h.bins best).size ≤ (h.bins p).size)
unfolding fits_better
worse-Fits s p best h e ft bf = ground arith

module _ (s p best : ℕ) (h : Heap) (ps : List ℕ) (r : ℕ) where
  BestOf-taken :
      p ≢ 0
      → fits_better s p best h ≡ true
      → BestOf s h.bins p ps r
      → BestOf s h.bins best (p ∷ ps) r
  BestOf-taken nz e b =
      let f = better-Fits s p best h e in
      let k = b.kept nz in
      record {
        fits = b.fits;
        from = λ ne. ground (arith, b.from);
        kept = λ bz. (k.0, omega (arith, f.1 bz, k.1));
        least = λ q c fq. elim (==-cases p q) [
          | inl eq ↦ subst (λ t. (r ≢ 0) × ((h.bins r).size ≤ (h.bins t).size)) eq k
          | inr ne ↦ b.least q (ground arith) fq
        ];
      }

  BestOf-passed :
      (best ≢ 0 → Fits s (h.bins best))
      → fits_better s p best h ≡ false
      → BestOf s h.bins best ps r
      → BestOf s h.bins best (p ∷ ps) r
  BestOf-passed bf e b = record {
    fits = b.fits;
    from = λ ne. ground (arith, b.from ne);
    kept = b.kept;
    least = λ q c fq. elim (==-cases p q) [
      | inl eq ↦
          (let fp : Fits s (h.bins p) = subst (λ t. Fits s (h.bins t)) (sym eq) fq in
            let w = worse-Fits s p best h e fp bf in
            let k = b.kept w.0 in
            subst (λ t. (r ≢ 0) × ((h.bins r).size ≤ (h.bins t).size)) eq
              (k.0, omega (arith, w.1, k.1)))
      | inr ne ↦ b.least q (ground arith) fq
    ];
  }

best_fit_from-BestOf :
    (fuel s best before : ℕ) (h : Heap) (ps : List ℕ)
    → Seg h.bins before ps 0
    → count 0 ps ≡ 0
    → (best ≢ 0 → Fits s (h.bins best))
    → length ps < fuel
    → (r : ℕ) × (best_fit_from fuel s (first ps 0) best h ≡ some r) × BestOf s h.bins best ps r
unfolding best_fit_from
best_fit_from-BestOf zero s best before h ps g z bf f = absurd (omega arith)
best_fit_from-BestOf (suc fuel) s best before h [] g z bf f = (
  best,
  refl,
  record {
    fits = bf;
    from = λ ne. absurd (ne refl);
    kept = λ nz. (nz, omega arith);
    least = λ q c fq. absurd (omega arith);
  },
)
best_fit_from-BestOf (suc fuel) s best before h (p ∷ ps) g z bf f =
    let nz : p ≢ 0 = ground arith in
    let z' : count 0 ps ≡ 0 = ground arith in
    elim (Bool-cases (fits_better s p best h)) [
      | inl e ↦
          (let (r, done, b) =
              best_fit_from-BestOf fuel s p p h ps g.2 z' (λ n. (better-Fits s p best h e).0)
                (omega arith) in
            (r, rw (==-false nz, g.1, e) done, BestOf-taken s p best h ps r nz e b))
      | inr e ↦
          (let (r, done, b) = best_fit_from-BestOf fuel s best p h ps g.2 z' bf (omega arith) in
            (r, rw (==-false nz, g.1, e) done, BestOf-passed s p best h ps r bf e b))
    ]

-- What `find_best_fit` answers: NULL when no free bin has room, and otherwise the smallest that has.
pub record Found (s : ℕ) (h : Heap) (ps : List ℕ) (r : ℕ) : Type 0 where
  pub free : r ≢ 0 → Fits s (h.bins r)
  pub listed : r ≢ 0 → 0 < count r ps
  pub least :
      (q : ℕ) → 0 < count q ps → Fits s (h.bins q) → (r ≢ 0) × ((h.bins r).size ≤ (h.bins q).size)

-- With more fuel than there are bins, `find_best_fit` answers the smallest free bin of the list that
-- has room for `s` bytes, and NULL only when there is none.
pub find_best_fit-Found :
    (fuel s : ℕ) (h : Heap) (ps es : List ℕ)
    → IsLinked h ps es
    → length ps < fuel
    → (r : ℕ) × (find_best_fit fuel s h ≡ some r) × Found s h ps r
unfolding find_best_fit
find_best_fit-Found fuel s h ps es l f =
    let (r, done, b) =
      best_fit_from-BestOf fuel s 0 0 h ps l.chain (omega (arith, l.null)) (λ nz. absurd (nz refl))
        f in
    (
      r,
      ap (λ t. best_fit_from fuel s t 0 h) l.head ∙ done,
      record { free = b.fits; listed = b.from; least = b.least },
    )
