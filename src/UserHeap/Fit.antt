-- ===== src/UserHeap/Fit.antt =====
-- The search of lib/libc/stdlib/heap.c for the smallest free bin that is large enough.
use modit_micro.Base.{
  ==-false, ℕ, zero, suc, ◌≤◌, ◌<◌, ◌≡◌, ◌≢◌, refl, sym, subst, arith, Bool, true, false, ◌||◌,
  some, ◌==◌, List, [], ◌∷◌, length, ==-cases, Bool-cases, inl, inr,
}
use modit_micro.UserHeap.{Bin, Heap, bin_taken, bin_size, fits_better, best_fit_from, find_best_fit}

abbrev pub within : ℕ → List ℕ → Bool
within q [] = false
within q (p ∷ ps) = q == p || within q ps

-- From `p` the `next` pointers lead through the bins `ps` to NULL.
abbrev pub Leads : (ℕ → Bin) → ℕ → List ℕ → Type 0
Leads f p [] = p ≡ 0
Leads f p (q ∷ ps) = (p ≡ q) × (q ≢ 0) × Leads f (f q).next ps

-- The bin is free and has room for `s` bytes.
abbrev pub Fits : ℕ → Bin → Type 0
Fits s b = (bin_taken b.flags ≡ false) × (s ≤ bin_size b.flags)

-- What the search answers from the bins `ps` and the best fit `best` so far.
pub record BestOf (s : ℕ) (f : ℕ → Bin) (best : ℕ) (ps : List ℕ) (r : ℕ) : Type 0 where
  pub fits : r ≢ 0 → Fits s (f r)
  pub from : r ≢ best → within r ps ≡ true
  pub kept : best ≢ 0 → (r ≢ 0) × (bin_size (f r).flags ≤ bin_size (f best).flags)
  pub least :
      (q : ℕ)
      → within q ps ≡ true
      → Fits s (f q)
      → (r ≢ 0) × (bin_size (f r).flags ≤ bin_size (f q).flags)

better-Fits :
    (s p best : ℕ) (h : Heap)
    → fits_better s p best h ≡ true
    → Fits s (h.bins p) × (best ≢ 0 → bin_size (h.bins p).flags ≤ bin_size (h.bins best).flags)
unfolding fits_better
better-Fits s p best h e = ground arith

worse-Fits :
    (s p best : ℕ) (h : Heap)
    → fits_better s p best h ≡ false
    → Fits s (h.bins p)
    → (best ≢ 0 → Fits s (h.bins best))
    → (best ≢ 0) × (bin_size (h.bins best).flags ≤ bin_size (h.bins p).flags)
unfolding fits_better
worse-Fits s p best h e ft bf = ground arith

module _ (s p best : ℕ) (h : Heap) (ps : List ℕ) (r : ℕ) where
  BestOf-taken :
      p ≢ 0
      → fits_better s p best h ≡ true
      → BestOf s h.bins p ps r
      → BestOf s h.bins best (p ∷ ps) r
  BestOf-taken nz e b =
      let f = better-Fits s p best h e in
      let k = b.kept nz in
      record {
        fits = b.fits;
        from = λ ne. ground (arith, b.from);
        kept = λ bz. (k.0, omega (arith, f.1 bz, k.1));
        least = λ q c fq. elim (==-cases p q) [
          | inl eq ↦
              subst (λ t. (r ≢ 0) × (bin_size (h.bins r).flags ≤ bin_size (h.bins t).flags)) eq k
          | inr ne ↦ b.least q (ground arith) fq
        ];
      }

  BestOf-passed :
      (best ≢ 0 → Fits s (h.bins best))
      → fits_better s p best h ≡ false
      → BestOf s h.bins best ps r
      → BestOf s h.bins best (p ∷ ps) r
  BestOf-passed bf e b = record {
    fits = b.fits;
    from = λ ne. ground (arith, b.from ne);
    kept = b.kept;
    least = λ q c fq. elim (==-cases p q) [
      | inl eq ↦
          (let w = worse-Fits s p best h e (subst (λ t. Fits s (h.bins t)) (sym eq) fq) bf in
            let k = b.kept w.0 in
            subst (λ t. (r ≢ 0) × (bin_size (h.bins r).flags ≤ bin_size (h.bins t).flags)) eq
              (k.0, omega (arith, w.1, k.1)))
      | inr ne ↦ b.least q (ground arith) fq
    ];
  }

best_fit_from-BestOf :
    (fuel s p best : ℕ) (h : Heap) (ps : List ℕ)
    → Leads h.bins p ps
    → (best ≢ 0 → Fits s (h.bins best))
    → length ps < fuel
    → (r : ℕ) × (best_fit_from fuel s p best h ≡ some r) × BestOf s h.bins best ps r
unfolding best_fit_from
best_fit_from-BestOf zero s p best h ps g bf f = absurd (omega arith)
best_fit_from-BestOf (suc fuel) s p best h [] g bf f = (
  best,
  rw g refl,
  record {
    fits = bf;
    from = λ ne. absurd (ne refl);
    kept = λ nz. (nz, omega arith);
    least = λ q c fq. absurd (ground (arith, c));
  },
)
best_fit_from-BestOf (suc fuel) s p best h (q ∷ ps) g bf f =
    elim (Bool-cases (fits_better s q best h)) [
      | inl e ↦
          (let (r, done, b) =
              best_fit_from-BestOf fuel s (h.bins q).next q h ps g.2
                (λ n. (better-Fits s q best h e).0) (omega arith) in
            (r, rw (g.0, ==-false g.1, e) done, BestOf-taken s q best h ps r g.1 e b))
      | inr e ↦
          (let (r, done, b) =
              best_fit_from-BestOf fuel s (h.bins q).next best h ps g.2 bf (omega arith) in
            (r, rw (g.0, ==-false g.1, e) done, BestOf-passed s q best h ps r bf e b))
    ]

-- With more fuel than there are bins, `find_best_fit` answers the smallest free bin of the list that
-- has room for `s` bytes, and NULL only when there is none.
pub find_best_fit-BestOf :
    (fuel s : ℕ) (h : Heap) (ps : List ℕ)
    → Leads h.bins h.bin_head ps
    → length ps < fuel
    → (r : ℕ) × (find_best_fit fuel s h ≡ some r) × BestOf s h.bins 0 ps r
unfolding find_best_fit
find_best_fit-BestOf fuel s h ps g f =
    best_fit_from-BestOf fuel s h.bin_head 0 h ps g (λ nz. absurd (nz refl)) f
