-- ===== src/Heap/Merge.antt =====
-- Two free neighbours of module/heap/main.c become one bin: what each merge of `merge_bin` does to a
-- well-formed heap.
use modit_micro.Base.{
  ==-self, ==-false, ℕ, suc, ◌+◌, ◌*◌, ◌≤◌, ◌<◌, ◌≡◌, ◌≢◌, ◌⊎◌, inl, inr, ◌∙◌, refl, sym, subst, ap,
  arith, true, false, List, [], ◌∷◌, ◌++◌, ◌==◌, if◌then◌else◌, true_ne_false, length,
  length-append,
}
use modit_micro.Heap.{Heap, bin_start}
use modit_micro.Heap.Links.{count, count-append}
use modit_micro.Heap.Bins.{IsLinked, SameBlock}
use modit_micro.Heap.Tiles.{
  end_of, Tiles, IsHeap, Tiles-split, Tiles-frame, Tiles-replace, end_of-replace, end_of-append,
  end_of-frame,
}

-- How often the one-element list of `a` has `q`.
abbrev at : ℕ → ℕ → ℕ
at a q = if a == q then 1 else 0

at_ne : (a q : ℕ) → a ≢ q → at a q ≡ 0
at_ne a q ne = rw (==-false ne) refl

at_self : (a : ℕ) → at a a ≡ 1
at_self a = rw (==-self a) refl

-- Twice the bins and once the empty headers: every merge makes it smaller.
abbrev pub measure : List ℕ → List ℕ → ℕ
measure ps es = 2 * length ps + length es

-- The heap `g` after some free bins of `h` were merged into the free bin `p`.
pub record Merged (h : Heap) (ps es : List ℕ) (p : ℕ) (g : Heap) : Type 0 where
  pub ps' : List ℕ
  pub es' : List ℕ
  pub whole : IsHeap g ps' es'
  pub listed : 0 < count p ps'
  pub kept :
      (q : ℕ)
      → 0 < count q ps
      → (h.bins q).taken ≡ true
      → (0 < count q ps') × SameBlock (g.bins q) (h.bins q)
  pub no_new : (q : ℕ) → 0 < count q ps' → 0 < count q ps
  pub marks : (q : ℕ) → (g.bins q).taken ≡ (h.bins q).taken
  pub starts : (g.bins p).addr ≤ (h.bins p).addr
  pub ends : (h.bins p).addr + (h.bins p).size ≤ (g.bins p).addr + (g.bins p).size
  pub smaller : measure ps' es' ≤ measure ps es

pub Merged-refl :
    (h : Heap) (ps es : List ℕ) (p : ℕ) → IsHeap h ps es → 0 < count p ps → Merged h ps es p h
Merged-refl h ps es p w c = record {
  ps' = ps;
  es' = es;
  whole = w;
  listed = c;
  kept = λ q b t. (b, (refl, refl, refl));
  no_new = λ q b. b;
  marks = λ q. refl;
  starts = omega arith;
  ends = omega arith;
  smaller = omega arith;
}

pub Merged-trans :
    (h : Heap) (ps es : List ℕ) (p : ℕ) (g k : Heap)
    → (a : Merged h ps es p g) → Merged g a.ps' a.es' p k
    → Merged h ps es p k
Merged-trans h ps es p g k a b = record {
  ps' = b.ps';
  es' = b.es';
  whole = b.whole;
  listed = b.listed;
  kept = λ q c t.
      let u = a.kept q c t in
      let v = b.kept q u.0 (a.marks q ∙ t) in (v.0, (v.1.0 ∙ u.1.0, v.1.1 ∙ u.1.1, v.1.2 ∙ u.1.2));
  no_new = λ q c. a.no_new q (b.no_new q c);
  marks = λ q. b.marks q ∙ a.marks q;
  starts = omega (arith, a.starts, b.starts);
  ends = omega (arith, a.ends, b.ends);
  smaller = omega (arith, a.smaller, b.smaller);
}

-- The neighbours `p` and `n`, both free.
module _ (h : Heap) (xs : List ℕ) (p n : ℕ) (ys es : List ℕ)
    (w : IsHeap h (xs ++ p ∷ n ∷ ys) es) where
  pair_count :
      (q : ℕ)
      → count q (xs ++ p ∷ n ∷ ys)
        ≡ count q xs + (if p == q then 1 else 0) + (if n == q then 1 else 0) + count q ys
  pair_count q = omega (arith, count-append q xs (p ∷ n ∷ ys))

  pair_once :
      (q : ℕ) → count q xs + (if p == q then 1 else 0) + (if n == q then 1 else 0) + count q ys ≤ 1
  pair_once q = omega (arith, pair_count q, w.linked.once q)

  pub pair_ne : p ≢ n
  pair_ne = ground (arith, pair_once p)

  pub pair_apart : (q : ℕ) → 0 < count q xs + count q ys → (p ≢ q) × (n ≢ q)
  pair_apart q b = (ground (arith, pair_once q), ground (arith, pair_once q))

  pair-Tiles : Tiles h.bins bin_start xs × Tiles h.bins (end_of h.bins bin_start xs) (p ∷ n ∷ ys)
  pair-Tiles = Tiles-split h.bins bin_start xs (p ∷ n ∷ ys) w.tiles

  -- The second of the two begins where the first one ends.
  pub pair_meets : ((h.bins n).addr ≡ (h.bins p).addr + (h.bins p).size) × (0 < (h.bins p).size)
  pair_meets = go pair-Tiles
    where
      go :
          Tiles h.bins bin_start xs × Tiles h.bins (end_of h.bins bin_start xs) (p ∷ n ∷ ys)
          → ((h.bins n).addr ≡ (h.bins p).addr + (h.bins p).size) × (0 < (h.bins p).size)
      go (t, u) = (omega arith, u.1)

  -- `r`, one of the two, has the memory of both in `g`, and `d` is an empty header.
  module _ (r d : ℕ) (g : Heap) (rin : (r ≡ p) ⊎ (r ≡ n))
      (l : IsLinked g (xs ++ r ∷ ys) (es ++ d ∷ [])) (addr : (g.bins r).addr ≡ (h.bins p).addr)
      (size : (g.bins r).size ≡ (h.bins p).size + (h.bins n).size)
      (others : (q : ℕ) → r ≢ q → SameBlock (g.bins q) (h.bins q)) where
    fused_side : (q : ℕ) → 0 < count q xs + count q ys → SameBlock (g.bins q) (h.bins q)
    fused_side q b =
        others q (elim rin [ inl e ↦ rw e (pair_apart q b).0 | inr e ↦ rw e (pair_apart q b).1 ])

    fused-Tiles :
        Tiles g.bins bin_start (xs ++ r ∷ ys)
        × (end_of g.bins bin_start (xs ++ r ∷ ys) ≡ end_of h.bins bin_start (xs ++ p ∷ n ∷ ys))
    fused-Tiles =
        let (t, u) = pair-Tiles in
        let sx = λ (q : ℕ) (b : 0 < count q xs). fused_side q (omega arith) in
        let sy = λ (q : ℕ) (b : 0 < count q ys). fused_side q (omega arith) in
        let b = end_of h.bins bin_start xs in
        let eq : b + (h.bins p).size + (h.bins n).size ≡ b + (g.bins r).size = omega arith in
        (
          Tiles-replace h.bins g.bins bin_start xs (r ∷ ys) sx t (
            addr ∙ u.0,
            omega (arith, u.1),
            subst (λ e. Tiles g.bins e ys) eq
                (Tiles-frame h.bins g.bins (b + (h.bins p).size + (h.bins n).size) ys sy u.2.2),
          ),
          end_of-replace h.bins g.bins bin_start xs (r ∷ ys) sx
              ∙ sym (ap (λ e. end_of g.bins e ys) eq)
              ∙ end_of-frame h.bins g.bins (b + (h.bins p).size + (h.bins n).size) ys sy
              ∙ sym (end_of-append h.bins bin_start xs (p ∷ n ∷ ys)),
        )

    fused_listed :
        (q : ℕ) → count q (xs ++ r ∷ ys) ≡ count q xs + (if r == q then 1 else 0) + count q ys
    fused_listed q = omega (arith, count-append q xs (r ∷ ys))

    fused_no_new : (q : ℕ) → 0 < count q (xs ++ r ∷ ys) → 0 < count q (xs ++ p ∷ n ∷ ys)
    fused_no_new q b = elim rin [
      | inl e ↦ omega (arith, pair_count q, fused_listed q, ap (λ t. at t q) e)
      | inr e ↦ omega (arith, pair_count q, fused_listed q, ap (λ t. at t q) e)
    ]

    fused_kept :
        (q : ℕ) → p ≢ q → n ≢ q → 0 < count q (xs ++ p ∷ n ∷ ys) → 0 < count q (xs ++ r ∷ ys)
    fused_kept q pq nq b =
        let pz = at_ne p q pq in
        let nz = at_ne n q nq in omega (arith, pair_count q, fused_listed q)

    fused_smaller : suc (measure (xs ++ r ∷ ys) (es ++ d ∷ [])) ≤ measure (xs ++ p ∷ n ∷ ys) es
    fused_smaller =
        omega (
          arith,
          length-append xs (r ∷ ys),
          length-append xs (p ∷ n ∷ ys),
          length-append es (d ∷ []),
        )

    r_listed : 0 < count r (xs ++ r ∷ ys)
    r_listed = let one = at_self r in omega (arith, fused_listed r)

    fused_within :
        ((h.bins p).addr ≤ (h.bins r).addr)
        × ((h.bins r).addr + (h.bins r).size
            ≤ (h.bins p).addr + ((h.bins p).size + (h.bins n).size))
    fused_within = elim rin [
      | inl e ↦ rw e (omega arith, omega arith)
      | inr e ↦ rw (e, pair_meets.0) (omega arith, omega arith)
    ]

    pub fused-Merged :
        (h.bins p).taken ≡ false
        → (h.bins n).taken ≡ false
        → ((q : ℕ) → (g.bins q).taken ≡ (h.bins q).taken)
        → (m : Merged h (xs ++ p ∷ n ∷ ys) es r g) × (suc (measure m.ps' m.es')
            ≤ measure (xs ++ p ∷ n ∷ ys) es)
    fused-Merged fp fn marks =
        let apart : (u q : ℕ) → (h.bins u).taken ≡ false → (h.bins q).taken ≡ true → u ≢ q =
          λ u q f t e. true_ne_false (sym t ∙ subst (λ x. (h.bins x).taken ≡ false) e f) in
        let fr : (h.bins r).taken ≡ false = elim rin [ inl e ↦ rw e fp | inr e ↦ rw e fn ] in
        (
          record {
            ps' = xs ++ r ∷ ys;
            es' = es ++ d ∷ [];
            whole = record { linked = l; tiles = fused-Tiles.0; room = rw fused-Tiles.1 w.room };
            listed = r_listed;
            kept = λ q c t.
                (fused_kept q (apart p q fp t) (apart n q fn t) c, others q (apart r q fr t));
            no_new = fused_no_new;
            marks = marks;
            starts = omega (arith, fused_within.0);
            ends = omega (arith, fused_within.1);
            smaller = omega (arith, fused_smaller);
          },
          fused_smaller,
        )
