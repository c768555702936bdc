-- ===== src/Heap/Tiles.antt =====
-- The memory of the bins of module/heap/main.c: each bin begins where the one before it ends.
use modit_micro.Base.{
  ℕ, ◌+◌, ◌^◌, ◌≤◌, ◌<◌, ◌≡◌, ◌≢◌, ◌⊎◌, inl, inr, ◌∙◌, refl, subst, ap, arith, List, [], ◌∷◌, ◌++◌,
  ==-cases,
}
use modit_micro.Heap.{Bin, Heap, bin_start}
use modit_micro.Heap.Links.{count}
use modit_micro.Heap.Bins.{SameBlock, IsLinked}

-- The first address behind the bins `ps`, which begin at `a`.
abbrev pub end_of : (ℕ → Bin) → ℕ → List ℕ → ℕ
end_of f a [] = a
end_of f a (p ∷ ps) = end_of f (a + (f p).size) ps

abbrev pub Tiles : (ℕ → Bin) → ℕ → List ℕ → Type 0
Tiles f a [] = Unit {0}
Tiles f a (p ∷ ps) = ((f p).addr ≡ a) × (0 < (f p).size) × Tiles f (a + (f p).size) ps

-- A heap whose bins tile the memory from `bin_start` on, below 2^32.
pub record IsHeap (h : Heap) (ps es : List ℕ) : Type 0 where
  pub linked : IsLinked h ps es
  pub tiles : Tiles h.bins bin_start ps
  pub room : end_of h.bins bin_start ps < 2 ^ 32

pub end_of-append :
    (f : ℕ → Bin) (a : ℕ) (xs ys : List ℕ) → end_of f a (xs ++ ys) ≡ end_of f (end_of f a xs) ys
end_of-append f a [] ys = refl
end_of-append f a (x ∷ xs) ys = end_of-append f (a + (f x).size) xs ys

pub end_of_ge : (f : ℕ → Bin) (a : ℕ) (ps : List ℕ) → a ≤ end_of f a ps
end_of_ge f a [] = omega arith
end_of_ge f a (p ∷ ps) = omega (arith, end_of_ge f (a + (f p).size) ps)

pub Tiles-split :
    (f : ℕ → Bin) (a : ℕ) (xs ys : List ℕ)
    → Tiles f a (xs ++ ys)
    → Tiles f a xs × Tiles f (end_of f a xs) ys
Tiles-split f a [] ys t = (tt, t)
Tiles-split f a (x ∷ xs) ys t =
    let (u, v) = Tiles-split f (a + (f x).size) xs ys t.2 in ((t.0, t.1, u), v)

pub Tiles-join :
    (f : ℕ → Bin) (a : ℕ) (xs ys : List ℕ)
    → Tiles f a xs
    → Tiles f (end_of f a xs) ys
    → Tiles f a (xs ++ ys)
Tiles-join f a [] ys t u = u
Tiles-join f a (x ∷ xs) ys t u = (t.0, t.1, Tiles-join f (a + (f x).size) xs ys t.2 u)

module _ (f g : ℕ → Bin) where
  pub end_of-frame :
      (a : ℕ) (ps : List ℕ)
      → ((q : ℕ) → 0 < count q ps → SameBlock (g q) (f q))
      → end_of g a ps ≡ end_of f a ps
  end_of-frame a [] same = refl
  end_of-frame a (p ∷ ps) same =
      let here = same p (ground arith) in
      rw here.2 (end_of-frame (a + (f p).size) ps (λ q b. same q (ground arith)))

  pub Tiles-frame :
      (a : ℕ) (ps : List ℕ)
      → ((q : ℕ) → 0 < count q ps → SameBlock (g q) (f q))
      → Tiles f a ps
      → Tiles g a ps
  Tiles-frame a [] same t = tt
  Tiles-frame a (p ∷ ps) same t =
      let here = same p (ground arith) in
      (
        here.0 ∙ t.0,
        rw here.2 t.1,
        rw here.2 (Tiles-frame (a + (f p).size) ps (λ q b. same q (ground arith)) t.2),
      )

-- Where a bin of a tiled list lies.
pub tile_within :
    (f : ℕ → Bin) (a : ℕ) (ps : List ℕ) (q : ℕ)
    → 0 < count q ps
    → Tiles f a ps
    → (a ≤ (f q).addr) × (0 < (f q).size) × ((f q).addr + (f q).size ≤ end_of f a ps)
tile_within f a [] q b t = absurd (omega arith)
tile_within f a (p ∷ ps) q b t = elim (==-cases p q) [
  | inl e ↦
      subst
        (λ r.
          (a ≤ (f r).addr)
          × (0 < (f r).size)
          × ((f r).addr + (f r).size ≤ end_of f (a + (f p).size) ps))
        e (omega arith, t.1, omega (arith, end_of_ge f (a + (f p).size) ps))
  | inr ne ↦
      let c = tile_within f (a + (f p).size) ps q (ground arith) t.2 in (omega arith, c.1, c.2)
]

-- The memory of two bins does not meet.
abbrev pub Apart : Bin → Bin → Type 0
Apart a b = (a.addr + a.size ≤ b.addr) ⊎ (b.addr + b.size ≤ a.addr)

Tiles-Apart :
    (f : ℕ → Bin) (a : ℕ) (ps : List ℕ) (p q : ℕ)
    → Tiles f a ps
    → 0 < count p ps
    → 0 < count q ps
    → p ≢ q
    → Apart (f p) (f q)
Tiles-Apart f a [] p q t b c ne = absurd (omega arith)
Tiles-Apart f a (x ∷ xs) p q t b c ne = elim (==-cases x p) [
  | inl e ↦
      subst (λ r. Apart (f r) (f q)) e
        (let w = tile_within f (a + (f x).size) xs q (ground arith) t.2 in inl (omega arith))
  | inr np ↦ elim (==-cases x q) [
    | inl e ↦
        subst (λ r. Apart (f p) (f r)) e
          (let w = tile_within f (a + (f x).size) xs p (ground arith) t.2 in inr (omega arith))
    | inr nq ↦ Tiles-Apart f (a + (f x).size) xs p q t.2 (ground arith) (ground arith) ne
  ]
]

-- The blocks of two bins of a heap do not meet.
pub IsHeap-Apart :
    (h : Heap) (ps es : List ℕ) (p q : ℕ)
    → IsHeap h ps es
    → 0 < count p ps
    → 0 < count q ps
    → p ≢ q
    → Apart (h.bins p) (h.bins q)
IsHeap-Apart h ps es p q w b c ne = Tiles-Apart h.bins bin_start ps p q w.tiles b c ne

-- A bin of a list stands between the bins before it and the bins behind it.
abbrev pub Parts : ℕ → List ℕ → Type 0
Parts p ps = (xs : List ℕ) × (ys : List ℕ) × (ps ≡ xs ++ p ∷ ys)

pub parts : (p : ℕ) (ps : List ℕ) → 0 < count p ps → Parts p ps
parts p [] b = absurd (omega arith)
parts p (x ∷ xs) b = elim (==-cases x p) [
  | inl e ↦ ([], xs, ap (λ t. t ∷ xs) e)
  | inr ne ↦ (let (us, vs, e) = parts p xs (ground arith) in (x ∷ us, vs, ap (λ t. x ∷ t) e))
]

-- A list that is not empty has a last element.
pub unsnoc : (ps : List ℕ) → ps ≢ [] → (xs : List ℕ) × (p : ℕ) × (ps ≡ xs ++ p ∷ [])
unsnoc [] ne = absurd (ne refl)
unsnoc (x ∷ []) ne = ([], x, refl)
unsnoc (x ∷ y ∷ ys) ne =
    let (xs, p, e) = unsnoc (y ∷ ys) (λ c. absurd (ground arith)) in (x ∷ xs, p, ap (λ t. x ∷ t) e)

pub snoc_append : (xs : List ℕ) (p : ℕ) (us : List ℕ) → (xs ++ p ∷ []) ++ us ≡ xs ++ p ∷ us
snoc_append [] p us = refl
snoc_append (x ∷ xs) p us = ap (λ t. x ∷ t) (snoc_append xs p us)

-- The bins behind `xs` are exchanged for others.
module _ (f g : ℕ → Bin) (a : ℕ) (xs vs : List ℕ)
    (same : (q : ℕ) → 0 < count q xs → SameBlock (g q) (f q)) where
  pub Tiles-replace : Tiles f a xs → Tiles g (end_of f a xs) vs → Tiles g a (xs ++ vs)
  Tiles-replace t u =
      Tiles-join g a xs vs (Tiles-frame f g a xs same t) (rw (end_of-frame f g a xs same) u)

  pub end_of-replace : end_of g a (xs ++ vs) ≡ end_of g (end_of f a xs) vs
  end_of-replace = end_of-append g a xs vs ∙ ap (λ t. end_of g t vs) (end_of-frame f g a xs same)
