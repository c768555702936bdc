-- ===== src/Heap/Unique.antt =====
-- The lists of a heap of module/heap/main.c are determined by its headers.
use modit_micro.Base.{ℕ, ◌≡◌, ◌≢◌, ◌∙◌, refl, sym, subst, ap, arith, List, [], ◌∷◌}
use modit_micro.Heap.{Bin, Heap}
use modit_micro.Heap.Links.{count, first, Seg, Chain}
use modit_micro.Heap.Tiles.{IsHeap}

first_ne_null : (p : ℕ) (ps : List ℕ) → count 0 (p ∷ ps) ≡ 0 → p ≢ 0
first_ne_null p ps z = ground arith

rest_ne_null : (p : ℕ) (ps : List ℕ) → count 0 (p ∷ ps) ≡ 0 → count 0 ps ≡ 0
rest_ne_null p ps z = omega arith

Seg-unique :
    (f : ℕ → Bin) (b c : ℕ) (ps qs : List ℕ)
    → Seg f b ps 0
    → Seg f c qs 0
    → count 0 ps ≡ 0
    → count 0 qs ≡ 0
    → first ps 0 ≡ first qs 0
    → ps ≡ qs
Seg-unique f b c [] [] s t y z e = refl
Seg-unique f b c [] (q ∷ qs) s t y z e = absurd (first_ne_null q qs z (sym e))
Seg-unique f b c (p ∷ ps) [] s t y z e = absurd (first_ne_null p ps y e)
Seg-unique f b c (p ∷ ps) (q ∷ qs) s t y z e =
    let next : first ps 0 ≡ first qs 0 = sym s.1 ∙ ap (λ r. (f r).next) e ∙ t.1 in
    let rest = Seg-unique f p q ps qs s.2 t.2 (rest_ne_null p ps y) (rest_ne_null q qs z) next in
    ap (λ r. r ∷ ps) e ∙ ap (λ r. q ∷ r) rest

Chain-unique : (f : ℕ → Bin) (p : ℕ) (es ds : List ℕ) → Chain f p es → Chain f p ds → es ≡ ds
Chain-unique f p [] [] c d = refl
Chain-unique f p [] (e ∷ ds) c d = absurd (d.1 c)
Chain-unique f p (e ∷ es) [] c d = absurd (c.1 d)
Chain-unique f p (e ∷ es) (d ∷ ds) c k =
    let same : e ≡ d = sym c.0 ∙ k.0 in
    let rest =
      Chain-unique f (f e).next es ds c.2 (subst (λ r. Chain f (f r).next ds) (sym same) k.2) in
    ap (λ r. r ∷ es) same ∙ ap (λ r. d ∷ r) rest

pub IsHeap-unique :
    (h : Heap) (ps es qs ds : List ℕ) → IsHeap h ps es → IsHeap h qs ds → (ps ≡ qs) × (es ≡ ds)
IsHeap-unique h ps es qs ds w v =
    let a = w.linked in
    let b = v.linked in
    (
      Seg-unique h.bins 0 0 ps qs a.chain b.chain (omega (arith, a.null)) (omega (arith, b.null))
          (sym a.head ∙ b.head),
      Chain-unique h.bins h.empty_head es ds a.empties b.empties,
    )
