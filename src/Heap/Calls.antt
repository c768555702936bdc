-- ===== src/Heap/Calls.antt =====
-- The heap of module/heap/main.c over time: `heap_init`, and then any calls of `kalloc` and `kfree`.
use modit_micro.Base.{
  ==-self, ℕ, zero, suc, ◌<◌, ◌≡◌, ◌≢◌, ◌⊎◌, inl, inr, ◌∙◌, refl, sym, subst, ap, arith, some, none,
  List, [], ◌∷◌, ==-cases, true_ne_false, length,
}
use modit_micro.Heap.{Bin, Heap, kalloc, kfree, heap_init}
use modit_micro.Heap.Links.{count}
use modit_micro.Heap.Tiles.{IsHeap}
use modit_micro.Heap.Kalloc.{HasRoom, kalloc-Allocated}
use modit_micro.Heap.Merge.{measure}
use modit_micro.Heap.Kfree.{kfree-Freed, kfree_unknown}

-- `heap_init` makes a heap of one free page.
pub heap_init-IsHeap :
    (pg : ℕ) (memory : ℕ → Bin) → pg ≢ 0 → IsHeap (heap_init pg memory) (pg ∷ []) []
unfolding heap_init
heap_init-IsHeap pg memory nz = record {
  linked = record {
    chain = (rw (==-self pg) refl, rw (==-self pg) refl, tt);
    empties = refl;
    head = refl;
    tail = refl;
    once = λ q. ground arith;
    null = ground arith;
    below = λ q b. ground arith;
  };
  tiles = (rw (==-self pg) refl, rw (==-self pg) (omega arith), tt);
  room = rw (==-self pg) (omega arith);
}

-- The fuel is enough for every list of bins that the heap can have.
abbrev pub Enough : ℕ → Heap → Type 0
Enough fuel h = (ps es : List ℕ) → IsHeap h ps es → measure ps es < fuel

abbrev pub Room : ℕ → Heap → Type 0
Room s h = (ps es : List ℕ) → IsHeap h ps es → HasRoom s h ps

-- The heaps that calls lead to, when the memory does not run out.
pub data Reach (pg : ℕ) (memory : ℕ → Bin) : Heap → Type 0 where
  start : Reach pg memory (heap_init pg memory)
  allocated :
      (fuel s a : ℕ) (h h' : Heap)
      → Reach pg memory h
      → Enough fuel h
      → Room s h
      → kalloc fuel s h ≡ some (a, h')
      → Reach pg memory h'
  freed :
      (fuel a : ℕ) (h h' : Heap)
      → Reach pg memory h
      → Enough fuel h
      → kfree fuel a h ≡ some h'
      → Reach pg memory h'

-- A well-formed heap with at least one bin.
abbrev pub Sound : Heap → Type 0
Sound h = (ps : List ℕ) × (es : List ℕ) × IsHeap h ps es × (ps ≢ [])

some-injective {ℓ} : {A : Type ℓ} {a b : A} → some a ≡ some b → a ≡ b
some-injective {A} {a} e = ap (λ o. elim o [ none ↦ a | some c ↦ c ]) e

listed_not_empty : (q : ℕ) (ps : List ℕ) → 0 < count q ps → ps ≢ []
listed_not_empty q [] c e = absurd (omega arith)
listed_not_empty q (p ∷ ps) c e = absurd (ground arith)

measure-length : (ps es : List ℕ) (fuel : ℕ) → measure ps es < fuel → length ps < fuel
measure-length ps es fuel f = omega arith

kalloc-Sound :
    (fuel s a : ℕ) (h h' : Heap)
    → Sound h
    → Enough fuel h
    → Room s h
    → kalloc fuel s h ≡ some (a, h')
    → Sound h'
unfolding kalloc
kalloc-Sound fuel zero a h h' w en room e = subst Sound (ap (λ t. t.1) (some-injective e)) w
kalloc-Sound fuel (suc s) a h h' (ps, es, w, ne) en room e =
    let r =
      kalloc-Allocated fuel (suc s) h ps es w ne (omega arith) (room ps es w)
        (measure-length ps es fuel (en ps es w)) in
    let same : r.heap ≡ h' = ap (λ t. t.1) (some-injective (sym r.done ∙ e)) in
    subst Sound same (r.ps', r.es', r.whole, listed_not_empty r.bin r.ps' r.listed)

-- The address is some bin's, or none's.
find_start :
    (a : ℕ) (f : ℕ → Bin) (ps : List ℕ)
    → ((q : ℕ) × (0 < count q ps) × ((f q).addr ≡ a)) ⊎ ((p : ℕ) → 0 < count p ps → (f p).addr ≢ a)
find_start a f [] = inr (λ p b e. omega arith)
find_start a f (p ∷ ps) = elim (==-cases (f p).addr a) [
  | inl e ↦ inl (p, ground arith, e)
  | inr ne ↦ elim (find_start a f ps) [
    | inl (q, c, e) ↦ inl (q, ground arith, e)
    | inr missing ↦ inr (λ q b e. elim (==-cases p q) [
      | inl pq ↦ true_ne_false (sym (rw (pq, e) (==-self a)) ∙ ne)
      | inr pq ↦ missing q (ground arith) e
    ])
  ]
]

kfree-Sound :
    (fuel a : ℕ) (h h' : Heap) → Sound h → Enough fuel h → kfree fuel a h ≡ some h' → Sound h'
kfree-Sound fuel a h h' (ps, es, w, ne) en e = elim (find_start a h.bins ps) [
  | inl (q, c, at) ↦
      (let r = kfree-Freed fuel h ps es q w c (en ps es w) in
        let e' : kfree fuel (h.bins q).addr h ≡ some h' =
          subst (λ t. kfree fuel t h ≡ some h') (sym at) e in
        subst Sound (some-injective (sym r.done ∙ e'))
          (r.ps', r.es', r.whole, listed_not_empty q r.ps' r.listed))
  | inr missing ↦
      (let same = some-injective (
          sym (kfree_unknown fuel a h ps es w missing (measure-length ps es fuel (en ps es w)))
          ∙ e) in
        subst Sound same (ps, es, w, ne))
]

-- Whatever calls of `kalloc` and `kfree` follow on `heap_init`, as long as the memory does not run out,
-- the heap stays well formed: its bins are one doubly linked list and tile the memory.
pub Reach-Sound : (pg : ℕ) (memory : ℕ → Bin) (h : Heap) → pg ≢ 0 → Reach pg memory h → Sound h
Reach-Sound pg memory _ nz start =
    (pg ∷ [], [], heap_init-IsHeap pg memory nz, λ e. absurd (ground arith))
Reach-Sound pg memory _ nz (allocated fuel s a h h' r en room e) =
    kalloc-Sound fuel s a h h' (Reach-Sound pg memory h nz r) en room e
Reach-Sound pg memory _ nz (freed fuel a h h' r en e) =
    kfree-Sound fuel a h h' (Reach-Sound pg memory h nz r) en e
