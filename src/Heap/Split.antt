-- ===== src/Heap/Split.antt =====
-- `split_bin` of module/heap/main.c: what a bin has beyond the wanted size becomes a free bin.
use modit_micro.Base.{
  ==-self, ==-false, ℕ, ◌+◌, ◌-◌, ◌%◌, ◌^◌, ◌≤◌, ◌<◌, ◌≡◌, ◌≢◌, inl, inr, ◌∙◌, refl, sym, subst, ap,
  arith, false, List, ◌∷◌, ◌++◌, ==-cases,
}
use modit_micro.Heap.{Bin, Heap, bin_start, set_size, add_bin, split_bin}
use modit_micro.Heap.Links.{count, count-append, IsSetOf, left_ne, right_ne}
use modit_micro.Heap.Bins.{IsLinked, IsLinked-IsSetOf, IsLinked-frame, SameBlock}
use modit_micro.Heap.Adding.{Added, add_bin-Added}
use modit_micro.Heap.Tiles.{
  end_of, Tiles, IsHeap, Tiles-split, Tiles-frame, Tiles-replace, end_of-replace, end_of-append,
  end_of-frame, tile_within,
}

-- The bin `p` of the list gave its memory to itself and to the bin `n` behind it.
module _ (f g : ℕ → Bin) (a : ℕ) (xs : List ℕ) (p n : ℕ) (ys : List ℕ)
    (set : IsSetOf (xs ++ p ∷ ys)) where
  divided_same :
      ((q : ℕ) → q ≢ p → 0 < count q (xs ++ p ∷ ys) → SameBlock (g q) (f q))
      → ((q : ℕ) → 0 < count q xs → SameBlock (g q) (f q))
        × ((q : ℕ) → 0 < count q ys → SameBlock (g q) (f q))
  divided_same same = (
    λ q b.
        same q (λ e. (left_ne xs p ys set q b).1 (sym e))
          (omega (arith, count-append q xs (p ∷ ys))),
    λ q b.
        same q (λ e. (right_ne xs p ys set q b).1 (sym e))
          (ground (arith, count-append q xs (p ∷ ys))),
  )

  pub Tiles-divided :
      ((q : ℕ) → q ≢ p → 0 < count q (xs ++ p ∷ ys) → SameBlock (g q) (f q))
      → (g p).addr ≡ (f p).addr
      → (g n).addr ≡ (f p).addr + (g p).size
      → 0 < (g p).size
      → 0 < (g n).size
      → (g p).size + (g n).size ≡ (f p).size
      → Tiles f a (xs ++ p ∷ ys)
      → Tiles g a (xs ++ p ∷ n ∷ ys) × (end_of g a (xs ++ p ∷ n ∷ ys) ≡ end_of f a (xs ++ p ∷ ys))
  Tiles-divided same pa na pz nz sum t =
      let (sx, sy) = divided_same same in
      let (tx, tp) = Tiles-split f a xs (p ∷ ys) t in
      let b = end_of f a xs in
      let eq : b + (f p).size ≡ b + (g p).size + (g n).size = omega arith in
      (
        Tiles-replace f g a xs (p ∷ n ∷ ys) sx tx (
          pa ∙ tp.0,
          pz,
          (
            omega arith,
            nz,
            subst (λ e. Tiles g e ys) eq (Tiles-frame f g (b + (f p).size) ys sy tp.2),
          ),
        ),
        end_of-replace f g a xs (p ∷ n ∷ ys) sx
            ∙ sym (ap (λ e. end_of g e ys) eq)
            ∙ end_of-frame f g (b + (f p).size) ys sy
            ∙ sym (end_of-append f a xs (p ∷ ys)),
      )

-- The heap after `split_bin`.
pub record Split (h : Heap) (ps : List ℕ) (p s : ℕ) (g : Heap) : Type 0 where
  pub ps' : List ℕ
  pub es' : List ℕ
  pub whole : IsHeap g ps' es'
  pub listed : (q : ℕ) → 0 < count q ps → 0 < count q ps'
  pub block :
      ((g.bins p).addr ≡ (h.bins p).addr)
      × ((g.bins p).size ≡ s)
      × ((g.bins p).taken ≡ (h.bins p).taken)
  pub others : (q : ℕ) → q ≢ p → 0 < count q ps → SameBlock (g.bins q) (h.bins q)
  pub new_free : (q : ℕ) → 0 < count q ps' → count q ps ≡ 0 → (g.bins q).taken ≡ false

split_bin_eq :
    (p s : ℕ) (h : Heap)
    → (h.bins p).size ≢ s
    → s ≤ (h.bins p).size
    → (h.bins p).size < 2 ^ 31
    → (h.bins p).addr + s < 2 ^ 32
    → split_bin p s h ≡ set_size p s (add_bin p ((h.bins p).addr + s) ((h.bins p).size - s) h).1
unfolding split_bin
split_bin_eq p s h ne le small room =
    let a : ((h.bins p).addr + s) % 2 ^ 32 ≡ (h.bins p).addr + s = omega arith in
    let b : ((h.bins p).size + 2 ^ 32 - s) % 2 ^ 32 ≡ (h.bins p).size - s = omega arith in
    rw (==-false ne, a, b) refl

-- A bin of the heap is smaller than 2^31 bytes.
pub bin_small :
    (h : Heap) (ps es : List ℕ) (p : ℕ)
    → IsHeap h ps es
    → 0 < count p ps
    → (bin_start ≤ (h.bins p).addr)
      × ((h.bins p).size < 2 ^ 31)
      × ((h.bins p).addr + (h.bins p).size < 2 ^ 32)
bin_small h ps es p w b =
    let t = tile_within h.bins bin_start ps p b w.tiles in
    (t.0, omega (arith, t, w.room), omega (arith, t, w.room))

-- `add_bin` and the new size, where there is something to split off.
module _ (h : Heap) (xs : List ℕ) (p : ℕ) (ys es : List ℕ) (s m : ℕ)
    (w : IsHeap h (xs ++ p ∷ ys) es) (out : ℕ × Heap)
    (added : Added h xs p ys ((h.bins p).addr + s) m out) where
  cut_other : (q : ℕ) → q ≢ p → (set_size p s out.1).bins q ≡ out.1.bins q
  cut_other q ne = rw (==-false {a = p} {b = q} (λ e. ne (sym e))) refl

  p_listed : 0 < count p (xs ++ p ∷ ys)
  p_listed = ground (arith, count-append p xs (p ∷ ys))

  p_ne_new : p ≢ out.0
  p_ne_new e = absurd (omega (arith, added.new, subst (λ t. 0 < count t (xs ++ p ∷ ys)) e p_listed))

  cut_block :
      s < 2 ^ 31
      → let b = (set_size p s out.1).bins p in
        (b.addr ≡ (h.bins p).addr) × (b.size ≡ s) × (b.taken ≡ (h.bins p).taken)
  cut_block small =
      let o = added.others p p_ne_new in
      let keep : s % 2 ^ 31 ≡ s = omega arith in (o.0, rw (==-self p) keep, o.1)

  cut_others :
      (q : ℕ)
      → q ≢ p
      → 0 < count q (xs ++ p ∷ ys)
      → SameBlock ((set_size p s out.1).bins q) (h.bins q)
  cut_others q ne b =
      let qn : q ≢ out.0 =
        λ e. absurd (omega (arith, added.new, subst (λ t. 0 < count t (xs ++ p ∷ ys)) e b)) in
      let o = added.others q qn in
      let c = ==-false {a = p} {b = q} (λ e. ne (sym e)) in (o.0, o.1, rw c o.2)

  cut_new :
      m < 2 ^ 31
      → let b = (set_size p s out.1).bins out.0 in
        (b.addr ≡ (h.bins p).addr + s) × (b.size ≡ m) × (b.taken ≡ false)
  cut_new small =
      let keep : m % 2 ^ 31 ≡ m = omega arith in
      let b = added.block in (b.0, rw (==-false p_ne_new) (b.1 ∙ keep), b.2)

  cut-IsLinked : IsLinked (set_size p s out.1) (xs ++ p ∷ out.0 ∷ ys) added.es
  cut-IsLinked =
      IsLinked-frame out.1 (set_size p s out.1) (xs ++ p ∷ out.0 ∷ ys) added.es
        (λ q b. (refl, refl)) refl refl refl (omega arith) added.linked

  cut_listed : (q : ℕ) → 0 < count q (xs ++ p ∷ ys) → 0 < count q (xs ++ p ∷ out.0 ∷ ys)
  cut_listed q b = ground (arith, count-append q xs (p ∷ ys), count-append q xs (p ∷ out.0 ∷ ys))

  cut_unlisted :
      (q : ℕ) → 0 < count q (xs ++ p ∷ out.0 ∷ ys) → count q (xs ++ p ∷ ys) ≡ 0 → out.0 ≡ q
  cut_unlisted q b z =
      ground (arith, count-append q xs (p ∷ ys), count-append q xs (p ∷ out.0 ∷ ys))

  cut-Split :
      0 < s → 0 < m → s + m ≡ (h.bins p).size → Split h (xs ++ p ∷ ys) p s (set_size p s out.1)
  cut-Split sp mp sum =
      let small = bin_small h (xs ++ p ∷ ys) es p w p_listed in
      let b = cut_block (omega (arith, small.1)) in
      let n = cut_new (omega (arith, small.1)) in
      let g = (set_size p s out.1).bins in
      let (t, e) =
        Tiles-divided h.bins g bin_start xs p out.0 ys (IsLinked-IsSetOf w.linked) cut_others b.0
          (omega (arith, n.0, b.1)) (omega (arith, b.1)) (omega (arith, n.1))
          (omega (arith, b.1, n.1)) w.tiles in
      record {
        ps' = xs ++ p ∷ out.0 ∷ ys;
        es' = added.es;
        whole = record { linked = cut-IsLinked; tiles = t; room = rw e w.room };
        listed = cut_listed;
        block = b;
        others = cut_others;
        new_free = λ q c z. subst (λ t. (g t).taken ≡ false) (cut_unlisted q c z) n.2;
      }

-- A bin of at least `s` bytes is cut to `s` bytes, and what is left of it becomes a free bin; the heap
-- is well formed as before, and no other bin changes.
pub split_bin-Split :
    (h : Heap) (xs : List ℕ) (p : ℕ) (ys es : List ℕ) (s : ℕ)
    → IsHeap h (xs ++ p ∷ ys) es
    → 0 < s
    → s ≤ (h.bins p).size
    → (s < (h.bins p).size → h.bin_hiaddr + 16 < 2 ^ 32)
    → Split h (xs ++ p ∷ ys) p s (split_bin p s h)
unfolding split_bin
split_bin-Split h xs p ys es s w pos le hi = elim (==-cases (h.bins p).size s) [
  | inl e ↦
      rw (e, ==-self s)
        (record {
          ps' = xs ++ p ∷ ys;
          es' = es;
          whole = w;
          listed = λ q b. b;
          block = (refl, e, refl);
          others = λ q ne b. (refl, refl, refl);
          new_free = λ q c z. absurd (omega arith);
        })
  | inr ne ↦
      (let small = bin_small h (xs ++ p ∷ ys) es p w (ground (arith, count-append p xs (p ∷ ys))) in
        let other : (h.bins p).size ≢ s = ground arith in
        let less : s < (h.bins p).size = omega arith in
        let m = (h.bins p).size - s in
        let added =
          add_bin-Added h xs p ys es ((h.bins p).addr + s) m w.linked (hi less)
            (omega (arith, small.0)) (omega arith) in
        subst (Split h (xs ++ p ∷ ys) p s)
          (sym (split_bin_eq p s h other le small.1 (omega (arith, small.2))))
          (cut-Split h xs p ys es s m w (add_bin p ((h.bins p).addr + s) m h) added pos
            (omega arith) (omega arith)))
]
