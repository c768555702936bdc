-- ===== src/Heap/Kfree.antt =====
-- `merge_bin` and `kfree` of module/heap/main.c on a well-formed heap.
use modit_micro.Base.{
  ==-self, ==-false, ℕ, zero, suc, ◌+◌, ◌≤◌, ◌<◌, ◌≡◌, ◌≢◌, inl, inr, ◌∙◌, refl, sym, subst, ap,
  arith, Bool, true, false, Option, some, List, [], ◌∷◌, ◌==◌, if◌then◌else◌, ==-cases,
  true_ne_false, length, Bool-cases,
}
use modit_micro.Heap.{
  Heap, bin_start, set_taken, merge_next, merge_prev, merge_bin, find_addr, kfree,
}
use modit_micro.Heap.Links.{count, first, Seg}
use modit_micro.Heap.Bins.{SameBlock}
use modit_micro.Heap.Tiles.{IsHeap, parts, IsHeap-Apart, tile_within}
use modit_micro.Heap.Kalloc.{set_taken-IsHeap}
use modit_micro.Heap.Merge.{Merged, Merged-refl, Merged-trans, measure}
use modit_micro.Heap.Halves.{Blocked, Half, next-Half, prev-Half, listed_ne_null}

listed_next-Half :
    (fuel : ℕ) (h : Heap) (ps es : List ℕ) (p : ℕ)
    → IsHeap h ps es
    → 0 < count p ps
    → (h.bins p).taken ≡ false
    → length es < fuel
    → Half h ps es p (h.bins p).next (merge_next fuel p h)
listed_next-Half fuel h ps es p w c fp f =
    let (xs, ys, e) = parts p ps c in
    subst (λ t. Half h t es p (h.bins p).next (merge_next fuel p h)) (sym e)
      (next-Half fuel h xs p ys es (subst (λ t. IsHeap h t es) e w) fp f)

listed_prev-Half :
    (fuel : ℕ) (h : Heap) (ps es : List ℕ) (p : ℕ)
    → IsHeap h ps es
    → 0 < count p ps
    → (h.bins p).taken ≡ false
    → length es < fuel
    → Half h ps es p (h.bins p).prev (merge_prev fuel p h)
listed_prev-Half fuel h ps es p w c fp f =
    let (xs, ys, e) = parts p ps c in
    subst (λ t. Half h t es p (h.bins p).prev (merge_prev fuel p h)) (sym e)
      (prev-Half fuel h xs p ys es (subst (λ t. IsHeap h t es) e w) fp f)

listed_length : (q : ℕ) (ps : List ℕ) → 0 < count q ps → 0 < length ps
listed_length q [] c = absurd (omega arith)
listed_length q (p ∷ ps) c = omega arith

-- What `merge_bin` leaves: neither neighbour of the bin is free.
pub record Coalesced (h : Heap) (ps es : List ℕ) (p : ℕ) (out : Option Heap) : Type 0 where
  pub heap : Heap
  pub done : out ≡ some heap
  pub merged : Merged h ps es p heap
  pub next_taken : Blocked heap (heap.bins p).next
  pub prev_taken : Blocked heap (heap.bins p).prev

Coalesced-after :
    (h : Heap) (ps es : List ℕ) (p : ℕ) (g : Heap) (out : Option Heap)
    → (a : Merged h ps es p g) → Coalesced g a.ps' a.es' p out
    → Coalesced h ps es p out
Coalesced-after h ps es p g out a c = record {
  heap = c.heap;
  done = c.done;
  merged = Merged-trans h ps es p g c.heap a c.merged;
  next_taken = c.next_taken;
  prev_taken = c.prev_taken;
}

-- A round whose two halves did nothing is the last one.
settled :
    (h : Heap) (ps es : List ℕ) (p : ℕ) (h1 h2 : Heap) (out : Option Heap)
    → IsHeap h ps es
    → 0 < count p ps
    → (h1 ≡ h) × Blocked h (h.bins p).next
    → (h2 ≡ h1) × Blocked h1 (h1.bins p).prev
    → out ≡ some h2
    → Coalesced h ps es p out
settled h ps es p h1 h2 out w c a b e = record {
  heap = h;
  done = e ∙ ap some (b.0 ∙ a.0);
  merged = Merged-refl h ps es p w c;
  next_taken = a.1;
  prev_taken = subst (λ k. Blocked k (k.bins p).prev) a.0 b.1;
}

merge_bin_eq :
    (fuel p : ℕ) (h h1 h2 : Heap) (a b : Bool)
    → merge_next fuel p h ≡ some (a, h1)
    → merge_prev fuel p h1 ≡ some (b, h2)
    → merge_bin (suc fuel) p h
      ≡ (if a then merge_bin fuel p h2 else if b then merge_bin fuel p h2 else some h2)
unfolding merge_bin
merge_bin_eq fuel p h h1 h2 a b e f = rw (merge_bin, e, f) refl

merge_bin-Coalesced :
    (fuel : ℕ) (h : Heap) (ps es : List ℕ) (p : ℕ)
    → IsHeap h ps es
    → 0 < count p ps
    → (h.bins p).taken ≡ false
    → measure ps es < fuel
    → Coalesced h ps es p (merge_bin fuel p h)
merge_bin-Coalesced zero h ps es p w c fp f = absurd (omega arith)
merge_bin-Coalesced (suc fuel) h ps es p w c fp f =
    let a = listed_next-Half fuel h ps es p w c fp (omega (arith, listed_length p ps c)) in
    let m = a.step in
    let fp1 : (a.heap.bins p).taken ≡ false = m.marks p ∙ fp in
    let b =
      listed_prev-Half fuel a.heap m.ps' m.es' p m.whole m.listed fp1
        (omega (arith, m.smaller, listed_length p m.ps' m.listed)) in
    let k = b.step in
    let fp2 : (b.heap.bins p).taken ≡ false = k.marks p ∙ fp1 in
    let again = λ (lt : suc (measure k.ps' k.es') ≤ measure ps es).
      Coalesced-after h ps es p a.heap (merge_bin fuel p b.heap) m (
        Coalesced-after a.heap m.ps' m.es' p b.heap (merge_bin fuel p b.heap) k
          (merge_bin-Coalesced fuel b.heap k.ps' k.es' p k.whole k.listed fp2 (omega arith))) in
    let eq = merge_bin_eq fuel p h a.heap b.heap a.did b.did a.done b.done in
    elim (Bool-cases a.did) [
      | inl t ↦
          subst (Coalesced h ps es p) (sym (eq ∙ rw t refl))
            (again (omega (arith, a.less t, k.smaller)))
      | inr u ↦ elim (Bool-cases b.did) [
        | inl t ↦
            subst (Coalesced h ps es p) (sym (eq ∙ rw (u, t) refl))
              (again (omega (arith, b.less t, m.smaller)))
        | inr v ↦
            settled h ps es p a.heap b.heap (merge_bin (suc fuel) p h) w c (a.idle u) (b.idle v)
              (eq ∙ rw (u, v) refl)
      ]
    ]

-- The walk of `kfree` over the bins.
module _ (a : ℕ) (h : Heap) where
  find_addr_finds :
      (fuel before q : ℕ) (ps : List ℕ)
      → Seg h.bins before ps 0
      → count 0 ps ≡ 0
      → 0 < count q ps
      → (h.bins q).addr ≡ a
      → ((p : ℕ) → 0 < count p ps → (h.bins p).addr ≡ a → p ≡ q)
      → length ps < fuel
      → find_addr fuel a (first ps 0) h ≡ some q
  unfolding find_addr
  find_addr_finds zero before q ps g z c e only f = absurd (omega arith)
  find_addr_finds (suc fuel) before q [] g z c e only f = absurd (omega arith)
  find_addr_finds (suc fuel) before q (p ∷ ps) g z c e only f =
      let nz : (p == 0) ≡ false = ground (arith, z) in
      elim (==-cases (h.bins p).addr a) [
        | inl at ↦ rw (nz, at, ==-self a) (ap some (only p (ground arith) at))
        | inr ne ↦
            (let other : p ≢ q = λ pq. true_ne_false (sym (rw (pq, e) (==-self a)) ∙ ne) in
              rw (nz, ne, g.1)
                (find_addr_finds fuel p q ps g.2 (ground arith) (ground arith) e
                  (λ r b. only r (ground arith)) (omega arith)))
      ]

  find_addr_misses :
      (fuel before : ℕ) (ps : List ℕ)
      → Seg h.bins before ps 0
      → count 0 ps ≡ 0
      → ((p : ℕ) → 0 < count p ps → (h.bins p).addr ≢ a)
      → length ps < fuel
      → find_addr fuel a (first ps 0) h ≡ some 0
  unfolding find_addr
  find_addr_misses zero before ps g z none_at f = absurd (omega arith)
  find_addr_misses (suc fuel) before [] g z none_at f = refl
  find_addr_misses (suc fuel) before (p ∷ ps) g z none_at f =
      let nz : (p == 0) ≡ false = ground (arith, z) in
      rw (nz, ==-false (none_at p (ground arith)), g.1)
        (find_addr_misses fuel p ps g.2 (ground arith) (λ r b. none_at r (ground arith))
          (omega arith))

-- No two bins of a heap begin at the same address.
same_bin :
    (h : Heap) (ps es : List ℕ) (p q : ℕ)
    → IsHeap h ps es
    → 0 < count p ps
    → 0 < count q ps
    → (h.bins p).addr ≡ (h.bins q).addr
    → p ≡ q
same_bin h ps es p q w b c e = elim (==-cases p q) [
  | inl eq ↦ eq
  | inr ne ↦ absurd (
      let tp = tile_within h.bins bin_start ps p b w.tiles in
      let tq = tile_within h.bins bin_start ps q c w.tiles in
      elim (IsHeap-Apart h ps es p q w b c (λ x. true_ne_false (sym (rw x (==-self q)) ∙ ne))) [
        | inl l ↦ omega (arith, l, tp.1, e)
        | inr l ↦ omega (arith, l, tq.1, e)
      ])
]

-- The heap after `kfree` of the address of the bin `q`.
pub record Freed (h : Heap) (ps es : List ℕ) (q : ℕ) (out : Option Heap) : Type 0 where
  pub heap : Heap
  pub ps' : List ℕ
  pub es' : List ℕ
  pub done : out ≡ some heap
  pub whole : IsHeap heap ps' es'
  pub listed : 0 < count q ps'
  pub free : (heap.bins q).taken ≡ false
  pub starts : (heap.bins q).addr ≤ (h.bins q).addr
  pub ends : (h.bins q).addr + (h.bins q).size ≤ (heap.bins q).addr + (heap.bins q).size
  pub kept :
      (r : ℕ)
      → r ≢ q
      → 0 < count r ps
      → (h.bins r).taken ≡ true
      → (0 < count r ps') × SameBlock (heap.bins r) (h.bins r)
  pub no_more :
      (r : ℕ)
      → 0 < count r ps'
      → (heap.bins r).taken ≡ true
      → (0 < count r ps) × ((h.bins r).taken ≡ true)
  pub next_taken : Blocked heap (heap.bins q).next
  pub prev_taken : Blocked heap (heap.bins q).prev

Coalesced-Freed :
    (h : Heap) (ps es : List ℕ) (q : ℕ) (out : Option Heap)
    → Coalesced (set_taken q false h) ps es q out
    → Freed h ps es q out
Coalesced-Freed h ps es q out c =
    let m = c.merged in
    let own : (c.heap.bins q).taken ≡ false = m.marks q ∙ rw (==-self q) refl in
    record {
      heap = c.heap;
      ps' = m.ps';
      es' = m.es';
      done = c.done;
      whole = m.whole;
      listed = m.listed;
      free = own;
      starts = m.starts;
      ends = m.ends;
      kept = λ r ne b t.
          let apart = ==-false {a = q} {b = r} (λ e. ne (sym e)) in
          let k = m.kept r b (rw apart t) in (k.0, (k.1.0, k.1.1 ∙ rw apart refl, k.1.2));
      no_more = λ r b t.
          let ne : q ≢ r =
            λ e. true_ne_false (sym t ∙ subst (λ x. (c.heap.bins x).taken ≡ false) e own) in
          (m.no_new r b, sym (m.marks r ∙ rw (==-false ne) refl) ∙ t);
      next_taken = c.next_taken;
      prev_taken = c.prev_taken;
    }

-- With enough fuel, `kfree` of the address of a bin makes that bin free and merges it with the free
-- bins on both sides: its block lies in the free bin, whose neighbours are taken. Every other taken bin
-- keeps its address, its size and its mark, no bin becomes taken, and the heap is well formed again.
pub kfree-Freed :
    (fuel : ℕ) (h : Heap) (ps es : List ℕ) (q : ℕ)
    → IsHeap h ps es
    → 0 < count q ps
    → measure ps es < fuel
    → Freed h ps es q (kfree fuel (h.bins q).addr h)
unfolding kfree
kfree-Freed fuel h ps es q w c f =
    let found =
      find_addr_finds (h.bins q).addr h fuel 0 q ps w.linked.chain (omega (arith, w.linked.null)) c
        refl (λ p b e. same_bin h ps es p q w b c e) (omega arith) in
    let free : ((set_taken q false h).bins q).taken ≡ false = rw (==-self q) refl in
    let merged =
      merge_bin-Coalesced fuel (set_taken q false h) ps es q (set_taken-IsHeap h q false ps es w) c
        free f in
    let start = ap (λ t. find_addr fuel (h.bins q).addr t h) w.linked.head ∙ found in
    rw (kfree, start, ==-false (listed_ne_null h ps es q w c))
      (Coalesced-Freed h ps es q (merge_bin fuel q (set_taken q false h)) merged)

-- `kfree` of an address at which no bin begins changes nothing.
pub kfree_unknown :
    (fuel a : ℕ) (h : Heap) (ps es : List ℕ)
    → IsHeap h ps es
    → ((p : ℕ) → 0 < count p ps → (h.bins p).addr ≢ a)
    → length ps < fuel
    → kfree fuel a h ≡ some h
unfolding kfree
kfree_unknown fuel a h ps es w none_at f =
    let missed =
      find_addr_misses a h fuel 0 ps w.linked.chain (omega (arith, w.linked.null)) none_at f in
    let start = ap (λ t. find_addr fuel a t h) w.linked.head ∙ missed in rw (kfree, start) refl
