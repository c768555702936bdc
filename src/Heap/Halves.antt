-- ===== src/Heap/Halves.antt =====
-- The two halves of a round of `merge_bin` of module/heap/main.c on a well-formed heap.
use modit_micro.Base.{
  ==-self, ==-false, ℕ, suc, ◌+◌, ◌%◌, ◌^◌, ◌≤◌, ◌<◌, ◌≡◌, ◌≢◌, inl, inr, ◌∙◌, refl, sym, subst, ap,
  arith, Bool, true, false, Option, some, none, List, [], ◌∷◌, ◌++◌, ==-cases, true_ne_false,
  length, Bool-cases,
}
use modit_micro.Heap.{Heap, set_size, set_addr, remove_bin, merge_next, merge_prev}
use modit_micro.Heap.Links.{count, count-append, last-append, count_ne}
use modit_micro.Heap.Bins.{IsLinked, IsLinked-frame}
use modit_micro.Heap.Adding.{split_next, split_prev}
use modit_micro.Heap.Remove.{Retired, remove_bin-Retired}
use modit_micro.Heap.Tiles.{IsHeap, unsnoc, snoc_append}
use modit_micro.Heap.Split.{bin_small}
use modit_micro.Heap.Merge.{Merged, Merged-refl, measure, pair_meets, fused-Merged}

-- The pointer is NULL, or its bin is taken.
abbrev pub Blocked : Heap → ℕ → Type 0
Blocked h q = q ≢ 0 → (h.bins q).taken ≡ true

-- Half a round of `merge_bin`: the neighbour `nb` is merged, or it cannot be.
pub record Half (h : Heap) (ps es : List ℕ) (p nb : ℕ) (out : Option (Bool × Heap)) : Type 0 where
  pub did : Bool
  pub heap : Heap
  pub done : out ≡ some (did, heap)
  pub step : Merged h ps es p heap
  pub less : did ≡ true → suc (measure step.ps' step.es') ≤ measure ps es
  pub idle : did ≡ false → (heap ≡ h) × Blocked h nb

idle-Half :
    (h : Heap) (ps es : List ℕ) (p nb : ℕ) (out : Option (Bool × Heap))
    → IsHeap h ps es
    → 0 < count p ps
    → out ≡ some (false, h)
    → Blocked h nb
    → Half h ps es p nb out
idle-Half h ps es p nb out w c e b = record {
  did = false;
  heap = h;
  done = e;
  step = Merged-refl h ps es p w c;
  less = λ t. absurd (true_ne_false (sym t));
  idle = λ t. (refl, b);
}

pair_small :
    (h : Heap) (xs : List ℕ) (p n : ℕ) (ys es : List ℕ)
    → IsHeap h (xs ++ p ∷ n ∷ ys) es
    → (h.bins p).size + (h.bins n).size < 2 ^ 31
pair_small h xs p n ys es w =
    let cp : 0 < count p (xs ++ p ∷ n ∷ ys) = ground (arith, count-append p xs (p ∷ n ∷ ys)) in
    let cn : 0 < count n (xs ++ p ∷ n ∷ ys) = ground (arith, count-append n xs (p ∷ n ∷ ys)) in
    let a = bin_small h (xs ++ p ∷ n ∷ ys) es p w cp in
    let b = bin_small h (xs ++ p ∷ n ∷ ys) es n w cn in
    let m = pair_meets h xs p n ys es w in omega (arith, a.0, b.2, m.0)

not_empty : (xs : List ℕ) (p : ℕ) (ys : List ℕ) → xs ++ p ∷ ys ≢ []
not_empty [] p ys e = absurd (ground arith)
not_empty (x ∷ xs) p ys e = absurd (ground arith)

-- Both neighbours are free: the second one is removed, or the first one.
module _ (fuel : ℕ) (h : Heap) (xs : List ℕ) (p n : ℕ) (ys es : List ℕ)
    (w : IsHeap h (xs ++ p ∷ n ∷ ys) es) (fp : (h.bins p).taken ≡ false)
    (fn : (h.bins n).taken ≡ false) (f : length es < fuel) where
  sum_small : ((h.bins p).size + (h.bins n).size) % 2 ^ 31 ≡ (h.bins p).size + (h.bins n).size
  sum_small = omega (arith, pair_small h xs p n ys es w)

  abbrev wider : Heap
  wider = set_size p ((h.bins p).size + (h.bins n).size) h

  wider-IsLinked : IsLinked wider ((xs ++ p ∷ []) ++ n ∷ ys) es
  wider-IsLinked =
      subst (λ t. IsLinked wider t es) (sym (snoc_append xs p (n ∷ ys)))
        (IsLinked-frame h wider (xs ++ p ∷ n ∷ ys) es (λ q b. (refl, refl)) refl refl refl
          (omega arith) w.linked)

  wider_removed : Retired wider ((xs ++ p ∷ []) ++ ys) es n (remove_bin fuel n wider)
  wider_removed =
      remove_bin-Retired fuel wider (xs ++ p ∷ []) n ys es wider-IsLinked
        (λ e. not_empty xs p ys (sym (snoc_append xs p ys) ∙ e)) f

  next_pair :
      Half h
        (xs ++ p ∷ n ∷ ys)
        es
        p
        n
        (elim (remove_bin fuel n wider) [ none ↦ none | some h' ↦ some (true, h') ])
  next_pair =
      let r = wider_removed in
      let linked = subst (λ t. IsLinked r.heap t (es ++ n ∷ [])) (snoc_append xs p ys) r.linked in
      let (m, less) =
        fused-Merged h xs p n ys es w p n r.heap (inl refl) linked (r.blocks p).0
          ((r.blocks p).2 ∙ rw (==-self p) sum_small)
          (λ q ne. let b = r.blocks q in (b.0, b.1, b.2 ∙ rw (==-false ne) refl)) fp fn
          (λ q. (r.blocks q).1) in
      record {
        did = true;
        heap = r.heap;
        done = rw r.done refl;
        step = m;
        less = λ t. less;
        idle = λ t. absurd (true_ne_false t);
      }

  abbrev moved : Heap
  moved = set_addr n (h.bins p).addr (set_size n ((h.bins n).size + (h.bins p).size) h)

  moved_removed : Retired moved (xs ++ n ∷ ys) es p (remove_bin fuel p moved)
  moved_removed =
      remove_bin-Retired fuel moved xs p (n ∷ ys) es
        (IsLinked-frame h moved (xs ++ p ∷ n ∷ ys) es (λ q b. (refl, refl)) refl refl refl
          (omega arith) w.linked)
        (not_empty xs n ys) f

  prev_pair :
      Half h
        (xs ++ p ∷ n ∷ ys)
        es
        n
        p
        (elim (remove_bin fuel p moved) [ none ↦ none | some h' ↦ some (true, h') ])
  prev_pair =
      let r = moved_removed in
      let comm : ((h.bins n).size + (h.bins p).size) % 2 ^ 31 ≡ (h.bins p).size + (h.bins n).size =
        omega (arith, sum_small) in
      let (m, less) =
        fused-Merged h xs p n ys es w n p r.heap (inr refl) r.linked
          ((r.blocks n).0 ∙ rw (==-self n) refl) ((r.blocks n).2 ∙ rw (==-self n) comm)
          (λ q ne.
            let b = r.blocks q in (b.0 ∙ rw (==-false ne) refl, b.1, b.2 ∙ rw (==-false ne) refl))
          fp fn (λ q. (r.blocks q).1) in
      record {
        did = true;
        heap = r.heap;
        done = rw r.done refl;
        step = m;
        less = λ t. less;
        idle = λ t. absurd (true_ne_false t);
      }

merge_next_eq :
    (fuel : ℕ) (h : Heap) (p n : ℕ)
    → (h.bins p).next ≡ n
    → n ≢ 0
    → (h.bins p).taken ≡ false
    → (h.bins n).taken ≡ false
    → merge_next fuel p h
      ≡ elim (remove_bin fuel n (set_size p ((h.bins p).size + (h.bins n).size) h)) [
        | none ↦ none
        | some h' ↦ some (true, h')
      ]
unfolding merge_next
merge_next_eq fuel h p n e =
    subst
      (λ m.
        m ≢ 0
        → (h.bins p).taken ≡ false
        → (h.bins m).taken ≡ false
        → merge_next fuel p h
          ≡ elim (remove_bin fuel m (set_size p ((h.bins p).size + (h.bins m).size) h)) [
            | none ↦ none
            | some h' ↦ some (true, h')
          ])
      e (λ nz fp fn. rw (==-false nz, fp, fn) refl)

merge_next_idle :
    (fuel : ℕ) (h : Heap) (p : ℕ)
    → Blocked h (h.bins p).next
    → merge_next fuel p h ≡ some (false, h)
unfolding merge_next
merge_next_idle fuel h p b = elim (==-cases (h.bins p).next 0) [
  | inl e ↦ rw e refl
  | inr ne ↦
      (let t = b (λ z. true_ne_false (sym (rw z refl) ∙ ne)) in
        elim (Bool-cases (h.bins p).taken) [ inl u ↦ rw (ne, u) refl | inr u ↦ rw (ne, u, t) refl ])
]

merge_prev_eq :
    (fuel : ℕ) (h : Heap) (p n : ℕ)
    → (h.bins p).prev ≡ n
    → n ≢ 0
    → (h.bins p).taken ≡ false
    → (h.bins n).taken ≡ false
    → merge_prev fuel p h
      ≡ elim (remove_bin fuel n
          (set_addr p (h.bins n).addr (set_size p ((h.bins p).size + (h.bins n).size) h))) [
            | none ↦ none
            | some h' ↦ some (true, h')
          ]
unfolding merge_prev
merge_prev_eq fuel h p n e =
    subst
      (λ m.
        m ≢ 0
        → (h.bins p).taken ≡ false
        → (h.bins m).taken ≡ false
        → merge_prev fuel p h
          ≡ elim (remove_bin fuel m
              (set_addr p (h.bins m).addr (set_size p ((h.bins p).size + (h.bins m).size) h))) [
                | none ↦ none
                | some h' ↦ some (true, h')
              ])
      e (λ nz fp fn. rw (==-false nz, fp, fn) refl)

merge_prev_idle :
    (fuel : ℕ) (h : Heap) (p : ℕ)
    → Blocked h (h.bins p).prev
    → merge_prev fuel p h ≡ some (false, h)
unfolding merge_prev
merge_prev_idle fuel h p b = elim (==-cases (h.bins p).prev 0) [
  | inl e ↦ rw e refl
  | inr ne ↦
      (let t = b (λ z. true_ne_false (sym (rw z refl) ∙ ne)) in
        elim (Bool-cases (h.bins p).taken) [ inl u ↦ rw (ne, u) refl | inr u ↦ rw (ne, u, t) refl ])
]

pub listed_ne_null : (h : Heap) (ps es : List ℕ) (q : ℕ) → IsHeap h ps es → 0 < count q ps → q ≢ 0
listed_ne_null h ps es q w b = count_ne ps b (omega (arith, w.linked.null))

-- The answer of the merging branch is the half's answer.
renamed :
    {h : Heap} {ps es : List ℕ} {p nb nb' : ℕ} {out out' : Option (Bool × Heap)}
    → nb' ≡ nb
    → out' ≡ out
    → Half h ps es p nb out
    → Half h ps es p nb' out'
renamed {h} {ps} {es} {p} {nb} {nb'} {out} {out'} e o b =
    subst (λ x. Half h ps es p x out') (sym e) (subst (λ x. Half h ps es p nb x) (sym o) b)

-- The first half of a round merges the next bin when it is free.
pub next-Half :
    (fuel : ℕ) (h : Heap) (xs : List ℕ) (p : ℕ) (ys es : List ℕ)
    → IsHeap h (xs ++ p ∷ ys) es
    → (h.bins p).taken ≡ false
    → length es < fuel
    → Half h (xs ++ p ∷ ys) es p (h.bins p).next (merge_next fuel p h)
next-Half fuel h xs p [] es w fp f =
    let e : (h.bins p).next ≡ 0 = split_next h xs p [] es w.linked in
    let b : Blocked h (h.bins p).next = λ nz. absurd (nz e) in
    idle-Half h (xs ++ p ∷ []) es p (h.bins p).next (merge_next fuel p h) w
      (ground (arith, count-append p xs (p ∷ []))) (merge_next_idle fuel h p b) b
next-Half fuel h xs p (n ∷ ys) es w fp f =
    let e : (h.bins p).next ≡ n = split_next h xs p (n ∷ ys) es w.linked in
    elim (Bool-cases (h.bins n).taken) [
      | inl t ↦
          (let b : Blocked h (h.bins p).next = λ nz. ap (λ q. (h.bins q).taken) e ∙ t in
            idle-Half h (xs ++ p ∷ n ∷ ys) es p (h.bins p).next (merge_next fuel p h) w
              (ground (arith, count-append p xs (p ∷ n ∷ ys))) (merge_next_idle fuel h p b) b)
      | inr fn ↦
          (let c : 0 < count n (xs ++ p ∷ n ∷ ys) =
              ground (arith, count-append n xs (p ∷ n ∷ ys)) in
            let nz = listed_ne_null h (xs ++ p ∷ n ∷ ys) es n w c in
            renamed e (merge_next_eq fuel h p n e nz fp fn)
              (next_pair fuel h xs p n ys es w fp fn f))
    ]

prev-Half_first :
    (fuel : ℕ) (h : Heap) (p : ℕ) (ys es : List ℕ)
    → IsHeap h (p ∷ ys) es
    → Half h (p ∷ ys) es p (h.bins p).prev (merge_prev fuel p h)
prev-Half_first fuel h p ys es w =
    let e : (h.bins p).prev ≡ 0 = split_prev h [] p ys es w.linked in
    let b : Blocked h (h.bins p).prev = λ nz. absurd (nz e) in
    idle-Half h (p ∷ ys) es p (h.bins p).prev (merge_prev fuel p h) w (ground arith)
      (merge_prev_idle fuel h p b) b

prev-Half_behind :
    (fuel : ℕ) (h : Heap) (xs : List ℕ) (n p : ℕ) (ys es : List ℕ)
    → IsHeap h (xs ++ n ∷ p ∷ ys) es
    → (h.bins p).taken ≡ false
    → length es < fuel
    → Half h (xs ++ n ∷ p ∷ ys) es p (h.bins p).prev (merge_prev fuel p h)
prev-Half_behind fuel h xs n p ys es w fp f =
    let l = subst (λ t. IsLinked h t es) (sym (snoc_append xs n (p ∷ ys))) w.linked in
    let e : (h.bins p).prev ≡ n =
      split_prev h (xs ++ n ∷ []) p ys es l ∙ last-append 0 xs (n ∷ []) in
    elim (Bool-cases (h.bins n).taken) [
      | inl t ↦
          (let b : Blocked h (h.bins p).prev = λ nz. ap (λ q. (h.bins q).taken) e ∙ t in
            idle-Half h (xs ++ n ∷ p ∷ ys) es p (h.bins p).prev (merge_prev fuel p h) w
              (ground (arith, count-append p xs (n ∷ p ∷ ys))) (merge_prev_idle fuel h p b) b)
      | inr fn ↦
          (let c : 0 < count n (xs ++ n ∷ p ∷ ys) =
              ground (arith, count-append n xs (n ∷ p ∷ ys)) in
            let nz = listed_ne_null h (xs ++ n ∷ p ∷ ys) es n w c in
            renamed e (merge_prev_eq fuel h p n e nz fp fn)
              (prev_pair fuel h xs n p ys es w fn fp f))
    ]

-- The second half of a round merges the bin before when it is free.
pub prev-Half :
    (fuel : ℕ) (h : Heap) (xs : List ℕ) (p : ℕ) (ys es : List ℕ)
    → IsHeap h (xs ++ p ∷ ys) es
    → (h.bins p).taken ≡ false
    → length es < fuel
    → Half h (xs ++ p ∷ ys) es p (h.bins p).prev (merge_prev fuel p h)
prev-Half fuel h [] p ys es w fp f = prev-Half_first fuel h p ys es w
prev-Half fuel h (x ∷ xs) p ys es w fp f =
    let (zs, n, e) = unsnoc (x ∷ xs) (λ c. absurd (ground arith)) in
    let eq : (x ∷ xs) ++ p ∷ ys ≡ zs ++ n ∷ p ∷ ys =
      ap (λ t. t ++ p ∷ ys) e ∙ snoc_append zs n (p ∷ ys) in
    subst (λ t. Half h t es p (h.bins p).prev (merge_prev fuel p h)) (sym eq)
      (prev-Half_behind fuel h zs n p ys es (subst (λ t. IsHeap h t es) eq w) fp f)
