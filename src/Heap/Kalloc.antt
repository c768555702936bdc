-- ===== src/Heap/Kalloc.antt =====
-- `kalloc` of module/heap/main.c on a well-formed heap.
use modit_micro.Base.{
  ==-self, ==-false, ℕ, ◌+◌, ◌^◌, ◌≤◌, ◌<◌, ◌≡◌, ◌≢◌, ◌⊎◌, ◌↔◌, inl, inr, ◌∙◌, refl, sym, subst, ap,
  arith, Bool, true, false, Option, some, none, List, [], ◌∷◌, ◌++◌, ◌==◌, if◌then◌else◌, ==-cases,
  zero-cases, true_ne_false, length,
}
use modit_micro.Heap.{
  Heap, bin_start, set_taken, split_bin, round16, grow, finish, hand_out, kalloc,
}
use modit_micro.Heap.Links.{count}
use modit_micro.Heap.Bins.{IsLinked-frame, SameBlock}
use modit_micro.Heap.Tiles.{end_of, Tiles, IsHeap, parts, unsnoc, IsHeap-Apart}
use modit_micro.Heap.Fit.{Found, find_best_fit-Found}
use modit_micro.Heap.Split.{Split, split_bin-Split}
use modit_micro.Heap.Alloc.{Ready, Found-Ready, grow-Ready}

-- What `kalloc` answers for `s` bytes: the address of a bin that was not taken before and is taken now.
pub record Allocated (h : Heap) (ps : List ℕ) (s : ℕ) (out : Option (ℕ × Heap)) : Type 0 where
  pub heap : Heap
  pub ps' : List ℕ
  pub es' : List ℕ
  pub bin : ℕ
  pub done : out ≡ some ((heap.bins bin).addr, heap)
  pub whole : IsHeap heap ps' es'
  pub listed : 0 < count bin ps'
  pub taken : (heap.bins bin).taken ≡ true
  pub size : (heap.bins bin).size ≡ round16 s
  pub was_free : 0 < count bin ps → (h.bins bin).taken ≡ false
  pub kept :
      (q : ℕ)
      → 0 < count q ps
      → (h.bins q).taken ≡ true
      → (0 < count q ps') × SameBlock (heap.bins q) (h.bins q)
  pub no_more :
      (q : ℕ)
      → 0 < count q ps'
      → (heap.bins q).taken ≡ true
      → (q ≡ bin) ⊎ ((0 < count q ps) × ((h.bins q).taken ≡ true))

-- Taking a bin, or giving it back, changes neither the links nor the memory of the heap.
module _ (h : Heap) (p : ℕ) (b : Bool) where
  retaken_end : (a : ℕ) (ps : List ℕ) → end_of (set_taken p b h).bins a ps ≡ end_of h.bins a ps
  retaken_end a [] = refl
  retaken_end a (q ∷ qs) = retaken_end (a + (h.bins q).size) qs

  retaken-Tiles : (a : ℕ) (ps : List ℕ) → Tiles h.bins a ps → Tiles (set_taken p b h).bins a ps
  retaken-Tiles a [] t = tt
  retaken-Tiles a (q ∷ qs) t = (t.0, t.1, retaken-Tiles (a + (h.bins q).size) qs t.2)

  pub set_taken-IsHeap : (ps es : List ℕ) → IsHeap h ps es → IsHeap (set_taken p b h) ps es
  set_taken-IsHeap ps es w = record {
    linked =
        IsLinked-frame h (set_taken p b h) ps es (λ q c. (refl, refl)) refl refl refl (omega arith)
          w.linked;
    tiles = retaken-Tiles bin_start ps w.tiles;
    room = rw (retaken_end bin_start ps) w.room;
  }

pub cut-Split :
    (h : Heap) (ps es : List ℕ) (p s : ℕ)
    → IsHeap h ps es
    → 0 < count p ps
    → 0 < s
    → s ≤ (h.bins p).size
    → (s < (h.bins p).size → h.bin_hiaddr + 16 < 2 ^ 32)
    → Split h ps p s (split_bin p s h)
cut-Split h ps es p s w c pos le hi =
    let (xs, ys, e) = parts p ps c in
    subst (λ t. Split h t p s (split_bin p s h)) (sym e)
      (split_bin-Split h xs p ys es s (subst (λ t. IsHeap h t es) e w) pos le hi)

old_listed :
    (h : Heap) (ps : List ℕ) (p s q : ℕ)
    → (sp : Split h ps p s (split_bin p s h)) → 0 < count q sp.ps'
    → ((split_bin p s h).bins q).taken ≡ true
    → 0 < count q ps
old_listed h ps p s q sp c t = elim (zero-cases (count q ps)) [
  | inl z ↦ absurd (true_ne_false (sym t ∙ sp.new_free q c z))
  | inr c' ↦ c'
]

pub finish-Allocated :
    (h : Heap) (ps : List ℕ) (s : ℕ) (b : ℕ) (h1 : Heap)
    → 0 < round16 s
    → Ready h ps (round16 s) (b, h1)
    → Allocated h ps s (some (finish (round16 s) (b, h1)))
unfolding finish
finish-Allocated h ps s b h1 pos rd =
    let sp = cut-Split h1 rd.ps1 rd.es1 b (round16 s) rd.whole rd.listed pos rd.enough rd.header in
    let h2 = split_bin b (round16 s) h1 in
    let apart : (q : ℕ) → (h1.bins q).taken ≡ true → q ≢ b =
      λ q t e. true_ne_false (sym t ∙ subst (λ x. (h1.bins x).taken ≡ false) (sym e) rd.free) in
    record {
      heap = set_taken b true h2;
      ps' = sp.ps';
      es' = sp.es';
      bin = b;
      done = refl;
      whole = set_taken-IsHeap h2 b true sp.ps' sp.es' sp.whole;
      listed = sp.listed b rd.listed;
      taken = rw (==-self b) refl;
      size = sp.block.1;
      was_free = rd.was_free;
      kept = λ q c t.
          let k = rd.kept q c t in
          let ne : q ≢ b = apart q (k.1.1 ∙ t) in
          let o = sp.others q ne k.0 in
          (
            sp.listed q k.0,
            (
              o.0 ∙ k.1.0,
              rw (==-false {a = b} {b = q} (λ e. ne (sym e))) (o.1 ∙ k.1.1),
              o.2 ∙ k.1.2,
            ),
          );
      no_more = λ q c t. elim (==-cases b q) [
        | inl e ↦ inl (sym e)
        | inr nb ↦ inr (
            let ne : q ≢ b = λ e. true_ne_false (sym (rw e (==-self b)) ∙ nb) in
            let t2 : (h2.bins q).taken ≡ true = sym (rw nb refl) ∙ t in
            let old : 0 < count q rd.ps1 = old_listed h1 rd.ps1 b (round16 s) q sp c t2 in
            rd.no_more q old (sym (sp.others q ne old).1 ∙ t2))
      ];
    }

-- More than what `kalloc` takes for `s` bytes is left behind the last bin, and the headers do not end
-- at 2^32.
abbrev pub HasRoom : ℕ → Heap → List ℕ → Type 0
HasRoom s h ps = (end_of h.bins bin_start ps + s + 15 < 2 ^ 32) × (h.bin_hiaddr + 16 < 2 ^ 32)

pub round16_bounds :
    (s : ℕ) → 0 < s → s + 15 < 2 ^ 32 → (0 < round16 s) × (s ≤ round16 s) × (round16 s ≤ s + 15)
unfolding round16
round16_bounds s pos lt = omega arith

served-Ready :
    (h : Heap) (xs : List ℕ) (p : ℕ) (es : List ℕ) (s b : ℕ)
    → IsHeap h (xs ++ p ∷ []) es
    → 0 < s
    → HasRoom s h (xs ++ p ∷ [])
    → Found (round16 s) h (xs ++ p ∷ []) b
    → Ready h (xs ++ p ∷ []) (round16 s) (if b == 0 then grow (round16 s) h else (b, h))
served-Ready h xs p es s b w pos room f =
    let r = round16_bounds s pos (omega arith) in
    elim (==-cases b 0) [
      | inl e ↦ rw e (grow-Ready h xs p es (round16 s) w r.0 (omega (arith, r.2)) room.1)
      | inr ne ↦ rw ne (Found-Ready h (xs ++ p ∷ []) es (round16 s) b w f (ground arith) room.1)
    ]

hand_out-some : (r : ℕ) (out : ℕ × Heap) → out.0 ≢ 0 → hand_out r out ≡ some (finish r out)
unfolding hand_out
hand_out-some r out ne = rw (==-false ne) refl

-- On a well-formed heap with room behind its last bin, and with more fuel than there are bins,
-- `kalloc` gives `s` bytes: the address of a bin of `round16 s` bytes that was not taken before and is
-- taken now. Every bin that was taken keeps its address, its size and its mark, no other bin is taken,
-- and the heap is well formed again.
pub kalloc-Allocated :
    (fuel s : ℕ) (h : Heap) (ps es : List ℕ)
    → IsHeap h ps es
    → ps ≢ []
    → 0 < s
    → HasRoom s h ps
    → length ps < fuel
    → Allocated h ps s (kalloc fuel s h)
unfolding kalloc
kalloc-Allocated fuel s h ps es w ne pos room f =
    let (xs, p, e) = unsnoc ps ne in
    let (b, done, found) = find_best_fit-Found fuel (round16 s) h ps es w.linked f in
    let rd : Ready h ps (round16 s) (if b == 0 then grow (round16 s) h else (b, h)) =
      subst
        (λ t.
          IsHeap h t es
          → HasRoom s h t
          → Found (round16 s) h t b
          → Ready h t (round16 s) (if b == 0 then grow (round16 s) h else (b, h)))
        (sym e) (λ w' r' f'. served-Ready h xs p es s b w' pos r' f') w room found in
    let out = if b == 0 then grow (round16 s) h else (b, h) in
    let r = round16_bounds s pos (omega (arith, room.0)) in
    let some_bin : out.0 ≢ 0 = λ (z : out.0 ≡ 0).
      (let c : 0 < count 0 rd.ps1 = subst (λ q. 0 < count q rd.ps1) z rd.listed in
        absurd (omega (arith, c, rd.whole.linked.null))) in
    rw (==-false {a = s} {b = 0} (λ z. absurd (omega arith)), done)
      (subst (Allocated h ps s) (sym (hand_out-some (round16 s) out some_bin))
        (finish-Allocated h ps s out.0 out.1 r.0 rd))

-- `round16 s` is at least `s` exactly when `s + 15` does not wrap around.
pub round16_fits : (s : ℕ) → s < 2 ^ 32 → (s ≤ round16 s) ↔ ((s + 15 < 2 ^ 32) ⊎ (s ≡ 0))
unfolding round16
round16_fits s lt = (λ le. ground arith, λ fits. ground arith)

bin_not_taken :
    (h : Heap) (ps : List ℕ) (s : ℕ) (out : Option (ℕ × Heap))
    → (r : Allocated h ps s out) → (q : ℕ) → r.bin ≡ q
    → 0 < count q ps
    → (h.bins q).taken ≢ true
bin_not_taken h ps s out r q e c t =
    let free : (h.bins q).taken ≡ false =
      subst (λ x. 0 < count x ps → (h.bins x).taken ≡ false) e r.was_free c in
    true_ne_false (sym t ∙ free)

-- Under the conditions of `kalloc-Allocated`, the `s` bytes at the address that `kalloc` answers do not
-- meet the block of any bin that was taken before.
pub kalloc_apart :
    (fuel s a : ℕ) (h h' : Heap) (ps es : List ℕ) (q : ℕ)
    → IsHeap h ps es
    → ps ≢ []
    → 0 < s
    → HasRoom s h ps
    → length ps < fuel
    → kalloc fuel s h ≡ some (a, h')
    → 0 < count q ps
    → (h.bins q).taken ≡ true
    → (a + s ≤ (h.bins q).addr) ⊎ ((h.bins q).addr + (h.bins q).size ≤ a)
kalloc_apart fuel s a h h' ps es q w ne pos room f e c t =
    let r = kalloc-Allocated fuel s h ps es w ne pos room f in
    let at : (r.heap.bins r.bin).addr ≡ a =
      ap (λ o. elim o [ none ↦ 0 | some x ↦ x.0 ]) (sym r.done ∙ e) in
    let k = r.kept q c t in
    let big = round16_bounds s pos (omega (arith, room.0)) in
    let apart =
      IsHeap-Apart r.heap r.ps' r.es' r.bin q r.whole r.listed k.0
        (λ x. bin_not_taken h ps s (kalloc fuel s h) r q x c t) in
    elim apart [
      | inl l ↦ inl (omega (arith, l, at, r.size, big.1, k.1.0))
      | inr l ↦ inr (omega (arith, l, at, k.1.0, k.1.2))
    ]
