-- ===== src/Heap/Remove.antt =====
-- `remove_bin` of module/heap/main.c: a bin leaves the list and its header becomes the last empty one.
use modit_micro.Base.{
  ==-self, ==-false, ℕ, zero, suc, ◌+◌, ◌≤◌, ◌<◌, ◌≡◌, ◌≢◌, ◌∙◌, refl, sym, arith, true, false,
  ◌&&◌, Option, some, List, [], ◌∷◌, ◌++◌, ◌==◌, if◌then◌else◌, length,
}
use modit_micro.Heap.{Bin, Heap, set_prev, set_next, last_empty, detach_bin, retire_bin, remove_bin}
use modit_micro.Heap.Links.{
  count, count-append, first, last, last-append, Seg-frame, Chain, Chain-frame, IsSetOf, Seg-remove,
  count_ne, middle_ne, last_in, last_ne,
}
use modit_micro.Heap.Bins.{IsLinked, SameBlock, IsLinked-IsSetOf}
use modit_micro.Heap.Adding.{split_next, split_prev, apart}

detach_bin_other :
    (h : Heap) (p q : ℕ)
    → (h.bins p).next ≢ p
    → q ≢ p
    → q ≢ 0
    → let b = (detach_bin p h).bins q in
      (b.prev ≡ (if (h.bins p).next == q then (h.bins p).prev else (h.bins q).prev))
      × (b.next ≡ (if (h.bins p).prev == q then (h.bins p).next else (h.bins q).next))
unfolding detach_bin
detach_bin_other h p q np qp qz = ground arith

detach_bin_own : (h : Heap) (p : ℕ) → ((detach_bin p h).bins p).next ≡ 0
unfolding detach_bin
detach_bin_own h p = ground arith

detach_bin_block : (h : Heap) (p q : ℕ) → SameBlock ((detach_bin p h).bins q) (h.bins q)
unfolding detach_bin
detach_bin_block h p q = (refl, refl, refl)

detach_bin_ends :
    (h : Heap) (p : ℕ)
    → (h.bins p).next ≢ p
    → (h.bins p).prev ≢ p
    → let h1 = detach_bin p h in
      (h1.bin_head ≡ (if h.bin_head == p then (h.bins p).next else h.bin_head))
      × (h1.bin_tail ≡ (if h.bin_tail == p then (h.bins p).prev else h.bin_tail))
      × (h1.empty_head ≡ h.empty_head)
      × (h1.bin_hiaddr ≡ h.bin_hiaddr)
unfolding detach_bin
detach_bin_ends h p n q = ground arith

first_removed :
    (xs : List ℕ) (p : ℕ) (ys : List ℕ)
    → IsSetOf (xs ++ p ∷ ys)
    → (if first (xs ++ p ∷ ys) 0 == p then first ys 0 else first (xs ++ p ∷ ys) 0)
      ≡ first (xs ++ ys) 0
first_removed [] p ys set = rw (==-self p) refl
first_removed (x ∷ xs) p ys set =
    rw (==-false (λ (e : x ≡ p). absurd (ground (arith, set.once p, count-append p xs (p ∷ ys)))))
      refl

last_removed :
    (xs : List ℕ) (p : ℕ) (ys : List ℕ)
    → IsSetOf (xs ++ p ∷ ys)
    → (if last 0 (xs ++ p ∷ ys) == p then last 0 xs else last 0 (xs ++ p ∷ ys)) ≡ last 0 (xs ++ ys)
last_removed xs p [] set = rw (last-append 0 xs (p ∷ []), last-append 0 xs [], ==-self p) refl
last_removed xs p (y ∷ ys) set =
    rw
      (
        last-append 0 xs (p ∷ y ∷ ys),
        last-append 0 xs (y ∷ ys),
        ==-false (last_ne p y ys (omega (arith, set.once p, count-append p xs (p ∷ y ∷ ys)))),
      )
      refl

-- The list without `p`, whose header stands in neither list for now.
pub record Detached (h : Heap) (xs : List ℕ) (p : ℕ) (ys es : List ℕ) : Type 0 where
  pub linked : IsLinked (detach_bin p h) (xs ++ ys) es
  pub own : ((detach_bin p h).bins p).next ≡ 0
  pub ne_null : p ≢ 0
  pub out : count p (xs ++ ys) + count p es ≡ 0
  pub low : p ≤ (detach_bin p h).bin_hiaddr

module _ (h : Heap) (xs : List ℕ) (p : ℕ) (ys es : List ℕ) (l : IsLinked h (xs ++ p ∷ ys) es) where
  removed_count : (q : ℕ) → count q (xs ++ p ∷ ys) ≡ (if p == q then 1 else 0) + count q (xs ++ ys)
  removed_count q = ground (arith, count-append q xs (p ∷ ys), count-append q xs ys)

  empty_ne_last : (q : ℕ) → 0 < count q es → q ≢ 0 → last 0 xs ≢ q
  empty_ne_last q b qz e =
      absurd (omega (arith, last_in q xs qz e, count-append q xs (p ∷ ys), l.once q))

  detach_bin-Detached : Detached h xs p ys es
  detach_bin-Detached =
      let set = IsLinked-IsSetOf l in
      let m = middle_ne xs p ys set in
      let next = split_next h xs p ys es l in
      let prev = split_prev h xs p ys es l in
      let ne = λ (e : (h.bins p).next ≡ p). m.1 (sym next ∙ e) in
      let pe = λ (e : (h.bins p).prev ≡ p). m.2 (sym prev ∙ e) in
      let ends = detach_bin_ends h p ne pe in
      record {
        linked = record {
          chain =
              Seg-remove h.bins (detach_bin p h).bins xs p ys set
                (λ q qp qz. rw (← next, ← prev) (detach_bin_other h p q ne qp qz)) l.chain;
          empties = rw ends.2 (
              Chain-frame h.bins (detach_bin p h).bins h.empty_head es
                (λ q b.
                  let a = apart xs p ys es l q b in
                  let c = detach_bin_other h p q ne (λ e. a.0 (sym e)) a.1 in
                  c.1 ∙ rw (prev, ==-false (empty_ne_last q b a.1)) refl)
                l.empties);
          head = ends.0 ∙ rw (l.head, next) (first_removed xs p ys set);
          tail = ends.1 ∙ rw (l.tail, prev) (last_removed xs p ys set);
          once = λ q. omega (arith, l.once q, removed_count q);
          null = omega (arith, l.null, removed_count 0);
          below = λ q b. rw ends.3 (omega (arith, l.below q, removed_count q));
        };
        own = detach_bin_own h p;
        ne_null = m.0;
        out = ground (arith, l.once p, removed_count p);
        low = rw ends.3 (ground (arith, l.below p, removed_count p));
      }

-- The walk to the end of the chain of empty headers.
last_empty-last :
    (fuel p e : ℕ) (es : List ℕ) (h : Heap)
    → Chain h.bins p (e ∷ es)
    → length es < fuel
    → last_empty fuel p h ≡ some (last e es)
unfolding last_empty
last_empty-last zero p e es h c f = elim f [ ]
last_empty-last (suc fuel) p e [] h c f = rw c.0 (ground (arith, c.2))
last_empty-last (suc fuel) p e (e2 ∷ es) h c f =
    rw (c.0, ==-false c.2.1) (last_empty-last fuel (h.bins e).next e2 es h c.2 (omega arith))

-- The chain with `p` behind its last header.
Chain-snoc :
    (f g : ℕ → Bin) (start e : ℕ) (es : List ℕ) (p : ℕ)
    → ((q : ℕ) → count q (e ∷ es) ≤ 1)
    → p ≢ 0
    → (g p).next ≡ 0
    → ((q : ℕ) → 0 < count q (e ∷ es) → (g q).next ≡ (if last e es == q then p else (f q).next))
    → Chain f start (e ∷ es)
    → Chain g start ((e ∷ es) ++ p ∷ [])
Chain-snoc f g start e [] p once nz own same c =
    let here : (g e).next ≡ p = same e (ground arith) ∙ rw (==-self e) refl in
    (c.0, c.1, (here, rw here nz, own))
Chain-snoc f g start e (e2 ∷ es) p once nz own same c =
    let here : (g e).next ≡ (f e).next =
      same e (ground arith) ∙ rw (==-false (last_ne e e2 es (once e))) refl in
    let once' : (q : ℕ) → count q (e2 ∷ es) ≤ 1 = λ q. ground (arith, once q) in
    (
      c.0,
      c.1,
      rw here (
          Chain-snoc f g (f e).next e2 es p once' nz own
            (λ q (b : 0 < count q (e2 ∷ es)). same q (ground arith)) c.2),
    )

-- `p` is put away behind the headers `es`: the list of bins keeps its links.
module _ (d : Heap) (qs es : List ℕ) (p : ℕ) (out : count p qs + count p es ≡ 0) where
  retired_once : (q : ℕ) → count q qs + count q es ≤ 1 → count q qs + count q (es ++ p ∷ []) ≤ 1
  retired_once q h = ground (arith, count-append q es (p ∷ []))

  retired_null : p ≢ 0 → count 0 qs + count 0 es ≡ 0 → count 0 qs + count 0 (es ++ p ∷ []) ≡ 0
  retired_null nz h = ground (arith, count-append 0 es (p ∷ []))

  retired_below :
      (q top : ℕ)
      → p ≤ top
      → (0 < count q qs + count q es → q ≤ top)
      → 0 < count q qs + count q (es ++ p ∷ [])
      → q ≤ top
  retired_below q top low h b = ground (arith, count-append q es (p ∷ []))

last_at : (e : ℕ) (es : List ℕ) → 0 < count (last e es) (e ∷ es)
last_at e [] = ground arith
last_at e (e2 ∷ es) = ground (arith, last_at e2 es)

-- What `retire_bin` and `remove_bin` leave behind.
pub record Retired (h : Heap) (qs es : List ℕ) (p : ℕ) (out : Option Heap) : Type 0 where
  pub heap : Heap
  pub done : out ≡ some heap
  pub linked : IsLinked heap qs (es ++ p ∷ [])
  pub blocks : (q : ℕ) → SameBlock (heap.bins q) (h.bins q)

retire_bin-Retired :
    (fuel : ℕ) (d : Heap) (qs es : List ℕ) (p : ℕ)
    → IsLinked d qs es
    → (d.bins p).next ≡ 0
    → p ≢ 0
    → count p qs + count p es ≡ 0
    → p ≤ d.bin_hiaddr
    → length es < fuel
    → Retired d qs es p (retire_bin fuel p d)
unfolding retire_bin
retire_bin-Retired fuel d qs [] p l own nz out low f = record {
  heap = record d { empty_head = p };
  done = let e : (d.empty_head == 0) ≡ true = ground (arith, l.empties) in rw e refl;
  linked = record {
    chain = l.chain;
    empties = (refl, nz, own);
    head = l.head;
    tail = l.tail;
    once = λ q. retired_once d qs [] p out q (l.once q);
    null = retired_null d qs [] p out nz l.null;
    below = λ q b. retired_below d qs [] p out q d.bin_hiaddr low (l.below q) b;
  };
  blocks = λ q. (refl, refl, refl);
}
retire_bin-Retired fuel d qs (e ∷ es) p l own nz out low f =
    let at = last_at e es in
    let last_ne_p : last e es ≢ p = count_ne (e ∷ es) at (omega arith) in
    record {
      heap = set_prev p (last e es) (set_next (last e es) p d);
      done =
          rw
            (
              ==-false l.empties.1,
              last_empty-last fuel d.empty_head e es d l.empties (ground arith),
            )
            refl;
      linked = record {
        chain =
            Seg-frame d.bins (set_prev p (last e es) (set_next (last e es) p d)).bins 0 qs 0
              (λ q b. (
                rw (==-false (λ (x : p ≡ q). absurd (ground arith))) refl,
                rw (==-false (λ (x : last e es ≡ q). absurd (ground (arith, l.once (last e es)))))
                    refl,
              ))
              l.chain;
        empties =
            Chain-snoc d.bins (set_prev p (last e es) (set_next (last e es) p d)).bins d.empty_head
              e es p (λ q. omega (arith, l.once q)) nz (rw (==-false last_ne_p) own) (λ q b. refl)
              l.empties;
        head = l.head;
        tail = l.tail;
        once = λ q. retired_once d qs (e ∷ es) p out q (l.once q);
        null = retired_null d qs (e ∷ es) p out nz l.null;
        below = λ q b. retired_below d qs (e ∷ es) p out q d.bin_hiaddr low (l.below q) b;
      };
      blocks = λ q. (refl, refl, refl);
    }

-- `p` is not the only bin of the list.
not_only :
    (h : Heap) (xs : List ℕ) (p : ℕ) (ys es : List ℕ)
    → IsLinked h (xs ++ p ∷ ys) es
    → xs ++ ys ≢ []
    → (h.bin_head == h.bin_tail && h.bin_head == p) ≡ false
not_only h [] p [] es l ne = absurd (ne refl)
not_only h [] p (y ∷ ys) es l ne =
    let differ : p ≢ last p (y ∷ ys) = λ e. last_ne p y ys (omega (arith, l.once p)) (sym e) in
    rw (l.head, l.tail, ==-false differ) refl
not_only h (x ∷ xs) p ys es l ne =
    let differ : x ≢ p = λ e. absurd (ground (arith, l.once p, count-append p xs (p ∷ ys))) in
    rw (l.head, ==-false differ) (ground arith)

-- Of a list with other bins, `remove_bin` takes out the bin that it is given, with enough fuel for the
-- chain of empty headers, and puts its header at the end of that chain. No bin's address, size or
-- state changes.
pub remove_bin-Retired :
    (fuel : ℕ) (h : Heap) (xs : List ℕ) (p : ℕ) (ys es : List ℕ)
    → IsLinked h (xs ++ p ∷ ys) es
    → xs ++ ys ≢ []
    → length es < fuel
    → Retired h (xs ++ ys) es p (remove_bin fuel p h)
unfolding remove_bin
remove_bin-Retired fuel h xs p ys es l ne f =
    let d = detach_bin-Detached h xs p ys es l in
    let r =
      retire_bin-Retired fuel (detach_bin p h) (xs ++ ys) es p d.linked d.own d.ne_null d.out d.low
        f in
    let kept = detach_bin_block h p in
    rw (not_only h xs p ys es l ne) (record {
      heap = r.heap;
      done = r.done;
      linked = r.linked;
      blocks = λ q. let a = r.blocks q in let b = kept q in (a.0 ∙ b.0, a.1 ∙ b.1, a.2 ∙ b.2);
    })
