-- ===== src/Heap/Adding.antt =====
-- `add_bin` of module/heap/main.c: a new bin behind a bin of the list.
use modit_micro.Base.{
  ==-self, ==-false, ℕ, ◌+◌, ◌%◌, ◌^◌, ◌≤◌, ◌<◌, ◌≡◌, ◌≢◌, ◌∙◌, refl, sym, subst, ap, arith, false,
  List, [], ◌∷◌, ◌++◌, ltb, ◌==◌, if◌then◌else◌,
}
use modit_micro.Heap.{Heap, find_free_bin, fill_bin, place_bin, link_bin, add_bin, bin_start}
use modit_micro.Heap.Links.{
  count, count-append, first, last, last-append, Seg, Seg-split, Chain-frame, IsSetOf, Seg-insert,
  count_ne, middle_ne, first_in, last_ne,
}
use modit_micro.Heap.Bins.{
  IsLinked, IsLinked-IsSetOf, IsLinked-frame, find_free_bin-FreeBin, SameBlock,
}

count_inserted :
    (q : ℕ) (xs : List ℕ) (p n : ℕ) (ys : List ℕ)
    → count q (xs ++ p ∷ n ∷ ys) ≡ (if n == q then 1 else 0) + count q (xs ++ p ∷ ys)
count_inserted q xs p n ys =
    ground (arith, count-append q xs (p ∷ n ∷ ys), count-append q xs (p ∷ ys))

-- A store after `n` was linked in behind `p`.
module _ (h : Heap) (xs : List ℕ) (p : ℕ) (ys es : List ℕ) (l : IsLinked h (xs ++ p ∷ ys) es) where
  pub split_next : (h.bins p).next ≡ first ys 0
  split_next = go (Seg-split h.bins 0 xs (p ∷ ys) 0 l.chain)
    where
      go : Seg h.bins 0 xs p × Seg h.bins (last 0 xs) (p ∷ ys) 0 → (h.bins p).next ≡ first ys 0
      go (a, b) = b.1

  pub split_prev : (h.bins p).prev ≡ last 0 xs
  split_prev = go (Seg-split h.bins 0 xs (p ∷ ys) 0 l.chain)
    where
      go : Seg h.bins 0 xs p × Seg h.bins (last 0 xs) (p ∷ ys) 0 → (h.bins p).prev ≡ last 0 xs
      go (a, b) = b.0

-- The bins after `link_bin`, one by one.
link_bin_other :
    (h : Heap) (p n q : ℕ)
    → n ≢ p
    → q ≢ n
    → q ≢ 0
    → let b = (link_bin p n h).bins q in
      (b.prev ≡ (if (h.bins p).next == q then n else (h.bins q).prev))
      × (b.next ≡ (if p == q then n else (h.bins q).next))
      × SameBlock b (h.bins q)
unfolding link_bin
link_bin_other h p n q np nq nz = ground arith

link_bin_new :
    (h : Heap) (p n : ℕ)
    → n ≢ p
    → (h.bins p).next ≢ n
    → let b = (link_bin p n h).bins n in (b.prev ≡ p) × (b.next ≡ (h.bins p).next)
unfolding link_bin
link_bin_new h p n np nf = ground arith

link_bin_block : (h : Heap) (p n q : ℕ) → q ≢ n → SameBlock ((link_bin p n h).bins q) (h.bins q)
unfolding link_bin
link_bin_block h p n q nq = ground arith

link_bin_tail :
    (h : Heap) (p n : ℕ) (xs ys : List ℕ)
    → IsSetOf (xs ++ p ∷ ys)
    → h.bin_tail ≡ last 0 (xs ++ p ∷ ys)
    → (link_bin p n h).bin_tail ≡ last 0 (xs ++ p ∷ n ∷ ys)
unfolding link_bin
link_bin_tail h p n xs [] set e =
    rw (last-append 0 xs (p ∷ n ∷ [])) (ground (arith, e, last-append 0 xs (p ∷ [])))
link_bin_tail h p n xs (y ∷ ys) set e =
    let t : h.bin_tail ≡ last p (y ∷ ys) = e ∙ last-append 0 xs (p ∷ y ∷ ys) in
    let ne : h.bin_tail ≢ p = λ eq.
      last_ne p y ys (omega (arith, set.once p, count-append p xs (p ∷ y ∷ ys))) (sym t ∙ eq) in
    rw (last-append 0 xs (p ∷ n ∷ y ∷ ys), ==-false (λ (eq : p ≡ h.bin_tail). ne (sym eq))) t

module _ (xs : List ℕ) (p n : ℕ) (ys es : List ℕ)
    (new : count n (xs ++ p ∷ ys) + count n es ≡ 0) where
  inserted_once :
      (q : ℕ)
      → count q (xs ++ p ∷ ys) + count q es ≤ 1
      → count q (xs ++ p ∷ n ∷ ys) + count q es ≤ 1
  inserted_once q h = ground (arith, count_inserted q xs p n ys)

  inserted_null :
      n ≢ 0 → count 0 (xs ++ p ∷ ys) + count 0 es ≡ 0 → count 0 (xs ++ p ∷ n ∷ ys) + count 0 es ≡ 0
  inserted_null nz h = ground (arith, count_inserted 0 xs p n ys)

  inserted_below :
      (q top : ℕ)
      → n ≤ top
      → (0 < count q (xs ++ p ∷ ys) + count q es → q ≤ top)
      → 0 < count q (xs ++ p ∷ n ∷ ys) + count q es
      → q ≤ top
  inserted_below q top low h b = ground (arith, count_inserted q xs p n ys)

  inserted_ne : n ≢ 0 → (n ≢ p) × (first ys 0 ≢ n) × ((q : ℕ) → 0 < count q es → q ≢ n)
  inserted_ne nz = (
    ground (arith, count-append n xs (p ∷ ys)),
    λ e. absurd (ground (arith, count-append n xs (p ∷ ys), first_in n ys nz e)),
    λ q b. count_ne es b (omega arith),
  )

first_inserted :
    (xs : List ℕ) (p n : ℕ) (ys : List ℕ) → first (xs ++ p ∷ ys) 0 ≡ first (xs ++ p ∷ n ∷ ys) 0
first_inserted [] p n ys = refl
first_inserted (x ∷ xs) p n ys = refl

-- A bin of the list is not an empty header.
pub apart :
    {h : Heap} (xs : List ℕ) (p : ℕ) (ys es : List ℕ)
    → IsLinked h (xs ++ p ∷ ys) es
    → (q : ℕ) → 0 < count q es
    → (p ≢ q) × (q ≢ 0)
apart xs p ys es l q b =
    (ground (arith, count-append q xs (p ∷ ys), l.once q), count_ne es b (omega (arith, l.null)))

link_bin_kept :
    (h : Heap) (p n : ℕ)
    → ((link_bin p n h).bin_head ≡ h.bin_head)
      × ((link_bin p n h).empty_head ≡ h.empty_head)
      × ((link_bin p n h).bin_hiaddr ≡ h.bin_hiaddr)
unfolding link_bin
link_bin_kept h p n = (refl, refl, refl)

-- `n`, which stood in neither list, now stands behind `p`.
pub link_bin-IsLinked :
    (h : Heap) (xs : List ℕ) (p n : ℕ) (ys es : List ℕ)
    → IsLinked h (xs ++ p ∷ ys) es
    → n ≢ 0
    → count n (xs ++ p ∷ ys) + count n es ≡ 0
    → n ≤ h.bin_hiaddr
    → IsLinked (link_bin p n h) (xs ++ p ∷ n ∷ ys) es
link_bin-IsLinked h xs p n ys es l nz new low =
    let set = IsLinked-IsSetOf l in
    let next = split_next h xs p ys es l in
    let ne = inserted_ne xs p n ys es new nz in
    let made = link_bin_new h p n ne.0 (rw next ne.1) in
    let kept = link_bin_kept h p n in
    record {
      chain =
          Seg-insert h.bins (link_bin p n h).bins xs p n ys set (omega arith) made.0 (made.1 ∙ next)
            (λ q nq qz. rw (← next) (let c = link_bin_other h p n q ne.0 nq qz in (c.0, c.1)))
            l.chain;
      empties = rw kept.1 (
          Chain-frame h.bins (link_bin p n h).bins h.empty_head es
            (λ q b.
              let a = apart xs p ys es l q b in
              (link_bin_other h p n q ne.0 (ne.2 q b) a.1).1 ∙ rw (==-false a.0) refl)
            l.empties);
      head = kept.0 ∙ l.head ∙ first_inserted xs p n ys;
      tail = link_bin_tail h p n xs ys set l.tail;
      once = λ q. inserted_once xs p n ys es new q (l.once q);
      null = inserted_null xs p n ys es new nz l.null;
      below = λ q b. rw kept.2 (inserted_below xs p n ys es new q h.bin_hiaddr low (l.below q) b);
    }

add_bin_eq :
    (p addr size : ℕ) (h : Heap)
    → p ≢ 0
    → bin_start ≤ addr
    → 0 < size
    → add_bin p addr size h ≡ place_bin p addr size h
unfolding add_bin
add_bin_eq p addr size h nz ge pos =
    let a = ==-false nz in
    let b : ltb addr bin_start ≡ false = ground arith in
    let c : (size == 0) ≡ false = ground arith in rw (a, b, c) refl

-- What `add_bin` does when it adds a bin behind `p`.
pub record Added (h : Heap) (xs : List ℕ) (p : ℕ) (ys : List ℕ) (addr size : ℕ) (out : ℕ × Heap)
    : Type 0 where
  pub es : List ℕ
  pub linked : IsLinked out.1 (xs ++ p ∷ out.0 ∷ ys) es
  pub new : count out.0 (xs ++ p ∷ ys) ≡ 0
  pub ne_null : out.0 ≢ 0
  pub block :
      ((out.1.bins out.0).addr ≡ addr)
      × ((out.1.bins out.0).size ≡ size % 2 ^ 31)
      × ((out.1.bins out.0).taken ≡ false)
  pub others : (q : ℕ) → q ≢ out.0 → SameBlock (out.1.bins q) (h.bins q)

fill_bin_links :
    (bin addr size : ℕ) (h : Heap) (ps es : List ℕ)
    → IsLinked h ps es
    → IsLinked (fill_bin bin addr size h) ps es
unfolding fill_bin
fill_bin_links bin addr size h ps es l =
    IsLinked-frame h (fill_bin bin addr size h) ps es (λ q b. (refl, refl)) refl refl refl
      (omega arith) l

fill_bin_block :
    (bin addr size q : ℕ) (h : Heap)
    → let b = (fill_bin bin addr size h).bins q in
      (b.addr ≡ (if bin == q then addr else (h.bins q).addr))
      × (b.size ≡ (if bin == q then size % 2 ^ 31 else (h.bins q).size))
      × (b.taken ≡ (h.bins q).taken)
unfolding fill_bin
fill_bin_block bin addr size q h = (refl, refl, refl)

link_bin_free : (h : Heap) (p n : ℕ) → ((link_bin p n h).bins n).taken ≡ false
unfolding link_bin
link_bin_free h p n = ground arith

place_bin_eq :
    (p addr size : ℕ) (h : Heap)
    → let (n, h1) = find_free_bin h in
      place_bin p addr size h ≡ (n, fill_bin n addr size (link_bin p n h1))
unfolding place_bin
place_bin_eq p addr size h = refl

place_bin-Added :
    (h : Heap) (xs : List ℕ) (p : ℕ) (ys es : List ℕ) (addr size : ℕ)
    → IsLinked h (xs ++ p ∷ ys) es
    → h.bin_hiaddr + 16 < 2 ^ 32
    → Added h xs p ys addr size (place_bin p addr size h)
place_bin-Added h xs p ys es addr size l room = rw (place_bin_eq p addr size h) (
    let f = find_free_bin-FreeBin h (xs ++ p ∷ ys) es l room in
    let n = (find_free_bin h).0 in
    let h1 = (find_free_bin h).1 in
    let h2 = link_bin p n h1 in
    let here = fill_bin_block n addr size n h2 in
    record {
      es = f.es;
      linked =
          fill_bin_links n addr size h2 (xs ++ p ∷ n ∷ ys) f.es
            (link_bin-IsLinked h1 xs p n ys f.es f.linked f.ne_null f.new f.low);
      new = omega (arith, f.new);
      ne_null = f.ne_null;
      block = (
        here.0 ∙ rw (==-self n) refl,
        here.1 ∙ rw (==-self n) refl,
        here.2 ∙ link_bin_free h1 p n,
      );
      others = λ q nq.
          let c = fill_bin_block n addr size q h2 in
          let b = link_bin_block h1 p n q nq in
          let ne = ==-false {a = n} {b = q} (λ e. nq (sym e)) in
          let o = f.same q nq in
          (
            c.0 ∙ rw ne (b.0 ∙ ap (λ t. t.addr) o),
            c.2 ∙ b.1 ∙ ap (λ t. t.taken) o,
            c.1 ∙ rw ne (b.2 ∙ ap (λ t. t.size) o),
          );
    })

-- Behind a bin of the list, at an address of the heap, `add_bin` adds a free bin of the given address
-- and size, and changes the address, size or state of no other.
pub add_bin-Added :
    (h : Heap) (xs : List ℕ) (p : ℕ) (ys es : List ℕ) (addr size : ℕ)
    → IsLinked h (xs ++ p ∷ ys) es
    → h.bin_hiaddr + 16 < 2 ^ 32
    → bin_start ≤ addr
    → 0 < size
    → Added h xs p ys addr size (add_bin p addr size h)
add_bin-Added h xs p ys es addr size l room ge pos =
    let m = middle_ne xs p ys (IsLinked-IsSetOf l) in
    subst (Added h xs p ys addr size) (sym (add_bin_eq p addr size h m.0 ge pos))
      (place_bin-Added h xs p ys es addr size l room)
