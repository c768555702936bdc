-- ===== src/Heap/Bins.antt =====
-- The list of bins of module/heap/main.c with the chain of empty headers, and `find_free_bin`, which
-- finds a header for a new bin.
use modit_micro.Base.{
  ==-false, ℕ, ◌+◌, ◌%◌, ◌^◌, ◌≤◌, ◌<◌, ◌≡◌, ◌≢◌, ◌∙◌, refl, sym, arith, true, false, List, [], ◌∷◌,
  ◌==◌,
}
use modit_micro.Heap.{Bin, Heap, fresh_bin, find_free_bin}
use modit_micro.Heap.Links.{
  count, first, last, Seg, Seg-frame, Chain, Chain-frame, SameLinks, IsSetOf,
}

-- The list of bins is `ps`, and the chain of empty headers is `es`.
pub record IsLinked (h : Heap) (ps es : List ℕ) : Type 0 where
  pub chain : Seg h.bins 0 ps 0
  pub empties : Chain h.bins h.empty_head es
  pub head : h.bin_head ≡ first ps 0
  pub tail : h.bin_tail ≡ last 0 ps
  pub once : (q : ℕ) → count q ps + count q es ≤ 1
  pub null : count 0 ps + count 0 es ≡ 0
  pub below : (q : ℕ) → 0 < count q ps + count q es → q ≤ h.bin_hiaddr

-- What a bin says of its memory.
abbrev pub SameBlock : Bin → Bin → Type 0
SameBlock a b = (a.addr ≡ b.addr) × (a.taken ≡ b.taken) × (a.size ≡ b.size)

pub IsLinked-IsSetOf : {h : Heap} {ps es : List ℕ} → IsLinked h ps es → IsSetOf ps
IsLinked-IsSetOf l = record { once = λ q. omega (arith, l.once q); null = omega (arith, l.null) }

-- A header that is in neither list, in a heap that is otherwise as before.
pub record FreeBin (h h1 : Heap) (n : ℕ) (ps : List ℕ) : Type 0 where
  pub es : List ℕ
  pub linked : IsLinked h1 ps es
  pub ne_null : n ≢ 0
  pub new : count n ps + count n es ≡ 0
  pub low : n ≤ h1.bin_hiaddr
  pub same : (q : ℕ) → q ≢ n → h1.bins q ≡ h.bins q
  pub tail : h1.bin_tail ≡ h.bin_tail

-- What a list does not reach may change.
pub IsLinked-frame :
    (h h1 : Heap) (ps es : List ℕ)
    → ((q : ℕ) → 0 < count q ps + count q es → SameLinks (h1.bins q) (h.bins q))
    → h1.bin_head ≡ h.bin_head
    → h1.bin_tail ≡ h.bin_tail
    → h1.empty_head ≡ h.empty_head
    → h.bin_hiaddr ≤ h1.bin_hiaddr
    → IsLinked h ps es
    → IsLinked h1 ps es
IsLinked-frame h h1 ps es same eh et ee le l = record {
  chain = Seg-frame h.bins h1.bins 0 ps 0 (λ q b. same q (omega arith)) l.chain;
  empties =
      rw ee
        (Chain-frame h.bins h1.bins h.empty_head es (λ q b. (same q (omega arith)).1) l.empties);
  head = eh ∙ l.head;
  tail = et ∙ l.tail;
  once = l.once;
  null = l.null;
  below = λ q b. omega (arith, l.below q b);
}

fresh_apart :
    (h : Heap) (ps es : List ℕ)
    → IsLinked h ps es
    → h.bin_hiaddr + 16 < 2 ^ 32
    → (q : ℕ) → 0 < count q ps + count q es
    → (fresh_bin h).0 ≢ q
unfolding fresh_bin
fresh_apart h ps es l room q b e = absurd (omega (arith, l.below q b))

fresh_same : (h : Heap) (q : ℕ) → (fresh_bin h).0 ≢ q → (fresh_bin h).1.bins q ≡ h.bins q
unfolding fresh_bin
fresh_same h q ne = rw (==-false ne) refl

fresh_links :
    (h : Heap) (q : ℕ) → (fresh_bin h).0 ≢ q → SameLinks ((fresh_bin h).1.bins q) (h.bins q)
unfolding fresh_bin
fresh_links h q ne = rw (==-false ne) (refl, refl)

fresh_bin-FreeBin :
    (h : Heap) (ps : List ℕ)
    → IsLinked h ps []
    → h.bin_hiaddr + 16 < 2 ^ 32
    → FreeBin h (fresh_bin h).1 (fresh_bin h).0 ps
unfolding fresh_bin
fresh_bin-FreeBin h ps l room =
    let apart = fresh_apart h ps [] l room in
    record {
      es = [];
      linked =
          IsLinked-frame h (fresh_bin h).1 ps [] (λ q b. fresh_links h q (apart q b)) refl refl refl
            (omega arith) l;
      ne_null = omega arith;
      new = ground (arith, l.below ((h.bin_hiaddr + 16) % 2 ^ 32));
      low = omega arith;
      same = λ q ne. fresh_same h q (λ e. ne (sym e));
      tail = refl;
    }

pub find_free_bin-FreeBin :
    (h : Heap) (ps es : List ℕ)
    → IsLinked h ps es
    → h.bin_hiaddr + 16 < 2 ^ 32
    → FreeBin h (find_free_bin h).1 (find_free_bin h).0 ps
unfolding find_free_bin
find_free_bin-FreeBin h ps [] l room =
    let unused : (h.empty_head == 0) ≡ true = ground (arith, l.empties) in
    rw unused (fresh_bin-FreeBin h ps l room)
find_free_bin-FreeBin h ps (e ∷ es) l room =
    let used : (h.empty_head == 0) ≡ false = ==-false l.empties.1 in
    rw (used, l.empties.0)
      (record {
        es = es;
        linked = record {
          chain = l.chain;
          empties = l.empties.2;
          head = l.head;
          tail = l.tail;
          once = λ q. ground (arith, l.once q);
          null = ground (arith, l.null);
          below = λ q b. ground (arith, l.below q);
        };
        ne_null = ground (arith, l.null);
        new = ground (arith, l.once e);
        low = ground (arith, l.below e);
        same = λ q ne. refl;
        tail = refl;
      })
