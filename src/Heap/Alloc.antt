-- ===== src/Heap/Alloc.antt =====
-- The bin that `kalloc` of module/heap/main.c is about to cut and to mark: the best fit, a bin appended
-- behind the last one, or the last one made larger.
use modit_micro.Base.{
  ==-self, ==-false, ℕ, ◌+◌, ◌%◌, ◌^◌, ◌≤◌, ◌<◌, ◌≡◌, ◌≢◌, inl, inr, ◌∙◌, refl, sym, subst, ap,
  arith, true, false, List, [], ◌∷◌, ◌++◌, ◌==◌, if◌then◌else◌, ==-cases, true_ne_false, Bool-cases,
}
use modit_micro.Heap.{Heap, bin_start, set_size, allocpgs, add_bin, append_bin, grow}
use modit_micro.Heap.Links.{count, count-append, last-append, left_ne}
use modit_micro.Heap.Bins.{IsLinked-IsSetOf, IsLinked-frame, SameBlock}
use modit_micro.Heap.Adding.{Added, add_bin-Added}
use modit_micro.Heap.Tiles.{
  end_of, Tiles, IsHeap, Tiles-split, Tiles-replace, end_of-replace, end_of-append, end_of_ge,
}
use modit_micro.Heap.Fit.{Found}
use modit_micro.Heap.Split.{bin_small}

-- A bin that `kalloc` is about to cut to `r` bytes and to mark.
pub record Ready (h : Heap) (ps : List ℕ) (r : ℕ) (out : ℕ × Heap) : Type 0 where
  pub ps1 : List ℕ
  pub es1 : List ℕ
  pub whole : IsHeap out.1 ps1 es1
  pub listed : 0 < count out.0 ps1
  pub free : (out.1.bins out.0).taken ≡ false
  pub enough : r ≤ (out.1.bins out.0).size
  pub header : r < (out.1.bins out.0).size → out.1.bin_hiaddr + 16 < 2 ^ 32
  pub was_free : 0 < count out.0 ps → (h.bins out.0).taken ≡ false
  pub kept :
      (q : ℕ)
      → 0 < count q ps
      → (h.bins q).taken ≡ true
      → (0 < count q ps1) × SameBlock (out.1.bins q) (h.bins q)
  pub no_more :
      (q : ℕ)
      → 0 < count q ps1
      → (out.1.bins q).taken ≡ true
      → (0 < count q ps) × ((h.bins q).taken ≡ true)

-- The best fit, used as it is.
pub Found-Ready :
    (h : Heap) (ps es : List ℕ) (r b : ℕ)
    → IsHeap h ps es
    → Found r h ps b
    → b ≢ 0
    → h.bin_hiaddr + 16 < 2 ^ 32
    → Ready h ps r (b, h)
Found-Ready h ps es r b w f nz hi = record {
  ps1 = ps;
  es1 = es;
  whole = w;
  listed = f.listed nz;
  free = (f.free nz).0;
  enough = (f.free nz).1;
  header = λ lt. hi;
  was_free = λ c. (f.free nz).0;
  kept = λ q c t. (c, (refl, refl, refl));
  no_more = λ q c t. (c, t);
}

-- The last bin of a list ends where the heap ends.
module _ (h : Heap) (xs : List ℕ) (p : ℕ) (es : List ℕ) (w : IsHeap h (xs ++ p ∷ []) es) where
  pub last_listed : 0 < count p (xs ++ p ∷ [])
  last_listed = ground (arith, count-append p xs (p ∷ []))

  last_tile : Tiles h.bins bin_start xs × Tiles h.bins (end_of h.bins bin_start xs) (p ∷ [])
  last_tile = Tiles-split h.bins bin_start xs (p ∷ []) w.tiles

  last_addr : (h.bins p).addr ≡ end_of h.bins bin_start xs
  last_addr = go last_tile
    where
      go :
          Tiles h.bins bin_start xs × Tiles h.bins (end_of h.bins bin_start xs) (p ∷ [])
          → (h.bins p).addr ≡ end_of h.bins bin_start xs
      go (t, u) = u.0

  pub last_end : end_of h.bins bin_start (xs ++ p ∷ []) ≡ (h.bins p).addr + (h.bins p).size
  last_end = omega (arith, end_of-append h.bins bin_start xs (p ∷ []), last_addr)

  pub last_is_tail : h.bin_tail ≡ p
  last_is_tail = w.linked.tail ∙ last-append 0 xs (p ∷ [])

  pub append_bin_eq : (r : ℕ) → append_bin r h ≡ add_bin p ((h.bins p).addr + (h.bins p).size) r h
  unfolding append_bin
  append_bin_eq r =
      let small : ((h.bins p).addr + (h.bins p).size) % 2 ^ 32 ≡ (h.bins p).addr + (h.bins p).size =
        omega (arith, last_end, w.room) in
      rw (last_is_tail, small) refl

  -- A bin `out.0` was added behind the last one.
  module _ (r : ℕ) (out : ℕ × Heap)
      (added : Added h xs p [] ((h.bins p).addr + (h.bins p).size) r out) (pos : 0 < r)
      (room : end_of h.bins bin_start (xs ++ p ∷ []) + r < 2 ^ 32) where
    pub appended_same : (q : ℕ) → 0 < count q (xs ++ p ∷ []) → SameBlock (out.1.bins q) (h.bins q)
    appended_same q b =
        added.others q
          (λ e. absurd (omega (arith, added.new, subst (λ t. 0 < count t (xs ++ p ∷ [])) e b)))

    pub appended_size : (out.1.bins out.0).size ≡ r
    appended_size =
        let small : r % 2 ^ 31 ≡ r =
          omega (arith, room, end_of_ge h.bins bin_start (xs ++ p ∷ [])) in
        added.block.1 ∙ small

    pub appended_listed :
        (q : ℕ)
        → count q (xs ++ p ∷ out.0 ∷ []) ≡ count q (xs ++ p ∷ []) + (if out.0 == q then 1 else 0)
    appended_listed q =
        omega (arith, count-append q xs (p ∷ []), count-append q xs (p ∷ out.0 ∷ []))

    pub appended-IsHeap : IsHeap out.1 (xs ++ p ∷ out.0 ∷ []) added.es
    appended-IsHeap =
        let same = λ (q : ℕ) (b : 0 < count q xs).
          appended_same q (omega (arith, count-append q xs (p ∷ []))) in
        let here = appended_same p last_listed in
        let e = end_of-replace h.bins out.1.bins bin_start xs (p ∷ out.0 ∷ []) same in
        let small = bin_small h (xs ++ p ∷ []) es p w last_listed in
        let (t, u) = last_tile in
        record {
          linked = added.linked;
          tiles = Tiles-replace h.bins out.1.bins bin_start xs (p ∷ out.0 ∷ []) same t (
            here.0 ∙ u.0,
            omega (arith, here.2, u.1),
            (omega (arith, added.block.0, here.2, last_addr), omega (arith, appended_size), tt),
          );
          room = omega (arith, e, here.2, appended_size, last_end, last_addr);
        }

    pub appended-Ready : Ready h (xs ++ p ∷ []) r out
    appended-Ready = record {
      ps1 = xs ++ p ∷ out.0 ∷ [];
      es1 = added.es;
      whole = appended-IsHeap;
      listed = ground (arith, appended_listed out.0);
      free = added.block.2;
      enough = omega (arith, appended_size);
      header = λ lt. absurd (omega (arith, appended_size));
      was_free = λ c. absurd (omega (arith, added.new));
      kept = λ q c t. (omega (arith, appended_listed q), appended_same q c);
      no_more = λ q c t. elim (==-cases out.0 q) [
        | inl e ↦
            absurd
              (true_ne_false (sym t ∙ subst (λ x. (out.1.bins x).taken ≡ false) e added.block.2))
        | inr ne ↦
            (let old : 0 < count q (xs ++ p ∷ []) = ground (arith, appended_listed q) in
              (old, sym (appended_same q old).1 ∙ t))
      ];
    }

  -- The last bin, which is free but too small, made larger.
  module _ (r : ℕ) (fr : (h.bins p).taken ≡ false) (pos : 0 < r)
      (room : end_of h.bins bin_start (xs ++ p ∷ []) + r < 2 ^ 32) (mem : List (ℕ × ℕ)) where
    abbrev pub larger : Heap
    larger = record (set_size p r h) { mapped = mem }

    pub larger_same : (q : ℕ) → p ≢ q → SameBlock (larger.bins q) (h.bins q)
    larger_same q ne = (refl, refl, rw (==-false ne) refl)

    pub larger_size : (larger.bins p).size ≡ r
    larger_size =
        let small : r % 2 ^ 31 ≡ r =
          omega (arith, room, end_of_ge h.bins bin_start (xs ++ p ∷ [])) in
        rw (==-self p) small

    pub larger-IsHeap : IsHeap larger (xs ++ p ∷ []) es
    larger-IsHeap =
        let same = λ (q : ℕ) (b : 0 < count q xs).
          larger_same q (left_ne xs p [] (IsLinked-IsSetOf w.linked) q b).1 in
        let e = end_of-replace h.bins larger.bins bin_start xs (p ∷ []) same in
        let (t, u) = last_tile in
        record {
          linked =
              IsLinked-frame h larger (xs ++ p ∷ []) es (λ q b. (refl, refl)) refl refl refl
                (omega arith) w.linked;
          tiles =
              Tiles-replace h.bins larger.bins bin_start xs (p ∷ []) same t
                (u.0, omega (arith, larger_size), tt);
          room = omega (arith, e, larger_size, last_end, last_addr);
        }

    larger-Ready : Ready h (xs ++ p ∷ []) r (p, larger)
    larger-Ready =
        let apart : (q : ℕ) → (h.bins q).taken ≡ true → p ≢ q =
          λ q t e. true_ne_false (sym t ∙ subst (λ x. (h.bins x).taken ≡ false) e fr) in
        record {
          ps1 = xs ++ p ∷ [];
          es1 = es;
          whole = larger-IsHeap;
          listed = last_listed;
          free = fr;
          enough = omega (arith, larger_size);
          header = λ lt. absurd (omega (arith, larger_size));
          was_free = λ c. fr;
          kept = λ q c t. (c, larger_same q (apart q t));
          no_more = λ q c t. (c, t);
        }

grow_eq :
    (h : Heap) (xs : List ℕ) (p : ℕ) (es : List ℕ) (r : ℕ)
    → IsHeap h (xs ++ p ∷ []) es
    → grow r h ≡ (
        if (h.bins p).taken
        then append_bin r h
        else (p, allocpgs (h.bins p).addr ((r + 1) % 2 ^ 32) (set_size p r h)))
unfolding grow
grow_eq h xs p es r w =
    ap
      (λ t.
        if (h.bins t).taken
        then append_bin r h
        else (t, allocpgs (h.bins t).addr ((r + 1) % 2 ^ 32) (set_size t r h)))
      (last_is_tail h xs p es w)

-- Where no free bin has room, `grow` makes one behind the others, if the memory has room for it.
pub grow-Ready :
    (h : Heap) (xs : List ℕ) (p : ℕ) (es : List ℕ) (r : ℕ)
    → IsHeap h (xs ++ p ∷ []) es
    → 0 < r
    → end_of h.bins bin_start (xs ++ p ∷ []) + r < 2 ^ 32
    → h.bin_hiaddr + 16 < 2 ^ 32
    → Ready h (xs ++ p ∷ []) r (grow r h)
grow-Ready h xs p es r w pos room hi = elim (Bool-cases (h.bins p).taken) [
  | inl t ↦
      (let a : ((h.bins p).addr + (h.bins p).size) ≡ end_of h.bins bin_start (xs ++ p ∷ []) =
          sym (last_end h xs p es w) in
        let small = bin_small h (xs ++ p ∷ []) es p w (last_listed h xs p es w) in
        let added =
          add_bin-Added h xs p [] es ((h.bins p).addr + (h.bins p).size) r w.linked hi
            (omega (arith, small.0)) pos in
        rw (grow_eq h xs p es r w, t, append_bin_eq h xs p es w r)
          (appended-Ready h xs p es w r (add_bin p ((h.bins p).addr + (h.bins p).size) r h) added
            pos room))
  | inr f ↦
      rw (grow_eq h xs p es r w, f)
        (larger-Ready h xs p es w r f pos room (((h.bins p).addr, (r + 1) % 2 ^ 32) ∷ h.mapped))
]
