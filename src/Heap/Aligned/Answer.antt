-- ===== src/Heap/Aligned/Answer.antt =====
-- `kalloc_a` of module/heap/main.c on a well-formed heap.
use modit_micro.Base.{
  ==-self, ==-false, ==-cases, Bool-cases, true_ne_false, inl, inr, ◌⊎◌, ℕ, ◌+◌, ◌-◌, ◌%◌, ◌^◌, ◌≤◌,
  ◌<◌, ◌≡◌, ◌≢◌, ◌∙◌, refl, sym, subst, ap, arith, Bool, true, false, Option, none, some, List, [],
  ◌∷◌, ◌++◌, ◌==◌, if◌then◌else◌, length,
}
use native.Mathlib.Nat.{mod-lt}
use modit_micro.Heap.{Heap, bin_start, append_bin, add_bin, set_size, allocpgs, round16, finish}
use modit_micro.Heap.Links.{count}
use modit_micro.Heap.Adding.{Added, add_bin-Added}
use modit_micro.Heap.Tiles.{end_of, IsHeap, snoc_append, unsnoc}
use modit_micro.Heap.Split.{bin_small}
use modit_micro.Heap.Alloc.{
  Ready, last_listed, last_end, last_is_tail, append_bin_eq, appended_same, appended_listed,
  appended-IsHeap, appended_size, appended-Ready, larger, larger_same, larger_size, larger-IsHeap,
}
use modit_micro.Heap.Kalloc.{Allocated, finish-Allocated, cut-Split, round16_bounds}
use modit_micro.Heap.Aligned.{aligned_from, grow_at, grow_aligned, padding, kalloc_a}
use modit_micro.Heap.Aligned.Steps.{
  padded, Chosen, search-Chosen, Carries, Ready-after, append_bin_zero, append_bin_high,
}

padding_cases :
    (a x : ℕ)
    → 0 < a
    → ((padding a x ≡ 0) × (x % a ≡ 0)) ⊎ ((0 < padding a x) × (padding a x ≡ a - x % a))
padding_cases a x pos = ground (arith, mod-lt x pos)

grow_at_taken :
    (p a r : ℕ) (h : Heap)
    → (h.bins p).taken ≡ true
    → grow_at p a r h
      ≡ append_bin r (append_bin (padding a (((h.bins p).addr + (h.bins p).size) % 2 ^ 32)) h).1
unfolding grow_at
grow_at_taken p a r h t = rw t refl

grow_at_free :
    (p a r : ℕ) (h : Heap)
    → (h.bins p).taken ≡ false
    → grow_at p a r h
      ≡ append_bin r
          (append_bin 0 (
            allocpgs
              (h.bins p).addr
              ((a - (h.bins p).addr % a) % 2 ^ 31)
              (set_size p (a - (h.bins p).addr % a) h))).1
unfolding grow_at
grow_at_free p a r h t = rw t refl

-- A bin of `r` bytes was appended behind the last bin `p`.
record Pushed (h : Heap) (xs : List ℕ) (p r : ℕ) (out : ℕ × Heap) : Type 0 where
  es' : List ℕ
  whole : IsHeap out.1 (xs ++ p ∷ out.0 ∷ []) es'
  carries : Carries h (xs ++ p ∷ []) out.1 (xs ++ p ∷ out.0 ∷ [])
  ready : Ready h (xs ++ p ∷ []) r out
  addr : (out.1.bins out.0).addr ≡ (h.bins p).addr + (h.bins p).size
  size : (out.1.bins out.0).size ≡ r
  ne_null : out.0 ≢ 0

appended-Carries :
    (h : Heap) (xs : List ℕ) (p : ℕ) (es : List ℕ) (w : IsHeap h (xs ++ p ∷ []) es) (r : ℕ)
    (out : ℕ × Heap) (added : Added h xs p [] ((h.bins p).addr + (h.bins p).size) r out)
    → 0 < r
    → end_of h.bins bin_start (xs ++ p ∷ []) + r < 2 ^ 32
    → Carries h (xs ++ p ∷ []) out.1 (xs ++ p ∷ out.0 ∷ [])
appended-Carries h xs p es w r out added pos room = record {
  listed = λ q b. omega (arith, appended_listed h xs p es w r out added pos room q);
  same = λ q b t. appended_same h xs p es w r out added pos room q b;
  no_more = λ q c t. elim (==-cases out.0 q) [
    | inl e ↦
        absurd (true_ne_false (sym t ∙ subst (λ x. (out.1.bins x).taken ≡ false) e added.block.2))
    | inr ne ↦
        (let old : 0 < count q (xs ++ p ∷ []) =
            ground (arith, appended_listed h xs p es w r out added pos room q) in
          (old, sym (appended_same h xs p es w r out added pos room q old).1 ∙ t))
  ];
}

append_bin-Pushed :
    (h : Heap) (xs : List ℕ) (p : ℕ) (es : List ℕ) (r : ℕ)
    → IsHeap h (xs ++ p ∷ []) es
    → 0 < r
    → end_of h.bins bin_start (xs ++ p ∷ []) + r < 2 ^ 32
    → h.bin_hiaddr + 16 < 2 ^ 32
    → Pushed h xs p r (append_bin r h)
append_bin-Pushed h xs p es r w pos room hi =
    let small = bin_small h (xs ++ p ∷ []) es p w (last_listed h xs p es w) in
    let out = add_bin p ((h.bins p).addr + (h.bins p).size) r h in
    let added =
      add_bin-Added h xs p [] es ((h.bins p).addr + (h.bins p).size) r w.linked hi
        (omega (arith, small.0)) pos in
    subst (Pushed h xs p r) (sym (append_bin_eq h xs p es w r)) (record {
      es' = added.es;
      whole = appended-IsHeap h xs p es w r out added pos room;
      carries = appended-Carries h xs p es w r out added pos room;
      ready = appended-Ready h xs p es w r out added pos room;
      addr = added.block.0;
      size = appended_size h xs p es w r out added pos room;
      ne_null = added.ne_null;
    })

-- A bin behind an end that is a multiple of `a`.
record Placed (h : Heap) (ps : List ℕ) (r a : ℕ) (out : ℕ × Heap) : Type 0 where
  ready : Ready h ps r out
  aligned : (out.1.bins out.0).addr % a ≡ 0
  ne_null : out.0 ≢ 0

Pushed-Placed :
    (h : Heap) (xs : List ℕ) (p r a : ℕ) (out : ℕ × Heap)
    → ((h.bins p).addr + (h.bins p).size) % a ≡ 0
    → Pushed h xs p r out
    → Placed h (xs ++ p ∷ []) r a out
Pushed-Placed h xs p r a out e u = record {
  ready = u.ready;
  aligned = ap (λ t. t % a) u.addr ∙ e;
  ne_null = u.ne_null;
}

Placed-after :
    (h : Heap) (ps : List ℕ) (h1 : Heap) (ps1 : List ℕ) (r a : ℕ) (out : ℕ × Heap)
    → Carries h ps h1 ps1
    → Placed h1 ps1 r a out
    → Placed h ps r a out
Placed-after h ps h1 ps1 r a out c u = record {
  ready = Ready-after h ps h1 ps1 r out c u.ready;
  aligned = u.aligned;
  ne_null = u.ne_null;
}

-- What the memory must have left.
abbrev pub HasRoomFor : ℕ → ℕ → Heap → List ℕ → Type 0
HasRoomFor s a h ps =
    (end_of h.bins bin_start ps + a + s + 15 < 2 ^ 32) × (h.bin_hiaddr + 32 < 2 ^ 32)

module _ (h : Heap) (xs : List ℕ) (p : ℕ) (es : List ℕ) (r a : ℕ) (w : IsHeap h (xs ++ p ∷ []) es)
    (pos : 0 < r) (apos : 0 < a) (room : end_of h.bins bin_start (xs ++ p ∷ []) + a + r < 2 ^ 32)
    (hi : h.bin_hiaddr + 32 < 2 ^ 32) where
  abbrev end : ℕ
  end = (h.bins p).addr + (h.bins p).size

  end_low : end + a + r < 2 ^ 32
  end_low = omega (arith, last_end h xs p es w)

  -- The end is a multiple of `a` already.
  unpadded : end % a ≡ 0 → Placed h (xs ++ p ∷ []) r a (append_bin r (append_bin 0 h).1)
  unpadded e = rw (append_bin_zero h) (
      Pushed-Placed h xs p r a (append_bin r h) e
        (append_bin-Pushed h xs p es r w pos (omega arith) (omega arith)))

  padded_twice :
      (n m : ℕ) (h1 : Heap) (es' : List ℕ)
      → IsHeap h1 (xs ++ p ∷ n ∷ []) es'
      → Carries h (xs ++ p ∷ []) h1 (xs ++ p ∷ n ∷ [])
      → (h1.bins n).addr + (h1.bins n).size ≡ end + m
      → m ≤ a
      → (end + m) % a ≡ 0
      → h1.bin_hiaddr + 16 < 2 ^ 32
      → Placed h (xs ++ p ∷ []) r a (append_bin r h1)
  padded_twice n m h1 es' w1 c e le mult hi1 =
      let shape = snoc_append xs p (n ∷ []) in
      let w2 = subst (λ t. IsHeap h1 t es') (sym shape) w1 in
      let c2 = subst (λ t. Carries h (xs ++ p ∷ []) h1 t) (sym shape) c in
      let room1 : end_of h1.bins bin_start ((xs ++ p ∷ []) ++ n ∷ []) + r < 2 ^ 32 =
        omega (arith, last_end h1 (xs ++ p ∷ []) n es' w2, end_low) in
      Placed-after h (xs ++ p ∷ []) h1 ((xs ++ p ∷ []) ++ n ∷ []) r a (append_bin r h1) c2 (
        Pushed-Placed h1 (xs ++ p ∷ []) n r a (append_bin r h1) (ap (λ t. t % a) e ∙ mult)
          (append_bin-Pushed h1 (xs ++ p ∷ []) n es' r w2 pos room1 hi1))

  padded_once :
      (m : ℕ)
      → 0 < m
      → m ≤ a
      → (end + m) % a ≡ 0
      → Placed h (xs ++ p ∷ []) r a (append_bin r (append_bin m h).1)
  padded_once m mp le mult =
      let u = append_bin-Pushed h xs p es m w mp (omega arith) (omega arith) in
      let out = append_bin m h in
      padded_twice out.0 m out.1 u.es' u.whole u.carries (omega (arith, u.addr, u.size)) le mult
        (omega (arith, append_bin_high m h))

  -- A free last bin is made to end at a multiple of `a`.
  stretched :
      (fr : (h.bins p).taken ≡ false) (m : ℕ) (mp : 0 < m)
      (fits : end_of h.bins bin_start (xs ++ p ∷ []) + m < 2 ^ 32) (mem : List (ℕ × ℕ))
      → m ≤ a
      → ((h.bins p).addr + m) % a ≡ 0
      → Placed h
          (xs ++ p ∷ [])
          r
          a
          (append_bin r (append_bin 0 (larger h xs p es w m fr mp fits mem)).1)
  stretched fr m mp fits mem le mult =
      let h1 = larger h xs p es w m fr mp fits mem in
      let w1 = larger-IsHeap h xs p es w m fr mp fits mem in
      let size = larger_size h xs p es w m fr mp fits mem in
      let apart : (q : ℕ) → (h.bins q).taken ≡ true → p ≢ q =
        λ q t e. true_ne_false (sym t ∙ subst (λ x. (h.bins x).taken ≡ false) e fr) in
      let room1 : end_of h1.bins bin_start (xs ++ p ∷ []) + r < 2 ^ 32 =
        omega (arith, last_end h1 xs p es w1, size, end_low) in
      let at : (h1.bins p).addr + (h1.bins p).size ≡ (h.bins p).addr + m = omega (arith, size) in
      rw (append_bin_zero h1) (
        Placed-after h (xs ++ p ∷ []) h1 (xs ++ p ∷ []) r a (append_bin r h1)
          (record {
            listed = λ q b. b;
            same = λ q b t. larger_same h xs p es w m fr mp fits mem q (apart q t);
            no_more = λ q b t. (b, t);
          })
          (Pushed-Placed h1 xs p r a (append_bin r h1) (ap (λ t. t % a) at ∙ mult)
            (append_bin-Pushed h1 xs p es r w1 pos room1 (omega arith))))

  grow_aligned_tail : grow_aligned a r h ≡ grow_at p a r h
  unfolding grow_aligned
  grow_aligned_tail = ap (λ t. grow_at t a r h) (last_is_tail h xs p es w)

  grow_aligned_taken :
      (h.bins p).taken ≡ true → grow_aligned a r h ≡ append_bin r (append_bin (padding a end) h).1
  grow_aligned_taken t =
      let low : end % 2 ^ 32 ≡ end = omega (arith, end_low) in
      grow_aligned_tail
      ∙ grow_at_taken p a r h t
      ∙ ap (λ e. append_bin r (append_bin (padding a e) h).1) low

  grow_aligned-Placed : Placed h (xs ++ p ∷ []) r a (grow_aligned a r h)
  grow_aligned-Placed = elim (Bool-cases (h.bins p).taken) [
    | inl t ↦
        subst (Placed h (xs ++ p ∷ []) r a) (sym (grow_aligned_taken t))
          (elim (padding_cases a end apos) [
            | inl (z, e) ↦ rw z (unpadded e)
            | inr (mp, e) ↦
                padded_once (padding a end) mp (omega (arith, e))
                  (ap (λ t. (end + t) % a) e ∙ padded a end apos)
          ])
    | inr f ↦
        (let m = a - (h.bins p).addr % a in
          let mp : 0 < m = omega (arith, mod-lt (h.bins p).addr apos) in
          let fits : end_of h.bins bin_start (xs ++ p ∷ []) + m < 2 ^ 32 = omega arith in
          subst (Placed h (xs ++ p ∷ []) r a) (sym (grow_aligned_tail ∙ grow_at_free p a r h f)) (
            stretched f m mp fits (((h.bins p).addr, m % 2 ^ 31) ∷ h.mapped) (omega arith)
              (padded a (h.bins p).addr apos)))
  ]

-- The bin that `kalloc_a` cuts and marks begins at a multiple of `a`.
finish_aligned :
    (h h1 : Heap) (ps : List ℕ) (r a b : ℕ)
    → 0 < r
    → Ready h ps r (b, h1)
    → (h1.bins b).addr % a ≡ 0
    → (finish r (b, h1)).0 % a ≡ 0
unfolding finish
finish_aligned h h1 ps r a b pos rd e =
    let sp = cut-Split h1 rd.ps1 rd.es1 b r rd.whole rd.listed pos rd.enough rd.header in
    ap (λ t. t % a) sp.block.0 ∙ e

answer_aligned :
    (h : Heap) (ps : List ℕ) (s a : ℕ) (out : ℕ × Heap)
    → out.0 % a ≡ 0
    → (m : Allocated h ps s (some out)) → (m.heap.bins m.bin).addr % a ≡ 0
answer_aligned h ps s a out e m =
    let same : out.0 ≡ (m.heap.bins m.bin).addr =
      ap (λ o. elim o [ none ↦ 0 | some x ↦ x.0 ]) m.done in
    sym (ap (λ t. t % a) same) ∙ e

-- What `kalloc_a` answers: as `kalloc`, at a multiple of `a`.
abbrev pub AllocatedAt : Heap → List ℕ → ℕ → ℕ → Option (ℕ × Heap) → Type 0
AllocatedAt h ps s a out = (m : Allocated h ps s out) × ((m.heap.bins m.bin).addr % a ≡ 0)

finished :
    (h h1 : Heap) (ps : List ℕ) (s a b : ℕ)
    → 0 < round16 s
    → Ready h ps (round16 s) (b, h1)
    → (h1.bins b).addr % a ≡ 0
    → AllocatedAt h ps s a (some (finish (round16 s) (b, h1)))
finished h h1 ps s a b pos rd e =
    let m = finish-Allocated h ps s b h1 pos rd in
    (
      m,
      answer_aligned h ps s a (finish (round16 s) (b, h1))
          (finish_aligned h h1 ps (round16 s) a b pos rd e) m,
    )

Chosen-Ready :
    (h : Heap) (ps es : List ℕ) (r a b : ℕ)
    → IsHeap h ps es
    → Chosen r a h.bins 0 ps b
    → b ≢ 0
    → h.bin_hiaddr + 16 < 2 ^ 32
    → Ready h ps r (b, h)
Chosen-Ready h ps es r a b w c nz hi = record {
  ps1 = ps;
  es1 = es;
  whole = w;
  listed = c.from nz;
  free = (c.fits nz).0;
  enough = (c.fits nz).1;
  header = λ lt. hi;
  was_free = λ l. (c.fits nz).0;
  kept = λ q l t. (l, (refl, refl, refl));
  no_more = λ q l t. (l, t);
}

grown :
    (h : Heap) (ps es : List ℕ) (r a : ℕ)
    → IsHeap h ps es
    → ps ≢ []
    → 0 < r
    → 0 < a
    → end_of h.bins bin_start ps + a + r < 2 ^ 32
    → h.bin_hiaddr + 32 < 2 ^ 32
    → Placed h ps r a (grow_aligned a r h)
grown h ps es r a w ne pos apos room hi =
    let (xs, p, e) = unsnoc ps ne in
    subst (λ t. Placed h t r a (grow_aligned a r h)) (sym e)
      (grow_aligned-Placed h xs p es r a (subst (λ t. IsHeap h t es) e w) pos apos
        (subst (λ t. end_of h.bins bin_start t + a + r < 2 ^ 32) e room) hi)

kalloc_a_searches :
    (fuel s a : ℕ) (h : Heap) (b : ℕ)
    → 0 < s
    → a % 16 ≡ 0
    → 0 < a
    → aligned_from fuel s (round16 s) a h.bin_head 0 h ≡ some b
    → kalloc_a fuel s a h ≡ (
        if b == 0
        then (if (grow_aligned a (round16 s) h).0 == 0
            then none
            else some (finish (round16 s) (grow_aligned a (round16 s) h)))
        else some (finish (round16 s) (b, h)))
unfolding kalloc_a aligned_from grow_aligned finish
kalloc_a_searches fuel s a h b pos mult apos done =
    rw
      (
        kalloc_a,
        ==-false {a = s} {b = 0} (λ z. absurd (omega arith)),
        mult,
        ==-self 0,
        ==-false {a = a} {b = 0} (λ z. absurd (omega arith)),
        done,
      )
      refl

if_true : {A : Type 0} (c : Bool) (x y : A) → c ≡ true → (if c then x else y) ≡ x
if_true c x y e = rw e refl

if_false : {A : Type 0} (c : Bool) (x y : A) → c ≡ false → (if c then x else y) ≡ y
if_false c x y e = rw e refl

-- On a well-formed heap with room behind its last bin, for an alignment `a` that is a multiple of 16
-- and not 0, and with more fuel than there are bins, `kalloc_a` answers as `kalloc` does, and the
-- address is a multiple of `a`.
pub kalloc_a-AllocatedAt :
    (fuel s a : ℕ) (h : Heap) (ps es : List ℕ)
    → IsHeap h ps es
    → ps ≢ []
    → 0 < s
    → a % 16 ≡ 0
    → 0 < a
    → HasRoomFor s a h ps
    → length ps < fuel
    → AllocatedAt h ps s a (kalloc_a fuel s a h)
kalloc_a-AllocatedAt fuel s a h ps es w ne pos mult apos room f =
    let (b, done, c) = search-Chosen fuel s (round16 s) a h ps es w.linked f in
    let r = round16_bounds s pos (omega (arith, room.0)) in
    let u = grown h ps es (round16 s) a w ne r.0 apos (omega (arith, room.0, r.2)) room.1 in
    let out = grow_aligned a (round16 s) h in
    let eq = kalloc_a_searches fuel s a h b pos mult apos done in
    elim (==-cases b 0) [
      | inl e ↦
          subst (AllocatedAt h ps s a)
            (sym (
              eq
              ∙ if_true (b == 0) (if out.0 == 0 then none else some (finish (round16 s) out))
                  (some (finish (round16 s) (b, h))) (ap (λ t. t == 0) e ∙ ==-self 0)
              ∙ if_false (out.0 == 0) none (some (finish (round16 s) out)) (==-false u.ne_null)))
            (finished h out.1 ps s a out.0 r.0 u.ready u.aligned)
      | inr nz ↦
          (let nb : b ≢ 0 = λ z. true_ne_false (sym (ap (λ t. t == 0) z ∙ ==-self 0) ∙ nz) in
            subst (AllocatedAt h ps s a)
              (sym (
                eq
                ∙ if_false (b == 0) (if out.0 == 0 then none else some (finish (round16 s) out))
                    (some (finish (round16 s) (b, h))) nz))
              (finished h h ps s a b r.0
                (Chosen-Ready h ps es (round16 s) a b w c nb (omega (arith, room.1)))
                (c.fits nb).2))
    ]
