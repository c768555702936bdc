-- ===== src/Heap/Links.antt =====
-- The links between the bins of module/heap/main.c: segments of the doubly linked list, the chain of
-- empty headers, and the frame laws.
use modit_micro.Base.{
  ==-false, ℕ, ◌+◌, ◌≤◌, ◌<◌, ◌≡◌, ◌≢◌, ◌∙◌, refl, arith, List, [], ◌∷◌, ◌++◌, ◌==◌, if◌then◌else◌,
  sym, subst,
}
use modit_micro.Heap.{Bin}

-- How often a pointer stands in a list. With at most one, it is a set.
abbrev pub count : ℕ → List ℕ → ℕ
count q [] = 0
count q (p ∷ ps) = (if p == q then 1 else 0) + count q ps

pub count-append : (q : ℕ) (xs ys : List ℕ) → count q (xs ++ ys) ≡ count q xs + count q ys
count-append q [] ys = omega arith
count-append q (x ∷ xs) ys = ground (arith, count-append q xs ys)

abbrev pub first : List ℕ → ℕ → ℕ
first [] after = after
first (p ∷ ps) after = p

abbrev pub last : ℕ → List ℕ → ℕ
last before [] = before
last before (p ∷ ps) = last p ps

pub last-append : (before : ℕ) (xs ys : List ℕ) → last before (xs ++ ys) ≡ last (last before xs) ys
last-append before [] ys = refl
last-append before (x ∷ xs) ys = last-append x xs ys

pub first-append : (xs ys : List ℕ) (after : ℕ) → first (xs ++ ys) after ≡ first xs (first ys after)
first-append [] ys after = refl
first-append (x ∷ xs) ys after = refl

-- The bins `ps` are linked both ways, between `before` and `after`.
abbrev pub Seg : (ℕ → Bin) → ℕ → List ℕ → ℕ → Type 0
Seg f before [] after = Unit {0}
Seg f before (p ∷ ps) after =
    ((f p).prev ≡ before) × ((f p).next ≡ first ps after) × Seg f p ps after

pub Seg-split :
    (f : ℕ → Bin) (before : ℕ) (xs ys : List ℕ) (after : ℕ)
    → Seg f before (xs ++ ys) after
    → Seg f before xs (first ys after) × Seg f (last before xs) ys after
Seg-split f before [] ys after s = (tt, s)
Seg-split f before (x ∷ xs) ys after s =
    let (a, b) = Seg-split f x xs ys after s.2 in ((s.0, s.1 ∙ first-append xs ys after, a), b)

pub Seg-join :
    (f : ℕ → Bin) (before : ℕ) (xs ys : List ℕ) (after : ℕ)
    → Seg f before xs (first ys after)
    → Seg f (last before xs) ys after
    → Seg f before (xs ++ ys) after
Seg-join f before [] ys after s t = t
Seg-join f before (x ∷ xs) ys after s t =
    (s.0, s.1 ∙ sym (first-append xs ys after), Seg-join f x xs ys after s.2 t)

-- Two stores agree on the links of a bin.
abbrev pub SameLinks : Bin → Bin → Type 0
SameLinks a b = (a.prev ≡ b.prev) × (a.next ≡ b.next)

pub Seg-frame :
    (f g : ℕ → Bin) (before : ℕ) (ps : List ℕ) (after : ℕ)
    → ((q : ℕ) → 0 < count q ps → SameLinks (g q) (f q))
    → Seg f before ps after
    → Seg g before ps after
Seg-frame f g before [] after same s = tt
Seg-frame f g before (p ∷ ps) after same s =
    let here = same p (ground arith) in
    (here.0 ∙ s.0, here.1 ∙ s.1, Seg-frame f g p ps after (λ q h. same q (ground arith)) s.2)

-- The chain of empty headers, by `next` alone, from `p` to NULL.
abbrev pub Chain : (ℕ → Bin) → ℕ → List ℕ → Type 0
Chain f p [] = p ≡ 0
Chain f p (e ∷ es) = (p ≡ e) × (p ≢ 0) × Chain f (f e).next es

pub Chain-frame :
    (f g : ℕ → Bin) (p : ℕ) (es : List ℕ)
    → ((q : ℕ) → 0 < count q es → (g q).next ≡ (f q).next)
    → Chain f p es
    → Chain g p es
Chain-frame f g p [] same c = c
Chain-frame f g p (e ∷ es) same c =
    let here = same e (ground arith) in
    (c.0, c.1, rw here (Chain-frame f g (f e).next es (λ q h. same q (ground arith)) c.2))

-- Every pointer stands at most once in the list, and NULL does not.
pub record IsSetOf (ps : List ℕ) : Type 0 where
  pub once : (q : ℕ) → count q ps ≤ 1
  pub null : count 0 ps ≡ 0

pub count_ne : {a b : ℕ} (ps : List ℕ) → 0 < count a ps → count b ps ≡ 0 → a ≢ b
count_ne {b} ps h e eq = absurd (omega (arith, subst (λ t. 0 < count t ps) eq h))

last_counted : (x y : ℕ) (ys : List ℕ) → 0 < count (last x (y ∷ ys)) (y ∷ ys)
last_counted x y [] = ground arith
last_counted x y (z ∷ zs) = ground (arith, last_counted y z zs)

pub last_ne : (x y : ℕ) (ys : List ℕ) → count x (x ∷ y ∷ ys) ≤ 1 → last x (y ∷ ys) ≢ x
last_ne x y ys once = count_ne (y ∷ ys) (last_counted x y ys) (ground arith)

-- The ends of a list, where they are not NULL, stand in it.
pub first_in : (q : ℕ) (ys : List ℕ) → q ≢ 0 → first ys 0 ≡ q → 0 < count q ys
first_in q [] ne e = absurd (ne (sym e))
first_in q (y ∷ ys) ne e = ground arith

pub last_in : (q : ℕ) (xs : List ℕ) → q ≢ 0 → last 0 xs ≡ q → 0 < count q xs
last_in q [] ne e = absurd (ne (sym e))
last_in q (x ∷ xs) ne e = subst (λ t. 0 < count t (x ∷ xs)) e (last_counted 0 x xs)

-- A pointer of one part of a list is no other part's end.
module _ (xs : List ℕ) (p : ℕ) (ys : List ℕ) (set : IsSetOf (xs ++ p ∷ ys)) where
  split_once : (q : ℕ) → count q xs + ((if p == q then 1 else 0) + count q ys) ≤ 1
  split_once q = omega (arith, count-append q xs (p ∷ ys), set.once q)

  split_null : count 0 xs + ((if p == 0 then 1 else 0) + count 0 ys) ≡ 0
  split_null = omega (arith, count-append 0 xs (p ∷ ys), set.null)

  pub left_ne : (q : ℕ) → 0 < count q xs → (q ≢ 0) × (p ≢ q) × (first ys 0 ≢ q)
  left_ne q h =
      let nz : q ≢ 0 = count_ne xs h (ground (arith, split_null)) in
      (
        nz,
        ground (arith, split_once q),
        λ e. absurd (ground (arith, split_once q, first_in q ys nz e)),
      )

  pub right_ne : (q : ℕ) → 0 < count q ys → (q ≢ 0) × (p ≢ q) × (last 0 xs ≢ q)
  right_ne q h =
      let nz : q ≢ 0 = count_ne ys h (ground (arith, split_null)) in
      (
        nz,
        ground (arith, split_once q),
        λ e. absurd (ground (arith, split_once q, last_in q xs nz e)),
      )

  pub middle_ne : (p ≢ 0) × (first ys 0 ≢ p) × (last 0 xs ≢ p)
  middle_ne =
      let nz : p ≢ 0 = ground (arith, split_null) in
      (
        nz,
        λ e. absurd (ground (arith, split_once p, first_in p ys nz e)),
        λ e. absurd (ground (arith, split_once p, last_in p xs nz e)),
      )

module _ (f g : ℕ → Bin) where
  -- The segment behind a bin whose first element is linked back to `before` instead.
  Seg-reprev :
      (old before : ℕ) (ys : List ℕ) (after : ℕ)
      → ((q : ℕ) → count q ys ≤ 1)
      → ((q : ℕ)
          → 0 < count q ys
          → ((g q).prev ≡ (if first ys 0 == q then before else (f q).prev))
            × ((g q).next ≡ (f q).next))
      → Seg f old ys after
      → Seg g before ys after
  Seg-reprev old before [] after once same s = tt
  Seg-reprev old before (y ∷ ys) after once same s =
      let here = same y (ground arith) in
      (
        ground (arith, here),
        here.1 ∙ s.1,
        Seg-frame f g y ys after (λ q h. ground (arith, same q (ground arith), once q)) s.2,
      )

  -- The segment before a bin whose last element is linked on to `after` instead.
  Seg-renext :
      (before : ℕ) (xs : List ℕ) (old after : ℕ)
      → ((q : ℕ) → count q xs ≤ 1)
      → ((q : ℕ)
          → 0 < count q xs
          → ((g q).prev ≡ (f q).prev)
            × ((g q).next ≡ (if last before xs == q then after else (f q).next)))
      → Seg f before xs old
      → Seg g before xs after
  Seg-renext before [] old after once same s = tt
  Seg-renext before (x ∷ []) old after once same s =
      let here = same x (ground arith) in (here.0 ∙ s.0, ground (arith, here), tt)
  Seg-renext before (x ∷ y ∷ ys) old after once same s =
      let here = same x (ground arith) in
      (
        here.0 ∙ s.0,
        here.1 ∙ rw (==-false (last_ne x y ys (once x))) s.1,
        Seg-renext x (y ∷ ys) old after (λ q. ground (arith, once q)) (λ q h. same q (ground arith))
            s.2,
      )

  -- A new bin `n` linked in behind `p`.
  pub Seg-insert :
      (xs : List ℕ) (p n : ℕ) (ys : List ℕ)
      → IsSetOf (xs ++ p ∷ ys)
      → count n (xs ++ p ∷ ys) ≡ 0
      → (g n).prev ≡ p
      → (g n).next ≡ first ys 0
      → ((q : ℕ)
          → q ≢ n
          → q ≢ 0
          → ((g q).prev ≡ (if first ys 0 == q then n else (f q).prev))
            × ((g q).next ≡ (if p == q then n else (f q).next)))
      → Seg f 0 (xs ++ p ∷ ys) 0
      → Seg g 0 (xs ++ p ∷ n ∷ ys) 0
  Seg-insert xs p n ys set new np nn same s =
      let (sx, sp) = Seg-split f 0 xs (p ∷ ys) 0 s in
      let m = middle_ne xs p ys set in
      let counts = count-append n xs (p ∷ ys) in
      let at_p = same p (ground arith) m.0 in
      Seg-join g 0 xs (p ∷ n ∷ ys) 0
        (Seg-frame f g 0 xs p
          (λ q h.
            let l = left_ne xs p ys set q h in
            let c = same q (count_ne xs h (ground arith)) l.0 in
            (c.0 ∙ rw (==-false l.2) refl, c.1 ∙ rw (==-false l.1) refl))
          sx)
        (
          at_p.0 ∙ rw (==-false m.1) sp.0,
          at_p.1 ∙ ground arith,
          (
            np,
            nn,
            Seg-reprev p n ys 0 (λ q. ground (arith, split_once xs p ys set q))
                (λ q h.
                  let r = right_ne xs p ys set q h in
                  let c = same q (count_ne ys h (ground arith)) r.0 in
                  (c.0, c.1 ∙ rw (==-false r.1) refl))
                sp.2,
          ),
        )

  -- The bin `p` unlinked from between its neighbours.
  pub Seg-remove :
      (xs : List ℕ) (p : ℕ) (ys : List ℕ)
      → IsSetOf (xs ++ p ∷ ys)
      → ((q : ℕ)
          → q ≢ p
          → q ≢ 0
          → ((g q).prev ≡ (if first ys 0 == q then last 0 xs else (f q).prev))
            × ((g q).next ≡ (if last 0 xs == q then first ys 0 else (f q).next)))
      → Seg f 0 (xs ++ p ∷ ys) 0
      → Seg g 0 (xs ++ ys) 0
  Seg-remove xs p ys set same s =
      let (sx, sp) = Seg-split f 0 xs (p ∷ ys) 0 s in
      Seg-join g 0 xs ys 0
        (Seg-renext 0 xs p (first ys 0) (λ q. ground (arith, split_once xs p ys set q))
          (λ q h.
            let l = left_ne xs p ys set q h in
            let c = same q (λ e. l.1 (sym e)) l.0 in (c.0 ∙ rw (==-false l.2) refl, c.1))
          sx)
        (Seg-reprev p (last 0 xs) ys 0 (λ q. ground (arith, split_once xs p ys set q))
          (λ q h.
            let r = right_ne xs p ys set q h in
            let c = same q (λ e. r.1 (sym e)) r.0 in (c.0, c.1 ∙ rw (==-false r.2) refl))
          sp.2)
