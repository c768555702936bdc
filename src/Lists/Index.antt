-- ===== src/Lists/Index.antt =====
-- `list_at` and `list_find` of module/dthelper/list.c: items by index, and the index of an item.
use native.Mathlib.Nat.{mod-lt, mod-eq_of_lt, mod_self}
use native.Mathlib.Decide.{dec_lt}
use modit_micro.Base.{
  ==-false, ==-cases, Bool-cases, ℕ, zero, suc, ◌+◌, ◌%◌, ◌<◌, ◌≤◌, ◌^◌, ◌≡◌, ◌≢◌, ◌⊎◌,
  true_ne_false, Option-cases, refl, ◌∙◌, ap, inl, inr, Bool, true, false, [], ◌∷◌, Option, none,
  some, arith, ltb, ◌==◌, if◌then◌else◌, length,
}
use modit_micro.Lists.{Store, walk, seek_node, list_at, find_loop, list_find, minus_one}
use modit_micro.Lists.Chain.{Cells, first_of, Chain, Holds}

-- The cell at an index, (0, 0) past the end.
abbrev pub cell_at : Cells → ℕ → ℕ × ℕ
cell_at [] i = (0, 0)
cell_at (x ∷ xs) zero = x
cell_at (x ∷ xs) (suc i) = cell_at xs i

-- The index of the first cell that holds `item`.
abbrev pub index_of : ℕ → Cells → Option ℕ
index_of item [] = none
index_of item ((a, v) ∷ xs) =
    if v == item then some 0 else elim (index_of item xs) [ none ↦ none | some i ↦ some (i + 1) ]

pub walk-cell_at :
    (s : Store) (stop p i : ℕ) (xs : Cells)
    → Chain s.nodes stop p xs
    → i < length xs
    → walk i p s ≡ (cell_at xs i).0
unfolding walk
walk-cell_at s stop p i [] c h = absurd (omega arith)
walk-cell_at s stop p zero ((a, v) ∷ xs) c h = c.0
walk-cell_at s stop p (suc i) ((a, v) ∷ xs) c h =
    rw (c.0, ==-false c.1) (walk-cell_at s stop (s.nodes a).next i xs c.4 (omega arith))

pub walk_stop :
    (s : Store) (stop p : ℕ) (xs : Cells) → Chain s.nodes stop p xs → walk (length xs) p s ≡ stop
unfolding walk
walk_stop s stop p [] c = c
walk_stop s stop p ((a, v) ∷ xs) c =
    rw (c.0, ==-false c.1) (walk_stop s stop (s.nodes a).next xs c.4)

pub cell_at-Chain :
    (s : Store) (stop p i : ℕ) (xs : Cells)
    → Chain s.nodes stop p xs
    → i < length xs
    → ((cell_at xs i).0 ≢ 0) × ((s.nodes (cell_at xs i).0).item ≡ (cell_at xs i).1)
cell_at-Chain s stop p i [] c h = absurd (omega arith)
cell_at-Chain s stop p zero ((a, v) ∷ xs) c h = (c.1, c.3)
cell_at-Chain s stop p (suc i) ((a, v) ∷ xs) c h =
    cell_at-Chain s stop (s.nodes a).next i xs c.4 (omega arith)

cell_at_beyond : (xs : Cells) (i : ℕ) → length xs ≤ i → cell_at xs i ≡ (0, 0)
cell_at_beyond [] i h = refl
cell_at_beyond (x ∷ xs) zero h = absurd (omega arith)
cell_at_beyond (x ∷ xs) (suc i) h = cell_at_beyond xs i (omega arith)

-- The cell that `list_at` answers for: a round list counts on from its head.
abbrev pub place : Bool → Cells → ℕ → ℕ
place round xs i = if round then i % length xs else i

pub seek-inside :
    (s : Store) (l i : ℕ) (round : Bool) (xs : Cells)
    → Holds s l round xs
    → i < length xs
    → seek_node l i s ≡ some (cell_at xs i).0
unfolding seek_node
seek-inside s l i round xs k h =
    let near : ltb (s.lists l).elements i ≡ false = ground (arith, k.count) in
    rw (near, k.linked.first)
      (ap some
        (walk-cell_at s (if round then first_of xs else 0) (first_of xs) i xs k.linked.chain h))

pub seek-plain_past :
    (s : Store) (l i : ℕ) (xs : Cells)
    → Holds s l false xs
    → length xs ≤ i
    → seek_node l i s ≡ some 0
unfolding seek_node
seek-plain_past s l i xs k h = elim (==-cases i (length xs)) [
  | inl e ↦
      (let near : ltb (s.lists l).elements i ≡ false = ground (arith, k.count, e) in
        rw (near, k.linked.first, e) (ap some (walk_stop s 0 (first_of xs) xs k.linked.chain)))
  | inr n ↦
      (let far : ltb (s.lists l).elements i ≡ true = ground (arith, k.count, n, h) in
        rw (far, k.linked.kind) refl)
]

seek-round :
    (s : Store) (l i : ℕ) (xs : Cells)
    → Holds s l true xs
    → 0 < length xs
    → seek_node l i s ≡ some (cell_at xs (i % length xs)).0
unfolding seek_node
seek-round s l i [] k more = absurd (omega arith)
seek-round s l i ((a, v) ∷ xs) k more =
    let n = length ((a, v) ∷ xs) in
    let inside = walk-cell_at s a a (i % n) ((a, v) ∷ xs) k.linked.chain (mod-lt i more) in
    elim (Bool-cases (ltb (s.lists l).elements i)) [
      | inl far ↦
          (let some_there : ((s.lists l).elements == 0) ≡ false = ground (arith, k.count) in
            rw (far, k.linked.kind, some_there, k.linked.first, k.count) (ap some inside))
      | inr near ↦ elim (==-cases i n) [
        | inl e ↦
            (let whole : i % n ≡ 0 = ap (λ x. x % n) e ∙ mod_self n in
              rw (near, k.linked.first, whole)
                (rw e (ap some (walk_stop s a a ((a, v) ∷ xs) k.linked.chain))))
        | inr other ↦
            (let small : i < n = ground (arith, near, other, k.count) in
              rw (near, k.linked.first, mod-eq_of_lt small)
                (ap some (walk-cell_at s a a i ((a, v) ∷ xs) k.linked.chain small)))
      ]
    ]

-- `list_at` answers the datum at index `i` of a plain list, 0 past its end, and the datum at index `i` modulo
-- the length of a round list that is not empty.
pub list_at-cell_at :
    (s : Store) (l i : ℕ) (round : Bool) (xs : Cells)
    → Holds s l round xs
    → (round ≡ false) ⊎ (0 < length xs)
    → list_at l i s ≡ some (cell_at xs (place round xs i)).1
unfolding list_at
list_at-cell_at s l i false xs k kind = elim (dec_lt i (length xs)) [
  | yes h ↦
      (let c = cell_at-Chain s 0 (first_of xs) i xs k.linked.chain h in
        rw (==-false k.linked.listed, seek-inside s l i false xs k h, ==-false c.0) (ap some c.1))
  | no h ↦
      rw
        (
          ==-false k.linked.listed,
          seek-plain_past s l i xs k (omega arith),
          cell_at_beyond xs i (omega arith),
        )
        refl
]
list_at-cell_at s l i true xs k kind =
    let more : 0 < length xs = elim kind [ inl e ↦ absurd (true_ne_false e) | inr h ↦ h ] in
    let c =
      cell_at-Chain s (first_of xs) (first_of xs) (i % length xs) xs k.linked.chain
        (mod-lt i more) in
    rw (==-false k.linked.listed, seek-round s l i xs k more, ==-false c.0) (ap some c.1)

-- On an empty round list every index but 0 makes `list_at` divide by zero.
pub list_at_divides : (s : Store) (l i : ℕ) → Holds s l true [] → 0 < i → list_at l i s ≡ none
unfolding list_at seek_node
list_at_divides s l i k h =
    let far : ltb (s.lists l).elements i ≡ true = ground (arith, k.count, h) in
    rw (==-false k.linked.listed, far, k.linked.kind, k.count) refl

-- One round of the loop of `list_find`.
find_round :
    (s : Store) (fuel stop p i item a v : ℕ) (xs : Cells)
    → Chain s.nodes stop p ((a, v) ∷ xs)
    → find_loop (suc fuel) p i item s
      ≡ (if v == item then some i else find_loop fuel (s.nodes a).next ((i + 1) % 2 ^ 32) item s)
unfolding find_loop
find_round s fuel stop p i item a v xs c = rw (c.0, ==-false c.1, c.3) refl

index_tail :
    (item a v j : ℕ) (xs : Cells)
    → (v == item) ≡ false
    → index_of item ((a, v) ∷ xs) ≡ some j
    → (k : ℕ) × (index_of item xs ≡ some k) × (j ≡ k + 1)
index_tail item a v j xs n e = elim (Option-cases (index_of item xs)) [
  | inl z ↦ absurd (ground (arith, n, z, e))
  | inr (k, y) ↦ (k, y, ground (arith, n, y, e))
]

index_hit :
    (item a v j : ℕ) (xs : Cells)
    → (v == item) ≡ true
    → index_of item ((a, v) ∷ xs) ≡ some j
    → j ≡ 0
index_hit item a v j xs y e = ground (arith, y, e)

index_none :
    (item a v : ℕ) (xs : Cells)
    → index_of item ((a, v) ∷ xs) ≡ none
    → ((v == item) ≡ false) × (index_of item xs ≡ none)
index_none item a v xs e = elim (Bool-cases (v == item)) [
  | inl y ↦ absurd (ground (arith, y, e))
  | inr n ↦ elim (Option-cases (index_of item xs)) [
    | inl z ↦ (n, z)
    | inr (k, y) ↦ absurd (ground (arith, n, y, e))
  ]
]

find_present :
    (s : Store) (fuel stop p i j item : ℕ) (xs : Cells)
    → Chain s.nodes stop p xs
    → index_of item xs ≡ some j
    → length xs < fuel
    → i + length xs < 2 ^ 32
    → find_loop fuel p i item s ≡ some (i + j)
find_present s zero stop p i j item xs c e f r = absurd (omega arith)
find_present s (suc fuel) stop p i j item [] c e f r = absurd (cc)
find_present s (suc fuel) stop p i j item ((a, v) ∷ xs) c e f r = elim (Bool-cases (v == item)) [
  | inl y ↦
      rw (find_round s fuel stop p i item a v xs c, y)
        (ap some (omega (arith, index_hit item a v j xs y e)))
  | inr n ↦
      rw (find_round s fuel stop p i item a v xs c, n)
        (let rest = index_tail item a v j xs n e in
          let small : (i + 1) % 2 ^ 32 ≡ i + 1 = omega arith in
          rw small (
            find_present s fuel stop (s.nodes a).next (i + 1) rest.0 item xs c.4 rest.1
              (omega arith) (omega arith)
            ∙ ap some (omega (arith, rest.2))))
]

find_absent :
    (s : Store) (fuel p i item : ℕ) (xs : Cells)
    → Chain s.nodes 0 p xs
    → index_of item xs ≡ none
    → length xs < fuel
    → find_loop fuel p i item s ≡ some minus_one
unfolding find_loop
find_absent s zero p i item xs c e f = absurd (omega arith)
find_absent s (suc fuel) p i item [] c e f = rw (c, find_loop) refl
find_absent s (suc fuel) p i item ((a, v) ∷ xs) c e f =
    let rest = index_none item a v xs e in
    rw (find_round s fuel 0 p i item a v xs c, rest.0)
      (find_absent s fuel (s.nodes a).next ((i + 1) % 2 ^ 32) item xs c.4 rest.1 (omega arith))

-- A search that comes to the end of the chain goes on at its start.
find_around :
    (s : Store) (fuel p i item b w : ℕ) (xs ys : Cells)
    → Chain s.nodes b b ((b, w) ∷ ys)
    → index_of item ((b, w) ∷ ys) ≡ none
    → Chain s.nodes b p xs
    → index_of item xs ≡ none
    → find_loop fuel p i item s ≡ none
unfolding find_loop
find_around s zero p i item b w xs ys d g c e = refl
find_around s (suc fuel) p i item b w [] ys d g c e =
    let rest = index_none item b w ys g in
    rw (c, find_round s fuel b b i item b w ys d, rest.0)
      (find_around s fuel (s.nodes b).next ((i + 1) % 2 ^ 32) item b w ys ys d g d.4 rest.1)
find_around s (suc fuel) p i item b w ((a, v) ∷ xs) ys d g c e =
    let rest = index_none item a v xs e in
    rw (find_round s fuel b p i item a v xs c, rest.0)
      (find_around s fuel (s.nodes a).next ((i + 1) % 2 ^ 32) item b w xs ys d g c.4 rest.1)

-- What `list_find` answers: the index of the first node with the datum, and -1 for a plain list that has none.
-- On a round list that has none the search does not end.
abbrev pub finds : Bool → Cells → Option ℕ → Option ℕ
finds round xs (some j) = some j
finds false xs none = some minus_one
finds true [] none = some minus_one
finds true (x ∷ xs) none = none

absent_finds :
    (s : Store) (fuel item : ℕ) (round : Bool) (xs : Cells)
    → Chain s.nodes (if round then first_of xs else 0) (first_of xs) xs
    → index_of item xs ≡ none
    → length xs < fuel
    → find_loop fuel (first_of xs) 0 item s ≡ finds round xs none
absent_finds s fuel item false xs c e f = find_absent s fuel (first_of xs) 0 item xs c e f
absent_finds s fuel item true [] c e f = find_absent s fuel 0 0 item [] c e f
absent_finds s fuel item true ((b, w) ∷ ys) c e f =
    find_around s fuel b 0 item b w ((b, w) ∷ ys) ys c e c e

-- With more rounds than the list has nodes, `list_find` answers the index of the first node with the datum;
-- where there is none it answers -1 on a plain or empty list, and on any other round list it does not end.
pub list_find-finds :
    (s : Store) (fuel l item : ℕ) (round : Bool) (xs : Cells)
    → Holds s l round xs
    → length xs < fuel
    → list_find fuel l item s ≡ finds round xs (index_of item xs)
unfolding list_find
list_find-finds s fuel l item round xs k f = elim (Option-cases (index_of item xs)) [
  | inr (j, e) ↦
      rw (==-false k.linked.listed, k.linked.first, e)
        (find_present s fuel (if round then first_of xs else 0) (first_of xs) 0 j item xs
            k.linked.chain e f (omega (arith, k.room))
          ∙ ap some (omega arith))
  | inl e ↦
      rw (==-false k.linked.listed, k.linked.first, e)
        (absent_finds s fuel item round xs k.linked.chain e f)
]
