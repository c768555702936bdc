-- ===== src/Lists/Between.antt =====
-- A node between two nodes of a list of module/dthelper/list.c.
use modit_micro.Base.{
  ==-self, ℕ, zero, suc, ◌+◌, ◌<◌, ◌≡◌, ◌≢◌, refl, sym, ◌∙◌, ap, true_ne_false, true, false, ◌||◌,
  [], ◌∷◌, arith, ◌==◌, length,
}
use modit_micro.Lists.{Node}
use modit_micro.Lists.Chain.{Cells, has, last_of, Chain, Back, Chain-frame, Back-frame, Chain-from}
use modit_micro.Lists.Index.{cell_at}

abbrev pub insert_at : ℕ → ℕ × ℕ → Cells → Cells
insert_at zero c xs = c ∷ xs
insert_at (suc i) c [] = []
insert_at (suc i) c (x ∷ xs) = x ∷ insert_at i c xs

pub has-insert_at :
    (a i node w : ℕ) (xs : Cells)
    → (a == node) ≡ false
    → has a (insert_at i (node, w) xs) ≡ has a xs
has-insert_at a zero node w xs n = rw n refl
has-insert_at a (suc i) node w [] n = refl
has-insert_at a (suc i) node w ((b, u) ∷ xs) n =
    ap (λ r. a == b || r) (has-insert_at a i node w xs n)

pub cell_at-has : (i : ℕ) (xs : Cells) → i < length xs → has (cell_at xs i).0 xs ≡ true
cell_at-has i [] h = absurd (omega arith)
cell_at-has zero ((a, v) ∷ xs) h = rw (==-self a) refl
cell_at-has (suc i) ((a, v) ∷ xs) h = ground (arith, cell_at-has i xs (omega arith))

-- A node between the nodes at `i` and at `i + 1`.
pub Chain-insert :
    (n m : ℕ → Node) (stop node w i p : ℕ) (xs : Cells)
    → Chain n stop p xs
    → suc i < length xs
    → node ≢ 0
    → has node xs ≡ false
    → ((b : ℕ) → has b xs ≡ true → b ≢ (cell_at xs i).0 → (m b).next ≡ (n b).next)
    → ((b : ℕ) → has b xs ≡ true → (m b).item ≡ (n b).item)
    → (m (cell_at xs i).0).next ≡ node
    → (m node).item ≡ w
    → (m node).next ≡ (cell_at xs (suc i)).0
    → Chain m stop p (insert_at (suc i) (node, w) xs)
Chain-insert n m stop node w i p [] c h nz out f g l y e = absurd (omega arith)
Chain-insert n m stop node w i p ((a, v) ∷ []) c h nz out f g l y e = absurd (omega arith)
Chain-insert n m stop node w zero p ((a, v) ∷ (b, u) ∷ xs) c h nz out f g l y e = (
  c.0,
  c.1,
  ground (arith, c.2),
  ground (arith, g a, c.3),
  (
    l,
    nz,
    ground arith,
    y,
    Chain-frame n m stop (m node).next ((b, u) ∷ xs)
        (λ d q.
          f d (ground arith)
            (λ same. true_ne_false (sym q ∙ ap (λ x. has x ((b, u) ∷ xs)) same ∙ c.2)))
        (λ d q. g d (ground arith))
        (Chain-from n stop (n a).next (m node).next b u xs (e ∙ sym c.4.0) c.4),
  ),
)
Chain-insert n m stop node w (suc i) p ((a, v) ∷ (b, u) ∷ xs) c h nz out f g l y e =
    let at = cell_at-has i ((b, u) ∷ xs) (omega arith) in
    let far : a ≢ (cell_at ((b, u) ∷ xs) i).0 =
      λ same. true_ne_false (sym (ap (λ d. has d ((b, u) ∷ xs)) same ∙ at) ∙ c.2) in
    (
      c.0,
      c.1,
      has-insert_at a (suc i) node w ((b, u) ∷ xs) (ground arith) ∙ c.2,
      ground (arith, g a, c.3),
      Chain-from m stop (n a).next (m a).next b u (insert_at i (node, w) xs)
          (f a (ground arith) far)
          (Chain-insert n m stop node w i (n a).next ((b, u) ∷ xs) c.4 (omega arith) nz
            (ground arith) (λ d q. f d (ground arith)) (λ d q. g d (ground arith)) l y e),
    )

pub Back-insert :
    (n m : ℕ → Node) (stop p before node w i : ℕ) (xs : Cells)
    → Chain n stop p xs
    → Back n before xs
    → suc i < length xs
    → ((b : ℕ) → has b xs ≡ true → b ≢ (cell_at xs (suc i)).0 → (m b).prev ≡ (n b).prev)
    → (m (cell_at xs (suc i)).0).prev ≡ node
    → (m node).prev ≡ (cell_at xs i).0
    → Back m before (insert_at (suc i) (node, w) xs)
Back-insert n m stop p before node w i [] c k h f l e = absurd (omega arith)
Back-insert n m stop p before node w i ((a, v) ∷ []) c k h f l e = absurd (omega arith)
Back-insert n m stop p before node w zero ((a, v) ∷ (b, u) ∷ xs) c k h f l e =
    let far : a ≢ b =
      λ same. true_ne_false (sym (ap (λ d. has d ((b, u) ∷ xs)) same ∙ ground arith) ∙ c.2) in
    (
      f a (ground arith) far ∙ k.0,
      (
        e,
        (
          l,
          Back-frame n m b xs
              (λ d q.
                f d (ground arith)
                  (λ same. true_ne_false (sym q ∙ ap (λ x. has x xs) same ∙ c.4.2)))
              k.1.1,
        ),
      ),
    )
Back-insert n m stop p before node w (suc i) ((a, v) ∷ (b, u) ∷ xs) c k h f l e =
    let at = cell_at-has (suc i) ((b, u) ∷ xs) (omega arith) in
    let far : a ≢ (cell_at ((b, u) ∷ xs) (suc i)).0 =
      λ same. true_ne_false (sym (ap (λ d. has d ((b, u) ∷ xs)) same ∙ at) ∙ c.2) in
    (
      f a (ground arith) far ∙ k.0,
      Back-insert n m stop (n a).next a node w i ((b, u) ∷ xs) c.4 k.1 (omega arith)
          (λ d q. f d (ground arith)) l e,
    )

-- The node before the one at `i + 1`.
pub Back-before :
    (n : ℕ → Node) (before i : ℕ) (xs : Cells)
    → Back n before xs
    → suc i < length xs
    → (n (cell_at xs (suc i)).0).prev ≡ (cell_at xs i).0
Back-before n before i [] k h = absurd (omega arith)
Back-before n before i ((a, v) ∷ []) k h = absurd (omega arith)
Back-before n before zero ((a, v) ∷ (b, u) ∷ xs) k h = k.1.0
Back-before n before (suc i) ((a, v) ∷ (b, u) ∷ xs) k h =
    Back-before n a i ((b, u) ∷ xs) k.1 (omega arith)

pub last_of-insert_at :
    (a node w i : ℕ) (xs : Cells)
    → i < length xs
    → last_of a (insert_at i (node, w) xs) ≡ last_of a xs
last_of-insert_at a node w i [] h = absurd (omega arith)
last_of-insert_at a node w zero ((b, u) ∷ xs) h = refl
last_of-insert_at a node w (suc i) ((b, u) ∷ xs) h = last_of-insert_at b node w i xs (omega arith)

pub length-insert_at :
    (i : ℕ) (c : ℕ × ℕ) (xs : Cells) → i < length xs → length (insert_at i c xs) ≡ length xs + 1
length-insert_at i c [] h = absurd (omega arith)
length-insert_at zero c (x ∷ xs) h = omega arith
length-insert_at (suc i) c (x ∷ xs) h = omega (arith, length-insert_at i c xs (omega arith))
