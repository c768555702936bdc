-- ===== src/Lists/Chain.antt =====
-- What a list of module/dthelper/list.c stands for: the addresses and data of its nodes, in order.
use modit_micro.Base.{
  ℕ, ◌+◌, ◌<◌, ◌^◌, ◌∙◌, ap, sym, true_ne_false, ==-false, ◌≡◌, ◌≢◌, Bool, true, false, ◌||◌, List,
  [], ◌∷◌, ◌++◌, arith, ◌==◌, if◌then◌else◌, length,
}
use modit_micro.Lists.{Node, Store}

abbrev pub Cells : Type 0
Cells = List (ℕ × ℕ)

abbrev pub has : ℕ → Cells → Bool
has a [] = false
has a ((p, _) ∷ xs) = a == p || has a xs

-- The address of the first and of the last node, 0 where there is none.
abbrev pub first_of : Cells → ℕ
first_of [] = 0
first_of ((a, _) ∷ xs) = a

abbrev pub last_of : ℕ → Cells → ℕ
last_of a [] = a
last_of a ((b, _) ∷ xs) = last_of b xs

-- From `p` the `next` pointers lead through the distinct nodes `xs` to `stop`.
abbrev pub Chain : (ℕ → Node) → ℕ → ℕ → Cells → Type 0
Chain n stop p [] = p ≡ stop
Chain n stop p ((a, v) ∷ xs) =
    (p ≡ a) × (a ≢ 0) × (has a xs ≡ false) × ((n a).item ≡ v) × Chain n stop (n a).next xs

-- The `prev` pointers of `xs` lead back to `before`.
abbrev pub Back : (ℕ → Node) → ℕ → Cells → Type 0
Back n before [] = Unit {0}
Back n before ((a, v) ∷ xs) = ((n a).prev ≡ before) × Back n a xs

-- The `prev` of the first node: of a round list this is the node itself, also where it is not the last.
abbrev pub Backward : Bool → (ℕ → Node) → Cells → Type 0
Backward round n [] = Unit {0}
Backward round n ((a, v) ∷ xs) = ((n a).prev ≡ (if round then a else 0)) × Back n a xs

-- The list at `l` stands for `xs`.
pub record Linked (s : Store) (l : ℕ) (round : Bool) (xs : Cells) : Type 0 where
  pub listed : l ≢ 0
  pub kind : (s.lists l).rnd ≡ round
  pub first : (s.lists l).head ≡ first_of xs
  pub last : (s.lists l).tail ≡ last_of 0 xs
  pub chain : Chain s.nodes (if round then first_of xs else 0) (first_of xs) xs
  pub back : Backward round s.nodes xs

-- It also counts them, in 32 bits.
pub record Holds (s : Store) (l : ℕ) (round : Bool) (xs : Cells) : Type 0 where
  pub linked : Linked s l round xs
  pub count : (s.lists l).elements ≡ length xs
  pub room : length xs < 2 ^ 32

pub last-has : (a : ℕ) (v : ℕ) (xs : Cells) → has (last_of a xs) ((a, v) ∷ xs) ≡ true
last-has a v [] = ground arith
last-has a v ((b, w) ∷ xs) = ground (arith, last-has b w xs)

pub has-append : (a : ℕ) (xs ys : Cells) → has a (xs ++ ys) ≡ (has a xs || has a ys)
has-append a [] ys = ground arith
has-append a ((p, v) ∷ xs) ys = ground (arith, has-append a xs ys)

pub length-snoc : (xs : Cells) (c : ℕ × ℕ) → length (xs ++ c ∷ []) ≡ length xs + 1
length-snoc [] c = omega arith
length-snoc (x ∷ xs) c = omega (arith, length-snoc xs c)

pub last_of-snoc : (a : ℕ) (xs : Cells) (b v : ℕ) → last_of a (xs ++ (b, v) ∷ []) ≡ b
last_of-snoc a [] b v = ground arith
last_of-snoc a ((c, w) ∷ xs) b v = last_of-snoc c xs b v

-- A chain survives stores that leave its nodes alone.
pub Chain-frame :
    (n m : ℕ → Node) (stop p : ℕ) (xs : Cells)
    → ((a : ℕ) → has a xs ≡ true → (m a).next ≡ (n a).next)
    → ((a : ℕ) → has a xs ≡ true → (m a).item ≡ (n a).item)
    → Chain n stop p xs
    → Chain m stop p xs
Chain-frame n m stop p [] f g c = c
Chain-frame n m stop p ((a, v) ∷ xs) f g c = (
  c.0,
  c.1,
  c.2,
  ground (arith, g a, c.3),
  ground (
    arith,
    f a,
    Chain-frame n m stop (n a).next xs (λ b i. f b (ground arith)) (λ b i. g b (ground arith)) c.4,
  ),
)

pub Back-frame :
    (n m : ℕ → Node) (before : ℕ) (xs : Cells)
    → ((a : ℕ) → has a xs ≡ true → (m a).prev ≡ (n a).prev)
    → Back n before xs
    → Back m before xs
Back-frame n m before [] f b = tt
Back-frame n m before ((a, v) ∷ xs) f b =
    (ground (arith, f a, b.0), Back-frame n m a xs (λ c i. f c (ground arith)) b.1)

pub Back-snoc :
    (n m : ℕ → Node) (node w a : ℕ) (xs : Cells)
    → Back n a xs
    → ((b : ℕ) → has b xs ≡ true → (m b).prev ≡ (n b).prev)
    → (m node).prev ≡ last_of a xs
    → Back m a (xs ++ (node, w) ∷ [])
Back-snoc n m node w a [] k f e = (e, tt)
Back-snoc n m node w a ((b, u) ∷ xs) k f e =
    (ground (arith, f b, k.0), Back-snoc n m node w b xs k.1 (λ d h. f d (ground arith)) e)

-- Two nodes of which only one is in a list.
pub apart : (a b : ℕ) (xs : Cells) → has a xs ≡ false → has b xs ≡ true → (a == b) ≡ false
apart a b xs out h = ==-false (λ e. true_ne_false (sym h ∙ ap (λ d. has d xs) (sym e) ∙ out))

-- The first node of a nonempty chain may be reached otherwise.
pub Chain-from :
    (n : ℕ → Node) (stop p q a v : ℕ) (xs : Cells)
    → q ≡ p
    → Chain n stop p ((a, v) ∷ xs)
    → Chain n stop q ((a, v) ∷ xs)
Chain-from n stop p q a v xs e c = (e ∙ c.0, c.1, c.2, c.3, c.4)

-- A node behind the last one.
pub Chain-snoc :
    (n m : ℕ → Node) (stop stop' node w p a v : ℕ) (xs : Cells)
    → Chain n stop p ((a, v) ∷ xs)
    → node ≢ 0
    → has node ((a, v) ∷ xs) ≡ false
    → ((b : ℕ) → has b ((a, v) ∷ xs) ≡ true → b ≢ last_of a xs → (m b).next ≡ (n b).next)
    → ((b : ℕ) → has b ((a, v) ∷ xs) ≡ true → (m b).item ≡ (n b).item)
    → (m (last_of a xs)).next ≡ node
    → (m node).item ≡ w
    → (m node).next ≡ stop'
    → Chain m stop' p ((a, v) ∷ (xs ++ (node, w) ∷ []))
Chain-snoc n m stop stop' node w p a v [] c nz out f g l i e =
    (c.0, c.1, ground arith, ground (arith, g a, c.3), (l, nz, ground arith, i, e))
Chain-snoc n m stop stop' node w p a v ((b, u) ∷ xs) c nz out f g l i e =
    let near = last-has b u xs in
    let far : a ≢ last_of b xs =
      λ same. true_ne_false (sym (ap (λ d. has d ((b, u) ∷ xs)) same ∙ near) ∙ c.2) in
    (
      c.0,
      c.1,
      ground (arith, has-append a xs ((node, w) ∷ []), c.2),
      ground (arith, g a, c.3),
      Chain-from m stop' (n a).next (m a).next b u (xs ++ (node, w) ∷ []) (f a (ground arith) far) (
          Chain-snoc n m stop stop' node w (n a).next b u xs c.4 nz (ground arith)
            (λ d h. f d (ground arith)) (λ d h. g d (ground arith)) l i e),
    )
