-- ===== src/Lists/Push.antt =====
-- `list_push` of module/dthelper/list.c puts a node at the end of the list, plain or round.
use modit_micro.Base.{
  ==-self, ==-false, Bool-cases, ℕ, ◌+◌, ◌<◌, ◌^◌, ◌≡◌, ◌≢◌, refl, sym, ◌∙◌, inl, inr, Bool, true,
  false, [], ◌∷◌, ◌++◌, arith, ◌==◌, if◌then◌else◌, length,
}
use modit_micro.Lists.{Store, list_push, push_first, push_last, wipe_node}
use modit_micro.Lists.Chain.{
  Cells, has, last_of, Linked, Holds, last-has, last_of-snoc, length-snoc, Chain-snoc, Back-snoc,
  apart,
}

-- The first node.
push_first-Linked :
    (s : Store) (l node item : ℕ) (round : Bool)
    → Linked s l round []
    → node ≢ 0
    → Linked (push_first l item node (wipe_node node s)) l round ((node, item) ∷ [])
unfolding push_first
push_first-Linked s l node item true k nz = record {
  listed = k.listed;
  kind = k.kind;
  first = rw (==-self l) refl;
  last = rw (==-self l) refl;
  chain = (refl, nz, refl, rw (==-self node) refl, rw (k.kind, ==-self node) refl);
  back = (rw (k.kind, ==-self node) refl, tt);
}
push_first-Linked s l node item false k nz = record {
  listed = k.listed;
  kind = k.kind;
  first = rw (==-self l) refl;
  last = rw (==-self l) refl;
  chain = (refl, nz, refl, rw (==-self node) refl, rw (k.kind, ==-self node) refl);
  back = (rw (k.kind, ==-self node) refl, tt);
}

-- A further node.
module _ (s : Store) (l node item a v : ℕ) (round : Bool) (xs : Cells)
    (k : Linked s l round ((a, v) ∷ xs)) (nz : node ≢ 0)
    (out : has node ((a, v) ∷ xs) ≡ false) where
  abbrev after : Store
  after = push_last l item node (wipe_node node s)

  next_kept :
      (b : ℕ)
      → has b ((a, v) ∷ xs) ≡ true
      → b ≢ last_of a xs
      → (after.nodes b).next ≡ (s.nodes b).next
  unfolding push_last
  next_kept b h far =
      let other = apart node b ((a, v) ∷ xs) out h in
      let before : ((s.lists l).tail == b) ≡ false = ==-false (λ e. far (sym e ∙ k.last)) in
      elim (Bool-cases (s.lists l).rnd) [
        | inl y ↦ rw (y, other, before) refl
        | inr n ↦ rw (n, other, before) refl
      ]

  item_kept : (b : ℕ) → has b ((a, v) ∷ xs) ≡ true → (after.nodes b).item ≡ (s.nodes b).item
  unfolding push_last
  item_kept b h = rw (apart node b ((a, v) ∷ xs) out h) refl

  prev_kept : (b : ℕ) → has b ((a, v) ∷ xs) ≡ true → (after.nodes b).prev ≡ (s.nodes b).prev
  unfolding push_last
  prev_kept b h = rw (apart node b ((a, v) ∷ xs) out h) refl

  last_next : (after.nodes (last_of a xs)).next ≡ node
  unfolding push_last
  last_next =
      let other = apart node (last_of a xs) ((a, v) ∷ xs) out (last-has a v xs) in
      let here : ((s.lists l).tail == last_of a xs) ≡ true = rw k.last (==-self (last_of a xs)) in
      elim (Bool-cases (s.lists l).rnd) [
        | inl y ↦ rw (y, other, here) refl
        | inr n ↦ rw (n, other, here) refl
      ]

  new_next : (after.nodes node).next ≡ (if round then a else 0)
  unfolding push_last
  new_next =
      let other = apart node (last_of a xs) ((a, v) ∷ xs) out (last-has a v xs) in
      let before : ((s.lists l).tail == node) ≡ false = ground (arith, other, k.last) in
      elim (Bool-cases round) [
        | inl y ↦ rw (k.kind, y, ==-self node) k.first
        | inr n ↦ rw (k.kind, n, ==-self node, before) refl
      ]

  push_last-Linked : Linked after l round ((a, v) ∷ (xs ++ (node, item) ∷ []))
  unfolding push_last
  push_last-Linked = record {
    listed = k.listed;
    kind = k.kind;
    first = k.first;
    last = rw (==-self l) (sym (last_of-snoc a xs node item));
    chain =
        Chain-snoc s.nodes after.nodes (if round then a else 0) (if round then a else 0) node item a
          a v xs k.chain nz out next_kept item_kept last_next (rw (==-self node) refl) new_next;
    back = (
      prev_kept a (ground arith) ∙ k.back.0,
      Back-snoc s.nodes after.nodes node item a xs k.back.1 (λ b h. prev_kept b (ground arith))
          (rw (==-self node) k.last),
    );
  }

-- `list_push` puts the item at the end of the list and answers the index that it has there, in a node that
-- was not in the list and is not NULL, while the list has fewer than 2^32 - 1 elements.
pub list_push-Holds :
    (s : Store) (l item node : ℕ) (round : Bool) (xs : Cells)
    → Holds s l round xs
    → node ≢ 0
    → has node xs ≡ false
    → length xs + 1 < 2 ^ 32
    → ((list_push l item node s).0 ≡ length xs)
      × Holds (list_push l item node s).1 l round (xs ++ (node, item) ∷ [])
unfolding list_push
list_push-Holds s l item node round [] k nz out room =
    rw (==-false k.linked.listed, ==-false nz, k.count)
      (
        refl,
        record {
          linked = push_first-Linked s l node item round k.linked nz;
          count = rw (==-self l, k.count) refl;
          room = omega arith;
        },
      )
list_push-Holds s l item node round ((a, v) ∷ xs) k nz out room =
    let more : ((s.lists l).elements == 0) ≡ false = ground (arith, k.count) in
    rw (==-false k.linked.listed, ==-false nz, more)
      (
        k.count,
        record {
          linked = push_last-Linked s l node item a v round xs k.linked nz out;
          count = rw (==-self l) (omega (arith, k.count, length-snoc xs (node, item)));
          room = omega (arith, length-snoc xs (node, item));
        },
      )
