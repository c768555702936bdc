-- ===== src/Lists/Insert.antt =====
-- `list_insert` of module/dthelper/list.c.
use modit_micro.Base.{
  ==-self, ==-false, Bool-cases, ℕ, zero, suc, ◌+◌, ◌%◌, ◌<◌, ◌≤◌, ◌^◌, ◌≡◌, ◌≢◌, refl, sym, ◌∙◌,
  ap, inl, inr, Bool, true, false, not, ◌&&◌, [], ◌∷◌, ◌++◌, some, arith, ltb, ◌==◌, if◌then◌else◌,
  length,
}
use modit_micro.Lists.{Node, Store, walk, seek_node, displace, list_insert, list_push, wipe_node}
use modit_micro.Lists.Chain.{
  Cells, has, first_of, Chain, Backward, Linked, Holds, has-append, apart, Chain-frame, Back-frame,
  Chain-from,
}
use modit_micro.Lists.Between.{
  insert_at, cell_at-has, Chain-insert, Back-insert, Back-before, last_of-insert_at,
  length-insert_at,
}
use modit_micro.Lists.Push.{list_push-Holds}
use modit_micro.Lists.Index.{seek-plain_past, cell_at, cell_at-Chain, seek-inside}

-- What `displace` stores, where the new node is not the one that it displaces.
module _ (s : Store) (l node item d : ℕ) (other : (node == d) ≡ false) where
  abbrev after : Store
  after = displace l item node d (wipe_node node s)

  abbrev before : ℕ
  before = (s.nodes d).prev

  stored_next :
      (b : ℕ)
      → (node == b) ≡ false
      → (after.nodes b).next ≡ (if not (before == 0) && before == b then node else (s.nodes b).next)
  unfolding displace
  stored_next b n = rw (n, other) refl

  stored_next_new : (before == node) ≡ false → (after.nodes node).next ≡ d
  unfolding displace
  stored_next_new n =
      rw (other, n, ==-self node)
        (elim (Bool-cases (before == 0)) [ inl y ↦ rw y refl | inr z ↦ rw z refl ])

  stored_prev :
      (b : ℕ)
      → (node == b) ≡ false
      → (after.nodes b).prev ≡ (if d == b then node else (s.nodes b).prev)
  unfolding displace
  stored_prev b n = rw n refl

  stored_prev_new : (after.nodes node).prev ≡ before
  unfolding displace
  stored_prev_new =
      let flip : (d == node) ≡ false = ground (arith, other) in rw (other, ==-self node, flip) refl

  stored_item : (b : ℕ) → (node == b) ≡ false → (after.nodes b).item ≡ (s.nodes b).item
  unfolding displace
  stored_item b n = rw n refl

  stored_item_new : (after.nodes node).item ≡ item
  unfolding displace
  stored_item_new = rw (==-self node) refl

module _ (s : Store) (l node item a v : ℕ) (xs : Cells) (k : Linked s l false ((a, v) ∷ xs))
    (nz : node ≢ 0) (out : has node ((a, v) ∷ xs) ≡ false) where
  -- Before the first node.
  displace_first :
      Linked (displace l item node a (wipe_node node s)) l false ((node, item) ∷ (a, v) ∷ xs)
  unfolding displace
  displace_first =
      let other : (node == a) ≡ false = apart node a ((a, v) ∷ xs) out (ground arith) in
      let after' = displace l item node a (wipe_node node s) in
      let away : ((s.nodes a).prev == node) ≡ false = ground (arith, k.back.0, nz) in
      let start : (s.nodes a).prev ≡ 0 = k.back.0 in
      record {
        listed = k.listed;
        kind = k.kind;
        first = rw (k.first, ==-self a, ==-self l) refl;
        last = k.last;
        chain = (
          refl,
          nz,
          out,
          rw (==-self node) refl,
          Chain-from after'.nodes 0 a (after'.nodes node).next a v xs
              (stored_next_new s l node item a other away)
              (Chain-frame s.nodes after'.nodes 0 a ((a, v) ∷ xs)
                (λ b q.
                  stored_next s l node item a other b (apart node b ((a, v) ∷ xs) out q)
                  ∙ rw start refl)
                (λ b q. stored_item s l node item a other b (apart node b ((a, v) ∷ xs) out q))
                k.chain),
        );
        back = (
          stored_prev_new s l node item a other ∙ start,
          (
            stored_prev s l node item a other a other ∙ rw (==-self a) refl,
            Back-frame s.nodes after'.nodes a xs
                (λ b q.
                  stored_prev s l node item a other b
                    (apart node b ((a, v) ∷ xs) out (ground arith))
                  ∙ rw (apart a b xs k.chain.2 q) refl)
                k.back.1,
          ),
        );
      }

  -- Before a later node.
  module _ (i : ℕ) (h : suc i < length ((a, v) ∷ xs)) where
    abbrev dp : ℕ
    dp = (cell_at ((a, v) ∷ xs) (suc i)).0

    abbrev pred : ℕ
    pred = (cell_at ((a, v) ∷ xs) i).0

    inside : has dp ((a, v) ∷ xs) ≡ true
    inside = cell_at-has (suc i) ((a, v) ∷ xs) h

    node_dp : (node == dp) ≡ false
    node_dp = apart node dp ((a, v) ∷ xs) out inside

    pred_inside : has pred ((a, v) ∷ xs) ≡ true
    pred_inside = cell_at-has i ((a, v) ∷ xs) (omega arith)

    node_pred : (node == pred) ≡ false
    node_pred = apart node pred ((a, v) ∷ xs) out pred_inside

    pred_nz : (pred == 0) ≡ false
    pred_nz = ==-false (cell_at-Chain s 0 a i ((a, v) ∷ xs) k.chain (omega arith)).0

    before_dp : (s.nodes dp).prev ≡ pred
    before_dp = Back-before s.nodes 0 i ((a, v) ∷ xs) k.back h

    a_dp : (a == dp) ≡ false
    a_dp = apart a dp xs k.chain.2 (cell_at-has i xs (omega arith))

    head_kept : ((displace l item node dp (wipe_node node s)).lists l).head ≡ a
    unfolding displace
    head_kept = rw (k.first, a_dp) refl

    displace_later :
        Linked
          (displace l item node dp (wipe_node node s))
          l
          false
          (insert_at (suc i) (node, item) ((a, v) ∷ xs))
    unfolding displace
    displace_later =
        let after' = displace l item node dp (wipe_node node s) in
        let pred_node : ((s.nodes dp).prev == node) ≡ false =
          ground (arith, before_dp, node_pred) in
        record {
          listed = k.listed;
          kind = k.kind;
          first = head_kept;
          last = k.last ∙ sym (last_of-insert_at a node item i xs (omega arith));
          chain =
              Chain-insert s.nodes after'.nodes 0 node item i a ((a, v) ∷ xs) k.chain h nz out
                (λ b q far.
                  let other : (pred == b) ≡ false = ==-false (λ e. far (sym e)) in
                  stored_next s l node item dp node_dp b (apart node b ((a, v) ∷ xs) out q)
                  ∙ rw (before_dp, pred_nz, other) refl)
                (λ b q. stored_item s l node item dp node_dp b (apart node b ((a, v) ∷ xs) out q))
                (stored_next s l node item dp node_dp pred node_pred
                  ∙ rw (before_dp, pred_nz, ==-self pred) refl)
                (stored_item_new s l node item dp node_dp)
                (stored_next_new s l node item dp node_dp pred_node);
          back =
              Back-insert s.nodes after'.nodes 0 a 0 node item i ((a, v) ∷ xs) k.chain k.back h
                (λ b q far.
                  let other : (dp == b) ≡ false = ==-false (λ e. far (sym e)) in
                  stored_prev s l node item dp node_dp b (apart node b ((a, v) ∷ xs) out q)
                  ∙ rw other refl)
                (stored_prev s l node item dp node_dp dp node_dp ∙ rw (==-self dp) refl)
                (stored_prev_new s l node item dp node_dp ∙ before_dp);
        }

displace-Linked :
    (s : Store) (l node item i : ℕ) (xs : Cells)
    → Linked s l false xs
    → node ≢ 0
    → has node xs ≡ false
    → i < length xs
    → Linked
        (displace l item node (cell_at xs i).0 (wipe_node node s))
        l
        false
        (insert_at i (node, item) xs)
displace-Linked s l node item i [] k nz out h = absurd (omega arith)
displace-Linked s l node item zero ((a, v) ∷ xs) k nz out h =
    displace_first s l node item a v xs k nz out
displace-Linked s l node item (suc i) ((a, v) ∷ xs) k nz out h =
    displace_later s l node item a v xs k nz out i h

displace_count :
    (s : Store) (l node item d : ℕ)
    → ((displace l item node d (wipe_node node s)).lists l).elements
      ≡ ((s.lists l).elements + 1) % 2 ^ 32
unfolding displace
displace_count s l node item d = rw (==-self l) refl

wiped_back :
    (n m : ℕ → Node) (xs : Cells)
    → ((b : ℕ) → has b xs ≡ true → (m b).prev ≡ (n b).prev)
    → Backward false n xs
    → Backward false m xs
wiped_back n m [] f k = tt
wiped_back n m ((a, v) ∷ xs) f k =
    (f a (ground arith) ∙ k.0, Back-frame n m a xs (λ b q. f b (ground arith)) k.1)

-- Clearing a node that is not in the list leaves the list as it is.
wipe_node-Holds :
    (s : Store) (l node : ℕ) (xs : Cells)
    → Holds s l false xs
    → has node xs ≡ false
    → Holds (wipe_node node s) l false xs
wipe_node-Holds s l node xs k out = record {
  linked = record {
    listed = k.linked.listed;
    kind = k.linked.kind;
    first = k.linked.first;
    last = k.linked.last;
    chain =
        Chain-frame s.nodes (wipe_node node s).nodes 0 (first_of xs) xs
          (λ b q. rw (apart node b xs out q) refl) (λ b q. rw (apart node b xs out q) refl)
          k.linked.chain;
    back =
        wiped_back s.nodes (wipe_node node s).nodes xs (λ b q. rw (apart node b xs out q) refl)
          k.linked.back;
  };
  count = k.count;
  room = k.room;
}

-- On a plain list of fewer than 2^32 - 1 nodes, list_insert at an index inside the list, with a node
-- that is not NULL and not in the list, puts the item there and answers the old number of elements,
-- which is not the index of the node.
pub list_insert-Holds :
    (s : Store) (l item i node other : ℕ) (xs : Cells)
    → Holds s l false xs
    → node ≢ 0
    → has node xs ≡ false
    → i < length xs
    → length xs + 1 < 2 ^ 32
    → (s' : Store) × (list_insert l item i node other s ≡ some (length xs, s'))
      × Holds s' l false (insert_at i (node, item) xs)
unfolding list_insert
list_insert-Holds s l item i node other xs k nz out h room =
    let d = (cell_at xs i).0 in
    let found = seek-inside (wipe_node node s) l i false xs (wipe_node-Holds s l node xs k out) h in
    let there = cell_at-Chain s 0 (first_of xs) i xs k.linked.chain h in
    (
      displace l item node d (wipe_node node s),
      rw (==-false k.linked.listed, ==-false nz, found, ==-false there.0)
          (ap (λ n. some (n, displace l item node d (wipe_node node s))) k.count),
      record {
        linked = displace-Linked s l node item i xs k.linked nz out h;
        count =
            displace_count s l node item d
            ∙ omega (arith, k.count, length-insert_at i (node, item) xs h);
        room = omega (arith, length-insert_at i (node, item) xs h);
      },
    )

push_freed : (l item node : ℕ) (s : Store) → (list_push l item node s).1.freed ≡ s.freed
unfolding list_push
push_freed l item node s = ground arith

seek_head :
    (s : Store) (l node : ℕ) (round : Bool) (a v : ℕ) (xs : Cells)
    → Holds s l round ((a, v) ∷ xs)
    → seek_node l 0 (wipe_node node s) ≡ some a
unfolding seek_node walk
seek_head s l node round a v xs k =
    let near : ltb (s.lists l).elements 0 ≡ false = ground (arith, k.count) in
    rw (near, k.linked.first) refl

head_moved :
    (s : Store) (l node item a : ℕ)
    → (s.lists l).head ≡ a
    → ((displace l item node a (wipe_node node s)).lists l).head ≡ node
unfolding displace
head_moved s l node item a e = rw (e, ==-self a, ==-self l) refl

-- Past the end of a plain list, `list_insert` puts the item at the end, in the node of its second call of
-- `kalloc`; the node of the first call is not in the list and is not freed.
pub list_insert_past :
    (s : Store) (l item i node other : ℕ) (xs : Cells)
    → Holds s l false xs
    → node ≢ 0
    → has node xs ≡ false
    → other ≢ 0
    → has other xs ≡ false
    → node ≢ other
    → length xs ≤ i
    → length xs + 1 < 2 ^ 32
    → (s' : Store) × (list_insert l item i node other s ≡ some (length xs, s'))
      × Holds s' l false (xs ++ (other, item) ∷ [])
      × (has node (xs ++ (other, item) ∷ []) ≡ false)
      × (s'.freed ≡ s.freed)
unfolding list_insert
list_insert_past s l item i node other xs k nz out onz oout apart_nodes h room =
    let wiped = wipe_node-Holds s l node xs k out in
    let past = seek-plain_past (wipe_node node s) l i xs wiped h in
    let pushed = list_push-Holds (wipe_node node s) l item other false xs wiped onz oout room in
    (
      (list_push l item other (wipe_node node s)).1,
      rw (==-false k.linked.listed, ==-false nz, past)
          (ap (λ n. some (n, (list_push l item other (wipe_node node s)).1)) pushed.0),
      pushed.1,
      has-append node xs ((other, item) ∷ []) ∙ ground (arith, out, apart_nodes),
      push_freed l item other (wipe_node node s),
    )

-- On a round list with two nodes or more, `list_insert` at index 0 makes a ring of the new node and the old
-- first one, and the other nodes are no longer reached.
pub list_insert_cuts :
    (s : Store) (l item node other a v b u : ℕ) (xs : Cells)
    → Holds s l true ((a, v) ∷ (b, u) ∷ xs)
    → node ≢ 0
    → has node ((a, v) ∷ (b, u) ∷ xs) ≡ false
    → (s' : Store) × (list_insert l item 0 node other s ≡ some ((s.lists l).elements, s'))
      × ((s'.lists l).head ≡ node)
      × Chain s'.nodes node node ((node, item) ∷ (a, v) ∷ [])
unfolding list_insert
list_insert_cuts s l item node other a v b u xs k nz out =
    let apart_a : (node == a) ≡ false = ground (arith, out) in
    let start : (s.nodes a).prev ≡ a = k.linked.back.0 in
    let away : ((s.nodes a).prev == node) ≡ false = ground (arith, start, apart_a) in
    let s' = displace l item node a (wipe_node node s) in
    (
      s',
      rw
          (
            ==-false k.linked.listed,
            ==-false nz,
            seek_head s l node true a v ((b, u) ∷ xs) k,
            ==-false k.linked.chain.1,
          )
          refl,
      head_moved s l node item a k.linked.first,
      (
        refl,
        nz,
        ground (arith, apart_a),
        stored_item_new s l node item a apart_a,
        (
          stored_next_new s l node item a apart_a away,
          k.linked.chain.1,
          refl,
          stored_item s l node item a apart_a a apart_a ∙ k.linked.chain.3,
          stored_next s l node item a apart_a a apart_a
              ∙ rw (start, ==-false k.linked.chain.1, ==-self a) refl,
        ),
      ),
    )
