-- ===== src/Lists/Freeing.antt =====
-- `delete_list` and `list_delete` of module/dthelper/list.c: what is freed and what stays.
use modit_micro.Base.{
  ==-self, ==-false, Bool-cases, ℕ, zero, suc, ◌<◌, ◌≤◌, ◌≡◌, refl, ◌∙◌, ap, inl, inr, Bool, false,
  ◌&&◌, List, [], ◌∷◌, some, arith, ltb, ◌==◌, if◌then◌else◌, length,
}
use modit_micro.Lists.{
  Store, walk, bypass, free_node, list_delete, list_remove, list_at, list_find, free_nodes,
  delete_list,
}
use modit_micro.Lists.Chain.{Cells, last_of, Chain, Linked, Holds, last-has, apart}
use modit_micro.Lists.Index.{list_find-finds}

-- The addresses of `xs`, handed to `kfree` in their order.
abbrev pub with_freed : Cells → List ℕ → List ℕ
with_freed [] done = done
with_freed ((a, v) ∷ xs) done = with_freed xs (a ∷ done)

free_nodes-all :
    (s : Store) (fuel stop p a v : ℕ) (xs : Cells)
    → Chain s.nodes stop p ((a, v) ∷ xs)
    → length xs < fuel
    → free_nodes fuel p (last_of a xs) s
      ≡ some (record s { freed = with_freed ((a, v) ∷ xs) s.freed })
unfolding free_nodes
free_nodes-all s zero stop p a v xs c f = absurd (omega arith)
free_nodes-all s (suc fuel) stop p a v [] c f = rw (c.0, ==-false c.1, ==-self a) refl
free_nodes-all s (suc fuel) stop p a v ((b, w) ∷ xs) c f =
    let far = apart a (last_of b xs) ((b, w) ∷ xs) c.2 (last-has b w xs) in
    rw (c.0, ==-false c.1, far)
      (free_nodes-all (free_node a s) fuel stop (s.nodes a).next b w xs c.4 (omega arith))

-- With at least as many rounds as the list has nodes, `delete_list` frees each of the nodes, once and in
-- order, and then the list, and does nothing else.
pub delete_list-all :
    (s : Store) (fuel l : ℕ) (round : Bool) (xs : Cells)
    → Linked s l round xs
    → length xs ≤ fuel
    → delete_list fuel l s ≡ some (record s { freed = l ∷ with_freed xs s.freed })
unfolding delete_list
delete_list-all s fuel l round [] k f = rw (==-false k.listed, k.first, k.last) refl
delete_list-all s fuel l round ((a, v) ∷ xs) k f =
    let there : ((a == last_of a xs) && (a == 0)) ≡ false = elim (Bool-cases (a == last_of a xs)) [
      | inl y ↦ rw (y, ==-false k.chain.1) refl
      | inr n ↦ rw n refl
    ] in
    rw
      (
        ==-false k.listed,
        k.first,
        k.last,
        there,
        free_nodes-all s fuel (if round then a else 0) a a v xs k.chain (omega arith),
      )
      refl

delete_first :
    (s : Store) (l a v : ℕ) (round : Bool) (xs : Cells)
    → Holds s l round ((a, v) ∷ xs)
    → list_delete l 0 s ≡ free_node a (bypass a s)
unfolding list_delete walk
delete_first s l a v round xs k =
    rw (==-false k.linked.listed, k.linked.first, ==-false k.linked.chain.1) refl

at_first :
    (s : Store) (l a v : ℕ) (round : Bool) (xs : Cells)
    → Holds s l round ((a, v) ∷ xs)
    → list_at l 0 (free_node a (bypass a s)) ≡ some v
unfolding list_at bypass
at_first s l a v round xs k =
    let near : ltb (s.lists l).elements 0 ≡ false = ground (arith, k.count) in
    rw (==-false k.linked.listed, near, k.linked.first, ==-false k.linked.chain.1)
      (ap some k.linked.chain.3)

-- `list_remove` of the datum of the first node frees that node and leaves it the head of the list, which
-- still counts it and still answers its datum at index 0.
pub list_remove_first :
    (s : Store) (fuel l a v : ℕ) (round : Bool) (xs : Cells)
    → Holds s l round ((a, v) ∷ xs)
    → length ((a, v) ∷ xs) < fuel
    → (s' : Store) × (list_remove fuel l v s ≡ some s')
      × (s'.freed ≡ a ∷ s.freed)
      × ((s'.lists l).head ≡ a)
      × ((s'.lists l).elements ≡ length ((a, v) ∷ xs))
      × (list_at l 0 s' ≡ some v)
unfolding list_remove bypass
list_remove_first s fuel l a v round xs k f =
    let s' = free_node a (bypass a s) in
    let found : list_find fuel l v s ≡ some 0 =
      list_find-finds s fuel l v round ((a, v) ∷ xs) k f ∙ rw (==-self v) refl in
    let gone : list_delete l 0 s ≡ s' = delete_first s l a v round xs k in
    (
      s',
      rw (==-false k.linked.listed, found) (ap some gone),
      refl,
      k.linked.first,
      k.count,
      at_first s l a v round xs k,
    )
