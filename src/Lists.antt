-- ===== src/Lists.antt =====
-- module/dthelper/list.c and module/datatype/list.h: doubly linked lists, plain and round, as nodes at
-- addresses.
pub mod Chain
pub mod Push
pub mod Index
pub mod Freeing
pub mod Between
pub mod Insert
mod Tests
use modit_micro.Base.{
  ℕ, zero, suc, ◌+◌, ◌%◌, ◌^◌, Bool, true, false, not, ◌&&◌, Option, none, some, List, [], ◌∷◌, ltb,
  ◌==◌, if◌then◌else◌,
}

-- `list_node_t`. A pointer is an address, NULL is 0.
pub record Node : Type 0 where
  pub prev : ℕ
  pub next : ℕ
  pub item : ℕ

-- `list_t`.
pub record Header : Type 0 where
  pub rnd : Bool
  pub head : ℕ
  pub tail : ℕ
  pub elements : ℕ

-- The nodes and headers by address, and what was handed to `kfree`, newest first. `kfree` leaves the
-- bytes of what it frees.
pub record Store : Type 0 where
  pub nodes : ℕ → Node
  pub lists : ℕ → Header
  pub freed : List ℕ

-- The stores through a pointer to a node, made where `b` holds.
abbrev pub link_next : Bool → ℕ → ℕ → Store → Store
link_next b p v s = record s {
  nodes = λ q. record (s.nodes q) { next = if b && p == q then v else (s.nodes q).next };
}

abbrev pub link_prev : Bool → ℕ → ℕ → Store → Store
link_prev b p v s = record s {
  nodes = λ q. record (s.nodes q) { prev = if b && p == q then v else (s.nodes q).prev };
}

abbrev pub put_item : ℕ → ℕ → Store → Store
put_item p v s = record s {
  nodes = λ q. record (s.nodes q) { item = if p == q then v else (s.nodes q).item };
}

-- `memset(node, 0, sizeof(list_node_t))`.
abbrev pub wipe_node : ℕ → Store → Store
wipe_node p s = put_item p 0 (link_prev true p 0 (link_next true p 0 s))

abbrev pub put_head : Bool → ℕ → ℕ → Store → Store
put_head b l v s = record s {
  lists = λ k. record (s.lists k) { head = if b && l == k then v else (s.lists k).head };
}

abbrev pub put_tail : ℕ → ℕ → Store → Store
put_tail l v s = record s {
  lists = λ k. record (s.lists k) { tail = if l == k then v else (s.lists k).tail };
}

-- `list->elements++`.
abbrev pub count_element : ℕ → Store → Store
count_element l s = record s {
  lists = λ k. record (s.lists k) {
    elements = if l == k then ((s.lists k).elements + 1) % 2 ^ 32 else (s.lists k).elements;
  };
}

abbrev pub free_node : ℕ → Store → Store
free_node p s = record s { freed = p ∷ s.freed }

-- The negative answers of an `int`, as 32-bit patterns.
abbrev pub minus_one : ℕ
minus_one = 0xFFFFFFFF

abbrev pub minus_two : ℕ
minus_two = 0xFFFFFFFE

-- `list` is the answer of `kalloc`.
pub list_allocator : Bool → ℕ → Store → ℕ × Store
list_allocator r list s = if list == 0 then (0, s) else (
  list,
  record s {
    lists =
        λ k. if list == k then record { rnd = r; head = 0; tail = 0; elements = 0 } else s.lists k;
  },
)

pub new_list : ℕ → Store → ℕ × Store
unfolding list_allocator
new_list = list_allocator false

pub new_round_list : ℕ → Store → ℕ × Store
unfolding list_allocator
new_round_list = list_allocator true

-- The node of a list that had none.
pub push_first : ℕ → ℕ → ℕ → Store → Store
push_first list item node s =
    let round = (s.lists list).rnd in
    let s1 = put_head true list node (put_tail list node s) in
    count_element list
      (put_item node item (link_next round node node (link_prev round node node s1)))

-- A node behind the tail.
pub push_last : ℕ → ℕ → ℕ → Store → Store
push_last list item node s =
    let h = s.lists list in
    let s1 = put_tail list node (link_next true h.tail node (link_prev true node h.tail s)) in
    count_element list (put_item node item (link_next h.rnd node h.head s1))

-- `node` is the answer of `kalloc`.
pub list_push : ℕ → ℕ → ℕ → Store → ℕ × Store
unfolding push_first push_last
list_push list item node s =
    if list == 0
    then (minus_one, s)
    else if node == 0
    then (minus_two, s)
    else if (s.lists list).elements == 0
    then (0, push_first list item node (wipe_node node s))
    else ((s.lists list).elements, push_last list item node (wipe_node node s))

-- The loop `while(i && node)`.
pub walk : ℕ → ℕ → Store → ℕ
walk zero p s = p
walk (suc i) p s = if p == 0 then 0 else walk i (s.nodes p).next s

-- `none`, in this function and its callers, is the division by zero of an empty round list.
pub seek_node : ℕ → ℕ → Store → Option ℕ
unfolding walk
seek_node list i s =
    let h = s.lists list in
    if ltb h.elements i && h.rnd
    then (if h.elements == 0 then none else some (walk (i % h.elements) h.head s))
    else if ltb h.elements i
    then some 0
    else some (walk i h.head s)

-- `node` takes the place of the node `dp`.
pub displace : ℕ → ℕ → ℕ → ℕ → Store → Store
displace list item node dp s =
    let before = (s.nodes dp).prev in
    let s1 = link_prev true dp node (link_prev true node before (link_next true node dp s)) in
    let s2 = link_next (not (before == 0)) before node s1 in
    count_element list (put_item node item (put_head ((s.lists list).head == dp) list node s2))

-- `node` and `other` are the answers of `kalloc` here and in `list_push`.
pub list_insert : ℕ → ℕ → ℕ → ℕ → ℕ → Store → Option (ℕ × Store)
list_insert list item i node other s =
    if list == 0
    then some (minus_one, s)
    else if node == 0
    then some (minus_two, s)
    else elim (seek_node list i (wipe_node node s)) [
      | none ↦ none
      | some dp ↦
          if dp == 0
          then some (list_push list item other (wipe_node node s))
          else some ((s.lists list).elements, displace list item node dp (wipe_node node s))
    ]

pub list_get : ℕ → ℕ → Store → Option ℕ
unfolding seek_node
list_get list i s = if list == 0 then some 0 else seek_node list i s

pub list_at : ℕ → ℕ → Store → Option ℕ
unfolding seek_node
list_at list i s = if list == 0 then some 0 else elim (seek_node list i s) [
  | none ↦ none
  | some p ↦ some (if p == 0 then 0 else (s.nodes p).item)
]

-- `none`, from here on, means that the fuel ran out.
pub find_loop : ℕ → ℕ → ℕ → ℕ → Store → Option ℕ
find_loop zero p i item s = none
find_loop (suc fuel) p i item s =
    let rest = find_loop fuel (s.nodes p).next ((i + 1) % 2 ^ 32) item s in
    if p == 0 then some minus_one else if (s.nodes p).item == item then some i else rest

pub list_find : ℕ → ℕ → ℕ → Store → Option ℕ
unfolding find_loop
list_find fuel list item s =
    if list == 0 then some 0 else find_loop fuel (s.lists list).head 0 item s

-- The neighbours of `node` are linked to each other.
pub bypass : ℕ → Store → Store
bypass node s =
    let before = (s.nodes node).prev in
    let s1 = link_next (not (before == 0)) before (s.nodes node).next s in
    let after = (s1.nodes node).next in link_prev (not (after == 0)) after (s1.nodes node).prev s1

pub list_delete : ℕ → ℕ → Store → Store
unfolding walk bypass
list_delete list i s =
    let node = walk i (s.lists list).head s in
    if list == 0
    then s
    else if i == minus_one
    then s
    else if node == 0
    then s
    else free_node node (bypass node s)

pub list_remove : ℕ → ℕ → ℕ → Store → Option Store
list_remove fuel list item s =
    if list == 0
    then some s
    else elim (list_find fuel list item s) [ none ↦ none | some i ↦ some (list_delete list i s) ]

-- The loop of `delete_list`, which reads a node's `next` after the node is freed.
pub free_nodes : ℕ → ℕ → ℕ → Store → Option Store
free_nodes zero p last s = none
free_nodes (suc fuel) p last s =
    let rest = free_nodes fuel (s.nodes p).next last (free_node p s) in
    if p == 0 then some s else if p == last then some (free_node p s) else rest

pub delete_list : ℕ → ℕ → Store → Option Store
unfolding free_nodes
delete_list fuel list s =
    let h = s.lists list in
    if list == 0
    then some s
    else if h.head == h.tail && h.head == 0
    then some (free_node list s)
    else elim (free_nodes fuel h.head h.tail s) [ none ↦ none | some s1 ↦ some (free_node list s1) ]
