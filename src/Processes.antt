-- ===== src/Processes.antt =====
-- apps/procsvr/process_tree.c: the tree of processes that the process server keeps.
pub mod Search
pub mod Adding
mod Tests
use modit_micro.Base.{
  ℕ, ◌+◌, Bool, true, false, ◌&&◌, Option, none, some, List, [], ◌∷◌, ◌==◌, if◌then◌else◌,
}

-- `process_t`; a name is the string up to its terminating 0.
pub record Process : Type 0 where
  pub name : List ℕ
  pub pid : ℕ
  pub refcount : ℕ

-- `process_tree_node_t` and the list of its children, in the order of `next`.
mutual
  pub data Tree : Type 0 where
    node : Process → Children → Tree

  pub data Children : Type 0 where
    nobody : Children
    child : Tree → Children → Children

abbrev pub proc : Tree → Process
proc (node p kids) = p

-- `proc_init`.
pub proc_init : Tree
proc_init = node record { name = 105 ∷ 110 ∷ 105 ∷ 116 ∷ []; pid = 0; refcount = 0 } nobody

-- `traverse_by_pid` and `traverse_by_name`, with their tests as `p`. The loop over the children tests a
-- child before it goes down to it.
mutual
  pub traverse : (Process → Bool) → Tree → Option Tree
  traverse p (node own kids) =
      let rest = traverse_children p kids in if p own then some (node own kids) else rest

  pub traverse_children : (Process → Bool) → Children → Option Tree
  traverse_children p nobody = none
  traverse_children p (child t ts) =
      let rest = traverse_children p ts in
      let trv = traverse p t in
      if p (proc t) then some t else elim trv [ none ↦ rest | some found ↦ some found ]

pub same_string : List ℕ → List ℕ → Bool
same_string [] [] = true
same_string [] (d ∷ ds) = false
same_string (c ∷ cs) [] = false
same_string (c ∷ cs) (d ∷ ds) = let rest = same_string cs ds in c == d && rest

abbrev pub has_pid : ℕ → Process → Bool
has_pid pid p = p.pid == pid

abbrev pub has_name : List ℕ → Process → Bool
has_name name p = same_string p.name name

abbrev pub found_proc : Option Tree → Option Process
found_proc none = none
found_proc (some t) = some (proc t)

pub proc_find_by_pid : ℕ → Tree → Option Process
unfolding traverse
proc_find_by_pid pid root = found_proc (traverse (has_pid pid) root)

pub proc_find_by_name : List ℕ → Tree → Option Process
unfolding traverse same_string
proc_find_by_name name root = found_proc (traverse (has_name name) root)

-- `proc_list_append`.
pub proc_list_append : Tree → Children → Children
proc_list_append new nobody = child new nobody
proc_list_append new (child t ts) = child t (proc_list_append new ts)

-- The tree with the new node among the children of the node that `traverse` finds.
mutual
  unfolding proc_list_append

  pub add_below : (Process → Bool) → Tree → Tree → Option Tree
  add_below p new (node own kids) =
      let rest = add_below_children p new kids in
      if p own
      then some (node own (proc_list_append new kids))
      else elim rest [ none ↦ none | some kids' ↦ some (node own kids') ]

  pub add_below_children : (Process → Bool) → Tree → Children → Option Children
  add_below_children p new nobody = none
  add_below_children p new (child t ts) =
      let rest = add_below_children p new ts in
      let here = add_below p new t in
      elim here [
        | none ↦ elim rest [ none ↦ none | some ts' ↦ some (child t ts') ]
        | some t' ↦ some (child t' ts)
      ]

-- Without the parent, the new process becomes a child of init, whose id is 0.
pub proc_add : Process → ℕ → Tree → Tree
unfolding add_below
proc_add new parent root = elim (add_below (has_pid parent) (node new nobody) root) [
  | some t ↦ t
  | none ↦
      if parent == 0
      then root
      else elim (add_below (has_pid 0) (node new nobody) root) [ none ↦ root | some t ↦ t ]
]
