-- ===== src/Lists/Tests.antt =====
-- Runs of the lists of module/dthelper/list.c, and instances of the theorems.
use modit_micro.Base.{
  ℕ, ◌≡◌, refl, inr, Bool, true, false, [], ◌∷◌, none, some, arith, ◌==◌, if◌then◌else◌, ◌++◌,
}
use modit_micro.Lists.{
  Store, new_list, new_round_list, list_push, list_insert, list_at, list_get, list_find,
  list_delete, delete_list, minus_one,
}
use modit_micro.Lists.Chain.{Cells, Chain, Holds}
use modit_micro.Lists.Push.{list_push-Holds}
use modit_micro.Lists.Index.{list_at-cell_at, list_find-finds}
use modit_micro.Lists.Freeing.{delete_list-all}
use modit_micro.Lists.Insert.{list_insert-Holds, list_insert_cuts}

-- A list at 0x100 with the data 7 and 9, plain or round.
abbrev two : Bool → Store
two round = record {
  nodes = λ p.
      if p == 0x200
      then record { prev = if round then 0x200 else 0; next = 0x210; item = 7 }
      else record { prev = 0x200; next = if round then 0x200 else 0; item = 9 };
  lists = λ l. record { rnd = round; head = 0x200; tail = 0x210; elements = 2 };
  freed = [];
}

abbrev cells : Cells
cells = (0x200, 7) ∷ (0x210, 9) ∷ []

two-Holds : (round : Bool) → Holds (two round) 0x100 round cells
two-Holds true = record {
  linked = record {
    listed = omega arith;
    kind = refl;
    first = refl;
    last = refl;
    chain = (refl, omega arith, refl, refl, (refl, omega arith, refl, refl, refl));
    back = (refl, (refl, tt));
  };
  count = refl;
  room = omega arith;
}
two-Holds false = record {
  linked = record {
    listed = omega arith;
    kind = refl;
    first = refl;
    last = refl;
    chain = (refl, omega arith, refl, refl, (refl, omega arith, refl, refl, refl));
    back = (refl, (refl, tt));
  };
  count = refl;
  room = omega arith;
}

-- The data are taken from a new list that `list_push` filled.
abbrev pushed : (ℕ → Store → ℕ × Store) → Store
pushed new =
    (list_push 0x100 9 0x210
      (list_push 0x100 7 0x200 (new 0x100 (record (two false) { freed = [] })).1).1).1

pushed_items : list_at 0x100 1 (pushed new_list) ≡ some 9
unfolding list_at list_push new_list
pushed_items = refl

pushed_around : list_at 0x100 5 (pushed new_round_list) ≡ some 9
unfolding list_at list_push new_round_list
pushed_around = refl

get_test : list_get 0x100 1 (two false) ≡ some 0x210
unfolding list_get
get_test = refl

delete_test : (list_delete 0x100 1 (two false)).freed ≡ 0x210 ∷ []
unfolding list_delete
delete_test = refl

-- After `list_delete` of the last node, `list_push` links the new node to the freed one.
lost_test :
    list_find 5 0x100 3 (list_push 0x100 3 0x220 (list_delete 0x100 1 (two false))).1
    ≡ some minus_one
unfolding list_find list_push list_delete
lost_test = refl

list_push-Holds_example :
    ((list_push 0x100 5 0x220 (two true)).0 ≡ 2)
    × Holds (list_push 0x100 5 0x220 (two true)).1 0x100 true (cells ++ (0x220, 5) ∷ [])
list_push-Holds_example =
    list_push-Holds (two true) 0x100 5 0x220 true cells (two-Holds true) (omega arith) refl
      (omega arith)

list_at-cell_at_example : list_at 0x100 7 (two true) ≡ some 9
list_at-cell_at_example =
    list_at-cell_at (two true) 0x100 7 true cells (two-Holds true) (inr (omega arith))

list_find-finds_example : list_find 3 0x100 4 (two true) ≡ none
list_find-finds_example =
    list_find-finds (two true) 3 0x100 4 true cells (two-Holds true) (omega arith)

list_insert-Holds_example :
    (s' : Store) × (list_insert 0x100 8 1 0x220 0x230 (two false) ≡ some (2, s'))
    × Holds s' 0x100 false ((0x200, 7) ∷ (0x220, 8) ∷ (0x210, 9) ∷ [])
list_insert-Holds_example =
    list_insert-Holds (two false) 0x100 8 1 0x220 0x230 cells (two-Holds false) (omega arith) refl
      (omega arith) (omega arith)

list_insert_cuts_example :
    (s' : Store) × (list_insert 0x100 8 0 0x220 0x230 (two true) ≡ some (2, s'))
    × ((s'.lists 0x100).head ≡ 0x220)
    × Chain s'.nodes 0x220 0x220 ((0x220, 8) ∷ (0x200, 7) ∷ [])
list_insert_cuts_example =
    list_insert_cuts (two true) 0x100 8 0x220 0x230 0x200 7 0x210 9 [] (two-Holds true)
      (omega arith) refl

delete_list-all_example :
    delete_list 2 0x100 (two true) ≡ some (record (two true) { freed = 0x100 ∷ 0x210 ∷ 0x200 ∷ [] })
delete_list-all_example =
    delete_list-all (two true) 2 0x100 true cells (two-Holds true).linked (omega arith)
