-- ===== src/Rbtree/Tests.antt =====
-- Trees of lib/util/rbtree with three and four entries, and the properties at them.
use pggat.Base.{ℕ, ◌≡◌, refl, inl, inr, some, [], ◌∷◌, arith}
use pggat.Rbtree.{
  black, red, opposite, Tree, leaf, node, get, set, put, delete_key, min, max, next, prev, balance,
  when, rotate_left, rotate_right, flip_colors, paint_black, delete_found, delete, redden,
  delete_right, delete_here, both_black, move_red_right,
}
use pggat.Rbtree.Valid.{entries}
use pggat.Rbtree.Put.{put_entry}
use pggat.Rbtree.Order.{drop_entry, find, first_of, last_of, first_above, last_below}
use pggat.Rbtree.Depth.{sets, deletes, entries_after, Stays, run_ops, run_ops-Stays}
use pggat.Rbtree.Laws.{IsTree, Becomes, set_lem, get-set, delete_key_lem, lookups}

-- Keys 1, 3, 5 and 7, of which 1 is red.
abbrev four : Tree ℕ
four = node black (node black (node red leaf 1 10 leaf) 3 30 leaf) 5 50 (node black leaf 7 70 leaf)

abbrev four-IsTree : IsTree four
four-IsTree = record {
  height = 2;
  above = 8;
  balanced = (inr (inl (tt, tt), tt), (inr tt, tt));
  ordered = (((omega arith, omega arith), omega arith), (omega arith, omega arith));
}

set-splits :
    set four 2 20
    ≡ some (
        node black
          (node red (node black leaf 1 10 leaf) 2 20 (node black leaf 3 30 leaf))
          5
          50
          (node black leaf 7 70 leaf))
unfolding set put balance when rotate_left rotate_right flip_colors opposite paint_black
set-splits = refl

delete_key-joins :
    delete_key 4 four 7
    ≡ some (node black (node black leaf 1 10 leaf) 3 30 (node black leaf 5 50 leaf))
unfolding delete_key delete_found get delete redden when delete_right both_black move_red_right
    flip_colors rotate_right opposite delete_here balance paint_black
delete_key-joins = refl

set_lem_example : Becomes (put_entry 4 40 (entries four)) (set four 4 40)
set_lem_example = set_lem four 4 40 four-IsTree

get-set_example :
    (n : Tree ℕ) × ((set four 4 40 ≡ some n)
      × ((get n 4 ≡ some 40) × ((other : ℕ) → ¬ (4 ≡ other) → get n other ≡ get four other)))
get-set_example = get-set four 4 40 four-IsTree

delete_key_lem_example : Becomes (drop_entry 5 (entries four)) (delete_key 4 four 5)
delete_key_lem_example = delete_key_lem 4 four 5 (omega arith) four-IsTree

lookups_example :
    (get four 4 ≡ find 4 (entries four))
    × ((min four ≡ first_of (entries four))
        × ((max four ≡ last_of (entries four))
            × ((next four 4 ≡ first_above 4 (entries four))
                × (prev four 4 ≡ last_below 4 (entries four)))))
lookups_example = lookups four 4 four-IsTree

run_ops-Stays_example :
    Stays
      (entries_after (entries four) (sets 2 20 ∷ deletes 7 ∷ sets 9 90 ∷ deletes 5 ∷ []))
      (run_ops four (sets 2 20 ∷ deletes 7 ∷ sets 9 90 ∷ deletes 5 ∷ []))
run_ops-Stays_example = run_ops-Stays _ four four-IsTree
