-- ===== src/Rbtree/Laws.antt =====
-- The red-black tree of lib/util/rbtree/rbtree.go as a map in the order of its keys.
use pggat.Base.{
  ℕ, zero, suc, ◌+◌, ◌≤◌, ◌≡◌, refl, ap, sym, subst, ◌∙◌, inl, inr, Option, none, some, List, arith,
  trichotomy, lt→ltb, le→ltb,
}
use pggat.Rbtree.{
  black, red, Tree, leaf, node, ◌>>=◌, paint_black, get, set, put, min, max, next, prev, redden,
  delete, delete_found, delete_key,
}
use pggat.Rbtree.Valid.{Bal, Any, Between, Has, size, entries, Removes}
use pggat.Rbtree.Order.{
  Ordered, Between-Ordered, Ordered-Between, put_entry-Ordered, drop_entry-Ordered, drop_entry_at,
  drop_entry_absent, find, first_of, last_of, first_above, last_below, find_put, find_put_other,
  drop_entry,
}
use pggat.Rbtree.Put.{put_entry}
use pggat.Rbtree.Balance.{black_is_red}
use pggat.Rbtree.PutValid.{put_ok, no_red}
use pggat.Rbtree.Step.{Does}
use pggat.Rbtree.DeleteRight.{min_first}
use pggat.Rbtree.Delete.{delete_ok}
use pggat.Rbtree.Search.{get-find, max_last, next_first, prev_last}

module _ {V : Type 0} where
  -- A balanced search tree with a black root.
  pub record IsTree (t : Tree V) : Type 0 where
    pub height : ℕ
    pub above : ℕ
    pub balanced : Bal black height t
    pub ordered : Between 0 above t

  -- `r` is such a tree, with these entries.
  pub record Becomes (es : List (ℕ × V)) (r : Option (Tree V)) : Type 0 where
    pub tree : Tree V
    pub returns : r ≡ some tree
    pub valid : IsTree tree
    pub now : entries tree ≡ es

  paint_black-entries : (t : Tree V) → entries (paint_black t) ≡ entries t
  unfolding paint_black
  paint_black-entries leaf = refl
  paint_black-entries (node c l k v r) = refl

  paint_black-Bal : (h : ℕ) (t : Tree V) → Any h t → (g : ℕ) × Bal black g (paint_black t)
  unfolding paint_black
  paint_black-Bal zero leaf b = (zero, tt)
  paint_black-Bal (suc h) leaf (inl b) = absurd b
  paint_black-Bal (suc h) leaf (inr b) = absurd b
  paint_black-Bal h (node red l k v r) (inl (p, q)) = (suc h, (inr p, q))
  paint_black-Bal zero (node red l k v r) (inr b) = absurd b
  paint_black-Bal (suc h) (node red l k v r) (inr b) = absurd b
  paint_black-Bal h (node black l k v r) (inl b) = absurd b
  paint_black-Bal h (node black l k v r) (inr b) = (h, b)

  -- The root is painted black at the end.
  painted :
      (h above : ℕ) (t : Tree V) (es : List (ℕ × V)) (r : Option (Tree V))
      → r ≡ some t
      → Any h t
      → entries t ≡ es
      → Ordered 0 above es
      → Becomes es (r >>= λ n. some (paint_black n))
  painted h above t es r e any now o =
      let b = paint_black-Bal h t any in
      let same = paint_black-entries t ∙ now in
      record {
        tree = paint_black t;
        returns = ap (λ m. m >>= λ n. some (paint_black n)) e;
        valid = record {
          height = b.0;
          above = above;
          balanced = b.1;
          ordered = Ordered-Between 0 above (paint_black t) (subst (Ordered 0 above) (sym same) o);
        };
        now = same;
      }

  -- `Set` on a balanced search tree does not panic: it gives a balanced search tree, whose entries are
  -- those of the tree in the order of their keys with the value put under the key.
  pub set_lem :
      (t : Tree V) (key : ℕ) (value : V)
      → IsTree t
      → Becomes (put_entry key value (entries t)) (set t key value)
  unfolding set
  set_lem t key value w =
      let p = (put_ok key value w.height 0 w.above t w.ordered).0 w.balanced in
      painted w.height (w.above + suc key) p.tree (put_entry key value (entries t))
        (put t key value) p.returns p.holds p.now
        (put_entry-Ordered key value 0 w.above (entries t) (omega arith)
          (Between-Ordered 0 w.above t w.ordered))

  -- `Get` on a balanced search tree is the lookup in the list of its entries.
  pub get_lem : (t : Tree V) (key : ℕ) → IsTree t → get t key ≡ find key (entries t)
  get_lem t key w = get-find key 0 w.above t w.ordered

  -- On a balanced search tree `Get` is the lookup in the list of the entries, `Min` and `Max` are the
  -- first and the last entry, `Next` is the first entry above the key and `Prev` the last one below it,
  -- each missing when there is none.
  pub lookups :
      (t : Tree V) (key : ℕ)
      → IsTree t
      → (get t key ≡ find key (entries t))
        × ((min t ≡ first_of (entries t))
            × ((max t ≡ last_of (entries t))
                × ((next t key ≡ first_above key (entries t))
                    × (prev t key ≡ last_below key (entries t)))))
  lookups t key w = (
    get_lem t key w,
    (
      min_first t,
      (max_last t, (next_first key 0 w.above t w.ordered, prev_last key 0 w.above t w.ordered)),
    ),
  )

  -- `Set` on a balanced search tree returns; what it puts under a key is what `Get` then returns for it,
  -- and `Get` returns for every other key what it did before.
  pub get-set :
      (t : Tree V) (key : ℕ) (value : V)
      → IsTree t
      → (n : Tree V) × ((set t key value ≡ some n)
          × ((get n key ≡ some value)
              × ((other : ℕ) → ¬ (key ≡ other) → get n other ≡ get t other)))
  get-set t key value w =
      let b = set_lem t key value w in
      (
        b.tree,
        (
          b.returns,
          (
            get_lem b.tree key b.valid ∙ (ap (find key) b.now ∙ find_put key value (entries t)),
            λ other ne.
                get_lem b.tree other b.valid
                ∙ (ap (find other) b.now
                    ∙ (find_put_other key other value (entries t) ne ∙ sym (get_lem t other w))),
          ),
        ),
      )

  -- `Get` finds only keys that the tree has.
  get-Has : (t : Tree V) (key : ℕ) (v : V) → get t key ≡ some v → Has key t
  unfolding get
  get-Has leaf key v e = ground arith
  get-Has (node c l k w r) key v e = elim (trichotomy k key) [
    | inl less ↦
        let same : get (node c l k w r) key ≡ get r key = rw (lt→ltb k key less) refl in
        inr (inr (get-Has r key v (sym same ∙ e)))
    | inr (inl more) ↦
        let same : get (node c l k w r) key ≡ get l key =
          rw (le→ltb k key (omega arith), lt→ltb key k more) refl in
        inl (get-Has l key v (sym same ∙ e))
    | inr (inr same) ↦ inr (inl (sym same))
  ]

  redden_ok :
      (fuel above : ℕ) (t : Tree V) (key h : ℕ)
      → size t ≤ fuel
      → Between 0 above t
      → Has key t
      → Bal black h t
      → (g : ℕ) × Does (Removes key) (Any g) (entries t) (delete fuel key (redden t))
  unfolding redden
  redden_ok fuel above leaf key h s bet has bal = absurd has
  redden_ok fuel above (node red l k v r) key h s bet has bal = no_red h l k v r bal
  redden_ok fuel above (node black l k v r) key zero s bet has bal = absurd bal
  redden_ok fuel above (node black leaf k v r) key (suc h) s bet has (inl p, q) = absurd p
  redden_ok fuel above (node black (node black a x u b) k v r) key (suc h) s bet has (inl p, q) =
      absurd p
  redden_ok fuel above (node black (node red a x u b) k v r) key (suc h) s bet has (inl p, q) =
      let d =
        (delete_ok key fuel (node black (node red a x u b) k v r) s h 0 above bet has).1.0 (p, q) in
      (suc h, record { tree = d.tree; returns = d.returns; holds = inr d.holds; now = d.now })
  redden_ok fuel above (node black l k v r) key (suc h) s bet has (inr p, q) =
      rw (black_is_red h l p, black_is_red h r q)
        (h, (delete_ok key fuel (node red l k v r) s h 0 above bet has).0 (p, q))

  delete_found_ok :
      (fuel : ℕ) (t : Tree V) (key : ℕ) (o : Option V)
      → size t ≤ fuel
      → IsTree t
      → get t key ≡ o
      → Becomes (drop_entry key (entries t)) (delete_found fuel t key o)
  unfolding delete_found
  delete_found_ok fuel t key none s w e = record {
    tree = t;
    returns = refl;
    valid = w;
    now = sym (drop_entry_absent key (entries t) (sym (get_lem t key w) ∙ e));
  }
  delete_found_ok fuel t key (some v) s w e =
      let d = redden_ok fuel w.above t key w.height s w.ordered (get-Has t key v e) w.balanced in
      let o = Between-Ordered 0 w.above t w.ordered in
      let m = d.1.now in
      let now : entries d.1.tree ≡ drop_entry key (entries t) =
        m.now
        ∙ sym (
            ap (drop_entry key) m.was
            ∙ drop_entry_at key 0 w.above m.front m.value m.back
                (subst (Ordered 0 w.above) m.was o)) in
      painted d.0 w.above d.1.tree (drop_entry key (entries t)) (delete fuel key (redden t))
        d.1.returns d.1.holds now (drop_entry-Ordered key 0 w.above (entries t) o)

  -- `Delete` on a balanced search tree does not panic and ends within as many steps as the tree has nodes:
  -- it gives a balanced search tree, whose entries are those of the tree without the key's.
  pub delete_key_lem :
      (fuel : ℕ) (t : Tree V) (key : ℕ)
      → size t ≤ fuel
      → IsTree t
      → Becomes (drop_entry key (entries t)) (delete_key fuel t key)
  unfolding delete_key
  delete_key_lem fuel t key s w = delete_found_ok fuel t key (get t key) s w refl
