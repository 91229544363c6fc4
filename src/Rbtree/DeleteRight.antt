-- ===== src/Rbtree/DeleteRight.antt =====
-- The part of `delete` of lib/util/rbtree/rbtree.go in the right half.
use pggat.Base.{
  ℕ, ◌≤◌, ◌≡◌, refl, ap, sym, ◌∙◌, inl, inr, Option, some, List, [], ◌∷◌, ◌++◌, subst, arith, ≡→==,
  ≢→==, trichotomy,
}
use mathlib.Core.List.{append_assoc}
use pggat.Rbtree.{
  Color, black, red, opposite, Tree, leaf, node, ◌>>=◌, rotate_right, flip_colors, balance,
  move_red_right, min, delete_here,
}
use pggat.Rbtree.Valid.{Bal, Between, Has, Has-right, entries, Removes, Removes-in_right}
use pggat.Rbtree.Balance.{Gives, black_is_red}
use pggat.Rbtree.Order.{first_of}
use pggat.Rbtree.Step.{Does}
use pggat.Rbtree.DeleteMin.{IsCut}

module _ {V : Type 0} where
  min_before :
      (c : Color) (l : Tree V) (k : ℕ) (v : V) (r : Tree V) (rest : List (ℕ × V))
      → min (node c l k v r) ≡ first_of (entries (node c l k v r) ++ rest)
  unfolding min
  min_before c leaf k v r rest = refl
  min_before c (node d a x u b) k v r rest =
      min_before d a x u b ((k, v) ∷ (entries r ++ rest))
      ∙ ap first_of (sym (append_assoc (entries (node d a x u b)) ((k, v) ∷ entries r) rest))

  pub min_first : (t : Tree V) → min t ≡ first_of (entries t)
  unfolding min
  min_first leaf = refl
  min_first (node c leaf k v r) = refl
  min_first (node c (node d a x u b) k v r) = min_before d a x u b ((k, v) ∷ entries r)

  -- A black node with a red right child.
  abbrev pub Tilt : ℕ → Tree V → Type 0
  Tilt h leaf = ⊥
  Tilt h (node red l k v r) = ⊥
  Tilt h (node black l k v r) = Bal black h l × Bal red h r

  pub move_red_right_flip :
      (g : ℕ) (a : Tree V) (x : ℕ) (u : V) (b : Tree V) (k : ℕ) (v : V) (e : Tree V) (y : ℕ) (w : V)
      (f : Tree V)
      → Bal black g a
      → move_red_right (node red (node black a x u b) k v (node black e y w f))
        ≡ some (node black (node red a x u b) k v (node red e y w f))
  unfolding move_red_right flip_colors opposite
  move_red_right_flip g a x u b k v e y w f p = rw (black_is_red g a p) refl

  pub move_red_right_turn :
      (p : Tree V) (z : ℕ) (o : V) (q : Tree V) (x : ℕ) (u : V) (b : Tree V) (k : ℕ) (v : V)
      (e : Tree V) (y : ℕ) (w : V) (f : Tree V)
      → move_red_right (node red (node black (node red p z o q) x u b) k v (node black e y w f))
        ≡ some (node red (node black p z o q) x u (node black b k v (node red e y w f)))
  unfolding move_red_right flip_colors opposite rotate_right
  move_red_right_turn p z o q x u b k v e y w f = refl

module _ {V : Type 0} (key : ℕ) (del del_min : Tree V → Option (Tree V)) where
  -- The key is the node's or in its right child, which has less.
  pub change_right :
      (lo hi : ℕ) (P Q : Tree V → Type 0) (c : Color) (l : Tree V) (k : ℕ) (v : V) (r : Tree V)
      → Between lo hi (node c l k v r)
      → Has key (node c l k v r)
      → k ≤ key
      → (key ≡ k → Does IsCut P (entries r) (del_min r))
      → (Has key r → Does (Removes key) P (entries r) (del r))
      → ((i : ℕ) (o : V) (m : Tree V) → P m → Gives Q (node c l i o m) (balance (node c l i o m)))
      → Does
          (Removes key)
          Q
          (entries (node c l k v r))
          (delete_here del del_min key (node c l k v r))
  unfolding delete_here
  change_right lo hi P Q c l k v r bet has le root below fix = elim (trichotomy key k) [
    | inl less ↦ absurd (omega arith)
    | inr (inl more) ↦
        let d = below (Has-right lo hi key c l k v r bet more has) in
        let g = fix k v d.tree d.holds in
        rw (≢→== key k (λ e. absurd (omega (arith, e)))) (record {
          tree = g.tree;
          returns = ap (λ o. o >>= λ n. balance (node c l k v n)) d.returns ∙ g.returns;
          holds = g.holds;
          now =
              subst (λ es. Removes key (entries (node c l k v r)) es) (sym g.same)
                (Removes-in_right key (entries l) ((k, v) ∷ entries r) ((k, v) ∷ entries d.tree)
                  (Removes-in_right key ((k, v) ∷ []) (entries r) (entries d.tree) d.now));
        })
    | inr (inr same) ↦
        let d = root same in
        let p = d.now.0 in
        let g = fix p.0 p.1 d.tree d.holds in
        rw (≡→== key k same) (record {
          tree = g.tree;
          returns =
              ap (λ o. o >>= λ x. del_min r >>= λ n. balance (node c l x.0 x.1 n))
                (min_first r ∙ ap first_of d.now.1)
              ∙ (ap (λ o. o >>= λ n. balance (node c l p.0 p.1 n)) d.returns ∙ g.returns);
          holds = g.holds;
          now = record {
            front = entries l;
            value = v;
            back = entries r;
            was = ap (λ i. entries l ++ ((i, v) ∷ entries r)) (sym same);
            now = g.same ∙ ap (λ es. entries l ++ es) (sym d.now.1);
          };
        })
  ]
