-- ===== src/Rbtree/Step.antt =====
-- The part in the left half that `deleteMin` and `delete` of lib/util/rbtree/rbtree.go share.
use pggat.Base.{
  ℕ, suc, ◌≡◌, refl, ap, sym, ◌∙◌, inl, inr, true, Option, some, List, ◌∷◌, ◌++◌, not, subst,
}
use mathlib.Core.List.{append_assoc}
use pggat.Rbtree.{
  Color, black, red, opposite, Tree, leaf, node, ◌>>=◌, is_red, left_of, when, rotate_left,
  rotate_right, rotate_child, flip_colors, balance, move_red_left, with_left,
}
use pggat.Rbtree.Valid.{Bal, Any, entries}
use pggat.Rbtree.Balance.{Gives, black_is_red, balance_black-Any, balance_red_left}

module _ {V : Type 0} where
  -- A black node with a red left child.
  abbrev pub Lean : ℕ → Tree V → Type 0
  Lean h leaf = ⊥
  Lean h (node red l k v r) = ⊥
  Lean h (node black l k v r) = Bal red h l × Bal black h r

  -- `moveRedLeft` where the right child has a black left child, and where it has a red one.
  pub move_red_left_flip :
      (g : ℕ) (a : Tree V) (x : ℕ) (u : V) (b : Tree V) (k : ℕ) (v : V) (e : Tree V) (y : ℕ) (w : V)
      (f : Tree V)
      → Bal black g e
      → move_red_left (node red (node black a x u b) k v (node black e y w f))
        ≡ some (node black (node red a x u b) k v (node red e y w f))
  unfolding move_red_left flip_colors opposite
  move_red_left_flip g a x u b k v e y w f p = rw (black_is_red g e p) refl

  pub move_red_left_turn :
      (a : Tree V) (x : ℕ) (u : V) (b : Tree V) (k : ℕ) (v : V) (p : Tree V) (z : ℕ) (o : V)
      (q : Tree V) (y : ℕ) (w : V) (f : Tree V)
      → move_red_left (node red (node black a x u b) k v (node black (node red p z o q) y w f))
        ≡ some (node red (node black (node red a x u b) k v p) z o (node black q y w f))
  unfolding move_red_left flip_colors opposite rotate_child rotate_right rotate_left
  move_red_left_turn a x u b k v p z o q y w f = refl

  pub red_is_red : (h : ℕ) (t : Tree V) → Bal red h t → is_red t ≡ true
  red_is_red h leaf b = absurd b
  red_is_red h (node red l k v r) b = refl
  red_is_red h (node black l k v r) b = absurd b

  pub strengthen :
      (h : ℕ) (t : Tree V) (r : Option (Tree V))
      → Gives (Bal red (suc h)) t r
      → Gives (Any (suc h)) t r
  strengthen h t r g = record {
    tree = g.tree;
    returns = g.returns;
    holds = inl g.holds;
    same = g.same;
  }

  -- `moveRedLeft` with a rotation keeps the entries.
  pub turned :
      (a : Tree V) (x : ℕ) (u : V) (b : Tree V) (k : ℕ) (v : V) (p : Tree V) (z : ℕ) (o : V)
      (q : Tree V) (y : ℕ) (w : V) (f : Tree V)
      → entries (node red (node black a x u b) k v (node black (node red p z o q) y w f))
        ≡ entries (node red (node black (node red a x u b) k v p) z o (node black q y w f))
  turned a x u b k v p z o q y w f =
      ap (λ es. (entries a ++ ((x, u) ∷ entries b)) ++ ((k, v) ∷ es))
        (append_assoc (entries p) ((z, o) ∷ entries q) ((y, w) ∷ entries f))
      ∙ sym (
          append_assoc (entries a ++ ((x, u) ∷ entries b)) ((k, v) ∷ entries p)
            ((z, o) ∷ (entries q ++ ((y, w) ∷ entries f))))

  -- `r` is a tree with the property, and its entries are what the relation makes of `es`.
  pub record Does (R : List (ℕ × V) → List (ℕ × V) → Type 0) (P : Tree V → Type 0)
      (es : List (ℕ × V)) (r : Option (Tree V)) : Type 0 where
    pub tree : Tree V
    pub returns : r ≡ some tree
    pub holds : P tree
    pub now : R es (entries tree)

  -- The step after the move, which gave `n`.
  pub after_move :
      (R : List (ℕ × V) → List (ℕ × V) → Type 0) (Q : Tree V → Type 0)
      (f : Tree V → Option (Tree V)) (n : Tree V) (es : List (ℕ × V)) (moved : Option (Tree V))
      → moved ≡ some n
      → entries n ≡ es
      → Does R Q (entries n) (f n)
      → Does R Q es (moved >>= f)
  after_move R Q f n es moved m e step = record {
    tree = step.tree;
    returns = ap (λ o. o >>= f) m ∙ step.returns;
    holds = step.holds;
    now = subst (λ xs. R xs (entries step.tree)) e step.now;
  }

  -- A relation that goes on to hold with more entries behind, and the call on the left child.
  module _ (R : List (ℕ × V) → List (ℕ × V) → Type 0)
      (more : (xs ys zs : List (ℕ × V)) → R xs ys → R (xs ++ zs) (ys ++ zs))
      (del : Tree V → Option (Tree V)) where
    -- `n.left = del(n.left); return balance(n)`.
    abbrev pub in_left : Tree V → Option (Tree V)
    in_left n = del (left_of n) >>= λ m. with_left n m >>= balance

    pub change_left :
        (P Q : Tree V → Type 0) (c : Color) (l : Tree V) (k : ℕ) (v : V) (r : Tree V)
        → Does R P (entries l) (del l)
        → ((m : Tree V) → P m → Gives Q (node c m k v r) (balance (node c m k v r)))
        → Does R Q (entries (node c l k v r)) (in_left (node c l k v r))
    unfolding with_left
    change_left P Q c l k v r step fix =
        let g = fix step.tree step.holds in
        record {
          tree = g.tree;
          returns =
              ap (λ o. o >>= λ m. with_left (node c l k v r) m >>= balance) step.returns
              ∙ g.returns;
          holds = g.holds;
          now =
              subst (λ es. R (entries (node c l k v r)) es) (sym g.same)
                (more (entries l) (entries step.tree) ((k, v) ∷ entries r) step.now);
        }

    -- The left child of a red node is black: it has a red left child, or the red node moves down,
    -- where the right child has a black left child or a red one.
    module _ (g : ℕ) (a : Tree V) (x : ℕ) (u : V) (b : Tree V) (k : ℕ) (v : V) where
      pub red_over :
          (e : Tree V) (y : ℕ) (w : V) (f : Tree V)
          → Any g a × Bal black g b
          → Any g e × Bal black g f
          → (Bal red g a × Bal black g b
              → Does R
                  (Bal black (suc g))
                  (entries (node black a x u b))
                  (del (node black a x u b)))
          → (Bal black g a × Bal black g b
              → Does R (Any g) (entries (node red a x u b)) (del (node red a x u b)))
          → ((c : Tree V) (z : ℕ) (o : V) (d : Tree V)
              → e ≡ node red c z o d
              → Lean g (node black (node red a x u b) k v c)
              → Does R
                  (Bal black (suc g))
                  (entries (node black (node red a x u b) k v c))
                  (del (node black (node red a x u b) k v c)))
          → Does R
              (Any (suc g))
              (entries (node red (node black a x u b) k v (node black e y w f)))
              (when
                  (not (is_red a))
                  move_red_left
                  (node red (node black a x u b) k v (node black e y w f))
                >>= in_left)
      unfolding when
      red_over e y w f (inl p, q) (s, t) lean low turn = rw (red_is_red g a p) (
          change_left (Bal black (suc g)) (Any (suc g)) red (node black a x u b) k v
            (node black e y w f) (lean (p, q))
            (λ m i.
              strengthen g _ _ (balance_red_left (suc g) m k v (node black e y w f) i (s, t))))
      red_over e y w f (inr p, q) (inr s, t) lean low turn = rw (black_is_red g a p) (
          after_move R (Any (suc g)) in_left (node black (node red a x u b) k v (node red e y w f))
            _ _ (move_red_left_flip g a x u b k v e y w f s) refl
            (change_left (Any g) (Any (suc g)) black (node red a x u b) k v (node red e y w f)
              (low (p, q)) (λ m i. balance_black-Any g m k v (node red e y w f) i (inl (s, t)))))
      red_over (node red c z o d) y w f (inr p, q) (inl s, t) lean low turn =
          rw (black_is_red g a p) (
            after_move R (Any (suc g)) in_left
              (node red (node black (node red a x u b) k v c) z o (node black d y w f)) _ _
              (move_red_left_turn a x u b k v c z o d y w f)
              (sym (turned a x u b k v c z o d y w f))
              (change_left (Bal black (suc g)) (Any (suc g)) red
                (node black (node red a x u b) k v c) z o (node black d y w f)
                (turn c z o d refl ((p, q), s.0))
                (λ m i.
                  strengthen g _ _
                    (balance_red_left (suc g) m z o (node black d y w f) i (inr s.1, t)))))
      red_over (node black c z o d) y w f (inr p, q) (inl s, t) lean low turn = absurd s
      red_over leaf y w f (inr p, q) (inl s, t) lean low turn = absurd s
