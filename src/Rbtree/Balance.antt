-- ===== src/Rbtree/Balance.antt =====
-- `balance` of lib/util/rbtree/rbtree.go on the nodes that it meets.
use pggat.Base.{ℕ, zero, suc, ◌≡◌, refl, inl, inr, false, Option, some, List, ◌∷◌, ◌++◌}
use mathlib.Core.List.{append_assoc}
use pggat.Rbtree.{
  Color, black, red, opposite, Tree, leaf, node, is_red, when, rotate_left, rotate_right,
  flip_colors, balance,
}
use pggat.Rbtree.Valid.{Bal, Any, entries}

-- A step that does not panic gives a tree with the property and the entries of `t`.
pub record Gives {V : Type 0} (P : Tree V → Type 0) (t : Tree V) (r : Option (Tree V))
    : Type 0 where
  pub tree : Tree V
  pub returns : r ≡ some tree
  pub holds : P tree
  pub same : entries tree ≡ entries t

module _ {V : Type 0} where
  pub black_is_red : (h : ℕ) (t : Tree V) → Bal black h t → is_red t ≡ false
  black_is_red h leaf b = refl
  black_is_red zero (node red l k v r) b = absurd b
  black_is_red (suc h) (node red l k v r) b = absurd b
  black_is_red h (node black l k v r) b = refl

  -- A right child that is black, and a left one that is red over black or is black.
  pub balance_same :
      (c : Color) (h : ℕ) (l : Tree V) (k : ℕ) (v : V) (r : Tree V)
      → Any h l
      → Bal black h r
      → balance (node c l k v r) ≡ some (node c l k v r)
  unfolding balance when
  balance_same c h (node red a x u b) k v r (inl (p, q)) s =
      rw (black_is_red h r s, black_is_red h a p, black_is_red h r s) refl
  balance_same c h (node black a x u b) k v r (inl p) s = absurd p
  balance_same c h leaf k v r (inl p) s = absurd p
  balance_same c h l k v r (inr p) s =
      rw (black_is_red h r s, black_is_red h l p, black_is_red h l p) refl

  pub balance_lean :
      (c : Color) (h : ℕ) (l : Tree V) (k : ℕ) (v : V) (a : Tree V) (x : ℕ) (u : V) (b : Tree V)
      → Bal black h l
      → Bal black h b
      → balance (node c l k v (node red a x u b)) ≡ some (node c (node red l k v a) x u b)
  unfolding balance when rotate_left
  balance_lean c h l k v a x u b p q =
      rw (black_is_red h l p, black_is_red h l p, black_is_red h b q) refl

  pub balance_flip :
      (c : Color) (h : ℕ) (a : Tree V) (x : ℕ) (u : V) (b : Tree V) (k : ℕ) (v : V) (e : Tree V)
      (y : ℕ) (w : V) (f : Tree V)
      → Bal black h a
      → balance (node c (node red a x u b) k v (node red e y w f))
        ≡ some (node (opposite c) (node black a x u b) k v (node black e y w f))
  unfolding balance when flip_colors opposite
  balance_flip c h a x u b k v e y w f p = rw (black_is_red h a p) refl

  pub balance_double :
      (c : Color) (h : ℕ) (d : Tree V) (z : ℕ) (o : V) (e : Tree V) (x : ℕ) (u : V) (b : Tree V)
      (k : ℕ) (v : V) (r : Tree V)
      → Bal black h r
      → balance (node c (node red (node red d z o e) x u b) k v r)
        ≡ some (node (opposite c) (node black d z o e) x u (node black b k v r))
  unfolding balance when flip_colors rotate_right opposite
  balance_double c h d z o e x u b k v r p = rw (black_is_red h r p) refl

  regroup :
      (a : List (ℕ × V)) (p : ℕ × V) (b : List (ℕ × V)) (q : ℕ × V) (d : List (ℕ × V))
      → (a ++ (p ∷ b)) ++ (q ∷ d) ≡ a ++ (p ∷ (b ++ (q ∷ d)))
  regroup a p b q d = append_assoc a (p ∷ b) (q ∷ d)

  pub weaken :
      (h : ℕ) (t : Tree V) (r : Option (Tree V))
      → Gives (Bal black (suc h)) t r
      → Gives (Any (suc h)) t r
  weaken h t r g = record { tree = g.tree; returns = g.returns; holds = inr g.holds; same = g.same }

  pub balance_black_left :
      (h : ℕ) (l : Tree V) (k : ℕ) (v : V) (r : Tree V)
      → Any h l
      → Bal black h r
      → Gives (Bal black (suc h)) (node black l k v r) (balance (node black l k v r))
  balance_black_left h l k v r p q = record {
    tree = node black l k v r;
    returns = balance_same black h l k v r p q;
    holds = (p, q);
    same = refl;
  }

  pub balance_red_left :
      (h : ℕ) (l : Tree V) (k : ℕ) (v : V) (r : Tree V)
      → Bal black h l
      → Bal black h r
      → Gives (Bal red h) (node red l k v r) (balance (node red l k v r))
  balance_red_left h l k v r p q = record {
    tree = node red l k v r;
    returns = balance_same red h l k v r (inr p) q;
    holds = (p, q);
    same = refl;
  }

  pub balance_black_right :
      (h : ℕ) (l : Tree V) (k : ℕ) (v : V) (r : Tree V)
      → Bal black h l
      → Any h r
      → Gives (Bal black (suc h)) (node black l k v r) (balance (node black l k v r))
  balance_black_right h l k v r p (inr q) = balance_black_left h l k v r (inr p) q
  balance_black_right h l k v (node red a x u b) p (inl (q, s)) = record {
    tree = node black (node red l k v a) x u b;
    returns = balance_lean black h l k v a x u b p s;
    holds = (inl (p, q), s);
    same = regroup (entries l) (k, v) (entries a) (x, u) (entries b);
  }
  balance_black_right h l k v (node black a x u b) p (inl q) = absurd q
  balance_black_right h l k v leaf p (inl q) = absurd q

  pub balance_black-Any :
      (h : ℕ) (l : Tree V) (k : ℕ) (v : V) (r : Tree V)
      → Any h l
      → Any h r
      → Gives (Any (suc h)) (node black l k v r) (balance (node black l k v r))
  unfolding opposite
  balance_black-Any h (node red a x u b) k v (node red e y w f) (inl (p, q)) (inl (s, t)) = record {
    tree = node red (node black a x u b) k v (node black e y w f);
    returns = balance_flip black h a x u b k v e y w f p;
    holds = inl ((inr p, q), (inr s, t));
    same = refl;
  }
  balance_black-Any h l k v r (inr p) q = weaken h _ _ (balance_black_right h l k v r p q)
  balance_black-Any h l k v r p (inr q) = weaken h _ _ (balance_black_left h l k v r p q)
  balance_black-Any h leaf k v r (inl p) (inl q) = absurd p
  balance_black-Any h (node black a x u b) k v r (inl p) (inl q) = absurd p
  balance_black-Any h (node red a x u b) k v leaf (inl p) (inl q) = absurd q
  balance_black-Any h (node red a x u b) k v (node black e y w f) (inl p) (inl q) = absurd q
