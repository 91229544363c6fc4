-- ===== src/Rbtree/Delete.antt =====
-- `delete` of lib/util/rbtree/rbtree.go takes out the entry with the key and keeps the tree balanced.
use pggat.Base.{
  ℕ, zero, suc, ◌≤◌, ◌<◌, ◌≡◌, refl, ap, sym, inl, inr, Option, [], ◌∷◌, subst, arith, lt→ltb,
  le→ltb, ≡→==, trichotomy,
}
use mathlib.Core.List.{append_assoc}
use pggat.Rbtree.{
  Color, black, red, Tree, leaf, node, when, rotate_right, both_black, delete_min, delete_here,
  delete_right, delete,
}
use pggat.Rbtree.Valid.{
  Bal, Any, Between, Between-le, Has, Has-left, size, entries, Removes, Removes-in_left,
}
use pggat.Rbtree.Balance.{
  black_is_red, balance_black-Any, balance_black_left, balance_black_right, balance_red_left,
}
use pggat.Rbtree.Step.{Lean, Does, after_move, red_is_red, strengthen, change_left, red_over}
use pggat.Rbtree.DeleteMin.{delete_min_ok}
use pggat.Rbtree.DeleteRight.{Tilt, change_right, move_red_right_flip, move_red_right_turn}

below_or : {A : Type 0} (key k : ℕ) → (key < k → A) → (k ≤ key → A) → A
below_or key k low high = elim (trichotomy key k) [
  | inl less ↦ low less
  | inr (inl more) ↦ high (omega arith)
  | inr (inr same) ↦ high (omega arith)
]

module _ {V : Type 0} (key : ℕ) where
  abbrev Drops : (Tree V → Type 0) → Tree V → Option (Tree V) → Type 0
  Drops P t r = Does (Removes key) P (entries t) r

  abbrev Over : Tree V → Type 0
  Over leaf = ⊥
  Over (node c l k v r) = k ≤ key

  -- The call is right on this tree, when its color allows it and it has the key.
  abbrev Good : (Tree V → Option (Tree V)) → Tree V → Type 0
  Good del t =
      (h lo hi : ℕ)
      → Between lo hi t
      → Has key t
      → (Bal red h t → Drops (Any h) t (del t))
        × ((Lean h t → Drops (Bal black (suc h)) t (del t))
            × (Tilt h t → Over t → Drops (Bal black (suc h)) t (del t)))

  -- In the left half, of a black node with a red left child and of a red node.
  low-Lean :
      (fuel h lo hi : ℕ) (a : Tree V) (x : ℕ) (u : V) (b : Tree V) (k : ℕ) (v : V) (r : Tree V)
      → Between lo hi (node black (node red a x u b) k v r)
      → Has key (node black (node red a x u b) k v r)
      → key < k
      → Good (delete fuel key) (node red a x u b)
      → Lean h (node black (node red a x u b) k v r)
      → Drops
          (Bal black (suc h))
          (node black (node red a x u b) k v r)
          (delete (suc fuel) key (node black (node red a x u b) k v r))
  unfolding delete both_black when
  low-Lean fuel h lo hi a x u b k v r bet has less down bal = rw (lt→ltb key k less) (
      change_left (Removes key) (Removes-in_left key) (delete fuel key) (Any h) (Bal black (suc h))
        black (node red a x u b) k v r
        ((down h lo k bet.0 (Has-left lo hi key black (node red a x u b) k v r bet less has)).0
          bal.0)
        (λ m p. balance_black_left h m k v r p bal.1))

  low_red :
      (fuel g lo hi : ℕ) (a : Tree V) (x : ℕ) (u : V) (b : Tree V) (k : ℕ) (v : V) (e : Tree V)
      (y : ℕ) (w : V) (f : Tree V)
      → Between lo hi (node red (node black a x u b) k v (node black e y w f))
      → Has key (node red (node black a x u b) k v (node black e y w f))
      → key < k
      → ((t : Tree V)
          → size t < size (node red (node black a x u b) k v (node black e y w f))
          → Good (delete fuel key) t)
      → Bal red (suc g) (node red (node black a x u b) k v (node black e y w f))
      → Drops
          (Any (suc g))
          (node red (node black a x u b) k v (node black e y w f))
          (delete (suc fuel) key (node red (node black a x u b) k v (node black e y w f)))
  unfolding delete both_black
  low_red fuel g lo hi a x u b k v e y w f bet has less down bal =
      let inside : Has key (node black a x u b) =
        Has-left lo hi key red (node black a x u b) k v (node black e y w f) bet less has in
      rw (lt→ltb key k less) (
        red_over (Removes key) (Removes-in_left key) (delete fuel key) g a x u b k v e y w f bal.0
          bal.1 (down (node black a x u b) (omega arith) g lo k bet.0 inside).1.0
          (down (node red a x u b) (omega arith) g lo k bet.0 inside).0
          (λ c z o d eq.
            (down (node black (node red a x u b) k v c) (omega (arith, ap size eq)) g lo z
              (bet.0, (subst (Between (suc k) y) eq bet.1.0).0) (inl inside)).1.0))

  Has-rotated :
      (a : Tree V) (x : ℕ) (u : V) (b : Tree V) (k : ℕ) (v : V) (r : Tree V)
      → Has key (node black (node red a x u b) k v r)
      → Has key (node black a x u (node red b k v r))
  Has-rotated a x u b k v r (inl (inl h)) = inl h
  Has-rotated a x u b k v r (inl (inr (inl h))) = inr (inl h)
  Has-rotated a x u b k v r (inl (inr (inr h))) = inr (inr (inl h))
  Has-rotated a x u b k v r (inr h) = inr (inr (inr h))

  entries_rotated :
      (a : Tree V) (x : ℕ) (u : V) (b : Tree V) (k : ℕ) (v : V) (r : Tree V)
      → entries (node black a x u (node red b k v r))
        ≡ entries (node black (node red a x u b) k v r)
  entries_rotated a x u b k v r =
      sym (append_assoc (entries a) ((x, u) ∷ entries b) ((k, v) ∷ entries r))

  -- In the right half. A red left child is rotated over.
  high-Lean :
      (fuel h lo hi : ℕ) (a : Tree V) (x : ℕ) (u : V) (b : Tree V) (k : ℕ) (v : V) (r : Tree V)
      → size (node black (node red a x u b) k v r) ≤ suc fuel
      → Between lo hi (node black (node red a x u b) k v r)
      → Has key (node black (node red a x u b) k v r)
      → k ≤ key
      → Good (delete fuel key) (node red b k v r)
      → Lean h (node black (node red a x u b) k v r)
      → Drops
          (Bal black (suc h))
          (node black (node red a x u b) k v r)
          (delete (suc fuel) key (node black (node red a x u b) k v r))
  unfolding delete both_black when rotate_right delete_right
  high-Lean fuel h lo hi a x u b k v r s bet has le down bal = rw (le→ltb key k le) (
      subst
        (λ es. Does (Removes key) (Bal black (suc h)) es (
          delete_here (delete fuel key) (delete_min fuel) key
            (node black a x u (node red b k v r))))
        (entries_rotated a x u b k v r)
        (change_right key (delete fuel key) (delete_min fuel) lo hi (Any h) (Bal black (suc h))
          black a x u (node red b k v r) (bet.0.0, (bet.0.1, bet.1)) (Has-rotated a x u b k v r has)
          (omega (arith, Between-le (suc x) k b bet.0.1))
          (λ e. (delete_min_ok fuel h (node red b k v r) (omega arith)).0 (bal.0.1, bal.1))
          (λ inside. (down h (suc x) hi (bet.0.1, bet.1) inside).0 (bal.0.1, bal.1))
          (λ i o m p. balance_black_right h a i o m bal.0.0 p)))

  -- A red right child needs no move.
  high-Tilt :
      (fuel h lo hi : ℕ) (l : Tree V) (k : ℕ) (v : V) (a : Tree V) (x : ℕ) (u : V) (b : Tree V)
      → size (node black l k v (node red a x u b)) ≤ suc fuel
      → Between lo hi (node black l k v (node red a x u b))
      → Has key (node black l k v (node red a x u b))
      → k ≤ key
      → Good (delete fuel key) (node red a x u b)
      → Tilt h (node black l k v (node red a x u b))
      → Drops
          (Bal black (suc h))
          (node black l k v (node red a x u b))
          (delete (suc fuel) key (node black l k v (node red a x u b)))
  unfolding delete both_black when delete_right
  high-Tilt fuel h lo hi l k v a x u b s bet has le down bal =
      rw (le→ltb key k le, black_is_red h l bal.0)
        (change_right key (delete fuel key) (delete_min fuel) lo hi (Any h) (Bal black (suc h))
          black l k v (node red a x u b) bet has le
          (λ e. (delete_min_ok fuel h (node red a x u b) (omega arith)).0 bal.1)
          (λ inside. (down h (suc k) hi bet.1 inside).0 bal.1)
          (λ i o m p. balance_black_right h l i o m bal.0 p))

  -- A red node at the bottom.
  high_last :
      (fuel : ℕ) (k : ℕ) (v : V)
      → Has key (node red leaf k v leaf)
      → Drops (Any 0) (node red leaf k v leaf) (delete (suc fuel) key (node red leaf k v leaf))
  unfolding delete both_black when delete_right
  high_last fuel k v (inl h) = absurd h
  high_last fuel k v (inr (inl same)) =
      rw (le→ltb key k (omega (arith, same)), ≡→== key k same)
        (record {
          tree = leaf;
          returns = refl;
          holds = inr tt;
          now = record {
            front = [];
            value = v;
            back = [];
            was = ap (λ i. (i, v) ∷ []) (sym same);
            now = refl;
          };
        })
  high_last fuel k v (inr (inr h)) = absurd h

  -- The right child of a red node: with a red left child, and with a black one, so that the red node
  -- moves down.
  high_red :
      (fuel g lo hi : ℕ) (a : Tree V) (x : ℕ) (u : V) (b : Tree V) (k : ℕ) (v : V) (e : Tree V)
      (y : ℕ) (w : V) (f : Tree V)
      → size (node red (node black a x u b) k v (node black e y w f)) ≤ suc fuel
      → Between lo hi (node red (node black a x u b) k v (node black e y w f))
      → Has key (node red (node black a x u b) k v (node black e y w f))
      → k ≤ key
      → ((t : Tree V)
          → size t < size (node red (node black a x u b) k v (node black e y w f))
          → Good (delete fuel key) t)
      → Any g a × Bal black g b
      → Any g e × Bal black g f
      → Drops
          (Any (suc g))
          (node red (node black a x u b) k v (node black e y w f))
          (delete (suc fuel) key (node red (node black a x u b) k v (node black e y w f)))
  unfolding delete both_black when delete_right
  high_red fuel g lo hi a x u b k v e y w f s bet has le down p (inl q, t) =
      rw (le→ltb key k le, red_is_red g e q)
        (change_right key (delete fuel key) (delete_min fuel) lo hi (Bal black (suc g))
          (Any (suc g)) red (node black a x u b) k v (node black e y w f) bet has le
          (λ m. (delete_min_ok fuel g (node black e y w f) (omega arith)).1 (q, t))
          (λ inside. (down (node black e y w f) (omega arith) g (suc k) hi bet.1 inside).1.0 (q, t))
          (λ i o m n. strengthen g _ _ (balance_red_left (suc g) (node black a x u b) i o m p n)))
  high_red fuel g lo hi a x u b k v e y w f s bet has le down (inr p, r) (inr q, t) =
      rw (le→ltb key k le, black_is_red g e q)
        (after_move (Removes key) (Any (suc g))
          (delete_here (delete fuel key) (delete_min fuel) key)
          (node black (node red a x u b) k v (node red e y w f)) _ _
          (move_red_right_flip g a x u b k v e y w f p) refl
          (change_right key (delete fuel key) (delete_min fuel) lo hi (Any g) (Any (suc g)) black
            (node red a x u b) k v (node red e y w f) bet has le
            (λ m. (delete_min_ok fuel g (node red e y w f) (omega arith)).0 (q, t))
            (λ inside. (down (node red e y w f) (omega arith) g (suc k) hi bet.1 inside).0 (q, t))
            (λ i o m n. balance_black-Any g (node red a x u b) i o m (inl (p, r)) n)))
  high_red fuel g lo hi leaf x u b k v e y w f s bet has le down (inl p, r) (inr q, t) = absurd p
  high_red fuel g lo hi (node black c z o d) x u b k v e y w f s bet has le down (inl p, r)
        (inr q, t) =
      absurd p
  high_red fuel g lo hi (node red c z o d) x u b k v e y w f s bet has le down (inl p, r)
        (inr q, t) =
      rw (le→ltb key k le, black_is_red g e q)
        (after_move (Removes key) (Any (suc g))
          (delete_here (delete fuel key) (delete_min fuel) key)
          (node red (node black c z o d) x u (node black b k v (node red e y w f))) _ _
          (move_red_right_turn c z o d x u b k v e y w f)
          (entries_rotated (node red c z o d) x u b k v (node black e y w f))
          (change_right key (delete fuel key) (delete_min fuel) lo hi (Bal black (suc g))
            (Any (suc g)) red (node black c z o d) x u (node black b k v (node red e y w f))
            (bet.0.0, (bet.0.1, bet.1))
            (Has-rotated (node red c z o d) x u b k v (node black e y w f) has)
            (omega (arith, Between-le (suc x) k b bet.0.1))
            (λ m. absurd (omega (arith, Between-le (suc x) k b bet.0.1)))
            (λ inside.
              (down (node black b k v (node red e y w f)) (omega arith) g (suc x) hi
                  (bet.0.1, bet.1) inside).1.1
                (r, (q, t)) le)
            (λ i m n j.
              strengthen g _ _
                (balance_red_left (suc g) (node black c z o d) i m n (inr p.0, p.1) j))))

  no_node :
      {A : Type 0} (c : Color) (l : Tree V) (k : ℕ) (v : V) (r : Tree V)
      → Bal black zero (node c l k v r)
      → A
  no_node black l k v r bal = absurd bal
  no_node red l k v r bal = absurd bal

  -- Every call with less fuel, on a smaller tree.
  abbrev Down : ℕ → Tree V → Type 0
  Down fuel t = (m : Tree V) → size m < size t → Good (delete fuel key) m

  Lean-keeps :
      (fuel h lo hi : ℕ) (t : Tree V)
      → size t ≤ suc fuel
      → Down fuel t
      → Between lo hi t
      → Has key t
      → Lean h t
      → Drops (Bal black (suc h)) t (delete (suc fuel) key t)
  Lean-keeps fuel h lo hi leaf s down bet has bal = absurd bal
  Lean-keeps fuel h lo hi (node red l k v r) s down bet has bal = absurd bal
  Lean-keeps fuel h lo hi (node black leaf k v r) s down bet has bal = absurd bal.0
  Lean-keeps fuel h lo hi (node black (node black a x u b) k v r) s down bet has bal = absurd bal.0
  Lean-keeps fuel h lo hi (node black (node red a x u b) k v r) s down bet has bal =
      below_or key k
        (λ less.
          low-Lean fuel h lo hi a x u b k v r bet has less (down (node red a x u b) (omega arith))
            bal)
        (λ le.
          high-Lean fuel h lo hi a x u b k v r s bet has le (down (node red b k v r) (omega arith))
            bal)

  Tilt-keeps :
      (fuel h lo hi : ℕ) (t : Tree V)
      → size t ≤ suc fuel
      → Down fuel t
      → Between lo hi t
      → Has key t
      → Tilt h t
      → Over t
      → Drops (Bal black (suc h)) t (delete (suc fuel) key t)
  Tilt-keeps fuel h lo hi leaf s down bet has bal over = absurd bal
  Tilt-keeps fuel h lo hi (node red l k v r) s down bet has bal over = absurd bal
  Tilt-keeps fuel h lo hi (node black l k v leaf) s down bet has bal over = absurd bal.1
  Tilt-keeps fuel h lo hi (node black l k v (node black a x u b)) s down bet has bal over =
      absurd bal.1
  Tilt-keeps fuel h lo hi (node black l k v (node red a x u b)) s down bet has bal over =
      high-Tilt fuel h lo hi l k v a x u b s bet has over (down (node red a x u b) (omega arith))
        bal

  red_keeps :
      (fuel h lo hi : ℕ) (t : Tree V)
      → size t ≤ suc fuel
      → Down fuel t
      → Between lo hi t
      → Has key t
      → Bal red h t
      → Drops (Any h) t (delete (suc fuel) key t)
  red_keeps fuel h lo hi leaf s down bet has bal = absurd bal
  red_keeps fuel h lo hi (node black l k v r) s down bet has bal = absurd bal
  red_keeps fuel zero lo hi (node red leaf k v leaf) s down bet has bal = high_last fuel k v has
  red_keeps fuel zero lo hi (node red leaf k v (node d e y w f)) s down bet has bal =
      no_node d e y w f bal.1
  red_keeps fuel zero lo hi (node red (node c a x u b) k v r) s down bet has bal =
      no_node c a x u b bal.0
  red_keeps fuel (suc g) lo hi (node red leaf k v r) s down bet has bal = absurd bal.0
  red_keeps fuel (suc g) lo hi (node red (node red a x u b) k v r) s down bet has bal = absurd bal.0
  red_keeps fuel (suc g) lo hi (node red (node black a x u b) k v leaf) s down bet has bal =
      absurd bal.1
  red_keeps fuel (suc g) lo hi (node red (node black a x u b) k v (node red e y w f)) s down bet has
        bal =
      absurd bal.1
  red_keeps fuel (suc g) lo hi (node red (node black a x u b) k v (node black e y w f)) s down bet
        has bal =
      below_or key k (λ less. low_red fuel g lo hi a x u b k v e y w f bet has less down bal)
        (λ le. high_red fuel g lo hi a x u b k v e y w f s bet has le down bal.0 bal.1)

  pub delete_ok : (fuel : ℕ) (t : Tree V) → size t ≤ fuel → Good (delete fuel key) t
  delete_ok fuel leaf s = λ h lo hi bet has. absurd has
  delete_ok zero (node c l k v r) s = absurd (omega arith)
  delete_ok (suc fuel) (node c l k v r) s =
      let down : Down fuel (node c l k v r) = λ m less. delete_ok fuel m (omega arith) in
      λ h lo hi bet has. (
        red_keeps fuel h lo hi (node c l k v r) s down bet has,
        (
          Lean-keeps fuel h lo hi (node c l k v r) s down bet has,
          Tilt-keeps fuel h lo hi (node c l k v r) s down bet has,
        ),
      )
