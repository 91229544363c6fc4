-- ===== src/Rbtree/DeleteMin.antt =====
-- `deleteMin` of lib/util/rbtree/rbtree.go takes the first entry out and keeps the tree balanced.
use pggat.Base.{ℕ, zero, suc, ◌≤◌, ◌≡◌, refl, ap, inr, List, ◌∷◌, ◌++◌, arith}
use pggat.Rbtree.{black, red, Tree, leaf, node, when, both_black, delete_min}
use pggat.Rbtree.Valid.{Bal, Any, size, entries}
use pggat.Rbtree.Balance.{balance_black_left}
use pggat.Rbtree.Step.{Lean, Does, change_left, red_over}

module _ {V : Type 0} where
  -- All entries but the first are left.
  abbrev pub IsCut : List (ℕ × V) → List (ℕ × V) → Type 0
  IsCut es rest = (p : ℕ × V) × (es ≡ p ∷ rest)

  pub IsCut-more : (xs ys zs : List (ℕ × V)) → IsCut xs ys → IsCut (xs ++ zs) (ys ++ zs)
  IsCut-more xs ys zs (p, e) = (p, ap (λ es. es ++ zs) e)

  pub leaf_of : (r : Tree V) → Bal black zero r → r ≡ leaf
  leaf_of leaf b = refl
  leaf_of (node red l k v r) b = absurd b
  leaf_of (node black l k v r) b = absurd b

  pub delete_min_ok :
      (fuel h : ℕ) (t : Tree V)
      → size t ≤ fuel
      → (Bal red h t → Does IsCut (Any h) (entries t) (delete_min fuel t))
        × (Lean h t → Does IsCut (Bal black (suc h)) (entries t) (delete_min fuel t))
  unfolding delete_min both_black when
  delete_min_ok zero h leaf s = (λ b. absurd b, λ b. absurd b)
  delete_min_ok zero h (node c l k v r) s = absurd (omega arith)
  delete_min_ok (suc fuel) h leaf s = (λ b. absurd b, λ b. absurd b)
  delete_min_ok (suc fuel) h (node black leaf k v r) s = (λ b. absurd b, λ b. absurd b.0)
  delete_min_ok (suc fuel) h (node black (node black a x u b) k v r) s =
      (λ b. absurd b, λ b. absurd b.0)
  delete_min_ok (suc fuel) h (node black (node red a x u b) k v r) s = (
    λ bal. absurd bal,
    λ bal.
        change_left IsCut IsCut-more (delete_min fuel) (Any h) (Bal black (suc h)) black
          (node red a x u b) k v r ((delete_min_ok fuel h (node red a x u b) (omega arith)).0 bal.0)
          (λ m p. balance_black_left h m k v r p bal.1),
  )
  delete_min_ok (suc fuel) zero (node red leaf k v r) s = (
    λ bal. record {
      tree = leaf;
      returns = refl;
      holds = inr tt;
      now = ((k, v), ap (λ t. (k, v) ∷ entries t) (leaf_of r bal.1));
    },
    λ bal. absurd bal,
  )
  delete_min_ok (suc fuel) (suc h) (node red leaf k v r) s =
      (λ bal. absurd bal.0, λ bal. absurd bal)
  delete_min_ok (suc fuel) zero (node red (node black a x u b) k v r) s =
      (λ bal. absurd bal.0, λ bal. absurd bal)
  delete_min_ok (suc fuel) zero (node red (node red a x u b) k v r) s =
      (λ bal. absurd bal.0, λ bal. absurd bal)
  delete_min_ok (suc fuel) (suc g) (node red (node black a x u b) k v (node black e y w f)) s = (
    λ bal.
        red_over IsCut IsCut-more (delete_min fuel) g a x u b k v e y w f bal.0 bal.1
          (delete_min_ok fuel g (node black a x u b) (omega arith)).1
          (delete_min_ok fuel g (node red a x u b) (omega arith)).0
          (λ c z o d eq lean.
            (delete_min_ok fuel g (node black (node red a x u b) k v c)
                (omega (arith, ap size eq))).1
              lean),
    λ bal. absurd bal,
  )
  delete_min_ok (suc fuel) (suc g) (node red (node red a x u b) k v r) s =
      (λ bal. absurd bal.0, λ bal. absurd bal)
  delete_min_ok (suc fuel) (suc g) (node red (node black a x u b) k v leaf) s =
      (λ bal. absurd bal.1, λ bal. absurd bal)
  delete_min_ok (suc fuel) (suc g) (node red (node black a x u b) k v (node red e y w f)) s =
      (λ bal. absurd bal.1, λ bal. absurd bal)
