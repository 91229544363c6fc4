-- ===== src/Rbtree/Depth.antt =====
-- Sequences of `Set` and `Delete` on the tree of lib/util/rbtree/rbtree.go, and its depth after them.
use pggat.Base.{
  ℕ, zero, suc, ◌*◌, ◌^◌, ◌≤◌, ◌≡◌, refl, ap, subst, inl, inr, Option, some, List, [], ◌∷◌,
  if◌then◌else◌, leb, arith,
}
use pggat.Rbtree.{black, red, Tree, leaf, node, ◌>>=◌, set, delete_key}
use pggat.Rbtree.Valid.{Bal, size, entries}
use pggat.Rbtree.Order.{drop_entry}
use pggat.Rbtree.Put.{put_entry}
use pggat.Rbtree.Laws.{IsTree, Becomes, set_lem, delete_key_lem}

taller : (m n b : ℕ) → m ≤ b → n ≤ b → (if leb m n then suc n else suc m) ≤ suc b
taller m n b p q = ground arith

pow_suc : (h : ℕ) → 2 ^ suc h ≡ 2 * 2 ^ h
pow_suc h = omega arith

pub data Op (V : Type 0) : Type 0 where
  sets : ℕ → V → Op V
  deletes : ℕ → Op V

module _ {V : Type 0} where
  unfoldable pub apply_op : Tree V → Op V → Option (Tree V)
  apply_op t (sets key value) = set t key value
  apply_op t (deletes key) = delete_key (size t) t key

  unfoldable pub run_ops : Tree V → List (Op V) → Option (Tree V)
  run_ops t [] = some t
  run_ops t (o ∷ os) = apply_op t o >>= λ n. run_ops n os

  -- The same on a list of entries in the order of their keys.
  abbrev pub entries_with : List (ℕ × V) → Op V → List (ℕ × V)
  entries_with es (sets key value) = put_entry key value es
  entries_with es (deletes key) = drop_entry key es

  abbrev pub entries_after : List (ℕ × V) → List (Op V) → List (ℕ × V)
  entries_after es [] = es
  entries_after es (o ∷ os) = entries_after (entries_with es o) os

  apply_op_lem :
      (o : Op V) (t : Tree V) → IsTree t → Becomes (entries_with (entries t) o) (apply_op t o)
  unfolding apply_op
  apply_op_lem (sets key value) t w = set_lem t key value w
  apply_op_lem (deletes key) t w = delete_key_lem (size t) t key (omega arith) w

  abbrev pub depth : Tree V → ℕ
  depth leaf = 0
  depth (node c l k v r) = if leb (depth l) (depth r) then suc (depth r) else suc (depth l)

  depth_of :
      (h : ℕ) (t : Tree V)
      → (Bal black h t → (depth t ≤ 2 * h) × (2 ^ h ≤ suc (size t)))
        × (Bal red h t → (depth t ≤ suc (2 * h)) × (2 ^ h ≤ suc (size t)))
  depth_of zero leaf = (λ b. (omega arith, omega arith), λ b. absurd b)
  depth_of (suc h) leaf = (λ b. absurd b, λ b. absurd b)
  depth_of zero (node black l k v r) = (λ b. absurd b, λ b. absurd b)
  depth_of (suc h) (node black l k v r) =
      let left = depth_of h l in
      let right = depth_of h r in
      (
        λ b. elim b.0 [
          | inl c ↦ (
            omega (
              arith,
              taller (depth l) (depth r) (suc (2 * h)) (left.1 c).0
                  (omega (arith, (right.0 b.1).0)),
            ),
            omega (arith, pow_suc h, (left.1 c).1, (right.0 b.1).1),
          )
          | inr c ↦ (
            omega (arith, taller (depth l) (depth r) (2 * h) (left.0 c).0 (right.0 b.1).0),
            omega (arith, pow_suc h, (left.0 c).1, (right.0 b.1).1),
          )
        ],
        λ b. absurd b,
      )
  depth_of h (node red l k v r) = (
    λ b. absurd b,
    λ b. (
      taller (depth l) (depth r) (2 * h) ((depth_of h l).0 b.0).0 ((depth_of h r).0 b.1).0,
      omega (arith, ((depth_of h l).0 b.0).1),
    ),
  )

  -- After any calls, the tree is one whose depth is at most `2 * h` for an `h` such that `2 ^ h` is at
  -- most the number of its entries and one more.
  pub record Stays (es : List (ℕ × V)) (r : Option (Tree V)) : Type 0 where
    pub tree : Tree V
    pub returns : r ≡ some tree
    pub now : entries tree ≡ es
    pub height : ℕ
    pub depth_at_most : depth tree ≤ 2 * height
    pub size_at_least : 2 ^ height ≤ suc (size tree)

  run_ops_from :
      (os : List (Op V)) (es : List (ℕ × V)) (r : Option (Tree V))
      → Becomes es r
      → Stays (entries_after es os) (r >>= λ n. run_ops n os)
  unfolding run_ops
  run_ops_from [] es r b =
      let d = (depth_of b.valid.height b.tree).0 b.valid.balanced in
      record {
        tree = b.tree;
        returns = ap (λ m. m >>= λ n. some n) b.returns;
        now = b.now;
        height = b.valid.height;
        depth_at_most = d.0;
        size_at_least = d.1;
      }
  run_ops_from (o ∷ os) es r b = rw b.returns (
      subst (λ l. Stays (entries_after (entries_with l o) os) (run_ops b.tree (o ∷ os))) b.now
        (run_ops_from os _ _ (apply_op_lem o b.tree b.valid)))

  -- Any sequence of `Set` and `Delete` on a balanced search tree ends without panic, with the entries
  -- that the calls leave one after the other, and the tree is then at most twice as deep as the
  -- logarithm of its size: its depth is at most `2 * h` for an `h` with `2 ^ h` at most the number of
  -- its nodes and one more.
  pub run_ops-Stays :
      (os : List (Op V)) (t : Tree V)
      → IsTree t
      → Stays (entries_after (entries t) os) (run_ops t os)
  run_ops-Stays os t w =
      run_ops_from os (entries t) (some t)
        (record { tree = t; returns = refl; valid = w; now = refl })
