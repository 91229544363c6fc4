-- ===== src/Rbtree/Put.antt =====
-- `Set` of lib/util/rbtree/rbtree.go.
use pggat.Base.{
  ℕ, suc, ◌≤◌, ◌<◌, ◌≡◌, refl, ap, sym, ◌∙◌, inl, inr, Option, some, List, [], ◌∷◌, ◌++◌,
  if◌then◌else◌, ltb, arith, lt→ltb,
}
use mathlib.Core.List.{append_assoc}
use pggat.Rbtree.{black, red, opposite, Tree, leaf, node, balance}
use pggat.Rbtree.Valid.{Bal, Any, Between, Between-le, entries}
use pggat.Rbtree.Balance.{
  Gives, balance_same, balance_double, balance_black_left, balance_lean, weaken,
}

-- `m[key] = value` on a list in the order of its keys.
abbrev pub put_entry : {V : Type 0} → ℕ → V → List (ℕ × V) → List (ℕ × V)
put_entry key value [] = (key, value) ∷ []
put_entry key value ((k, v) ∷ rest) =
    let more = (k, v) ∷ put_entry key value rest in
    if ltb k key
    then more
    else (if ltb key k then (key, value) ∷ (k, v) ∷ rest else (key, value) ∷ rest)

module _ {V : Type 0} where
  -- What `put` makes of a subtree: a red one may come to have a red left child.
  abbrev pub IsPut : ℕ → Tree V → Type 0
  IsPut h leaf = Any h (let t : Tree V = leaf in t)
  IsPut h (node black l k v r) = Bal black h (node black l k v r)
  IsPut h (node red l k v r) = Any h l × Bal black h r

  -- Between the entries of a tree whose keys are below `k` and those above.
  pub put_entry_left :
      (key : ℕ) (value : V) (xs : List (ℕ × V)) (k : ℕ) (v : V) (ys : List (ℕ × V))
      → key < k
      → put_entry key value (xs ++ ((k, v) ∷ ys)) ≡ put_entry key value xs ++ ((k, v) ∷ ys)
  put_entry_left key value [] k v ys h = ground arith
  put_entry_left key value ((j, w) ∷ xs) k v ys h =
      ground (arith, put_entry_left key value xs k v ys h)

  pub put_entry_right :
      (key : ℕ) (value : V) (lo hi : ℕ) (t : Tree V) (rest : List (ℕ × V))
      → Between lo hi t
      → hi ≤ key
      → put_entry key value (entries t ++ rest) ≡ entries t ++ put_entry key value rest
  put_entry_right key value lo hi leaf rest b h = refl
  put_entry_right key value lo hi (node c l k v r) rest b h =
      let less : k < key = omega (arith, Between-le (suc k) hi r b.1) in
      ap (put_entry key value) (append_assoc (entries l) ((k, v) ∷ entries r) rest)
      ∙ (put_entry_right key value lo k l ((k, v) ∷ (entries r ++ rest)) b.0 (omega arith)
          ∙ (ap (λ m. entries l ++ m)
                (rw (lt→ltb k key less)
                  (ap (◌∷◌ (k, v)) (put_entry_right key value (suc k) hi r rest b.1 h)))
              ∙ sym (append_assoc (entries l) ((k, v) ∷ entries r) (put_entry key value rest))))

  -- `r` is a tree with the property and the entries of `t`, with the value put under the key.
  pub record Puts (P : Tree V → Type 0) (key : ℕ) (value : V) (t : Tree V) (r : Option (Tree V))
      : Type 0 where
    pub tree : Tree V
    pub returns : r ≡ some tree
    pub holds : P tree
    pub now : entries tree ≡ put_entry key value (entries t)

  -- A black node over what `put` made of its left child.
  pub put_up :
      (h : ℕ) (l : Tree V) (k : ℕ) (v : V) (r : Tree V)
      → IsPut h l
      → Bal black h r
      → Gives (Any (suc h)) (node black l k v r) (balance (node black l k v r))
  unfolding opposite
  put_up h leaf k v r p q = weaken h _ _ (balance_black_left h leaf k v r p q)
  put_up h (node black a x u b) k v r p q =
      weaken h _ _ (balance_black_left h (node black a x u b) k v r (inr p) q)
  put_up h (node red a x u b) k v r (inr p, s) q =
      weaken h _ _ (balance_black_left h (node red a x u b) k v r (inl (p, s)) q)
  put_up h (node red (node red d z o e) x u b) k v r (inl (p, t), s) q = record {
    tree = node red (node black d z o e) x u (node black b k v r);
    returns = balance_double black h d z o e x u b k v r q;
    holds = inl ((inr p, t), (inr s, q));
    same = sym (
        append_assoc (entries d ++ ((z, o) ∷ entries e)) ((x, u) ∷ entries b) ((k, v) ∷ entries r));
  }
  put_up h (node red (node black d z o e) x u b) k v r (inl p, s) q = absurd p
  put_up h (node red leaf x u b) k v r (inl p, s) q = absurd p

  -- A red node over what `put` made of its right child.
  pub IsPut-red_right :
      (h : ℕ) (l : Tree V) (k : ℕ) (v : V) (r : Tree V)
      → Bal black h l
      → Any h r
      → Gives (IsPut h) (node red l k v r) (balance (node red l k v r))
  IsPut-red_right h l k v r p (inr q) = record {
    tree = node red l k v r;
    returns = balance_same red h l k v r (inr p) q;
    holds = (inr p, q);
    same = refl;
  }
  IsPut-red_right h l k v (node red a x u b) p (inl (q, s)) = record {
    tree = node red (node red l k v a) x u b;
    returns = balance_lean red h l k v a x u b p s;
    holds = (inl (p, q), s);
    same = append_assoc (entries l) ((k, v) ∷ entries a) ((x, u) ∷ entries b);
  }
  IsPut-red_right h l k v (node black a x u b) p (inl q) = absurd q
  IsPut-red_right h l k v leaf p (inl q) = absurd q
