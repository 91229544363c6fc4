-- ===== src/Rbtree/PutValid.antt =====
-- `put` of lib/util/rbtree/rbtree.go keeps a search tree balanced, and puts the entry.
use pggat.Base.{
  ℕ, zero, suc, ◌<◌, ◌≡◌, refl, ap, sym, ◌∙◌, inl, inr, Option, List, ◌∷◌, ◌++◌, arith, lt→ltb,
  le→ltb, trichotomy,
}
use pggat.Rbtree.{Color, black, red, Tree, leaf, node, ◌>>=◌, balance, put}
use pggat.Rbtree.Valid.{Bal, Any, Between, entries}
use pggat.Rbtree.Balance.{Gives, balance_same, balance_black_left, balance_black-Any, weaken}
use pggat.Rbtree.Put.{
  put_entry, put_entry_left, put_entry_right, IsPut, Puts, put_up, IsPut-red_right,
}

module _ {V : Type 0} where
  pub no_red :
      {A : Type 0} (h : ℕ) (l : Tree V) (k : ℕ) (v : V) (r : Tree V)
      → Bal black h (node red l k v r)
      → A
  no_red zero l k v r b = absurd b
  no_red (suc h) l k v r b = absurd b

module _ {V : Type 0} (key : ℕ) (value : V) where
  then_balance :
      (P Q : Tree V → Type 0) (t n : Tree V) (r : Option (Tree V)) (f : Tree V → Tree V)
      → Puts P key value t r
      → ((m : Tree V) → P m → Gives Q (f m) (balance (f m)))
      → ((m : Tree V)
          → entries m ≡ put_entry key value (entries t)
          → entries (f m) ≡ put_entry key value (entries n))
      → Puts Q key value n (r >>= λ m. balance (f m))
  then_balance P Q t n r f p fix same =
      let g = fix p.tree p.holds in
      record {
        tree = g.tree;
        returns = ap (λ o. o >>= λ m. balance (f m)) p.returns ∙ g.returns;
        holds = g.holds;
        now = g.same ∙ same p.tree p.now;
      }

  module _ (c : Color) (l : Tree V) (k : ℕ) (v : V) (r : Tree V) (P Q : Tree V → Type 0) where
    put_right :
        (lo : ℕ)
        → Between lo k l
        → k < key
        → Puts P key value r (put r key value)
        → ((m : Tree V) → P m → Gives Q (node c l k v m) (balance (node c l k v m)))
        → Puts Q key value (node c l k v r) (put (node c l k v r) key value)
    unfolding put
    put_right lo b less p fix = rw (lt→ltb k key less) (
        then_balance P Q r (node c l k v r) (put r key value) (λ m. node c l k v m) p fix
          (λ m e.
            ap (λ es. entries l ++ ((k, v) ∷ es)) e
            ∙ (ap (λ es. entries l ++ es) (sym (here (entries r)))
                ∙ sym (put_entry_right key value lo k l ((k, v) ∷ entries r) b (omega arith)))))
      where
        here :
            (es : List (ℕ × V))
            → put_entry key value ((k, v) ∷ es) ≡ (k, v) ∷ put_entry key value es
        here es = rw (lt→ltb k key less) refl

    put_left :
        key < k
        → Puts P key value l (put l key value)
        → ((m : Tree V) → P m → Gives Q (node c m k v r) (balance (node c m k v r)))
        → Puts Q key value (node c l k v r) (put (node c l k v r) key value)
    unfolding put
    put_left less p fix =
        rw (le→ltb k key (omega arith), lt→ltb key k less)
          (then_balance P Q l (node c l k v r) (put l key value) (λ m. node c m k v r) p fix
            (λ m e.
              ap (λ es. es ++ ((k, v) ∷ entries r)) e
              ∙ sym (put_entry_left key value (entries l) k v (entries r) less)))

    put_here :
        (lo : ℕ)
        → Between lo k l
        → k ≡ key
        → Gives Q (node c l k value r) (balance (node c l k value r))
        → Puts Q key value (node c l k v r) (put (node c l k v r) key value)
    unfolding put
    put_here lo b same g = record {
      tree = g.tree;
      returns =
          rw (le→ltb k key (omega (arith, same)), le→ltb key k (omega (arith, same))) g.returns;
      holds = g.holds;
      now =
          g.same
          ∙ (ap (λ es. entries l ++ es) (sym here)
              ∙ sym (put_entry_right key value lo k l ((k, v) ∷ entries r) b (omega arith)));
    }
      where
        here : put_entry key value ((k, v) ∷ entries r) ≡ (k, value) ∷ entries r
        here =
            rw (le→ltb k key (omega (arith, same)), le→ltb key k (omega (arith, same)))
              (ap (λ i. (i, value) ∷ entries r) (sym same))

  -- A black subtree, and a red one.
  pub put_ok :
      (h lo hi : ℕ) (t : Tree V)
      → Between lo hi t
      → (Bal black h t → Puts (Any h) key value t (put t key value))
        × (Bal red h t → Puts (IsPut h) key value t (put t key value))
  unfolding put
  put_ok zero lo hi leaf b = (
    λ bal. record {
      tree = node red leaf key value leaf;
      returns = refl;
      holds = inl (tt, tt);
      now = refl;
    },
    λ bal. absurd bal,
  )
  put_ok (suc h) lo hi leaf b = (λ bal. absurd bal, λ bal. absurd bal)
  put_ok zero lo hi (node black l k v r) b = (λ bal. absurd bal, λ bal. absurd bal)
  put_ok (suc h) lo hi (node black l k v r) b =
      let in_left = put_ok h lo k l b.0 in
      let in_right = put_ok h (suc k) hi r b.1 in
      (
        λ bal. elim (trichotomy k key) [
          | inl less ↦
              put_right black l k v r (Any h) (Any (suc h)) lo b.0 less (in_right.0 bal.1)
                (λ m p. balance_black-Any h l k v m bal.0 p)
          | inr (inl more) ↦ elim bal.0 [
            | inl is_red_left ↦
                put_left black l k v r (IsPut h) (Any (suc h)) more (in_left.1 is_red_left)
                  (λ m p. put_up h m k v r p bal.1)
            | inr is_black_left ↦
                put_left black l k v r (Any h) (Any (suc h)) more (in_left.0 is_black_left)
                  (λ m p. weaken h _ _ (balance_black_left h m k v r p bal.1))
          ]
          | inr (inr same) ↦
              put_here black l k v r (Any h) (Any (suc h)) lo b.0 same
                (weaken h _ _ (balance_black_left h l k value r bal.0 bal.1))
        ],
        λ bal. absurd bal,
      )
  put_ok h lo hi (node red l k v r) b =
      let in_left = put_ok h lo k l b.0 in
      let in_right = put_ok h (suc k) hi r b.1 in
      (
        λ bal. no_red h l k v r bal,
        λ bal. elim (trichotomy k key) [
          | inl less ↦
              put_right red l k v r (Any h) (IsPut h) lo b.0 less (in_right.0 bal.1)
                (λ m p. IsPut-red_right h l k v m bal.0 p)
          | inr (inl more) ↦ put_left red l k v r (Any h) (IsPut h) more (in_left.0 bal.0) (λ m p.
              record {
                tree = node red m k v r;
                returns = balance_same red h m k v r p bal.1;
                holds = (p, bal.1);
                same = refl;
              })
          | inr (inr same) ↦ put_here red l k v r (Any h) (IsPut h) lo b.0 same (record {
            tree = node red l k value r;
            returns = balance_same red h l k value r (inr bal.0) bal.1;
            holds = (inr bal.0, bal.1);
            same = refl;
          })
        ],
      )
