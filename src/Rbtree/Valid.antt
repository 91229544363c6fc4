-- ===== src/Rbtree/Valid.antt =====
-- When a tree of lib/util/rbtree is a left-leaning red-black search tree.
use pggat.Base.{
  ℕ, zero, suc, ◌+◌, ◌≤◌, ◌<◌, ◌≡◌, ap, sym, ◌∙◌, ◌⊎◌, inl, inr, List, [], ◌∷◌, ◌++◌, arith,
}
use mathlib.Core.List.{append_assoc}
use pggat.Rbtree.{Color, black, red, Tree, leaf, node}

module _ {V : Type 0} where
  -- A tree of this color whose paths all have `h` black nodes; a red node has black children, and a
  -- right child is black.
  abbrev pub Bal : Color → ℕ → Tree V → Type 0
  Bal black zero leaf = Unit
  Bal black (suc h) leaf = ⊥
  Bal red h leaf = ⊥
  Bal black h (node red l k v r) = ⊥
  Bal black zero (node black l k v r) = ⊥
  Bal black (suc h) (node black l k v r) = (Bal red h l ⊎ Bal black h l) × Bal black h r
  Bal red h (node black l k v r) = ⊥
  Bal red h (node red l k v r) = Bal black h l × Bal black h r

  abbrev pub Any : ℕ → Tree V → Type 0
  Any h t = Bal red h t ⊎ Bal black h t

  -- The keys lie in order between `lo` and `hi`, which is not reached.
  abbrev pub Between : ℕ → ℕ → Tree V → Type 0
  Between lo hi leaf = lo ≤ hi
  Between lo hi (node c l k v r) = Between lo k l × Between (suc k) hi r

  abbrev pub Has : ℕ → Tree V → Type 0
  Has key leaf = ⊥
  Has key (node c l k v r) = Has key l ⊎ ((key ≡ k) ⊎ Has key r)

  abbrev pub size : Tree V → ℕ
  size leaf = 0
  size (node c l k v r) = suc (size l + size r)

  abbrev pub entries : Tree V → List (ℕ × V)
  entries leaf = []
  entries (node c l k v r) = entries l ++ ((k, v) ∷ entries r)

  pub Between-le : (lo hi : ℕ) (t : Tree V) → Between lo hi t → lo ≤ hi
  Between-le lo hi leaf b = b
  Between-le lo hi (node c l k v r) (p, q) =
      omega (arith, Between-le lo k l p, Between-le (suc k) hi r q)

  pub Has-Between :
      (lo hi key : ℕ) (t : Tree V) → Between lo hi t → Has key t → (lo ≤ key) × (key < hi)
  Has-Between lo hi key leaf b h = absurd h
  Has-Between lo hi key (node c l k v r) (p, q) (inl h) =
      omega (arith, Has-Between lo k key l p h, Between-le (suc k) hi r q)
  Has-Between lo hi key (node c l k v r) (p, q) (inr (inl h)) =
      omega (arith, Between-le lo k l p, Between-le (suc k) hi r q)
  Has-Between lo hi key (node c l k v r) (p, q) (inr (inr h)) =
      omega (arith, Has-Between (suc k) hi key r q h, Between-le lo k l p)

  -- Where the key has to be, from how it compares with the root's.
  pub Has-left :
      (lo hi key : ℕ) (c : Color) (l : Tree V) (k : ℕ) (v : V) (r : Tree V)
      → Between lo hi (node c l k v r)
      → key < k
      → Has key (node c l k v r)
      → Has key l
  Has-left lo hi key c l k v r b lt (inl h) = h
  Has-left lo hi key c l k v r b lt (inr (inl h)) = absurd (omega arith)
  Has-left lo hi key c l k v r b lt (inr (inr h)) =
      absurd (omega (arith, Has-Between (suc k) hi key r b.1 h))

  pub Has-right :
      (lo hi key : ℕ) (c : Color) (l : Tree V) (k : ℕ) (v : V) (r : Tree V)
      → Between lo hi (node c l k v r)
      → k < key
      → Has key (node c l k v r)
      → Has key r
  Has-right lo hi key c l k v r b lt (inl h) = absurd (omega (arith, Has-Between lo k key l b.0 h))
  Has-right lo hi key c l k v r b lt (inr (inl h)) = absurd (omega arith)
  Has-right lo hi key c l k v r b lt (inr (inr h)) = h

-- `after` is `before` without one entry that has the key.
pub record Removes {V : Type 0} (key : ℕ) (before after : List (ℕ × V)) : Type 0 where
  pub front : List (ℕ × V)
  pub value : V
  pub back : List (ℕ × V)
  pub was : before ≡ front ++ ((key, value) ∷ back)
  pub now : after ≡ front ++ back

module _ {V : Type 0} where
  pub Removes-in_left :
      (key : ℕ) (a b rest : List (ℕ × V)) → Removes key a b → Removes key (a ++ rest) (b ++ rest)
  Removes-in_left key a b rest m = record {
    front = m.front;
    value = m.value;
    back = m.back ++ rest;
    was = ap (λ l. l ++ rest) m.was ∙ append_assoc m.front ((key, m.value) ∷ m.back) rest;
    now = ap (λ l. l ++ rest) m.now ∙ append_assoc m.front m.back rest;
  }

  pub Removes-in_right :
      (key : ℕ) (first a b : List (ℕ × V)) → Removes key a b → Removes key (first ++ a) (first ++ b)
  Removes-in_right key first a b m = record {
    front = first ++ m.front;
    value = m.value;
    back = m.back;
    was = ap (λ l. first ++ l) m.was ∙ sym (append_assoc first m.front ((key, m.value) ∷ m.back));
    now = ap (λ l. first ++ l) m.now ∙ sym (append_assoc first m.front m.back);
  }
