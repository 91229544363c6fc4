-- ===== src/Rbtree/Search.antt =====
-- `Get`, `Min`, `Max`, `Next` and `Prev` of lib/util/rbtree/rbtree.go on a search tree.
use pggat.Base.{
  ℕ, suc, ◌≤◌, ◌<◌, ◌≡◌, refl, ap, sym, ◌∙◌, inl, inr, Option, none, some, List, [], ◌∷◌, ◌++◌, ltb,
  arith, Bool-cases, trichotomy, lt→ltb, le→ltb, ≡→==, ≢→==,
}
use pggat.Rbtree.{Color, Tree, leaf, node, or_this, get, max, next, prev}
use pggat.Rbtree.Valid.{Between, entries}
use pggat.Rbtree.Order.{
  Ordered, Ordered-le, Between-Ordered, find, first_of, last_of, first_above, last_below,
}
use pggat.Rbtree.DeleteRight.{min_first}

module _ {V : Type 0} where
  -- A function of a list that passes over entries below `key`.
  find_past :
      (key lo hi : ℕ) (es rest : List (ℕ × V))
      → Ordered lo hi es
      → hi ≤ key
      → find key (es ++ rest) ≡ find key rest
  find_past key lo hi [] rest o h = refl
  find_past key lo hi ((k, v) ∷ es) rest o h =
      rw (≢→== k key (λ e. absurd (omega (arith, e, Ordered-le (suc k) hi es o.1))))
        (find_past key (suc k) hi es rest o.1 h)

  pub find_above :
      (key lo hi : ℕ) (es : List (ℕ × V)) → Ordered lo hi es → key < lo → find key es ≡ none
  find_above key lo hi [] o h = refl
  find_above key lo hi ((k, v) ∷ es) o h =
      rw (≢→== k key (λ e. absurd (omega (arith, e))))
        (find_above key (suc k) hi es o.1 (omega arith))

  find_before :
      (key : ℕ) (es rest : List (ℕ × V))
      → find key rest ≡ none
      → find key (es ++ rest) ≡ find key es
  find_before key [] rest e = e
  find_before key ((k, v) ∷ es) rest e = ground (arith, find_before key es rest e)

  pub get-find : (key lo hi : ℕ) (t : Tree V) → Between lo hi t → get t key ≡ find key (entries t)
  unfolding get
  get-find key lo hi leaf b = refl
  get-find key lo hi (node c l k v r) b =
      let o = Between-Ordered lo k l b.0 in
      let p = Between-Ordered (suc k) hi r b.1 in
      elim (trichotomy k key) [
        | inl less ↦
            rw
              (
                find_past key lo k (entries l) ((k, v) ∷ entries r) o (omega arith),
                lt→ltb k key less,
                ≢→== k key (λ e. absurd (omega (arith, e))),
              )
              (get-find key (suc k) hi r b.1)
        | inr (inl more) ↦
            rw
              (
                find_before key (entries l) ((k, v) ∷ entries r) (
                    rw (≢→== k key (λ e. absurd (omega (arith, e))))
                      (find_above key (suc k) hi (entries r) p (omega arith))),
                le→ltb k key (omega arith),
                lt→ltb key k more,
              )
              (get-find key lo k l b.0)
        | inr (inr same) ↦
            rw
              (
                find_past key lo k (entries l) ((k, v) ∷ entries r) o (omega (arith, same)),
                le→ltb k key (omega (arith, same)),
                le→ltb key k (omega (arith, same)),
                ≡→== k key same,
              )
              refl
      ]

  -- `max` is the last entry.
  or_max :
      (c : Color) (l : Tree V) (k : ℕ) (v : V) (r : Tree V) (p : ℕ × V)
      → or_this (max (node c l k v r)) p ≡ max (node c l k v r)
  unfolding max or_this
  or_max c l k v leaf p = refl
  or_max c l k v (node d a x u b) p = or_max d a x u b p

  or_or : (m : Option (ℕ × V)) (p q : ℕ × V) → or_this (or_this m p) q ≡ or_this m p
  unfolding or_this
  or_or none p q = refl
  or_or (some m) p q = refl

  last_behind :
      (xs : List (ℕ × V)) (p : ℕ × V) (ys : List (ℕ × V))
      → last_of (xs ++ (p ∷ ys)) ≡ or_this (last_of ys) p
  unfolding or_this
  last_behind [] p ys = refl
  last_behind (q ∷ xs) p ys = rw (last_behind xs p ys) (or_or (last_of ys) p q)

  pub max_last : (t : Tree V) → max t ≡ last_of (entries t)
  unfolding max or_this
  max_last leaf = refl
  max_last (node c l k v leaf) = sym (last_behind (entries l) (k, v) [])
  max_last (node c l k v (node d a x u b)) = sym (
      last_behind (entries l) (k, v) (entries (node d a x u b))
      ∙ (ap (λ m. or_this m (k, v)) (sym (max_last (node d a x u b))) ∙ or_max d a x u b (k, v)))

  -- The entries above a key.
  above_past :
      (key lo hi : ℕ) (es rest : List (ℕ × V))
      → Ordered lo hi es
      → hi ≤ suc key
      → first_above key (es ++ rest) ≡ first_above key rest
  above_past key lo hi [] rest o h = refl
  above_past key lo hi ((k, v) ∷ es) rest o h =
      rw (le→ltb key k (omega (arith, Ordered-le (suc k) hi es o.1)))
        (above_past key (suc k) hi es rest o.1 h)

  above_all :
      (key lo hi : ℕ) (es : List (ℕ × V))
      → Ordered lo hi es
      → key < lo
      → first_above key es ≡ first_of es
  above_all key lo hi [] o h = refl
  above_all key lo hi ((k, v) ∷ es) o h = rw (lt→ltb key k (omega arith)) refl

  above_mid :
      (key : ℕ) (xs : List (ℕ × V)) (k : ℕ) (v : V) (ys : List (ℕ × V))
      → key < k
      → first_above key (xs ++ ((k, v) ∷ ys)) ≡ or_this (first_above key xs) (k, v)
  unfolding or_this
  above_mid key [] k v ys h = rw (lt→ltb key k h) refl
  above_mid key ((j, w) ∷ xs) k v ys h = elim (Bool-cases (ltb key j)) [
    | inl e ↦ rw e refl
    | inr e ↦ rw e (above_mid key xs k v ys h)
  ]

  -- The entries below a key.
  below_none :
      (key lo hi : ℕ) (es : List (ℕ × V)) → Ordered lo hi es → key ≤ lo → last_below key es ≡ none
  below_none key lo hi [] o h = refl
  below_none key lo hi ((k, v) ∷ es) o h =
      rw (le→ltb k key (omega arith)) (below_none key (suc k) hi es o.1 (omega arith))

  below_before :
      (key : ℕ) (xs ys : List (ℕ × V))
      → last_below key ys ≡ none
      → last_below key (xs ++ ys) ≡ last_below key xs
  below_before key [] ys e = e
  below_before key ((k, v) ∷ xs) ys e = rw (below_before key xs ys e) refl

  below_all :
      (key lo hi : ℕ) (es : List (ℕ × V))
      → Ordered lo hi es
      → hi ≤ key
      → last_below key es ≡ last_of es
  below_all key lo hi [] o h = refl
  below_all key lo hi ((k, v) ∷ es) o h =
      rw
        (
          lt→ltb k key (omega (arith, Ordered-le (suc k) hi es o.1)),
          below_all key (suc k) hi es o.1 h,
        )
        refl

  below_mid :
      (key : ℕ) (xs : List (ℕ × V)) (k : ℕ) (v : V) (ys : List (ℕ × V))
      → k < key
      → last_below key (xs ++ ((k, v) ∷ ys)) ≡ or_this (last_below key ys) (k, v)
  below_mid key [] k v ys h = rw (lt→ltb k key h) refl
  below_mid key ((j, w) ∷ xs) k v ys h = elim (Bool-cases (ltb j key)) [
    | inl e ↦ rw (e, below_mid key xs k v ys h) (or_or (last_below key ys) (k, v) (j, w))
    | inr e ↦ rw e (below_mid key xs k v ys h)
  ]

  pub next_first :
      (key lo hi : ℕ) (t : Tree V) → Between lo hi t → next t key ≡ first_above key (entries t)
  unfolding next
  next_first key lo hi leaf b = refl
  next_first key lo hi (node c l k v r) b =
      let o = Between-Ordered lo k l b.0 in
      let p = Between-Ordered (suc k) hi r b.1 in
      elim (trichotomy k key) [
        | inl less ↦
            rw
              (
                above_past key lo k (entries l) ((k, v) ∷ entries r) o (omega arith),
                le→ltb key k (omega arith),
                ≢→== k key (λ e. absurd (omega (arith, e))),
                lt→ltb k key less,
              )
              (next_first key (suc k) hi r b.1)
        | inr (inl more) ↦
            rw
              (
                above_mid key (entries l) k v (entries r) more,
                ≢→== k key (λ e. absurd (omega (arith, e))),
                le→ltb k key (omega arith),
              )
              (ap (λ m. or_this m (k, v)) (next_first key lo k l b.0))
        | inr (inr same) ↦
            rw
              (
                above_past key lo k (entries l) ((k, v) ∷ entries r) o (omega (arith, same)),
                le→ltb key k (omega (arith, same)),
                ≡→== k key same,
              )
              (min_first r ∙ sym (above_all key (suc k) hi (entries r) p (omega (arith, same))))
      ]

  pub prev_last :
      (key lo hi : ℕ) (t : Tree V) → Between lo hi t → prev t key ≡ last_below key (entries t)
  unfolding prev
  prev_last key lo hi leaf b = refl
  prev_last key lo hi (node c l k v r) b =
      let o = Between-Ordered lo k l b.0 in
      let p = Between-Ordered (suc k) hi r b.1 in
      elim (trichotomy k key) [
        | inl less ↦
            rw
              (
                below_mid key (entries l) k v (entries r) less,
                ≢→== k key (λ e. absurd (omega (arith, e))),
                le→ltb key k (omega arith),
              )
              (ap (λ m. or_this m (k, v)) (prev_last key (suc k) hi r b.1))
        | inr (inl more) ↦
            rw
              (
                below_before key (entries l) ((k, v) ∷ entries r)
                    (below_none key k hi ((k, v) ∷ entries r) (omega arith, p) (omega arith)),
                ≢→== k key (λ e. absurd (omega (arith, e))),
                lt→ltb key k more,
              )
              (prev_last key lo k l b.0)
        | inr (inr same) ↦
            rw
              (
                below_before key (entries l) ((k, v) ∷ entries r) (
                    below_none key k hi ((k, v) ∷ entries r) (omega arith, p)
                      (omega (arith, same))),
                ≡→== k key same,
              )
              (max_last l ∙ sym (below_all key lo k (entries l) o (omega (arith, same))))
      ]
