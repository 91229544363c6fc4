-- ===== src/Rbtree/Order.antt =====
-- Lists of entries in the order of their keys: what a tree of lib/util/rbtree stands for.
use pggat.Base.{
  ℕ, suc, ◌≤◌, ◌+◌, ◌≡◌, refl, ap, Option, none, some, List, [], ◌∷◌, ◌++◌, if◌then◌else◌, ◌==◌,
  ltb, arith, Bool-cases, inl, inr, trichotomy, lt→ltb, le→ltb, ≢→==,
}
use pggat.Rbtree.{Tree, leaf, node, or_this}
use pggat.Rbtree.Valid.{Between, entries}
use pggat.Rbtree.Put.{put_entry}

module _ {V : Type 0} where
  abbrev pub Ordered : ℕ → ℕ → List (ℕ × V) → Type 0
  Ordered lo hi [] = lo ≤ hi
  Ordered lo hi ((k, v) ∷ rest) = (lo ≤ k) × Ordered (suc k) hi rest

  -- The lookup in a list, and the list without the first entry of the key.
  abbrev pub find : ℕ → List (ℕ × V) → Option V
  find key [] = none
  find key ((k, v) ∷ rest) = let more = find key rest in if k == key then some v else more

  abbrev pub drop_entry : ℕ → List (ℕ × V) → List (ℕ × V)
  drop_entry key [] = []
  drop_entry key ((k, v) ∷ rest) =
      let more = (k, v) ∷ drop_entry key rest in if k == key then rest else more

  -- The first and the last entry, of all and of those above and below the key.
  abbrev pub first_of : List (ℕ × V) → Option (ℕ × V)
  first_of [] = none
  first_of (p ∷ ps) = some p

  abbrev pub last_of : List (ℕ × V) → Option (ℕ × V)
  last_of [] = none
  last_of (p ∷ ps) = or_this (last_of ps) p

  abbrev pub first_above : ℕ → List (ℕ × V) → Option (ℕ × V)
  first_above key [] = none
  first_above key ((k, v) ∷ rest) =
      let more = first_above key rest in if ltb key k then some (k, v) else more

  abbrev pub last_below : ℕ → List (ℕ × V) → Option (ℕ × V)
  last_below key [] = none
  last_below key ((k, v) ∷ rest) =
      let more = last_below key rest in if ltb k key then or_this more (k, v) else more

  pub Ordered-le : (lo hi : ℕ) (es : List (ℕ × V)) → Ordered lo hi es → lo ≤ hi
  Ordered-le lo hi [] o = o
  Ordered-le lo hi ((k, v) ∷ es) o = omega (arith, Ordered-le (suc k) hi es o.1)

  pub Ordered-widen :
      (low lo hi high : ℕ) (es : List (ℕ × V))
      → low ≤ lo
      → hi ≤ high
      → Ordered lo hi es
      → Ordered low high es
  Ordered-widen low lo hi high [] p q o = omega arith
  Ordered-widen low lo hi high ((k, v) ∷ es) p q o =
      (omega arith, Ordered-widen (suc k) (suc k) hi high es (omega arith) q o.1)

  Ordered-append :
      (lo mid hi : ℕ) (xs ys : List (ℕ × V))
      → Ordered lo mid xs
      → Ordered mid hi ys
      → Ordered lo hi (xs ++ ys)
  Ordered-append lo mid hi [] ys p q = Ordered-widen lo mid hi hi ys p (omega arith) q
  Ordered-append lo mid hi ((k, v) ∷ xs) ys p q = (p.0, Ordered-append (suc k) mid hi xs ys p.1 q)

  Ordered-split :
      (lo hi : ℕ) (xs : List (ℕ × V)) (k : ℕ) (v : V) (ys : List (ℕ × V))
      → Ordered lo hi (xs ++ ((k, v) ∷ ys))
      → Ordered lo k xs × Ordered (suc k) hi ys
  Ordered-split lo hi [] k v ys o = o
  Ordered-split lo hi ((j, w) ∷ xs) k v ys o =
      let s = Ordered-split (suc j) hi xs k v ys o.1 in ((o.0, s.0), s.1)

  pub Between-Ordered : (lo hi : ℕ) (t : Tree V) → Between lo hi t → Ordered lo hi (entries t)
  Between-Ordered lo hi leaf b = b
  Between-Ordered lo hi (node c l k v r) b =
      Ordered-append lo k hi (entries l) ((k, v) ∷ entries r) (Between-Ordered lo k l b.0)
        (omega arith, Between-Ordered (suc k) hi r b.1)

  pub Ordered-Between : (lo hi : ℕ) (t : Tree V) → Ordered lo hi (entries t) → Between lo hi t
  Ordered-Between lo hi leaf o = o
  Ordered-Between lo hi (node c l k v r) o =
      let s = Ordered-split lo hi (entries l) k v (entries r) o in
      (Ordered-Between lo k l s.0, Ordered-Between (suc k) hi r s.1)

  pub put_entry-Ordered :
      (key : ℕ) (value : V) (lo hi : ℕ) (es : List (ℕ × V))
      → lo ≤ key
      → Ordered lo hi es
      → Ordered lo (hi + suc key) (put_entry key value es)
  put_entry-Ordered key value lo hi [] le o = (le, omega arith)
  put_entry-Ordered key value lo hi ((k, v) ∷ es) le o = elim (trichotomy k key) [
    | inl less ↦
        rw (lt→ltb k key less) (o.0, put_entry-Ordered key value (suc k) hi es (omega arith) o.1)
    | inr (inl more) ↦
        rw (le→ltb k key (omega arith), lt→ltb key k more)
          (
            le,
            (
              more,
              Ordered-widen (suc k) (suc k) hi (hi + suc key) es (omega arith) (omega arith) o.1,
            ),
          )
    | inr (inr same) ↦
        rw (le→ltb k key (omega (arith, same)), le→ltb key k (omega (arith, same)))
          (
            le,
            Ordered-widen (suc key) (suc k) hi (hi + suc key) es (omega (arith, same)) (omega arith)
                o.1,
          )
  ]

  pub drop_entry-Ordered :
      (key lo hi : ℕ) (es : List (ℕ × V)) → Ordered lo hi es → Ordered lo hi (drop_entry key es)
  drop_entry-Ordered key lo hi [] o = o
  drop_entry-Ordered key lo hi ((k, v) ∷ es) o = elim (Bool-cases (k == key)) [
    | inl e ↦ rw e (Ordered-widen lo (suc k) hi hi es (omega arith) (omega arith) o.1)
    | inr e ↦ rw e (o.0, drop_entry-Ordered key (suc k) hi es o.1)
  ]

  -- The one entry with the key is the one that is dropped.
  pub drop_entry_at :
      (key lo hi : ℕ) (xs : List (ℕ × V)) (value : V) (ys : List (ℕ × V))
      → Ordered lo hi (xs ++ ((key, value) ∷ ys))
      → drop_entry key (xs ++ ((key, value) ∷ ys)) ≡ xs ++ ys
  drop_entry_at key lo hi [] value ys o = ground arith
  drop_entry_at key lo hi ((k, v) ∷ xs) value ys o =
      let s = Ordered-split (suc k) hi xs key value ys o.1 in
      rw (≢→== k key (λ e. absurd (omega (arith, e, Ordered-le (suc k) key xs s.0))))
        (ap (◌∷◌ (k, v)) (drop_entry_at key (suc k) hi xs value ys o.1))

  pub drop_entry_absent :
      (key : ℕ) (es : List (ℕ × V)) → find key es ≡ none → drop_entry key es ≡ es
  drop_entry_absent key [] e = refl
  drop_entry_absent key ((k, v) ∷ es) e = ground (arith, drop_entry_absent key es)

  pub find_put :
      (key : ℕ) (value : V) (es : List (ℕ × V)) → find key (put_entry key value es) ≡ some value
  find_put key value [] = ground arith
  find_put key value ((k, v) ∷ es) = ground (arith, find_put key value es)

  pub find_put_other :
      (key other : ℕ) (value : V) (es : List (ℕ × V))
      → ¬ (key ≡ other)
      → find other (put_entry key value es) ≡ find other es
  find_put_other key other value [] ne = ground arith
  find_put_other key other value ((k, v) ∷ es) ne =
      ground (arith, find_put_other key other value es ne)
