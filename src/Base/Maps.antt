-- ===== src/Base/Maps.antt =====
-- Go maps: the value at each key, and the keys in an order in which a range may visit them.
use mathlib.Core.Path.{◌≡◌, refl, sym, ap, ◌∙◌, subst}
use mathlib.Core.Logic.{◌≢◌, inl, inr}
use mathlib.Core.Bool.{Bool, true, false, true≢false}
use mathlib.Core.Option.{Option, none, some, some-injective}
use mathlib.Core.List.{List, [], ◌∷◌}
use pggat.Base.Tests.{if◌then◌else◌, Bool-cases, Option-cases}
use pggat.Base.Eq.{Eq, ◌=?◌}

pub record Map (K V : Type 0) : Type 0 where
  pub keys : List K
  pub at : K → Option V

module _ {K V : Type 0} where
  abbrev pub no_entries : Map K V
  no_entries = record { keys = []; at = λ _. none }

module _ {K : Type 0} ⦃e : Eq K⦄ where
  unfoldable pub has_key : List K → K → Bool
  has_key [] k = false
  has_key (x ∷ xs) k = if x =? k then true else has_key xs k

  unfoldable pub without_key : K → List K → List K
  without_key k [] = []
  without_key k (x ∷ xs) = let rest = without_key k xs in if x =? k then rest else x ∷ rest

  pub eq_self : (k : K) → (k =? k) ≡ true
  eq_self k = (e.beq_iff k k).1 refl

  same_key : (x j k : K) → (x =? j) ≡ true → (x =? k) ≡ true → (j =? k) ≡ true
  same_key x j k a b = (e.beq_iff j k).1 (sym ((e.beq_iff x j).0 a) ∙ (e.beq_iff x k).0 b)

  pub key_sym : (x k : K) → (x =? k) ≡ true → (k =? x) ≡ true
  key_sym x k h = same_key x k x h (eq_self x)

  has_key-without_key :
      (j k : K) (xs : List K)
      → (j =? k) ≡ false
      → has_key xs j ≡ true
      → has_key (without_key k xs) j ≡ true
  unfolding has_key without_key
  has_key-without_key j k [] ne h = h
  has_key-without_key j k (x ∷ xs) ne h = elim (Bool-cases (x =? j)) [
    | inl xj ↦ elim (Bool-cases (x =? k)) [
      | inl xk ↦ absurd (true≢false (sym (same_key x j k xj xk) ∙ ne))
      | inr nk ↦ rw nk (rw xj refl)
    ]
    | inr nj ↦
        let rest =
          has_key-without_key j k xs ne (ap (λ b. if b then true else has_key xs j) (sym nj) ∙ h) in
        elim (Bool-cases (x =? k)) [ inl xk ↦ rw xk rest | inr nk ↦ rw nk (rw nj rest) ]
  ]

  has_key_cons : (k j : K) (xs : List K) → has_key xs j ≡ true → has_key (k ∷ xs) j ≡ true
  unfolding has_key
  has_key_cons k j xs h = elim (Bool-cases (k =? j)) [ inl a ↦ rw a refl | inr a ↦ rw a h ]

module _ {K V : Type 0} ⦃e : Eq K⦄ where
  -- `m[k] = v`.
  unfoldable pub put : K → V → Map K V → Map K V
  put k v m = record {
    keys = if has_key m.keys k then m.keys else k ∷ m.keys;
    at = λ j. if j =? k then some v else m.at j;
  }

  -- `delete(m, k)`.
  unfoldable pub del : K → Map K V → Map K V
  del k m = record { keys = without_key k m.keys; at = λ j. if j =? k then none else m.at j }

  -- `for k := range ks { delete(m, k) }`.
  unfoldable pub delete_keys : List K → Map K V → Map K V
  delete_keys [] m = m
  delete_keys (k ∷ ks) m = delete_keys ks (del k m)

  -- `for k, v := range src { dst[k] = v }`, where `ks` are the keys of `src`.
  unfoldable pub copy_one : K → Option V → Map K V → Map K V
  copy_one k none dst = dst
  copy_one k (some v) dst = put k v dst

  unfoldable pub copy_keys : List K → Map K V → Map K V → Map K V
  copy_keys [] src dst = dst
  copy_keys (k ∷ ks) src dst = copy_keys ks src (copy_one k (src.at k) dst)

  -- Every key that has a value is visited by a range.
  unfoldable pub IsComplete : Map K V → Type 0
  IsComplete m = (k : K) → m.at k ≢ none → has_key m.keys k ≡ true

  pub put-IsComplete : (k : K) (v : V) (m : Map K V) → IsComplete m → IsComplete (put k v m)
  unfolding put IsComplete has_key
  put-IsComplete k v m h j = elim (Bool-cases (j =? k)) [
    | inl same ↦ elim (Bool-cases (has_key m.keys k)) [
      | inl old ↦ λ _. rw (old, (e.beq_iff j k).0 same) old
      | inr new ↦ λ _. rw (new, key_sym j k same) refl
    ]
    | inr other ↦ rw other (λ some_value. elim (Bool-cases (has_key m.keys k)) [
      | inl old ↦ rw old (h j some_value)
      | inr new ↦ rw new (has_key_cons k j m.keys (h j some_value))
    ])
  ]

  pub del-IsComplete : (k : K) (m : Map K V) → IsComplete m → IsComplete (del k m)
  unfolding del IsComplete has_key
  del-IsComplete k m h j = elim (Bool-cases (j =? k)) [
    | inl same ↦ rw same (λ some_value. absurd (some_value refl))
    | inr other ↦ rw other (λ some_value. has_key-without_key j k m.keys other (h j some_value))
  ]

  module _ (Named : K → V → Type 0) where
    -- Every value is one that its key allows.
    unfoldable pub AllNamed : Map K V → Type 0
    AllNamed m = (k : K) (v : V) → m.at k ≡ some v → Named k v

    pub put-AllNamed : (k : K) (v : V) (m : Map K V) → Named k v → AllNamed m → AllNamed (put k v m)
    unfolding put AllNamed
    put-AllNamed k v m kv h j w = elim (Bool-cases (j =? k)) [
      | inl same ↦ rw same (λ vw.
          subst (λ u. Named j u) (some-injective _ _ vw)
            (subst (λ i. Named i v) (sym ((e.beq_iff j k).0 same)) kv))
      | inr other ↦ rw other (h j w)
    ]

    pub del-AllNamed : (k : K) (m : Map K V) → AllNamed m → AllNamed (del k m)
    unfolding del AllNamed
    del-AllNamed k m h j w = elim (Bool-cases (j =? k)) [
      | inl same ↦ rw same (λ x. cc)
      | inr other ↦ rw other (h j w)
    ]

  -- What `put` and `del` keep, the loops over them keep.
  pub delete_keys-keeps :
      (P : Map K V → Type 0)
      → ((k : K) (m : Map K V) → P m → P (del k m))
      → (ks : List K) (m : Map K V) → P m
      → P (delete_keys ks m)
  unfolding delete_keys
  delete_keys-keeps P h [] m p = p
  delete_keys-keeps P h (k ∷ ks) m p = delete_keys-keeps P h ks (del k m) (h k m p)

  pub at-del_self : (k : K) (m : Map K V) → (del k m).at k ≡ none
  unfolding del
  at-del_self k m = rw (eq_self k) refl

  pub at-del-none : (k j : K) (m : Map K V) → m.at j ≡ none → (del k m).at j ≡ none
  unfolding del
  at-del-none k j m h = elim (Bool-cases (j =? k)) [ inl a ↦ rw a refl | inr a ↦ rw a h ]

  pub at-del_other : (k j : K) (m : Map K V) → k ≢ j → (del k m).at j ≡ m.at j
  unfolding del
  at-del_other k j m h = elim (Bool-cases (j =? k)) [
    | inl a ↦ absurd (h (sym ((e.beq_iff j k).0 a)))
    | inr a ↦ rw a refl
  ]

  pub at-put_self : (k : K) (v : V) (m : Map K V) → (put k v m).at k ≡ some v
  unfolding put
  at-put_self k v m = rw (eq_self k) refl

  pub at-put_other : (k j : K) (v : V) (m : Map K V) → k ≢ j → (put k v m).at j ≡ m.at j
  unfolding put
  at-put_other k j v m h = elim (Bool-cases (j =? k)) [
    | inl a ↦ absurd (h (sym ((e.beq_iff j k).0 a)))
    | inr a ↦ rw a refl
  ]

  delete_keys-none :
      (ks : List K) (m : Map K V) (j : K) → m.at j ≡ none → (delete_keys ks m).at j ≡ none
  unfolding delete_keys
  delete_keys-none [] m j h = h
  delete_keys-none (k ∷ ks) m j h = delete_keys-none ks (del k m) j (at-del-none k j m h)

  delete_keys-has_key :
      (ks : List K) (m : Map K V) (j : K) → has_key ks j ≡ true → (delete_keys ks m).at j ≡ none
  unfolding delete_keys has_key
  delete_keys-has_key [] m j h = absurd (true≢false (sym h))
  delete_keys-has_key (k ∷ ks) m j h = elim (Bool-cases (k =? j)) [
    | inl a ↦
        delete_keys-none ks (del k m) j
          (subst (λ i. (del k m).at i ≡ none) ((e.beq_iff k j).0 a) (at-del_self k m))
    | inr a ↦
        delete_keys-has_key ks (del k m) j (ap (λ b. if b then true else has_key ks j) (sym a) ∙ h)
  ]

  -- `Clear` leaves no value.
  pub delete_keys-clears : (m : Map K V) (j : K) → IsComplete m → (delete_keys m.keys m).at j ≡ none
  unfolding IsComplete
  delete_keys-clears m j h = elim (Option-cases (m.at j)) [
    | inl a ↦ delete_keys-none m.keys m j a
    | inr (v, a) ↦ delete_keys-has_key m.keys m j (h j (λ z. cc))
  ]
