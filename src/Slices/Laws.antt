-- ===== src/Slices/Laws.antt =====
-- lib/util/slices against plain lists.
use mathlib.Core.List.{Perm, perm_middle, append-nil, append_assoc}
use mathlib.Core.List.Perm
use pggat.Base.{
  ℕ, zero, suc, ◌+◌, ◌-◌, ◌<◌, ◌≡◌, refl, ap, ap₂, sym, ◌∙◌, true, false, Option, none, some, List,
  [], ◌∷◌, ◌++◌, length, get_elem?, set, take, drop, if◌then◌else◌, arith, lt→ltb, ==_iff, inl, inr,
  Bool-cases, ◌↔◌, ◌⊎◌,
}
use pggat.Base.Eq.{Eq, ◌=?◌}
use pggat.Slices.{
  copy_down, cut_index, remove_index, delete_index, index_from, index, contains, equal_loop, equal,
  remove, delete,
}

module _ {ℓ} {A : Type ℓ} where
  -- The list without the element at `idx`.
  unfoldable pub without : ℕ → List A → List A
  without i [] = []
  without zero (x ∷ xs) = xs
  without (suc i) (x ∷ xs) = x ∷ without i xs

  take-drop-suc : (idx : ℕ) (xs : List A) → take idx xs ++ drop (suc idx) xs ≡ without idx xs
  unfolding without
  take-drop-suc zero [] = refl
  take-drop-suc (suc idx) [] = refl
  take-drop-suc zero (x ∷ xs) = refl
  take-drop-suc (suc idx) (x ∷ xs) = ap (◌∷◌ x) (take-drop-suc idx xs)

  drop_to_last : (x : A) (xs : List A) → (y : A) × (drop (length xs) (x ∷ xs) ≡ y ∷ [])
  drop_to_last x [] = (x, refl)
  drop_to_last x (y ∷ ys) = drop_to_last y ys

  drop_last : (xs : List A) → 0 < length xs → (y : A) × (drop (length xs - 1) xs ≡ y ∷ [])
  drop_last [] h = absurd (omega arith)
  drop_last (x ∷ xs) h =
      let (y, e) = drop_to_last x xs in
      (
        y,
        ap (λ k. drop k (x ∷ xs)) (let k : suc (length xs) - 1 ≡ length xs = omega arith in k) ∙ e,
      )

  length-without :
      (idx : ℕ) (xs : List A) → idx < length xs → length (without idx xs) ≡ length xs - 1
  unfolding without
  length-without idx [] h = absurd (omega arith)
  length-without zero (x ∷ xs) h = omega arith
  length-without (suc idx) (x ∷ xs) h = omega (arith, length-without idx xs (omega arith))

  set-append : (ys : List A) (y v : A) → set (ys ++ (y ∷ [])) (length ys) v ≡ ys ++ (v ∷ [])
  set-append [] y v = refl
  set-append (x ∷ ys) y v = ap (◌∷◌ x) (set-append ys y v)

  take-append : (ys zs : List A) → take (length ys) (ys ++ zs) ≡ ys
  take-append [] zs = refl
  take-append (y ∷ ys) zs = ap (◌∷◌ y) (take-append ys zs)

  without-perm :
      (i : ℕ) (xs : List A) (x : A) → get_elem? xs i ≡ some x → Perm (without i xs ++ (x ∷ [])) xs
  unfolding without
  without-perm i [] x h = cc
  without-perm zero (y ∷ xs) x h =
      let e : y ≡ x = cc in
      rw e (Perm.trans (perm_middle xs []) (rw append-nil (Perm.refl (x ∷ xs))))
  without-perm (suc i) (y ∷ xs) x h = Perm.cons y (without-perm i xs x h)

  -- The array after the cut: the other elements in order, then `last`.
  cut_index-without :
      (slice : List A) (idx : ℕ) (last : A)
      → idx < length slice
      → cut_index slice idx last ≡ (without idx slice, without idx slice ++ (last ∷ []))
  unfolding cut_index copy_down
  cut_index-without slice idx last h =
      let (y, e) = drop_last slice (omega arith) in
      let ys : List A = without idx slice in
      rw
        (
          ← append_assoc (take idx slice) (drop (suc idx) slice) (drop (length slice - 1) slice),
          take-drop-suc idx slice,
          e,
          ← length-without idx slice h,
          set-append ys y last,
          take-append ys (last ∷ []),
        )
        refl

at_zero : (i : ℕ) → 0 + i ≡ i
at_zero i = omega arith

module _ {ℓ} {A : Type ℓ} ⦃e : Eq A⦄ where
  -- The list without its first `a`.
  unfoldable pub erase : A → List A → List A
  erase a [] = []
  erase a (x ∷ xs) = if a =? x then xs else x ∷ erase a xs

  -- What `index` finds, or that there is nothing to find.
  abbrev Finds : List A → A → ℕ → Option ℕ → Type ℓ
  Finds xs a k r =
      ((r ≡ none) × (erase a xs ≡ xs) × (contains xs a ≡ false))
      ⊎ ((i : ℕ) × (r ≡ some (k + i))
          × (get_elem? xs i ≡ some a)
          × (without i xs ≡ erase a xs)
          × (contains xs a ≡ true))

  beq_comm : (a b : A) → (a =? b) ≡ (b =? a)
  beq_comm a b = ground (arith, e.beq_iff a b, e.beq_iff b a)

  index_from-Finds : (xs : List A) (a : A) (k : ℕ) → Finds xs a k (index_from xs a k)
  unfolding index_from erase contains without
  index_from-Finds [] a k = inl (refl, refl, refl)
  index_from-Finds (x ∷ xs) a k = elim (Bool-cases (a =? x)) [
    | inl here ↦
        let p : a ≡ x = (e.beq_iff a x).0 here in
        rw (here, beq_comm x a, here) (inr (0, ap some (omega arith), ap some (sym p), refl, refl))
    | inr there ↦
        rw (there, beq_comm x a, there)
          (elim (index_from-Finds xs a (suc k)) [
            | inl (missing, same, absent) ↦ inl (missing, ap (◌∷◌ x) same, absent)
            | inr (i, found, at, rest, present) ↦
                inr (suc i, found ∙ ap some (omega arith), at, ap (◌∷◌ x) rest, present)
          ])
  ]

  length-get_elem? : (xs : List A) (i : ℕ) {x : A} → get_elem? xs i ≡ some x → i < length xs
  length-get_elem? [] i h = cc
  length-get_elem? (x ∷ xs) zero h = omega arith
  length-get_elem? (x ∷ xs) (suc i) h = omega (arith, length-get_elem? xs i h)

  -- `Remove` returns the slice without the first `item`. The array holds what it held, in another
  -- order.
  pub remove-erase :
      (slice : List A) (item : A)
      → (array : List A) × (remove slice item ≡ some (erase item slice, array)) × Perm array slice
  unfolding remove index remove_index
  remove-erase slice item = elim (index_from-Finds slice item 0) [
    | inl (missing, same, absent) ↦ (slice, rw (missing, remove, index, same) refl, Perm.refl slice)
    | inr (i, found, at, rest, present) ↦ (
      without i slice ++ (item ∷ []),
      rw
          (
            found ∙ ap some (at_zero i),
            remove,
            index,
            at,
            remove_index,
            cut_index-without slice i item (length-get_elem? slice i at),
            rest,
          )
          refl,
      without-perm i slice item at,
    )
  ]

  -- `Delete` returns the same slice, and clears the last place of the array where it found `item`.
  pub delete-erase :
      (zero_value : A) (slice : List A) (item : A)
      → delete zero_value slice item
        ≡ some (
          erase item slice,
          if contains slice item then erase item slice ++ (zero_value ∷ []) else slice,
        )
  unfolding delete index delete_index
  delete-erase zero_value slice item = elim (index_from-Finds slice item 0) [
    | inl (missing, same, absent) ↦ rw (missing, delete, index, same, absent) refl
    | inr (i, found, at, rest, present) ↦
        rw
          (
            found,
            delete,
            index,
            at_zero i,
            lt→ltb i (length slice) (length-get_elem? slice i at),
            cut_index-without slice i zero_value (length-get_elem? slice i at),
            rest,
            present,
          )
          refl
  ]

  equal_loop-eq : (a b : List A) → length a ≡ length b → equal_loop a b ≡ true → a ≡ b
  unfolding equal_loop
  equal_loop-eq [] [] h t = refl
  equal_loop-eq [] (y ∷ b) h t = absurd (omega arith)
  equal_loop-eq (x ∷ a) [] h t = absurd (omega arith)
  equal_loop-eq (x ∷ a) (y ∷ b) h t = elim (Bool-cases (x =? y)) [
    | inl same ↦
        ap₂ ◌∷◌ ((e.beq_iff x y).0 same) (equal_loop-eq a b (omega arith) (ground (arith, same, t)))
    | inr differ ↦ absurd (ground (arith, differ, t))
  ]

  equal_loop_refl : (a : List A) → equal_loop a a ≡ true
  unfolding equal_loop
  equal_loop_refl [] = refl
  equal_loop_refl (x ∷ a) = rw ((e.beq_iff x x).1 refl) (equal_loop_refl a)

  -- `Equal` decides equality of slices.
  pub equal_iff : (a b : List A) → (equal a b ≡ true) ↔ (a ≡ b)
  unfolding equal
  equal_iff a b = (
    λ t. equal_loop-eq a b (ground (arith, t)) (ground (arith, t)),
    λ p. rw p (rw ((==_iff (length b) (length b)).1 refl) (equal_loop_refl b)),
  )
