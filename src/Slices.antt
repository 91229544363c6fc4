-- ===== src/Slices.antt =====
-- lib/util/slices: `Index`, `Contains`, `Equal`, `Remove` and `Delete`. A slice that fills its
-- array is a list; a function that writes through the slice returns the array as it leaves it
-- beside its result. `none` is an index out of range.
pub mod Laws
mod Tests
use pggat.Base.{
  ℕ, zero, suc, ◌+◌, ◌-◌, Bool, true, false, Option, none, some, List, [], ◌∷◌, ◌++◌, length,
  get_elem?, set, take, drop, ltb, ◌==◌, if◌then◌else◌,
}
use pggat.Base.Eq.{Eq, ◌=?◌}

module _ {ℓ} {A : Type ℓ} where
  -- `copy(slice[idx:], slice[idx+1:])` moves what lies above `idx` down by one place.
  unfoldable pub copy_down : List A → ℕ → List A
  copy_down slice idx = take idx slice ++ (drop (suc idx) slice ++ drop (length slice - 1) slice)

  -- The tail of `RemoveIndex` and `DeleteIndex`: `last` is put in the place that is cut off.
  unfoldable pub cut_index : List A → ℕ → A → List A × List A
  cut_index slice idx last =
      let array = set (copy_down slice idx) (length slice - 1) last in
      (take (length slice - 1) array, array)

  unfoldable pub remove_index : List A → ℕ → Option (List A × List A)
  remove_index slice idx = elim (get_elem? slice idx) [
    | none ↦ none
    | some item ↦ some (cut_index slice idx item)
  ]

  -- `zero_value` is `*new(T)`.
  unfoldable pub delete_index : A → List A → ℕ → Option (List A × List A)
  delete_index zero_value slice idx =
      if ltb idx (length slice) then some (cut_index slice idx zero_value) else none

module _ {ℓ} {A : Type ℓ} ⦃e : Eq A⦄ where
  -- `none` is the result -1.
  unfoldable pub index_from : List A → A → ℕ → Option ℕ
  index_from [] needle i = none
  index_from (v ∷ rest) needle i = if needle =? v then some i else index_from rest needle (suc i)

  unfoldable pub index : List A → A → Option ℕ
  index haystack needle = index_from haystack needle 0

  unfoldable pub contains : List A → A → Bool
  contains [] needle = false
  contains (hay ∷ rest) needle = if hay =? needle then true else contains rest needle

  -- The loop of `Equal`, entered with two slices of one length.
  unfoldable pub equal_loop : List A → List A → Bool
  equal_loop [] b = true
  equal_loop (av ∷ a) [] = false
  equal_loop (av ∷ a) (bv ∷ b) = if av =? bv then equal_loop a b else false

  unfoldable pub equal : List A → List A → Bool
  equal a b = if length a == length b then equal_loop a b else false

  unfoldable pub remove : List A → A → Option (List A × List A)
  remove slice item = elim (index slice item) [
    | none ↦ some (slice, slice)
    | some i ↦ remove_index slice i
  ]

  unfoldable pub delete : A → List A → A → Option (List A × List A)
  delete zero_value slice item = elim (index slice item) [
    | none ↦ some (slice, slice)
    | some i ↦ delete_index zero_value slice i
  ]
