-- ===== src/RwLocked/Laws.antt =====
-- Callers of lib/util/maps/rwlocked.go that meet at one key.
use pggat.Base.{◌≡◌, refl, ap, ◌∙◌, true, Option, none, some}
use pggat.Base.Eq.{Eq}
use pggat.Base.Maps.{Map, at-put_self, at-del_self}
use pggat.RwLocked.{load_and_delete, or_store, load_or_store}

module _ {K V : Type 0} ⦃e : Eq K⦄ (key : K) (m : Map K V) where
  stored :
      (v : V) (o : Option V)
      → m.at key ≡ o
      → (or_store key v o m).1.at key ≡ some (or_store key v o m).0.0
  unfolding or_store
  stored v none h = at-put_self key v m
  stored v (some a) h = h

  found : (v a : V) → m.at key ≡ some a → load_or_store key v m ≡ ((a, true), m)
  unfolding load_or_store or_store
  found v a h = ap (λ o. or_store key v o m) h

module _ {K V : Type 0} ⦃e : Eq K⦄ (key : K) (m : Map K V) where
  -- Of two callers of LoadOrStore with one key, the later one gets the value of the earlier one and
  -- is told that it was there; a LoadAndDelete after them takes that value out, and another one
  -- finds nothing.
  pub load_or_store_once :
      (v w : V)
      → let ((first, _), m1) = load_or_store key v m in
        let (second, m2) = load_or_store key w m1 in
        let (taken, m3) = load_and_delete key m2 in
        (second ≡ (first, true)) × (taken ≡ some first) × (load_and_delete key m3).0 ≡ none
  unfolding load_or_store load_and_delete
  load_or_store_once v w =
      let m1 = (load_or_store key v m).1 in
      let first = (load_or_store key v m).0.0 in
      let there = stored key m v (m.at key) refl in
      let second = found key m1 w first there in
      (
        ap (λ r. r.0) second,
        ap (λ r. r.1.at key) second ∙ there,
        at-del_self key (load_or_store key w m1).1,
      )
