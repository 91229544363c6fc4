-- ===== src/Eqp/Copy.antt =====
-- `Set` of lib/fed/middlewares/eqp/state.go.
use Prim.Native.String.{String}
use pggat.Base.{
  ◌≡◌, refl, ap, sym, ◌∙◌, subst, true, true≢false, Option, none, some, List, [], ◌∷◌, Bool-cases,
  Option-cases, inl, inr, if◌then◌else◌,
}
use pggat.Base.Eq.{string_eq, ◌=?◌}
use pggat.Base.Maps.{
  Map, put, copy_one, copy_keys, has_key, IsComplete, at-put_self, at-put_other, delete_keys-clears,
}
use pggat.Eqp.State.{State, set_state, clear_pending, clear_maps}
use pggat.Eqp.Valid.{IsValid}

module _ {V : Type 0} (src : Map String V) (j : String) where
  at-copy_one :
      (k : String) (o : Option V) (dst : Map String V)
      → src.at k ≡ o
      → dst.at j ≡ src.at j
      → (copy_one k o dst).at j ≡ src.at j
  unfolding copy_one
  at-copy_one k none dst e h = h
  at-copy_one k (some v) dst e h = elim (Bool-cases (k =? j)) [
    | inl a ↦
        let kj = (string_eq.beq_iff k j).0 a in
        subst (λ i. (put k v dst).at i ≡ src.at i) kj (at-put_self k v dst ∙ sym e)
    | inr a ↦ at-put_other k j v dst (λ kj. true≢false (sym ((string_eq.beq_iff k j).1 kj) ∙ a)) ∙ h
  ]

  copied_here :
      (v : V) (dst : Map String V) → src.at j ≡ some v → (copy_one j (src.at j) dst).at j ≡ src.at j
  unfolding copy_one
  copied_here v dst e = subst (λ o. (copy_one j o dst).at j ≡ o) (sym e) (at-put_self j v dst)

  copied_before :
      (ks : List String) (dst : Map String V)
      → dst.at j ≡ src.at j
      → (copy_keys ks src dst).at j ≡ src.at j
  unfolding copy_keys
  copied_before [] dst h = h
  copied_before (k ∷ ks) dst h =
      copied_before ks (copy_one k (src.at k) dst) (at-copy_one k (src.at k) dst refl h)

  copied :
      (v : V)
      → src.at j ≡ some v
      → (ks : List String) (dst : Map String V) → has_key ks j ≡ true
      → (copy_keys ks src dst).at j ≡ src.at j
  unfolding copy_keys has_key
  copied v e [] dst h = cc
  copied v e (k ∷ ks) dst h = elim (Bool-cases (k =? j)) [
    | inl a ↦
        let kj = (string_eq.beq_iff k j).0 a in
        copied_before ks (copy_one k (src.at k) dst)
          (subst (λ i. (copy_one i (src.at i) dst).at j ≡ src.at j) (sym kj) (copied_here v dst e))
    | inr a ↦
        copied v e ks (copy_one k (src.at k) dst)
          (ap (λ b. if b then true else has_key ks j) (sym a) ∙ h)
  ]

  -- A copy into a map that has nothing there.
  at-copy_keys :
      (dst : Map String V)
      → IsComplete src
      → dst.at j ≡ none
      → (copy_keys src.keys src dst).at j ≡ src.at j
  unfolding IsComplete
  at-copy_keys dst complete h = elim (Option-cases (src.at j)) [
    | inl e ↦ copied_before src.keys dst (h ∙ sym e)
    | inr (v, e) ↦ copied v e src.keys dst (complete j (λ z. cc))
  ]

-- Where both states have their tables in order, `Set` gives a state the tables and the pending
-- packets of the other, whatever it had before.
pub set_state_copies :
    (t other : State)
    → IsValid t
    → IsValid other
    → ((name : String)
        → ((set_state t other).prepared_statements.at name ≡ other.prepared_statements.at name)
          × ((set_state t other).portals.at name ≡ other.portals.at name))
      × ((set_state t other).pending_prepared_statements ≡ other.pending_prepared_statements)
      × ((set_state t other).pending_portals ≡ other.pending_portals)
      × ((set_state t other).pending_closes ≡ other.pending_closes)
unfolding set_state clear_pending clear_maps
set_state_copies t other vt vo = (
  λ name. (
    at-copy_keys other.prepared_statements name _ vo.statements
        (delete_keys-clears t.prepared_statements name vt.statements),
    at-copy_keys other.portals name _ vo.portals (delete_keys-clears t.portals name vt.portals),
  ),
  refl,
  refl,
  refl,
)
