-- ===== src/Eqp/Ranges.antt =====
-- What a range over a Go map leaves of the table of statements, once its commands are accepted.
use Prim.Native.String.{String}
use pggat.Base.{
  ◌≡◌, refl, ap, sym, subst, ◌∙◌, true, Option, none, some, List, [], ◌∷◌, ◌++◌, if◌then◌else◌,
  Bool-cases, inl, inr,
}
use pggat.Base.Eq.{nat_eq, string_eq, ◌=?◌}
use pggat.Base.Maps.{Map, has_key}
use pggat.Eqp.State.{Parse}
use pggat.Eqp.Writes.{Command, each, visited}
use pggat.Eqp.Replies.{accept, accept_all}

pub accept_all-append :
    (us vs : List Command) (ps : Map String Parse)
    → accept_all (us ++ vs) ps ≡ accept_all vs (accept_all us ps)
unfolding accept_all
accept_all-append [] vs ps = refl
accept_all-append (u ∷ us) vs ps = accept_all-append us vs (accept u ps)

-- The value of a statement is set already, or not changed, by what follows.
module _ {V : Type 0} (m : Map String V) (f : String → V → List Command)
    (P : Map String Parse → Type 0)
    (h : (k : String) (v : V) (ps : Map String Parse)
      → m.at k ≡ some v
      → P ps
      → P (accept_all (f k v) ps)) where
  visited-keeps :
      (k : String) (o : Option V) (ws : List Command)
      → m.at k ≡ o
      → ((ps : Map String Parse) → P ps → P (accept_all ws ps))
      → (ps : Map String Parse) → P ps
      → P (accept_all (visited o (f k) ws) ps)
  unfolding visited
  visited-keeps k none ws e rest ps p = rest ps p
  visited-keeps k (some v) ws e rest ps p =
      subst P (sym (accept_all-append (f k v) ws ps)) (rest (accept_all (f k v) ps) (h k v ps e p))

  -- What the body of a range keeps, the range keeps.
  pub each-keeps :
      (ks : List String) (ps : Map String Parse) → P ps → P (accept_all (each m f ks) ps)
  unfolding each accept_all
  each-keeps [] ps p = p
  each-keeps (k ∷ ks) ps p = visited-keeps k (m.at k) (each m f ks) refl (each-keeps ks) ps p

  visited-then :
      (k : String) (o : Option V) (ws : List Command)
      → ((ps : Map String Parse) → P (accept_all ws ps))
      → (ps : Map String Parse) → P (accept_all (visited o (f k) ws) ps)
  unfolding visited
  visited-then k none ws rest ps = rest ps
  visited-then k (some v) ws rest ps =
      subst P (sym (accept_all-append (f k v) ws ps)) (rest (accept_all (f k v) ps))

  visited-first :
      (k : String) (v : V) (ks : List String) (ps : Map String Parse)
      → P (accept_all (f k v) ps)
      → P (accept_all (visited (some v) (f k) (each m f ks)) ps)
  unfolding visited
  visited-first k v ks ps p =
      subst P (sym (accept_all-append (f k v) (each m f ks) ps))
        (each-keeps ks (accept_all (f k v) ps) p)

  -- What the body makes true at the key `n`, a range that visits `n` makes true.
  pub each-reaches :
      (n : String) (v : V)
      → m.at n ≡ some v
      → ((ps : Map String Parse) → P (accept_all (f n v) ps))
      → (ks : List String) → has_key ks n ≡ true
      → (ps : Map String Parse) → P (accept_all (each m f ks) ps)
  unfolding each has_key
  each-reaches n v e body [] found ps = cc
  each-reaches n v e body (k ∷ ks) found ps = elim (Bool-cases (k =? n)) [
    | inl a ↦
        subst (λ j. P (accept_all (visited (m.at j) (f j) (each m f ks)) ps))
          (sym ((string_eq.beq_iff k n).0 a))
          (subst (λ o. P (accept_all (visited o (f n) (each m f ks)) ps)) (sym e)
            (visited-first n v ks ps (body ps)))
    | inr a ↦
        visited-then k (m.at k) (each m f ks)
          (each-reaches n v e body ks (ap (λ b. if b then true else has_key ks n) (sym a) ∙ found))
          ps
  ]
