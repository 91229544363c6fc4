-- ===== src/Ps/Loops.antt =====
-- `Sync` of lib/fed/middlewares/ps/sync.go: its loops make client and server agree.
use Prim.Native.String.{String}
use pggat.Base.{
  ◌≡◌, ◌≢◌, ◌⊎◌, refl, ap, sym, ◌∙◌, subst, Bool, true, false, true≢false, Option, none, some, List,
  ◌∷◌, ◌||◌, Bool-cases, inl, inr,
}
use pggat.Base.Eq.{string_eq, ◌=?◌}
use pggat.Base.Maps.{has_key, eq_self}
use pggat.Slices.{contains}
use pggat.Fed.Conn.{Error}
use pggat.Ps.Sides.{Parameters, or_empty}
use pggat.Ps.Sync.{Sides, Errors, no_errors, is_some, sync_one, unless_error}
use pggat.Ps.Agree.{value_in, sync_one-again, sync_one-value_in}
use pggat.Ps.Others.{Has, AllLower, SetsParameter, ServerKeys, sync_one-Has, sync_one-keys}

not_some : (o : Option Error) → is_some o ≡ false → o ≡ none
not_some none h = refl
not_some (some e) h = absurd (true≢false h)

or_neither : (a b : Bool) → (a || b) ≡ false → (a ≡ false) × (b ≡ false)
or_neither true b h = absurd (true≢false h)
or_neither false b h = (refl, h)

is_no_errors : (e : Errors) → (is_some e.client_err || is_some e.server_err) ≡ false → e ≡ no_errors
is_no_errors e h =
    let (a, b) = or_neither (is_some e.client_err) (is_some e.server_err) h in
    let p = not_some e.client_err a in
    let q = not_some e.server_err b in λ i. record { client_err = p i; server_err = q i }

-- What holds of the sides if a call returned no error.
abbrev pub Good : (Sides → Type 0) → Errors × Sides → Type 0
Good Q r = r.0 ≡ no_errors → Q r.1

pub unless_error-Good :
    (Q R : Sides → Type 0) (r : Errors × Sides) (k : Sides → Errors × Sides)
    → Good Q r
    → ((t : Sides) → Q t → Good R (k t))
    → Good R (unless_error r k)
unfolding unless_error
unless_error-Good Q R (e, t) k q h =
    elim (Bool-cases (is_some e.client_err || is_some e.server_err)) [
      | inl bad ↦ rw bad (λ none_of.
          absurd
            (true≢false (sym bad ∙ ap (λ x. is_some x.client_err || is_some x.server_err) none_of)))
      | inr fine ↦ rw fine (h t (q (is_no_errors e fine)))
    ]

module _ (to_lower : String → String)
    (set_parameter : String → String → Parameters → Option Error × Parameters)
    (tracking : List String) (sets : SetsParameter to_lower set_parameter) (n : String) where
  abbrev pub one : String → Sides → Errors × Sides
  one = sync_one to_lower set_parameter tracking true

  abbrev keys_lem :
      (k : String)
      → to_lower k ≡ k
      → (t : Sides) → ServerKeys to_lower set_parameter tracking true sets t
      → ServerKeys to_lower set_parameter tracking true sets (one k t).1
  keys_lem = sync_one-keys to_lower set_parameter tracking true sets

  abbrev pub Keys : Sides → Type 0
  Keys = ServerKeys to_lower set_parameter tracking true sets

  -- The sides agree on `n`.
  abbrev pub Settled : Sides → Type 0
  Settled t = Keys t × (value_in t.client.parameters n ≡ value_in t.server n)

  -- They have these entries under `n`.
  abbrev pub Still : Option String → Option String → Sides → Type 0
  Still c s t = Keys t × Has n c s t

  pub apart : (k : String) → (k =? n) ≡ false → k ≢ n
  apart k h e = true≢false (sym ((string_eq.beq_iff k n).1 e) ∙ h)

  pub step-Still :
      (k : String)
      → to_lower k ≡ k
      → k ≢ n
      → (c s : Option String) (t : Sides) → Still c s t
      → Still c s (one k t).1
  step-Still k low ne c s t (keys, h) = (
    keys_lem k low t keys,
    sync_one-Has to_lower set_parameter tracking true sets k n low ne c s t h,
  )

  pub step-Settled :
      (k : String) → to_lower k ≡ k → (t : Sides) → Settled t → Good Settled (one k t)
  unfolding Has
  step-Settled k low t (keys, same) = elim (Bool-cases (k =? n)) [
    | inl e ↦ λ fine. (
      keys_lem k low t keys,
      subst (λ j. value_in (one k t).1.client.parameters j ≡ value_in (one k t).1.server j)
          ((string_eq.beq_iff k n).0 e)
          (sync_one-again to_lower set_parameter tracking k t low
            (subst (λ j. value_in t.client.parameters j ≡ value_in t.server j)
              (sym ((string_eq.beq_iff k n).0 e)) same)
            fine),
    )
    | inr e ↦ λ fine.
        let (kept, (a, b)) = step-Still k low (apart k e) _ _ t (keys, (refl, refl)) in
        (kept, ap or_empty a ∙ (same ∙ ap or_empty (sym b)))
  ]

  pub reach_step :
      (k : String)
      → to_lower k ≡ k
      → k ≡ n
      → (c s : Option String) → (contains tracking n ≡ true) ⊎ (is_some s ≡ true)
      → (t : Sides) → Still c s t
      → Good Settled (one k t)
  unfolding Has
  reach_step k low e c s cond t (keys, h) = λ fine. (
    keys_lem k low t keys,
    subst (λ j. value_in (one k t).1.client.parameters j ≡ value_in (one k t).1.server j) e
        (sync_one-value_in to_lower set_parameter tracking k t low
          (subst (λ j. (contains tracking j ≡ true) ⊎ (is_some (t.server.at j) ≡ true)) (sym e)
            (elim cond [ inl x ↦ inl x | inr x ↦ inr (ap is_some h.1 ∙ x) ]))
          fine),
  )

  pub head_low : (k : String) (ks : List String) → AllLower to_lower (k ∷ ks) → to_lower k ≡ k
  unfolding AllLower has_key
  head_low k ks h = h k (rw (eq_self k) refl)

  pub tail_low : (k : String) (ks : List String) → AllLower to_lower (k ∷ ks) → AllLower to_lower ks
  unfolding AllLower has_key
  tail_low k ks h j e = h j (elim (Bool-cases (k =? j)) [ inl a ↦ rw a refl | inr a ↦ rw a e ])
