-- ===== src/Ps/Agree.antt =====
-- After `sync` of a parameter (lib/fed/middlewares/ps/sync.go) the two sides agree on it.
use Prim.Native.String.{String}
use pggat.Base.{
  ◌≡◌, ◌≢◌, ◌⊎◌, refl, ap, sym, ◌∙◌, subst, Bool, true, false, true≢false, Option, none, some, List,
  [], ◌∷◌, ◌&&◌, not, Bool-cases, inl, inr,
}
use pggat.Base.Eq.{string_eq, ◌=?◌}
use pggat.Base.Maps.{put, at-put_self}
use pggat.Slices.{contains}
use pggat.Fed.Conn.{Error}
use pggat.Ps.Sides.{StatusMessage, Parameters, or_empty, client_write_packet}
use pggat.Ps.Sync.{
  Sides, Errors, no_errors, is_some, send, pass_on, tell, tell_if, after_set, differ, sync_values,
  sync_one,
}

-- A name without an entry counts as the empty string.
abbrev pub value_in : Parameters → String → String
value_in m k = or_empty (m.at k)

-- Without an error, the client has the value under `name`, and the server is as it was.
Tells : String → String → Parameters → Errors × Sides → Type 0
Tells name v s (e, t) = e ≡ no_errors → (value_in t.client.parameters name ≡ v) × (t.server ≡ s)

and_right : (a b : Bool) → (a && b) ≡ true → b ≡ true
and_right true b h = h
and_right false b h = absurd (true≢false (sym h))

send-Tells :
    (faults : List (Option Error)) (p : StatusMessage) (name v : String) (t : Sides)
    → value_in t.client.parameters name ≡ v
    → Tells name v t.server (send faults p t)
unfolding send Tells
send-Tells [] p name v t h = λ e. (h, refl)
send-Tells (none ∷ rest) p name v t h = λ e. (h, refl)
send-Tells (some x ∷ rest) p name v t h = λ e. cc

-- Where a call returns no error, the sides agree on `name`.
abbrev pub Agrees : String → Errors × Sides → Type 0
Agrees name (e, t) = e ≡ no_errors → value_in t.client.parameters name ≡ value_in t.server name

Tells-Agrees :
    (name v : String) (s : Parameters) (r : Errors × Sides)
    → Tells name v s r
    → v ≡ value_in s name
    → Agrees name r
unfolding Tells
Tells-Agrees name v s (e, t) h same fine =
    let (told, kept) = h fine in told ∙ (same ∙ ap (λ m. value_in m name) (sym kept))

module _ (to_lower : String → String)
    (set_parameter : String → String → Parameters → Option Error × Parameters)
    (tracking : List String) where
  tell-Tells :
      (name v : String) (t : Sides)
      → to_lower name ≡ name
      → Tells name v t.server (tell to_lower set_parameter tracking true name v t)
  unfolding tell client_write_packet pass_on Tells or_empty
  tell-Tells name v t low =
      elim (Bool-cases
        (t.client.synced && (or_empty (t.client.parameters.at (to_lower name)) =? v))) [
          | inl b ↦ rw b (λ e. (
            ap (λ k. value_in t.client.parameters k) (sym low)
                ∙ (string_eq.beq_iff _ _).0 (and_right t.client.synced _ b),
            refl,
          ))
          | inr b ↦ rw b (
              send-Tells t.faults _ name v _ (
                subst (λ k. or_empty ((put k v t.client.parameters).at name) ≡ v) (sym low)
                  (ap or_empty (at-put_self name v t.client.parameters))))
        ]

  tell_if-Agrees :
      (do_set : Bool) (name v : String) (t : Sides)
      → to_lower name ≡ name
      → v ≡ value_in t.server name
      → (do_set ≡ false → value_in t.client.parameters name ≡ v)
      → Agrees name (tell_if to_lower set_parameter tracking true do_set name v t)
  unfolding tell_if
  tell_if-Agrees true name v t low same kept =
      Tells-Agrees name v t.server _ (tell-Tells name v t low) same
  tell_if-Agrees false name v t low same kept = λ e. kept refl ∙ same

  after_set-Agrees :
      (name v : String) (r : Option Error × Parameters) (t : Sides)
      → to_lower name ≡ name
      → value_in t.client.parameters name ≡ v
      → Agrees name (after_set to_lower set_parameter tracking true name v r t)
  unfolding after_set or_empty
  after_set-Agrees name v (some e, s) t low same = λ h. cc
  after_set-Agrees name v (none, s) t low same =
      tell_if-Agrees (not t.client.synced) name v _ low (sym (ap or_empty (at-put_self name v s)))
        (λ _. same)

  differ-Agrees :
      (name : String) (value expected : Option String) (t : Sides)
      → to_lower name ≡ name
      → t.client.parameters.at name ≡ value
      → t.server.at name ≡ expected
      → or_empty value ≢ or_empty expected
      → (contains tracking name ≡ true) ⊎ (is_some expected ≡ true)
      → Agrees name (differ to_lower set_parameter tracking true name value expected t)
  unfolding differ or_empty
  differ-Agrees name (some v) (some w) t low ce se ne h =
      elim (Bool-cases (contains tracking name)) [
        | inl b ↦ rw b (after_set-Agrees name v _ t low (ap or_empty ce))
        | inr b ↦
            rw b
              (tell_if-Agrees true name w t low (ap or_empty (sym se)) (λ z. absurd (true≢false z)))
      ]
  differ-Agrees name (some v) none t low ce se ne h = elim (Bool-cases (contains tracking name)) [
    | inl b ↦ rw b (after_set-Agrees name v _ t low (ap or_empty ce))
    | inr b ↦ elim h [
      | inl tracked ↦ absurd (true≢false (sym tracked ∙ b))
      | inr there ↦ absurd (true≢false (sym there))
    ]
  ]
  differ-Agrees name none (some w) t low ce se ne h =
      tell_if-Agrees true name w t low (ap or_empty (sym se)) (λ z. absurd (true≢false z))
  differ-Agrees name none none t low ce se ne h = absurd (ne refl)

  sync_values-Agrees :
      (name : String) (value expected : Option String) (t : Sides)
      → to_lower name ≡ name
      → t.client.parameters.at name ≡ value
      → t.server.at name ≡ expected
      → (or_empty value ≢ or_empty expected
          → (contains tracking name ≡ true) ⊎ (is_some expected ≡ true))
      → Agrees name (sync_values to_lower set_parameter tracking true name value expected t)
  unfolding sync_values
  sync_values-Agrees name value expected t low ce se h =
      elim (Bool-cases (or_empty value =? or_empty expected)) [
        | inl b ↦ rw b (
            tell_if-Agrees (not t.client.synced) name (or_empty expected) t low
              (ap or_empty (sym se)) (λ _. ap or_empty ce ∙ (string_eq.beq_iff _ _).0 b))
        | inr b ↦ rw b (differ-Agrees name value expected t low ce se (differs b) (h (differs b)))
      ]
    where
      differs : (or_empty value =? or_empty expected) ≡ false → or_empty value ≢ or_empty expected
      differs b same = true≢false (sym ((string_eq.beq_iff _ _).1 same) ∙ b)

  -- Sides that agree on the name already keep agreeing.
  pub sync_one-again :
      (name : String) (t : Sides)
      → to_lower name ≡ name
      → value_in t.client.parameters name ≡ value_in t.server name
      → Agrees name (sync_one to_lower set_parameter tracking true name t)
  unfolding sync_one
  sync_one-again name t low same =
      sync_values-Agrees name (t.client.parameters.at name) (t.server.at name) t low refl refl
        (λ ne. absurd (ne same))

  -- Once `sync` of a parameter returns no error to a client, client and server have the same value
  -- for it, if the parameter is tracked or the server has reported it; a name without an entry
  -- counts as the empty string, and the name is one that MakeCIString leaves alone.
  pub sync_one-value_in :
      (name : String) (t : Sides)
      → to_lower name ≡ name
      → (contains tracking name ≡ true) ⊎ (is_some (t.server.at name) ≡ true)
      → (sync_one to_lower set_parameter tracking true name t).0 ≡ no_errors
      → value_in (sync_one to_lower set_parameter tracking true name t).1.client.parameters name
        ≡ value_in (sync_one to_lower set_parameter tracking true name t).1.server name
  unfolding sync_one
  sync_one-value_in name t low h e =
      sync_values-Agrees name (t.client.parameters.at name) (t.server.at name) t low refl refl
        (λ _. h) e
