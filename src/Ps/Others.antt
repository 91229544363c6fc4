-- ===== src/Ps/Others.antt =====
-- `sync` of a parameter (lib/fed/middlewares/ps/sync.go) leaves the others alone.
use Prim.Native.String.{String}
use pggat.Base.{
  ◌≡◌, ◌≢◌, sym, ◌∙◌, subst, Bool, true, Option, none, some, List, [], ◌∷◌, ◌&&◌, not, Bool-cases,
  inl, inr,
}
use pggat.Base.Eq.{string_eq, ◌=?◌}
use pggat.Base.Maps.{put, at-put_other, has_key, IsComplete, put-IsComplete}
use pggat.Slices.{contains}
use pggat.Fed.Conn.{Error}
use pggat.Ps.Sides.{StatusMessage, Parameters, or_empty, client_write_packet}
use pggat.Ps.Sync.{
  Sides, is_some, send, pass_on, tell, tell_if, after_set, differ, sync_values, sync_one,
}

-- What the two sides have under `j`.
unfoldable pub Has : String → Option String → Option String → Sides → Type 0
Has j c s t = (t.client.parameters.at j ≡ c) × (t.server.at j ≡ s)

module _ (P : Parameters → Parameters → Type 0) where
  abbrev On : Sides → Type 0
  On t = P t.client.parameters t.server

  send-On :
      (faults : List (Option Error)) (p : StatusMessage) (t : Sides) → On t → On (send faults p t).1
  unfolding send
  send-On [] p t h = h
  send-On (none ∷ rest) p t h = h
  send-On (some e ∷ rest) p t h = h

  -- What a new value of `name` on either side keeps, and what SetParameter keeps, `sync` keeps.
  module _ (to_lower : String → String)
      (set_parameter : String → String → Parameters → Option Error × Parameters)
      (tracking : List String) (has_client : Bool) (name : String) (low : to_lower name ≡ name)
      (on_client : (v : String) (c s : Parameters) → P c s → P (put name v c) s)
      (on_server : (v : String) (c s : Parameters) → P c s → P c (put name v s))
      (on_set : (v : String) (c s : Parameters) → P c s → P c (set_parameter name v s).1) where
    tell-On :
        (v : String) (t : Sides)
        → On t
        → On (tell to_lower set_parameter tracking has_client name v t).1
    unfolding tell client_write_packet pass_on
    tell-On v t h =
        elim (Bool-cases
          (t.client.synced && (or_empty (t.client.parameters.at (to_lower name)) =? v))) [
            | inl b ↦ rw b h
            | inr b ↦ rw b (
                send-On t.faults _ _ (
                  subst (λ k. P (put k v t.client.parameters) t.server) (sym low)
                    (on_client v t.client.parameters t.server h)))
          ]

    tell_if-On :
        (do_set : Bool) (v : String) (t : Sides)
        → On t
        → On (tell_if to_lower set_parameter tracking has_client do_set name v t).1
    unfolding tell_if
    tell_if-On do_set v t h = elim (Bool-cases (has_client && do_set)) [
      | inl b ↦ rw b (tell-On v t h)
      | inr b ↦ rw b h
    ]

    after_set-On :
        (v : String) (r : Option Error × Parameters) (t : Sides)
        → P t.client.parameters r.1
        → On (after_set to_lower set_parameter tracking has_client name v r t).1
    unfolding after_set
    after_set-On v (some e, p) t q = q
    after_set-On v (none, p) t q =
        tell_if-On (not t.client.synced) v _ (on_server v t.client.parameters p q)

    differ-On :
        (value expected : Option String) (t : Sides)
        → On t
        → On (differ to_lower set_parameter tracking has_client name value expected t).1
    unfolding differ
    differ-On value expected t h = elim (Bool-cases (is_some value && contains tracking name)) [
      | inl b ↦ rw b (
          after_set-On (or_empty value) _ t
            (on_set (or_empty value) t.client.parameters t.server h))
      | inr b ↦ rw b (tell_if-On (is_some expected) (or_empty expected) t h)
    ]

    sync_values-On :
        (value expected : Option String) (t : Sides)
        → On t
        → On (sync_values to_lower set_parameter tracking has_client name value expected t).1
    unfolding sync_values
    sync_values-On value expected t h = elim (Bool-cases (or_empty value =? or_empty expected)) [
      | inl b ↦ rw b (tell_if-On (not t.client.synced) (or_empty expected) t h)
      | inr b ↦ rw b (differ-On value expected t h)
    ]

    pub sync_one-On :
        (t : Sides) → On t → On (sync_one to_lower set_parameter tracking has_client name t).1
    unfolding sync_one
    sync_one-On t h = sync_values-On (t.client.parameters.at name) (t.server.at name) t h

-- Every key is one that MakeCIString leaves alone.
unfoldable pub AllLower : (String → String) → List String → Type 0
AllLower to_lower ks = (k : String) → has_key ks k ≡ true → to_lower k ≡ k

-- SetParameter changes no other parameter of the server, and the middleware puts what the server
-- reports under names that MakeCIString made.
pub record SetsParameter (to_lower : String → String)
    (set_parameter : String → String → Parameters → Option Error × Parameters) : Type 0 where
  pub sets_only :
      (name v : String) (s : Parameters) (j : String)
      → name ≢ j
      → (set_parameter name v s).1.at j ≡ s.at j
  pub lower :
      (name v : String) (s : Parameters)
      → to_lower name ≡ name
      → AllLower to_lower s.keys
      → AllLower to_lower (set_parameter name v s).1.keys
  pub complete :
      (name v : String) (s : Parameters) → IsComplete s → IsComplete (set_parameter name v s).1

put-AllLower :
    (to_lower : String → String) (name v : String) (m : Parameters)
    → to_lower name ≡ name
    → AllLower to_lower m.keys
    → AllLower to_lower (put name v m).keys
unfolding AllLower put has_key
put-AllLower to_lower name v m low h j = elim (Bool-cases (has_key m.keys name)) [
  | inl old ↦ rw old (h j)
  | inr new ↦ rw new (elim (Bool-cases (name =? j)) [
    | inl same ↦ λ _. subst (λ k. to_lower k ≡ k) ((string_eq.beq_iff name j).0 same) low
    | inr differs ↦ rw differs (h j)
  ])
]

module _ (to_lower : String → String)
    (set_parameter : String → String → Parameters → Option Error × Parameters)
    (tracking : List String) (has_client : Bool) (sets : SetsParameter to_lower set_parameter) where
  -- `sync` of a name that MakeCIString leaves alone keeps what the client and the server have under
  -- every other name.
  pub sync_one-Has :
      (name j : String) (low : to_lower name ≡ name) (other : name ≢ j) (c s : Option String)
      (t : Sides)
      → Has j c s t
      → Has j c s (sync_one to_lower set_parameter tracking has_client name t).1
  unfolding Has
  sync_one-Has name j low other c s =
      sync_one-On (λ p q. (p.at j ≡ c) × (q.at j ≡ s)) to_lower set_parameter tracking has_client
        name low (λ v p q h. (at-put_other name j v p other ∙ h.0, h.1))
        (λ v p q h. (h.0, at-put_other name j v q other ∙ h.1))
        (λ v p q h. (h.0, sets.sets_only name v q j other ∙ h.1))

  -- The keys of the server stay in lower case, and a range over them visits all its parameters.
  abbrev pub ServerKeys : Sides → Type 0
  ServerKeys t = AllLower to_lower t.server.keys × IsComplete t.server

  pub sync_one-keys :
      (name : String)
      → to_lower name ≡ name
      → (t : Sides) → ServerKeys t
      → ServerKeys (sync_one to_lower set_parameter tracking has_client name t).1
  sync_one-keys name low =
      sync_one-On (λ p q. AllLower to_lower q.keys × IsComplete q) to_lower set_parameter tracking
        has_client name low (λ v p q h. h)
        (λ v p q h. (put-AllLower to_lower name v q low h.0, put-IsComplete name v q h.1))
        (λ v p q h. (sets.lower name v q low h.0, sets.complete name v q h.1))
