-- ===== src/Eqp/Strict.antt =====
-- SyncMiddleware (lib/fed/middlewares/eqp/sync.go) with a server that refuses to prepare a statement
-- under a name that is in use.
use Prim.Native.String.{String}
use pggat.Base.{
  ◌≡◌, refl, ap, subst, sym, ◌∙◌, Bool, true, false, true≢false, Option, none, some, List, [], ◌∷◌,
  ◌++◌, map, Bool-cases, Option-cases, inl, inr,
}
use pggat.Base.Eq.{nat_eq, string_eq, ◌=?◌}
use pggat.Base.Maps.{Map, has_key, AllNamed, at-put_other, eq_self}
use pggat.Fed.Conn.{Error}
use pggat.Eqp.State.{Parse, Message, State}
use pggat.Eqp.Sync.{
  Server, keeps_statement, on_server, prepared_statements_equal, finish, sync_loops,
  sync_middleware,
}
use pggat.Eqp.Valid.{IsValid}
use pggat.Eqp.Writes.{
  Command, message, each, visited, portal_closes, statement_closes, statement_parses, portal_binds,
  sync_commands, pend_all, nonempty, Writes, Wrote, sync_loops-Writes,
}
use pggat.Eqp.Replies.{waiting, pend_all-waiting, accept, accept_all}
use pggat.Eqp.Ranges.{each-keeps, each-reaches}
use pggat.Eqp.Match.{
  prepared_statements_equal_sym, Holds, portals-keep, closes_none, closes_reach, has_own,
}
use pggat.Eqp.Outcome.{IsQuiet, starts}
use pggat.Eqp.Live.{Goes, sync_loops-Goes}
use pggat.Eqp.Refuse.{
  refuses, strict_read, strict_end, strict_sync, Allowed, Allowed-append, strict_read-Allowed,
  each-Allowed, closes-Allowed, closes_portal-Allowed, binds-Allowed, IsDistinct,
}

module _ (c s : State) (vc : IsValid c) (vs : IsValid s) where
  -- Under each of the keys, what is still to be parsed finds its name free.
  abbrev Free : List String → Map String Parse → Type 0
  Free ks ps =
      (k : String) (v : Parse)
      → has_key ks k ≡ true
      → c.prepared_statements.at k ≡ some v
      → on_server (s.prepared_statements.at k) v ≡ false
      → (k =? "") ≡ false
      → ps.at k ≡ none

  parse-Allowed :
      (k : String) (ks : List String) (v : Parse) (ps : Map String Parse)
      → c.prepared_statements.at k ≡ some v
      → Free (k ∷ ks) ps
      → Allowed (statement_parses s k v) ps
  unfolding Allowed refuses message has_key AllNamed
  parse-Allowed k ks v ps e free = elim (Bool-cases (on_server (s.prepared_statements.at k) v)) [
    | inl b ↦ rw b tt
    | inr b ↦ rw b (elim (Bool-cases (k =? "")) [
      | inl unnamed ↦ (rw (vc.statement_names k v e, unnamed) refl, tt)
      | inr named ↦
          let gone : ps.at k ≡ none = free k v (rw (eq_self k) refl) e b named in
          (rw (vc.statement_names k v e, named, gone) refl, tt)
    ])
  ]

  parse-Free :
      (k : String) (ks : List String) (v : Parse) (ps : Map String Parse)
      → has_key ks k ≡ false
      → c.prepared_statements.at k ≡ some v
      → Free (k ∷ ks) ps
      → Free ks (accept_all (statement_parses s k v) ps)
  unfolding accept_all accept has_key AllNamed
  parse-Free k ks v ps once e free j w found ej b named = elim (Bool-cases (k =? j)) [
    | inl same ↦
        absurd
          (true≢false (sym found ∙ (ap (has_key ks) (sym ((string_eq.beq_iff k j).0 same)) ∙ once)))
    | inr other ↦
        let before : ps.at j ≡ none = free j w (rw other found) ej b named in
        elim (Bool-cases (on_server (s.prepared_statements.at k) v)) [
          | inl kept ↦ rw kept before
          | inr sent ↦ rw sent (
              at-put_other v.destination j v ps (λ x.
                true≢false
                  (sym ((string_eq.beq_iff k j).1 (sym (vc.statement_names k v e) ∙ x)) ∙ other))
              ∙ before)
        ]
  ]

  parses-Allowed :
      (ks : List String) (ps : Map String Parse)
      → IsDistinct ks
      → Free ks ps
      → Allowed (each c.prepared_statements (statement_parses s) ks) ps
  unfolding each visited Allowed IsDistinct has_key
  parses-Allowed [] ps d free = tt
  parses-Allowed (k ∷ ks) ps d free = elim (Option-cases (c.prepared_statements.at k)) [
    | inl e ↦ rw e (
        parses-Allowed ks ps d.1 (λ j w found ej b named. elim (Bool-cases (k =? j)) [
          | inl same ↦ free j w (rw same refl) ej b named
          | inr other ↦ free j w (rw other found) ej b named
        ]))
    | inr (v, e) ↦ rw e (
        Allowed-append (statement_parses s k v) _ ps (parse-Allowed k ks v ps e free)
          (parses-Allowed ks _ d.1 (parse-Free k ks v ps d.0 e free)))
  ]

  -- What the server has under another query or other types than the client is closed first.
  differs :
      (k : String) (v w : Parse)
      → c.prepared_statements.at k ≡ some v
      → s.prepared_statements.at k ≡ some w
      → on_server (s.prepared_statements.at k) v ≡ false
      → (k =? "") ≡ false
      → keeps_statement k (c.prepared_statements.at k) w ≡ false
  unfolding keeps_statement on_server
  differs k v w ec es b named = elim (Bool-cases (prepared_statements_equal w v)) [
    | inl same ↦ absurd (
        true≢false
          (sym (prepared_statements_equal_sym w v same) ∙ (ap (λ o. on_server o v) (sym es) ∙ b)))
    | inr other ↦ rw (ec, other) named
  ]

  abbrev Closed : Map String Parse
  Closed =
      accept_all (each s.prepared_statements (statement_closes c) s.prepared_statements.keys)
        (accept_all (each s.portals portal_closes s.portals.keys) s.prepared_statements)

  closed-Free : Free c.prepared_statements.keys Closed
  closed-Free k v found ec b named = elim (Option-cases (s.prepared_statements.at k)) [
    | inl es ↦
        each-keeps s.prepared_statements (statement_closes c) (Holds c s vc vs k none)
          (closes_none c s vc vs k) s.prepared_statements.keys _
          (portals-keep c s vc vs k none s.portals s.portals.keys s.prepared_statements es)
    | inr (w, es) ↦
        each-reaches s.prepared_statements (statement_closes c) (Holds c s vc vs k none)
          (closes_none c s vc vs k) k w es
          (closes_reach c s vc vs k w (differs k v w ec es b named)) s.prepared_statements.keys
          (has_own c s vc vs k s vs w es) _
  ]

  sync-Allowed :
      IsDistinct c.prepared_statements.keys → Allowed (sync_commands c s) s.prepared_statements
  sync-Allowed distinct =
      Allowed-append _ _ s.prepared_statements
        (each-Allowed s.portals portal_closes closes_portal-Allowed s.portals.keys _)
        (Allowed-append _ _ _
          (each-Allowed s.prepared_statements (statement_closes c) (closes-Allowed c)
            s.prepared_statements.keys _)
          (Allowed-append _ _ _
            (parses-Allowed c.prepared_statements.keys Closed distinct closed-Free)
            (each-Allowed c.portals portal_binds binds-Allowed c.portals.keys _)))

module _ (c : State) (s : Server) (quiet : IsQuiet s) where
  -- No error, and every packet has been answered.
  Ends : Option Error × Server → Type 0
  Ends r = (r.0 ≡ none) × (r.1.unanswered ≡ [])

  nothing_left :
      (ws : List Command) (ms : List Message)
      → false ≡ nonempty ws
      → ms ≡ s.unanswered ++ map message ws
      → ms ≡ []
  nothing_left [] ms e h = h ∙ ap (λ l. l ++ []) quiet.no_packets
  nothing_left (w ∷ ws) ms e h = absurd (true≢false (sym e))

  strict_answers :
      (needs : Bool) (t : Server)
      → Wrote (sync_commands c s.state) (false, s) (needs, t)
      → Allowed (sync_commands c s.state) s.state.prepared_statements
      → Ends (strict_sync t)
  unfolding strict_sync strict_end Ends
  strict_answers needs t w allowed =
      let ws = sync_commands c s.state in
      let ps = s.state.prepared_statements in
      let qs = s.state.portals in
      let read = strict_read-Allowed ws ps qs allowed in
      let packets : t.unanswered ≡ map message ws =
        w.unanswered ∙ ap (λ l. l ++ map message ws) quiet.no_packets in
      let state : t.state ≡ waiting ws ps qs =
        w.state ∙ (ap (pend_all ws) (starts c s quiet) ∙ pend_all-waiting ps qs [] ws) in
      let done : strict_read t.unanswered t.state ≡ some read.0 =
        ap (λ ms. strict_read ms t.state) packets
        ∙ (ap (strict_read (map message ws)) state ∙ read.1) in
      subst (λ o. Ends (strict_end t o)) (sym done) (refl, refl)

  strict_finish :
      (r : Option Error × (Bool × Server))
      → Goes r
      → Writes (sync_commands c s.state) (false, s) r
      → Allowed (sync_commands c s.state) s.state.prepared_statements
      → Ends (finish strict_sync r)
  unfolding finish Writes Goes Ends
  strict_finish (some e, t) g w allowed = absurd g
  strict_finish (none, (true, t)) g w allowed = strict_answers true t w allowed
  strict_finish (none, (false, t)) g w allowed =
      (refl, nothing_left (sync_commands c s.state) t.unanswered w.needs w.unanswered)

  pub sync_middleware_strict :
      IsValid c
      → IsValid s.state
      → IsDistinct c.prepared_statements.keys
      → s.faults ≡ []
      → ((sync_middleware strict_sync c s).0 ≡ none)
        × ((sync_middleware strict_sync c s).1.unanswered ≡ [])
  unfolding sync_middleware Ends
  sync_middleware_strict vc vs distinct takes =
      strict_finish (sync_loops c s) (sync_loops-Goes c s takes) (sync_loops-Writes c s)
        (sync-Allowed c s.state vc vs distinct)
