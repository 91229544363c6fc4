-- ===== src/Eqp/Match.antt =====
-- lib/fed/middlewares/eqp/sync.go: the server comes to have the client's prepared statements.
use Prim.Native.String.{String}
use pggat.Base.{
  ◌≡◌, refl, ap, sym, ◌∙◌, subst, true, false, true≢false, Option, none, some, List, if◌then◌else◌,
  Bool-cases, inl, inr, not,
}
use pggat.Base.Eq.{nat_eq, string_eq, ◌=?◌}
use pggat.Base.Maps.{
  Map, put, has_key, IsComplete, AllNamed, at-del_self, at-del-none, at-del_other, at-put_self,
  at-put_other,
}
use pggat.Slices.{equal}
use pggat.Slices.Laws.{equal_iff}
use pggat.Eqp.State.{Parse, Bind, State}
use pggat.Eqp.Sync.{keeps_statement, on_server, prepared_statements_equal}
use pggat.Eqp.Valid.{IsValid}
use pggat.Eqp.Writes.{
  each, portal_closes, statement_closes, statement_parses, portal_binds, sync_commands,
}
use pggat.Eqp.Replies.{accept, accept_all}
use pggat.Eqp.Ranges.{accept_all-append, each-keeps}

-- The server has what the client expects under a name: no statement, or one whose query is the same
-- string and whose parameter types are the same list.
unfoldable pub Agrees : Option Parse → Option Parse → Type 0
Agrees server_statement none = server_statement ≡ none
Agrees server_statement (some p) =
    (v : Parse) × ((server_statement ≡ some v)
      × ((v.query ≡ p.query) × (v.parameter_data_types ≡ p.parameter_data_types)))

same_query : (v p : Parse) → prepared_statements_equal v p ≡ true → (v.query =? p.query) ≡ true
unfolding prepared_statements_equal
same_query v p h = elim (Bool-cases (v.query =? p.query)) [
  | inl q ↦ q
  | inr q ↦ absurd (
      true≢false (
        sym h
        ∙ ap (λ t. if not t then false else equal v.parameter_data_types p.parameter_data_types) q))
]

same_types :
    (v p : Parse)
    → prepared_statements_equal v p ≡ true
    → equal v.parameter_data_types p.parameter_data_types ≡ true
unfolding prepared_statements_equal
same_types v p h =
    ap (λ t. if not t then false else equal v.parameter_data_types p.parameter_data_types)
      (sym (same_query v p h))
    ∙ h

-- What SyncMiddleware takes for the same statement has the same query and the same parameter types.
pub on_server-Agrees : (v p : Parse) → on_server (some v) p ≡ true → Agrees (some v) (some p)
unfolding Agrees on_server
on_server-Agrees v p h = (
  v,
  (
    refl,
    (
      sym ((string_eq.beq_iff p.query v.query).0 (same_query p v h)),
      sym ((equal_iff p.parameter_data_types v.parameter_data_types).0 (same_types p v h)),
    ),
  ),
)

pub prepared_statements_equal_sym :
    (a b : Parse) → prepared_statements_equal a b ≡ true → prepared_statements_equal b a ≡ true
unfolding prepared_statements_equal
prepared_statements_equal_sym a b h = elim (Bool-cases (a.query =? b.query)) [
  | inl q ↦
      let types = (equal_iff a.parameter_data_types b.parameter_data_types).0 (
        ap (λ t. if not t then false else equal a.parameter_data_types b.parameter_data_types)
          (sym q)
        ∙ h) in
      rw ((string_eq.beq_iff b.query a.query).1 (sym ((string_eq.beq_iff a.query b.query).0 q)))
        ((equal_iff b.parameter_data_types a.parameter_data_types).1 (sym types))
  | inr q ↦ absurd (
      true≢false (
        sym h
        ∙ ap (λ t. if not t then false else equal a.parameter_data_types b.parameter_data_types) q))
]

module _ (c s : State) (vc : IsValid c) (vs : IsValid s) (n : String) where
  abbrev pub Holds : Option Parse → Map String Parse → Type 0
  Holds o ps = ps.at n ≡ o

  pub portals-keep :
      (o : Option Parse) (qs : Map String Bind) (ks : List String) (ps : Map String Parse)
      → Holds o ps
      → Holds o (accept_all (each qs portal_closes ks) ps)
  unfolding accept_all accept
  portals-keep o qs = each-keeps qs portal_closes (Holds o) (λ k v ps e p. p)

  binds-keep :
      (o : Option Parse) (qs : Map String Bind) (ks : List String) (ps : Map String Parse)
      → Holds o ps
      → Holds o (accept_all (each qs portal_binds ks) ps)
  unfolding accept_all accept
  binds-keep o qs = each-keeps qs portal_binds (Holds o) (λ k v ps e p. p)

  kept_at :
      (k : String) (v : Parse)
      → s.prepared_statements.at k ≡ some v
      → ((v : Parse)
          → s.prepared_statements.at n ≡ some v
          → keeps_statement n (c.prepared_statements.at n) v ≡ true)
      → k ≡ n
      → keeps_statement k (c.prepared_statements.at k) v ≡ true
  kept_at k v e kept same =
      subst (λ j. keeps_statement j (c.prepared_statements.at j) v ≡ true) (sym same)
        (kept v (subst (λ j. s.prepared_statements.at j ≡ some v) same e))

  -- The second loop closes no statement `n` that the client has as well.
  pub closes_one :
      (o : Option Parse)
      → ((v : Parse)
          → s.prepared_statements.at n ≡ some v
          → keeps_statement n (c.prepared_statements.at n) v ≡ true)
      → (k : String) (v : Parse) (ps : Map String Parse) → s.prepared_statements.at k ≡ some v
      → Holds o ps
      → Holds o (accept_all (statement_closes c k v) ps)
  unfolding accept_all accept
  closes_one o kept k v ps e p =
      elim (Bool-cases (keeps_statement k (c.prepared_statements.at k) v)) [
        | inl b ↦ rw b p
        | inr b ↦
            rw b (at-del_other k n ps (λ same. true≢false (sym (kept_at k v e kept same) ∙ b)) ∙ p)
      ]

  pub closes_none :
      (k : String) (v : Parse) (ps : Map String Parse)
      → s.prepared_statements.at k ≡ some v
      → Holds none ps
      → Holds none (accept_all (statement_closes c k v) ps)
  unfolding accept_all accept
  closes_none k v ps e p = elim (Bool-cases (keeps_statement k (c.prepared_statements.at k) v)) [
    | inl b ↦ rw b p
    | inr b ↦ rw b (at-del-none k n ps p)
  ]

  named : (k : String) (v : Parse) → c.prepared_statements.at k ≡ some v → v.destination ≡ k
  unfolding AllNamed
  named k v e = vc.statement_names k v e

  put_named :
      (k : String) (v : Parse) (ps : Map String Parse)
      → c.prepared_statements.at k ≡ some v
      → (put v.destination v ps).at k ≡ some v
  put_named k v ps e =
      subst (λ j. (put v.destination v ps).at j ≡ some v) (named k v e)
        (at-put_self v.destination v ps)

  -- The third loop changes the statement `n` to the client's, if at all.
  pub parses_one :
      (o : Option Parse)
      → ((v : Parse)
          → c.prepared_statements.at n ≡ some v
          → on_server (s.prepared_statements.at n) v ≡ false
          → some v ≡ o)
      → (k : String) (v : Parse) (ps : Map String Parse) → c.prepared_statements.at k ≡ some v
      → Holds o ps
      → Holds o (accept_all (statement_parses s k v) ps)
  unfolding accept_all accept
  parses_one o same k v ps e p = elim (Bool-cases (on_server (s.prepared_statements.at k) v)) [
    | inl b ↦ rw b p
    | inr b ↦ rw b (elim (Bool-cases (k =? n)) [
      | inl a ↦
          let kn = (string_eq.beq_iff k n).0 a in
          subst (λ j. (put v.destination v ps).at j ≡ some v) kn (put_named k v ps e)
          ∙ same v (subst (λ j. c.prepared_statements.at j ≡ some v) kn e)
              (subst (λ j. on_server (s.prepared_statements.at j) v ≡ false) kn b)
      | inr a ↦
          at-put_other v.destination n v ps
            (λ x. true≢false (sym ((string_eq.beq_iff k n).1 (sym (named k v e) ∙ x)) ∙ a))
          ∙ p
    ])
  ]

  pub parses_reach :
      (p : Parse)
      → c.prepared_statements.at n ≡ some p
      → on_server (s.prepared_statements.at n) p ≡ false
      → (ps : Map String Parse) → Holds (some p) (accept_all (statement_parses s n p) ps)
  unfolding accept_all accept
  parses_reach p e b ps = rw b (put_named n p ps e)

  pub closes_reach :
      (v : Parse)
      → keeps_statement n (c.prepared_statements.at n) v ≡ false
      → (ps : Map String Parse) → Holds none (accept_all (statement_closes c n v) ps)
  unfolding accept_all accept
  closes_reach v b ps = rw b (at-del_self n ps)

  -- The four loops in order.
  pub four_loops :
      (o : Option Parse)
      → Holds o (
          accept_all (each c.prepared_statements (statement_parses s) c.prepared_statements.keys) (
            accept_all
              (each s.prepared_statements (statement_closes c) s.prepared_statements.keys)
              (accept_all (each s.portals portal_closes s.portals.keys) s.prepared_statements)))
      → Holds o (accept_all (sync_commands c s) s.prepared_statements)
  four_loops o p =
      rw (accept_all-append, accept_all-append, accept_all-append)
        (binds-keep o c.portals c.portals.keys _ p)

  abbrev pub First : Map String Parse
  First = accept_all (each s.portals portal_closes s.portals.keys) s.prepared_statements

  pub has_own :
      (m : State)
      → IsValid m
      → (v : Parse) → m.prepared_statements.at n ≡ some v
      → has_key m.prepared_statements.keys n ≡ true
  unfolding IsComplete
  has_own m valid v e = valid.statements n (λ z. cc)
