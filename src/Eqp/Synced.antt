-- ===== src/Eqp/Synced.antt =====
-- The outcome of SyncMiddleware (lib/fed/middlewares/eqp/sync.go) with a server that accepts what it
-- is sent.
use Prim.Native.String.{String}
use mathlib.Core.Option.{some-injective}
use pggat.Base.{
  ◌≡◌, refl, ap, sym, subst, ◌∙◌, true, false, true≢false, Option, none, some, if◌then◌else◌,
  Bool-cases, Option-cases, inl, inr,
}
use pggat.Base.Eq.{string_eq, ◌=?◌}
use pggat.Base.Maps.{Map}
use pggat.Eqp.State.{Parse, State}
use pggat.Eqp.Sync.{keeps_statement, on_server, prepared_statements_equal}
use pggat.Eqp.Valid.{IsValid}
use pggat.Eqp.Writes.{each, statement_closes, statement_parses, sync_commands}
use pggat.Eqp.Replies.{accept_all}
use pggat.Eqp.Ranges.{each-keeps, each-reaches}
use pggat.Eqp.Match.{
  Agrees, on_server-Agrees, prepared_statements_equal_sym, Holds, First, four_loops, closes_reach,
  parses_reach, parses_one, closes_one, closes_none, portals-keep, has_own,
}

on_server-none : (p : Parse) → on_server none p ≡ false
unfolding on_server
on_server-none p = refl

module _ (c s : State) (vc : IsValid c) (vs : IsValid s) (n : String) where
  abbrev AfterSync : Option Parse → Type 0
  AfterSync o = Holds c s vc vs n o (accept_all (sync_commands c s) s.prepared_statements)

  first :
      (o : Option Parse) → s.prepared_statements.at n ≡ o → Holds c s vc vs n o (First c s vc vs n)
  first o e = portals-keep c s vc vs n o s.portals s.portals.keys s.prepared_statements e

  second :
      (o : Option Parse)
      → ((v : Parse)
          → s.prepared_statements.at n ≡ some v
          → keeps_statement n (c.prepared_statements.at n) v ≡ true)
      → (ps : Map String Parse) → Holds c s vc vs n o ps
      → Holds c s vc vs n o (
          accept_all
            (each s.prepared_statements (statement_closes c) s.prepared_statements.keys)
            ps)
  second o kept =
      each-keeps s.prepared_statements (statement_closes c) (Holds c s vc vs n o)
        (closes_one c s vc vs n o kept) s.prepared_statements.keys

  third :
      (o : Option Parse)
      → ((v : Parse)
          → c.prepared_statements.at n ≡ some v
          → on_server (s.prepared_statements.at n) v ≡ false
          → some v ≡ o)
      → (ps : Map String Parse) → Holds c s vc vs n o ps
      → Holds c s vc vs n o (
          accept_all
            (each c.prepared_statements (statement_parses s) c.prepared_statements.keys)
            ps)
  third o same =
      each-keeps c.prepared_statements (statement_parses s) (Holds c s vc vs n o)
        (parses_one c s vc vs n o same) c.prepared_statements.keys

  -- A statement that both have, and that is the same, stays.
  stays :
      (v p : Parse)
      → c.prepared_statements.at n ≡ some p
      → s.prepared_statements.at n ≡ some v
      → on_server (some v) p ≡ true
      → AfterSync (some v)
  unfolding keeps_statement on_server
  stays v p ec es same = four_loops c s vc vs n (some v) (
      third (some v)
        (λ w e other. absurd (
          true≢false (
            sym (
              ap (λ o. on_server o w) es
              ∙ (ap (on_server (some v)) (some-injective _ _ (sym e ∙ ec)) ∙ same))
            ∙ other)))
        _
        (second (some v)
          (λ w e. rw ec (
            let vw = some-injective _ _ (sym e ∙ es) in
            ap (λ b. if b then true else n =? "")
              (ap (λ u. prepared_statements_equal u p) vw
                ∙ prepared_statements_equal_sym p v same)))
          _ (first (some v) es)))

  -- A statement that only the server has is closed.
  closed :
      (v : Parse)
      → c.prepared_statements.at n ≡ none
      → s.prepared_statements.at n ≡ some v
      → AfterSync none
  unfolding keeps_statement
  closed v ec es = four_loops c s vc vs n none (
      third none (λ w e _. cc) _
        (each-reaches s.prepared_statements (statement_closes c) (Holds c s vc vs n none)
          (closes_none c s vc vs n) n v es (closes_reach c s vc vs n v (rw ec refl))
          s.prepared_statements.keys (has_own c s vc vs n s vs v es) (First c s vc vs n)))

  absent : c.prepared_statements.at n ≡ none → s.prepared_statements.at n ≡ none → AfterSync none
  absent ec es =
      four_loops c s vc vs n none
        (third none (λ w e _. cc) _ (second none (λ w e. cc) _ (first none es)))

  -- A statement that the server has not, or has with another query, is parsed.
  parsed :
      (p : Parse)
      → c.prepared_statements.at n ≡ some p
      → on_server (s.prepared_statements.at n) p ≡ false
      → AfterSync (some p)
  parsed p ec b = four_loops c s vc vs n (some p) (
      each-reaches c.prepared_statements (statement_parses s) (Holds c s vc vs n (some p))
        (parses_one c s vc vs n (some p) (λ v e _. sym e ∙ ec)) n p ec
        (parses_reach c s vc vs n p ec b) c.prepared_statements.keys (has_own c s vc vs n c vc p ec)
        _)

  Agrees-some :
      (p : Parse)
      → c.prepared_statements.at n ≡ some p
      → Agrees ((accept_all (sync_commands c s) s.prepared_statements).at n) (some p)
  unfolding Agrees
  Agrees-some p ec = elim (Bool-cases (on_server (s.prepared_statements.at n) p)) [
    | inl b ↦ elim (Option-cases (s.prepared_statements.at n)) [
      | inl es ↦ absurd (true≢false (sym b ∙ no_statement es))
      | inr (v, es) ↦
          let same = ap (λ o. on_server o p) (sym es) ∙ b in
          subst (λ o. Agrees o (some p)) (sym (stays v p ec es same)) (on_server-Agrees v p same)
    ]
    | inr b ↦ subst (λ o. Agrees o (some p)) (sym (parsed p ec b)) (p, (refl, (refl, refl)))
  ]
    where
      no_statement :
          s.prepared_statements.at n ≡ none → on_server (s.prepared_statements.at n) p ≡ false
      no_statement es = ap (λ o. on_server o p) es ∙ on_server-none p

  pub sync-Agrees :
      Agrees
        ((accept_all (sync_commands c s) s.prepared_statements).at n)
        (c.prepared_statements.at n)
  unfolding Agrees
  sync-Agrees = elim (Option-cases (c.prepared_statements.at n)) [
    | inl ec ↦ rw ec (elim (Option-cases (s.prepared_statements.at n)) [
      | inl es ↦ absent ec es
      | inr (v, es) ↦ closed v ec es
    ])
    | inr (p, ec) ↦ rw ec (Agrees-some p ec)
  ]
