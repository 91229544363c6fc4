-- ===== src/Eqp/Outcome.antt =====
-- SyncMiddleware (lib/fed/middlewares/eqp/sync.go) with a server that accepts what it is sent.
use Prim.Native.String.{String}
use pggat.Base.{
  ◌≡◌, refl, ap, sym, ◌∙◌, subst, Bool, true, false, true≢false, Option, none, some, List, [], ◌∷◌,
  ◌++◌, map,
}
use pggat.Base.Maps.{Map}
use pggat.Fed.Conn.{Error, ok}
use pggat.Eqp.State.{
  Parse, Bind, Message, State, s2c, ready_for_query, ready_for_query_packet, clear_pending,
  clobber_portals,
}
use pggat.Eqp.Sync.{Server, finish, sync_loops, sync_middleware}
use pggat.Eqp.Valid.{IsValid}
use pggat.Eqp.Writes.{
  Command, sync_commands, message, Writes, Wrote, sync_loops-Writes, pend_all, nonempty,
}
use pggat.Eqp.Replies.{
  accept_all, accept_portals, accepting_sync, answer, read_all, waiting, same_pending,
  pend_all-answers,
}
use pggat.Eqp.Match.{Agrees}
use pggat.Eqp.Synced.{sync-Agrees}

-- Nothing waits for an answer of the server, as after every ReadyForQuery.
pub record IsQuiet (s : Server) : Type 0 where
  pub no_parses : s.state.pending_prepared_statements ≡ []
  pub no_binds : s.state.pending_portals ≡ []
  pub no_closes : s.state.pending_closes ≡ []
  pub no_packets : s.unanswered ≡ []

idle : List Message
idle = ready_for_query_packet (ok b'I') ∷ []

read_idle :
    (ps : Map String Parse) (qs : Map String Bind)
    → (read_all idle (waiting [] ps qs)).prepared_statements ≡ ps
unfolding read_all idle s2c ready_for_query clear_pending clobber_portals
read_idle ps qs = refl

module _ (c : State) (s : Server) (quiet : IsQuiet s) where
  pub starts : s.state ≡ waiting [] s.state.prepared_statements s.state.portals
  starts =
      same_pending s.state.prepared_statements s.state.portals _ _ _ _ _ _ quiet.no_parses
        quiet.no_binds quiet.no_closes

  abbrev Left : Map String Parse → Type 0
  Left ps = ps ≡ accept_all (sync_commands c s.state) s.state.prepared_statements

  answered :
      (needs : Bool) (t : Server)
      → Wrote (sync_commands c s.state) (false, s) (needs, t)
      → Left (accepting_sync t).1.state.prepared_statements
  unfolding accepting_sync idle
  answered needs t w =
      let ws = sync_commands c s.state in
      let ps = s.state.prepared_statements in
      let qs = s.state.portals in
      ap (λ ms. (read_all (map answer ms ++ idle) t.state).prepared_statements)
        (w.unanswered ∙ ap (λ l. l ++ map message ws) quiet.no_packets)
      ∙ (ap (λ u. (read_all (map answer (map message ws) ++ idle) u).prepared_statements)
            (w.state ∙ ap (pend_all ws) starts)
          ∙ (ap (λ u. u.prepared_statements) (pend_all-answers ws idle ps qs)
              ∙ read_idle (accept_all ws ps) (accept_portals ws qs)))

  nothing_written :
      (ws : List Command) (t : State)
      → nonempty ws ≡ false
      → t ≡ pend_all ws s.state
      → t.prepared_statements ≡ accept_all ws s.state.prepared_statements
  unfolding pend_all accept_all
  nothing_written [] t e h = ap (λ u. u.prepared_statements) h
  nothing_written (w ∷ ws) t e h = absurd (true≢false e)

  finished :
      (r : Option Error × (Bool × Server))
      → Writes (sync_commands c s.state) (false, s) r
      → (finish accepting_sync r).0 ≡ none
      → Left (finish accepting_sync r).1.state.prepared_statements
  unfolding finish Writes
  finished (some e, t) w h = cc
  finished (none, (true, t)) w h = answered true t w
  finished (none, (false, t)) w h = nothing_written _ t.state (sym w.needs) w.state

  -- With a server that waits for nothing and accepts what it is sent, a SyncMiddleware that returns
  -- no error leaves under every name what the client has there: no prepared statement, or one
  -- with the client's query and parameter types. Both states have their tables in order.
  pub sync_middleware-Agrees :
      IsValid c
      → IsValid s.state
      → (sync_middleware accepting_sync c s).0 ≡ none
      → (name : String)
      → Agrees
          ((sync_middleware accepting_sync c s).1.state.prepared_statements.at name)
          (c.prepared_statements.at name)
  unfolding sync_middleware
  sync_middleware-Agrees vc vs h name =
      subst (λ ps. Agrees (ps.at name) (c.prepared_statements.at name))
        (sym (finished (sync_loops c s) (sync_loops-Writes c s) h))
        (sync-Agrees c s.state vc vs name)
