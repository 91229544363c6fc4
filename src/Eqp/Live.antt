-- ===== src/Eqp/Live.antt =====
-- SyncMiddleware (lib/fed/middlewares/eqp/sync.go) on a connection that takes every write.
use Prim.Native.String.{String}
use pggat.Base.{
  ◌≡◌, refl, Bool, true, false, Option, none, some, List, [], ◌∷◌, Bool-cases, inl, inr,
}
use pggat.Base.Maps.{Map}
use pggat.Fed.Conn.{Error}
use pggat.Eqp.State.{Parse, State, c2s, close, push_close, parse, bind}
use pggat.Eqp.Sync.{
  Server, write_out, after_c2s, server_write, Loop, note_write, writing, then_run, visit, range,
  close_portal, keeps_statement, close_statement, on_server, parse_statement, bind_portal,
  sync_loops, finish, sync_middleware,
}
use pggat.Eqp.Writes.{Command, closes_portal, closes_statement, parses, binds, message}
use pggat.Eqp.Replies.{accepting_sync}

abbrev pub TakesAll : Bool × Server → Type 0
TakesAll a = a.1.faults ≡ []

unfoldable pub Goes : Option Error × (Bool × Server) → Type 0
Goes (none, a) = TakesAll a
Goes (some e, a) = ⊥

then_run-Goes :
    (r : Option Error × (Bool × Server)) (k : Loop)
    → Goes r
    → ((a : Bool × Server) → TakesAll a → Goes (k a))
    → Goes (then_run r k)
unfolding Goes
then_run-Goes (none, a) k g h = h a g
then_run-Goes (some e, a) k g h = absurd g

writing-Goes : (w : Command) (a : Bool × Server) → TakesAll a → Goes (writing (message w) a)
unfolding Goes writing server_write after_c2s message c2s close push_close parse bind write_out
    note_write
writing-Goes (closes_portal k) (needs, s) h = simp h refl
writing-Goes (closes_statement k) (needs, s) h = simp h refl
writing-Goes (parses p) (needs, s) h = simp h refl
writing-Goes (binds p) (needs, s) h = simp h refl

module _ {V : Type 0} (m : Map String V) (body : String → V → Loop)
    (h : (k : String) (v : V) (a : Bool × Server) → TakesAll a → Goes (body k v a)) where
  visit-Goes :
      (k : String) (o : Option V) (rest : Loop)
      → ((a : Bool × Server) → TakesAll a → Goes (rest a))
      → (a : Bool × Server) → TakesAll a
      → Goes (visit o (body k) rest a)
  unfolding visit
  visit-Goes k none rest r a t = r a t
  visit-Goes k (some v) rest r a t = then_run-Goes (body k v a) rest (h k v a t) r

  range-Goes : (ks : List String) (a : Bool × Server) → TakesAll a → Goes (range ks m body a)
  unfolding range Goes
  range-Goes [] a t = t
  range-Goes (k ∷ ks) a t = visit-Goes k (m.at k) (range ks m body) (range-Goes ks) a t

close_statement-Goes :
    (c : State) (k : String) (p : Parse) (a : Bool × Server)
    → TakesAll a
    → Goes (close_statement c k p a)
unfolding close_statement message Goes
close_statement-Goes c k p a t =
    elim (Bool-cases (keeps_statement k (c.prepared_statements.at k) p)) [
      | inl e ↦ rw e t
      | inr e ↦ rw e (writing-Goes (closes_statement k) a t)
    ]

parse_statement-Goes :
    (s : State) (k : String) (p : Parse) (a : Bool × Server)
    → TakesAll a
    → Goes (parse_statement s k p a)
unfolding parse_statement message Goes
parse_statement-Goes s k p a t = elim (Bool-cases (on_server (s.prepared_statements.at k) p)) [
  | inl e ↦ rw e t
  | inr e ↦ rw e (writing-Goes (parses p) a t)
]

pub sync_loops-Goes : (c : State) (s : Server) → s.faults ≡ [] → Goes (sync_loops c s)
unfolding sync_loops close_portal bind_portal message
sync_loops-Goes c s t =
    then_run-Goes _ _
      (range-Goes s.state.portals close_portal (λ k v. writing-Goes (closes_portal k))
        s.state.portals.keys (false, s) t)
      λ a ta.
        then_run-Goes _ _
          (range-Goes s.state.prepared_statements (close_statement c) (close_statement-Goes c)
            s.state.prepared_statements.keys a ta)
          λ b tb.
            then_run-Goes _ _
              (range-Goes c.prepared_statements (parse_statement s.state)
                (parse_statement-Goes s.state) c.prepared_statements.keys b tb)
              (range-Goes c.portals bind_portal (λ k v. writing-Goes (binds v)) c.portals.keys)

finish-Goes : (r : Option Error × (Bool × Server)) → Goes r → (finish accepting_sync r).0 ≡ none
unfolding finish Goes accepting_sync
finish-Goes (none, (true, s)) g = refl
finish-Goes (none, (false, s)) g = refl
finish-Goes (some e, s) g = absurd g

-- On a connection that takes every write, with a server that accepts what it is sent,
-- SyncMiddleware returns no error.
pub sync_middleware_succeeds :
    (c : State) (s : Server) → s.faults ≡ [] → (sync_middleware accepting_sync c s).0 ≡ none
unfolding sync_middleware
sync_middleware_succeeds c s t = finish-Goes (sync_loops c s) (sync_loops-Goes c s t)
