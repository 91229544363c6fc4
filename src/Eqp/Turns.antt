-- ===== src/Eqp/Turns.antt =====
-- The middleware of lib/fed/middlewares/eqp/state.go between a client that pipelines its packets and a
-- backend that executes them in their order.
use Prim.Native.String.{String}
use pggat.Base.{
  ℕ, ◌≡◌, refl, ap, subst, sym, ◌∙◌, Option, none, some, List, [], ◌∷◌, ◌++◌, ◌==◌, if◌then◌else◌,
  Bool-cases, inl, inr,
}
use pggat.Base.Eq.{string_eq, ◌=?◌}
use pggat.Base.Maps.{Map, put, del, delete_keys-clears}
use pggat.Fed.Conn.{ok}
use pggat.Eqp.State.{
  Parse, Bind, State, new_state, c2s, s2c, ready_for_query_packet, ready_for_query, clear_pending,
  clobber_portals,
}
use pggat.Eqp.Valid.{IsValid, Tables, new_state-IsValid, s2c-IsValid}
use pggat.Eqp.Writes.{Command, closes_portal, closes_statement, parses, binds, message}
use pggat.Eqp.Replies.{answer, waiting, pend_one, read_one, accept, accept_portal}

-- What the backend has under each name, and the commands that it has not executed yet.
pub record Backend : Type 0 where
  pub statement : String → Option Parse
  pub portal : String → Option Bind
  pub unanswered : List Command

abbrev pub new_backend : Backend
new_backend = record { statement = λ k. none; portal = λ k. none; unanswered = [] }

unfoldable pub execute : Command → Backend → Backend
execute (parses p) b = record b {
  statement = λ k. if k =? p.destination then some p else b.statement k;
}
execute (closes_statement n) b = record b {
  statement = λ k. if k =? n then none else b.statement k;
}
execute (binds p) b = record b { portal = λ k. if k =? p.destination then some p else b.portal k }
execute (closes_portal n) b = record b { portal = λ k. if k =? n then none else b.portal k }

-- The client sends a command; the backend executes the oldest one and completes it; or it gives up
-- all that are open, and says that it is ready, with its status.
pub data Turn : Type 0 where
  sends : Command → Turn
  completes : Turn
  readies : ℕ → Turn

abbrev pub complete_front : State → Backend → List Command → State × Backend
complete_front t b [] = (t, b)
complete_front t b (w ∷ ws) =
    ((s2c (answer (message w)) t).1, execute w (record b { unanswered = ws }))

unfoldable pub turn : State × Backend → Turn → State × Backend
turn (t, b) (sends w) = ((c2s (message w) t).1, record b { unanswered = b.unanswered ++ (w ∷ []) })
turn (t, b) completes = complete_front t b b.unanswered
turn (t, b) (readies status) = (
  (s2c (ready_for_query_packet (ok status)) t).1,
  record b { portal = if status == b'I' then (λ k. none) else b.portal; unanswered = [] },
)

unfoldable pub turns : State × Backend → List Turn → State × Backend
turns s [] = s
turns s (x ∷ xs) = turns (turn s x) xs

-- The tables of the middleware are those of the backend, and its rings hold what is open.
pub record Follows (t : State) (b : Backend) : Type 0 where
  pub statements : (k : String) → t.prepared_statements.at k ≡ b.statement k
  pub portals : (k : String) → t.portals.at k ≡ b.portal k
  pub pending : t ≡ waiting b.unanswered t.prepared_statements t.portals
  pub tables : IsValid t

execute-Follows :
    (w : Command) (ps : Map String Parse) (qs : Map String Bind) (ws : List Command) (b : Backend)
    → ((k : String) → ps.at k ≡ b.statement k)
    → ((k : String) → qs.at k ≡ b.portal k)
    → Tables (accept w ps) (accept_portal w qs)
    → Follows
        (waiting ws (accept w ps) (accept_portal w qs))
        (execute w (record b { unanswered = ws }))
unfolding execute accept accept_portal put del
execute-Follows (parses p) ps qs ws b hp hq v = record {
  statements = λ k. ap (λ o. if k =? p.destination then some p else o) (hp k);
  portals = hq;
  pending = refl;
  tables = v;
}
execute-Follows (closes_statement n) ps qs ws b hp hq v = record {
  statements = λ k. ap (λ o. if k =? n then none else o) (hp k);
  portals = hq;
  pending = refl;
  tables = v;
}
execute-Follows (binds p) ps qs ws b hp hq v = record {
  statements = hp;
  portals = λ k. ap (λ o. if k =? p.destination then some p else o) (hq k);
  pending = refl;
  tables = v;
}
execute-Follows (closes_portal n) ps qs ws b hp hq v = record {
  statements = hp;
  portals = λ k. ap (λ o. if k =? n then none else o) (hq k);
  pending = refl;
  tables = v;
}

complete_front-Follows :
    (t : State) (b : Backend) (os : List Command)
    → b.unanswered ≡ os
    → Follows t b
    → Follows (complete_front t b os).0 (complete_front t b os).1
complete_front-Follows t b [] e f = f
complete_front-Follows t b (w ∷ ws) e f =
    let ps = t.prepared_statements in
    let qs = t.portals in
    let m = answer (message w) in
    let now : (s2c m t).1 ≡ waiting ws (accept w ps) (accept_portal w qs) =
      ap (λ u. (s2c m u).1) (f.pending ∙ ap (λ os. waiting os ps qs) e) ∙ read_one w ws ps qs in
    subst (λ u. Follows u (execute w (record b { unanswered = ws }))) (sym now)
      (execute-Follows w ps qs ws b f.statements f.portals
        (subst IsValid now (s2c-IsValid m t f.tables)))

ready-Follows :
    (t : State) (b : Backend) (status : ℕ)
    → Follows t b
    → Follows (turn (t, b) (readies status)).0 (turn (t, b) (readies status)).1
unfolding turn s2c ready_for_query clear_pending clobber_portals
ready-Follows t b status f =
    let valid = s2c-IsValid (ready_for_query_packet (ok status)) t f.tables in
    elim (Bool-cases (status == b'I')) [
      | inl idle ↦ rw idle (record {
        statements = f.statements;
        portals = λ k. delete_keys-clears t.portals k f.tables.portals;
        pending = refl;
        tables =
            subst (λ c. IsValid (clear_pending (if c then clobber_portals t else t))) idle valid;
      })
      | inr busy ↦ rw busy (record {
        statements = f.statements;
        portals = f.portals;
        pending = refl;
        tables = f.tables;
      })
    ]

turn-Follows :
    (t : State) (b : Backend) (x : Turn) → Follows t b → Follows (turn (t, b) x).0 (turn (t, b) x).1
unfolding turn
turn-Follows t b (sends w) f =
    let ps = t.prepared_statements in
    let qs = t.portals in
    let now : (c2s (message w) t).1 ≡ waiting (b.unanswered ++ (w ∷ [])) ps qs =
      ap (λ u. (c2s (message w) u).1) f.pending ∙ pend_one ps qs b.unanswered w in
    subst (λ u. Follows u (record b { unanswered = b.unanswered ++ (w ∷ []) })) (sym now)
      (record { statements = f.statements; portals = f.portals; pending = refl; tables = f.tables })
turn-Follows t b completes f = complete_front-Follows t b b.unanswered refl f
turn-Follows t b (readies status) f = ready-Follows t b status f

turns_from-Follows :
    (t : State) (b : Backend) (xs : List Turn)
    → Follows t b
    → Follows (turns (t, b) xs).0 (turns (t, b) xs).1
unfolding turns
turns_from-Follows t b [] f = f
turns_from-Follows t b (x ∷ xs) f =
    turns_from-Follows (turn (t, b) x).0 (turn (t, b) x).1 xs (turn-Follows t b x f)

-- A client sends Parse, Bind and Close packets at any time, and a backend executes them in their order,
-- completing each, or gives up all that are open with a ReadyForQuery. From the new state on, after any
-- such sequence, the middleware has under each name the prepared statement and the portal that the
-- backend has, and its rings hold the packets of each kind that are still open.
pub turns-Follows :
    (xs : List Turn)
    → Follows (turns (new_state, new_backend) xs).0 (turns (new_state, new_backend) xs).1
turns-Follows xs = turns_from-Follows new_state new_backend xs (record {
  statements = λ k. refl;
  portals = λ k. refl;
  pending = refl;
  tables = new_state-IsValid;
})
