-- ===== src/Eqp/Sync.antt =====
-- lib/fed/middlewares/eqp/sync.go. The server connection has the middleware `Server` (server.go) as
-- its only one: what is written passes `C2S`, and what is read passes `S2C`.
use Prim.Native.String.{String}
use pggat.Base.{Bool, true, false, Option, none, some, List, [], ◌∷◌, ◌++◌, if◌then◌else◌, not}
use pggat.Base.Eq.{nat_eq, string_eq, ◌=?◌}
use pggat.Base.Maps.{Map}
use pggat.Slices.{equal}
use pggat.Fed.Conn.{Error, Result, ok, err}
use pggat.Eqp.State.{Parse, Bind, Message, close_packet, parse_packet, bind_packet, State, c2s}

pub record Server : Type 0 where
  pub state : State
  -- What the next writes return, where `none` is success; after them, success.
  pub faults : List (Option Error)
  -- The packets written since the server was last synchronised, the first one first.
  pub unanswered : List Message

unfoldable pub write_out : List (Option Error) → Message → Server → Option Error × Server
write_out [] m s = (none, record s { unanswered = s.unanswered ++ (m ∷ []) })
write_out (none ∷ rest) m s =
    (none, record s { faults = rest; unanswered = s.unanswered ++ (m ∷ []) })
write_out (some e ∷ rest) m s = (some e, record s { faults = rest })

unfoldable pub after_c2s : Result Message × State → Server → Option Error × Server
after_c2s (err e, t) s = (some e, record s { state = t })
after_c2s (ok m, t) s = write_out s.faults m (record s { state = t })

-- `server.WritePacket`.
unfoldable pub server_write : Message → Server → Option Error × Server
server_write m s = after_c2s (c2s m s.state) s

unfoldable pub prepared_statements_equal : Parse → Parse → Bool
prepared_statements_equal a b =
    if not (a.query =? b.query) then false else equal a.parameter_data_types b.parameter_data_types

-- The loops carry `needsBackendSync`; the first component is the error that they return with.
abbrev pub Loop : Type 0
Loop = Bool × Server → Option Error × (Bool × Server)

unfoldable pub note_write : Bool → Option Error × Server → Option Error × (Bool × Server)
note_write needs (none, s) = (none, (true, s))
note_write needs (some e, s) = (some e, (needs, s))

unfoldable pub writing : Message → Loop
writing m (needs, s) = note_write needs (server_write m s)

abbrev pub then_run : Option Error × (Bool × Server) → Loop → Option Error × (Bool × Server)
then_run (none, s) k = k s
then_run (some e, s) k = (some e, s)

-- `for name, value := range m { body }`.
unfoldable pub visit : {V : Type 0} → Option V → (V → Loop) → Loop → Loop
visit none body rest s = rest s
visit (some v) body rest s = then_run (body v s) rest

unfoldable pub range : {V : Type 0} → List String → Map String V → (String → V → Loop) → Loop
range [] m body s = (none, s)
range (k ∷ ks) m body s = visit (m.at k) (body k) (range ks m body) s

unfoldable pub close_portal : String → Bind → Loop
close_portal name _ = writing (close_packet (ok (b'P', name)))

-- The guards that `continue` in the loop over the server's statements.
unfoldable pub keeps_statement : String → Option Parse → Parse → Bool
keeps_statement name none statement = false
keeps_statement name (some client_statement) statement =
    if prepared_statements_equal statement client_statement then true else name =? ""

unfoldable pub close_statement : State → String → Parse → Loop
close_statement c name statement s =
    if keeps_statement name (c.prepared_statements.at name) statement
    then (none, s)
    else writing (close_packet (ok (b'S', name))) s

unfoldable pub on_server : Option Parse → Parse → Bool
on_server none statement = false
on_server (some server_statement) statement = prepared_statements_equal statement server_statement

unfoldable pub parse_statement : State → String → Parse → Loop
parse_statement s name statement w =
    if on_server (s.prepared_statements.at name) statement
    then (none, w)
    else writing (parse_packet (ok statement)) w

unfoldable pub bind_portal : String → Bind → Loop
bind_portal _ portal = writing (bind_packet (ok portal))

-- The four loops. They read the tables of the server, which no packet that they write changes.
unfoldable pub sync_loops : State → Server → Option Error × (Bool × Server)
sync_loops c server =
    let s = server.state in
    then_run (range s.portals.keys s.portals close_portal (false, server)) λ a.
      then_run (range s.prepared_statements.keys s.prepared_statements (close_statement c) a) λ b.
        then_run (range c.prepared_statements.keys c.prepared_statements (parse_statement s) b)
          λ d. range c.portals.keys c.portals bind_portal d

-- `backends_sync` is `backends.Sync(ctx, server, nil)`, which sends Sync and reads up to
-- ReadyForQuery.
unfoldable pub finish :
    (Server → Option Error × Server) → Option Error × (Bool × Server) → Option Error × Server
finish backends_sync (none, (needs, s)) = if needs then backends_sync s else (none, s)
finish backends_sync (some e, (needs, s)) = (some e, s)

unfoldable pub sync_middleware :
    (Server → Option Error × Server) → State → Server → Option Error × Server
sync_middleware backends_sync c server = finish backends_sync (sync_loops c server)
