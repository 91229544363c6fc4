-- ===== src/Eqp/Tests.antt =====
-- The theorems on lib/fed/middlewares/eqp at a client and a server that share one statement of two.
use Prim.Native.String.{String}
use pggat.Base.{◌≡◌, refl, none, List, [], ◌∷◌}
use pggat.Base.Eq.{string_eq}
use pggat.Fed.Conn.{ok}
use pggat.Eqp.State.{
  Parse, Bind, State, c2s, s2c, set_state, new_state, parse_packet, close_complete_packet,
  parse_complete_packet, parse, parse_complete, parse_front,
}
use pggat.Eqp.Valid.{IsValid, new_state-IsValid, c2s-IsValid, s2c-IsValid}
use pggat.Eqp.Sync.{Server, sync_middleware}
use pggat.Eqp.Replies.{accepting_sync}
use pggat.Eqp.Match.{Agrees}
use pggat.Eqp.Outcome.{IsQuiet, sync_middleware-Agrees}
use pggat.Eqp.Live.{sync_middleware_succeeds}
use pggat.Eqp.Writes.{parses, binds, closes_statement, closes_portal}
use pggat.Eqp.Turns.{Turn, sends, completes, readies, turns, new_backend, Follows, turns-Follows}
use pggat.Eqp.Refuse.{strict_sync, IsDistinct}
use pggat.Eqp.Strict.{sync_middleware_strict}
use pggat.Base.Maps.{put, has_key}
use pggat.Eqp.Copy.{set_state_copies}

abbrev select_one : Parse
select_one = record { destination = "a"; query = "select 1"; parameter_data_types = [] }

abbrev select_two : Parse
select_two = record { destination = "b"; query = "select $1"; parameter_data_types = 23 ∷ [] }

abbrev select_other : Parse
select_other = record { destination = "b"; query = "select 3"; parameter_data_types = [] }

abbrev prepare : Parse → State → State
prepare p t = (s2c parse_complete_packet (c2s (parse_packet (ok p)) t).1).1

prepare-IsValid : (p : Parse) (t : State) → IsValid t → IsValid (prepare p t)
prepare-IsValid p t v =
    s2c-IsValid parse_complete_packet (c2s (parse_packet (ok p)) t).1
      (c2s-IsValid (parse_packet (ok p)) t v)

abbrev client : State
client = prepare select_two (prepare select_one new_state)

abbrev server : Server
server = record {
  state = prepare select_other (prepare select_one new_state);
  faults = [];
  unanswered = [];
}

client-IsValid : IsValid client
client-IsValid =
    prepare-IsValid select_two (prepare select_one new_state)
      (prepare-IsValid select_one new_state new_state-IsValid)

server-IsValid : IsValid server.state
server-IsValid =
    prepare-IsValid select_other (prepare select_one new_state)
      (prepare-IsValid select_one new_state new_state-IsValid)

server-IsQuiet : IsQuiet server
unfolding c2s s2c parse parse_complete parse_front
server-IsQuiet = record { no_parses = refl; no_binds = refl; no_closes = refl; no_packets = refl }

s2c-IsValid_example : IsValid (s2c close_complete_packet client).1
s2c-IsValid_example = s2c-IsValid close_complete_packet client client-IsValid

sync_middleware-Agrees_example :
    Agrees
      ((sync_middleware accepting_sync client server).1.state.prepared_statements.at "b")
      (client.prepared_statements.at "b")
sync_middleware-Agrees_example =
    sync_middleware-Agrees client server server-IsQuiet client-IsValid server-IsValid
      (sync_middleware_succeeds client server refl) "b"

set_state_copies_example :
    ((name : String)
      → ((set_state server.state client).prepared_statements.at name
          ≡ client.prepared_statements.at name)
        × ((set_state server.state client).portals.at name ≡ client.portals.at name))
    × ((set_state server.state client).pending_prepared_statements
        ≡ client.pending_prepared_statements)
    × ((set_state server.state client).pending_portals ≡ client.pending_portals)
    × ((set_state server.state client).pending_closes ≡ client.pending_closes)
set_state_copies_example = set_state_copies server.state client server-IsValid client-IsValid

-- A portal of the first statement.
abbrev portal_one : Bind
portal_one = record {
  destination = "p";
  source = "a";
  format_codes = [];
  parameters = [];
  result_format_codes = [];
}

-- Two statements and a portal, of which the second statement fails.
abbrev some_turns : List Turn
some_turns =
    sends (parses select_one)
    ∷ sends (binds portal_one)
    ∷ completes
    ∷ sends (parses select_two)
    ∷ completes
    ∷ readies b'T'
    ∷ sends (closes_statement "b")
    ∷ completes
    ∷ sends (closes_portal "q")
    ∷ []

turns-Follows_example :
    Follows
      (turns (new_state, new_backend) some_turns).0
      (turns (new_state, new_backend) some_turns).1
turns-Follows_example = turns-Follows some_turns

client-IsDistinct : IsDistinct client.prepared_statements.keys
unfolding IsDistinct has_key c2s s2c parse parse_complete parse_front put
client-IsDistinct = (refl, (refl, tt))

sync_middleware_strict_example :
    ((sync_middleware strict_sync client server).0 ≡ none)
    × ((sync_middleware strict_sync client server).1.unanswered ≡ [])
sync_middleware_strict_example =
    sync_middleware_strict client server server-IsQuiet client-IsValid server-IsValid
      client-IsDistinct refl
