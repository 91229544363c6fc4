-- ===== src/Eqp/State.antt =====
-- lib/fed/middlewares/eqp/state.go. The three rings of pending packets are lists, the front first;
-- `Ring.Deque` relates a ring to the list of its contents.
use Prim.Native.String.{String}
use pggat.Base.{ℕ, Option, List, [], ◌∷◌, ◌++◌, ◌==◌, if◌then◌else◌}
use pggat.Base.Eq.{string_eq, ◌=?◌}
use pggat.Base.Maps.{Map, no_entries, put, del, delete_keys, copy_keys}
use pggat.Fed.Conn.{invalid_format, Result, ok, err}

pub record Parse : Type 0 where
  pub destination : String
  pub query : String
  pub parameter_data_types : List ℕ

pub record Bind : Type 0 where
  pub destination : String
  pub source : String
  pub format_codes : List ℕ
  pub parameters : List (Option (List ℕ))
  pub result_format_codes : List ℕ

pub data CloseVariant : Type 0 where
  close_variant_prepared_statement close_variant_portal : CloseVariant

pub record Close : Type 0 where
  pub variant : CloseVariant
  pub target : String

-- A packet with what `fed.ToConcrete` makes of it: its fields, or an error of the decoder.
pub data Message : Type 0 where
  close_packet : Result (ℕ × String) → Message
  parse_packet : Result Parse → Message
  bind_packet : Result Bind → Message
  query_packet close_complete_packet parse_complete_packet bind_complete_packet : Message
  command_complete_packet : Result String → Message
  ready_for_query_packet : Result ℕ → Message
  other_packet : ℕ → Message

pub record State : Type 0 where
  pub prepared_statements : Map String Parse
  pub portals : Map String Bind
  pub pending_prepared_statements : List Parse
  pub pending_portals : List Bind
  pub pending_closes : List Close

abbrev pub new_state : State
new_state = record {
  prepared_statements = no_entries;
  portals = no_entries;
  pending_prepared_statements = [];
  pending_portals = [];
  pending_closes = [];
}

unfoldable pub push_close : CloseVariant → ℕ → String → State → Result Message × State
push_close v which name t = (
  ok (close_packet (ok (which, name))),
  record t { pending_closes = t.pending_closes ++ (record { variant = v; target = name } ∷ []) },
)

unfoldable pub close : Result (ℕ × String) → State → Result Message × State
close (err e) t = (err e, t)
close (ok (which, name)) t =
    if which == b'S'
    then push_close close_variant_prepared_statement which name t
    else (if which == b'P'
        then push_close close_variant_portal which name t
        else (err invalid_format, t))

unfoldable pub close_target : CloseVariant → String → State → State
close_target close_variant_portal name t = record t { portals = del name t.portals }
close_target close_variant_prepared_statement name t = record t {
  prepared_statements = del name t.prepared_statements;
}

-- Each `…_front` is what follows the `PopFront` of a ring.
unfoldable pub close_front : List Close → State → State
close_front [] t = t
close_front (c ∷ rest) t = close_target c.variant c.target (record t { pending_closes = rest })

unfoldable pub close_complete : State → State
close_complete t = close_front t.pending_closes t

unfoldable pub parse : Result Parse → State → Result Message × State
parse (err e) t = (err e, t)
parse (ok p) t = (
  ok (parse_packet (ok p)),
  record t { pending_prepared_statements = t.pending_prepared_statements ++ (p ∷ []) },
)

unfoldable pub parse_front : List Parse → State → State
parse_front [] t = t
parse_front (p ∷ rest) t = record t {
  pending_prepared_statements = rest;
  prepared_statements = put p.destination p t.prepared_statements;
}

unfoldable pub parse_complete : State → State
parse_complete t = parse_front t.pending_prepared_statements t

unfoldable pub bind : Result Bind → State → Result Message × State
bind (err e) t = (err e, t)
bind (ok p) t =
    (ok (bind_packet (ok p)), record t { pending_portals = t.pending_portals ++ (p ∷ []) })

unfoldable pub bind_front : List Bind → State → State
bind_front [] t = t
bind_front (p ∷ rest) t = record t {
  pending_portals = rest;
  portals = put p.destination p t.portals;
}

unfoldable pub bind_complete : State → State
bind_complete t = bind_front t.pending_portals t

unfoldable pub query : State → State
query t = record t {
  portals = del "" t.portals;
  prepared_statements = del "" t.prepared_statements;
}

-- `Clear` of the three rings.
unfoldable pub clear_pending : State → State
clear_pending t = record t {
  pending_prepared_statements = [];
  pending_portals = [];
  pending_closes = [];
}

-- `maps.Clear` of the two maps.
unfoldable pub clear_maps : State → State
clear_maps t = record t {
  prepared_statements = delete_keys t.prepared_statements.keys t.prepared_statements;
  portals = delete_keys t.portals.keys t.portals;
}

unfoldable pub command_complete : Result String → State → Result Message × State
command_complete (err e) t = (err e, t)
command_complete (ok p) t = (
  ok (command_complete_packet (ok p)),
  if p =? "DISCARD ALL" then clear_pending (clear_maps t) else t,
)

unfoldable pub clobber_portals : State → State
clobber_portals t = record t { portals = delete_keys t.portals.keys t.portals }

unfoldable pub ready_for_query : Result ℕ → State → Result Message × State
ready_for_query (err e) t = (err e, t)
ready_for_query (ok p) t =
    (ok (ready_for_query_packet (ok p)), clear_pending (if p == b'I' then clobber_portals t else t))

-- Packets from the client to the server.
unfoldable pub c2s : Message → State → Result Message × State
c2s (close_packet p) t = close p t
c2s (parse_packet p) t = parse p t
c2s (bind_packet p) t = bind p t
c2s query_packet t = (ok query_packet, query t)
c2s m t = (ok m, t)

-- Packets from the server to the client.
unfoldable pub s2c : Message → State → Result Message × State
s2c close_complete_packet t = (ok close_complete_packet, close_complete t)
s2c parse_complete_packet t = (ok parse_complete_packet, parse_complete t)
s2c bind_complete_packet t = (ok bind_complete_packet, bind_complete t)
s2c (command_complete_packet p) t = command_complete p t
s2c (ready_for_query_packet p) t = ready_for_query p t
s2c m t = (ok m, t)

-- `Set`: the loops over the three rings push every value of the other ring.
unfoldable pub set_state : State → State → State
set_state t other =
    let c = clear_pending (clear_maps t) in
    record c {
      prepared_statements =
          copy_keys other.prepared_statements.keys other.prepared_statements c.prepared_statements;
      portals = copy_keys other.portals.keys other.portals c.portals;
      pending_prepared_statements =
          c.pending_prepared_statements ++ other.pending_prepared_statements;
      pending_portals = c.pending_portals ++ other.pending_portals;
      pending_closes = c.pending_closes ++ other.pending_closes;
    }
