-- ===== src/Backends/Tests.antt =====
-- Runs of lib/bouncer/backends/v0/query.go, and its theorems at concrete connections.
use pggat.Base.{ℕ, ◌≡◌, ◌≢◌, refl, true, false, List, [], ◌∷◌, ◌++◌, arith, some}
use pggat.Base.Eq.{nat_eq}
use pggat.Base.Text.{codes}
use pggat.Slices.{contains}
use pggat.Fed.Types
use pggat.Fed.Conn.{Packet, Result, ok, Conn, read_packet, write_packet}
use pggat.Backends.Binding.{server_read, server_write, peer_read, peer_write, peer_ok, peer_fail}
use pggat.Backends.Query.{
  done, out_of_fuel, query, query_loop, query_switch, query_string, ready_case, on_ready,
  ready_state, text_packet,
}
use pggat.Backends.Sync.{
  transaction, transaction_loop, transaction_switch, transaction_read, after_switch,
}
use pggat.Backends.Parameter.{set_query, set_query-read_quoted}
use pggat.Strutil.Laws.{read_quoted}
use pggat.Backends.Transaction.{transaction_ends, transaction_idle, transaction_no_peer}

abbrev plain : ℕ → Packet
plain t = record { typ = t; payload = [] }

abbrev ready : ℕ → Packet
ready s = record { typ = Types.type_ready_for_query; payload = s ∷ [] }

abbrev serving : List (Result Packet) → Conn
serving l = record { incoming = l; faults = []; received = []; sent = [] }

-- The server opens a transaction, and is idle again after the abort.
abbrev aborting : Conn
aborting = serving (
    ok (plain Types.type_command_complete)
    ∷ ok (ready b'T')
    ∷ ok (plain Types.type_command_complete)
    ∷ ok (ready b'I')
    ∷ [])

-- The peer has nothing more to say.
abbrev leaving : Conn
leaving = serving []

abbrev begin_query : Packet
begin_query = text_packet Types.type_query (codes "BEGIN;")

aborted : (transaction 9 aborting true leaving begin_query).0 ≡ done tt
unfolding transaction transaction_loop transaction_switch transaction_read after_switch query
    query_loop query_switch query_string ready_case on_ready ready_state server_read server_write
    peer_read peer_write peer_ok peer_fail read_packet write_packet contains
aborted = refl

-- With no peer at all.
aborted_alone : (transaction 9 aborting false leaving begin_query).0 ≡ done tt
unfolding transaction transaction_loop transaction_switch transaction_read after_switch query
    query_loop query_switch query_string ready_case on_ready ready_state server_read server_write
    peer_read peer_write peer_ok peer_fail read_packet write_packet contains
aborted_alone = refl

transaction_ends_example : (transaction 9 aborting true leaving begin_query).0 ≢ out_of_fuel
transaction_ends_example = transaction_ends 9 aborting true leaving begin_query (omega arith)

transaction_idle_example :
    let b = (transaction 9 aborting true leaving begin_query).1 in
    (b.tx_state ≡ b'I')
    × ((p : Packet) × (rest : List Packet) × (b.server.received ≡ p ∷ rest)
        × (p.typ ≡ Types.type_ready_for_query)
        × (ready_state p ≡ ok b'I'))
transaction_idle_example =
    transaction_idle 9 aborting true leaving begin_query (omega arith) aborted

transaction_no_peer_example :
    ((transaction 9 aborting false leaving begin_query).1.peer ≡ false)
    × ((transaction 9 aborting false leaving begin_query).1.peer_conn ≡ leaving)
transaction_no_peer_example =
    transaction_no_peer 9 aborting false leaving begin_query (omega arith) refl

set_query-read_quoted_example :
    (quoted : List ℕ) × (after : List ℕ) × (set_query (codes "search_path") (codes "it's")
      ≡ codes "SET \"" ++ quoted)
    × (read_quoted b'"' false quoted ≡ some (codes "search_path", codes " = '" ++ after))
    × (read_quoted b'\'' false after ≡ some (codes "it's", []))
set_query-read_quoted_example = set_query-read_quoted (codes "search_path") (codes "it's")
