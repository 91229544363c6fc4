-- ===== src/Backends/Binding.antt =====
-- lib/bouncer/backends/v0/context.go: a server bound to the peer that it serves. The pointer
-- `Peer` is the Boolean `peer` (is it set?) and the connection that it points to. The guards
-- against a nil receiver are left out: every caller passes the address of a binding.
use pggat.Base.{ℕ, Bool, true, false, ◌&&◌, Option, none, some, if◌then◌else◌}
use pggat.Fed.Conn.{
  Packet, Error, unexpected_packet, Result, ok, err, Conn, read_packet, write_packet,
}

pub record Binding : Type 0 where
  pub server : Conn
  pub peer : Bool
  pub peer_conn : Conn
  pub packet : Packet
  pub peer_error : Option Error
  pub tx_state : ℕ

abbrev pub is_nil : Option Error → Bool
is_nil none = true
is_nil (some e) = false

unfoldable pub err_unexpected_packet : Binding → Error
err_unexpected_packet b = unexpected_packet b.packet.typ

-- On an error the packet becomes nil; no caller looks at it then, and it is left here.
took_server : Binding → Result Packet × Conn → Option Error × Binding
took_server b (ok p, c) = (none, record b { server = c; packet = p })
took_server b (err e, c) = (some e, record b { server = c })

unfoldable pub server_read : Binding → Option Error × Binding
unfolding took_server
server_read b = took_server b (read_packet b.server)

unfoldable pub server_write : Binding → Option Error × Binding
server_write b = let (e, c) = write_packet b.server b.packet in (e, record b { server = c })

unfoldable pub peer_ok : Binding → Bool
peer_ok b = b.peer && is_nil b.peer_error

unfoldable pub peer_fail : Error → Binding → Binding
peer_fail e b = record b { peer = false; peer_error = some e }

took_peer : Binding → Result Packet × Conn → Bool × Binding
unfolding peer_fail
took_peer b (ok p, c) = (true, record b { peer_conn = c; packet = p })
took_peer b (err e, c) = (false, peer_fail e (record b { peer_conn = c }))

unfoldable pub peer_read : Binding → Bool × Binding
unfolding peer_ok took_peer
peer_read b = if peer_ok b then took_peer b (read_packet b.peer_conn) else (false, b)

wrote_peer : Binding → Option Error × Conn → Binding
unfolding peer_fail
wrote_peer b (none, c) = record b { peer_conn = c }
wrote_peer b (some e, c) = peer_fail e (record b { peer_conn = c })

unfoldable pub peer_write : Binding → Binding
unfolding peer_ok wrote_peer
peer_write b = if peer_ok b then wrote_peer b (write_packet b.peer_conn b.packet) else b
