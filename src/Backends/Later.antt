-- ===== src/Backends/Later.antt =====
-- What every step of lib/bouncer/backends/v0 keeps: nothing is put back on a connection to be read
-- again, and a peer that is gone stays gone and is written to no more.
use pggat.Base.{
  ℕ, ◌+◌, ◌≤◌, ◌<◌, ◌≡◌, refl, ◌⊎◌, true, false, Option, none, some, List, ◌∷◌, length, arith,
}
use pggat.Fed.Conn.{Packet, Error, ok, Conn, read_packet, write_packet}
use pggat.Backends.Binding.{Binding, server_read, server_write, peer_fail, peer_read, peer_write}
use pggat.Backends.Query.{Out, done, failed, out_of_fuel, Step, unless_failed, and_then, returning}

-- How many reads are left before both connections are at their end.
abbrev pub measure : Binding → ℕ
measure b = length b.server.incoming + length b.peer_conn.incoming

pub record Later (b c : Binding) : Type 0 where
  pub shrinks : measure c ≤ measure b
  pub gone : (b.peer ≡ true) ⊎ ((c.peer ≡ false) × (c.peer_conn ≡ b.peer_conn))

pub Later-refl : (b : Binding) → Later b b
Later-refl b = record { shrinks = omega arith; gone = ground arith }

pub Later-trans : {a b c : Binding} → Later a b → Later b c → Later a c
Later-trans {a} {b} {c} h k = record {
  shrinks = omega (arith, h.shrinks, k.shrinks);
  gone = ground (arith, h.gone, k.gone);
}

read_packet_le : (c : Conn) → length (read_packet c).1.incoming ≤ length c.incoming
unfolding read_packet
read_packet_le c = ground arith

write_packet_incoming : (c : Conn) (p : Packet) → (write_packet c p).1.incoming ≡ c.incoming
unfolding write_packet
write_packet_incoming c p = ground arith

pub server_read-Later : (b : Binding) → Later b (server_read b).1
unfolding server_read
server_read-Later b = record {
  shrinks = ground (arith, read_packet_le b.server);
  gone = ground arith;
}

pub server_write-Later : (b : Binding) → Later b (server_write b).1
unfolding server_write
server_write-Later b = record {
  shrinks = ground (arith, write_packet_incoming b.server b.packet);
  gone = ground arith;
}

pub peer_fail-Later : (e : Error) (b : Binding) → Later b (peer_fail e b)
unfolding peer_fail
peer_fail-Later e b = record { shrinks = omega arith; gone = ground arith }

pub peer_read-Later : (b : Binding) → Later b (peer_read b).1
unfolding peer_read
peer_read-Later b = record {
  shrinks = ground (arith, read_packet_le b.peer_conn);
  gone = ground arith;
}

pub peer_write-Later : (b : Binding) → Later b (peer_write b)
unfolding peer_write
peer_write-Later b = record {
  shrinks = ground (arith, write_packet_incoming b.peer_conn b.packet);
  gone = ground arith;
}

-- A read that succeeds takes one packet off its connection.
read_packet_lt :
    (c : Conn) (p : Packet)
    → (read_packet c).0 ≡ ok p
    → length (read_packet c).1.incoming < length c.incoming
unfolding read_packet
read_packet_lt c p e = ground arith

pub server_read_lt :
    (b : Binding) → (server_read b).0 ≡ none → measure (server_read b).1 < measure b
unfolding server_read read_packet
server_read_lt b e = ground arith

pub peer_read_lt : (b : Binding) → (peer_read b).0 ≡ true → measure (peer_read b).1 < measure b
unfolding peer_read read_packet
peer_read_lt b e = ground arith

-- What a call from `b` came to: it returned, with `P` of what it returned, or it failed. In both
-- cases the binding is a later one; it never ran out of fuel.
abbrev pub Ends : {A : Type 0} → (A → Binding → Type 0) → Binding → Out A × Binding → Type 0
Ends P b (done a, c) = Later b c × P a c
Ends P b (failed e, c) = Later b c
Ends P b (out_of_fuel, c) = ⊥

pub Ends-Later :
    {A : Type 0} (P : A → Binding → Type 0) {a b : Binding} (r : Out A × Binding)
    → Later a b
    → Ends P b r
    → Ends P a r
Ends-Later P (done x, c) h (k, p) = (Later-trans h k, p)
Ends-Later P (failed e, c) h k = Later-trans h k
Ends-Later P (out_of_fuel, c) h k = k

pub and_then-Ends :
    {A B : Type 0} (P : A → Binding → Type 0) (Q : B → Binding → Type 0) (b : Binding)
    (r : Out A × Binding) (k : A → Step B)
    → Ends P b r
    → ((a : A) (c : Binding) → Later b c → P a c → Ends Q c (k a c))
    → Ends Q b (and_then r k)
and_then-Ends P Q b (done a, c) k (h, p) next = Ends-Later Q (k a c) h (next a c h p)
and_then-Ends P Q b (failed e, c) k h next = h
and_then-Ends P Q b (out_of_fuel, c) k h next = h

pub unless_failed-Ends :
    {B : Type 0} (Q : B → Binding → Type 0) (b : Binding) (r : Option Error × Binding) (k : Step B)
    → Later b r.1
    → (r.0 ≡ none → Ends Q r.1 (k r.1))
    → Ends Q b (unless_failed r k)
unless_failed-Ends Q b (none, c) k h next = Ends-Later Q (k c) h (next refl)
unless_failed-Ends Q b (some e, c) k h next = h

pub returning-Ends :
    {A : Type 0} (P : A → Binding → Type 0) (a : A) (b : Binding) (r : Option Error × Binding)
    → Later b r.1
    → P a r.1
    → Ends P b (returning a r)
returning-Ends P a b (none, c) h p = (h, p)
returning-Ends P a b (some e, c) h p = h

-- Setting the packet or the transaction state reads nothing.
pub set_packet-Later : (p : Packet) (b : Binding) → Later b (record b { packet = p })
set_packet-Later p b = record { shrinks = omega arith; gone = ground arith }

pub set_ready-Later :
    (p : Packet) (s : ℕ) (b : Binding) → Later b (record b { packet = p; tx_state = s })
set_ready-Later p s b = record { shrinks = omega arith; gone = ground arith }

-- The peer's side leaves the server's alone.
pub peer_write-server :
    (b : Binding) → ((peer_write b).server ≡ b.server) × ((peer_write b).tx_state ≡ b.tx_state)
unfolding peer_write
peer_write-server b = ground arith

pub peer_read-server :
    (b : Binding) → ((peer_read b).1.server ≡ b.server) × ((peer_read b).1.tx_state ≡ b.tx_state)
unfolding peer_read
peer_read-server b = ground arith

-- After a read the packet is the last one that the server sent.
abbrev pub Heard : Binding → Type 0
Heard b = (rest : List Packet) × (b.server.received ≡ b.packet ∷ rest)

pub server_read-Heard : (b : Binding) → (server_read b).0 ≡ none → Heard (server_read b).1
unfolding server_read read_packet
server_read-Heard b e = (b.server.received, ground (arith, e))
