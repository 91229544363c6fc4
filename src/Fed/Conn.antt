-- ===== src/Fed/Conn.antt =====
-- A connection of lib/fed/conn.go as its users see it: what successive calls of `ReadPacket` and
-- `WritePacket` return is given by the two lists, and the packets that went through are recorded. The
-- chain of middlewares that a packet passes is left out: a result is what the chain makes of it.
use pggat.Base.{ℕ, Option, none, some, List, [], ◌∷◌}

-- A packet is its type byte and the bytes of its payload.
pub record Packet : Type 0 where
  pub typ : ℕ
  pub payload : List ℕ

-- `eof` stands for a connection that has nothing more to read, and `io` for any other failure of a
-- connection or a decoder.
pub data Error : Type 0 where
  eof : Error
  io : ℕ → Error
  unexpected_packet : ℕ → Error
  expected_idle : Error
  invalid_format : Error

pub data Result {ℓ} (A : Type ℓ) : Type ℓ where
  ok : A → Result A
  err : Error → Result A

pub record Conn : Type 0 where
  -- What the next reads return; after them, `eof`.
  pub incoming : List (Result Packet)
  -- What the next writes return, where `none` is success; after them, success.
  pub faults : List (Option Error)
  -- The packets read and written so far, the last one first.
  pub received : List Packet
  pub sent : List Packet

read_from : Conn → List (Result Packet) → Result Packet × Conn
read_from c [] = (err eof, c)
read_from c (ok p ∷ rest) = (ok p, record c { incoming = rest; received = p ∷ c.received })
read_from c (err e ∷ rest) = (err e, record c { incoming = rest })

unfoldable pub read_packet : Conn → Result Packet × Conn
unfolding read_from
read_packet c = read_from c c.incoming

write_to : Conn → Packet → List (Option Error) → Option Error × Conn
write_to c p [] = (none, record c { sent = p ∷ c.sent })
write_to c p (none ∷ rest) = (none, record c { faults = rest; sent = p ∷ c.sent })
write_to c p (some e ∷ rest) = (some e, record c { faults = rest })

unfoldable pub write_packet : Conn → Packet → Option Error × Conn
unfolding write_to
write_packet c p = write_to c p c.faults
