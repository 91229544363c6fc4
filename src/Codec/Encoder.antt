-- ===== src/Codec/Encoder.antt =====
-- lib/fed/encoder.go. `buffer` is the part of the buffer below bufferPos; the writer has the bytes that it
-- was given so far and the outcomes of its next writes, which succeed when the list is at its end.
use pggat.Base.{
  ℕ, zero, suc, ◌+◌, ◌-◌, ◌%◌, ◌^◌, Bool, true, false, List, [], ◌∷◌, ◌++◌, length, take, drop,
  ◌==◌, ltb, leb, if◌then◌else◌,
}
use pggat.Codec.{default_buffer_size}
use pggat.Codec.Bytes.{big_endian}

pub data Error : Type 0 where
  nil wrong_number_of_bytes write_failed out_of_fuel : Error

pub record Writer : Type 0 where
  pub written : List ℕ
  pub outcomes : List Bool

pub record Encoder : Type 0 where
  pub buffer : List ℕ
  pub writer : Writer
  pub packet_type : ℕ
  pub packet_length : ℕ
  pub packet_pos : ℕ

-- `NewEncoder`.
unfoldable pub new_encoder : Writer → Encoder
new_encoder w = record {
  buffer = [];
  writer = w;
  packet_type = 0;
  packet_length = 0;
  packet_pos = 0;
}

unfoldable pub reset : Encoder → Writer → Encoder
reset e w = record e { buffer = []; writer = w }

-- `if err := …; err != nil { return err }`, and the rest.
abbrev pub and_then : Error × Encoder → (Encoder → Error × Encoder) → Error × Encoder
and_then (nil, e) f = f e
and_then (wrong_number_of_bytes, e) f = (wrong_number_of_bytes, e)
and_then (write_failed, e) f = (write_failed, e)
and_then (out_of_fuel, e) f = (out_of_fuel, e)

-- The write of the buffer, whose position is reset whatever comes of it.
unfoldable pub write_buffer : Encoder → List Bool → Error × Encoder
write_buffer e [] = (
  nil,
  record e {
    buffer = [];
    writer = record { written = e.writer.written ++ e.buffer; outcomes = [] };
  },
)
write_buffer e (true ∷ os) = (
  nil,
  record e {
    buffer = [];
    writer = record { written = e.writer.written ++ e.buffer; outcomes = os };
  },
)
write_buffer e (false ∷ os) =
    (write_failed, record e { buffer = []; writer = record (e.writer) { outcomes = os } })

unfoldable pub flush : Encoder → Error × Encoder
flush e = if length e.buffer == 0 then (nil, e) else write_buffer e e.writer.outcomes

-- `if T.bufferPos+n > len(T.buffer) { Flush }`.
unfoldable pub need_room : ℕ → Encoder → Error × Encoder
need_room n e = if ltb default_buffer_size (length e.buffer + n) then flush e else (nil, e)

abbrev pub put_bytes : List ℕ → Encoder → Error × Encoder
put_bytes bs e = (nil, record e { buffer = e.buffer ++ bs })

unfoldable pub write_byte : ℕ → Encoder → Error × Encoder
write_byte b e = and_then (need_room 1 e) (put_bytes (b ∷ []))

abbrev pub advance_pos : ℕ → Encoder → Error × Encoder
advance_pos n e = (nil, record e { packet_pos = e.packet_pos + n })

-- `WriteByte`: a byte outside of a packet.
unfoldable pub write_raw_byte : ℕ → Encoder → Error × Encoder
write_raw_byte b e =
    if e.packet_pos == e.packet_length
    then write_byte b (record e { packet_type = 0; packet_length = 0; packet_pos = 0 })
    else (wrong_number_of_bytes, e)

-- The type, if it is not 0, and the length with its own four bytes.
unfoldable pub write_type : ℕ → Encoder → Error × Encoder
write_type typ e = if typ == 0 then (nil, e) else write_byte typ e

unfoldable pub next_packet : ℕ → ℕ → Encoder → Error × Encoder
next_packet typ len e =
    if e.packet_pos == e.packet_length
    then and_then (write_type typ e) (λ f. and_then (need_room 4 f) (λ g. (
      nil,
      record g {
        buffer = g.buffer ++ big_endian 4 ((len + 4) % 2 ^ 32);
        packet_type = typ;
        packet_length = len;
        packet_pos = 0;
      },
    )))
    else (wrong_number_of_bytes, e)

-- `Uint8` counts its byte even when the write fails.
unfoldable pub uint8 : ℕ → Encoder → Error × Encoder
uint8 v e = let r = write_byte v e in (r.0, record (r.1) { packet_pos = (r.1).packet_pos + 1 })

unfoldable pub uint16 : ℕ → Encoder → Error × Encoder
uint16 v e = and_then (need_room 2 e) (λ f. and_then (put_bytes (big_endian 2 v) f) (advance_pos 2))

unfoldable pub uint32 : ℕ → Encoder → Error × Encoder
uint32 v e = and_then (need_room 4 e) (λ f. and_then (put_bytes (big_endian 4 v) f) (advance_pos 4))

unfoldable pub uint64 : ℕ → Encoder → Error × Encoder
uint64 v e = and_then (need_room 8 e) (λ f. and_then (put_bytes (big_endian 8 v) f) (advance_pos 8))

-- The loop of `String`: what fits is copied, and a full buffer is flushed.
unfoldable pub copy_text : List ℕ → Encoder → Error × Encoder
copy_text bs e = (nil, record e { buffer = e.buffer ++ bs; packet_pos = e.packet_pos + length bs })

unfoldable pub flush_full : Encoder → Error × Encoder
flush_full e = if leb default_buffer_size (length e.buffer) then flush e else (nil, e)

unfoldable pub string_loop : ℕ → List ℕ → Encoder → Error × Encoder
string_loop zero v e = (out_of_fuel, e)
string_loop (suc fuel) [] e = (nil, e)
string_loop (suc fuel) (b ∷ v) e =
    let room = default_buffer_size - length e.buffer in
    and_then (copy_text (take room (b ∷ v)) e)
      (λ f. and_then (flush_full f) (string_loop fuel (drop room (b ∷ v))))

-- A round makes room or copies a byte.
unfoldable pub string : List ℕ → Encoder → Error × Encoder
string v e =
    and_then (string_loop (length v + 2) v e) (λ f. and_then (write_byte 0 f) (advance_pos 1))
