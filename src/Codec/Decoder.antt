-- ===== src/Codec/Decoder.antt =====
-- lib/fed/decoder.go. `buffer` is the part of the buffer between bufferRead and bufferWrite. The reader
-- gives the chunks of its list, as much of one at a time as there is space for, and io.EOF after them:
-- it gives no bytes together with an error, which io.Reader would allow.
-- `packet_end` is packetLength + 4, the length that a packet carries, since packetLength may be negative.
use pggat.Base.{
  ℕ, zero, suc, ◌+◌, ◌-◌, Bool, true, false, Option, none, some, List, [], ◌∷◌, ◌++◌, length, take,
  drop, get_or, ◌==◌, ltb, leb, if◌then◌else◌,
}
use pggat.Codec.{default_buffer_size}
use pggat.Codec.Bytes.{from_big_endian}

pub data Error : Type 0 where
  nil eof unexpected_eof overran_read_buffer out_of_fuel : Error

pub record Decoder : Type 0 where
  pub buffer : List ℕ
  pub buffer_read : ℕ
  pub reader : List (List ℕ)
  pub packet_type : ℕ
  pub packet_end : ℕ
  pub packet_pos : ℕ
  pub decode_buf : List ℕ

-- `Reset`, of a new decoder in `NewDecoder`.
unfoldable pub reset : Decoder → List (List ℕ) → Decoder
reset d r = record d { packet_end = 4; packet_pos = 0; buffer = []; buffer_read = 0; reader = r }

unfoldable pub new_decoder : List (List ℕ) → Decoder
new_decoder r = record {
  buffer = [];
  buffer_read = 0;
  reader = r;
  packet_type = 0;
  packet_end = 4;
  packet_pos = 0;
  decode_buf = 0 ∷ 0 ∷ 0 ∷ 0 ∷ 0 ∷ 0 ∷ 0 ∷ 0 ∷ [];
}

-- bufferWrite.
abbrev pub buffer_write : Decoder → ℕ
buffer_write d = d.buffer_read + length d.buffer

-- `T.reader.Read` of up to `n` bytes: the bytes, the error, and the chunks that are left.
pub record Chunk : Type 0 where
  pub bytes : List ℕ
  pub error : Error
  pub rest : List (List ℕ)

abbrev pub left_over : List ℕ → List (List ℕ) → List (List ℕ)
left_over [] cs = cs
left_over (b ∷ bs) cs = (b ∷ bs) ∷ cs

unfoldable pub read_chunk : ℕ → List (List ℕ) → Chunk
read_chunk n [] = record { bytes = []; error = eof; rest = [] }
read_chunk n (c ∷ cs) = record { bytes = take n c; error = nil; rest = left_over (drop n c) cs }

-- `refill` reads into what is left of the buffer behind bufferWrite.
unfoldable pub refill : Decoder → Error × Decoder
refill d =
    let c = read_chunk (default_buffer_size - buffer_write d) d.reader in
    if leb default_buffer_size (buffer_write d)
    then (nil, d)
    else (c.error, record d { buffer = d.buffer ++ c.bytes; reader = c.rest })

-- `n` bytes more are read off the buffer, and an empty buffer starts again at 0.
abbrev pub restart_at : List ℕ → ℕ → ℕ
restart_at [] n = 0
restart_at (b ∷ bs) n = n

unfoldable pub take_off : ℕ → Decoder → Decoder
take_off n d = record d {
  buffer = drop n d.buffer;
  buffer_read = restart_at (drop n d.buffer) (d.buffer_read + n);
}

-- What `read` and `readFull` of a slice give: the bytes read, the error, and the decoder.
pub record Bytes : Type 0 where
  pub bytes : List ℕ
  pub error : Error
  pub decoder : Decoder

-- `copy(b, buffer[read:write])` of a slice of length `n`.
unfoldable pub copy_buffer : ℕ → Error → Decoder → Bytes
copy_buffer n err d = record {
  bytes = take n d.buffer;
  error = err;
  decoder = take_off (length (take n d.buffer)) d;
}

-- `read`: from the buffer if it has bytes, past the buffer if the slice is longer, else after a refill.
unfoldable pub read_into : ℕ → Decoder → Bytes
read_into zero d = record { bytes = []; error = nil; decoder = d }
read_into (suc n) d =
    let c = read_chunk (suc n) d.reader in
    let f = refill d in
    if ltb 0 (buffer_write d)
    then copy_buffer (suc n) nil d
    else (if ltb default_buffer_size (suc n)
        then record { bytes = c.bytes; error = c.error; decoder = record d { reader = c.rest } }
        else copy_buffer (suc n) f.0 f.1)

-- The loop of `readFull`, after `done` bytes.
unfoldable pub after_read : ℕ → Bytes → Error → Bytes → Bytes
after_read done r nil rest = record {
  bytes = r.bytes ++ rest.bytes;
  error = rest.error;
  decoder = rest.decoder;
}
after_read done r eof rest = record r {
  error = if done + length r.bytes == 0 then eof else unexpected_eof;
}
after_read done r unexpected_eof rest = r
after_read done r overran_read_buffer rest = r
after_read done r out_of_fuel rest = r

unfoldable pub read_full : ℕ → ℕ → ℕ → Decoder → Bytes
read_full zero done n d = record { bytes = []; error = out_of_fuel; decoder = d }
read_full (suc fuel) done zero d = record { bytes = []; error = nil; decoder = d }
read_full (suc fuel) done (suc n) d =
    let r = read_into (suc n) d in
    after_read done r r.error
      (read_full fuel (done + length r.bytes) (suc n - length r.bytes) r.decoder)

-- A round takes a byte or a chunk.
abbrev pub rounds : ℕ → Decoder → ℕ
rounds n d = suc (n + length d.reader)

unfoldable pub read_all : ℕ → Decoder → Bytes
read_all n d = read_full (rounds n d) 0 n d

-- What was read stands at the front of decodeBuf, before what was there already.
unfoldable pub overwrite : List ℕ → List ℕ → List ℕ
overwrite bs buf = bs ++ drop (length bs) buf

-- `Uint8` to `Uint64`, with the number of bytes. The position moves on an error too, and the number is
-- then of what decodeBuf still has behind the bytes that were read.
unfoldable pub uint : ℕ → Decoder → ℕ × (Error × Decoder)
uint n d =
    let r = read_all n d in
    let buf = overwrite r.bytes d.decode_buf in
    (
      from_big_endian 0 (take n buf),
      (r.error, record (r.decoder) { packet_pos = (r.decoder).packet_pos + n; decode_buf = buf }),
    )

-- The loop of `discard`. A buffer that is emptied is refilled even when no byte is left to discard.
unfoldable pub refill_then : Error × Decoder → (Decoder → Error × Decoder) → Error × Decoder
refill_then (nil, d) f = f d
refill_then (eof, d) f = (eof, d)
refill_then (unexpected_eof, d) f = (unexpected_eof, d)
refill_then (overran_read_buffer, d) f = (overran_read_buffer, d)
refill_then (out_of_fuel, d) f = (out_of_fuel, d)

unfoldable pub discard : ℕ → ℕ → Decoder → Error × Decoder
discard zero n d = (out_of_fuel, d)
discard (suc fuel) zero d = (nil, d)
discard (suc fuel) (suc n) d =
    let left = suc n - length d.buffer in
    let emptied = take_off (length d.buffer) d in
    let more = refill_then (refill emptied) (discard fuel left) in
    let first = refill_then (refill d) (discard fuel (suc n)) in
    if ltb 0 (buffer_write d)
    then (if ltb (suc n) (length d.buffer) then (nil, take_off (suc n) d) else more)
    else first

-- The bytes of the packet that have not been read are discarded; it is an error to have read more.
unfoldable pub finish_packet : Decoder → Error × Decoder
finish_packet d =
    let rem = d.packet_end - (d.packet_pos + 4) in
    let rest = discard (rounds (rem + 1) d) rem d in
    if ltb d.packet_end (d.packet_pos + 4)
    then (overran_read_buffer, d)
    else (if rem == 0 then (nil, d) else rest)

-- The header of a packet: its type, if it has one, and its length.
unfoldable pub header : Bool → Bytes → Error → Error × Decoder
header true r nil = (
  nil,
  record (r.decoder) {
    packet_type = get_or r.bytes 0 0;
    packet_end = from_big_endian 0 (drop 1 r.bytes);
    packet_pos = 0;
  },
)
header false r nil = (
  nil,
  record (r.decoder) { packet_type = 0; packet_end = from_big_endian 0 r.bytes; packet_pos = 0 },
)
header typed r eof = (eof, r.decoder)
header typed r unexpected_eof = (unexpected_eof, r.decoder)
header typed r overran_read_buffer = (overran_read_buffer, r.decoder)
header typed r out_of_fuel = (out_of_fuel, r.decoder)

-- The length stands at index 1 of decodeBuf, behind the type or a zero.
unfoldable pub kept : Bool → Decoder → Bytes → Bytes
kept typed d r = record r {
  decoder = record (r.decoder) {
    decode_buf = overwrite (if typed then r.bytes else 0 ∷ r.bytes) d.decode_buf;
  };
}

unfoldable pub next_header : Bool → Decoder → Error × Decoder
next_header typed d =
    let r = read_all (if typed then 5 else 4) d in header typed (kept typed d r) r.error

unfoldable pub next_packet : Bool → Decoder → Error × Decoder
next_packet typed d = refill_then (finish_packet d) (next_header typed)

-- `ReadByte`, outside of a packet.
unfoldable pub raw_byte : Error × Decoder → ℕ × (Error × Decoder)
raw_byte (nil, d) =
    let r = read_all 1 (record d { packet_type = 0; packet_end = 4; packet_pos = 0 }) in
    (
      from_big_endian 0 r.bytes,
      (r.error, record (r.decoder) { decode_buf = overwrite r.bytes d.decode_buf }),
    )
raw_byte (eof, d) = (0, (eof, d))
raw_byte (unexpected_eof, d) = (0, (unexpected_eof, d))
raw_byte (overran_read_buffer, d) = (0, (overran_read_buffer, d))
raw_byte (out_of_fuel, d) = (0, (out_of_fuel, d))

unfoldable pub read_raw_byte : Decoder → ℕ × (Error × Decoder)
read_raw_byte d = raw_byte (finish_packet d)

-- The first zero of the buffer.
abbrev pub next_index : Option ℕ → Option ℕ
next_index none = none
next_index (some i) = some (suc i)

unfoldable pub index_zero : List ℕ → Option ℕ
index_zero [] = none
index_zero (zero ∷ bs) = some 0
index_zero (suc b ∷ bs) = next_index (index_zero bs)

-- `String` gives the text before a zero, built of `builder` and what stands in the buffer.
pub record Text : Type 0 where
  pub text : List ℕ
  pub error : Error
  pub decoder : Decoder

abbrev pub move_pos : ℕ → Decoder → Decoder
move_pos n d = record d { packet_pos = d.packet_pos + n }

abbrev pub cleared : Decoder → Decoder
cleared d = record d { buffer = []; buffer_read = 0 }

-- After the scan for a zero: the text ends, or all of the buffer is part of it and `rest` goes on.
unfoldable pub scanned : List ℕ → Decoder → Text → Option ℕ → Text
scanned builder d rest none = rest
scanned builder d rest (some i) =
    let text = builder ++ take i d.buffer in
    record { text = text; error = nil; decoder = move_pos (length text + 1) (take_off (suc i) d) }

unfoldable pub refilled : List ℕ → Error × Decoder → (Decoder → Text) → Text
refilled builder (nil, d) f = f d
refilled builder (eof, d) f = record {
  text = builder;
  error = eof;
  decoder = move_pos (length builder) d;
}
refilled builder (unexpected_eof, d) f = record {
  text = builder;
  error = unexpected_eof;
  decoder = move_pos (length builder) d;
}
refilled builder (overran_read_buffer, d) f = record {
  text = builder;
  error = overran_read_buffer;
  decoder = move_pos (length builder) d;
}
refilled builder (out_of_fuel, d) f = record {
  text = builder;
  error = out_of_fuel;
  decoder = move_pos (length builder) d;
}

-- The loop, with an empty buffer.
unfoldable pub text_loop : ℕ → List ℕ → Decoder → Text
text_loop zero builder d = record { text = builder; error = out_of_fuel; decoder = d }
text_loop (suc fuel) builder d = refilled builder (refill d) (λ e.
    scanned builder e (text_loop fuel (builder ++ e.buffer) (cleared e)) (index_zero e.buffer))

-- A round takes a byte or a chunk off the reader.
abbrev pub left_bytes : List (List ℕ) → ℕ
left_bytes [] = 0
left_bytes (c ∷ cs) = suc (length c + left_bytes cs)

unfoldable pub string : Decoder → Text
string d =
    let first : Error × Decoder = if buffer_write d == 0 then refill d else (nil, d) in
    refilled [] first (λ e.
      scanned [] e (text_loop (suc (left_bytes e.reader)) e.buffer (cleared e))
        (index_zero e.buffer))
