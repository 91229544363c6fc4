-- ===== src/Codec/Trip.antt =====
-- A packet that lib/fed/encoder.go writes is read back by lib/fed/decoder.go.
use pggat.Base.{
  ℕ, ◌+◌, ◌%◌, ◌^◌, ◌<◌, ◌≡◌, ◌≢◌, refl, sym, List, [], ◌∷◌, ◌++◌, length, ≡→==, ≢→==, arith,
}
use pggat.Codec.Bytes.{big_endian}
use pggat.Codec.Encoder
use pggat.Codec.Encoder.{
  Encoder, Writer, new_encoder, and_then, flush, need_room, write_type, write_byte, uint8, uint16,
  uint32, uint64, string,
}
use pggat.Codec.Sent.{
  sent, IsReady, Sends, Sends-then, append_nil, room-Sends, write_byte-Sends, uint8-Sends,
  uint16-Sends, uint32-Sends, uint64-Sends,
}
use pggat.Codec.Decoder
use pggat.Codec.SentText.{string-Sends}
use pggat.Codec.Text.{NoZero}
use pggat.Codec.Decoder.{
  Decoder, new_decoder, uint, refill_then, finish_packet, header, next_header, read_all, rounds,
}

-- The unsigned integers and the texts of a packet.
pub data Value : Type 0 where
  u8 u16 u32 u64 : ℕ → Value
  text : List ℕ → Value

pub data Kind : Type 0 where
  k8 k16 k32 k64 k_text : Kind

abbrev pub kind : Value → Kind
kind (u8 v) = k8
kind (u16 v) = k16
kind (u32 v) = k32
kind (u64 v) = k64
kind (text s) = k_text

abbrev pub width : Value → ℕ
width (u8 v) = 1
width (u16 v) = 2
width (u32 v) = 4
width (u64 v) = 8
width (text s) = length s + 1

-- An integer is in its range, and a text has no zero.
abbrev pub Fits : Value → Type 0
Fits (u8 v) = v < 256
Fits (u16 v) = v < 65536
Fits (u32 v) = v < 4294967296
Fits (u64 v) = v < 18446744073709551616
Fits (text s) = NoZero s

abbrev pub InRange : List Value → Type 0
InRange [] = Unit
InRange (v ∷ vs) = Fits v × InRange vs

abbrev pub total : List Value → ℕ
total [] = 0
total (v ∷ vs) = width v + total vs

abbrev pub bytes_of : Value → List ℕ
bytes_of (u8 v) = v ∷ []
bytes_of (u16 v) = big_endian 2 v
bytes_of (u32 v) = big_endian 4 v
bytes_of (u64 v) = big_endian 8 v
bytes_of (text s) = s ++ (0 ∷ [])

abbrev pub all_bytes : List Value → List ℕ
all_bytes [] = []
all_bytes (v ∷ vs) = bytes_of v ++ all_bytes vs

-- The calls of the encoder for the values of a packet, and those of the decoder for values of these
-- kinds.
abbrev pub write_value : Value → Encoder → Encoder.Error × Encoder
write_value (u8 v) = uint8 v
write_value (u16 v) = uint16 v
write_value (u32 v) = uint32 v
write_value (u64 v) = uint64 v
write_value (text s) = string s

abbrev pub write_values : List Value → Encoder → Encoder.Error × Encoder
write_values [] e = (Encoder.nil, e)
write_values (v ∷ vs) e = and_then (write_value v e) (write_values vs)

abbrev pub write_packet : ℕ → List Value → Encoder → Encoder.Error × Encoder
write_packet typ vs e =
    and_then (Encoder.next_packet typ (total vs) e) (λ f. and_then (write_values vs f) flush)

abbrev pub read_value : Kind → Decoder → Value × (Decoder.Error × Decoder)
read_value k8 d = let r = uint 1 d in (u8 r.0, r.1)
read_value k16 d = let r = uint 2 d in (u16 r.0, r.1)
read_value k32 d = let r = uint 4 d in (u32 r.0, r.1)
read_value k64 d = let r = uint 8 d in (u64 r.0, r.1)
read_value k_text d = let r = Decoder.string d in (text r.text, (r.error, r.decoder))

abbrev pub read_values : List Kind → Decoder → List Value × (Decoder.Error × Decoder)
read_values [] d = ([], (Decoder.nil, d))
read_values (k ∷ ks) d =
    let r = read_value k d in
    let rest = read_values ks r.1.1 in ((r.0 ∷ rest.0), refill_then r.1 (λ f. rest.1))

write_value-Sends : (v : Value) (e : Encoder) → IsReady e → Sends e (bytes_of v) (write_value v e)
write_value-Sends (u8 v) e ready = uint8-Sends e v ready
write_value-Sends (u16 v) e ready = uint16-Sends e v ready
write_value-Sends (u32 v) e ready = uint32-Sends e v ready
write_value-Sends (u64 v) e ready = uint64-Sends e v ready
write_value-Sends (text s) e ready = string-Sends e s ready

pub write_values-Sends :
    (vs : List Value) (e : Encoder) → IsReady e → Sends e (all_bytes vs) (write_values vs e)
write_values-Sends [] e ready = record {
  state = e;
  returns = refl;
  stream = sym (append_nil (sent e));
  ready = ready;
}
write_values-Sends (v ∷ vs) e ready =
    Sends-then e (bytes_of v) (all_bytes vs) (write_value v e) (write_values vs)
      (write_value-Sends v e ready) (λ g r. write_values-Sends vs g r)

-- The header of a packet after one that is complete.
pub next_packet-Sends :
    (typ len : ℕ) (e : Encoder)
    → typ ≢ 0
    → e.packet_pos ≡ e.packet_length
    → IsReady e
    → Sends e ((typ ∷ []) ++ big_endian 4 ((len + 4) % 2 ^ 32)) (Encoder.next_packet typ len e)
unfolding Encoder.next_packet write_type
next_packet-Sends typ len e some complete ready =
    rw (≡→== e.packet_pos e.packet_length complete, ≢→== typ 0 some)
      (Sends-then e (typ ∷ []) (big_endian 4 ((len + 4) % 2 ^ 32)) (write_byte typ e) _
        (write_byte-Sends e typ ready)
        (λ g r.
          room-Sends g 4 (big_endian 4 ((len + 4) % 2 ^ 32))
            (λ f. record f {
              buffer = f.buffer ++ big_endian 4 ((len + 4) % 2 ^ 32);
              packet_type = typ;
              packet_length = len;
              packet_pos = 0;
            })
            (omega arith) refl r (λ f. (refl, refl))))
