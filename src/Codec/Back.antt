-- ===== src/Codec/Back.antt =====
-- A packet that lib/fed/encoder.go writes is read back by lib/fed/decoder.go.
use pggat.Base.{
  ℕ, ◌+◌, ◌-◌, ◌%◌, ◌^◌, ◌<◌, ◌≡◌, ◌≢◌, refl, ap, ap₂, sym, subst, ◌∙◌, Bool, true, List, [], ◌∷◌,
  ◌++◌, length, drop, get_or, ≡→==, le→ltb, arith, map,
}
use mathlib.Core.List.{append_assoc}
use pggat.Codec.{default_buffer_size}
use pggat.Codec.Bytes.{big_endian, from_big_endian, trip_two, trip_four, trip_eight}
use pggat.Codec.Encoder
use pggat.Codec.Encoder.{Encoder, Writer, new_encoder, and_then, flush}
use pggat.Codec.Sent.{IsReady, append_nil, flush-Flushes}
use pggat.Codec.Decoder
use pggat.Codec.Decoder.{
  Decoder, Bytes, new_decoder, uint, refill_then, finish_packet, header, next_header, kept,
  read_all, rounds,
}
use pggat.Codec.Pending.{concat, pending, IsNormal, Fills}
use pggat.Codec.Fill.{read_full-Fills, uint-Takes, nothing}
use pggat.Codec.Text.{string-IsText}
use pggat.Codec.Trip.{
  Value, u8, u16, u32, u64, text, kind, Fits, InRange, total, bytes_of, all_bytes, write_values,
  write_packet, read_value, read_values, write_values-Sends, next_packet-Sends,
}

refill_then_nil :
    (p : Decoder.Error × Decoder) (f : Decoder → Decoder.Error × Decoder)
    → p.0 ≡ Decoder.nil
    → refill_then p f ≡ f p.1
unfolding refill_then
refill_then_nil (x, d) f e = rw e refl

-- A value is read off the stream.
pub record GetsOne (v : Value) (rest : List ℕ) (r : Value × (Decoder.Error × Decoder))
    : Type 0 where
  pub value : r.0 ≡ v
  pub error : r.1.0 ≡ Decoder.nil
  pub stream : pending r.1.1 ≡ rest
  pub normal : IsNormal r.1.1

module _ (d : Decoder) (rest : List ℕ) (normal : IsNormal d) where
  integer-GetsOne :
      (n : ℕ) (k : ℕ → Value) (v : ℕ) (bs : List ℕ)
      → length bs ≡ n
      → from_big_endian 0 bs ≡ v
      → pending d ≡ bs ++ rest
      → GetsOne (k v) rest (k (uint n d).0, (uint n d).1)
  integer-GetsOne n k v bs len same e =
      let t = uint-Takes n d bs rest len e normal in
      record {
        value = ap k (t.value ∙ same);
        error = t.error;
        stream = t.stream;
        normal = t.normal;
      }

  read_value-GetsOne :
      (v : Value) → Fits v → pending d ≡ bytes_of v ++ rest → GetsOne v rest (read_value (kind v) d)
  read_value-GetsOne (u8 v) ok e = integer-GetsOne 1 u8 v (v ∷ []) refl (omega arith) e
  read_value-GetsOne (u16 v) ok e = integer-GetsOne 2 u16 v (big_endian 2 v) refl (trip_two v ok) e
  read_value-GetsOne (u32 v) ok e = integer-GetsOne 4 u32 v (big_endian 4 v) refl (trip_four v ok) e
  read_value-GetsOne (u64 v) ok e =
      integer-GetsOne 8 u64 v (big_endian 8 v) refl (trip_eight v ok) e
  read_value-GetsOne (text s) ok e =
      let t = string-IsText d s rest ok normal (e ∙ append_assoc s (0 ∷ []) rest) in
      record { value = ap text t.text; error = t.error; stream = t.stream; normal = t.normal }

-- The values are read off the stream.
pub record Gets (vs : List Value) (rest : List ℕ) (r : List Value × (Decoder.Error × Decoder))
    : Type 0 where
  pub values : r.0 ≡ vs
  pub error : r.1.0 ≡ Decoder.nil
  pub stream : pending r.1.1 ≡ rest

read_values-Gets :
    (vs : List Value) (d : Decoder) (rest : List ℕ)
    → InRange vs
    → pending d ≡ all_bytes vs ++ rest
    → IsNormal d
    → Gets vs rest (read_values (map kind vs) d)
read_values-Gets [] d rest ok e normal = record { values = refl; error = refl; stream = e }
read_values-Gets (v ∷ vs) d rest ok e normal =
    let r = read_value (kind v) d in
    let t =
      read_value-GetsOne d (all_bytes vs ++ rest) normal v ok.0
        (e ∙ append_assoc (bytes_of v) (all_bytes vs) rest) in
    let g = read_values-Gets vs r.1.1 rest ok.1 t.stream t.normal in
    let on = refill_then_nil r.1 (λ f. (read_values (map kind vs) r.1.1).1) t.error in
    record {
      values = ap₂ ◌∷◌ t.value g.values;
      error = ap (λ x. x.0) on ∙ g.error;
      stream = ap (λ x. pending x.1) on ∙ g.stream;
    }

-- The header is read off the stream.
pub record Heads (typ len : ℕ) (rest : List ℕ) (r : Decoder.Error × Decoder) : Type 0 where
  pub error : r.0 ≡ Decoder.nil
  pub packet_type : r.1.packet_type ≡ typ
  pub packet_end : r.1.packet_end ≡ len + 4
  pub packet_pos : r.1.packet_pos ≡ 0
  pub stream : pending r.1 ≡ rest
  pub normal : IsNormal r.1

header-Heads :
    (typ len : ℕ) (rest : List ℕ) (r : Bytes)
    → len + 4 < 2 ^ 32
    → Fills ((typ ∷ []) ++ big_endian 4 ((len + 4) % 2 ^ 32)) rest r
    → Heads typ len rest (header true r r.error)
unfolding header
header-Heads typ len rest r small f = rw f.error (record {
  error = refl;
  packet_type = ap (λ bs. get_or bs 0 0) f.bytes;
  packet_end = ap (λ bs. from_big_endian 0 (drop 1 bs)) f.bytes ∙ same;
  packet_pos = refl;
  stream = f.stream;
  normal = f.normal;
})
  where
    same : from_big_endian 0 (big_endian 4 ((len + 4) % 2 ^ 32)) ≡ len + 4
    same = trip_four ((len + 4) % 2 ^ 32) (omega arith) ∙ omega (arith, small)

finish_packet_complete :
    (d : Decoder) → d.packet_end ≡ d.packet_pos + 4 → finish_packet d ≡ (Decoder.nil, d)
unfolding finish_packet
finish_packet_complete d c =
    rw
      (
        le→ltb d.packet_end (d.packet_pos + 4) (omega (arith, c)),
        ≡→== (d.packet_end - (d.packet_pos + 4)) 0 (omega (arith, c)),
      )
      refl

read_five :
    (d : Decoder) (bs rest : List ℕ)
    → length bs ≡ 5
    → pending d ≡ bs ++ rest
    → IsNormal d
    → Fills bs rest (read_all 5 d)
unfolding read_all
read_five d bs rest len e normal =
    read_full-Fills (rounds 5 d) 0 5 d bs rest len e normal (omega arith)

kept-Fills :
    (typed : Bool) (d : Decoder) (bs rest : List ℕ) (r : Bytes)
    → Fills bs rest r
    → Fills bs rest (kept typed d r)
unfolding kept
kept-Fills typed d bs rest r f = record {
  error = f.error;
  bytes = f.bytes;
  stream = f.stream;
  normal = f.normal;
}

next_packet-Heads :
    (typ len : ℕ) (rest : List ℕ) (d : Decoder)
    → len + 4 < 2 ^ 32
    → d.packet_end ≡ d.packet_pos + 4
    → pending d ≡ (typ ∷ []) ++ (big_endian 4 ((len + 4) % 2 ^ 32) ++ rest)
    → IsNormal d
    → Heads typ len rest (Decoder.next_packet true d)
unfolding Decoder.next_packet next_header kept
next_packet-Heads typ len rest d small complete e normal =
    subst (Heads typ len rest)
      (sym (
        ap (λ p. refill_then p (next_header true)) (finish_packet_complete d complete)
        ∙ refill_then_nil (Decoder.nil, d) (next_header true) refl))
      (header-Heads typ len rest (kept true d (read_all 5 d)) small (
        kept-Fills true d header_bytes rest (read_all 5 d)
          (read_five d header_bytes rest refl e normal)))
  where
    header_bytes : List ℕ
    header_bytes = (typ ∷ []) ++ big_endian 4 ((len + 4) % 2 ^ 32)

-- A packet of this type and these values, and nothing else, is read from the decoder.
pub record IsRead (typ : ℕ) (vs : List Value) (d : Decoder) : Type 0 where
  pub heads : Heads typ (total vs) (all_bytes vs) (Decoder.next_packet true d)
  pub gets : Gets vs [] (read_values (map kind vs) (Decoder.next_packet true d).1)

-- The bytes of a packet, from a new encoder, when all has been flushed.
flushed-stream :
    (typ : ℕ) (vs : List Value) (w : Writer)
    → typ ≢ 0
    → w.written ≡ []
    → w.outcomes ≡ []
    → (e : Encoder) × ((write_packet typ vs (new_encoder w) ≡ (Encoder.nil, e))
        × (e.writer.written
            ≡ (typ ∷ []) ++ (big_endian 4 ((total vs + 4) % 2 ^ 32) ++ all_bytes vs)))
unfolding new_encoder
flushed-stream typ vs w some none reliable =
    let bs = (typ ∷ []) ++ big_endian 4 ((total vs + 4) % 2 ^ 32) in
    let start : IsReady (new_encoder w) = record { fits = omega arith; reliable = reliable } in
    let h = next_packet-Sends typ (total vs) (new_encoder w) some refl start in
    let v = write_values-Sends vs h.state h.ready in
    let f = flush-Flushes v.state default_buffer_size (omega arith) v.ready in
    (
      f.state,
      (
        ap (λ r. and_then r (λ g. and_then (write_values vs g) flush)) h.returns
            ∙ (ap (λ r. and_then r flush) v.returns ∙ f.returns),
        sym (append_nil f.state.writer.written)
            ∙ (ap (λ b. f.state.writer.written ++ b)
                  (sym (nothing f.state.buffer (omega (arith, f.room))))
                ∙ (f.stream
                    ∙ (v.stream
                        ∙ (ap (λ l. l ++ all_bytes vs) (h.stream ∙ ap (λ l. (l ++ []) ++ bs) none)
                            ∙ append_assoc (typ ∷ []) (big_endian 4 ((total vs + 4) % 2 ^ 32))
                                (all_bytes vs))))),
      ),
    )

-- A packet of unsigned integers and texts that a new encoder writes to a writer that does not fail is read back
-- whole: its type, its length and its values, and nothing is left of the stream, into whatever chunks the
-- network cuts it. The type is not 0, the integers are in range, the texts have no zero, and the length
-- of the packet fits in 32 bits.
pub packet_back :
    (typ : ℕ) (vs : List Value) (w : Writer)
    → typ ≢ 0
    → InRange vs
    → total vs + 4 < 2 ^ 32
    → w.written ≡ []
    → w.outcomes ≡ []
    → (e : Encoder) × ((write_packet typ vs (new_encoder w) ≡ (Encoder.nil, e))
        × ((chunks : List (List ℕ))
            → concat chunks ≡ e.writer.written
            → IsRead typ vs (new_decoder chunks)))
unfolding new_decoder
packet_back typ vs w some ok small none reliable =
    let f = flushed-stream typ vs w some none reliable in
    (
      f.0,
      (
        f.1.0,
        λ chunks e.
            let h =
              next_packet-Heads typ (total vs) (all_bytes vs) (new_decoder chunks) small refl
                (e ∙ f.1.1) (λ _. refl) in
            record {
              heads = h;
              gets =
                  read_values-Gets vs _ [] ok (h.stream ∙ sym (append_nil (all_bytes vs))) h.normal;
            },
      ),
    )
