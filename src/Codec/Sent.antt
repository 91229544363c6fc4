-- ===== src/Codec/Sent.antt =====
-- The encoder of lib/fed/encoder.go sends the bytes of its values in their order, whatever it buffers.
use pggat.Base.{
  ℕ, ◌+◌, ◌≤◌, ◌≡◌, refl, ap, sym, ◌∙◌, inl, inr, true, List, [], ◌∷◌, ◌++◌, length, ◌==◌, ltb,
  Bool-cases, length-append, arith,
}
use mathlib.Core.List.{append_assoc}
use pggat.Codec.{default_buffer_size}
use pggat.Codec.Bytes.{big_endian}
use pggat.Codec.Encoder.{
  Error, nil, Encoder, and_then, write_buffer, flush, need_room, write_byte, uint8, uint16, uint32,
  uint64,
}

-- All bytes that the encoder was given: those written, and those in the buffer.
abbrev pub sent : Encoder → List ℕ
sent e = e.writer.written ++ e.buffer

-- The buffer is within its size, and no write will fail.
pub record IsReady (e : Encoder) : Type 0 where
  pub fits : length e.buffer ≤ default_buffer_size
  pub reliable : e.writer.outcomes ≡ []

-- The step returns no error and sends these bytes.
pub record Sends (e : Encoder) (bs : List ℕ) (r : Error × Encoder) : Type 0 where
  pub state : Encoder
  pub returns : r ≡ (nil, state)
  pub stream : sent state ≡ sent e ++ bs
  pub ready : IsReady state

pub append_nil : (xs : List ℕ) → xs ++ [] ≡ xs
append_nil [] = refl
append_nil (x ∷ xs) = ap (◌∷◌ x) (append_nil xs)

pub Sends-then :
    (e : Encoder) (xs ys : List ℕ) (r : Error × Encoder) (f : Encoder → Error × Encoder)
    → Sends e xs r
    → ((g : Encoder) → IsReady g → Sends g ys (f g))
    → Sends e (xs ++ ys) (and_then r f)
Sends-then e xs ys r f s h =
    let t = h s.state s.ready in
    record {
      state = t.state;
      returns = ap (λ x. and_then x f) s.returns ∙ t.returns;
      stream = t.stream ∙ (ap (λ l. l ++ ys) s.stream ∙ append_assoc (sent e) xs ys);
      ready = t.ready;
    }

-- A flush leaves room for all.
pub record Flushes (e : Encoder) (n : ℕ) (r : Error × Encoder) : Type 0 where
  pub state : Encoder
  pub returns : r ≡ (nil, state)
  pub stream : sent state ≡ sent e
  pub room : length state.buffer + n ≤ default_buffer_size
  pub reliable : state.writer.outcomes ≡ []

empty_of : (xs : List ℕ) → (length xs == 0) ≡ true → length xs ≡ 0
empty_of xs h = ground (arith, h)

pub flush-Flushes :
    (e : Encoder) (n : ℕ) → n ≤ default_buffer_size → IsReady e → Flushes e n (flush e)
unfolding flush write_buffer
flush-Flushes e n le ready = elim (Bool-cases (length e.buffer == 0)) [
  | inl none ↦ record {
    state = e;
    returns = rw none refl;
    stream = refl;
    room = omega (arith, empty_of e.buffer none, le);
    reliable = ready.reliable;
  }
  | inr some ↦ record {
    state = record e {
      buffer = [];
      writer = record { written = e.writer.written ++ e.buffer; outcomes = [] };
    };
    returns = rw (some, ready.reliable) refl;
    stream = append_nil (e.writer.written ++ e.buffer);
    room = omega (arith, le);
    reliable = refl;
  }
]

need_room-Flushes :
    (e : Encoder) (n : ℕ) → n ≤ default_buffer_size → IsReady e → Flushes e n (need_room n e)
unfolding need_room
need_room-Flushes e n le ready = elim (Bool-cases (ltb default_buffer_size (length e.buffer + n))) [
  | inl full ↦ rw full (flush-Flushes e n le ready)
  | inr space ↦ rw space (record {
    state = e;
    returns = refl;
    stream = refl;
    room = ground (arith, space);
    reliable = ready.reliable;
  })
]

-- A value whose bytes are put behind those of the buffer, once there is room.
module _ (e : Encoder) (n : ℕ) (bs : List ℕ) (k : Encoder → Encoder) where
  pub room-Sends :
      n ≤ default_buffer_size
      → length bs ≡ n
      → IsReady e
      → ((f : Encoder) → ((k f).buffer ≡ f.buffer ++ bs) × ((k f).writer ≡ f.writer))
      → Sends e bs (and_then (need_room n e) (λ f. (nil, k f)))
  room-Sends le len ready same =
      let m = need_room-Flushes e n le ready in
      let q = same m.state in
      record {
        state = k m.state;
        returns = ap (λ x. and_then x (λ f. (nil, k f))) m.returns;
        stream =
            rw (q.0, q.1)
              (sym (append_assoc m.state.writer.written m.state.buffer bs)
                ∙ ap (λ l. l ++ bs) m.stream);
        ready = record {
          fits = rw q.0 (omega (arith, length-append m.state.buffer bs, len, m.room));
          reliable = rw q.1 m.reliable;
        };
      }

pub write_byte-Sends : (e : Encoder) (b : ℕ) → IsReady e → Sends e (b ∷ []) (write_byte b e)
unfolding write_byte
write_byte-Sends e b ready =
    room-Sends e 1 (b ∷ []) (λ f. record f { buffer = f.buffer ++ (b ∷ []) }) (omega arith) refl
      ready (λ f. (refl, refl))

-- A change of the fields that say where in a packet the encoder is.
module _ (e : Encoder) (bs : List ℕ) (r : Error × Encoder) (k : Encoder → Encoder) where
  pub move-Sends :
      Sends e bs r
      → ((f : Encoder) → ((k f).buffer ≡ f.buffer) × ((k f).writer ≡ f.writer))
      → Sends e bs (r.0, k r.1)
  move-Sends s same =
      let q = same s.state in
      record {
        state = k s.state;
        returns = ap (λ x. (x.0, k x.1)) s.returns;
        stream = rw (q.0, q.1) s.stream;
        ready = record { fits = rw q.0 s.ready.fits; reliable = rw q.1 s.ready.reliable };
      }

pub uint8-Sends : (e : Encoder) (v : ℕ) → IsReady e → Sends e (v ∷ []) (uint8 v e)
unfolding uint8
uint8-Sends e v ready =
    move-Sends e (v ∷ []) (write_byte v e) (λ f. record f { packet_pos = f.packet_pos + 1 })
      (write_byte-Sends e v ready) (λ f. (refl, refl))

pub uint16-Sends : (e : Encoder) (v : ℕ) → IsReady e → Sends e (big_endian 2 v) (uint16 v e)
unfolding uint16
uint16-Sends e v ready =
    room-Sends e 2 (big_endian 2 v)
      (λ f. record f { buffer = f.buffer ++ big_endian 2 v; packet_pos = f.packet_pos + 2 })
      (omega arith) refl ready (λ f. (refl, refl))

pub uint32-Sends : (e : Encoder) (v : ℕ) → IsReady e → Sends e (big_endian 4 v) (uint32 v e)
unfolding uint32
uint32-Sends e v ready =
    room-Sends e 4 (big_endian 4 v)
      (λ f. record f { buffer = f.buffer ++ big_endian 4 v; packet_pos = f.packet_pos + 4 })
      (omega arith) refl ready (λ f. (refl, refl))

pub uint64-Sends : (e : Encoder) (v : ℕ) → IsReady e → Sends e (big_endian 8 v) (uint64 v e)
unfolding uint64
uint64-Sends e v ready =
    room-Sends e 8 (big_endian 8 v)
      (λ f. record f { buffer = f.buffer ++ big_endian 8 v; packet_pos = f.packet_pos + 8 })
      (omega arith) refl ready (λ f. (refl, refl))
