-- ===== src/Codec/SentText.antt =====
-- `String` of lib/fed/encoder.go sends its bytes and a zero.
use pggat.Base.{
  ℕ, zero, suc, ◌+◌, ◌-◌, ◌≤◌, ◌<◌, refl, ap, sym, subst, ◌∙◌, inl, inr, List, [], ◌∷◌, ◌++◌,
  length, take, drop, leb, Bool-cases, length-append, length-drop, take-drop, length-take_le, arith,
}
use mathlib.Core.List.{append_assoc}
use pggat.Codec.{default_buffer_size}
use pggat.Codec.Encoder.{
  Error, Encoder, and_then, advance_pos, copy_text, flush_full, string_loop, string,
}
use pggat.Codec.Sent.{
  sent, append_nil, IsReady, Sends, Sends-then, Flushes, flush-Flushes, write_byte-Sends,
}

flush_full-Flushes : (e : Encoder) → IsReady e → Flushes e 1 (flush_full e)
unfolding flush_full
flush_full-Flushes e ready = elim (Bool-cases (leb default_buffer_size (length e.buffer))) [
  | inl full ↦ rw full (flush-Flushes e 1 (omega arith) ready)
  | inr space ↦ rw space (record {
    state = e;
    returns = refl;
    stream = refl;
    room = ground (arith, space);
    reliable = ready.reliable;
  })
]

-- One round of the loop.
round-Sends :
    (e : Encoder) (xs ys : List ℕ) (k : Encoder → Error × Encoder)
    → IsReady e
    → length e.buffer + length xs ≤ default_buffer_size
    → ((g : Encoder) → IsReady g → length g.buffer < default_buffer_size → Sends g ys (k g))
    → Sends e (xs ++ ys) (and_then (copy_text xs e) (λ f. and_then (flush_full f) k))
unfolding copy_text
round-Sends e xs ys k ready le h =
    let f : Encoder = record e { buffer = e.buffer ++ xs; packet_pos = e.packet_pos + length xs } in
    let m =
      flush_full-Flushes f (record {
        fits = omega (arith, length-append e.buffer xs, le);
        reliable = ready.reliable;
      }) in
    let t =
      h m.state (record { fits = omega (arith, m.room); reliable = m.reliable })
        (omega (arith, m.room)) in
    record {
      state = t.state;
      returns = ap (λ x. and_then x k) m.returns ∙ t.returns;
      stream =
          t.stream
          ∙ (ap (λ l. l ++ ys) (m.stream ∙ sym (append_assoc e.writer.written e.buffer xs))
              ∙ append_assoc (sent e) xs ys);
      ready = t.ready;
    }

string_loop-Sends :
    (fuel : ℕ) (v : List ℕ) (e : Encoder)
    → length v < fuel
    → length e.buffer < default_buffer_size
    → IsReady e
    → Sends e v (string_loop fuel v e)
unfolding string_loop
string_loop-Sends zero v e lt space ready = absurd (omega arith)
string_loop-Sends (suc fuel) [] e lt space ready = record {
  state = e;
  returns = refl;
  stream = sym (append_nil (sent e));
  ready = ready;
}
string_loop-Sends (suc fuel) (b ∷ v) e lt space ready =
    let room = default_buffer_size - length e.buffer in
    subst (λ l. Sends e l (string_loop (suc fuel) (b ∷ v) e)) (take-drop room (b ∷ v))
      (round-Sends e (take room (b ∷ v)) (drop room (b ∷ v)) (string_loop fuel (drop room (b ∷ v)))
        ready (omega (arith, length-take_le room (b ∷ v), space))
        (λ g r s.
          string_loop-Sends fuel (drop room (b ∷ v)) g
            (omega (arith, length-drop room (b ∷ v), lt, space)) s r))

-- A full buffer takes one round more.
string_loop-Sends_first :
    (fuel : ℕ) (v : List ℕ) (e : Encoder)
    → length v + 1 < fuel
    → IsReady e
    → Sends e v (string_loop fuel v e)
unfolding string_loop
string_loop-Sends_first zero v e lt ready = absurd (omega arith)
string_loop-Sends_first (suc fuel) [] e lt ready = record {
  state = e;
  returns = refl;
  stream = sym (append_nil (sent e));
  ready = ready;
}
string_loop-Sends_first (suc fuel) (b ∷ v) e lt ready =
    let room = default_buffer_size - length e.buffer in
    subst (λ l. Sends e l (string_loop (suc fuel) (b ∷ v) e)) (take-drop room (b ∷ v))
      (round-Sends e (take room (b ∷ v)) (drop room (b ∷ v)) (string_loop fuel (drop room (b ∷ v)))
        ready (omega (arith, length-take_le room (b ∷ v), ready.fits))
        (λ g r s.
          string_loop-Sends fuel (drop room (b ∷ v)) g (omega (arith, length-drop room (b ∷ v), lt))
            s r))

-- `String` on an encoder whose writer does not fail ends with no error and sends the bytes of the string
-- and a zero behind all that was sent before, however full the buffer is.
pub string-Sends : (e : Encoder) (v : List ℕ) → IsReady e → Sends e (v ++ (0 ∷ [])) (string v e)
unfolding string
string-Sends e v ready =
    Sends-then e v (0 ∷ []) (string_loop (length v + 2) v e) _
      (string_loop-Sends_first (length v + 2) v e (omega arith) ready)
      (λ g r.
        let w = write_byte-Sends g 0 r in
        record {
          state = record (w.state) { packet_pos = w.state.packet_pos + 1 };
          returns = ap (λ x. and_then x (advance_pos 1)) w.returns;
          stream = w.stream;
          ready = record { fits = w.ready.fits; reliable = w.ready.reliable };
        })
