-- ===== src/Codec/Tests.antt =====
-- Packets of lib/fed at which the properties hold.
use pggat.Base.{ℕ, ◌≡◌, refl, List, [], ◌∷◌, ◌++◌, arith, replicate, length-replicate}
use pggat.Codec.{default_buffer_size}
use pggat.Codec.Encoder
use pggat.Codec.Encoder.{Encoder, Writer, new_encoder, string}
use pggat.Codec.Sent.{Sends}
use pggat.Codec.SentText.{string-Sends}
use pggat.Codec.Decoder.{new_decoder}
use pggat.Codec.Pending.{concat}
use pggat.Codec.Trip.{Value, u8, u16, u32, text, write_packet}
use pggat.Codec.Back.{IsRead, packet_back}

abbrev blank : Writer
blank = record { written = []; outcomes = [] }

-- A row of type 'D'.
abbrev row : List Value
row = u16 1 ∷ u32 500 ∷ text (104 ∷ 105 ∷ []) ∷ u8 7 ∷ []

packet_back_example :
    (e : Encoder) × ((write_packet 68 row (new_encoder blank) ≡ (Encoder.nil, e))
      × ((chunks : List (List ℕ))
          → concat chunks ≡ e.writer.written
          → IsRead 68 row (new_decoder chunks)))
packet_back_example =
    packet_back 68 row blank (λ e. absurd (omega (arith, e)))
      (omega arith, (omega arith, (tt, (omega arith, tt)))) (omega arith) refl refl

-- A buffer that is full, and a string behind it.
abbrev full : Encoder
full = record {
  buffer = replicate default_buffer_size 32;
  writer = blank;
  packet_type = 0;
  packet_length = 0;
  packet_pos = 0;
}

string-Sends_example : Sends full ((104 ∷ 105 ∷ []) ++ (0 ∷ [])) (string (104 ∷ 105 ∷ []) full)
string-Sends_example = string-Sends full (104 ∷ 105 ∷ []) (record {
  fits = omega (arith, length-replicate {A = ℕ} default_buffer_size 32);
  reliable = refl;
})
