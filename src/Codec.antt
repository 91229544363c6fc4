-- ===== src/Codec.antt =====
-- The byte streams of lib/fed: the encoder and the decoder of packets, with their buffers. A byte is a
-- number below 256.
pub mod Bytes
pub mod Encoder
pub mod Sent
pub mod SentText
pub mod Decoder
pub mod Pending
pub mod Fill
pub mod Text
pub mod Trip
pub mod Back
mod Tests
use pggat.Base.{ℕ}

abbrev pub default_buffer_size : ℕ
default_buffer_size = 4096
