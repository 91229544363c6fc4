-- ===== src/Codec/Bytes.antt =====
-- `binary.BigEndian` of Go, as lib/fed/encoder.go and decoder.go use it.
use pggat.Base.{
  ℕ, zero, suc, ◌+◌, ◌*◌, ◌/◌, ◌%◌, ◌^◌, ◌<◌, ◌≡◌, refl, ap, List, [], ◌∷◌, length, arith,
}

-- `PutUint16`, `PutUint32` and `PutUint64` write 2, 4 and 8 bytes, the high one first.
abbrev pub big_endian : ℕ → ℕ → List ℕ
big_endian zero v = []
big_endian (suc n) v = (v / 256 ^ n) % 256 ∷ big_endian n v

abbrev pub from_big_endian : ℕ → List ℕ → ℕ
from_big_endian high [] = high
from_big_endian high (b ∷ bs) = from_big_endian (high * 256 + b) bs

pub length-big_endian : (n v : ℕ) → length (big_endian n v) ≡ n
length-big_endian zero v = refl
length-big_endian (suc n) v = ap suc (length-big_endian n v)

pub trip_two : (v : ℕ) → v < 65536 → from_big_endian 0 (big_endian 2 v) ≡ v
trip_two v h = omega arith

pub trip_four : (v : ℕ) → v < 4294967296 → from_big_endian 0 (big_endian 4 v) ≡ v
trip_four v h = omega arith

pub trip_eight : (v : ℕ) → v < 18446744073709551616 → from_big_endian 0 (big_endian 8 v) ≡ v
trip_eight v h = omega arith
