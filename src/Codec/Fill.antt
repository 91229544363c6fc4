-- ===== src/Codec/Fill.antt =====
-- `readFull` of lib/fed/decoder.go and the integers that it reads.
use pggat.Base.{
  ℕ, zero, suc, ◌+◌, ◌-◌, ◌≤◌, ◌<◌, ◌≡◌, refl, ap, ap₂, sym, ◌∙◌, List, [], ◌∷◌, ◌++◌, length, take,
  drop, length-append, length-drop, arith,
}
use pggat.Codec.Bytes.{from_big_endian}
use pggat.Codec.Decoder.{
  Error, nil, Decoder, Bytes, read_into, after_read, read_full, rounds, read_all, overwrite, uint,
}
use pggat.Codec.Pending.{pending, IsNormal, read_into-Reads, Fills}

-- What two cuts of one list have in common.
pub head_same : (x y : ℕ) (xs ys : List ℕ) → x ∷ xs ≡ y ∷ ys → x ≡ y
head_same x y xs ys e = ap first e
  where
    first : List ℕ → ℕ
    first [] = x
    first (z ∷ zs) = z

pub tail_same : (x y : ℕ) (xs ys : List ℕ) → x ∷ xs ≡ y ∷ ys → xs ≡ ys
tail_same x y xs ys e = ap (drop 1) e

split_at :
    (xs ys bs rest : List ℕ)
    → xs ++ ys ≡ bs ++ rest
    → length xs ≤ length bs
    → (xs ++ drop (length xs) bs ≡ bs) × (ys ≡ drop (length xs) bs ++ rest)
split_at [] ys bs rest e le = (refl, e)
split_at (x ∷ xs) ys [] rest e le = absurd (omega (arith, le))
split_at (x ∷ xs) ys (b ∷ bs) rest e le =
    let s = split_at xs ys bs rest (tail_same x b (xs ++ ys) (bs ++ rest) e) (omega (arith, le)) in
    (ap₂ ◌∷◌ (head_same x b (xs ++ ys) (bs ++ rest) e) s.0, s.1)

pub nothing : (bs : List ℕ) → length bs ≡ 0 → bs ≡ []
nothing [] h = refl
nothing (b ∷ bs) h = absurd (omega (arith, h))

after_read-Fills :
    (done : ℕ) (r next : Bytes) (bs cs rest : List ℕ)
    → r.error ≡ nil
    → r.bytes ++ cs ≡ bs
    → Fills cs rest next
    → Fills bs rest (after_read done r r.error next)
unfolding after_read
after_read-Fills done r next bs cs rest e same f = rw e (record {
  error = f.error;
  bytes = ap (λ l. r.bytes ++ l) f.bytes ∙ same;
  stream = f.stream;
  normal = f.normal;
})

pub read_full-Fills :
    (fuel done n : ℕ) (d : Decoder) (bs rest : List ℕ)
    → length bs ≡ n
    → pending d ≡ bs ++ rest
    → IsNormal d
    → n + length d.reader < fuel
    → Fills bs rest (read_full fuel done n d)
unfolding read_full
read_full-Fills zero done n d bs rest len e normal lt = absurd (omega arith)
read_full-Fills (suc fuel) done zero d bs rest len e normal lt = record {
  error = refl;
  bytes = sym (nothing bs len);
  stream = e ∙ ap (λ l. l ++ rest) (nothing bs len);
  normal = normal;
}
read_full-Fills (suc fuel) done (suc n) d bs rest len e normal lt =
    let r = read_into (suc n) d in
    let s = read_into-Reads n d normal (omega (arith, ap length e, length-append bs rest, len)) in
    let cut =
      split_at r.bytes (pending r.decoder) bs rest (s.stream ∙ e) (omega (arith, s.most, len)) in
    after_read-Fills done r _ bs (drop (length r.bytes) bs) rest s.error cut.0 (
      read_full-Fills fuel (done + length r.bytes) (suc n - length r.bytes) r.decoder
        (drop (length r.bytes) bs) rest (omega (arith, length-drop (length r.bytes) bs, len)) cut.1
        s.normal (omega (arith, s.fewer, lt)))

-- An integer is read off the stream.
pub record Takes (v : ℕ) (rest : List ℕ) (r : ℕ × (Error × Decoder)) : Type 0 where
  pub value : r.0 ≡ v
  pub error : r.1.0 ≡ nil
  pub stream : pending r.1.1 ≡ rest
  pub normal : IsNormal r.1.1

take-overwrite : (n : ℕ) (bs buf : List ℕ) → length bs ≡ n → take n (overwrite bs buf) ≡ bs
unfolding overwrite
take-overwrite n bs buf len = ap (λ k. take k (bs ++ drop (length bs) buf)) (sym len) ∙ front bs _
  where
    front : (xs ys : List ℕ) → take (length xs) (xs ++ ys) ≡ xs
    front [] ys = refl
    front (x ∷ xs) ys = ap (◌∷◌ x) (front xs ys)

pub uint-Takes :
    (n : ℕ) (d : Decoder) (bs rest : List ℕ)
    → length bs ≡ n
    → pending d ≡ bs ++ rest
    → IsNormal d
    → Takes (from_big_endian 0 bs) rest (uint n d)
unfolding uint read_all
uint-Takes n d bs rest len e normal =
    let f = read_full-Fills (rounds n d) 0 n d bs rest len e normal (omega arith) in
    record {
      value =
          ap (from_big_endian 0) (
            take-overwrite n (read_all n d).bytes d.decode_buf (ap length f.bytes ∙ len) ∙ f.bytes);
      error = f.error;
      stream = f.stream;
      normal = f.normal;
    }
