-- ===== src/Codec/Pending.antt =====
-- The decoder of lib/fed/decoder.go reads the bytes of its stream in their order, however the network has
-- cut them.
use pggat.Base.{
  take-drop, length-take_le, ℕ, zero, suc, ◌+◌, ◌-◌, ◌≤◌, ◌<◌, ◌≡◌, refl, ap, sym, ◌∙◌, ◌⊎◌, inl,
  inr, List, [], ◌∷◌, ◌++◌, length, take, drop, ltb, Bool-cases, lt→ltb, arith,
}
use mathlib.Core.List.{append_assoc}
use pggat.Codec.{default_buffer_size}
use pggat.Codec.Decoder.{
  nil, Decoder, left_over, read_chunk, refill, restart_at, take_off, Bytes, copy_buffer, read_into,
}

abbrev pub concat : List (List ℕ) → List ℕ
concat [] = []
concat (c ∷ cs) = c ++ concat cs

-- All bytes that are still to come: those in the buffer, and those of the reader.
abbrev pub pending : Decoder → List ℕ
pending d = d.buffer ++ concat d.reader

-- An empty buffer starts at 0.
abbrev pub IsNormal : Decoder → Type 0
IsNormal d = length d.buffer ≡ 0 → d.buffer_read ≡ 0

-- What a read of at most `n` bytes gives, with fewer rounds left to go.
pub record Reads (n : ℕ) (d : Decoder) (r : Bytes) : Type 0 where
  pub error : r.error ≡ nil
  pub stream : r.bytes ++ pending r.decoder ≡ pending d
  pub most : length r.bytes ≤ n
  pub normal : IsNormal r.decoder
  pub fewer : n - length r.bytes + length r.decoder.reader < n + length d.reader
  pub chunks : length r.decoder.reader ≤ length d.reader

take_rest : (n : ℕ) (xs : List ℕ) → take n xs ++ drop (length (take n xs)) xs ≡ xs
take_rest zero xs = refl
take_rest (suc n) [] = refl
take_rest (suc n) (x ∷ xs) = ap (◌∷◌ x) (take_rest n xs)

length-take_pos : (n : ℕ) (xs : List ℕ) → 0 < length xs → 0 < length (take (suc n) xs)
length-take_pos n [] h = h
length-take_pos n (x ∷ xs) h = omega arith

pub restart_at-empty : (xs : List ℕ) (n : ℕ) → length xs ≡ 0 → restart_at xs n ≡ 0
restart_at-empty [] n h = refl
restart_at-empty (x ∷ xs) n h = absurd (omega (arith, h))

-- From a buffer that has bytes.
copy_buffer-Reads :
    (n : ℕ) (d : Decoder) → 0 < length d.buffer → Reads (suc n) d (copy_buffer (suc n) nil d)
unfolding copy_buffer take_off
copy_buffer-Reads n d h = record {
  error = refl;
  stream =
      sym (
        append_assoc (take (suc n) d.buffer) (drop (length (take (suc n) d.buffer)) d.buffer)
          (concat d.reader))
      ∙ ap (λ l. l ++ concat d.reader) (take_rest (suc n) d.buffer);
  most = length-take_le (suc n) d.buffer;
  normal = restart_at-empty _ _;
  fewer = omega (arith, length-take_pos n d.buffer h, length-take_le (suc n) d.buffer);
  chunks = omega arith;
}

-- What the reader gives of its next chunk.
left_over-concat : (xs : List ℕ) (cs : List (List ℕ)) → concat (left_over xs cs) ≡ xs ++ concat cs
left_over-concat [] cs = refl
left_over-concat (x ∷ xs) cs = refl

left_over-length : (xs : List ℕ) (cs : List (List ℕ)) → length (left_over xs cs) ≤ suc (length cs)
left_over-length [] cs = omega arith
left_over-length (x ∷ xs) cs = omega arith

pub chunk_stream :
    (n : ℕ) (c : List ℕ) (cs : List (List ℕ))
    → take n c ++ concat (left_over (drop n c) cs) ≡ concat (c ∷ cs)
chunk_stream n c cs =
    ap (λ l. take n c ++ l) (left_over-concat (drop n c) cs)
    ∙ (sym (append_assoc (take n c) (drop n c) (concat cs))
        ∙ ap (λ l. l ++ concat cs) (take-drop n c))

-- A chunk that gives no byte is gone.
chunk_fewer :
    (n : ℕ) (c : List ℕ) (cs : List (List ℕ))
    → (0 < length (take (suc n) c)) ⊎ (length (left_over (drop (suc n) c) cs) ≡ length cs)
chunk_fewer n [] cs = inr refl
chunk_fewer n (x ∷ xs) cs = inl (omega arith)

chunk_measure :
    (n t : ℕ) (m : ℕ) (c : List ℕ) (cs : List (List ℕ))
    → t ≤ suc n
    → ((0 < t) ⊎ (m ≡ length cs))
    → m ≤ suc (length cs)
    → suc n - t + m < suc n + suc (length cs)
chunk_measure n t m c cs le (inl p) q = omega arith
chunk_measure n t m c cs le (inr p) q = omega (arith, p)

-- A decoder with this buffer, position and reader.
abbrev pub at : List ℕ → ℕ → List (List ℕ) → Decoder → Decoder
at b r cs d = record d { buffer = b; buffer_read = r; reader = cs }

-- A slice longer than the buffer is read past it.
long-Reads :
    (n : ℕ) (c : List ℕ) (cs : List (List ℕ)) (d : Decoder)
    → Reads (suc n) (at [] 0 (c ∷ cs) d) (record {
      bytes = take (suc n) c;
      error = nil;
      decoder = at [] 0 (left_over (drop (suc n) c) cs) d;
    })
long-Reads n c cs d = record {
  error = refl;
  stream = chunk_stream (suc n) c cs;
  most = length-take_le (suc n) c;
  normal = λ _. refl;
  fewer =
      chunk_measure n (length (take (suc n) c)) (length (left_over (drop (suc n) c) cs)) c cs
        (length-take_le (suc n) c) (chunk_fewer n c cs) (left_over-length (drop (suc n) c) cs);
  chunks = left_over-length (drop (suc n) c) cs;
}

-- After a refill.
short-Reads :
    (n m : ℕ) (c : List ℕ) (cs : List (List ℕ)) (d : Decoder)
    → Reads
        (suc n)
        (at [] 0 (c ∷ cs) d)
        (copy_buffer (suc n) nil (at (take (suc m) c) 0 (left_over (drop (suc m) c) cs) d))
unfolding copy_buffer take_off
short-Reads n m c cs d =
    let got = take (suc m) c in
    record {
      error = refl;
      stream =
          sym (append_assoc (take (suc n) got) (drop (length (take (suc n) got)) got) _)
          ∙ (ap (λ l. l ++ concat (left_over (drop (suc m) c) cs)) (take_rest (suc n) got)
              ∙ chunk_stream (suc m) c cs);
      most = length-take_le (suc n) got;
      normal = restart_at-empty _ _;
      fewer =
          chunk_measure n (length (take (suc n) got)) (length (left_over (drop (suc m) c) cs)) c cs
            (length-take_le (suc n) got) (some_byte (chunk_fewer m c cs))
            (left_over-length (drop (suc m) c) cs);
      chunks = left_over-length (drop (suc m) c) cs;
    }
  where
    some_byte :
        (0 < length (take (suc m) c)) ⊎ (length (left_over (drop (suc m) c) cs) ≡ length cs)
        → (0 < length (take (suc n) (take (suc m) c)))
          ⊎ (length (left_over (drop (suc m) c) cs) ≡ length cs)
    some_byte (inl p) = inl (length-take_pos n (take (suc m) c) p)
    some_byte (inr p) = inr p

read_at-Reads :
    (n : ℕ) (b : List ℕ) (r : ℕ) (cs : List (List ℕ)) (d : Decoder)
    → IsNormal (at b r cs d)
    → 0 < length (pending (at b r cs d))
    → Reads (suc n) (at b r cs d) (read_into (suc n) (at b r cs d))
unfolding read_into refill read_chunk
read_at-Reads n (x ∷ xs) r cs d normal some =
    rw (lt→ltb 0 (r + suc (length xs)) (omega arith))
      (copy_buffer-Reads n (at (x ∷ xs) r cs d) (omega arith))
read_at-Reads n [] r [] d normal some = absurd (omega arith)
read_at-Reads n [] (suc r) (c ∷ cs) d normal some = absurd (omega (arith, normal refl))
read_at-Reads n [] zero (c ∷ cs) d normal some =
    elim (Bool-cases (ltb default_buffer_size (suc n))) [
      | inl e ↦ rw e (long-Reads n c cs d)
      | inr e ↦ rw e (short-Reads n 4095 c cs d)
    ]

pub read_into-Reads :
    (n : ℕ) (d : Decoder)
    → IsNormal d
    → 0 < length (pending d)
    → Reads (suc n) d (read_into (suc n) d)
read_into-Reads n d = read_at-Reads n d.buffer d.buffer_read d.reader d

-- The whole slice is filled from the front of the stream.
pub record Fills (bs rest : List ℕ) (r : Bytes) : Type 0 where
  pub error : r.error ≡ nil
  pub bytes : r.bytes ≡ bs
  pub stream : pending r.decoder ≡ rest
  pub normal : IsNormal r.decoder
