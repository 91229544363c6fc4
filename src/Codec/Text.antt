-- ===== src/Codec/Text.antt =====
-- `String` of lib/fed/decoder.go reads a text up to its zero, however the network has cut it.
use pggat.Base.{
  ℕ, zero, suc, ◌+◌, ◌≤◌, ◌<◌, ◌≡◌, refl, ap, sym, subst, ◌∙◌, ◌⊎◌, inl, inr, none, some, List, [],
  ◌∷◌, ◌++◌, length, take, drop, length-append, length-drop, arith, ≢→==,
}
use mathlib.Core.List.{append_assoc}
use pggat.Codec.Decoder.{
  nil, Decoder, Text, index_zero, next_index, scanned, refilled, text_loop, left_bytes, left_over,
  string, refill, read_chunk, take_off,
}
use pggat.Codec.Pending.{concat, pending, IsNormal, at, chunk_stream, restart_at-empty}
use pggat.Codec.Fill.{head_same, tail_same}

abbrev pub NoZero : List ℕ → Type 0
NoZero [] = Unit
NoZero (zero ∷ bs) = ⊥
NoZero (suc b ∷ bs) = NoZero bs

-- A part `xs` of the stream ends within the text, or has its zero.
abbrev Within : List ℕ → List ℕ → List ℕ → List ℕ → Type 0
Within xs ys s rest =
    (index_zero xs ≡ none) × ((t : List ℕ) × ((s ≡ xs ++ t) × (NoZero t × (ys ≡ t ++ (0 ∷ rest)))))

abbrev Ended : List ℕ → List ℕ → List ℕ → List ℕ → Type 0
Ended xs ys s rest =
    (index_zero xs ≡ some (length s))
    × ((take (length s) xs ≡ s) × (drop (suc (length s)) xs ++ ys ≡ rest))

cons_scan :
    (x : ℕ) (xs ys s rest : List ℕ)
    → Within xs ys s rest ⊎ Ended xs ys s rest
    → Within (suc x ∷ xs) ys (suc x ∷ s) rest ⊎ Ended (suc x ∷ xs) ys (suc x ∷ s) rest
unfolding index_zero
cons_scan x xs ys s rest (inl (i, (t, (e, (nz, q))))) =
    inl (ap next_index i, (t, (ap (◌∷◌ (suc x)) e, (nz, q))))
cons_scan x xs ys s rest (inr (i, (e, q))) = inr (ap next_index i, (ap (◌∷◌ (suc x)) e, q))

scan :
    (xs ys s rest : List ℕ)
    → NoZero s
    → xs ++ ys ≡ s ++ (0 ∷ rest)
    → Within xs ys s rest ⊎ Ended xs ys s rest
unfolding index_zero
scan [] ys s rest nz e = inl (refl, (s, (refl, (nz, e))))
scan (zero ∷ xs) ys [] rest nz e = inr (refl, (refl, tail_same 0 0 (xs ++ ys) rest e))
scan (suc x ∷ xs) ys [] rest nz e = absurd (omega (arith, head_same (suc x) 0 (xs ++ ys) rest e))
scan (x ∷ xs) ys (zero ∷ s) rest nz e = absurd nz
scan (zero ∷ xs) ys (suc t ∷ s) rest nz e =
    absurd (omega (arith, head_same 0 (suc t) (xs ++ ys) (s ++ (0 ∷ rest)) e))
scan (suc x ∷ xs) ys (suc t ∷ s) rest nz e =
    subst (λ z. Within (suc x ∷ xs) ys (z ∷ s) rest ⊎ Ended (suc x ∷ xs) ys (z ∷ s) rest)
      (head_same (suc x) (suc t) (xs ++ ys) (s ++ (0 ∷ rest)) e)
      (cons_scan x xs ys s rest
        (scan xs ys s rest nz (tail_same (suc x) (suc t) (xs ++ ys) (s ++ (0 ∷ rest)) e)))

-- This text is read, and what stands behind its zero is left.
pub record IsText (s rest : List ℕ) (r : Text) : Type 0 where
  pub text : r.text ≡ s
  pub error : r.error ≡ nil
  pub stream : pending r.decoder ≡ rest
  pub normal : IsNormal r.decoder

scanned-IsText :
    (builder s rest : List ℕ) (d : Decoder) (more : Text)
    → NoZero s
    → pending d ≡ s ++ (0 ∷ rest)
    → ((t : List ℕ)
        → s ≡ d.buffer ++ t
        → NoZero t
        → concat d.reader ≡ t ++ (0 ∷ rest)
        → IsText ((builder ++ d.buffer) ++ t) rest more)
    → IsText (builder ++ s) rest (scanned builder d more (index_zero d.buffer))
unfolding scanned take_off
scanned-IsText builder s rest d more nz e go = on (scan d.buffer (concat d.reader) s rest nz e)
  where
    on :
        Within d.buffer (concat d.reader) s rest ⊎ Ended d.buffer (concat d.reader) s rest
        → IsText (builder ++ s) rest (scanned builder d more (index_zero d.buffer))
    on (inl (i, (t, (same, (nt, q))))) = rw i (
        subst (λ l. IsText l rest more)
          (append_assoc builder d.buffer t ∙ ap (λ l. builder ++ l) (sym same)) (go t same nt q))
    on (inr (i, (same, q))) = rw i (record {
      text = ap (λ l. builder ++ l) same;
      error = refl;
      stream = q;
      normal = restart_at-empty _ _;
    })

left_over-less :
    (m : ℕ) (c : List ℕ) (cs : List (List ℕ))
    → left_bytes (left_over (drop (suc m) c) cs) < suc (length c + left_bytes cs)
left_over-less m [] cs = omega arith
left_over-less m (x ∷ c) cs = omega (arith, bound (drop m c), length-drop m c)
  where
    bound : (xs : List ℕ) → left_bytes (left_over xs cs) ≤ suc (length xs + left_bytes cs)
    bound [] = omega arith
    bound (y ∷ ys) = omega arith

text_loop-IsText :
    (fuel : ℕ) (builder s rest : List ℕ) (cs : List (List ℕ)) (d : Decoder)
    → NoZero s
    → concat cs ≡ s ++ (0 ∷ rest)
    → left_bytes cs < fuel
    → IsText (builder ++ s) rest (text_loop fuel builder (at [] 0 cs d))
unfolding text_loop refill read_chunk refilled
text_loop-IsText zero builder s rest cs d nz e lt = absurd (omega arith)
text_loop-IsText (suc fuel) builder s rest [] d nz e lt =
    absurd (omega (arith, ap length e, length-append s (0 ∷ rest)))
text_loop-IsText (suc fuel) builder s rest (c ∷ cs) d nz e lt =
    scanned-IsText builder s rest (at (take 4096 c) 0 (left_over (drop 4096 c) cs) d) _ nz
      (chunk_stream 4096 c cs ∙ e)
      (λ t same nt q.
        text_loop-IsText fuel (builder ++ take 4096 c) t rest (left_over (drop 4096 c) cs) d nt q
          (omega (arith, left_over-less 4095 c cs, lt)))

string_at-IsText :
    (b : List ℕ) (r : ℕ) (cs : List (List ℕ)) (d : Decoder) (s rest : List ℕ)
    → NoZero s
    → IsNormal (at b r cs d)
    → b ++ concat cs ≡ s ++ (0 ∷ rest)
    → IsText s rest (string (at b r cs d))
unfolding string refill read_chunk refilled
string_at-IsText (x ∷ xs) r cs d s rest nz normal e =
    rw (≢→== (r + suc (length xs)) 0 (λ q. absurd (omega (arith, q)))) (
      scanned-IsText [] s rest (at (x ∷ xs) r cs d) _ nz e (λ t same nt q.
        text_loop-IsText (suc (left_bytes cs)) (x ∷ xs) t rest cs d nt q (omega arith)))
string_at-IsText [] (suc r) cs d s rest nz normal e = absurd (omega (arith, normal refl))
string_at-IsText [] zero [] d s rest nz normal e =
    absurd (omega (arith, ap length e, length-append s (0 ∷ rest)))
string_at-IsText [] zero (c ∷ cs) d s rest nz normal e =
    scanned-IsText [] s rest (at (take 4096 c) 0 (left_over (drop 4096 c) cs) d) _ nz
      (chunk_stream 4096 c cs ∙ e)
      (λ t same nt q.
        text_loop-IsText (suc (left_bytes (left_over (drop 4096 c) cs))) (take 4096 c) t rest
          (left_over (drop 4096 c) cs) d nt q (omega arith))

-- `String` ends with no error where a text and a zero are the next bytes of the stream: it gives the
-- text and leaves what stands behind the zero, whatever is in the buffer already and however the rest
-- comes in. The text has no zero.
pub string-IsText :
    (d : Decoder) (s rest : List ℕ)
    → NoZero s
    → IsNormal d
    → pending d ≡ s ++ (0 ∷ rest)
    → IsText s rest (string d)
string-IsText d s rest nz normal e =
    string_at-IsText d.buffer d.buffer_read d.reader d s rest nz normal e
