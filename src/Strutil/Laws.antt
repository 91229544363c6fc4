-- ===== src/Strutil/Laws.antt =====
-- An escaped string between quotes is read back by a reader that takes a backslash for an escape.
use pggat.Base.{
  ℕ, ◌≡◌, ◌≢◌, refl, ap, sym, ◌∙◌, Bool, true, false, Option, none, some, List, [], ◌∷◌, ◌++◌, ◌==◌,
  ◌||◌, if◌then◌else◌, Bool-cases, inl, inr, arith, true≢false,
}
use pggat.Strutil.{has_bad, escape_loop, escape}

-- What a read of the rest gives, with `r` before it.
unfoldable pub before : ℕ → Option (List ℕ × List ℕ) → Option (List ℕ × List ℕ)
before r none = none
before r (some (str, rest)) = some (r ∷ str, rest)

-- Reads up to the first `quote` that no backslash precedes: the text with the escapes taken away,
-- and what follows the quote.
unfoldable pub read_quoted : ℕ → Bool → List ℕ → Option (List ℕ × List ℕ)
read_quoted quote escaped [] = none
read_quoted quote true (r ∷ input) = before r (read_quoted quote false input)
read_quoted quote false (r ∷ input) =
    let more = before r (read_quoted quote false input) in
    let next = read_quoted quote true input in
    if r == b'\\' then next else (if r == quote then some ([], input) else more)

escape_loop_clean :
    (char : ℕ) (str : List ℕ) → has_bad char str ≡ false → escape_loop char str ≡ str
unfolding has_bad escape_loop
escape_loop_clean char [] h = refl
escape_loop_clean char (r ∷ str) h = ground (arith, escape_loop_clean char str)

escape-eq-loop : (str : List ℕ) (char : ℕ) → escape str char ≡ escape_loop char str
unfolding escape
escape-eq-loop str char = elim (Bool-cases (has_bad char str)) [
  | inl bad ↦ rw bad refl
  | inr clean ↦ rw clean (sym (escape_loop_clean char str clean))
]

or_neither : (a b : Bool) → (a || b) ≡ false → (a ≡ false) × (b ≡ false)
or_neither true b h = absurd (true≢false h)
or_neither false b h = (refl, h)

other : (a b : ℕ) → (a == b) ≡ false → (b == a) ≡ false
other a b h = ground arith

read_quoted-escape_loop :
    (quote : ℕ) (str rest : List ℕ)
    → quote ≢ b'\\'
    → read_quoted quote false (escape_loop quote str ++ (quote ∷ rest)) ≡ some (str, rest)
unfolding read_quoted escape_loop before
read_quoted-escape_loop quote [] rest h = ground (arith, h)
read_quoted-escape_loop quote (r ∷ str) rest h = elim (Bool-cases (quote == r || r == b'\\')) [
  | inl bad ↦ rw bad (ap (before r) (read_quoted-escape_loop quote str rest h))
  | inr plain ↦ rw plain (
      rw ((or_neither (quote == r) (r == b'\\') plain).1) (
        rw (other quote r (or_neither (quote == r) (r == b'\\') plain).0)
          (ap (before r) (read_quoted-escape_loop quote str rest h))))
]

-- A string that is escaped for a quote and put before that quote is read back whole, with what
-- follows the quote, by a reader for which a backslash takes away the meaning of the next rune. The
-- quote is no backslash.
pub read_quoted-escape :
    (quote : ℕ) (str rest : List ℕ)
    → quote ≢ b'\\'
    → read_quoted quote false (escape str quote ++ (quote ∷ rest)) ≡ some (str, rest)
read_quoted-escape quote str rest h =
    ap (λ s. read_quoted quote false (s ++ (quote ∷ rest))) (escape-eq-loop str quote)
    ∙ read_quoted-escape_loop quote str rest h
