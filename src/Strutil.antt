-- ===== src/Strutil.antt =====
-- lib/util/strutil/escape.go. A string is the list of its runes.
pub mod Laws
mod Tests
use pggat.Base.{ℕ, Bool, true, false, List, [], ◌∷◌, ◌==◌, ◌||◌, not, if◌then◌else◌}

-- The first loop: whether any rune needs a backslash.
unfoldable pub has_bad : ℕ → List ℕ → Bool
has_bad char [] = false
has_bad char (r ∷ str) = (r == char || r == b'\\') || has_bad char str

-- The second loop.
unfoldable pub escape_loop : ℕ → List ℕ → List ℕ
escape_loop char [] = []
escape_loop char (r ∷ str) =
    let rest = escape_loop char str in
    if char == r || r == b'\\' then b'\\' ∷ r ∷ rest else r ∷ rest

unfoldable pub escape : List ℕ → ℕ → List ℕ
escape str char = if not (has_bad char str) then str else escape_loop char str
