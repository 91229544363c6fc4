-- ===== src/Backends/Parameter.antt =====
-- `SetParameter` of lib/bouncer/backends/v0/query.go. Names and values are lists of runes, which are
-- their bytes if they are ASCII.
use pggat.Base.{ℕ, ◌≡◌, refl, Bool, false, some, List, [], ◌++◌, arith}
use pggat.Base.Text.{codes}
use pggat.Strutil.{escape}
use pggat.Strutil.Laws.{read_quoted, read_quoted-escape}
use pggat.Fed.Conn.{Conn}
use pggat.Backends.Binding.{Binding}
use pggat.Backends.Query.{Out}
use pggat.Backends.Sync.{query_string_call}

-- What the string builder holds in the end.
unfoldable pub set_query : List ℕ → List ℕ → List ℕ
set_query name value =
    codes "SET \"" ++ (escape name b'"' ++ (codes "\" = '" ++ (escape value b'\'' ++ codes "'")))

unfoldable pub set_parameter : ℕ → Conn → Bool → Conn → List ℕ → List ℕ → Out (Unit {0}) × Binding
set_parameter fuel server has_peer peer name value =
    query_string_call fuel server has_peer peer (set_query name value)

-- The query that SetParameter builds is SET, the name between double quotes, an equals sign and the
-- value between single quotes: a reader for which a backslash takes away the meaning of the next
-- rune reads both back, and nothing is left of the query.
pub set_query-read_quoted :
    (name value : List ℕ)
    → (quoted : List ℕ) × (after : List ℕ) × (set_query name value ≡ codes "SET \"" ++ quoted)
      × (read_quoted b'"' false quoted ≡ some (name, codes " = '" ++ after))
      × (read_quoted b'\'' false after ≡ some (value, []))
unfolding set_query
set_query-read_quoted name value =
    let after = escape value b'\'' ++ codes "'" in
    (
      escape name b'"' ++ (codes "\" = '" ++ after),
      after,
      refl,
      read_quoted-escape b'"' name (codes " = '" ++ after) (λ h. omega (arith, h)),
      read_quoted-escape b'\'' value [] (λ h. omega (arith, h)),
    )
