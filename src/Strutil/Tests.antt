-- ===== src/Strutil/Tests.antt =====
-- lib/util/strutil at a name with a quote in it.
use pggat.Base.{◌≡◌, some, ◌∷◌, ◌++◌, false, arith}
use pggat.Base.Text.{codes}
use pggat.Strutil.{escape}
use pggat.Strutil.Laws.{read_quoted, read_quoted-escape}

read_quoted-escape_example :
    read_quoted b'"' false (escape (codes "a\"b") b'"' ++ (b'"' ∷ codes " = ''"))
    ≡ some (codes "a\"b", codes " = ''")
read_quoted-escape_example =
    read_quoted-escape b'"' (codes "a\"b") (codes " = ''") (λ h. omega arith)
