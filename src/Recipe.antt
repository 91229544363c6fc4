-- ===== src/Recipe.antt =====
-- lib/gat/handlers/pool/recipe.go: how many servers a recipe may still make. `count` is a natural
-- number; a `Free` at 0, after which the code's count is negative, is `none`.
pub mod Bounds
mod Tests
use pggat.Base.{ℕ, ◌+◌, ◌-◌, Bool, true, false, Option, none, some, ◌==◌, ltb, leb, if◌then◌else◌}

pub record Recipe : Type 0 where
  pub min_connections : ℕ
  pub max_connections : ℕ
  pub count : ℕ

unfoldable pub allocate_initial : Recipe → ℕ × Recipe
allocate_initial r =
    if leb r.min_connections r.count
    then (0, r)
    else (r.min_connections - r.count, record r { count = r.min_connections })

unfoldable pub allocate : Recipe → Bool × Recipe
allocate r =
    if r.max_connections == 0
    then (true, record r { count = r.count + 1 })
    else (if leb r.max_connections r.count
        then (false, r)
        else (true, record r { count = r.count + 1 }))

unfoldable pub try_free : Recipe → Bool × Recipe
try_free r =
    if leb r.count r.min_connections then (false, r) else (true, record r { count = r.count - 1 })

unfoldable pub free : Recipe → Option Recipe
free r = if r.count == 0 then none else some (record r { count = r.count - 1 })
