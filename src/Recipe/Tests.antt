-- ===== src/Recipe/Tests.antt =====
-- lib/gat/handlers/pool/recipe.go with one to two connections.
use pggat.Base.{◌≡◌, refl, some, [], ◌∷◌, arith}
use pggat.Recipe.Bounds.{
  Held, IsCounted, run_calls, allocates_initial, allocates, tries_free, frees, run_calls-IsCounted,
}

abbrev unused : Held
unused = record {
  recipe = record { min_connections = 1; max_connections = 2; count = 0 };
  servers = 0;
}

unused-IsCounted : IsCounted 1 2 unused
unfolding IsCounted
unused-IsCounted = (refl, refl, refl, λ h. omega arith)

run_calls-IsCounted_example :
    (after : Held) × (run_calls
        (allocates_initial ∷ allocates ∷ allocates ∷ tries_free ∷ frees ∷ [])
        unused
      ≡ some after)
    × IsCounted 1 2 after
run_calls-IsCounted_example =
    run_calls-IsCounted 1 2 (allocates_initial ∷ allocates ∷ allocates ∷ tries_free ∷ frees ∷ [])
      unused (λ h. omega arith) unused-IsCounted
