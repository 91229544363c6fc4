-- ===== src/Recipe/Bounds.antt =====
-- The users of a recipe count their servers as the recipe does.
use pggat.Base.{
  ℕ, ◌+◌, ◌-◌, ◌≤◌, ◌<◌, ◌≡◌, refl, Option, none, some, List, [], ◌∷◌, if◌then◌else◌, arith, ◌==◌,
}
use pggat.Recipe.{Recipe, allocate_initial, allocate, try_free, free}

pub data Call : Type 0 where
  allocates_initial allocates tries_free frees : Call

-- A recipe with the number of servers that its users hold: what they were given, less what they
-- gave back.
pub record Held : Type 0 where
  pub recipe : Recipe
  pub servers : ℕ

unfoldable pub freed : ℕ → Option Recipe → Option Held
freed n none = none
freed n (some r) = some (record { recipe = r; servers = n })

-- A user who holds no server does not call `Free`.
unfoldable pub run_call : Call → Held → Option Held
run_call allocates_initial h =
    let (amount, r) = allocate_initial h.recipe in
    some (record { recipe = r; servers = h.servers + amount })
run_call allocates h =
    let (given, r) = allocate h.recipe in
    some (record { recipe = r; servers = if given then h.servers + 1 else h.servers })
run_call tries_free h =
    let (given, r) = try_free h.recipe in
    some (record { recipe = r; servers = if given then h.servers - 1 else h.servers })
run_call frees h = if h.servers == 0 then some h else freed (h.servers - 1) (free h.recipe)

unfoldable pub and_run : Option Held → (Held → Option Held) → Option Held
and_run none k = none
and_run (some h) k = k h

unfoldable pub run_calls : List Call → Held → Option Held
run_calls [] h = some h
run_calls (c ∷ cs) h = and_run (run_call c h) (run_calls cs)

-- The recipe's count is the number of servers held, and within the maximum where there is one.
unfoldable pub IsCounted : ℕ → ℕ → Held → Type 0
IsCounted lo hi h =
    (h.recipe.min_connections ≡ lo)
    × (h.recipe.max_connections ≡ hi)
    × (h.recipe.count ≡ h.servers)
    × (0 < hi → h.servers ≤ hi)

abbrev Ends : ℕ → ℕ → Option Held → Type 0
Ends lo hi none = ⊥
Ends lo hi (some h) = IsCounted lo hi h

run_call-Ends :
    (lo hi : ℕ) (c : Call) (h : Held)
    → (0 < hi → lo ≤ hi)
    → IsCounted lo hi h
    → Ends lo hi (run_call c h)
unfolding run_call allocate_initial allocate try_free free freed IsCounted
run_call-Ends lo hi allocates_initial h m (a, b, d, w) = ground (arith, a, b, d, w, m)
run_call-Ends lo hi allocates h m (a, b, d, w) = ground (arith, a, b, d, w, m)
run_call-Ends lo hi tries_free h m (a, b, d, w) = ground (arith, a, b, d, w, m)
run_call-Ends lo hi frees h m (a, b, d, w) = ground (arith, a, b, d, w, m)

and_run-Ends :
    (lo hi : ℕ) (o : Option Held) (k : Held → Option Held)
    → Ends lo hi o
    → ((h : Held) → IsCounted lo hi h → Ends lo hi (k h))
    → Ends lo hi (and_run o k)
unfolding and_run
and_run-Ends lo hi none k e f = absurd e
and_run-Ends lo hi (some h) k e f = f h e

run_calls-Ends :
    (lo hi : ℕ) (cs : List Call) (h : Held)
    → (0 < hi → lo ≤ hi)
    → IsCounted lo hi h
    → Ends lo hi (run_calls cs h)
unfolding run_calls
run_calls-Ends lo hi [] h m i = i
run_calls-Ends lo hi (c ∷ cs) h m i =
    and_run-Ends lo hi (run_call c h) (run_calls cs) (run_call-Ends lo hi c h m i)
      (λ g. run_calls-Ends lo hi cs g m)

result :
    (lo hi : ℕ) (o : Option Held) → Ends lo hi o → (h : Held) × (o ≡ some h) × IsCounted lo hi h
result lo hi none e = absurd e
result lo hi (some h) e = (h, refl, e)

-- Whatever calls the users of a recipe make, where nobody frees a server that he does not hold: the
-- count of the recipe never becomes negative and stays the number of the servers held, and this
-- is never above the maximum, if there is one and the minimum is not above it.
pub run_calls-IsCounted :
    (lo hi : ℕ) (cs : List Call) (h : Held)
    → (0 < hi → lo ≤ hi)
    → IsCounted lo hi h
    → (after : Held) × (run_calls cs h ≡ some after) × IsCounted lo hi after
run_calls-IsCounted lo hi cs h m i = result lo hi (run_calls cs h) (run_calls-Ends lo hi cs h m i)
