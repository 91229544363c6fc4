-- ===== src/Ps/Outcome.antt =====
-- After `Sync` (lib/fed/middlewares/ps/sync.go) client and server agree.
use Prim.Native.String.{String}
use pggat.Base.{
  ◌≡◌, ◌≢◌, ◌⊎◌, refl, ap, sym, ◌∙◌, true, Option, none, some, List, Option-cases, inl, inr,
}
use pggat.Base.Eq.{string_eq}
use pggat.Base.Maps.{IsComplete}
use pggat.Slices.{contains}
use pggat.Fed.Conn.{Error}
use pggat.Ps.Sides.{Parameters, or_empty}
use pggat.Ps.Sync.{Sides, no_errors, is_some, sync_loops, sync_sides}
use pggat.Ps.Agree.{value_in}
use pggat.Ps.Others.{Has, AllLower, SetsParameter}
use pggat.Ps.Loops.{Good, unless_error-Good}
use pggat.Ps.Synced.{
  Agreed, Same, servers, servers-Agreed, clients-Same, clients-reach, servers-reach,
}

-- The names of both sides are such as MakeCIString makes, and a range visits every parameter.
pub record IsReady (to_lower : String → String) (t : Sides) : Type 0 where
  pub client_lower : AllLower to_lower t.client.parameters.keys
  pub client_complete : IsComplete t.client.parameters
  pub server_lower : AllLower to_lower t.server.keys
  pub server_complete : IsComplete t.server

module _ (to_lower : String → String)
    (set_parameter : String → String → Parameters → Option Error × Parameters)
    (tracking : List String) (sets : SetsParameter to_lower set_parameter) (n : String) where
  abbrev On : Sides → Type 0
  On = Agreed to_lower set_parameter tracking sets n

  second :
      (t : Sides) → On t → Good On (servers to_lower set_parameter tracking sets n t.server.keys t)
  second t (keys, same) =
      servers-Agreed to_lower set_parameter tracking sets n t.server.keys keys.0 t (keys, same)

  second_only :
      (s : Option String) (t : Sides)
      → Same to_lower set_parameter tracking sets n none s t
      → Good On (servers to_lower set_parameter tracking sets n t.server.keys t)
  unfolding Has IsComplete
  second_only none t (keys, h) = second t (keys, ap or_empty h.0 ∙ sym (ap or_empty h.1))
  second_only (some w) t (keys, h) =
      servers-reach to_lower set_parameter tracking sets n w t.server.keys keys.0
        (keys.1 n (λ e. cc)) t (keys, h)

  both :
      (t : Sides)
      → IsReady to_lower t
      → (contains tracking n ≡ true)
        ⊎ ((is_some (t.server.at n) ≡ true) ⊎ (t.client.parameters.at n ≡ none))
      → Good On (sync_loops to_lower set_parameter tracking true t)
  unfolding sync_loops Has IsComplete
  both t ready cond = elim (Option-cases (t.client.parameters.at n)) [
    | inl e ↦
        unless_error-Good (Same to_lower set_parameter tracking sets n none (t.server.at n)) On _ _
          (clients-Same to_lower set_parameter tracking sets n (t.server.at n)
            t.client.parameters.keys ready.client_lower t
            ((ready.server_lower, ready.server_complete), (e, refl)))
          (second_only (t.server.at n))
    | inr (v, e) ↦
        unless_error-Good On On _ _
          (clients-reach to_lower set_parameter tracking sets n v (t.server.at n)
            (elim cond [
              | inl x ↦ inl x
              | inr y ↦ elim y [ inl x ↦ inr x | inr z ↦ absurd (some_value v e z) ]
            ])
            t.client.parameters.keys ready.client_lower (ready.client_complete n (some_value v e)) t
            ((ready.server_lower, ready.server_complete), (e, refl)))
          second
  ]
    where
      some_value :
          (v : String) → t.client.parameters.at n ≡ some v → t.client.parameters.at n ≢ none
      some_value v e z = cc

  -- Once `Sync` returns no error, client and server have the same value for a name that is
  -- tracked, or that the server had reported, or that the client had not. A name without an entry
  -- counts as the empty string. Both sides have names such as MakeCIString makes, SetParameter
  -- changes no parameter of the server but the one it sets and keeps its names such, and a range
  -- visits every parameter.
  pub sync_sides-value_in :
      (t : Sides)
      → IsReady to_lower t
      → (contains tracking n ≡ true)
        ⊎ ((is_some (t.server.at n) ≡ true) ⊎ (t.client.parameters.at n ≡ none))
      → (sync_sides to_lower set_parameter tracking t).0 ≡ no_errors
      → value_in (sync_sides to_lower set_parameter tracking t).1.client.parameters n
        ≡ value_in (sync_sides to_lower set_parameter tracking t).1.server n
  unfolding sync_sides
  sync_sides-value_in t ready cond =
      unless_error-Good On (λ u. value_in u.client.parameters n ≡ value_in u.server n) _
        (λ a. (no_errors, record a { client = record a.client { synced = true } }))
        (both t ready cond) (λ u h _. h.1)
