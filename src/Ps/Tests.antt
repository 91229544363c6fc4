-- ===== src/Ps/Tests.antt =====
-- lib/fed/middlewares/ps at a client that tracks a parameter which the server has with another value.
use Prim.Native.String.{String}
use pggat.Base.{◌≡◌, refl, inl, true, Option, none, [], ◌∷◌}
use pggat.Base.Eq.{string_eq}
use pggat.Base.Maps.{put, no_entries}
use pggat.Fed.Conn.{Error}
use pggat.Slices.{contains}
use pggat.Ps.Sides.{Parameters, or_empty}
use pggat.Ps.Sync.{Sides, sync_one, sync_values, differ, after_set, tell_if}
use pggat.Ps.Agree.{value_in, sync_one-value_in}
use pggat.Ps.Others.{AllLower, SetsParameter}
use pggat.Ps.Outcome.{IsReady, sync_sides-value_in}
use pggat.Base.Maps.{has_key, IsComplete, put-IsComplete, at-put_other}
use pggat.Ps.Sync.{sync_sides, sync_loops, client_loop, server_loop, unless_error}

-- A server that does what it is told.
abbrev obeys : String → String → Parameters → Option Error × Parameters
obeys name value s = (none, put name value s)

abbrev sides : Sides
sides = record {
  client = record { synced = true; parameters = put "datestyle" "ISO" no_entries };
  faults = [];
  told = [];
  server = put "datestyle" "German" no_entries;
}

sync_one-value_in_example :
    value_in
      (sync_one (λ k. k) obeys ("datestyle" ∷ []) true "datestyle" sides).1.client.parameters
      "datestyle"
    ≡ value_in
        (sync_one (λ k. k) obeys ("datestyle" ∷ []) true "datestyle" sides).1.server
        "datestyle"
unfolding sync_one sync_values differ after_set tell_if put or_empty contains
sync_one-value_in_example =
    sync_one-value_in (λ k. k) obeys ("datestyle" ∷ []) "datestyle" sides refl (inl refl) refl

obeys-SetsParameter : SetsParameter (λ k. k) obeys
unfolding AllLower
obeys-SetsParameter = record {
  sets_only = λ name v s j h. at-put_other name j v s h;
  lower = λ name v s h low k found. refl;
  complete = λ name v s h. put-IsComplete name v s h;
}

no_entries-IsComplete : IsComplete (no_entries {K = String} {V = String})
unfolding IsComplete
no_entries-IsComplete k h = absurd (h refl)

sides-IsReady : IsReady (λ k. k) sides
unfolding AllLower
sides-IsReady = record {
  client_lower = λ k found. refl;
  client_complete = put-IsComplete "datestyle" "ISO" no_entries no_entries-IsComplete;
  server_lower = λ k found. refl;
  server_complete = put-IsComplete "datestyle" "German" no_entries no_entries-IsComplete;
}

sync_sides-value_in_example :
    value_in (sync_sides (λ k. k) obeys ("datestyle" ∷ []) sides).1.client.parameters "datestyle"
    ≡ value_in (sync_sides (λ k. k) obeys ("datestyle" ∷ []) sides).1.server "datestyle"
unfolding sync_sides sync_loops client_loop server_loop unless_error sync_one sync_values differ
    after_set tell_if put or_empty contains has_key
sync_sides-value_in_example =
    sync_sides-value_in (λ k. k) obeys ("datestyle" ∷ []) obeys-SetsParameter "datestyle" sides
      sides-IsReady (inl refl) refl
