-- ===== src/Ps/Sync.antt =====
-- lib/fed/middlewares/ps/sync.go.
use Prim.Native.String.{String}
use pggat.Base.{
  Bool, true, false, Option, none, some, List, [], ◌∷◌, ◌++◌, ◌&&◌, ◌||◌, not, if◌then◌else◌,
}
use pggat.Base.Eq.{string_eq, ◌=?◌}
use pggat.Base.Maps.{put}
use pggat.Slices.{contains}
use pggat.Fed.Conn.{Error, Result, ok, err}
use pggat.Ps.Sides.{
  StatusMessage, parameter_status, Parameters, Client, or_empty, client_write_packet,
}

-- The two sides while they are synchronised. The client connection, which has the middleware
-- `Client` as its only one, is what its writes return, `none` for success, and what it was sent.
pub record Sides : Type 0 where
  pub client : Client
  pub faults : List (Option Error)
  pub told : List StatusMessage
  pub server : Parameters

-- `clientErr` and `serverErr`.
pub record Errors : Type 0 where
  pub client_err : Option Error
  pub server_err : Option Error

abbrev pub no_errors : Errors
no_errors = record { client_err = none; server_err = none }

abbrev pub is_some : {A : Type 0} → Option A → Bool
is_some none = false
is_some (some a) = true

unfoldable pub send : List (Option Error) → StatusMessage → Sides → Errors × Sides
send [] p t = (no_errors, record t { told = t.told ++ (p ∷ []) })
send (none ∷ rest) p t = (no_errors, record t { faults = rest; told = t.told ++ (p ∷ []) })
send (some e ∷ rest) p t =
    (record { client_err = some e; server_err = none }, record t { faults = rest })

unfoldable pub pass_on : Result (Option StatusMessage) × Client → Sides → Errors × Sides
pass_on (err e, c) t = (record { client_err = some e; server_err = none }, record t { client = c })
pass_on (ok none, c) t = (no_errors, record t { client = c })
pass_on (ok (some p), c) t = send t.faults p (record t { client = c })

-- What follows a call of `sync`, unless it returned an error.
unfoldable pub unless_error : Errors × Sides → (Sides → Errors × Sides) → Errors × Sides
unless_error (e, t) k = if is_some e.client_err || is_some e.server_err then (e, t) else k t

-- `set_parameter` is `backends.SetParameter(ctx, server, nil, name, value)` on a server with these
-- parameters: its error, and the parameters after the replies have passed the middleware.
module _ (to_lower : String → String)
    (set_parameter : String → String → Parameters → Option Error × Parameters)
    (tracking : List String) (has_client : Bool) where
  -- `client.WritePacket` of a ParameterStatus.
  unfoldable pub tell : String → String → Sides → Errors × Sides
  tell name value t =
      pass_on
        (client_write_packet to_lower (parameter_status (ok (record { key = name; value = value })))
          t.client)
        t

  unfoldable pub tell_if : Bool → String → String → Sides → Errors × Sides
  tell_if do_set name value t = if has_client && do_set then tell name value t else (no_errors, t)

  unfoldable pub after_set : String → String → Option Error × Parameters → Sides → Errors × Sides
  after_set name value (some e, s) t =
      (record { client_err = none; server_err = some e }, record t { server = s })
  after_set name value (none, s) t =
      tell_if (not t.client.synced) name value (record t { server = put name value s })

  unfoldable pub differ : String → Option String → Option String → Sides → Errors × Sides
  differ name value expected t =
      if is_some value && contains tracking name
      then after_set name (or_empty value) (set_parameter name (or_empty value) t.server) t
      else tell_if (is_some expected) name (or_empty expected) t

  unfoldable pub sync_values : String → Option String → Option String → Sides → Errors × Sides
  sync_values name value expected t =
      if or_empty value =? or_empty expected
      then tell_if (not t.client.synced) name (or_empty expected) t
      else differ name value expected t

  unfoldable pub sync_one : String → Sides → Errors × Sides
  sync_one name t = sync_values name (t.client.parameters.at name) (t.server.at name) t

  -- The loop over the parameters of the client, and that over the ones only the server has.
  unfoldable pub client_loop : List String → Sides → Errors × Sides
  client_loop [] t = (no_errors, t)
  client_loop (k ∷ ks) t =
      let rest = client_loop ks in
      if is_some (t.client.parameters.at k) then unless_error (sync_one k t) rest else rest t

  unfoldable pub server_loop : List String → Sides → Errors × Sides
  server_loop [] t = (no_errors, t)
  server_loop (k ∷ ks) t =
      let rest = server_loop ks in
      if is_some (t.server.at k) && not (is_some (t.client.parameters.at k))
      then unless_error (sync_one k t) rest
      else rest t

  unfoldable pub sync_loops : Sides → Errors × Sides
  sync_loops t =
      unless_error (client_loop t.client.parameters.keys t) (λ a. server_loop a.server.keys a)

-- `Sync` marks the client, and `SyncMiddleware`, which has no client connection, does not.
module _ (to_lower : String → String)
    (set_parameter : String → String → Parameters → Option Error × Parameters)
    (tracking : List String) where
  unfoldable pub sync_sides : Sides → Errors × Sides
  sync_sides t =
      unless_error (sync_loops to_lower set_parameter tracking true t)
        (λ a. (no_errors, record a { client = record a.client { synced = true } }))

  unfoldable pub sync_server_side : Sides → Option Error × Sides
  sync_server_side t =
      let (e, a) = sync_loops to_lower set_parameter tracking false t in (e.server_err, a)
