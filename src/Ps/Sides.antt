-- ===== src/Ps/Sides.antt =====
-- lib/fed/middlewares/ps/client.go and server.go. A name is the string in a CIString; `to_lower` is
-- strings.ToLower, which MakeCIString applies.
use Prim.Native.String.{String}
use pggat.Base.{ℕ, Bool, Option, none, some, ◌&&◌, if◌then◌else◌}
use pggat.Base.Eq.{string_eq, ◌=?◌}
use pggat.Base.Maps.{Map, put, copy_keys, delete_keys}
use pggat.Fed.Conn.{Result, ok, err}

pub record ParameterStatus : Type 0 where
  pub key : String
  pub value : String

-- A packet: a ParameterStatus with what fed.ToConcrete makes of it, or one of another type.
pub data StatusMessage : Type 0 where
  parameter_status : Result ParameterStatus → StatusMessage
  other_message : ℕ → StatusMessage

abbrev pub Parameters : Type 0
Parameters = Map String String

pub record Client : Type 0 where
  pub synced : Bool
  pub parameters : Parameters

-- `m[k]` of a Go map: the empty string where there is no entry.
unfoldable pub or_empty : Option String → String
or_empty none = ""
or_empty (some v) = v

module _ (to_lower : String → String) where
  -- `Client.WritePacket`; `ok none` is a packet that is not passed on.
  unfoldable pub client_write_packet :
      StatusMessage → Client → Result (Option StatusMessage) × Client
  client_write_packet (parameter_status (err e)) c = (err e, c)
  client_write_packet (parameter_status (ok p)) c =
      if c.synced && (or_empty (c.parameters.at (to_lower p.key)) =? p.value)
      then (ok none, c)
      else (
        ok (some (parameter_status (ok p))),
        record c { parameters = put (to_lower p.key) p.value c.parameters },
      )
  client_write_packet (other_message t) c = (ok (some (other_message t)), c)

  -- `Server.ReadPacket`.
  unfoldable pub server_read_packet : StatusMessage → Parameters → Result StatusMessage × Parameters
  server_read_packet (parameter_status (err e)) s = (err e, s)
  server_read_packet (parameter_status (ok p)) s =
      (ok (parameter_status (ok p)), put (to_lower p.key) p.value s)
  server_read_packet (other_message t) s = (ok (other_message t), s)

-- `Client.Set`.
unfoldable pub set_client : Client → Client → Client
set_client c other = record {
  synced = other.synced;
  parameters =
      copy_keys other.parameters.keys other.parameters (delete_keys c.parameters.keys c.parameters);
}
