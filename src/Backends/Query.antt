-- ===== src/Backends/Query.antt =====
-- lib/bouncer/backends/v0/query.go. A loop takes fuel, and gives `out_of_fuel` where the fuel ends
-- before the loop; `Loops` shows how much is enough. Where a loop reads on after a packet, the rest
-- of the loop is the argument `again`.
use pggat.Base.{
  ℕ, zero, suc, Bool, true, false, Option, none, some, List, [], ◌∷◌, ◌++◌, ◌==◌, if◌then◌else◌,
}
use pggat.Base.Eq.{nat_eq}
use pggat.Base.Text.{codes}
use pggat.Slices.{contains}
use pggat.Fed.Types
use pggat.Fed.Conn.{Packet, Error, eof, Result, ok, err}
use pggat.Backends.Binding.{
  Binding, err_unexpected_packet, server_read, server_write, peer_fail, peer_read, peer_write,
}

-- What a call on a binding returns, if it returns.
pub data Out (A : Type 0) : Type 0 where
  done : A → Out A
  failed : Error → Out A
  out_of_fuel : Out A

abbrev pub Step : Type 0 → Type 0
Step A = Binding → Out A × Binding

-- `if err := …; err != nil { return err }`.
abbrev pub unless_failed : {A : Type 0} → Option Error × Binding → Step A → Out A × Binding
unless_failed (none, b) k = k b
unless_failed (some e, b) k = (failed e, b)

-- `return …` of an error result.
abbrev pub returning : {A : Type 0} → A → Option Error × Binding → Out A × Binding
returning a (none, b) = (done a, b)
returning a (some e, b) = (failed e, b)

-- The result of a callee, whose error is returned as it is.
abbrev pub and_then : {A B : Type 0} → Out A × Binding → (A → Step B) → Out B × Binding
and_then (done a, b) k = k a b
and_then (failed e, b) k = (failed e, b)
and_then (out_of_fuel, b) k = (out_of_fuel, b)

abbrev pub text_packet : ℕ → List ℕ → Packet
text_packet t s = record { typ = t; payload = s ++ (0 ∷ []) }

unfoldable pub copy_in_switch : Step (Unit {0}) → Step (Unit {0})
copy_in_switch again b =
    if b.packet.typ == Types.type_copy_data
    then unless_failed (server_write b) again
    else (if contains (Types.type_copy_done ∷ Types.type_copy_fail ∷ []) b.packet.typ
        then returning tt (server_write b)
        else again (peer_fail (err_unexpected_packet b) b))

unfoldable pub copy_in_read : Step (Unit {0}) → Bool × Binding → Out (Unit {0}) × Binding
copy_in_read again (true, b) = copy_in_switch again b
copy_in_read again (false, b) =
    returning tt
      (server_write (record b { packet = text_packet Types.type_copy_fail (codes "peer failed") }))

unfoldable pub copy_in_loop : ℕ → Step (Unit {0})
copy_in_loop zero b = (out_of_fuel, b)
copy_in_loop (suc fuel) b = copy_in_read (copy_in_loop fuel) (peer_read b)

unfoldable pub copy_in : ℕ → Step (Unit {0})
copy_in fuel b = copy_in_loop fuel (peer_write b)

abbrev pub copy_out_relayed : List ℕ
copy_out_relayed =
    Types.type_copy_data ∷ Types.type_notice_response ∷ Types.type_parameter_status
    ∷ Types.type_notification_response ∷ []

unfoldable pub copy_out_switch : Step (Unit {0}) → Step (Unit {0})
copy_out_switch again b =
    if contains copy_out_relayed b.packet.typ
    then again (peer_write b)
    else (if contains (Types.type_copy_done ∷ Types.type_markiplier_response ∷ []) b.packet.typ
        then (done tt, peer_write b)
        else (failed (err_unexpected_packet b), b))

unfoldable pub copy_out_loop : ℕ → Step (Unit {0})
copy_out_loop zero b = (out_of_fuel, b)
copy_out_loop (suc fuel) b = unless_failed (server_read b) (copy_out_switch (copy_out_loop fuel))

unfoldable pub copy_out : ℕ → Step (Unit {0})
copy_out fuel b = copy_out_loop fuel (peer_write b)

-- `ReadFrom` of a ReadyForQuery: its one byte.
unfoldable pub ready_state : Packet → Result ℕ
ready_state p = elim p.payload [ [] ↦ err eof | s ∷ rest ↦ ok s ]

-- The case of ReadyForQuery that `query`, `functionCall` and `sync` share.
unfoldable pub on_ready : {A : Type 0} → A → Result ℕ → Step A
on_ready a (err e) b = (failed e, b)
on_ready a (ok s) b = (
  done a,
  peer_write (record b {
    packet = record { typ = Types.type_ready_for_query; payload = s ∷ [] };
    tx_state = s;
  }),
)

unfoldable pub ready_case : {A : Type 0} → A → Step A
ready_case a b = on_ready a (ready_state b.packet) b

abbrev pub query_relayed : List ℕ
query_relayed =
    Types.type_command_complete ∷ Types.type_row_description ∷ Types.type_data_row
    ∷ Types.type_empty_query_response ∷ Types.type_markiplier_response ∷ Types.type_notice_response
    ∷ Types.type_parameter_status ∷ Types.type_notification_response ∷ []

unfoldable pub query_switch : ℕ → Step (Unit {0}) → Step (Unit {0})
query_switch fuel again b =
    if contains query_relayed b.packet.typ
    then again (peer_write b)
    else (if b.packet.typ == Types.type_copy_in_response
        then and_then (copy_in fuel b) (λ _. again)
        else (if b.packet.typ == Types.type_copy_out_response
            then and_then (copy_out fuel b) (λ _. again)
            else (if b.packet.typ == Types.type_ready_for_query
                then ready_case tt b
                else (failed (err_unexpected_packet b), b))))

unfoldable pub query_loop : ℕ → Step (Unit {0})
query_loop zero b = (out_of_fuel, b)
query_loop (suc fuel) b = unless_failed (server_read b) (query_switch (suc fuel) (query_loop fuel))

unfoldable pub query : ℕ → Step (Unit {0})
query fuel b = unless_failed (server_write b) (query_loop fuel)

unfoldable pub query_string : ℕ → List ℕ → Step (Unit {0})
query_string fuel q b = query fuel (record b { packet = text_packet Types.type_query q })

abbrev pub function_call_relayed : List ℕ
function_call_relayed =
    Types.type_markiplier_response ∷ Types.type_function_call_response ∷ Types.type_notice_response
    ∷ Types.type_parameter_status ∷ Types.type_notification_response ∷ []

unfoldable pub function_call_switch : Step (Unit {0}) → Step (Unit {0})
function_call_switch again b =
    if contains function_call_relayed b.packet.typ
    then again (peer_write b)
    else (if b.packet.typ == Types.type_ready_for_query
        then ready_case tt b
        else (failed (err_unexpected_packet b), b))

unfoldable pub function_call_loop : ℕ → Step (Unit {0})
function_call_loop zero b = (out_of_fuel, b)
function_call_loop (suc fuel) b =
    unless_failed (server_read b) (function_call_switch (function_call_loop fuel))

unfoldable pub function_call : ℕ → Step (Unit {0})
function_call fuel b = unless_failed (server_write b) (function_call_loop fuel)
