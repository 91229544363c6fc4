-- ===== src/Backends/Sync.antt =====
-- The extended query protocol and the transactions of lib/bouncer/backends/v0/query.go.
use pggat.Base.{ℕ, zero, suc, Bool, true, false, none, List, [], ◌∷◌, ◌==◌, if◌then◌else◌}
use pggat.Base.Eq.{nat_eq}
use pggat.Base.Text.{codes}
use pggat.Slices.{contains}
use pggat.Fed.Types
use pggat.Fed.Conn.{Packet, expected_idle, Conn}
use pggat.Backends.Binding.{
  Binding, err_unexpected_packet, server_read, server_write, peer_fail, peer_read, peer_write,
}
use pggat.Backends.Query.{
  Out, done, failed, out_of_fuel, Step, unless_failed, and_then, copy_in, copy_out, ready_case,
  query, query_string, function_call, text_packet,
}

abbrev pub sync_relayed : List ℕ
sync_relayed =
    Types.type_parse_complete ∷ Types.type_bind_complete ∷ Types.type_close_complete
    ∷ Types.type_markiplier_response ∷ Types.type_row_description ∷ Types.type_no_data
    ∷ Types.type_parameter_description ∷ Types.type_command_complete ∷ Types.type_data_row
    ∷ Types.type_empty_query_response ∷ Types.type_portal_suspended ∷ Types.type_notice_response
    ∷ Types.type_parameter_status ∷ Types.type_notification_response ∷ []

unfoldable pub sync_switch : ℕ → Step Bool → Step Bool
sync_switch fuel again b =
    if contains sync_relayed b.packet.typ
    then again (peer_write b)
    else (if b.packet.typ == Types.type_copy_in_response
        then and_then (copy_in fuel b) (λ _ c. (done false, c))
        else (if b.packet.typ == Types.type_copy_out_response
            then and_then (copy_out fuel b) (λ _. again)
            else (if b.packet.typ == Types.type_ready_for_query
                then ready_case true b
                else (failed (err_unexpected_packet b), b))))

unfoldable pub sync_loop : ℕ → Step Bool
sync_loop zero b = (out_of_fuel, b)
sync_loop (suc fuel) b = unless_failed (server_read b) (sync_switch (suc fuel) (sync_loop fuel))

unfoldable pub sync : ℕ → Step Bool
sync fuel b = unless_failed (server_write b) (sync_loop fuel)

abbrev pub sync_packet : Packet
sync_packet = record { typ = Types.type_sync; payload = [] }

-- `if ok { return nil }`, or go on.
abbrev pub unless_ok : Step (Unit {0}) → Bool → Step (Unit {0})
unless_ok again true b = (done tt, b)
unless_ok again false b = again b

-- The inner loop of `eqp`, for a peer that is gone.
unfoldable pub sync_until_ready : ℕ → Step (Unit {0})
sync_until_ready zero b = (out_of_fuel, b)
sync_until_ready (suc fuel) b =
    and_then (sync (suc fuel) (record b { packet = sync_packet }))
      (unless_ok (sync_until_ready fuel))

abbrev pub extended_query : List ℕ
extended_query =
    Types.type_parse ∷ Types.type_bind ∷ Types.type_close ∷ Types.type_describe ∷ Types.type_execute
    ∷ Types.type_flush ∷ []

unfoldable pub eqp_switch : ℕ → Step (Unit {0}) → Step (Unit {0})
eqp_switch fuel again b =
    if b.packet.typ == Types.type_sync
    then and_then (sync fuel b) (unless_ok again)
    else (if contains extended_query b.packet.typ
        then unless_failed (server_write b) again
        else again (peer_fail (err_unexpected_packet b) b))

unfoldable pub eqp_read : ℕ → Step (Unit {0}) → Bool × Binding → Out (Unit {0}) × Binding
eqp_read fuel again (true, b) = eqp_switch fuel again b
eqp_read fuel again (false, b) = sync_until_ready fuel b

unfoldable pub eqp_loop : ℕ → Step (Unit {0})
eqp_loop zero b = (out_of_fuel, b)
eqp_loop (suc fuel) b = eqp_read (suc fuel) (eqp_loop fuel) (peer_read b)

unfoldable pub eqp : ℕ → Step (Unit {0})
eqp fuel b = unless_failed (server_write b) (eqp_loop fuel)

-- `packets.ReadyForQuery(binding.TxState)`.
abbrev pub ready_for_query : ℕ → Packet
ready_for_query s = record { typ = Types.type_ready_for_query; payload = s ∷ [] }

-- The switch of `transaction`: what one packet of the peer makes the server do.
unfoldable pub transaction_switch : ℕ → Step (Unit {0})
transaction_switch fuel b =
    if b.packet.typ == Types.type_query
    then query fuel b
    else (if b.packet.typ == Types.type_function_call
        then function_call fuel b
        else (if b.packet.typ == Types.type_sync
            then (done tt, peer_write (record b { packet = ready_for_query b.tx_state }))
            else (if contains extended_query b.packet.typ
                then eqp fuel b
                else (done tt, peer_fail (err_unexpected_packet b) b))))

-- After the abort the server must be idle.
abbrev pub check_idle : Unit {0} → Step (Unit {0})
check_idle _ b = if b.tx_state == b'I' then (done tt, b) else (failed expected_idle, b)

unfoldable pub transaction_read : ℕ → Step (Unit {0}) → Bool × Binding → Out (Unit {0}) × Binding
transaction_read fuel again (true, b) = again b
transaction_read fuel again (false, b) = and_then (query_string fuel (codes "ABORT;") b) check_idle

unfoldable pub after_switch : ℕ → Step (Unit {0}) → Unit {0} → Step (Unit {0})
after_switch fuel again _ b =
    if b.tx_state == b'I' then (done tt, b) else transaction_read fuel again (peer_read b)

unfoldable pub transaction_loop : ℕ → Step (Unit {0})
transaction_loop zero b = (out_of_fuel, b)
transaction_loop (suc fuel) b =
    and_then (transaction_switch (suc fuel) b) (after_switch (suc fuel) (transaction_loop fuel))

-- `Transaction`, `QueryString` and `Sync` make the binding; its `tx_state` is 0.
abbrev pub bind_peer : Conn → Bool → Conn → Packet → Binding
bind_peer server has_peer peer p = record {
  server = server;
  peer = has_peer;
  peer_conn = peer;
  packet = p;
  peer_error = none;
  tx_state = 0;
}

unfoldable pub transaction : ℕ → Conn → Bool → Conn → Packet → Out (Unit {0}) × Binding
transaction fuel server has_peer peer initial =
    transaction_loop fuel (bind_peer server has_peer peer initial)

unfoldable pub query_string_call : ℕ → Conn → Bool → Conn → List ℕ → Out (Unit {0}) × Binding
query_string_call fuel server has_peer peer q =
    query_string fuel q (bind_peer server has_peer peer (text_packet Types.type_query q))

unfoldable pub sync_call : ℕ → Conn → Bool → Conn → Out Bool × Binding
sync_call fuel server has_peer peer = sync fuel (bind_peer server has_peer peer sync_packet)
