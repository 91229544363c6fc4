-- ===== src/Backends/Extended.antt =====
-- `sync` and `eqp` of lib/bouncer/backends/v0/query.go end, and come back with the server ready.
use pggat.Base.{
  ℕ, zero, suc, ◌≤◌, ◌<◌, ◌≡◌, refl, inl, inr, Bool, true, false, arith, Bool-cases, ◌==◌,
}
use pggat.Base.Eq.{nat_eq}
use pggat.Slices.{contains}
use pggat.Fed.Types
use pggat.Backends.Binding.{
  Binding, err_unexpected_packet, server_read, server_write, peer_read, peer_write,
}
use pggat.Backends.Query.{done, Step, copy_in, copy_out}
use pggat.Backends.Sync.{
  sync_relayed, sync_switch, sync_loop, sync, sync_packet, unless_ok, sync_until_ready,
  extended_query, eqp_switch, eqp_read, eqp_loop, eqp,
}
use pggat.Backends.Later.{
  measure, Later, Later-refl, server_read-Later, server_write-Later, peer_fail-Later,
  peer_read-Later, peer_write-Later, set_packet-Later, Heard, server_read-Heard, server_read_lt,
  peer_read_lt, Ends, Ends-Later, and_then-Ends, unless_failed-Ends,
}
use pggat.Backends.Loops.{
  Any, Ready, Settled, Continues, Continues-Later, copy_in-Ends, copy_out-Ends, ready_case-Ends,
}

-- `sync` returned: with `true` it has read a ReadyForQuery, with `false` at least one packet.
abbrev Synced : ℕ → Bool → Binding → Type 0
Synced n true b = Settled b
Synced n false b = measure b < n

sync_switch-Ends :
    (n fuel bound : ℕ) (again : Step Bool) (b : Binding)
    → ((c : Binding) → measure c < bound → measure c < n → Ends (Synced n) c (again c))
    → measure b < bound
    → bound ≤ fuel
    → measure b < n
    → Heard b
    → Ends (Synced n) b (sync_switch fuel again b)
unfolding sync_switch
sync_switch-Ends n fuel bound again b h m le lt heard =
    elim (Bool-cases (contains sync_relayed b.packet.typ)) [
      | inl relayed ↦ rw relayed (
          Ends-Later (Synced n) (again (peer_write b)) (peer_write-Later b) (
            h (peer_write b) (omega (arith, (peer_write-Later b).shrinks))
              (omega (arith, (peer_write-Later b).shrinks))))
      | inr t1 ↦ rw t1 (elim (Bool-cases (b.packet.typ == Types.type_copy_in_response)) [
        | inl here ↦ rw here (
            and_then-Ends Any (Synced n) b (copy_in fuel b) (λ _ c. (done false, c))
              (copy_in-Ends fuel b (omega arith))
              (λ _ c l _. (Later-refl c, omega (arith, l.shrinks))))
        | inr t2 ↦ rw t2 (elim (Bool-cases (b.packet.typ == Types.type_copy_out_response)) [
          | inl here ↦ rw here (
              and_then-Ends Any (Synced n) b (copy_out fuel b) (λ _. again)
                (copy_out-Ends fuel b (omega arith))
                (λ _ c l _. h c (omega (arith, l.shrinks)) (omega (arith, l.shrinks))))
          | inr t3 ↦ rw t3 (elim (Bool-cases (b.packet.typ == Types.type_ready_for_query)) [
            | inl here ↦
                rw here (ready_case-Ends (Synced n) true b (λ c settled. settled) heard here)
            | inr strange ↦ rw strange (Later-refl b)
          ])
        ])
      ])
    ]

sync_loop-Ends :
    (n fuel : ℕ) (b : Binding)
    → measure b < fuel
    → measure b ≤ n
    → Ends (Synced n) b (sync_loop fuel b)
unfolding sync_loop
sync_loop-Ends n zero b m le = absurd (omega arith)
sync_loop-Ends n (suc fuel) b m le =
    unless_failed-Ends (Synced n) b (server_read b) (sync_switch (suc fuel) (sync_loop fuel))
      (server_read-Later b)
      λ e.
        sync_switch-Ends n (suc fuel) fuel (sync_loop fuel) (server_read b).1
          (λ c lt le'. sync_loop-Ends n fuel c lt (omega arith)) (omega (arith, server_read_lt b e))
          (omega arith) (omega (arith, server_read_lt b e)) (server_read-Heard b e)

pub sync-Ends :
    (fuel : ℕ) (b : Binding) → measure b < fuel → Ends (Synced (measure b)) b (sync fuel b)
unfolding sync
sync-Ends fuel b m =
    unless_failed-Ends (Synced (measure b)) b (server_write b) (sync_loop fuel)
      (server_write-Later b)
      λ e.
        sync_loop-Ends (measure b) fuel (server_write b).1
          (omega (arith, (server_write-Later b).shrinks)) (server_write-Later b).shrinks

-- After a `sync`: done if it was ready, and else the loop goes on with fewer reads left.
unless_ok-Ends :
    (fuel : ℕ) (again : Step (Unit {0})) (b : Binding)
    → Continues Ready fuel again
    → measure b ≤ fuel
    → (a : Bool) (c : Binding) → Later b c
    → Synced (measure b) a c
    → Ends Ready c (unless_ok again a c)
unless_ok-Ends fuel again b h m true c l settled = (Later-refl c, settled)
unless_ok-Ends fuel again b h m false c l less = h c (omega arith)

sync_until_ready-Ends : (fuel : ℕ) → Continues Ready fuel (sync_until_ready fuel)
unfolding sync_until_ready
sync_until_ready-Ends zero b m = absurd (omega arith)
sync_until_ready-Ends (suc fuel) b m =
    let c : Binding = record b { packet = sync_packet } in
    Ends-Later Ready (sync_until_ready (suc fuel) b) (set_packet-Later sync_packet b) (
      and_then-Ends (Synced (measure c)) Ready c (sync (suc fuel) c)
        (unless_ok (sync_until_ready fuel)) (sync-Ends (suc fuel) c m)
        (unless_ok-Ends fuel (sync_until_ready fuel) c (sync_until_ready-Ends fuel) (omega arith)))

eqp_switch-Ends :
    (fuel bound : ℕ) (again : Step (Unit {0})) (b : Binding)
    → Continues Ready bound again
    → measure b < bound
    → bound ≤ fuel
    → Ends Ready b (eqp_switch fuel again b)
unfolding eqp_switch
eqp_switch-Ends fuel bound again b h m le = elim (Bool-cases (b.packet.typ == Types.type_sync)) [
  | inl here ↦ rw here (
      and_then-Ends (Synced (measure b)) Ready b (sync fuel b) (unless_ok again)
        (sync-Ends fuel b (omega arith)) (unless_ok-Ends bound again b h (omega arith)))
  | inr t1 ↦ rw t1 (elim (Bool-cases (contains extended_query b.packet.typ)) [
    | inl here ↦ rw here (
        unless_failed-Ends Ready b (server_write b) again (server_write-Later b)
          λ e. h (server_write b).1 (omega (arith, (server_write-Later b).shrinks)))
    | inr strange ↦
        rw strange
          (Continues-Later Ready bound again h (peer_fail-Later (err_unexpected_packet b) b) m)
  ])
]

eqp_read-Ends :
    (fuel : ℕ) (again : Step (Unit {0})) (r : Bool × Binding)
    → Continues Ready fuel again
    → (r.0 ≡ true → measure r.1 < fuel)
    → measure r.1 < suc fuel
    → Ends Ready r.1 (eqp_read (suc fuel) again r)
unfolding eqp_read
eqp_read-Ends fuel again (true, b) h m n =
    eqp_switch-Ends (suc fuel) fuel again b h (m refl) (omega arith)
eqp_read-Ends fuel again (false, b) h m n = sync_until_ready-Ends (suc fuel) b n

eqp_loop-Ends : (fuel : ℕ) → Continues Ready fuel (eqp_loop fuel)
unfolding eqp_loop
eqp_loop-Ends zero b m = absurd (omega arith)
eqp_loop-Ends (suc fuel) b m =
    Ends-Later Ready (eqp_read (suc fuel) (eqp_loop fuel) (peer_read b)) (peer_read-Later b) (
      eqp_read-Ends fuel (eqp_loop fuel) (peer_read b) (eqp_loop-Ends fuel)
        (λ e. omega (arith, peer_read_lt b e)) (omega (arith, (peer_read-Later b).shrinks)))

-- An extended query that returns has read the server's ReadyForQuery, and nothing after it.
pub eqp-Ends : (fuel : ℕ) → Continues Ready fuel (eqp fuel)
unfolding eqp
eqp-Ends fuel b m =
    unless_failed-Ends Ready b (server_write b) (eqp_loop fuel) (server_write-Later b)
      λ e. eqp_loop-Ends fuel (server_write b).1 (omega (arith, (server_write-Later b).shrinks))
