-- ===== src/Backends/Loops.antt =====
-- The copy loops, `query` and `functionCall` of lib/bouncer/backends/v0/query.go end: fuel above
-- the number of reads that are left is enough.
use pggat.Base.{
  ℕ, zero, suc, ◌≤◌, ◌<◌, ◌≡◌, refl, sym, ap, ◌∙◌, inl, inr, Bool, true, false, List, [], ◌∷◌,
  arith, Bool-cases, ◌==◌, ==_iff,
}
use pggat.Base.Eq.{nat_eq}
use pggat.Base.Text.{codes}
use pggat.Slices.{contains}
use pggat.Fed.Types
use pggat.Fed.Conn.{Packet, Result, ok, err, Conn}
use pggat.Backends.Binding.{
  Binding, err_unexpected_packet, server_read, server_write, peer_read, peer_write,
}
use pggat.Backends.Query.{
  Step, copy_in_switch, copy_in_read, copy_in_loop, copy_in, copy_out_relayed, copy_out_switch,
  copy_out_loop, copy_out, ready_state, on_ready, ready_case, query_relayed, query_switch,
  query_loop, query, query_string, function_call_relayed, function_call_switch, function_call_loop,
  function_call, text_packet,
}
use pggat.Backends.Later.{
  measure, Later, Later-refl, Later-trans, server_read-Later, server_write-Later, peer_fail-Later,
  peer_read-Later, peer_write-Later, set_packet-Later, set_ready-Later, peer_write-server, Heard,
  server_read-Heard, server_read_lt, peer_read_lt, Ends, Ends-Later, and_then-Ends,
  unless_failed-Ends, returning-Ends,
}

abbrev pub Any : {A : Type 0} → A → Binding → Type 0
Any a b = Unit {0}

-- What is left of a loop ends wherever fewer than `fuel` reads are left.
abbrev pub Continues : {A : Type 0} → (A → Binding → Type 0) → ℕ → Step A → Type 0
Continues P fuel again = (c : Binding) → measure c < fuel → Ends P c (again c)

pub Continues-Later :
    {A : Type 0} (P : A → Binding → Type 0) (fuel : ℕ) (again : Step A) {b c : Binding}
    → Continues P fuel again
    → Later b c
    → measure b < fuel
    → Ends P b (again c)
Continues-Later P fuel again {c = c} h l m =
    Ends-Later P (again c) l (h c (omega (arith, l.shrinks)))

copy_in_switch-Ends :
    (fuel : ℕ) (again : Step (Unit {0})) (b : Binding)
    → Continues Any fuel again
    → measure b < fuel
    → Ends Any b (copy_in_switch again b)
unfolding copy_in_switch
copy_in_switch-Ends fuel again b h m = elim (Bool-cases (b.packet.typ == Types.type_copy_data)) [
  | inl data_packet ↦ rw data_packet (
      unless_failed-Ends Any b (server_write b) again (server_write-Later b)
        λ e. h (server_write b).1 (omega (arith, (server_write-Later b).shrinks)))
  | inr other ↦
      rw other
        (elim (Bool-cases
          (contains (Types.type_copy_done ∷ Types.type_copy_fail ∷ []) b.packet.typ)) [
            | inl last ↦
                rw last (returning-Ends Any tt b (server_write b) (server_write-Later b) tt)
            | inr strange ↦
                rw strange
                  (Continues-Later Any fuel again h (peer_fail-Later (err_unexpected_packet b) b) m)
          ])
]

copy_in_read-Ends :
    (fuel : ℕ) (again : Step (Unit {0})) (r : Bool × Binding)
    → Continues Any fuel again
    → (r.0 ≡ true → measure r.1 < fuel)
    → Ends Any r.1 (copy_in_read again r)
unfolding copy_in_read
copy_in_read-Ends fuel again (true, b) h m = copy_in_switch-Ends fuel again b h (m refl)
copy_in_read-Ends fuel again (false, b) h m =
    let failing : Binding = record b {
      packet = text_packet Types.type_copy_fail (codes "peer failed");
    } in
    returning-Ends Any tt b (server_write failing)
      (Later-trans (set_packet-Later failing.packet b) (server_write-Later failing)) tt

copy_in_loop-Ends : (fuel : ℕ) → Continues Any fuel (copy_in_loop fuel)
unfolding copy_in_loop
copy_in_loop-Ends zero b m = absurd (omega arith)
copy_in_loop-Ends (suc fuel) b m =
    Ends-Later Any (copy_in_read (copy_in_loop fuel) (peer_read b)) (peer_read-Later b) (
      copy_in_read-Ends fuel (copy_in_loop fuel) (peer_read b) (copy_in_loop-Ends fuel)
        (λ e. omega (arith, peer_read_lt b e)))

pub copy_in-Ends : (fuel : ℕ) → Continues Any fuel (copy_in fuel)
unfolding copy_in
copy_in-Ends fuel b m =
    Continues-Later Any fuel (copy_in_loop fuel) (copy_in_loop-Ends fuel) (peer_write-Later b) m

copy_out_switch-Ends :
    (fuel : ℕ) (again : Step (Unit {0})) (b : Binding)
    → Continues Any fuel again
    → measure b < fuel
    → Ends Any b (copy_out_switch again b)
unfolding copy_out_switch
copy_out_switch-Ends fuel again b h m = elim (Bool-cases (contains copy_out_relayed b.packet.typ)) [
  | inl relayed ↦ rw relayed (Continues-Later Any fuel again h (peer_write-Later b) m)
  | inr other ↦
      rw other
        (elim (Bool-cases
          (contains (Types.type_copy_done ∷ Types.type_markiplier_response ∷ []) b.packet.typ)) [
            | inl last ↦ rw last (peer_write-Later b, tt)
            | inr strange ↦ rw strange (Later-refl b)
          ])
]

copy_out_loop-Ends : (fuel : ℕ) → Continues Any fuel (copy_out_loop fuel)
unfolding copy_out_loop
copy_out_loop-Ends zero b m = absurd (omega arith)
copy_out_loop-Ends (suc fuel) b m =
    unless_failed-Ends Any b (server_read b) (copy_out_switch (copy_out_loop fuel))
      (server_read-Later b)
      λ e.
        copy_out_switch-Ends fuel (copy_out_loop fuel) (server_read b).1 (copy_out_loop-Ends fuel)
          (omega (arith, server_read_lt b e))

pub copy_out-Ends : (fuel : ℕ) → Continues Any fuel (copy_out fuel)
unfolding copy_out
copy_out-Ends fuel b m =
    Continues-Later Any fuel (copy_out_loop fuel) (copy_out_loop-Ends fuel) (peer_write-Later b) m

-- The last packet of the server is a ReadyForQuery, and the transaction state is the one in it.
unfoldable pub Settled : Binding → Type 0
Settled b =
    (p : Packet) × (rest : List Packet) × (b.server.received ≡ p ∷ rest)
    × (p.typ ≡ Types.type_ready_for_query)
    × (ready_state p ≡ ok b.tx_state)

on_ready-Ends :
    {A : Type 0} (P : A → Binding → Type 0) (a : A) (r : Result ℕ) (b : Binding)
    → ((c : Binding) → Settled c → P a c)
    → ready_state b.packet ≡ r
    → Heard b
    → b.packet.typ ≡ Types.type_ready_for_query
    → Ends P b (on_ready a r b)
unfolding on_ready Settled
on_ready-Ends P a (err e) b post same heard z = Later-refl b
on_ready-Ends P a (ok s) b post same (rest, heard) z =
    let c : Binding = record b {
      packet = record { typ = Types.type_ready_for_query; payload = s ∷ [] };
      tx_state = s;
    } in
    let (server, tx) = peer_write-server c in
    (
      Later-trans (set_ready-Later c.packet s b) (peer_write-Later c),
      post (peer_write c)
          (b.packet, rest, ap (λ (k : Conn). k.received) server ∙ heard, z, same ∙ ap ok (sym tx)),
    )

pub ready_case-Ends :
    {A : Type 0} (P : A → Binding → Type 0) (a : A) (b : Binding)
    → ((c : Binding) → Settled c → P a c)
    → Heard b
    → (b.packet.typ == Types.type_ready_for_query) ≡ true
    → Ends P b (ready_case a b)
unfolding ready_case
ready_case-Ends P a b post heard z =
    on_ready-Ends P a (ready_state b.packet) b post refl heard
      ((==_iff b.packet.typ Types.type_ready_for_query).0 z)

abbrev pub Ready : {A : Type 0} → A → Binding → Type 0
Ready a b = Settled b

query_switch-Ends :
    (fuel bound : ℕ) (again : Step (Unit {0})) (b : Binding)
    → Continues Ready bound again
    → measure b < bound
    → bound ≤ fuel
    → Heard b
    → Ends Ready b (query_switch fuel again b)
unfolding query_switch
query_switch-Ends fuel bound again b h m le heard =
    elim (Bool-cases (contains query_relayed b.packet.typ)) [
      | inl relayed ↦ rw relayed (Continues-Later Ready bound again h (peer_write-Later b) m)
      | inr t1 ↦ rw t1 (elim (Bool-cases (b.packet.typ == Types.type_copy_in_response)) [
        | inl here ↦ rw here (
            and_then-Ends Any Ready b (copy_in fuel b) (λ _. again)
              (copy_in-Ends fuel b (omega arith)) (λ _ c l _. h c (omega (arith, l.shrinks))))
        | inr t2 ↦ rw t2 (elim (Bool-cases (b.packet.typ == Types.type_copy_out_response)) [
          | inl here ↦ rw here (
              and_then-Ends Any Ready b (copy_out fuel b) (λ _. again)
                (copy_out-Ends fuel b (omega arith)) (λ _ c l _. h c (omega (arith, l.shrinks))))
          | inr t3 ↦ rw t3 (elim (Bool-cases (b.packet.typ == Types.type_ready_for_query)) [
            | inl here ↦ rw here (ready_case-Ends Ready tt b (λ c h. h) heard here)
            | inr strange ↦ rw strange (Later-refl b)
          ])
        ])
      ])
    ]

query_loop-Ends : (fuel : ℕ) → Continues Ready fuel (query_loop fuel)
unfolding query_loop
query_loop-Ends zero b m = absurd (omega arith)
query_loop-Ends (suc fuel) b m =
    unless_failed-Ends Ready b (server_read b) (query_switch (suc fuel) (query_loop fuel))
      (server_read-Later b)
      λ e.
        query_switch-Ends (suc fuel) fuel (query_loop fuel) (server_read b).1 (query_loop-Ends fuel)
          (omega (arith, server_read_lt b e)) (omega arith) (server_read-Heard b e)

-- A query that returns has read the server's ReadyForQuery, and nothing after it.
pub query-Ends : (fuel : ℕ) → Continues Ready fuel (query fuel)
unfolding query
query-Ends fuel b m =
    unless_failed-Ends Ready b (server_write b) (query_loop fuel) (server_write-Later b)
      λ e. query_loop-Ends fuel (server_write b).1 (omega (arith, (server_write-Later b).shrinks))

pub query_string-Ends : (fuel : ℕ) (q : List ℕ) → Continues Ready fuel (query_string fuel q)
unfolding query_string
query_string-Ends fuel q b m =
    let p : Packet = text_packet Types.type_query q in
    Continues-Later Ready fuel (query fuel) (query-Ends fuel) (set_packet-Later p b) m

function_call_switch-Ends :
    (fuel : ℕ) (again : Step (Unit {0})) (b : Binding)
    → Continues Ready fuel again
    → measure b < fuel
    → Heard b
    → Ends Ready b (function_call_switch again b)
unfolding function_call_switch
function_call_switch-Ends fuel again b h m heard =
    elim (Bool-cases (contains function_call_relayed b.packet.typ)) [
      | inl relayed ↦ rw relayed (Continues-Later Ready fuel again h (peer_write-Later b) m)
      | inr t1 ↦ rw t1 (elim (Bool-cases (b.packet.typ == Types.type_ready_for_query)) [
        | inl here ↦ rw here (ready_case-Ends Ready tt b (λ c h. h) heard here)
        | inr strange ↦ rw strange (Later-refl b)
      ])
    ]

function_call_loop-Ends : (fuel : ℕ) → Continues Ready fuel (function_call_loop fuel)
unfolding function_call_loop
function_call_loop-Ends zero b m = absurd (omega arith)
function_call_loop-Ends (suc fuel) b m =
    unless_failed-Ends Ready b (server_read b) (function_call_switch (function_call_loop fuel))
      (server_read-Later b)
      λ e.
        function_call_switch-Ends fuel (function_call_loop fuel) (server_read b).1
          (function_call_loop-Ends fuel) (omega (arith, server_read_lt b e)) (server_read-Heard b e)

pub function_call-Ends : (fuel : ℕ) → Continues Ready fuel (function_call fuel)
unfolding function_call
function_call-Ends fuel b m =
    unless_failed-Ends Ready b (server_write b) (function_call_loop fuel) (server_write-Later b)
      λ e.
        function_call_loop-Ends fuel (server_write b).1
          (omega (arith, (server_write-Later b).shrinks))
