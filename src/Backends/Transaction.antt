-- ===== src/Backends/Transaction.antt =====
-- `transaction` of lib/bouncer/backends/v0/query.go ends, and one that returns leaves the server
-- idle.
use pggat.Base.{
  ℕ, zero, suc, ◌+◌, ◌<◌, ◌≡◌, refl, sym, ap, ◌∙◌, ◌⊎◌, inl, inr, Bool, true, false, List, ◌∷◌,
  arith, length, ◌≢◌, Bool-cases, ◌==◌, ==_iff,
}
use pggat.Base.Eq.{nat_eq}
use pggat.Base.Text.{codes}
use pggat.Slices.{contains}
use pggat.Fed.Types
use pggat.Fed.Conn.{Packet, Error, ok, Conn}
use pggat.Backends.Binding.{Binding, err_unexpected_packet, peer_fail, peer_read, peer_write}
use pggat.Backends.Query.{
  Out, done, failed, out_of_fuel, Step, ready_state, query, query_string, function_call,
}
use pggat.Backends.Sync.{
  extended_query, eqp, transaction_switch, check_idle, transaction_read, after_switch,
  transaction_loop, bind_peer, transaction, ready_for_query,
}
use pggat.Backends.Later.{
  measure, Later, Later-refl, Later-trans, peer_fail-Later, peer_read-Later, peer_write-Later,
  set_packet-Later, peer_write-server, peer_read-server, peer_read_lt, Ends, Ends-Later,
  and_then-Ends,
}
use pggat.Backends.Extended.{eqp-Ends}
use pggat.Backends.Loops.{Ready, Settled, query-Ends, query_string-Ends, function_call-Ends}

-- The transaction state is 0, as at the start, or the one that the server sent last.
abbrev Known : Binding → Type 0
Known b = (b.tx_state ≡ 0) ⊎ Settled b

Known-same : (b c : Binding) → c.server ≡ b.server → c.tx_state ≡ b.tx_state → Known b → Known c
unfolding Settled
Known-same b c server tx (inl fresh) = inl (tx ∙ fresh)
Known-same b c server tx (inr (p, rest, last, z, state)) =
    inr (p, rest, ap (λ (k : Conn). k.received) server ∙ last, z, state ∙ ap ok (sym tx))

failed-Known : (e : Error) (b : Binding) → Known b → Known (peer_fail e b)
unfolding peer_fail
failed-Known e b known = Known-same b (peer_fail e b) refl refl known

transaction_switch-Ends :
    (fuel : ℕ) (b : Binding)
    → measure b < fuel
    → Known b
    → Ends (λ _. Known) b (transaction_switch fuel b)
unfolding transaction_switch
transaction_switch-Ends fuel b m known = elim (Bool-cases (b.packet.typ == Types.type_query)) [
  | inl here ↦ rw here (known_of_ready b (query fuel b) (query-Ends fuel b m))
  | inr t1 ↦ rw t1 (elim (Bool-cases (b.packet.typ == Types.type_function_call)) [
    | inl here ↦ rw here (known_of_ready b (function_call fuel b) (function_call-Ends fuel b m))
    | inr t2 ↦ rw t2 (elim (Bool-cases (b.packet.typ == Types.type_sync)) [
      | inl here ↦
          let c : Binding = record b { packet = ready_for_query b.tx_state } in
          let (server, tx) = peer_write-server c in
          rw here (
            Later-trans (set_packet-Later c.packet b) (peer_write-Later c),
            Known-same b (peer_write c) server tx known,
          )
      | inr t3 ↦ rw t3 (elim (Bool-cases (contains extended_query b.packet.typ)) [
        | inl here ↦ rw here (known_of_ready b (eqp fuel b) (eqp-Ends fuel b m))
        | inr strange ↦ rw strange (
          peer_fail-Later (err_unexpected_packet b) b,
          failed-Known (err_unexpected_packet b) b known,
        )
      ])
    ])
  ])
]
  where
    known_of_ready :
        (b : Binding) (r : Out (Unit {0}) × Binding) → Ends Ready b r → Ends (λ _. Known) b r
    known_of_ready b (done a, c) (l, settled) = (l, inr settled)
    known_of_ready b (failed e, c) l = l
    known_of_ready b (out_of_fuel, c) l = l

-- The server is idle, and has nothing more to say.
abbrev Idle : Unit {0} → Binding → Type 0
Idle _ b = Settled b × (b.tx_state ≡ b'I')

Idle_of_Known :
    (b : Binding) → Known b → (b.tx_state == b'I') ≡ true → Settled b × (b.tx_state ≡ b'I')
Idle_of_Known b (inl fresh) e = absurd (ground (arith, fresh, e))
Idle_of_Known b (inr settled) e = (settled, (==_iff b.tx_state b'I').0 e)

check_idle-Ends : (b : Binding) → Settled b → Ends Idle b (check_idle tt b)
check_idle-Ends b settled = elim (Bool-cases (b.tx_state == b'I')) [
  | inl idle ↦ rw idle (Later-refl b, (settled, (==_iff b.tx_state b'I').0 idle))
  | inr busy ↦ rw busy (Later-refl b)
]

transaction_read-Ends :
    (fuel : ℕ) (again : Step (Unit {0})) (r : Bool × Binding)
    → ((c : Binding) → measure c < fuel → Known c → Ends Idle c (again c))
    → (r.0 ≡ true → measure r.1 < fuel)
    → measure r.1 < suc fuel
    → Known r.1
    → Ends Idle r.1 (transaction_read (suc fuel) again r)
unfolding transaction_read
transaction_read-Ends fuel again (true, b) h m n known = h b (m refl) known
transaction_read-Ends fuel again (false, b) h m n known =
    and_then-Ends Ready Idle b (query_string (suc fuel) (codes "ABORT;") b) check_idle
      (query_string-Ends (suc fuel) (codes "ABORT;") b n)
      (λ _ c l settled. check_idle-Ends c settled)

after_switch-Ends :
    (fuel : ℕ) (again : Step (Unit {0})) (b : Binding)
    → ((c : Binding) → measure c < fuel → Known c → Ends Idle c (again c))
    → measure b < suc fuel
    → Known b
    → Ends Idle b (after_switch (suc fuel) again tt b)
unfolding after_switch
after_switch-Ends fuel again b h m known = elim (Bool-cases (b.tx_state == b'I')) [
  | inl idle ↦ rw idle (Later-refl b, Idle_of_Known b known idle)
  | inr busy ↦
      let (server, tx) = peer_read-server b in
      rw busy (
        Ends-Later Idle (transaction_read (suc fuel) again (peer_read b)) (peer_read-Later b) (
          transaction_read-Ends fuel again (peer_read b) h (λ e. omega (arith, peer_read_lt b e))
            (omega (arith, (peer_read-Later b).shrinks))
            (Known-same b (peer_read b).1 server tx known)))
]

pub transaction_loop-Ends :
    (fuel : ℕ) (b : Binding) → measure b < fuel → Known b → Ends Idle b (transaction_loop fuel b)
unfolding transaction_loop
transaction_loop-Ends zero b m known = absurd (omega arith)
transaction_loop-Ends (suc fuel) b m known =
    and_then-Ends (λ _. Known) Idle b (transaction_switch (suc fuel) b)
      (after_switch (suc fuel) (transaction_loop fuel))
      (transaction_switch-Ends (suc fuel) b m known)
      λ _ c l k.
        after_switch-Ends fuel (transaction_loop fuel) c (transaction_loop-Ends fuel)
          (omega (arith, l.shrinks)) k

Ends-returns :
    (P : Unit {0} → Binding → Type 0) (b : Binding) (r : Out (Unit {0}) × Binding)
    → Ends P b r
    → r.0 ≢ out_of_fuel
Ends-returns P b (done a, c) h = λ e. cc
Ends-returns P b (failed e, c) h = λ e. cc
Ends-returns P b (out_of_fuel, c) h = absurd h

Ends-done :
    (P : Unit {0} → Binding → Type 0) (b : Binding) (r : Out (Unit {0}) × Binding)
    → Ends P b r
    → r.0 ≡ done tt
    → P tt r.1
Ends-done P b (done a, c) (l, p) e = p
Ends-done P b (failed f, c) h e = cc
Ends-done P b (out_of_fuel, c) h e = cc

Later-Ends :
    (P : Unit {0} → Binding → Type 0) (b : Binding) (r : Out (Unit {0}) × Binding)
    → Ends P b r
    → Later b r.1
Later-Ends P b (done a, c) (l, p) = l
Later-Ends P b (failed e, c) l = l
Later-Ends P b (out_of_fuel, c) h = absurd h

module _ (fuel : ℕ) (server : Conn) (has_peer : Bool) (peer : Conn) (initial : Packet)
    (enough : length server.incoming + length peer.incoming < fuel) where
  transaction-Ends :
      Ends Idle
        (bind_peer server has_peer peer initial)
        (transaction fuel server has_peer peer initial)
  unfolding transaction
  transaction-Ends = transaction_loop-Ends fuel _ enough (inl refl)

  -- Every transaction comes to an end: with more fuel than the two connections have reads left, it
  -- returns or fails.
  pub transaction_ends : (transaction fuel server has_peer peer initial).0 ≢ out_of_fuel
  transaction_ends =
      Ends-returns Idle _ (transaction fuel server has_peer peer initial) transaction-Ends

  -- With more fuel than the two connections have reads left, a transaction that returns no error
  -- leaves the server idle: the last packet that was read from it is a ReadyForQuery whose state
  -- is 'I', which is also the state that the binding keeps.
  pub transaction_idle :
      (transaction fuel server has_peer peer initial).0 ≡ done tt
      → let b = (transaction fuel server has_peer peer initial).1 in
        (b.tx_state ≡ b'I')
        × ((p : Packet) × (rest : List Packet) × (b.server.received ≡ p ∷ rest)
            × (p.typ ≡ Types.type_ready_for_query)
            × (ready_state p ≡ ok b'I'))
  unfolding Settled
  transaction_idle e =
      let ((p, rest, last, z, state), idle) =
        Ends-done Idle _ (transaction fuel server has_peer peer initial) transaction-Ends e in
      (idle, (p, rest, last, z, state ∙ ap ok idle))

  -- With more fuel than the two connections have reads left, a transaction with no peer, as the
  -- pool's own queries are, leaves the peer's connection alone.
  pub transaction_no_peer :
      has_peer ≡ false
      → ((transaction fuel server has_peer peer initial).1.peer ≡ false)
        × ((transaction fuel server has_peer peer initial).1.peer_conn ≡ peer)
  transaction_no_peer e =
      let l = Later-Ends Idle _ (transaction fuel server has_peer peer initial) transaction-Ends in
      ground (arith, l.gone, e)
