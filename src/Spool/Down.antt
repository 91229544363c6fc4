-- ===== src/Spool/Down.antt =====
-- What `ScaleDown` of lib/gat/handlers/pool/spool/pool.go returns.
use pggat.Base.{
  ℕ, ◌+◌, ◌-◌, ◌≤◌, ◌<◌, ◌≡◌, refl, ap, ◌∙◌, true, some, [], ◌∷◌, lt→ltb, le→ltb, arith,
}
use pggat.Spool.{Pool, Server, scale_down, scale_down_loop, visit, scale_down_one}

-- An idle server within the timeout, which has been idle for less than the time so far.
turn :
    (now : ℕ) (s : Server) (m : ℕ) (p : Pool)
    → s.idle ≡ true
    → now - s.since ≤ p.idle_timeout
    → now - s.since < m
    → scale_down_one now s (m, p) ≡ (p.idle_timeout - (now - s.since), p)
unfolding scale_down_one
turn now s m p idle fresh less =
    rw (idle, le→ltb p.idle_timeout (now - s.since) fresh, lt→ltb (now - s.since) m less) refl

returns_second :
    (p : Pool) (now j k : ℕ) (a b : Server)
    → p.servers_by_id.keys ≡ j ∷ k ∷ []
    → p.servers_by_id.at j ≡ some a
    → p.servers_by_id.at k ≡ some b
    → a.idle ≡ true
    → b.idle ≡ true
    → now - a.since ≤ p.idle_timeout
    → now - b.since < p.idle_timeout - (now - a.since)
    → now - b.since ≤ p.idle_timeout
    → (scale_down p now).0 ≡ p.idle_timeout - (now - b.since)
unfolding scale_down scale_down_loop visit
returns_second p now j k a b keys at_j at_k idle_a idle_b fresh less fresh_b =
    let start : ℕ × Pool = (p.idle_timeout, p) in
    ap (λ ks. (scale_down_loop now ks start).0) keys
    ∙ (ap (λ o. (visit now ((visit now o start).1.servers_by_id.at k) (visit now o start)).0) at_j
        ∙ (ap (λ mp. (visit now (mp.1.servers_by_id.at k) mp).0)
              (turn now a p.idle_timeout p idle_a fresh (omega (arith, fresh, less)))
            ∙ (ap (λ o. (visit now o (p.idle_timeout - (now - a.since), p)).0) at_k
                ∙ ap (λ mp. mp.0)
                    (turn now b (p.idle_timeout - (now - a.since)) p idle_b fresh_b less))))

-- With two idle servers that the range visits in this order, of which the second became idle later and
-- has been idle for less than the first has left: `ScaleDown` returns the time that the second has left,
-- so the next call comes after the first is past the timeout.
pub scale_down_late :
    (p : Pool) (now j k : ℕ) (a b : Server)
    → p.servers_by_id.keys ≡ j ∷ k ∷ []
    → p.servers_by_id.at j ≡ some a
    → p.servers_by_id.at k ≡ some b
    → a.idle ≡ true
    → b.idle ≡ true
    → now - a.since ≤ p.idle_timeout
    → a.since < b.since
    → b.since ≤ now
    → now - b.since < p.idle_timeout - (now - a.since)
    → ((scale_down p now).0 ≡ p.idle_timeout - (now - b.since))
      × (a.since + p.idle_timeout < now + (scale_down p now).0)
scale_down_late p now j k a b keys at_j at_k idle_a idle_b fresh later past less =
    let same =
      returns_second p now j k a b keys at_j at_k idle_a idle_b fresh less
        (omega (arith, later, past, fresh, less)) in
    (same, omega (arith, same, later, past, fresh, less))
