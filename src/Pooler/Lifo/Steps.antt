-- ===== src/Pooler/Lifo/Steps.antt =====
-- Each critical section of lib/gat/handlers/pool/poolers/lifo/pooler.go goes through, and keeps
-- every channel in a stage.
use pggat.Base.{ℕ, ◌+◌, ◌<◌, ◌≡◌, refl, true, false, some, List, [], ◌∷◌, ◌++◌, ◌==◌, arith}
use pggat.Base.Count.{count-append}
use pggat.Base.Eq.{nat_eq}
use pggat.Pooler.Chan.{made, write, send-made}
use pggat.Pooler.Lifo.{Pooler, hand_out}
use pggat.Pooler.Lifo.Inv.{
  waited_on, served, Lives-eq, Lives-made, Lives-Waiting, Lives-Spare, Lives-none, ChanInv,
  split_at,
}

pub ==_refl : (c : ℕ) → (c == c) ≡ true
==_refl c = ground arith

pub hand_out-ChanInv :
    (p : Pooler) (pending : List ℕ) (server : ℕ) (ws : List ℕ)
    → p.waiters ≡ ws
    → ((c : ℕ) → ChanInv p pending c)
    → (q : Pooler) × (hand_out p server ws ≡ some q) × ((c : ℕ) → ChanInv q pending c)
unfolding hand_out
hand_out-ChanInv p pending server [] e v = (record p { queue = p.queue ++ (server ∷ []) }, refl, v)
hand_out-ChanInv p pending server (c ∷ ws) e v =
    let s = Lives-Waiting (v c) (ground arith) in
    (
      q,
      rw (send-made (p.chan c) server s.made_chan, hand_out) refl,
      split_at c (λ d. ChanInv q pending d)
          (served server s.real s.old (ground (arith, s.once)) s.held s.not_spare (ground arith))
          (λ d ne. Lives-eq (v d) (ground arith) refl refl (ground arith)),
    )
  where
    q : Pooler
    q = record p {
      waiters = ws;
      chan = write p.chan c (record { buffer = some server; closed = false });
    }

-- A goroutine that finds no server waits on a channel of its own.
pub start_fresh-ChanInv :
    (p : Pooler) (pending : List ℕ)
    → 0 < p.fresh
    → ((c : ℕ) → ChanInv p pending c)
    → (d : ℕ)
    → ChanInv
        (record p {
          chan = write p.chan p.fresh made;
          fresh = p.fresh + 1;
          waiters = p.waiters ++ (p.fresh ∷ []);
        })
        (p.fresh ∷ pending)
        d
start_fresh-ChanInv p pending pos v =
    let (w, b, s) = Lives-none (v p.fresh) (omega arith) in
    split_at p.fresh (λ d. ChanInv q (p.fresh ∷ pending) d)
      (waited_on pos (omega arith) (ground (arith, count-append p.fresh p.waiters (p.fresh ∷ [])))
        (ground arith) s (ground arith))
      λ d ne.
        Lives-eq (Lives-made (ground arith) (v d))
          (ground (arith, count-append d p.waiters (p.fresh ∷ []))) (ground arith) refl
          (ground arith)
  where
    q : Pooler
    q = record p {
      chan = write p.chan p.fresh made;
      fresh = p.fresh + 1;
      waiters = p.waiters ++ (p.fresh ∷ []);
    }

pub start_spare-ChanInv :
    (p : Pooler) (pending : List ℕ) (c : ℕ) (cs : List ℕ)
    → p.pool ≡ c ∷ cs
    → ((d : ℕ) → ChanInv p pending d)
    → (0 < c)
      × ((d : ℕ)
          → ChanInv (record p { pool = cs; waiters = p.waiters ++ (c ∷ []) }) (c ∷ pending) d)
start_spare-ChanInv p pending c cs e v =
    let s = Lives-Spare (v c) (ground arith) in
    (
      s.real,
      split_at c (λ d. ChanInv q (c ∷ pending) d)
          (waited_on s.real s.old (ground (arith, s.not_waiting, count-append c p.waiters (c ∷ [])))
            (ground (arith, s.not_held)) (ground (arith, s.once)) s.made_chan)
          (λ d ne.
            Lives-eq (v d) (ground (arith, count-append d p.waiters (c ∷ []))) (ground arith)
              (ground arith) refl),
    )
  where
    q : Pooler
    q = record p { pool = cs; waiters = p.waiters ++ (c ∷ []) }
