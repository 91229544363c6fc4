-- ===== src/Pooler/Lifo/Order.antt =====
-- Who gets which server from lib/gat/handlers/pool/poolers/lifo/pooler.go.
use pggat.Base.{
  ℕ, ◌≡◌, refl, ap, ◌∙◌, true, false, none, some, List, [], ◌∷◌, ◌++◌, ◌==◌, if◌then◌else◌, arith,
}
use pggat.Base.Count.{remove_all, count-remove_all}
use pggat.Base.Eq.{nat_eq}
use pggat.Slices.{contains}
use pggat.Slices.Laws.{erase, remove-erase}
use pggat.Pooler.Chan.{Chan, Received, receive, write, send-made}
use pggat.Pooler.Lifo.{
  Pooler, returns, top, below_top, hand_out, release, delete_server, start_with, acquire_start,
}
use pggat.Pooler.Lifo.Rotate.{contains-count}
use pggat.Pooler.Lifo.Inv.{Inv, Lives-Waiting}

top-append : (x s : ℕ) (xs : List ℕ) → top x (xs ++ (s ∷ [])) ≡ s
top-append x s [] = refl
top-append x s (y ∷ ys) = top-append y s ys

below_top-append : (x s : ℕ) (xs : List ℕ) → below_top x (xs ++ (s ∷ [])) ≡ x ∷ xs
below_top-append x s [] = refl
below_top-append x s (y ∷ ys) = ap (◌∷◌ x) (below_top-append y s ys)

start_with-append :
    (p : Pooler) (s : ℕ) (queue : List ℕ)
    → start_with p (queue ++ (s ∷ [])) ≡ (returns s, record p { queue = queue })
unfolding start_with
start_with-append p s [] = refl
start_with-append p s (x ∷ xs) = rw (top-append x s xs, below_top-append x s xs) refl

acquire_open : (p : Pooler) → p.closed ≡ false → acquire_start p ≡ start_with p p.queue
unfolding acquire_start
acquire_open p working = ap (λ shut. if shut then (returns 0, p) else start_with p p.queue) working

-- The pooler is last in, first out: in an open pooler where nobody waits, a server of the pooler that
-- is released is the one that the next `Acquire` returns, and the pooler is then as it was before.
pub release-acquire :
    (p : Pooler) (s : ℕ)
    → p.closed ≡ false
    → contains p.servers s ≡ true
    → p.waiters ≡ []
    → (q : Pooler) × (release p s ≡ some q) × (acquire_start q ≡ (returns s, p))
unfolding release hand_out
release-acquire p s working known idle = (
  record p { queue = p.queue ++ (s ∷ []) },
  rw known (ap (hand_out p s) idle),
  acquire_open (record p { queue = p.queue ++ (s ∷ []) }) working
      ∙ start_with-append (record p { queue = p.queue ++ (s ∷ []) }) s p.queue,
)

-- A server of the pooler that is released goes to whoever has waited longest: it stands in that
-- waiter's channel, the other waiters keep their order, and the queue is left alone.
pub release_serves_oldest :
    (p : Pooler) (pending : List ℕ) (s c : ℕ) (ws : List ℕ)
    → Inv (record { pooler = p; pending = pending })
    → contains p.servers s ≡ true
    → p.waiters ≡ c ∷ ws
    → (q : Pooler) × (release p s ≡ some q)
      × (q.waiters ≡ ws)
      × (q.queue ≡ p.queue)
      × ((r : Received) × (receive (q.chan c) ≡ some r) × (r.value ≡ s) × (r.ok ≡ true))
unfolding release hand_out receive
release_serves_oldest p pending s c ws v known e =
    let wait = Lives-Waiting (v.chans c) (ground (arith, e)) in
    let full : Chan = record { buffer = some s; closed = false } in
    let self : (c == c) ≡ true = ground arith in
    (
      record p { waiters = ws; chan = write p.chan c full },
      rw known (ap (hand_out p s) e ∙ rw (send-made (p.chan c) s wait.made_chan, hand_out) refl),
      refl,
      refl,
      (
        record { value = s; ok = true; after = record { buffer = none; closed = false } },
        rw self refl,
        refl,
        refl,
      ),
    )

-- A deleted server is taken off the queue, and a release of it after that does nothing.
pub delete-release :
    (p : Pooler) (s : ℕ)
    → (q : Pooler) × (delete_server p s ≡ some q)
      × (q.queue ≡ erase s p.queue)
      × (release q s ≡ some q)
unfolding delete_server release
delete-release p s =
    let (array, e, _) = remove-erase p.queue s in
    let gone : contains (remove_all s p.servers) s ≡ false =
      ground (arith, contains-count (remove_all s p.servers) s, count-remove_all s s p.servers) in
    (
      record p { queue = erase s p.queue; servers = remove_all s p.servers },
      rw (e, delete_server) refl,
      refl,
      rw gone refl,
    )
