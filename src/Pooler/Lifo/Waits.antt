-- ===== src/Pooler/Lifo/Waits.antt =====
-- The second half of `Acquire` and `Close` in lib/gat/handlers/pool/poolers/lifo/pooler.go: the
-- receive, the timeout, and the end of every wait.
use pggat.Base.{
  ℕ, ◌+◌, ◌<◌, ◌≡◌, refl, sym, ◌∙◌, inl, inr, true, false, none, some, List, [], ◌∷◌, ltb, ltb→lt,
  ==_iff, Bool-cases, if◌then◌else◌, arith,
}
use pggat.Base.Count.{count, remove_all, count-remove_all}
use pggat.Base.Eq.{nat_eq}
use pggat.Slices.{contains}
use pggat.Pooler.Chan.{Chan, Heap, made, receive, write, Received, close-made}
use pggat.Pooler.Lifo.{Pooler, close_waiters, acquire_receive, acquire_timeout}
use pggat.Pooler.Lifo.Rotate.{rotate_lem, contains-count}
use pggat.Pooler.Lifo.Inv.{
  Lives, not_made, kept, waited_on, served, ended, done, Lives-eq, Lives-Waiting, ChanInv, split_at,
}

-- What a receive that goes on leaves of its channel, which is spare again unless it was closed.
receive-Lives :
    {c f w b p : ℕ} (ch : Chan) (r : Received)
    → Lives c f w b p ch
    → 0 < b
    → receive ch ≡ some r
    → Lives c f w 0 (if r.ok then 1 + p else p) r.after
unfolding receive
receive-Lives ch r (not_made h w b p) pos e = absurd (omega arith)
receive-Lives ch r (kept z h w b p s) pos e = absurd (omega arith)
receive-Lives ch r (waited_on z h w b p s) pos e = absurd (ground (arith, s, e))
receive-Lives ch r (served v z h w b p s) pos e =
    kept z h w refl (ground (arith, s, e, p)) (ground (arith, s, e))
receive-Lives ch r (ended z h w b p s) pos e = done h w refl (ground (arith, s, e, p))
receive-Lives ch r (done h w b p) pos e = absurd (omega arith)

pub acquire_receive-ChanInv :
    (p : Pooler) (pending : List ℕ) (c : ℕ) (r : Received)
    → 0 < count c pending
    → receive (p.chan c) ≡ some r
    → ((d : ℕ) → ChanInv p pending d)
    → (q : Pooler) × (acquire_receive p c ≡ some (r.value, q))
      × (q.waiters ≡ p.waiters)
      × (q.queue ≡ p.queue)
      × (q.fresh ≡ p.fresh)
      × ((d : ℕ) → ChanInv q (remove_all c pending) d)
unfolding acquire_receive
acquire_receive-ChanInv p pending c r held e v = (
  q,
  rw (e, acquire_receive) refl,
  refl,
  refl,
  refl,
  split_at c (λ d. ChanInv q (remove_all c pending) d)
      (Lives-eq (receive-Lives (p.chan c) r (v c) held e) refl
        (ground (arith, count-remove_all c c pending)) (ground arith) (ground arith))
      (λ d ne.
        Lives-eq (v d) refl (ground (arith, count-remove_all d c pending)) (ground arith)
          (ground arith)),
)
  where
    q : Pooler
    q = record p { chan = write p.chan c r.after; pool = if r.ok then c ∷ p.pool else p.pool }

-- A pending channel that is not on the list of waiters has something to receive.
pub ready :
    {c f b p : ℕ} (ch : Chan) → Lives c f 0 b p ch → 0 < b → (r : Received) × (receive ch ≡ some r)
unfolding receive
ready ch (not_made h w b p) pos = absurd (omega arith)
ready ch (kept z h w b p s) pos = absurd (omega arith)
ready ch (waited_on z h w b p s) pos = absurd (omega arith)
ready ch (served v z h w b p s) pos =
    (record { value = v; ok = true; after = made }, ground (arith, s))
ready ch (ended z h w b p s) pos = (
  record { value = 0; ok = false; after = record { buffer = none; closed = true } },
  ground (arith, s),
)
ready ch (done h w b p) pos = absurd (omega arith)

-- A timeout never waits under the lock.
pub acquire_timeout-ChanInv :
    (p : Pooler) (pending : List ℕ) (c : ℕ)
    → 0 < count c pending
    → ((d : ℕ) → ChanInv p pending d)
    → (v : ℕ) × (q : Pooler) × (acquire_timeout p c ≡ some (v, q))
      × (q.waiters ≡ remove_all c p.waiters)
      × (q.queue ≡ p.queue)
      × (q.fresh ≡ p.fresh)
      × ((d : ℕ) → ChanInv q (remove_all c pending) d)
unfolding acquire_timeout
acquire_timeout-ChanInv p pending c held v = elim (Bool-cases (contains p.waiters c)) [
  | inl found ↦
      let s = Lives-Waiting (v c) (ground (arith, contains-count p.waiters c)) in
      (
        0,
        q,
        rw (rotate_lem c p.waiters, found) refl,
        refl,
        refl,
        refl,
        split_at c (λ d. ChanInv q (remove_all c pending) d)
            (kept s.real s.old (ground (arith, count-remove_all c c p.waiters))
              (ground (arith, count-remove_all c c pending)) (ground (arith, s.not_spare))
              s.made_chan)
            (λ d ne.
              Lives-eq (v d) (ground (arith, count-remove_all d c p.waiters))
                (ground (arith, count-remove_all d c pending)) (ground arith) refl),
      )
  | inr lost ↦
      let absent : count c p.waiters ≡ 0 = ground (arith, contains-count p.waiters c) in
      let v' : (d : ℕ) → ChanInv u pending d = λ d.
        Lives-eq (v d) (ground (arith, absent, count-remove_all d c p.waiters, ==_iff c d)) refl
          refl refl in
      let (r, e) = ready (p.chan c) (Lives-eq (v c) (sym absent) refl refl refl) held in
      let (q', e', ws, queue, fresh, w) = acquire_receive-ChanInv u pending c r held e v' in
      (r.value, q', rw (rotate_lem c p.waiters, lost) e', ws, queue, fresh, w)
]
  where
    q : Pooler
    q = record p { waiters = remove_all c p.waiters; pool = c ∷ p.pool }

    u : Pooler
    u = record p { waiters = remove_all c p.waiters }

-- Every waiter's channel is closed once, and no other.
close_waiters_lem :
    (ws : List ℕ) (h : Heap)
    → ((c : ℕ) → 0 < count c ws → (h c ≡ made) × (count c ws ≡ 1))
    → (h' : Heap) × (close_waiters ws h ≡ some h')
      × ((d : ℕ)
          → h' d ≡ (if ltb 0 (count d ws) then record { buffer = none; closed = true } else h d))
unfolding close_waiters
close_waiters_lem [] h v = (h, refl, λ d. ground arith)
close_waiters_lem (c ∷ ws) h v =
    let (open_chan, once) = v c (ground arith) in
    let shut : Chan = record { buffer = none; closed = true } in
    let (h', e, after) =
      close_waiters_lem ws (write h c shut) (λ d pos. ground (arith, v d, once)) in
    (h', rw (close-made (h c) open_chan, close_waiters) e, λ d. after d ∙ ground (arith, once))

-- `Close` ends every wait, and panics on no channel.
pub close_waiters-ChanInv :
    (p : Pooler) (pending : List ℕ)
    → ((d : ℕ) → ChanInv p pending d)
    → (h : Heap) × (close_waiters p.waiters p.chan ≡ some h)
      × ((d : ℕ)
          → ChanInv
              (record p { closed = true; servers = []; queue = []; waiters = []; chan = h })
              pending
              d)
close_waiters-ChanInv p pending v =
    let (h, e, after) =
      close_waiters_lem p.waiters p.chan
        λ c pos. let s = Lives-Waiting (v c) pos in (s.made_chan, s.once) in
    (
      h,
      e,
      λ d. elim (Bool-cases (ltb 0 (count d p.waiters))) [
        | inl waits ↦
            let s = Lives-Waiting (v d) (ltb→lt 0 (count d p.waiters) waits) in
            ended s.real s.old refl s.held s.not_spare (after d ∙ rw waits refl)
        | inr idle ↦ Lives-eq (v d) (ground arith) refl refl (after d ∙ rw idle refl)
      ],
    )
