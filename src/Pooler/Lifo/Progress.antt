-- ===== src/Pooler/Lifo/Progress.antt =====
-- The whole of lib/gat/handlers/pool/poolers/lifo/pooler.go under any interleaving.
use mathlib.Core.Path.{subst}
use pggat.Base.{
  ℕ, zero, suc, ◌≡◌, refl, inl, inr, true, false, Option, some, List, [], ◌∷◌, ◌++◌, ◌==◌,
  Bool-cases, arith,
}
use pggat.Base.Count.{remove_all}
use pggat.Base.Eq.{nat_eq}
use pggat.Slices.{contains}
use pggat.Slices.Laws.{erase, remove-erase}
use pggat.Pooler.Lifo.{
  Pooler, waits, new_pooler, hand_out, release, add_server, delete_server, take_chan, start_with,
  acquire_start, close_pooler,
}
use pggat.Pooler.Lifo.Rotate.{contains-count}
use pggat.Pooler.Lifo.System.{
  World, Event, adds, deletes, releases, receives, times_out, starts, closes, step, Enabled,
  initial, begin,
}
use pggat.Pooler.Lifo.Inv.{not_made, done, ChanInv, IsFair, Inv}
use pggat.Pooler.Lifo.Steps.{hand_out-ChanInv, start_fresh-ChanInv, start_spare-ChanInv}
use pggat.Pooler.Lifo.Waits.{
  acquire_receive-ChanInv, acquire_timeout-ChanInv, close_waiters-ChanInv,
}

hand_out-IsFair :
    (p q : Pooler) (server : ℕ) (ws : List ℕ)
    → p.waiters ≡ ws
    → IsFair p
    → hand_out p server ws ≡ some q
    → IsFair q × (q.fresh ≡ p.fresh)
unfolding hand_out
hand_out-IsFair p q server [] e f h = ground (arith, f, h)
hand_out-IsFair p q server (c ∷ ws) e f h = ground (arith, e, f, h)

abbrev Goes : List ℕ → Option Pooler → Type 0
Goes pending r = (q : Pooler) × (r ≡ some q) × Inv (record { pooler = q; pending = pending })

release-Goes :
    (p : Pooler) (pending : List ℕ) (server : ℕ)
    → Inv (record { pooler = p; pending = pending })
    → Goes pending (release p server)
unfolding release
release-Goes p pending server v = elim (Bool-cases (contains p.servers server)) [
  | inl known ↦
      let (q, e, w) = hand_out-ChanInv p pending server p.waiters refl v.chans in
      let (fair, fresh) = hand_out-IsFair p q server p.waiters refl v.fair e in
      (q, rw known e, record { live = omega (arith, v.live, fresh); chans = w; fair = fair })
  | inr unknown ↦ (p, rw unknown refl, v)
]

add_server-Goes :
    (p : Pooler) (pending : List ℕ) (server : ℕ)
    → Inv (record { pooler = p; pending = pending })
    → Goes pending (add_server p server)
unfolding add_server
add_server-Goes p pending server v =
    release-Goes _ pending server (record { live = v.live; chans = v.chans; fair = v.fair })

erase-nil : (s : ℕ) (queue : List ℕ) → queue ≡ [] → erase s queue ≡ []
unfolding erase
erase-nil s queue e = rw e refl

delete_server-Goes :
    (p : Pooler) (pending : List ℕ) (server : ℕ)
    → Inv (record { pooler = p; pending = pending })
    → Goes pending (delete_server p server)
unfolding delete_server
delete_server-Goes p pending server v =
    let (array, e, _) = remove-erase p.queue server in
    (
      record p { queue = erase server p.queue; servers = remove_all server p.servers },
      rw (e, delete_server) refl,
      record {
        live = v.live;
        chans = v.chans;
        fair = ground (arith, v.fair, erase-nil server p.queue);
      },
    )

close_pooler-Goes :
    (p : Pooler) (pending : List ℕ)
    → Inv (record { pooler = p; pending = pending })
    → Goes pending (close_pooler p)
unfolding close_pooler
close_pooler-Goes p pending v =
    let (h, e, w) = close_waiters-ChanInv p pending v.chans in
    (
      record p { closed = true; servers = []; queue = []; waiters = []; chan = h },
      rw (e, close_pooler) refl,
      record { live = v.live; chans = w; fair = inl refl },
    )

start_empty-Inv :
    (p : Pooler) (pending spare : List ℕ)
    → p.pool ≡ spare
    → p.queue ≡ []
    → Inv (record { pooler = p; pending = pending })
    → Inv (
        begin pending (
          let (c, q) = take_chan p spare in
          (waits c, record q { waiters = q.waiters ++ (c ∷ []) })))
unfolding take_chan
start_empty-Inv p pending [] e idle v = record {
  live = omega (arith, v.live);
  chans = start_fresh-ChanInv p pending v.live v.chans;
  fair = inr idle;
}
start_empty-Inv p pending (c ∷ cs) e idle v =
    let (pos, w) = start_spare-ChanInv p pending c cs e v.chans in
    let not_nil : (c == 0) ≡ false = ground (arith, pos) in
    rw not_nil (record { live = v.live; chans = w; fair = inr idle })

start_with-Inv :
    (p : Pooler) (pending queue : List ℕ)
    → p.queue ≡ queue
    → Inv (record { pooler = p; pending = pending })
    → Inv (begin pending (start_with p queue))
unfolding start_with
start_with-Inv p pending [] e v = start_empty-Inv p pending p.pool refl e v
start_with-Inv p pending (x ∷ xs) e v = record {
  live = v.live;
  chans = v.chans;
  fair = ground (arith, v.fair, e);
}

acquire_start-Inv :
    (p : Pooler) (pending : List ℕ)
    → Inv (record { pooler = p; pending = pending })
    → Inv (begin pending (acquire_start p))
unfolding acquire_start
acquire_start-Inv p pending v = elim (Bool-cases p.closed) [
  | inl shut ↦ simp shut v
  | inr working ↦ simp working (start_with-Inv p pending p.queue refl v)
]

remove_all-nil : (c : ℕ) (ws : List ℕ) → ws ≡ [] → remove_all c ws ≡ []
remove_all-nil c ws e = rw e refl

-- In a world that keeps the invariant, every enabled event goes through: none panics, and none
-- waits for ever under the lock. The invariant holds again after it.
pub step-Inv :
    (w : World) (e : Event) → Inv w → Enabled w e → (w' : World) × (step w e ≡ some w') × Inv w'
unfolding step Enabled
step-Inv w (adds s) v h =
    let (q, e, u) = add_server-Goes w.pooler w.pending s v in
    (record { pooler = q; pending = w.pending }, rw e refl, u)
step-Inv w (deletes s) v h =
    let (q, e, u) = delete_server-Goes w.pooler w.pending s v in
    (record { pooler = q; pending = w.pending }, rw e refl, u)
step-Inv w (releases s) v h =
    let (q, e, u) = release-Goes w.pooler w.pending s v in
    (record { pooler = q; pending = w.pending }, rw e refl, u)
step-Inv w closes v h =
    let (q, e, u) = close_pooler-Goes w.pooler w.pending v in
    (record { pooler = q; pending = w.pending }, rw e refl, u)
step-Inv w starts v h = (_, refl, acquire_start-Inv w.pooler w.pending v)
step-Inv w (receives c) v (held, (r, ready)) =
    let (q, e, ws, queue, fresh, u) =
      acquire_receive-ChanInv w.pooler w.pending c r
        (ground (arith, contains-count w.pending c, held)) ready v.chans in
    (
      record { pooler = q; pending = remove_all c w.pending },
      rw e refl,
      record {
        live = omega (arith, fresh, v.live);
        chans = u;
        fair = ground (arith, v.fair, ws, queue);
      },
    )
step-Inv w (times_out c) v held =
    let (r, q, e, ws, queue, fresh, u) =
      acquire_timeout-ChanInv w.pooler w.pending c
        (ground (arith, contains-count w.pending c, held)) v.chans in
    (
      record { pooler = q; pending = remove_all c w.pending },
      rw e refl,
      record {
        live = omega (arith, fresh, v.live);
        chans = u;
        fair = ground (arith, v.fair, ws, queue, remove_all-nil c w.pooler.waiters);
      },
    )

pub initial-Inv : Inv initial
unfolding initial new_pooler
initial-Inv = record { live = omega arith; chans = λ c. first c; fair = inl refl }
  where
    first : (c : ℕ) → ChanInv new_pooler [] c
    first zero = done (omega arith) refl refl refl
    first (suc c) = not_made (omega arith) refl refl refl

-- The worlds that a new pooler can come to.
pub data Reaches : World → Type 0 where
  here : Reaches initial
  next :
      {w : World} (e : Event) (u : World) → Reaches w → Enabled w e → step w e ≡ some u → Reaches u

pub Reaches-Inv : {w : World} → Reaches w → Inv w
Reaches-Inv here = initial-Inv
Reaches-Inv (next {w = w} e u r enabled taken) =
    let (u', taken', v) = step-Inv w e (Reaches-Inv r) enabled in
    let e : u' ≡ u = cc in subst Inv e v

-- Whatever the goroutines do, in any order, no call on a pooler panics or waits for ever under the
-- lock: every event that is enabled in a world that a new pooler comes to goes through.
pub never_stuck :
    {w : World} (e : Event) → Reaches w → Enabled w e → (w' : World) × (step w e ≡ some w')
never_stuck {w} e r enabled =
    let (w', taken, v) = step-Inv w e (Reaches-Inv r) enabled in (w', taken)

-- Nor does a goroutine ever wait while a server is idle.
pub Reaches-IsFair : {w : World} → Reaches w → IsFair w.pooler
Reaches-IsFair r = (Reaches-Inv r).fair
