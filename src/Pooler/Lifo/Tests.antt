-- ===== src/Pooler/Lifo/Tests.antt =====
-- Runs of lib/gat/handlers/pool/poolers/lifo/pooler.go, and its theorems at concrete worlds.
use pggat.Base.{◌≡◌, refl, true, false, some, [], ◌∷◌}
use pggat.Base.Eq.{nat_eq}
use pggat.Slices.{contains}
use pggat.Slices.Laws.{erase}
use pggat.Pooler.Chan.{Received, receive, made, write}
use pggat.Pooler.Lifo.{
  Pooler, new_pooler, returns, release, delete_server, acquire_start, start_with, take_chan,
}
use pggat.Pooler.Lifo.System.{World, starts, times_out, step, Enabled, initial}
use pggat.Pooler.Lifo.Inv.{Inv, IsFair}
use pggat.Pooler.Lifo.Progress.{
  step-Inv, Reaches, here, next, Reaches-Inv, never_stuck, Reaches-IsFair,
}
use pggat.Pooler.Lifo.Order.{release-acquire, release_serves_oldest, delete-release}

-- One goroutine waits on the channel at address 1.
abbrev one_waits : World
one_waits = record {
  pooler = record {
    servers = [];
    queue = [];
    waiters = 1 ∷ [];
    closed = false;
    pool = [];
    chan = write (λ c. made) 1 made;
    fresh = 2;
  };
  pending = 1 ∷ [];
}

-- Two servers are idle.
abbrev two_idle : Pooler
two_idle = record {
  servers = 5 ∷ 6 ∷ [];
  queue = 5 ∷ [];
  waiters = [];
  closed = false;
  pool = [];
  chan = λ c. made;
  fresh = 1;
}

waits-Enabled : Enabled one_waits (times_out 1)
unfolding Enabled contains
waits-Enabled = refl

start-Enabled : Enabled initial starts
unfolding Enabled
start-Enabled = tt

start_taken : step initial starts ≡ some one_waits
unfolding step initial new_pooler acquire_start start_with take_chan
start_taken = refl

one_start : Reaches one_waits
one_start = next starts one_waits here start-Enabled start_taken

one_waits-Inv : Inv one_waits
one_waits-Inv = Reaches-Inv one_start

step-Inv_example : (w : World) × (step one_waits (times_out 1) ≡ some w) × Inv w
step-Inv_example = step-Inv one_waits (times_out 1) one_waits-Inv waits-Enabled

never_stuck_example : (w : World) × (step one_waits (times_out 1) ≡ some w)
never_stuck_example = never_stuck (times_out 1) one_start waits-Enabled

Reaches-IsFair_example : IsFair one_waits.pooler
Reaches-IsFair_example = Reaches-IsFair one_start

-- Server 5 has been added since.
abbrev with_server : Pooler
with_server = record one_waits.pooler { servers = 5 ∷ [] }

with_server-Inv : Inv (record { pooler = with_server; pending = 1 ∷ [] })
with_server-Inv = record {
  live = one_waits-Inv.live;
  chans = one_waits-Inv.chans;
  fair = one_waits-Inv.fair;
}

release_serves_oldest_example :
    (q : Pooler) × (release with_server 5 ≡ some q)
    × (q.waiters ≡ [])
    × (q.queue ≡ [])
    × ((r : Received) × (receive (q.chan 1) ≡ some r) × (r.value ≡ 5) × (r.ok ≡ true))
unfolding contains
release_serves_oldest_example =
    release_serves_oldest with_server (1 ∷ []) 5 1 [] with_server-Inv refl refl

release-acquire_example :
    (q : Pooler) × (release two_idle 6 ≡ some q) × (acquire_start q ≡ (returns 6, two_idle))
unfolding contains
release-acquire_example = release-acquire two_idle 6 refl refl refl

delete-release_example :
    (q : Pooler) × (delete_server two_idle 5 ≡ some q)
    × (q.queue ≡ erase 5 two_idle.queue)
    × (release q 5 ≡ some q)
delete-release_example = delete-release two_idle 5

-- The queue hands out the server that came last.
lifo_run : acquire_start (record two_idle { queue = 5 ∷ 6 ∷ [] }) ≡ (returns 6, two_idle)
unfolding acquire_start start_with
lifo_run = refl
