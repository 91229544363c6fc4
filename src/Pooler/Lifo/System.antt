-- ===== src/Pooler/Lifo/System.antt =====
-- Any number of goroutines on one pooler of lib/gat/handlers/pool/poolers/lifo. Each event is one
-- critical section, or one receive; `pending` are the channels on which a goroutine is between the
-- two halves of `Acquire`.
use pggat.Base.{ℕ, true, Option, none, some, List, [], ◌∷◌, ◌≡◌}
use pggat.Base.Count.{remove_all}
use pggat.Base.Eq.{nat_eq}
use pggat.Slices.{contains}
use pggat.Pooler.Chan.{Received, receive}
use pggat.Pooler.Lifo.{
  Pooler, Phase, returns, waits, new_pooler, add_server, delete_server, release, acquire_start,
  acquire_receive, acquire_timeout, close_pooler,
}

pub record World : Type 0 where
  pub pooler : Pooler
  pub pending : List ℕ

pub data Event : Type 0 where
  adds deletes releases receives times_out : ℕ → Event
  starts closes : Event

abbrev pub keep : List ℕ → Option Pooler → Option World
keep pending none = none
keep pending (some p) = some (record { pooler = p; pending = pending })

abbrev pub finish : ℕ → List ℕ → Option (ℕ × Pooler) → Option World
finish c pending none = none
finish c pending (some (v, p)) = some (record { pooler = p; pending = remove_all c pending })

abbrev pub begin : List ℕ → Phase × Pooler → World
begin pending (returns v, p) = record { pooler = p; pending = pending }
begin pending (waits c, p) = record { pooler = p; pending = c ∷ pending }

-- `none` is a panic or a deadlock.
unfoldable pub step : World → Event → Option World
step w (adds s) = keep w.pending (add_server w.pooler s)
step w (deletes s) = keep w.pending (delete_server w.pooler s)
step w (releases s) = keep w.pending (release w.pooler s)
step w starts = some (begin w.pending (acquire_start w.pooler))
step w (receives c) = finish c w.pending (acquire_receive w.pooler c)
step w (times_out c) = finish c w.pending (acquire_timeout w.pooler c)
step w closes = keep w.pending (close_pooler w.pooler)

-- A goroutine times out only on its own channel, and its receive goes on only when it is ready.
unfoldable pub Enabled : World → Event → Type 0
Enabled w (receives c) =
    (contains w.pending c ≡ true) × ((r : Received) × (receive (w.pooler.chan c) ≡ some r))
Enabled w (times_out c) = contains w.pending c ≡ true
Enabled w _ = Unit {0}

unfoldable pub initial : World
initial = record { pooler = new_pooler; pending = [] }
