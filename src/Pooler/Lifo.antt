-- ===== src/Pooler/Lifo.antt =====
-- lib/gat/handlers/pool/poolers/lifo/pooler.go. The struct is a record; its queue is a list with
-- the top at the end, its waiters the values of the ring (lib/util/ring, `Ring.Deque`), oldest
-- first. `none` is a panic, or a wait under the lock that nothing ends. `chan` is the heap of the
-- channels, and `fresh` the next address that `make` gives.
pub mod System
pub mod Rotate
pub mod Inv
pub mod Steps
pub mod Waits
pub mod Progress
pub mod Order
mod Tests
use pggat.Base.{
  ℕ, zero, suc, ◌+◌, Bool, true, false, not, Option, none, some, List, [], ◌∷◌, ◌++◌, length, ◌==◌,
  if◌then◌else◌,
}
use pggat.Base.Count.{remove_all}
use pggat.Base.Eq.{nat_eq}
use pggat.Slices.{contains, remove}
use pggat.Pooler.Chan.{Heap, made, send, close, receive, write, Received}

pub record Pooler : Type 0 where
  pub servers : List ℕ
  pub queue : List ℕ
  pub waiters : List ℕ
  pub closed : Bool
  -- The channels that are kept for the next waiter, the last one first.
  pub pool : List ℕ
  pub chan : Heap
  pub fresh : ℕ

-- `queue[len(queue)-1]` and `queue[:len(queue)-1]` of the queue `x ∷ xs`.
abbrev pub top : ℕ → List ℕ → ℕ
top x [] = x
top x (y ∷ ys) = top y ys

abbrev pub below_top : ℕ → List ℕ → List ℕ
below_top x [] = []
below_top x (y ∷ ys) = x ∷ below_top y ys

-- `NewPooler`. Address 0 is the nil channel.
unfoldable pub new_pooler : Pooler
new_pooler = record {
  servers = [];
  queue = [];
  waiters = [];
  closed = false;
  pool = [];
  chan = λ c. made;
  fresh = 1;
}

-- The waiter at the front, if there is one, is sent the server; else it goes on the queue.
unfoldable pub hand_out : Pooler → ℕ → List ℕ → Option Pooler
hand_out p server [] = some (record p { queue = p.queue ++ (server ∷ []) })
hand_out p server (c ∷ ws) = elim (send (p.chan c) server) [
  | none ↦ none
  | some ch ↦ some (record p { waiters = ws; chan = write p.chan c ch })
]

unfoldable pub release : Pooler → ℕ → Option Pooler
release p server = if contains p.servers server then hand_out p server p.waiters else some p

unfoldable pub add_server : Pooler → ℕ → Option Pooler
add_server p server =
    release
      (record p { servers = if contains p.servers server then p.servers else server ∷ p.servers })
      server

unfoldable pub delete_server : Pooler → ℕ → Option Pooler
delete_server p server = elim (remove p.queue server) [
  | none ↦ none
  | some (queue, _) ↦ some (record p { queue = queue; servers = remove_all server p.servers })
]

-- `T.pool.Get()`, and `make` where it gives nil.
unfoldable pub take_chan : Pooler → List ℕ → ℕ × Pooler
take_chan p [] = (p.fresh, record p { chan = write p.chan p.fresh made; fresh = p.fresh + 1 })
take_chan p (c ∷ cs) =
    if c == 0
    then (p.fresh, record p { pool = cs; chan = write p.chan p.fresh made; fresh = p.fresh + 1 })
    else (c, record p { pool = cs })

-- The first critical section of `Acquire`: it returns a server (or Nil), or a channel to wait on.
pub data Phase : Type 0 where
  returns waits : ℕ → Phase

unfoldable pub start_with : Pooler → List ℕ → Phase × Pooler
start_with p (x ∷ xs) = (returns (top x xs), record p { queue = below_top x xs })
start_with p [] =
    let (c, q) = take_chan p p.pool in (waits c, record q { waiters = q.waiters ++ (c ∷ []) })

unfoldable pub acquire_start : Pooler → Phase × Pooler
acquire_start p = if p.closed then (returns 0, p) else start_with p p.queue

-- `v, ok = <-c; if ok { T.pool.Put(c) }`; `none` while the receive waits.
unfoldable pub acquire_receive : Pooler → ℕ → Option (ℕ × Pooler)
acquire_receive p c = elim (receive (p.chan c)) [
  | none ↦ none
  | some r ↦ some (
    r.value,
    record p { chan = write p.chan c r.after; pool = if r.ok then c ∷ p.pool else p.pool },
  )
]

-- The loop of the timeout: `rounds` times it pops the front and pushes it back, unless it is `c`.
unfoldable pub rotate : ℕ → ℕ → List ℕ → Bool → Bool × List ℕ
rotate zero c ws found = (found, ws)
rotate (suc rounds) c [] found =
    if c == 0 then rotate rounds c [] true else rotate rounds c (0 ∷ []) found
rotate (suc rounds) c (cc ∷ ws) found =
    rotate rounds c (if c == cc then ws else ws ++ (cc ∷ [])) (if c == cc then true else found)

-- The second critical section of `Acquire`, after the timer. Off the list of waiters it returns
-- Nil; else there must be a server, or the end, in the channel.
unfoldable pub acquire_timeout : Pooler → ℕ → Option (ℕ × Pooler)
acquire_timeout p c =
    let (found, ws) = rotate (length p.waiters) c p.waiters false in
    if found
    then some (0, record p { waiters = ws; pool = c ∷ p.pool })
    else acquire_receive (record p { waiters = ws }) c

unfoldable pub close_waiters : List ℕ → Heap → Option Heap
close_waiters [] h = some h
close_waiters (c ∷ ws) h = elim (close (h c)) [
  | none ↦ none
  | some ch ↦ close_waiters ws (write h c ch)
]

unfoldable pub close_pooler : Pooler → Option Pooler
close_pooler p = elim (close_waiters p.waiters p.chan) [
  | none ↦ none
  | some h ↦ some (record p { closed = true; servers = []; queue = []; waiters = []; chan = h })
]

unfoldable pub waiter_count : Pooler → ℕ
waiter_count p = length p.waiters
