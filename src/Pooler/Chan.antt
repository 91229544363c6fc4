-- ===== src/Pooler/Chan.antt =====
-- Go channels of capacity 1 that carry a server id (`chan uuid.UUID`), on a heap of channels.
-- A uuid is a number, and `uuid.Nil` is 0.
use pggat.Base.{ℕ, Bool, true, false, Option, none, some, ◌==◌, if◌then◌else◌, ◌≡◌, arith}

pub record Chan : Type 0 where
  pub buffer : Option ℕ
  pub closed : Bool

-- `make(chan uuid.UUID, 1)`.
abbrev pub made : Chan
made = record { buffer = none; closed = false }

-- `c <- v`: `none` where it panics (a closed channel) or would wait for ever under the lock (a full
-- one).
unfoldable pub send : Chan → ℕ → Option Chan
send c v =
    if c.closed
    then none
    else elim c.buffer [ none ↦ some (record c { buffer = some v }) | some w ↦ none ]

-- `close(c)`, which panics if `c` is closed.
unfoldable pub close : Chan → Option Chan
close c = if c.closed then none else some (record c { closed = true })

-- What `v, ok = <-c` gives, and the channel after it; `none` while it waits.
pub record Received : Type 0 where
  pub value : ℕ
  pub ok : Bool
  pub after : Chan

unfoldable pub receive : Chan → Option Received
receive c = elim c.buffer [
  | some v ↦ some (record { value = v; ok = true; after = record c { buffer = none } })
  | none ↦ if c.closed then some (record { value = 0; ok = false; after = c }) else none
]

-- The heap of channels, by their addresses.
abbrev pub Heap : Type 0
Heap = ℕ → Chan

abbrev pub write : Heap → ℕ → Chan → Heap
write h c x d = if c == d then x else h d

pub send-made :
    (c : Chan) (v : ℕ) → c ≡ made → send c v ≡ some (record { buffer = some v; closed = false })
unfolding send
send-made c v e = ground (arith, e)

pub close-made : (c : Chan) → c ≡ made → close c ≡ some (record { buffer = none; closed = true })
unfolding close
close-made c e = ground (arith, e)
