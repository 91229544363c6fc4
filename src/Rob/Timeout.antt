-- ===== src/Rob/Timeout.antt =====
-- The timeout of `Acquire` in lib/rob/schedulers/v3.
use pggat.Base.{
  ℕ, suc, ◌≡◌, ◌≢◌, refl, ap, ◌∙◌, inl, inr, false, none, some, List, [], ◌∷◌, arith, Bool-cases,
  ≢→==, ◌==◌,
}
use pggat.Pooler.Chan.{made, receive}
use pggat.Rbtree.{get}
use pggat.Rbtree.Valid.{size, entries}
use pggat.Rbtree.Order.{Ordered, Between-Ordered, drop_entry, find}
use pggat.Rbtree.Laws.{IsTree, get_lem, delete_key_lem}
use pggat.Rbtree.Search.{find_above}
use pggat.Rob.{
  Scheduler, Job, goes, fails, assign, acquire_timeout, timeout_found, time_out, acquire_receive,
}

find-drop_entry :
    (key lo hi : ℕ) (es : List (ℕ × Job)) → Ordered lo hi es → find key (drop_entry key es) ≡ none
find-drop_entry key lo hi [] o = refl
find-drop_entry key lo hi ((k, j) ∷ es) o = elim (Bool-cases (k == key)) [
  | inl e ↦ rw e (find_above key (suc k) hi es o.1 (ground (arith, e)))
  | inr e ↦ rw (e, e) (find-drop_entry key (suc k) hi es o.1)
]

receive-made : (p : Scheduler) (d : ℕ) → p.chan d ≡ made → acquire_receive p d ≡ fails
unfolding acquire_receive receive
receive-made p d e = rw e refl

receive-empty : (p : Scheduler) (d : ℕ) → p.chan d ≡ made → receive (p.chan d) ≡ none
unfolding receive
receive-empty p d e = rw e refl

-- User `a`, whose own job has gone since a worker was sent to his channel `c`, times out, while the
-- job of another user `b`, who waits on the empty channel `d`, stands at the same stride: the timeout
-- returns no worker, exactly that job leaves the schedule, and the worker stays in `c`, which goes to
-- the free channels. The timeout of `b` then finds no job at his stride and waits for ever for a
-- worker on `d`, with the lock held.
pub timeout_takes_other :
    (p : Scheduler) (user other c d a b v now : ℕ)
    → IsTree p.schedule
    → p.users.at user ≡ some a
    → p.users.at other ≡ some b
    → a ≢ b
    → (p.user b).stride ≡ (p.user a).stride
    → get p.schedule (p.user a).stride ≡ some (record { user = b; ready = d })
    → p.chan c ≡ record { buffer = some v; closed = false }
    → p.chan d ≡ made
    → (q : Scheduler) × ((acquire_timeout p user c now ≡ goes (0, q))
        × ((entries q.schedule ≡ drop_entry (p.user a).stride (entries p.schedule))
            × ((q.chan c ≡ record { buffer = some v; closed = false })
                × ((q.cc ≡ c ∷ p.cc)
                    × ((get q.schedule (q.user b).stride ≡ none)
                        × ((receive (q.chan d) ≡ none)
                            × (acquire_timeout q other d now ≡ fails)))))))
unfolding acquire_timeout timeout_found time_out
timeout_takes_other p user other c d a b v now valid at_user at_other differ same job worker empty =
    let s = (p.user a).stride in
    let del = delete_key_lem (size p.schedule) p.schedule s (omega arith) valid in
    let gone : get del.tree s ≡ none =
      get_lem del.tree s del.valid
      ∙ (ap (find s) del.now
          ∙ find-drop_entry s 0 valid.above (entries p.schedule)
              (Between-Ordered 0 valid.above p.schedule valid.ordered)) in
    let q : Scheduler = record p {
      user = assign p.user a (record (p.user a) { scheduled = false });
      schedule = del.tree;
      cc = c ∷ p.cc;
    } in
    (
      q,
      (
        rw (at_user, job, del.returns) refl,
        (
          del.now,
          (
            worker,
            (
              refl,
              (
                rw (≢→== a b differ, same) gone,
                (
                  receive-empty q d empty,
                  rw (at_other, ≢→== a b differ, same, gone) (receive-made q d empty),
                ),
              ),
            ),
          ),
        ),
      ),
    )
