-- ===== src/Rob/Tests.antt =====
-- Runs of the scheduler of lib/rob/schedulers/v3, and the properties at them.
use pggat.Base.{◌≡◌, refl, false, none, some, List, [], ◌∷◌, arith, inr, ap, sym, ◌∙◌}
use pggat.Base.Maps
use pggat.Pooler.Chan.{made, send, receive}
use pggat.Rbtree
use pggat.Rbtree.{Tree, leaf, node, black, get}
use pggat.Rbtree.Valid.{size, entries}
use pggat.Rbtree.Laws.{IsTree}
use pggat.Rbtree.Order.{drop_entry}
use pggat.Rob.{
  Scheduler, Result, tree_fails, fails, goes, make_scheduler, release_worker, acquire_timeout,
  acquire_start, take_ready, add_user, acquire_found, acquire_with, enqueue, find_slot, slot_or,
  add_worker, give, charge, pair_up, stride_from, release, release_found, acquire_receive,
  timeout_found, time_out, keep_chan,
}
use pggat.Rob.System.{
  Event, adds_worker, releases, receives, starts, adds_user, times_out, step, run, run-Keeps,
  make_scheduler-IsFair,
}
use pggat.Rob.Fair.{Keeps}
use pggat.Rob.Steps.{this}
use pggat.Rob.Release.{Hands, Joins, release_worker_first, acquire_start-Joins, start_stride}
use pggat.Rob.Timeout.{timeout_takes_other}

abbrev state_of : Result Scheduler → Scheduler
state_of tree_fails = make_scheduler
state_of fails = make_scheduler
state_of (goes p) = p

-- User 1 waits on channel 3 and user 2 on channel 4. Worker 9, at address 5, is sent to user 1, who
-- receives it and releases it, which sends it to user 2; he times out and
-- takes it all the same. User 1 comes again and waits.
abbrev fair_run : List Event
fair_run =
    adds_user 1
    ∷ adds_user 2
    ∷ starts 1 0
    ∷ starts 2 0
    ∷ adds_worker 9 5
    ∷ receives 3
    ∷ releases 9 8
    ∷ times_out 2 4 9
    ∷ starts 1 10
    ∷ []

-- Users 1 and 2 at addresses 1 and 2. User 1 waits on channel 3; worker 9, at address 4, is sent to it;
-- user 2 waits on channel 5 at the same stride.
abbrev before_timeout : List Event
before_timeout = adds_user 1 ∷ adds_user 2 ∷ starts 1 0 ∷ adds_worker 9 5 ∷ starts 2 6 ∷ []

abbrev late : Scheduler
late = state_of (run make_scheduler before_timeout)

-- The run does not fail: it ends with one job in the schedule, and the floor at the stride of user 2.
fair_run_goes :
    (q : Scheduler) × ((run make_scheduler fair_run ≡ goes q)
      × ((size q.schedule ≡ 1) × (q.floor ≡ 1)))
unfolding run step acquire_start add_user make_scheduler acquire_found Maps.put Maps.has_key
    acquire_with enqueue find_slot slot_or Rbtree.get take_ready Rbtree.set Rbtree.put Rbtree.min
    Rbtree.max add_worker release_worker give charge pair_up Rbtree.balance Rbtree.delete_key
    Rbtree.delete_found Rbtree.delete Rbtree.redden Rbtree.when Rbtree.delete_right
    Rbtree.paint_black send stride_from release release_found acquire_receive receive
    acquire_timeout timeout_found time_out Rbtree.rotate_left Rbtree.both_black Rbtree.with_left
    keep_chan
fair_run_goes = (state_of (run make_scheduler fair_run), (refl, (refl, refl)))

-- The state that the run reaches.
late_reached :
    ((late.schedule ≡ node black leaf 0 (record { user = 2; ready = 5 }) leaf)
      × ((late.users.at 1 ≡ some 1)
          × ((late.users.at 2 ≡ some 2)
              × (((late.user 2).stride ≡ 0)
                  × (((late.user 1).stride ≡ 0)
                      × ((late.chan 5 ≡ made)
                          × ((late.closed ≡ false)
                              × ((late.queue ≡ [])
                                  × (late.chan 3
                                      ≡ record { buffer = some 9; closed = false })))))))))
unfolding run step acquire_start add_user make_scheduler acquire_found Maps.put Maps.has_key
    acquire_with enqueue find_slot slot_or Rbtree.get take_ready Rbtree.set Rbtree.put Rbtree.min
    Rbtree.max add_worker release_worker give charge pair_up Rbtree.balance Rbtree.delete_key
    Rbtree.delete_found Rbtree.delete Rbtree.redden Rbtree.when Rbtree.delete_right
    Rbtree.paint_black send stride_from
late_reached = (refl, (refl, (refl, (refl, (refl, (refl, (refl, (refl, refl))))))))

waiting_job : get late.schedule (late.user 1).stride ≡ some (record { user = 2; ready = 5 })
unfolding Rbtree.get
waiting_job = rw (late_reached.0, late_reached.1.1.1.1.0) refl

late-IsTree : IsTree late.schedule
late-IsTree = rw late_reached.0 (record {
  height = 1;
  above = 1;
  balanced = (inr tt, tt);
  ordered = (omega arith, omega arith);
})

run-Keeps_example : Keeps this 0 (run make_scheduler fair_run)
unfolding make_scheduler
run-Keeps_example = run-Keeps make_scheduler fair_run make_scheduler-IsFair

release_worker_first_example :
    Hands late 4 8 0 (record { user = 2; ready = 5 }) [] (release_worker late 4 8)
release_worker_first_example =
    release_worker_first late 4 8 0 (record { user = 2; ready = 5 }) [] late-IsTree
      (ap entries late_reached.0) late_reached.1.1.1.1.1.0

acquire_start-Joins_example :
    Joins late.schedule 1 (take_ready late late.cc).0 (start_stride late 1) (acquire_start late 1 7)
acquire_start-Joins_example =
    acquire_start-Joins late 1 1 7 late-IsTree late_reached.1.1.1.1.1.1.0 late_reached.1.0
      late_reached.1.1.1.1.1.1.1.0

timeout_takes_other_example :
    (q : Scheduler) × ((acquire_timeout late 1 3 7 ≡ goes (0, q))
      × ((entries q.schedule ≡ drop_entry (late.user 1).stride (entries late.schedule))
          × ((q.chan 3 ≡ record { buffer = some 9; closed = false })
              × ((q.cc ≡ 3 ∷ late.cc)
                  × ((get q.schedule (q.user 2).stride ≡ none)
                      × ((receive (q.chan 5) ≡ none) × (acquire_timeout q 2 5 7 ≡ fails)))))))
timeout_takes_other_example =
    timeout_takes_other late 1 2 3 5 1 2 9 7 late-IsTree late_reached.1.0 late_reached.1.1.0
      (λ e. absurd (omega (arith, e))) (late_reached.1.1.1.0 ∙ sym late_reached.1.1.1.1.0)
      waiting_job late_reached.1.1.1.1.1.1.1.1 late_reached.1.1.1.1.1.0
