-- ===== src/Rob/System.antt =====
-- Any number of goroutines on one scheduler of lib/rob/schedulers/v3. Each event is one critical section,
-- or one receive, with the ids, channels and times that it is given.
use pggat.Base.{ℕ, ◌≤◌, List, [], ◌∷◌, arith}
use pggat.Rob.{
  Scheduler, Result, tree_fails, fails, goes, then_step, make_scheduler, add_worker, delete_worker,
  add_user, delete_user, release, acquire_start, acquire_receive, acquire_timeout, close_scheduler,
}
use pggat.Rob.Fair.{IsFair, Keeps}
use pggat.Rob.Steps.{
  this, add_worker-Keeps, delete_worker-Keeps, add_user-Keeps, delete_user-Keeps, release-Keeps,
}
use pggat.Rob.Acquire.{
  second, acquire_start-Keeps, acquire_receive-Keeps, acquire_timeout-Keeps, close_scheduler-Keeps,
}

pub data Event : Type 0 where
  adds_worker releases starts : ℕ → ℕ → Event
  deletes_worker adds_user deletes_user receives : ℕ → Event
  times_out : ℕ → ℕ → ℕ → Event
  closes : Event

abbrev after : {A : Type 0} → Result (A × Scheduler) → Result Scheduler
after tree_fails = tree_fails
after fails = fails
after (goes (a, p)) = goes p

unfoldable pub step : Scheduler → Event → Result Scheduler
step p (adds_worker id now) = add_worker p id now
step p (deletes_worker id) = delete_worker p id
step p (adds_user id) = goes (add_user p id)
step p (deletes_user id) = delete_user p id
step p (releases id now) = release p id now
step p (starts user now) = after (acquire_start p user now)
step p (receives c) = after (acquire_receive p c)
step p (times_out user c now) = after (acquire_timeout p user c now)
step p closes = close_scheduler p

unfoldable pub run : Scheduler → List Event → Result Scheduler
run p [] = goes p
run p (e ∷ es) = then_step (step p e) (λ q. run q es)

after-Keeps :
    {A : Type 0} (low : ℕ) (r : Result (A × Scheduler))
    → Keeps second low r
    → Keeps this low (after r)
after-Keeps low tree_fails k = k
after-Keeps low fails k = tt
after-Keeps low (goes (a, p)) k = k

step-Keeps : (p : Scheduler) (e : Event) → IsFair p → Keeps this p.floor (step p e)
unfolding step
step-Keeps p (adds_worker id now) fair = add_worker-Keeps p id now fair
step-Keeps p (deletes_worker id) fair = delete_worker-Keeps p id fair
step-Keeps p (adds_user id) fair = add_user-Keeps p id fair
step-Keeps p (deletes_user id) fair = delete_user-Keeps p id fair
step-Keeps p (releases id now) fair = release-Keeps p id now fair
step-Keeps p (starts user now) fair =
    after-Keeps p.floor (acquire_start p user now) (acquire_start-Keeps p user now fair)
step-Keeps p (receives c) fair =
    after-Keeps p.floor (acquire_receive p c) (acquire_receive-Keeps p c fair)
step-Keeps p (times_out user c now) fair =
    after-Keeps p.floor (acquire_timeout p user c now) (acquire_timeout-Keeps p user c now fair)
step-Keeps p closes fair = close_scheduler-Keeps p fair

-- One step, and then more from a floor that is not below.
then_step-Keeps :
    (low high : ℕ) (r : Result Scheduler) (f : Scheduler → Result Scheduler)
    → low ≤ high
    → Keeps this high r
    → ((q : Scheduler) → low ≤ q.floor → IsFair q → Keeps this low (f q))
    → Keeps this low (then_step r f)
then_step-Keeps low high tree_fails f le k h = k
then_step-Keeps low high fails f le k h = tt
then_step-Keeps low high (goes q) f le k h = h q (omega (arith, k.0)) k.1

run_from-Keeps :
    (low : ℕ) (p : Scheduler) (es : List Event)
    → low ≤ p.floor
    → IsFair p
    → Keeps this low (run p es)
unfolding run
run_from-Keeps low p [] le fair = (le, fair)
run_from-Keeps low p (e ∷ es) le fair =
    then_step-Keeps low p.floor (step p e) (λ q. run q es) le (step-Keeps p e fair)
      (λ q. run_from-Keeps low q es)

-- In any order of calls on a scheduler whose schedule is a balanced search tree with no stride below the
-- floor: no call fails in the tree or in the search for a slot, and while no channel stops them the
-- schedule stays so and the floor never falls.
pub run-Keeps : (p : Scheduler) (es : List Event) → IsFair p → Keeps this p.floor (run p es)
run-Keeps p es fair = run_from-Keeps p.floor p es (omega arith) fair

pub make_scheduler-IsFair : IsFair make_scheduler
unfolding make_scheduler
make_scheduler-IsFair = record {
  valid = record { height = 0; above = 0; balanced = tt; ordered = omega arith };
  above = 0;
  ordered = omega arith;
}
