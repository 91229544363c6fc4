-- ===== src/Rob/Steps.antt =====
-- The operations of lib/rob/schedulers/v3 keep the schedule in order.
use pggat.Base.{
  ℕ, zero, suc, ◌≤◌, ◌≡◌, refl, ap, Bool, true, false, Option, none, some, arith, if◌then◌else◌,
}
use pggat.Pooler.Chan.{send, close, write}
use pggat.Base.Eq.{nat_eq}
use pggat.Slices
use pggat.Rbtree.{get, min}
use pggat.Rob.{
  Scheduler, Job, goes, charge, pair_up, give, release_worker, release_found, release, add_worker,
  delete_worker_found, delete_worker, add_user, unschedule, delete_user_found, delete_user,
}
use pggat.Rob.Fair.{
  IsFair, Keeps, try_step-Keeps, if-Keeps, delete_key-Keeps, same-IsFair, dropped-IsFair,
  first-IsFair,
}

abbrev pub this : Scheduler → Scheduler
this p = p

charge-IsFair :
    (p : Scheduler) (w now a : ℕ)
    → IsFair p
    → (p.floor ≤ (charge p w now a).floor) × IsFair (charge p w now a)
unfolding charge
charge-IsFair p w now zero fair = (omega arith, fair)
charge-IsFair p w now (suc a) fair = (omega arith, same-IsFair p _ refl refl fair)

give-Keeps :
    (p : Scheduler) (w now low : ℕ) (first : Option (ℕ × Job))
    → min p.schedule ≡ first
    → low ≤ p.floor
    → IsFair p
    → Keeps this low (give p w now first)
unfolding give pair_up
give-Keeps p w now low none m le fair = (le, same-IsFair p _ refl refl fair)
give-Keeps p w now low (some (stride, job)) m le fair =
    delete_key-Keeps this low p stride _ fair (λ t valid e.
      try_step-Keeps this low (send (p.chan job.ready) (p.worker w).id) _ (λ ch.
        let d =
          first-IsFair p
            (record (pair_up p w now job) {
              floor = stride;
              schedule = t;
              chan = write p.chan job.ready ch;
            })
            stride job m valid e refl fair in
        (omega (arith, d.0, le), d.1)))

charge-schedule : (p : Scheduler) (w now a : ℕ) → (charge p w now a).schedule ≡ p.schedule
unfolding charge
charge-schedule p w now zero = refl
charge-schedule p w now (suc a) = refl

release_worker-Keeps :
    (p : Scheduler) (w now low : ℕ)
    → low ≤ p.floor
    → IsFair p
    → Keeps this low (release_worker p w now)
unfolding release_worker
release_worker-Keeps p w now low le fair =
    let a = (p.worker w).user in
    let charged = charge-IsFair p w now a fair in
    give-Keeps (charge p w now a) w now low (min p.schedule) (ap min (charge-schedule p w now a))
      (omega (arith, charged.0)) charged.1

release_found-Keeps :
    (p : Scheduler) (now : ℕ) (o : Option ℕ) → IsFair p → Keeps this p.floor (release_found p now o)
unfolding release_found
release_found-Keeps p now none fair = (omega arith, fair)
release_found-Keeps p now (some w) fair = release_worker-Keeps p w now p.floor (omega arith) fair

pub release-Keeps :
    (p : Scheduler) (worker now : ℕ) → IsFair p → Keeps this p.floor (release p worker now)
unfolding release
release-Keeps p worker now fair =
    if-Keeps this p.floor p.closed (goes p) (release_found p now (p.workers.at worker))
      (omega arith, fair) (release_found-Keeps p now (p.workers.at worker) fair)

pub add_worker-Keeps :
    (p : Scheduler) (id now : ℕ) → IsFair p → Keeps this p.floor (add_worker p id now)
unfolding add_worker
add_worker-Keeps p id now fair =
    if-Keeps this p.floor p.closed (goes p) _ (omega arith, fair)
      (release_worker-Keeps _ p.fresh now p.floor (omega arith) (same-IsFair p _ refl refl fair))

delete_worker_found-Keeps :
    (p : Scheduler) (worker : ℕ) (o : Option ℕ)
    → IsFair p
    → Keeps this p.floor (delete_worker_found p worker o)
unfolding delete_worker_found
delete_worker_found-Keeps p worker none fair = (omega arith, fair)
delete_worker_found-Keeps p worker (some w) fair =
    try_step-Keeps this p.floor (Slices.delete 0 p.queue w) _
      (λ q. (omega arith, same-IsFair p _ refl refl fair))

pub delete_worker-Keeps :
    (p : Scheduler) (worker : ℕ) → IsFair p → Keeps this p.floor (delete_worker p worker)
unfolding delete_worker
delete_worker-Keeps p worker fair =
    if-Keeps this p.floor p.closed (goes p) _ (omega arith, fair)
      (delete_worker_found-Keeps p worker (p.workers.at worker) fair)

pub add_user-Keeps :
    (p : Scheduler) (user : ℕ)
    → IsFair p
    → (p.floor ≤ (add_user p user).floor) × IsFair (add_user p user)
unfolding add_user
add_user-Keeps p user fair =
    pick p.closed p _ (omega arith, fair) (omega arith, same-IsFair p _ refl refl fair)
  where
    pick :
        (b : Bool) (x y : Scheduler)
        → (p.floor ≤ x.floor) × IsFair x
        → (p.floor ≤ y.floor) × IsFair y
        → (p.floor ≤ (if b then x else y).floor) × IsFair (if b then x else y)
    pick true x y u v = u
    pick false x y u v = v

unschedule-Keeps :
    (p : Scheduler) (stride : ℕ) (o : Option Job)
    → IsFair p
    → Keeps this p.floor (unschedule p stride o)
unfolding unschedule
unschedule-Keeps p stride none fair = (omega arith, fair)
unschedule-Keeps p stride (some j) fair =
    try_step-Keeps this p.floor (close (p.chan j.ready)) _ (λ ch.
      delete_key-Keeps this p.floor p stride _ fair
        (λ t valid e. (omega arith, dropped-IsFair p _ stride valid e refl fair)))

delete_user_found-Keeps :
    (p : Scheduler) (user : ℕ) (o : Option ℕ)
    → IsFair p
    → Keeps this p.floor (delete_user_found p user o)
unfolding delete_user_found
delete_user_found-Keeps p user none fair = (omega arith, fair)
delete_user_found-Keeps p user (some a) fair =
    if-Keeps this p.floor (p.user a).scheduled _ _
      (unschedule-Keeps _ (p.user a).stride (get p.schedule (p.user a).stride)
        (same-IsFair p _ refl refl fair))
      (omega arith, same-IsFair p _ refl refl fair)

pub delete_user-Keeps :
    (p : Scheduler) (user : ℕ) → IsFair p → Keeps this p.floor (delete_user p user)
unfolding delete_user
delete_user-Keeps p user fair =
    if-Keeps this p.floor p.closed (goes p) _ (omega arith, fair)
      (delete_user_found-Keeps p user (p.users.at user) fair)
