-- ===== src/Rob/Acquire.antt =====
-- `Acquire` and `Close` of lib/rob/schedulers/v3 keep the schedule in order.
use pggat.Base.{
  ℕ, zero, suc, ◌≤◌, ◌<◌, ◌≡◌, refl, ap, sym, ◌∙◌, Bool, true, false, Option, none, some, List, [],
  ◌∷◌, arith, if◌then◌else◌, ltb, ◌==◌, length, ≡→==,
}
use pggat.Pooler.Chan.{receive, close, write, Received}
use pggat.Rbtree.{get, min}
use pggat.Rbtree.Valid.{size, entries}
use pggat.Rbtree.Order.{drop_entry, first_of}
use pggat.Rbtree.DeleteRight.{min_first}
use mathlib.Core.Option.{some-injective}
use pggat.Rob.{
  Scheduler, Job, Result, returns, tree_fails, fails, goes, then_step, take_ready, release, enqueue,
  acquire_with, acquire_found, acquire_start, keep_chan, acquire_receive, give_back, time_out,
  timeout_found, acquire_timeout, close_min, close_jobs, close_scheduler,
}
use pggat.Rob.Fair.{
  IsFair, Keeps, try_step-Keeps, tree_step-Keeps, if-Keeps, delete_key-Keeps, set-Keeps,
  same-IsFair, dropped-IsFair, put-IsFair,
}
use pggat.Rob.Slot.{find_slot_lem, length-entries}
use pggat.Rob.Steps.{this, release-Keeps}

-- Taking a channel changes neither the schedule nor the floor.
take_ready-IsFair :
    (p : Scheduler) (cs : List ℕ)
    → IsFair p
    → (p.floor ≤ (take_ready p cs).1.floor) × IsFair (take_ready p cs).1
unfolding take_ready
take_ready-IsFair p [] fair = (omega arith, same-IsFair p _ refl refl fair)
take_ready-IsFair p (c ∷ cs) fair =
    pick (c == 0) _ _ (omega arith, same-IsFair p _ refl refl fair)
      (omega arith, same-IsFair p _ refl refl fair)
  where
    pick :
        (b : Bool) (x y : ℕ × Scheduler)
        → (p.floor ≤ x.1.floor) × IsFair x.1
        → (p.floor ≤ y.1.floor) × IsFair y.1
        → (p.floor ≤ (if b then x else y).1.floor) × IsFair (if b then x else y).1
    pick true x y u v = u
    pick false x y u v = v

abbrev pub second : {A : Type 0} → A × Scheduler → Scheduler
second x = x.1

above_floor : (stride floor : ℕ) → floor ≤ (if ltb stride floor then floor else stride)
above_floor stride floor = ground arith

enqueue-Keeps :
    (p : Scheduler) (a ready low : ℕ)
    → low ≤ p.floor
    → IsFair p
    → Keeps second low (enqueue p a ready)
unfolding enqueue
enqueue-Keeps p a ready low le fair =
    let s = (p.user a).stride in
    let f = find_slot_lem p.schedule (if ltb s p.floor then p.floor else s) fair.valid in
    tree_step-Keeps second low _ f.slot _ f.returns (
      set-Keeps second low p f.slot (record { user = a; ready = ready }) _ fair
        (λ t valid e. (
          le,
          put-IsFair p _ f.slot (record { user = a; ready = ready }) valid e refl
              (omega (arith, f.from, above_floor s p.floor)) fair,
        )))

acquire_with-Keeps :
    (p : Scheduler) (a now : ℕ) (queue : List ℕ)
    → IsFair p
    → Keeps second p.floor (acquire_with p a now queue)
unfolding acquire_with
acquire_with-Keeps p a now (x ∷ xs) fair = (omega arith, same-IsFair p _ refl refl fair)
acquire_with-Keeps p a now [] fair =
    let t = take_ready-IsFair p p.cc fair in
    enqueue-Keeps (take_ready p p.cc).1 a (take_ready p p.cc).0 p.floor t.0 t.1

acquire_found-Keeps :
    (p : Scheduler) (now : ℕ) (o : Option ℕ)
    → IsFair p
    → Keeps second p.floor (acquire_found p now o)
unfolding acquire_found
acquire_found-Keeps p now none fair = (omega arith, fair)
acquire_found-Keeps p now (some a) fair = acquire_with-Keeps p a now p.queue fair

pub acquire_start-Keeps :
    (p : Scheduler) (user now : ℕ) → IsFair p → Keeps second p.floor (acquire_start p user now)
unfolding acquire_start
acquire_start-Keeps p user now fair =
    if-Keeps second p.floor p.closed (goes (returns 0, p)) _ (omega arith, fair)
      (acquire_found-Keeps p now (p.users.at user) fair)

keep_chan-IsFair :
    (p : Scheduler) (c : ℕ) (r : Received)
    → IsFair p
    → (p.floor ≤ (keep_chan p c r).1.floor) × IsFair (keep_chan p c r).1
unfolding keep_chan
keep_chan-IsFair p c r fair = (omega arith, same-IsFair p _ refl refl fair)

pub acquire_receive-Keeps :
    (p : Scheduler) (c : ℕ) → IsFair p → Keeps second p.floor (acquire_receive p c)
unfolding acquire_receive
acquire_receive-Keeps p c fair =
    try_step-Keeps second p.floor (receive (p.chan c)) _ (λ r. keep_chan-IsFair p c r fair)

then_zero-Keeps :
    (low high : ℕ) (r : Result Scheduler)
    → low ≤ high
    → Keeps this high r
    → Keeps (second {A = ℕ}) low (then_step r (λ s. goes (0, s)))
then_zero-Keeps low high tree_fails le k = k
then_zero-Keeps low high fails le k = tt
then_zero-Keeps low high (goes s) le k = (omega (arith, k.0), k.1)

give_back-Keeps :
    (p : Scheduler) (c now : ℕ) (o : Option Received)
    → IsFair p
    → Keeps second p.floor (give_back p c now o)
unfolding give_back
give_back-Keeps p c now none fair = (omega arith, fair)
give_back-Keeps p c now (some r) fair =
    let q = (keep_chan p c r).1 in
    let k = keep_chan-IsFair p c r fair in
    if-Keeps second p.floor ((keep_chan p c r).0 == 0) _ _ k (
      then_zero-Keeps p.floor q.floor (release q (keep_chan p c r).0 now) k.0
        (release-Keeps q (keep_chan p c r).0 now k.1))

time_out-Keeps :
    (p : Scheduler) (c a : ℕ) (o : Option Job) → IsFair p → Keeps second p.floor (time_out p c a o)
unfolding time_out
time_out-Keeps p c a none fair = acquire_receive-Keeps p c fair
time_out-Keeps p c a (some j) fair =
    delete_key-Keeps second p.floor p (p.user a).stride _ fair
      (λ t valid e. (omega arith, dropped-IsFair p _ (p.user a).stride valid e refl fair))

timeout_found-Keeps :
    (p : Scheduler) (c now : ℕ) (o : Option ℕ)
    → IsFair p
    → Keeps second p.floor (timeout_found p c now o)
unfolding timeout_found
timeout_found-Keeps p c now none fair = give_back-Keeps p c now (receive (p.chan c)) fair
timeout_found-Keeps p c now (some a) fair =
    time_out-Keeps p c a (get p.schedule (p.user a).stride) fair

pub acquire_timeout-Keeps :
    (p : Scheduler) (user c now : ℕ)
    → IsFair p
    → Keeps second p.floor (acquire_timeout p user c now)
unfolding acquire_timeout
acquire_timeout-Keeps p user c now fair = timeout_found-Keeps p c now (p.users.at user) fair

-- The loop of `Close` ends, since it takes out a job each time.
drop_entry-length :
    (stride : ℕ) (j : Job) (es : List (ℕ × Job))
    → first_of es ≡ some (stride, j)
    → suc (length (drop_entry stride es)) ≡ length es
drop_entry-length stride j [] e = ground arith
drop_entry-length stride j ((i, m) ∷ es) e =
    rw (≡→== i stride (ap (λ x. x.0) (some-injective _ _ e))) refl

close_min-Keeps :
    (fuel low : ℕ) (p : Scheduler) (o : Option (ℕ × Job)) (rest : Scheduler → Result Scheduler)
    → min p.schedule ≡ o
    → size p.schedule < suc fuel
    → low ≤ p.floor
    → IsFair p
    → ((q : Scheduler)
        → size q.schedule < fuel
        → low ≤ q.floor
        → IsFair q
        → Keeps this low (rest q))
    → Keeps this low (close_min rest p o)
unfolding close_min
close_min-Keeps fuel low p none rest m lt le fair h = (le, fair)
close_min-Keeps fuel low p (some (stride, job)) rest m lt le fair h =
    delete_key-Keeps this low p stride _ fair (λ t valid e.
      try_step-Keeps this low (close (p.chan job.ready)) _ (λ ch.
        h (record p { schedule = t; chan = write p.chan job.ready ch })
          (omega (
            arith,
            lt,
            length-entries p.schedule,
            length-entries t,
            ap length e,
            drop_entry-length stride job (entries p.schedule) (sym (min_first p.schedule) ∙ m),
          ))
          le (dropped-IsFair p _ stride valid e refl fair)))

close_jobs-Keeps :
    (fuel : ℕ) (p : Scheduler) (low : ℕ)
    → size p.schedule < fuel
    → low ≤ p.floor
    → IsFair p
    → Keeps this low (close_jobs fuel p)
unfolding close_jobs
close_jobs-Keeps zero p low lt le fair = absurd (omega arith)
close_jobs-Keeps (suc fuel) p low lt le fair =
    close_min-Keeps fuel low p (min p.schedule) (close_jobs fuel) refl lt le fair
      (λ q. close_jobs-Keeps fuel q low)

emptied-Keeps :
    (low : ℕ) (r : Result Scheduler)
    → Keeps this low r
    → Keeps this low (then_step r (λ s. goes (record s { queue = [] })))
emptied-Keeps low tree_fails k = k
emptied-Keeps low fails k = tt
emptied-Keeps low (goes s) k = (k.0, same-IsFair s _ refl refl k.1)

pub close_scheduler-Keeps : (p : Scheduler) → IsFair p → Keeps this p.floor (close_scheduler p)
unfolding close_scheduler
close_scheduler-Keeps p fair =
    if-Keeps this p.floor p.closed (goes p) _ (omega arith, fair)
      (emptied-Keeps p.floor _ (
        close_jobs-Keeps (suc (size p.schedule)) _ p.floor (omega arith) (omega arith)
          (same-IsFair p _ refl refl fair)))
