-- ===== src/Rob.antt =====
-- lib/rob/schedulers/v3: users wait for workers in the order of their strides, the time that each has
-- had a worker. A pointer is an address on a heap of its own, and address 0 is nil; a stride is in
-- nanoseconds. The schedule is the tree of lib/util/rbtree (Rbtree) by strides.
pub mod Fair
pub mod Steps
pub mod Acquire
pub mod System
pub mod Release
pub mod Slot
pub mod Timeout
mod Tests
use pggat.Base.{
  ℕ, zero, suc, ◌+◌, ◌-◌, Bool, true, false, Option, none, some, List, [], ◌∷◌, ◌++◌, ◌==◌, ltb,
  if◌then◌else◌,
}
use pggat.Base.Eq.{nat_eq}
use pggat.Base.Maps.{Map, no_entries, put, del}
use pggat.Pooler.Chan.{Chan, Heap, made, send, close, receive, write, Received}
use pggat.Rbtree.{Tree, leaf, get, set, min, max, delete_key}
use pggat.Rbtree.Valid.{size}
use pggat.Slices

pub record User : Type 0 where
  pub id : ℕ
  pub stride : ℕ
  pub scheduled : Bool
  pub worker : ℕ

pub record Worker : Type 0 where
  pub id : ℕ
  pub user : ℕ
  pub since : ℕ

-- The user's address, and the channel's.
pub record Job : Type 0 where
  pub user : ℕ
  pub ready : ℕ

pub record Scheduler : Type 0 where
  -- The channels that are kept, the last one first.
  pub cc : List ℕ
  -- Whether the channel `waiting`, of capacity 1, holds a value.
  pub waiting : Bool
  pub closed : Bool
  pub queue : List ℕ
  pub workers : Map ℕ ℕ
  pub floor : ℕ
  pub users : Map ℕ ℕ
  pub schedule : Tree Job
  pub user : ℕ → User
  pub worker : ℕ → Worker
  pub chan : Heap
  pub fresh : ℕ

-- What an operation comes to: a panic in the tree or the end of the fuel, another panic or a wait
-- under the lock that nothing ends, or a result.
pub data Result (A : Type 0) : Type 0 where
  tree_fails fails : Result A
  goes : A → Result A

abbrev pub tree_step : {A B : Type 0} → Option A → (A → Result B) → Result B
tree_step none f = tree_fails
tree_step (some a) f = f a

abbrev pub try_step : {A B : Type 0} → Option A → (A → Result B) → Result B
try_step none f = fails
try_step (some a) f = f a

abbrev pub then_step : {A B : Type 0} → Result A → (A → Result B) → Result B
then_step tree_fails f = tree_fails
then_step fails f = fails
then_step (goes a) f = f a

abbrev pub assign : {A : Type 0} → (ℕ → A) → ℕ → A → ℕ → A
assign h a x b = if a == b then x else h b

unfoldable pub make_scheduler : Scheduler
make_scheduler = record {
  cc = [];
  waiting = false;
  closed = false;
  queue = [];
  workers = no_entries;
  floor = 0;
  users = no_entries;
  schedule = leaf;
  user = λ a. record { id = 0; stride = 0; scheduled = false; worker = 0 };
  worker = λ a. record { id = 0; user = 0; since = 0 };
  chan = λ c. made;
  fresh = 1;
}

-- The user who had the worker is charged for the time that he had it.
unfoldable pub charge : Scheduler → ℕ → ℕ → ℕ → Scheduler
charge p w now zero = p
charge p w now (suc a) = record p {
  user = assign p.user (suc a) (record (p.user (suc a)) {
    stride = (p.user (suc a)).stride + (now - (p.worker w).since);
    worker = 0;
  });
  worker = assign p.worker w (record (p.worker w) { since = now; user = 0 });
}

-- `job.User.Worker = worker; job.User.Scheduled = false; worker.Since = now; worker.User = job.User`.
unfoldable pub pair_up : Scheduler → ℕ → ℕ → Job → Scheduler
pair_up p w now job = record p {
  user = assign p.user job.user (record (p.user job.user) { worker = w; scheduled = false });
  worker = assign p.worker w (record (p.worker w) { since = now; user = job.user });
}

-- The worker goes to the job that `Min` gives, and to the queue if there is none.
unfoldable pub give : Scheduler → ℕ → ℕ → Option (ℕ × Job) → Result Scheduler
give p w now none = goes (record p { queue = p.queue ++ (w ∷ []) })
give p w now (some (stride, job)) = tree_step (delete_key (size p.schedule) p.schedule stride) (λ t.
    try_step (send (p.chan job.ready) (p.worker w).id) (λ ch. goes (record (pair_up p w now job) {
      floor = stride;
      schedule = t;
      chan = write p.chan job.ready ch;
    })))

unfoldable pub release_worker : Scheduler → ℕ → ℕ → Result Scheduler
release_worker p w now = give (charge p w now (p.worker w).user) w now (min p.schedule)

unfoldable pub release_found : Scheduler → ℕ → Option ℕ → Result Scheduler
release_found p now none = goes p
release_found p now (some w) = release_worker p w now

unfoldable pub release : Scheduler → ℕ → ℕ → Result Scheduler
release p worker now =
    let rest = release_found p now (p.workers.at worker) in if p.closed then goes p else rest

unfoldable pub add_worker : Scheduler → ℕ → ℕ → Result Scheduler
add_worker p id now =
    let added =
      release_worker
        (record p {
          workers = put id p.fresh p.workers;
          worker = assign p.worker p.fresh (record { id = id; user = 0; since = 0 });
          fresh = suc p.fresh;
        })
        p.fresh now in
    if p.closed then goes p else added

unfoldable pub delete_worker_found : Scheduler → ℕ → Option ℕ → Result Scheduler
delete_worker_found p worker none = goes p
delete_worker_found p worker (some w) =
    try_step (Slices.delete 0 p.queue w)
      (λ q. goes (record p { workers = del worker p.workers; queue = q.0 }))

unfoldable pub delete_worker : Scheduler → ℕ → Result Scheduler
delete_worker p worker =
    let rest = delete_worker_found p worker (p.workers.at worker) in
    if p.closed then goes p else rest

-- The stride of a new user: behind all who wait, or the floor.
unfoldable pub stride_from : ℕ → Option (ℕ × Job) → ℕ
stride_from floor none = floor
stride_from floor (some (s, j)) = suc s

unfoldable pub add_user : Scheduler → ℕ → Scheduler
add_user p user = if p.closed then p else record p {
  users = put user p.fresh p.users;
  user = assign p.user p.fresh (record {
    id = user;
    stride = stride_from p.floor (max p.schedule);
    scheduled = false;
    worker = 0;
  });
  fresh = suc p.fresh;
}

-- The job at the stride of a user who is scheduled is closed and taken out.
unfoldable pub unschedule : Scheduler → ℕ → Option Job → Result Scheduler
unschedule p stride none = goes p
unschedule p stride (some j) = try_step (close (p.chan j.ready)) (λ ch.
    tree_step (delete_key (size p.schedule) p.schedule stride)
      (λ t. goes (record p { chan = write p.chan j.ready ch; schedule = t })))

unfoldable pub delete_user_found : Scheduler → ℕ → Option ℕ → Result Scheduler
delete_user_found p user none = goes p
delete_user_found p user (some a) =
    let q : Scheduler = record p { users = del user p.users } in
    let rest = unschedule q (q.user a).stride (get q.schedule (q.user a).stride) in
    if (q.user a).scheduled then rest else goes q

unfoldable pub delete_user : Scheduler → ℕ → Result Scheduler
delete_user p user =
    let rest = delete_user_found p user (p.users.at user) in if p.closed then goes p else rest

-- `T.cc.Get()`, and `make` where it gives nil.
unfoldable pub take_ready : Scheduler → List ℕ → ℕ × Scheduler
take_ready p [] = (p.fresh, record p { chan = write p.chan p.fresh made; fresh = suc p.fresh })
take_ready p (c ∷ cs) =
    if c == 0
    then (p.fresh, record p { cc = cs; chan = write p.chan p.fresh made; fresh = suc p.fresh })
    else (c, record p { cc = cs })

-- The loop that finds an empty slot; `none` at the end of the fuel.
unfoldable pub slot_or : ℕ → Option Job → Option ℕ → Option ℕ
slot_or stride none more = some stride
slot_or stride (some j) more = more

unfoldable pub find_slot : ℕ → Tree Job → ℕ → Option ℕ
find_slot zero t stride = none
find_slot (suc fuel) t stride = slot_or stride (get t stride) (find_slot fuel t (suc stride))

-- The first critical section of `Acquire` returns a worker (or Nil), or a channel to wait on.
pub data Phase : Type 0 where
  returns waits : ℕ → Phase

unfoldable pub enqueue : Scheduler → ℕ → ℕ → Result (Phase × Scheduler)
enqueue p a ready =
    let stride = (p.user a).stride in
    tree_step
      (find_slot (suc (size p.schedule)) p.schedule
        (if ltb stride p.floor then p.floor else stride))
      (λ slot. tree_step (set p.schedule slot (record { user = a; ready = ready })) (λ t. goes (
        waits ready,
        record p {
          user = assign p.user a (record (p.user a) { stride = slot; scheduled = true });
          schedule = t;
          waiting = true;
        },
      )))

-- `queue[len(queue)-1]` and `queue[:len(queue)-1]` of the queue `x ∷ xs`.
abbrev pub last_worker : ℕ → List ℕ → ℕ
last_worker x [] = x
last_worker x (y ∷ ys) = last_worker y ys

abbrev pub but_last : ℕ → List ℕ → List ℕ
but_last x [] = []
but_last x (y ∷ ys) = x ∷ but_last y ys

unfoldable pub acquire_with : Scheduler → ℕ → ℕ → List ℕ → Result (Phase × Scheduler)
acquire_with p a now (x ∷ xs) =
    let w = last_worker x xs in
    goes (
      returns (p.worker w).id,
      record p {
        queue = but_last x xs;
        user = assign p.user a (record (p.user a) { worker = w });
        worker = assign p.worker w (record (p.worker w) { user = a; since = now });
      },
    )
acquire_with p a now [] = let (ready, q) = take_ready p p.cc in enqueue q a ready

unfoldable pub acquire_found : Scheduler → ℕ → Option ℕ → Result (Phase × Scheduler)
acquire_found p now none = goes (returns 0, p)
acquire_found p now (some a) = acquire_with p a now p.queue

unfoldable pub acquire_start : Scheduler → ℕ → ℕ → Result (Phase × Scheduler)
acquire_start p user now =
    let rest = acquire_found p now (p.users.at user) in
    if p.closed then goes (returns 0, p) else rest

-- `v, ok = <-c; if ok { T.cc.Put(c) }` of a value that is received.
unfoldable pub keep_chan : Scheduler → ℕ → Received → ℕ × Scheduler
keep_chan p c r =
    (r.value, record p { chan = write p.chan c r.after; cc = if r.ok then c ∷ p.cc else p.cc })

unfoldable pub acquire_receive : Scheduler → ℕ → Result (ℕ × Scheduler)
acquire_receive p c = try_step (receive (p.chan c)) (λ r. goes (keep_chan p c r))

-- After the timer, of a user who was removed: a worker that has come is given back.
unfoldable pub give_back : Scheduler → ℕ → ℕ → Option Received → Result (ℕ × Scheduler)
give_back p c now none = goes (0, p)
give_back p c now (some r) =
    let (v, q) = keep_chan p c r in
    let back = then_step (release q v now) (λ s. goes (0, s)) in
    if v == 0 then goes (0, q) else back

-- After the timer: with a job at the user's stride it is taken out; else the code takes it that a
-- worker has come.
unfoldable pub time_out : Scheduler → ℕ → ℕ → Option Job → Result (ℕ × Scheduler)
time_out p c a none = acquire_receive p c
time_out p c a (some j) =
    tree_step (delete_key (size p.schedule) p.schedule (p.user a).stride) (λ t. goes (
      0,
      record p {
        user = assign p.user a (record (p.user a) { scheduled = false });
        schedule = t;
        cc = c ∷ p.cc;
      },
    ))

unfoldable pub timeout_found : Scheduler → ℕ → ℕ → Option ℕ → Result (ℕ × Scheduler)
timeout_found p c now none = give_back p c now (receive (p.chan c))
timeout_found p c now (some a) = time_out p c a (get p.schedule (p.user a).stride)

unfoldable pub acquire_timeout : Scheduler → ℕ → ℕ → ℕ → Result (ℕ × Scheduler)
acquire_timeout p user c now = timeout_found p c now (p.users.at user)

-- `Waiters` counts the users who are scheduled.
unfoldable pub count_scheduled : Scheduler → List ℕ → ℕ
count_scheduled p [] = 0
count_scheduled p (k ∷ ks) =
    let rest = count_scheduled p ks in
    elim (p.users.at k) [ none ↦ rest | some a ↦ if (p.user a).scheduled then suc rest else rest ]

unfoldable pub waiters : Scheduler → ℕ
waiters p = count_scheduled p p.users.keys

-- The loop of `Close`: each job that `Min` gives is taken out and its channel closed.
unfoldable pub close_min :
    (Scheduler → Result Scheduler) → Scheduler → Option (ℕ × Job) → Result Scheduler
close_min rest p none = goes p
close_min rest p (some (stride, job)) =
    tree_step (delete_key (size p.schedule) p.schedule stride) (λ t.
      try_step (close (p.chan job.ready))
        (λ ch. rest (record p { schedule = t; chan = write p.chan job.ready ch })))

unfoldable pub close_jobs : ℕ → Scheduler → Result Scheduler
close_jobs zero p = tree_fails
close_jobs (suc fuel) p = close_min (close_jobs fuel) p (min p.schedule)

unfoldable pub close_scheduler : Scheduler → Result Scheduler
close_scheduler p =
    let q : Scheduler = record p { closed = true; users = no_entries; workers = no_entries } in
    let rest =
      then_step (close_jobs (suc (size q.schedule)) q) (λ s. goes (record s { queue = [] })) in
    if p.closed then goes p else rest
