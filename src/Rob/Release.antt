-- ===== src/Rob/Release.antt =====
-- Who gets a worker, and where a user waits, in lib/rob/schedulers/v3.
use pggat.Base.{
  ℕ, zero, suc, ◌+◌, ◌-◌, ◌≡◌, refl, ap, sym, subst, ◌∙◌, Bool, true, false, some, List, [], ◌∷◌,
  arith, ≡→==, ==_iff, if◌then◌else◌, ltb, ◌==◌,
}
use pggat.Pooler.Chan.{made, send-made, write}
use pggat.Rbtree.{Tree, min}
use pggat.Rbtree.Valid.{size, entries}
use pggat.Rbtree.Put.{put_entry}
use pggat.Rbtree.Order.{drop_entry, first_of}
use pggat.Rbtree.DeleteRight.{min_first}
use pggat.Rbtree.Laws.{IsTree, set_lem, delete_key_lem}
use pggat.Rob.{
  Scheduler, Job, Result, Phase, returns, waits, goes, assign, find_slot, acquire_start,
  acquire_found, acquire_with, charge, give, release_worker, pair_up, take_ready, enqueue,
}
use pggat.Rob.Slot.{FindsSlot, find_slot_lem}

-- The worker at `w` is sent to the first job of the schedule, which the others stay in. The user who had
-- the worker, if any, is charged for the time that he had it.
pub record Hands (p : Scheduler) (w now stride : ℕ) (job : Job) (rest : List (ℕ × Job))
    (r : Result Scheduler) : Type 0 where
  pub state : Scheduler
  pub returns : r ≡ goes state
  pub schedule : entries state.schedule ≡ rest
  pub floor : state.floor ≡ stride
  pub sent : state.chan job.ready ≡ record { buffer = some (p.worker w).id; closed = false }
  pub user : (state.worker w).user ≡ job.user
  pub unscheduled : (state.user job.user).scheduled ≡ false
  pub charged :
      (u : ℕ)
      → (p.worker w).user ≡ suc u
      → (state.user (suc u)).stride ≡ (p.user (suc u)).stride + (now - (p.worker w).since)

charge_same :
    (p : Scheduler) (w now a : ℕ)
    → ((charge p w now a).schedule ≡ p.schedule)
      × (((charge p w now a).chan ≡ p.chan) × (((charge p w now a).worker w).id ≡ (p.worker w).id))
unfolding charge
charge_same p w now zero = (refl, (refl, refl))
charge_same p w now (suc a) = (refl, (refl, rw (≡→== w w refl) refl))

charge_stride :
    (p : Scheduler) (w now u : ℕ)
    → ((charge p w now (suc u)).user (suc u)).stride
      ≡ (p.user (suc u)).stride + (now - (p.worker w).since)
unfolding charge
charge_stride p w now u = rw (≡→== (suc u) (suc u) refl) refl

pair_up_stride :
    (p : Scheduler) (w now : ℕ) (job : Job) (u : ℕ)
    → ((pair_up p w now job).user u).stride ≡ (p.user u).stride
unfolding pair_up
pair_up_stride p w now job u = stride_of (job.user == u) (==_iff job.user u).0
  where
    stride_of :
        (b : Bool)
        → (b ≡ true → job.user ≡ u)
        → (if b
            then record (p.user job.user) { worker = w; scheduled = false }
            else p.user u).stride
          ≡ (p.user u).stride
    stride_of true e = ap (λ x. (p.user x).stride) (e refl)
    stride_of false e = refl

drop_first :
    (stride : ℕ) (job : Job) (rest : List (ℕ × Job))
    → drop_entry stride ((stride, job) ∷ rest) ≡ rest
drop_first stride job rest = rw (≡→== stride stride refl) refl

-- Releasing a worker while users wait, the schedule being a balanced search tree: the worker is sent to
-- the job with the least stride, which is taken out of the schedule and whose stride becomes the floor;
-- its user is no longer scheduled. The user who had the worker has his stride raised by the time that
-- he had it. The channel of the job is open and empty.
pub release_worker_first :
    (p : Scheduler) (w now stride : ℕ) (job : Job) (rest : List (ℕ × Job))
    → IsTree p.schedule
    → entries p.schedule ≡ (stride, job) ∷ rest
    → p.chan job.ready ≡ made
    → Hands p w now stride job rest (release_worker p w now)
unfolding release_worker give pair_up
release_worker_first p w now stride job rest valid e empty =
    let a = (p.worker w).user in
    let q = charge p w now a in
    let same = charge_same p w now a in
    let least : min p.schedule ≡ some (stride, job) = min_first p.schedule ∙ ap first_of e in
    let del =
      delete_key_lem (size q.schedule) q.schedule stride (omega arith)
        (subst IsTree (sym same.0) valid) in
    let ready =
      send-made (q.chan job.ready) (q.worker w).id (ap (λ h. h job.ready) same.1.0 ∙ empty) in
    record {
      state = record (pair_up q w now job) {
        floor = stride;
        schedule = del.tree;
        chan = write q.chan job.ready (record { buffer = some (q.worker w).id; closed = false });
      };
      returns = rw (least, del.returns, ready) refl;
      schedule =
          del.now
          ∙ (ap (λ t. drop_entry stride (entries t)) same.0
              ∙ (ap (drop_entry stride) e ∙ drop_first stride job rest));
      floor = refl;
      sent = rw (≡→== job.ready job.ready refl, same.1.1) refl;
      user = rw (≡→== w w refl) refl;
      unscheduled = rw (≡→== job.user job.user refl) refl;
      charged = λ u had.
          pair_up_stride q w now job (suc u)
          ∙ subst
              (λ x.
                ((charge p w now x).user (suc u)).stride
                ≡ (p.user (suc u)).stride + (now - (p.worker w).since))
              (sym had) (charge_stride p w now u);
    }

-- Where a user comes to wait: the first stride, from his own or the floor if that is above, that no job
-- has.
pub record Joins (t : Tree Job) (a ready from : ℕ) (r : Result (Phase × Scheduler)) : Type 0 where
  pub state : Scheduler
  pub found : FindsSlot t from (find_slot (suc (size t)) t from)
  pub returns : r ≡ goes (waits ready, state)
  pub schedule :
      entries state.schedule ≡ put_entry found.slot (record { user = a; ready = ready }) (entries t)
  pub scheduled : ((state.user a).stride ≡ found.slot) × ((state.user a).scheduled ≡ true)
  pub signalled : state.waiting ≡ true

enqueue-Joins :
    (p : Scheduler) (a ready : ℕ)
    → IsTree p.schedule
    → Joins p.schedule a ready
        (if ltb (p.user a).stride p.floor then p.floor else (p.user a).stride)
        (enqueue p a ready)
unfolding enqueue
enqueue-Joins p a ready valid =
    let from = if ltb (p.user a).stride p.floor then p.floor else (p.user a).stride in
    let f = find_slot_lem p.schedule from valid in
    let job : Job = record { user = a; ready = ready } in
    let t = set_lem p.schedule f.slot job valid in
    record {
      state = record p {
        user = assign p.user a (record (p.user a) { stride = f.slot; scheduled = true });
        schedule = t.tree;
        waiting = true;
      };
      found = f;
      returns = rw (f.returns, t.returns) refl;
      schedule = t.now;
      scheduled = (rw (≡→== a a refl) refl, rw (≡→== a a refl) refl);
      signalled = refl;
    }

abbrev pub start_stride : Scheduler → ℕ → ℕ
start_stride p a = if ltb (p.user a).stride p.floor then p.floor else (p.user a).stride

take_ready-Joins :
    (p : Scheduler) (a : ℕ) (cs : List ℕ)
    → IsTree p.schedule
    → Joins p.schedule a
        (take_ready p cs).0
        (start_stride p a)
        (enqueue (take_ready p cs).1 a (take_ready p cs).0)
unfolding take_ready
take_ready-Joins p a [] valid = enqueue-Joins (take_ready p []).1 a (take_ready p []).0 valid
take_ready-Joins p a (c ∷ cs) valid =
    pick (c == 0) _ _ (λ ready. enqueue-Joins _ a ready valid)
      (λ ready. enqueue-Joins _ a ready valid)
  where
    pick :
        (b : Bool) (x y : ℕ × Scheduler)
        → ((r : ℕ) → Joins p.schedule a r (start_stride p a) (enqueue x.1 a r))
        → ((r : ℕ) → Joins p.schedule a r (start_stride p a) (enqueue y.1 a r))
        → Joins p.schedule a
            (if b then x else y).0
            (start_stride p a)
            (enqueue (if b then x else y).1 a (if b then x else y).0)
    pick true x y u v = u x.0
    pick false x y u v = v y.0

-- `Acquire` of a user on an open scheduler whose workers are all busy ends its search and waits: the
-- user is scheduled, and his job is put in the schedule, a balanced search tree, at the first stride that
-- is free, from his own or the floor if that is above.
pub acquire_start-Joins :
    (p : Scheduler) (user a now : ℕ)
    → IsTree p.schedule
    → p.closed ≡ false
    → p.users.at user ≡ some a
    → p.queue ≡ []
    → Joins p.schedule a (take_ready p p.cc).0 (start_stride p a) (acquire_start p user now)
unfolding acquire_start acquire_found acquire_with
acquire_start-Joins p user a now valid opened known busy =
    subst
      (λ b.
        Joins p.schedule a (take_ready p p.cc).0 (start_stride p a)
          (if b then goes (returns 0, p) else acquire_found p now (p.users.at user)))
      (sym opened)
      (subst
        (λ o. Joins p.schedule a (take_ready p p.cc).0 (start_stride p a) (acquire_found p now o))
        (sym known)
        (subst
          (λ l.
            Joins p.schedule a (take_ready p p.cc).0 (start_stride p a) (acquire_with p a now l))
          (sym busy) (take_ready-Joins p a p.cc valid)))
