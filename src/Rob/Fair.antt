-- ===== src/Rob/Fair.antt =====
-- What holds of the schedule of lib/rob/schedulers/v3 between its operations.
use pggat.Base.{
  ℕ, suc, ◌+◌, ◌≤◌, ◌≡◌, refl, ap, sym, subst, ◌∙◌, Bool, true, false, Option, none, some, List, [],
  ◌∷◌, arith, if◌then◌else◌, ≡→==,
}
use pggat.Rbtree.{Tree, set, min, delete_key}
use pggat.Rbtree.Valid.{size, entries}
use pggat.Rbtree.Put.{put_entry}
use pggat.Rbtree.Order.{
  Ordered, Ordered-widen, put_entry-Ordered, drop_entry, drop_entry-Ordered, first_of,
}
use pggat.Rbtree.Laws.{IsTree, set_lem, delete_key_lem}
use pggat.Rbtree.DeleteRight.{min_first}
use mathlib.Core.Option.{some-injective}
use pggat.Rob.{Scheduler, Job, Result, tree_fails, fails, goes, tree_step, try_step}

-- The schedule is a balanced search tree whose strides are not below the floor.
pub record IsFair (p : Scheduler) : Type 0 where
  pub valid : IsTree p.schedule
  pub above : ℕ
  pub ordered : Ordered p.floor above (entries p.schedule)

-- The operation does not fail in the tree; if it goes on, the schedule is as it should be and the
-- floor is not below `low`.
abbrev pub Keeps : {A : Type 0} → (A → Scheduler) → ℕ → Result A → Type 0
Keeps f low tree_fails = ⊥
Keeps f low fails = Unit
Keeps f low (goes a) = (low ≤ (f a).floor) × IsFair (f a)

module _ {A B : Type 0} (f : A → Scheduler) (low : ℕ) where
  pub try_step-Keeps :
      (o : Option B) (g : B → Result A) → ((b : B) → Keeps f low (g b)) → Keeps f low (try_step o g)
  try_step-Keeps none g h = tt
  try_step-Keeps (some b) g h = h b

module _ {A : Type 0} (f : A → Scheduler) (low : ℕ) where
  pub if-Keeps :
      (b : Bool) (x y : Result A) → Keeps f low x → Keeps f low y → Keeps f low (if b then x else y)
  if-Keeps true x y p q = p
  if-Keeps false x y p q = q

  pub tree_step-Keeps :
      {B : Type 0} (o : Option B) (b : B) (g : B → Result A)
      → o ≡ some b
      → Keeps f low (g b)
      → Keeps f low (tree_step o g)
  tree_step-Keeps o b g e k = subst (λ m. Keeps f low (tree_step m g)) (sym e) k

  -- A step that takes the job at a stride out of the schedule.
  pub delete_key-Keeps :
      (p : Scheduler) (stride : ℕ) (g : Tree Job → Result A)
      → IsFair p
      → ((t : Tree Job)
          → IsTree t
          → entries t ≡ drop_entry stride (entries p.schedule)
          → Keeps f low (g t))
      → Keeps f low (tree_step (delete_key (size p.schedule) p.schedule stride) g)
  delete_key-Keeps p stride g fair h =
      let d = delete_key_lem (size p.schedule) p.schedule stride (omega arith) fair.valid in
      tree_step-Keeps _ d.tree g d.returns (h d.tree d.valid d.now)

  pub set-Keeps :
      (p : Scheduler) (stride : ℕ) (job : Job) (g : Tree Job → Result A)
      → IsFair p
      → ((t : Tree Job)
          → IsTree t
          → entries t ≡ put_entry stride job (entries p.schedule)
          → Keeps f low (g t))
      → Keeps f low (tree_step (set p.schedule stride job) g)
  set-Keeps p stride job g fair h =
      let d = set_lem p.schedule stride job fair.valid in
      tree_step-Keeps _ d.tree g d.returns (h d.tree d.valid d.now)

-- A state with the same schedule and floor.
pub same-IsFair :
    (p q : Scheduler) → q.schedule ≡ p.schedule → q.floor ≡ p.floor → IsFair p → IsFair q
same-IsFair p q s e fair = record {
  valid = subst IsTree (sym s) fair.valid;
  above = fair.above;
  ordered = rw (s, e) fair.ordered;
}

-- A state whose schedule has lost a job.
pub dropped-IsFair :
    (p q : Scheduler) (stride : ℕ)
    → IsTree q.schedule
    → entries q.schedule ≡ drop_entry stride (entries p.schedule)
    → q.floor ≡ p.floor
    → IsFair p
    → IsFair q
dropped-IsFair p q stride valid e s fair = record {
  valid = valid;
  above = fair.above;
  ordered =
      rw (e, s) (drop_entry-Ordered stride p.floor fair.above (entries p.schedule) fair.ordered);
}

-- A state whose schedule has a job more, not below the floor.
pub put-IsFair :
    (p q : Scheduler) (stride : ℕ) (job : Job)
    → IsTree q.schedule
    → entries q.schedule ≡ put_entry stride job (entries p.schedule)
    → q.floor ≡ p.floor
    → p.floor ≤ stride
    → IsFair p
    → IsFair q
put-IsFair p q stride job valid e s le fair = record {
  valid = valid;
  above = fair.above + suc stride;
  ordered =
      rw (e, s)
        (put_entry-Ordered stride job p.floor fair.above (entries p.schedule) le fair.ordered);
}

drop_first :
    (k : ℕ) (j : Job) (lo hi : ℕ) (es : List (ℕ × Job))
    → Ordered lo hi es
    → first_of es ≡ some (k, j)
    → (lo ≤ k) × Ordered k hi (drop_entry k es)
drop_first k j lo hi [] o e = ground arith
drop_first k j lo hi ((i, m) ∷ es) o e =
    subst (λ n. (lo ≤ n) × Ordered n hi (drop_entry n ((i, m) ∷ es)))
      (ap (λ x. x.0) (some-injective _ _ e))
      (o.0, rw (≡→== i i refl) (Ordered-widen i (suc i) hi hi es (omega arith) (omega arith) o.1))

-- A state whose schedule has lost its first job, and whose floor is the stride of that.
pub first-IsFair :
    (p q : Scheduler) (stride : ℕ) (job : Job)
    → min p.schedule ≡ some (stride, job)
    → IsTree q.schedule
    → entries q.schedule ≡ drop_entry stride (entries p.schedule)
    → q.floor ≡ stride
    → IsFair p
    → (p.floor ≤ q.floor) × IsFair q
first-IsFair p q stride job m valid e s fair =
    let d =
      drop_first stride job p.floor fair.above (entries p.schedule) fair.ordered
        (sym (min_first p.schedule) ∙ m) in
    (rw s d.0, record { valid = valid; above = fair.above; ordered = rw (e, s) d.1 })
