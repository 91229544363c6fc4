-- ===== src/Ring/Deque.antt =====
-- A ring as a client of lib/util/ring sees it: a double-ended queue, a list of values.
use pggat.Base.{◌≡◌, refl, Option, none, some, List, [], ◌∷◌, ◌++◌, inl, inr, arith}
use pggat.Ring
use pggat.Ring.{Ring, ◌>>=◌}
use pggat.Ring.Contents.{IsValid, contents}
use pggat.Ring.Ops.{Holds, push_back-Holds, push_front-Holds, pop_front-Pops, pop_back-Pops}

-- A call and what it returns.
pub data Op {ℓ} (A : Type ℓ) : Type ℓ where
  push_front push_back : A → Op A
  pop_front pop_back clear : Op A

-- The double-ended queue: what each call does to the values, and what it returns.
module _ {ℓ} {A : Type ℓ} where
  abbrev pub front : List A → Option A × List A
  front [] = (none, [])
  front (x ∷ xs) = (some x, xs)

  -- The last value of `x ∷ xs`, and the others.
  abbrev pub split_last : A → List A → A × List A
  split_last x [] = (x, [])
  split_last x (y ∷ ys) = let (z, zs) = split_last y ys in (z, x ∷ zs)

  abbrev pub back : List A → Option A × List A
  back [] = (none, [])
  back (x ∷ xs) = let (y, ys) = split_last x xs in (some y, ys)

  unfoldable pub spec_step : List A → Op A → Option A × List A
  spec_step xs (push_front x) = (none, x ∷ xs)
  spec_step xs (push_back x) = (none, xs ++ (x ∷ []))
  spec_step xs pop_front = front xs
  spec_step xs pop_back = back xs
  spec_step xs clear = (none, [])

  unfoldable pub spec_run : List A → List (Op A) → List (Option A)
  spec_run xs [] = []
  spec_run xs (op ∷ ops) = let (reply, ys) = spec_step xs op in reply ∷ spec_run ys ops

  split_last-append : (x y : A) (ys : List A) → split_last x (ys ++ (y ∷ [])) ≡ (y, x ∷ ys)
  split_last-append x y [] = refl
  split_last-append x y (z ∷ zs) = rw (split_last-append z y zs) refl

  back-append : (y : A) (ys : List A) → back (ys ++ (y ∷ [])) ≡ (some y, ys)
  back-append y [] = refl
  back-append y (z ∷ zs) = rw (split_last-append z y zs) refl

module _ {ℓ} {A : Type ℓ} (new : A) where
  -- One call on a ring; `none` is a panic.
  unfoldable pub step : Ring A → Op A → Option (Option A × Ring A)
  step r (push_front x) = Ring.push_front new x r >>= λ s. some (none, s)
  step r (push_back x) = Ring.push_back new x r >>= λ s. some (none, s)
  step r pop_front = Ring.pop_front new r
  step r pop_back = Ring.pop_back new r
  step r clear = some (none, Ring.clear r)

  unfoldable pub run : Ring A → List (Op A) → Option (List (Option A))
  run r [] = some []
  run r (op ∷ ops) = step r op >>= λ out. run out.1 ops >>= λ replies. some (out.0 ∷ replies)

  pub clear-Holds : (r : Ring A) → Holds new (Ring.clear r) []
  unfolding Ring.clear contents
  clear-Holds r = record {
    valid = record { fits = omega arith; head_in = omega arith; tail_at = ground arith };
    values = refl;
  }

  pub step_refines :
      (r : Ring A) (op : Op A)
      → IsValid r
      → (s : Ring A) × (step r op ≡ some ((spec_step (contents new r) op).0, s))
        × Holds new s (spec_step (contents new r) op).1
  unfolding step spec_step
  step_refines r (push_front x) v = let (s, e, h) = push_front-Holds new r x v in (s, rw e refl, h)
  step_refines r (push_back x) v = let (s, e, h) = push_back-Holds new r x v in (s, rw e refl, h)
  step_refines r pop_front v = elim (pop_front-Pops new r v) [
    | inl (no_values, e) ↦ rw no_values (r, e, record { valid = v; values = no_values })
    | inr (y, s, e, values, w) ↦ rw values (s, e, record { valid = w; values = refl })
  ]
  step_refines r pop_back v = elim (pop_back-Pops new r v) [
    | inl (no_values, e) ↦ rw no_values (r, e, record { valid = v; values = no_values })
    | inr (y, s, e, values, w) ↦
        rw (values, back-append y (contents new s)) (s, e, record { valid = w; values = refl })
  ]
  step_refines r clear v = (Ring.clear r, refl, clear-Holds r)

  -- From a valid ring no sequence of calls panics, and each returns what the queue returns.
  pub run_refines :
      (ops : List (Op A)) (r : Ring A)
      → IsValid r
      → run r ops ≡ some (spec_run (contents new r) ops)
  unfolding run spec_run
  run_refines [] r v = refl
  run_refines (op ∷ ops) r v =
      let (s, e, h) = step_refines r op v in rw (e, run_refines ops s h.valid, h.values) refl

  -- The zero value is a valid ring with no values.
  pub empty-Holds : Holds new (Ring.empty) []
  unfolding Ring.empty contents
  empty-Holds = record {
    valid = record { fits = omega arith; head_in = omega arith; tail_at = ground arith };
    values = refl;
  }
