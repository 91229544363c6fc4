-- ===== src/Ring/Make.antt =====
-- `MakeRing` of lib/util/ring/ring.go: which rings it makes are valid.
use pggat.Base.{
  ℕ, zero, suc, ◌<◌, ◌≡◌, refl, ap, ◌∙◌, none, some, ◌∷◌, arith, get_or, replicate, tabulate,
  tabulate_congr, length-replicate, length-set,
}
use pggat.Ring.{
  Ring, ◌>>=◌, make_ring, pop_front, push_back, make_room, inc_head, inc_tail, tail_sub1,
}
use pggat.Ring.Contents.{contents}
use pggat.Ring.Ops.{Holds}

module _ {ℓ} {A : Type ℓ} (new : A) where
  get_or-replicate : (n i : ℕ) → get_or (replicate n new) i new ≡ new
  get_or-replicate zero i = refl
  get_or-replicate (suc n) zero = refl
  get_or-replicate (suc n) (suc i) = get_or-replicate n i

  tabulate-replicate : (n : ℕ) → tabulate n (λ i. new) ≡ replicate n new
  tabulate-replicate zero = refl
  tabulate-replicate (suc n) = ap (◌∷◌ new) (tabulate-replicate n)

  -- With spare capacity the new ring is valid, and holds `length` zero values.
  pub make_ring-Holds :
      (length capacity : ℕ)
      → length < capacity
      → (r : Ring A) × (make_ring new length capacity ≡ some r) × Holds new r (replicate length new)
  unfolding make_ring contents
  make_ring-Holds len cap h = (
    record { buf = replicate cap new; head = 0; tail = len; len = len },
    ground arith,
    record {
      valid = record {
        fits = omega (arith, length-replicate cap new);
        head_in = omega arith;
        tail_at = ground (arith, length-replicate cap new);
      };
      values =
          tabulate_congr len _ (λ i. new) (λ i p. get_or-replicate cap _) ∙ tabulate-replicate len;
    },
  )

-- Over `Type 0`, where the arithmetic tactics split.
module _ {A : Type 0} (new : A) where
  -- With none to spare and a length above 0, the tail of the new ring lies one past the buffer: after
  -- a `PopFront` the next `PushBack` panics.
  pub make_ring_full_panics :
      (n : ℕ) (x : A)
      → 0 < n
      → (make_ring new n n >>= λ r. pop_front new r >>= λ out. push_back new x out.1) ≡ none
  unfolding make_ring pop_front push_back make_room inc_head inc_tail tail_sub1
  make_ring_full_panics (suc n) x h =
      ground (arith, length-replicate (suc n) new, length-set (replicate (suc n) new) 0 new)
  make_ring_full_panics zero x h = elim h [ ]
