-- ===== src/Ring/Tests.antt =====
-- Runs of lib/util/ring/ring.go, and its theorems at concrete rings.
use pggat.Base.{ℕ, ◌≡◌, refl, none, some, List, [], ◌∷◌, ◌++◌, arith, get_elem?}
use pggat.Ring
use pggat.Ring.{Ring, ◌>>=◌}
use pggat.Ring.Contents.{IsValid, contents}
use pggat.Ring.Ops.{push_back-Holds, get-contents, Holds}
use pggat.Ring.Make.{make_ring-Holds, make_ring_full_panics}
use pggat.Ring.Deque.{
  Op, push_front, push_back, pop_front, pop_back, clear, step, run, spec_run, run_refines,
}

-- 8, then 9, round the end of the buffer, which is full.
abbrev full_ring : Ring ℕ
full_ring = record { buf = 9 ∷ 8 ∷ []; head = 1; tail = 1; len = 2 }

full_ring-IsValid : IsValid full_ring
full_ring-IsValid = omega arith

abbrev script : List (Op ℕ)
script = push_back 10 ∷ push_front 7 ∷ pop_back ∷ pop_front ∷ pop_front ∷ clear ∷ pop_back ∷ []

run_grows :
    run 0 full_ring script ≡ some (none ∷ none ∷ some 10 ∷ some 7 ∷ some 8 ∷ none ∷ none ∷ [])
unfolding run step Ring.push_back Ring.push_front Ring.pop_front Ring.pop_back Ring.clear
    Ring.inc_tail Ring.dec_head Ring.inc_head Ring.dec_tail Ring.make_room Ring.grow Ring.tail_sub1
run_grows = refl

run_refines_example : run 0 full_ring script ≡ some (spec_run (8 ∷ 9 ∷ []) script)
unfolding contents
run_refines_example = run_refines 0 script full_ring full_ring-IsValid

push_back-Holds_example :
    (s : Ring ℕ) × (Ring.push_back 0 5 full_ring ≡ some s)
    × Holds 0 s (contents 0 full_ring ++ (5 ∷ []))
push_back-Holds_example = push_back-Holds 0 full_ring 5 full_ring-IsValid

get-contents_example : Ring.get full_ring 1 ≡ get_elem? (contents 0 full_ring) 1
get-contents_example = get-contents 0 full_ring 1 full_ring-IsValid

make_ring-Holds_example : (r : Ring ℕ) × (Ring.make_ring 0 2 4 ≡ some r) × Holds 0 r (0 ∷ 0 ∷ [])
make_ring-Holds_example = make_ring-Holds 0 2 4 (omega arith)

make_ring_full_panics_example :
    (Ring.make_ring {A = ℕ} 0 3 3 >>= λ r. Ring.pop_front 0 r >>= λ out. Ring.push_back 0 7 out.1)
    ≡ none
make_ring_full_panics_example = make_ring_full_panics 0 3 7 (omega arith)
