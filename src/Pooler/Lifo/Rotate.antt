-- ===== src/Pooler/Lifo/Rotate.antt =====
-- The loop of the timeout in lib/gat/handlers/pool/poolers/lifo/pooler.go.
use mathlib.Core.List.{append-nil, append_assoc}
use pggat.Base.{
  ℕ, ◌≡◌, refl, sym, ap, ◌∙◌, Bool, true, false, ◌||◌, List, [], ◌∷◌, ◌++◌, length, ltb, ◌==◌,
  arith, Bool-cases, inl, inr,
}
use pggat.Base.Count.{count, remove_all}
use pggat.Base.Eq.{nat_eq}
use pggat.Slices.{contains}
use pggat.Pooler.Lifo.{rotate}

rotate-append :
    (c : ℕ) (xs ys : List ℕ) (found : Bool)
    → rotate (length xs) c (xs ++ ys) found ≡ (found || contains xs c, ys ++ remove_all c xs)
unfolding rotate contains
rotate-append c [] ys true = rw append-nil
rotate-append c [] ys false = rw append-nil
rotate-append c (x ∷ xs) ys found = elim (Bool-cases (c == x)) [
  | inl here ↦
      let back : (x == c) ≡ true = ground arith in
      rw (here, back) (rotate-append c xs ys true ∙ ground arith)
  | inr there ↦
      let back : (x == c) ≡ false = ground arith in
      rw (there, back, append_assoc xs ys (x ∷ []))
        (rotate-append c xs (ys ++ (x ∷ [])) found
          ∙ rw (append_assoc ys (x ∷ []) (remove_all c xs)) refl)
]

-- Going once round finds `c` if it waits, takes it out, and keeps the others in order.
pub rotate_lem :
    (c : ℕ) (ws : List ℕ) → rotate (length ws) c ws false ≡ (contains ws c, remove_all c ws)
rotate_lem c ws =
    ap (λ l. rotate (length ws) c l false) (sym (append-nil ws)) ∙ rotate-append c ws [] false

pub contains-count : (xs : List ℕ) (c : ℕ) → contains xs c ≡ ltb 0 (count c xs)
unfolding contains
contains-count [] c = refl
contains-count (x ∷ xs) c = ground (arith, contains-count xs c)
