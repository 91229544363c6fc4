-- ===== src/Rob/Slot.antt =====
-- The search for an empty slot in lib/rob/schedulers/v3 ends.
use pggat.Base.{
  ℕ, zero, suc, ◌≤◌, ◌<◌, ◌≡◌, refl, ap, sym, ◌∙◌, inl, inr, Option, none, some, List, [], ◌∷◌,
  arith, ltb, length, length-append, trichotomy, lt→ltb, le→ltb, ≢→==, if◌then◌else◌,
}
use pggat.Rbtree.{Tree, leaf, node, get}
use pggat.Rbtree.Valid.{size, entries}
use pggat.Rbtree.Order.{find}
use pggat.Rbtree.Laws.{IsTree, get_lem}
use pggat.Rob.{Job, slot_or, find_slot}

-- How many entries have a key from `stride` on.
abbrev count_from : ℕ → List (ℕ × Job) → ℕ
count_from stride [] = 0
count_from stride ((k, j) ∷ es) =
    let rest = count_from stride es in if ltb k stride then rest else suc rest

count_from-le :
    (stride : ℕ) (es : List (ℕ × Job)) → count_from (suc stride) es ≤ count_from stride es
count_from-le stride [] = omega arith
count_from-le stride ((k, j) ∷ es) = ground (arith, count_from-le stride es)

count_from-find :
    (stride : ℕ) (job : Job) (es : List (ℕ × Job))
    → find stride es ≡ some job
    → count_from (suc stride) es < count_from stride es
count_from-find stride job [] e = ground arith
count_from-find stride job ((k, j) ∷ es) e = elim (trichotomy k stride) [
  | inl less ↦
      let same : find stride ((k, j) ∷ es) ≡ find stride es =
        rw (≢→== k stride (λ q. absurd (omega (arith, q)))) refl in
      rw (lt→ltb k (suc stride) (omega arith), lt→ltb k stride less)
        (count_from-find stride job es (sym same ∙ e))
  | inr (inl more) ↦
      let same : find stride ((k, j) ∷ es) ≡ find stride es =
        rw (≢→== k stride (λ q. absurd (omega (arith, q)))) refl in
      rw (le→ltb k (suc stride) (omega arith), le→ltb k stride (omega arith))
        (omega (arith, count_from-find stride job es (sym same ∙ e)))
  | inr (inr same) ↦
      rw (lt→ltb k (suc stride) (omega (arith, same)), le→ltb k stride (omega (arith, same)))
        (omega (arith, count_from-le stride es))
]

count_from-length : (stride : ℕ) (es : List (ℕ × Job)) → count_from stride es ≤ length es
count_from-length stride [] = omega arith
count_from-length stride ((k, j) ∷ es) = ground (arith, count_from-length stride es)

-- The first stride, from `stride` on, that has no job.
pub record FindsSlot (t : Tree Job) (stride : ℕ) (r : Option ℕ) : Type 0 where
  pub slot : ℕ
  pub returns : r ≡ some slot
  pub from : stride ≤ slot
  pub free : get t slot ≡ none
  pub taken : (s : ℕ) → stride ≤ s → s < slot → ¬ (get t s ≡ none)

is_some : {j : Job} → some j ≡ none → ⊥
is_some e = ground arith

pub length-entries : (t : Tree Job) → length (entries t) ≡ size t
length-entries leaf = refl
length-entries (node c l k v r) =
    omega
      (arith, length-append (entries l) ((k, v) ∷ entries r), length-entries l, length-entries r)

slot_or-finds :
    (t : Tree Job) (stride : ℕ) (o : Option Job) (more : Option ℕ)
    → get t stride ≡ o
    → ((j : Job) → o ≡ some j → FindsSlot t (suc stride) more)
    → FindsSlot t stride (slot_or stride o more)
unfolding slot_or
slot_or-finds t stride none more e next = record {
  slot = stride;
  returns = refl;
  from = omega arith;
  free = e;
  taken = λ s a b. absurd (omega arith);
}
slot_or-finds t stride (some j) more e next =
    let rest = next j refl in
    record {
      slot = rest.slot;
      returns = rest.returns;
      from = omega (arith, rest.from);
      free = rest.free;
      taken = λ s a b n. elim (trichotomy stride s) [
        | inl less ↦ rest.taken s less b n
        | inr (inl more) ↦ absurd (omega arith)
        | inr (inr same) ↦ is_some (sym e ∙ (ap (get t) same ∙ n))
      ];
    }

find_slot-finds :
    (fuel : ℕ) (t : Tree Job) (stride : ℕ)
    → IsTree t
    → count_from stride (entries t) < fuel
    → FindsSlot t stride (find_slot fuel t stride)
unfolding find_slot
find_slot-finds zero t stride valid lt = absurd (omega arith)
find_slot-finds (suc fuel) t stride valid lt =
    slot_or-finds t stride (get t stride) (find_slot fuel t (suc stride)) refl (λ j e.
      find_slot-finds fuel t (suc stride) valid
        (omega (arith, count_from-find stride j (entries t) (sym (get_lem t stride valid) ∙ e))))

pub find_slot_lem :
    (t : Tree Job) (stride : ℕ) → IsTree t → FindsSlot t stride (find_slot (suc (size t)) t stride)
find_slot_lem t stride valid =
    find_slot-finds (suc (size t)) t stride valid
      (omega (arith, count_from-length stride (entries t), length-entries t))
