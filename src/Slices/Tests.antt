-- ===== src/Slices/Tests.antt =====
-- Runs of lib/util/slices, and its theorems at concrete slices.
use mathlib.Core.List.{Perm}
use pggat.Base.{ℕ, ◌≡◌, refl, ◌↔◌, true, some, List, [], ◌∷◌, ◌++◌, if◌then◌else◌}
use pggat.Base.Eq.{nat_eq}
use pggat.Slices.{
  remove, delete, contains, equal, index, index_from, remove_index, cut_index, copy_down,
}
use pggat.Slices.Laws.{erase, remove-erase, delete-erase, equal_iff}

remove_moves_to_end :
    remove {A = ℕ} (4 ∷ 7 ∷ 9 ∷ 7 ∷ []) 7 ≡ some (4 ∷ 9 ∷ 7 ∷ [], 4 ∷ 9 ∷ 7 ∷ 7 ∷ [])
unfolding remove index index_from remove_index cut_index copy_down
remove_moves_to_end = refl

remove-erase_example :
    (array : List ℕ) × (remove {A = ℕ} (4 ∷ 7 ∷ 9 ∷ []) 7 ≡ some (erase 7 (4 ∷ 7 ∷ 9 ∷ []), array))
    × Perm array (4 ∷ 7 ∷ 9 ∷ [])
remove-erase_example = remove-erase (4 ∷ 7 ∷ 9 ∷ []) 7

delete-erase_example :
    delete {A = ℕ} 0 (4 ∷ 7 ∷ 9 ∷ []) 7
    ≡ some (
      erase 7 (4 ∷ 7 ∷ 9 ∷ []),
      if contains {A = ℕ} (4 ∷ 7 ∷ 9 ∷ []) 7
          then erase 7 (4 ∷ 7 ∷ 9 ∷ []) ++ (0 ∷ [])
          else 4 ∷ 7 ∷ 9 ∷ [],
    )
delete-erase_example = delete-erase 0 (4 ∷ 7 ∷ 9 ∷ []) 7

equal_iff_example :
    (equal {A = ℕ} (1 ∷ 2 ∷ []) (1 ∷ 3 ∷ []) ≡ true) ↔ (◌≡◌ {A = List ℕ} (1 ∷ 2 ∷ []) (1 ∷ 3 ∷ []))
equal_iff_example = equal_iff (1 ∷ 2 ∷ []) (1 ∷ 3 ∷ [])
