-- ===== src/RwLocked/Tests.antt =====
-- lib/util/maps/rwlocked.go at a key that is not there yet.
use pggat.Base.{ℕ, ◌≡◌, true, some, none}
use pggat.Base.Eq.{nat_eq}
use pggat.Base.Maps.{Map, no_entries}
use pggat.RwLocked.{load_or_store, load_and_delete}
use pggat.RwLocked.Laws.{load_or_store_once}

abbrev no_map : Map ℕ ℕ
no_map = no_entries

load_or_store_once_example :
    let ((first, _), m1) = load_or_store 3 7 no_map in
    let (second, m2) = load_or_store 3 8 m1 in
    let (taken, m3) = load_and_delete 3 m2 in
    (second ≡ (first, true)) × (taken ≡ some first) × ((load_and_delete 3 m3).0 ≡ none)
load_or_store_once_example = load_or_store_once 3 no_map 7 8
