-- ===== src/RwLocked.antt =====
-- lib/util/maps/rwlocked.go: a Go map whose lock makes each method one step.
pub mod Laws
mod Tests
use pggat.Base.{Bool, true, false, Option, none, some, List, [], ◌∷◌, ℕ, length}
use pggat.Base.Eq.{Eq}
use pggat.Base.Maps.{Map, put, del, delete_keys}

module _ {K V : Type 0} ⦃e : Eq K⦄ where
  unfoldable pub delete : K → Map K V → Map K V
  delete key m = del key m

  unfoldable pub load : K → Map K V → Option V
  load key m = m.at key

  unfoldable pub load_and_delete : K → Map K V → Option V × Map K V
  load_and_delete key m = (m.at key, del key m)

  -- What follows the lookup of `LoadOrStore`.
  unfoldable pub or_store : K → V → Option V → Map K V → (V × Bool) × Map K V
  or_store key value none m = ((value, false), put key value m)
  or_store key value (some actual) m = ((actual, true), m)

  unfoldable pub load_or_store : K → V → Map K V → (V × Bool) × Map K V
  load_or_store key value m = or_store key value (m.at key) m

  unfoldable pub store : K → V → Map K V → Map K V
  store key value m = put key value m

  unfoldable pub swap : K → V → Map K V → Option V × Map K V
  swap key value m = (m.at key, put key value m)

  unfoldable pub clear : Map K V → Map K V
  clear m = delete_keys m.keys m

  unfoldable pub len : Map K V → ℕ
  len m = length m.keys
