-- ===== src/Ring/Contents.antt =====
-- What a ring holds, oldest first, and its representation invariant.
use pggat.Base.{ℕ, ◌+◌, ◌-◌, ◌≤◌, ◌≡◌, List, length, get_or, tabulate}
use pggat.Ring.{Ring, wrap}

-- The tail is the slot just past the newest value.
pub record IsValid {ℓ} {A : Type ℓ} (r : Ring A) : Type 0 where
  pub fits : r.len ≤ length r.buf
  pub head_in : r.head ≤ length r.buf - 1
  pub tail_at : r.tail ≡ wrap (length r.buf) (r.head + r.len)

module _ {ℓ} {A : Type ℓ} (new : A) where
  abbrev pub slot : Ring A → ℕ → ℕ
  slot r i = wrap (length r.buf) (r.head + i)

  abbrev pub at : Ring A → ℕ → A
  at r i = get_or r.buf (slot r i) new

  unfoldable pub contents : Ring A → List A
  contents r = tabulate r.len (at r)
