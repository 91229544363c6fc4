-- ===== src/Rbtree.antt =====
-- lib/util/rbtree/rbtree.go: a left-leaning red-black tree. Keys are natural numbers. Every node has
-- one parent, so a tree of nodes is a value; the pool of nodes to reuse is left out. `none` is a
-- panic: a failed assertion or a use of a nil node.
pub mod Valid
pub mod Balance
pub mod Put
pub mod PutValid
pub mod Step
pub mod DeleteMin
pub mod DeleteRight
pub mod Delete
pub mod Order
pub mod Search
pub mod Laws
pub mod Depth
mod Tests
use pggat.Base.{
  ℕ, zero, suc, Bool, true, false, Option, none, some, ◌==◌, ◌&&◌, not, ltb, if◌then◌else◌,
}

pub data Color : Type 0 where
  black red : Color

unfoldable pub opposite : Color → Color
opposite black = red
opposite red = black

-- A node has its color, left child, key, value and right child.
pub data Tree (V : Type 0) : Type 0 where
  leaf : Tree V
  node : Color → Tree V → ℕ → V → Tree V → Tree V

infixl 5 ◌>>=◌
abbrev pub ◌>>=◌ : {A B : Type 0} → Option A → (A → Option B) → Option B
none >>= f = none
some a >>= f = f a

-- `if found == nil { return this }; return found`.
unfoldable pub or_this : {A : Type 0} → Option A → A → Option A
or_this none this = some this
or_this (some a) this = some a

module _ {V : Type 0} where
  unfoldable pub get_color : Tree V → Color
  get_color leaf = black
  get_color (node c l k v r) = c

  abbrev pub is_red : Tree V → Bool
  is_red leaf = false
  is_red (node red l k v r) = true
  is_red (node black l k v r) = false

  abbrev pub left_of : Tree V → Tree V
  left_of leaf = leaf
  left_of (node c l k v r) = l

  abbrev pub right_of : Tree V → Tree V
  right_of leaf = leaf
  right_of (node c l k v r) = r

  unfoldable pub paint_black : Tree V → Tree V
  paint_black leaf = leaf
  paint_black (node c l k v r) = node black l k v r

  unfoldable pub get : Tree V → ℕ → Option V
  get leaf key = none
  get (node c l k v r) key =
      let high = get r key in
      let low = get l key in if ltb k key then high else (if ltb key k then low else some v)

  unfoldable pub rotate_right : Tree V → Option (Tree V)
  rotate_right (node c (node red a x u b) k v r) = some (node c a x u (node red b k v r))
  rotate_right t = none

  unfoldable pub rotate_left : Tree V → Option (Tree V)
  rotate_left (node c l k v (node red a x u b)) = some (node c (node red l k v a) x u b)
  rotate_left t = none

  unfoldable pub flip_colors : Tree V → Option (Tree V)
  flip_colors (node c (node d a x u b) k v (node e p y w q)) =
      some (node (opposite c) (node (opposite d) a x u b) k v (node (opposite e) p y w q))
  flip_colors t = none

  -- `if test { n = f(n) }`.
  unfoldable pub when : Bool → (Tree V → Option (Tree V)) → Tree V → Option (Tree V)
  when true f n = f n
  when false f n = some n

  unfoldable pub balance : Tree V → Option (Tree V)
  balance leaf = none
  balance (node c l k v r) = when (is_red r && not (is_red l)) rotate_left (node c l k v r) >>= λ n.
      when (is_red (left_of n) && is_red (left_of (left_of n))) rotate_right n >>= λ m.
      when (is_red (left_of m) && is_red (right_of m)) flip_colors m

  unfoldable pub put : Tree V → ℕ → V → Option (Tree V)
  put leaf key value = some (node red leaf key value leaf)
  put (node c l k v r) key value =
      let high = put r key value >>= λ n. balance (node c l k v n) in
      let low = put l key value >>= λ n. balance (node c n k v r) in
      if ltb k key then high else (if ltb key k then low else balance (node c l k value r))

  unfoldable pub set : Tree V → ℕ → V → Option (Tree V)
  set t key value = put t key value >>= λ n. some (paint_black n)

  -- `n.right = T.rotateRight(n.right)`.
  unfoldable pub rotate_child : Tree V → Option (Tree V)
  rotate_child leaf = none
  rotate_child (node c l k v r) = rotate_right r >>= λ n. some (node c l k v n)

  unfoldable pub move_red_left : Tree V → Option (Tree V)
  move_red_left n = flip_colors n >>= λ m.
      let moved = rotate_child m >>= λ p. rotate_left p >>= λ q. flip_colors q in
      if is_red (left_of (right_of m)) then moved else some m

  unfoldable pub move_red_right : Tree V → Option (Tree V)
  move_red_right n = flip_colors n >>= λ m.
      let moved = rotate_right m >>= λ q. flip_colors q in
      if is_red (left_of (left_of m)) then moved else some m

  -- `min` and `max` of a node that may be nil.
  unfoldable pub min : Tree V → Option (ℕ × V)
  min leaf = none
  min (node c leaf k v r) = some (k, v)
  min (node c (node d a x u b) k v r) = min (node d a x u b)

  unfoldable pub max : Tree V → Option (ℕ × V)
  max leaf = none
  max (node c l k v leaf) = some (k, v)
  max (node c l k v (node d a x u b)) = max (node d a x u b)

  unfoldable pub next : Tree V → ℕ → Option (ℕ × V)
  next leaf key = none
  next (node c l k v r) key =
      let high = next r key in
      let low = or_this (next l key) (k, v) in
      if k == key then min r else (if ltb k key then high else low)

  unfoldable pub prev : Tree V → ℕ → Option (ℕ × V)
  prev leaf key = none
  prev (node c l k v r) key =
      let low = prev l key in
      let high = or_this (prev r key) (k, v) in
      if k == key then max l else (if ltb key k then low else high)

  -- `n.left.getColor() == black && n.left.left.getColor() == black`, where the second test needs
  -- the child.
  unfoldable pub both_black : Tree V → Option Bool
  both_black leaf = none
  both_black (node red l k v r) = some false
  both_black (node black l k v r) = some (not (is_red l))

  unfoldable pub with_left : Tree V → Tree V → Option (Tree V)
  with_left leaf n = none
  with_left (node c l k v r) n = some (node c n k v r)

  unfoldable pub with_right : Tree V → Tree V → Option (Tree V)
  with_right leaf n = none
  with_right (node c l k v r) n = some (node c l k v n)

  -- The recursion of `deleteMin` and `delete` goes down a tree that has been rotated, so it takes
  -- fuel; `none` stands for the end of the fuel too.
  unfoldable pub delete_min : ℕ → Tree V → Option (Tree V)
  delete_min zero n = none
  delete_min (suc fuel) leaf = none
  delete_min (suc fuel) (node c leaf k v r) = some leaf
  delete_min (suc fuel) (node c (node d a x u b) k v r) = both_black (node d a x u b) >>= λ test.
      when test move_red_left (node c (node d a x u b) k v r) >>= λ n.
      delete_min fuel (left_of n) >>= λ l. with_left n l >>= balance

  -- The end of `delete` in the right half: `del` and `del_min` are the calls below.
  unfoldable pub delete_here :
      (Tree V → Option (Tree V)) → (Tree V → Option (Tree V)) → ℕ → Tree V → Option (Tree V)
  delete_here del del_min key leaf = none
  delete_here del del_min key (node c l k v r) =
      let root = min r >>= λ x. del_min r >>= λ n. balance (node c l x.0 x.1 n) in
      let below = del r >>= λ n. balance (node c l k v n) in if key == k then root else below

  unfoldable pub delete_right :
      (Tree V → Option (Tree V)) → (Tree V → Option (Tree V)) → ℕ → Tree V → Option (Tree V)
  delete_right del del_min key leaf = none
  delete_right del del_min key (node c l k v r) =
      let on = both_black r >>= λ test.
      when test move_red_right (node c l k v r) >>= delete_here del del_min key in
      elim r [ leaf ↦ if key == k then some leaf else none | other ↦ on ]

  unfoldable pub delete : ℕ → ℕ → Tree V → Option (Tree V)
  delete zero key n = none
  delete (suc fuel) key leaf = none
  delete (suc fuel) key (node c l k v r) =
      let low = both_black l >>= λ test. when test move_red_left (node c l k v r) >>= λ n.
      delete fuel key (left_of n) >>= λ m. with_left n m >>= balance in
      let high =
        when (is_red l) rotate_right (node c l k v r)
        >>= delete_right (delete fuel key) (delete_min fuel) key in
      if ltb key k then low else high

  unfoldable pub redden : Tree V → Tree V
  redden leaf = leaf
  redden (node c l k v r) =
      if not (is_red l) && not (is_red r) then node red l k v r else node c l k v r

  unfoldable pub delete_found : ℕ → Tree V → ℕ → Option V → Option (Tree V)
  delete_found fuel t key none = some t
  delete_found fuel t key (some v) = delete fuel key (redden t) >>= λ n. some (paint_black n)

  unfoldable pub delete_key : ℕ → Tree V → ℕ → Option (Tree V)
  delete_key fuel t key = delete_found fuel t key (get t key)
