-- ===== src/Ring.antt =====
-- lib/util/ring/ring.go: a growing ring buffer. The record has the fields of the struct; `none` is
-- a panic (an index out of range, or one of the code's own panics). `new` is Go's `*new(T)`.
pub mod Contents
pub mod Grow
pub mod Ops
pub mod Deque
pub mod Make
mod Tests
use pggat.Base.{
  ℕ, zero, suc, ◌+◌, ◌-◌, ◌*◌, ◌≤◌, ◌<◌, Bool, true, false, Option, none, some, List, [], ◌∷◌, ◌++◌,
  length, get_elem?, set, take, drop, replicate, ltb, leb, ◌==◌, if◌then◌else◌,
}

pub record Ring {ℓ} (A : Type ℓ) : Type ℓ where
  pub buf : List A
  pub head : ℕ
  pub tail : ℕ
  pub len : ℕ

-- A chain of steps that may panic.
infixl 5 ◌>>=◌
abbrev pub ◌>>=◌ {ℓ κ} : {A : Type ℓ} {B : Type κ} → Option A → (A → Option B) → Option B
none >>= f = none
some a >>= f = f a

-- `i++; if i == len(buf) { i = 0 }`.
abbrev pub next : ℕ → ℕ → ℕ
next cap i = if i + 1 == cap then 0 else i + 1

-- `i--; if i == -1 { i = len(buf) - 1 }`.
abbrev pub prev : ℕ → ℕ → ℕ
prev cap i = if i == 0 then cap - 1 else i - 1

-- `head + n`, less the capacity where it runs past the end.
abbrev pub wrap : ℕ → ℕ → ℕ
wrap cap i = if leb cap i then i - cap else i

-- The size that `grow` allocates.
abbrev pub grown : ℕ → ℕ
grown size = if size * 2 == 0 then 2 else size * 2

module _ {ℓ} {A : Type ℓ} where
  -- `buf[i] = v`, which panics out of range.
  abbrev pub store : List A → ℕ → A → Option (List A)
  store xs i v = if ltb i (length xs) then some (set xs i v) else none

  -- The zero value `Ring[T]{}`.
  unfoldable pub empty : Ring A
  empty = record { buf = []; head = 0; tail = 0; len = 0 }

  unfoldable pub inc_head : Ring A → Option (Ring A)
  inc_head r =
      if r.len == 0
      then none
      else some (record r { head = next (length r.buf) r.head; len = r.len - 1 })

  unfoldable pub dec_tail : Ring A → Option (Ring A)
  dec_tail r =
      if r.len == 0
      then none
      else some (record r { tail = prev (length r.buf) r.tail; len = r.len - 1 })

  unfoldable pub tail_sub1 : Ring A → ℕ
  tail_sub1 r = prev (length r.buf) r.tail

  unfoldable pub clear : Ring A → Ring A
  clear r = record r { head = 0; tail = 0; len = 0 }

  unfoldable pub get : Ring A → ℕ → Option A
  get r n = if leb r.len n then none else get_elem? r.buf (wrap (length r.buf) (r.head + n))

module _ {ℓ} {A : Type ℓ} (new : A) where
  unfoldable pub make_ring : ℕ → ℕ → Option (Ring A)
  make_ring length capacity =
      if ltb capacity length
      then none
      else some (record { buf = replicate capacity new; head = 0; tail = length; len = length })

  -- The two copies put the oldest value first; the rest of the new buffer is zero values.
  unfoldable pub grow : Ring A → Ring A
  grow r = record r {
    buf =
        drop r.head r.buf
        ++ (take r.head r.buf ++ replicate (grown (length r.buf) - length r.buf) new);
    head = 0;
    tail = r.len;
  }

  -- `if r.length == len(r.buf) { r.grow() }`.
  unfoldable pub make_room : Ring A → Ring A
  make_room r = if r.len == length r.buf then grow r else r

  unfoldable pub dec_head : Ring A → Ring A
  dec_head r =
      let s = make_room r in record s { head = prev (length s.buf) s.head; len = s.len + 1 }

  unfoldable pub inc_tail : Ring A → Ring A
  inc_tail r =
      let s = make_room r in record s { tail = next (length s.buf) s.tail; len = s.len + 1 }

  -- The inner option is the pair's `bool`.
  unfoldable pub pop_front : Ring A → Option (Option A × Ring A)
  pop_front r =
      if r.len == 0
      then some (none, r)
      else (get_elem? r.buf r.head >>= λ front. store r.buf r.head new >>= λ b.
          inc_head (record r { buf = b }) >>= λ s. some (some front, s))

  unfoldable pub pop_back : Ring A → Option (Option A × Ring A)
  pop_back r =
      if r.len == 0
      then some (none, r)
      else (dec_tail r >>= λ s. get_elem? s.buf s.tail >>= λ back.
          store s.buf s.tail new >>= λ b. some (some back, record s { buf = b }))

  unfoldable pub push_front : A → Ring A → Option (Ring A)
  push_front value r =
      let s = dec_head r in store s.buf s.head value >>= λ b. some (record s { buf = b })

  unfoldable pub push_back : A → Ring A → Option (Ring A)
  push_back value r =
      let s = inc_tail r in store s.buf (tail_sub1 s) value >>= λ b. some (record s { buf = b })
