-- ===== src/Ring/Ops.antt =====
-- The operations of lib/util/ring/ring.go on a valid ring: none panics, each keeps the ring valid,
-- and each does to the contents what its name says.
use pggat.Base.{
  ℕ, suc, ◌+◌, ◌-◌, ◌<◌, ◌≡◌, ◌≢◌, refl, sym, ap, ap₂, ◌∙◌, Option, none, some, List, [], ◌∷◌, ◌++◌,
  length, get_elem?, get_or, set, length-set, get_or-set_self, get_or-set_ne, get_elem?-eq-get_or,
  tabulate, tabulate_congr, tabulate-suc, get_elem?-tabulate, get_elem?-tabulate_ge, ◌⊎◌, ==_iff,
  arith, leb, ◌==◌, Bool-cases, inl, inr,
}
use native.Mathlib.Numerals.{add-one}
use pggat.Ring.{
  Ring, next, prev, store, make_room, dec_head, inc_tail, inc_head, dec_tail, tail_sub1, push_back,
  push_front, pop_front, pop_back, get,
}
use pggat.Ring.Contents.{IsValid, slot, at, contents}
use pggat.Ring.Grow.{make_room_lem}

module _ {ℓ} {A : Type ℓ} (new : A) where
  -- `s` is a valid ring of the values `xs`.
  pub record Holds (s : Ring A) (xs : List A) : Type ℓ where
    pub valid : IsValid s
    pub values : contents new s ≡ xs

  -- Writing `x` just past the newest value appends it.
  append_at_tail :
      (s : Ring A) (x : A)
      → IsValid s
      → s.len < length s.buf
      → Holds
          (record s {
            buf = set s.buf s.tail x;
            tail = next (length s.buf) s.tail;
            len = s.len + 1;
          })
          (contents new s ++ (x ∷ []))
  unfolding contents
  append_at_tail s x v room = record {
    valid = record {
      fits = ground (arith, length-set s.buf s.tail x);
      head_in = ground (arith, length-set s.buf s.tail x);
      tail_at = ground (arith, v.tail_at, v.head_in, length-set s.buf s.tail x);
    };
    values = rw add-one (
        tabulate-suc s.len (at new t)
        ∙ ap₂ (λ ys y. ys ++ (y ∷ []))
            (tabulate_congr s.len (at new t) (at new s) λ i p.
              ap (λ k. get_or (set s.buf s.tail x) k new)
                (ground (arith, length-set s.buf s.tail x))
              ∙ get_or-set_ne s.buf s.tail (slot new s i) x new
                  (ground (arith, v.tail_at, v.head_in)))
            (ap (λ k. get_or (set s.buf s.tail x) k new) {x = slot new t s.len}
                (ground (arith, v.tail_at, length-set s.buf s.tail x))
              ∙ get_or-set_self s.buf s.tail x new (ground (arith, v.tail_at, v.head_in))));
  }
    where
      t : Ring A
      t = record s { buf = set s.buf s.tail x; tail = next (length s.buf) s.tail; len = suc s.len }

  -- Writing `x` just before the oldest value puts it in front.
  prepend_at_head :
      (s : Ring A) (x : A)
      → IsValid s
      → s.len < length s.buf
      → Holds
          (record s {
            buf = set s.buf (prev (length s.buf) s.head) x;
            head = prev (length s.buf) s.head;
            len = s.len + 1;
          })
          (x ∷ contents new s)
  unfolding contents
  prepend_at_head s x v room = record {
    valid = record {
      fits = ground (arith, length-set s.buf h x);
      head_in = ground (arith, v.head_in, length-set s.buf h x);
      tail_at = ground (arith, v.tail_at, v.head_in, length-set s.buf h x);
    };
    values = rw add-one (
        ap₂ ◌∷◌
          (ap (λ k. get_or (set s.buf h x) k new) {x = slot new t 0}
              (ground (arith, v.head_in, length-set s.buf h x))
            ∙ get_or-set_self s.buf h x new (ground (arith, v.head_in)))
          (tabulate_congr s.len (λ i. at new t (suc i)) (at new s)
            λ i p.
              ap (λ k. get_or (set s.buf h x) k new)
                (ground (arith, v.head_in, length-set s.buf h x))
              ∙ get_or-set_ne s.buf h (slot new s i) x new (ground (arith, v.head_in))));
  }
    where
      h : ℕ
      h = prev (length s.buf) s.head

      t : Ring A
      t = record s { buf = set s.buf h x; head = h; len = suc s.len }

  -- Clearing the slot of the oldest value leaves the others.
  drop_head :
      (s : Ring A)
      → IsValid s
      → s.len ≢ 0
      → let t : Ring A = record s {
        buf = set s.buf s.head new;
        head = next (length s.buf) s.head;
        len = s.len - 1;
      } in
        IsValid t × (contents new s ≡ get_or s.buf s.head new ∷ contents new t)
  unfolding contents
  drop_head s v some_left = (
    record {
      fits = ground (arith, v.fits, length-set s.buf s.head new);
      head_in = ground (arith, v.fits, v.head_in, length-set s.buf s.head new);
      tail_at = ground (arith, v.fits, v.tail_at, v.head_in, length-set s.buf s.head new);
    },
    ap (λ n. tabulate n (at new s)) (let e : s.len ≡ suc (s.len - 1) = omega arith in e)
        ∙ ap₂ ◌∷◌ (ap (λ k. get_or s.buf k new) (ground (arith, v.fits, v.head_in))) (
            tabulate_congr (s.len - 1) (λ i. at new s (suc i)) (at new t)
              λ i p.
                sym (
                  get_or-set_ne s.buf s.head (slot new s (suc i)) new new
                    (ground (arith, v.fits, v.head_in)))
                ∙ ap (λ k. get_or (set s.buf s.head new) k new)
                    (ground (arith, v.fits, v.head_in, length-set s.buf s.head new))),
  )
    where
      t : Ring A
      t = record s {
        buf = set s.buf s.head new;
        head = next (length s.buf) s.head;
        len = s.len - 1;
      }

  -- Clearing the slot of the newest value leaves the others.
  drop_tail :
      (s : Ring A)
      → IsValid s
      → s.len ≢ 0
      → let k : ℕ = prev (length s.buf) s.tail in
        let t : Ring A = record s { buf = set s.buf k new; tail = k; len = s.len - 1 } in
        IsValid t × (contents new s ≡ contents new t ++ (get_or s.buf k new ∷ []))
  unfolding contents
  drop_tail s v some_left = (
    record {
      fits = ground (arith, v.fits, length-set s.buf k new);
      head_in = ground (arith, v.head_in, length-set s.buf k new);
      tail_at = ground (arith, v.fits, v.tail_at, v.head_in, length-set s.buf k new);
    },
    ap (λ n. tabulate n (at new s)) (let e : s.len ≡ suc (s.len - 1) = omega arith in e)
        ∙ tabulate-suc (s.len - 1) (at new s)
        ∙ ap₂ (λ ys y. ys ++ (y ∷ []))
            (tabulate_congr (s.len - 1) (at new s) (at new t) λ i p.
              sym (
                get_or-set_ne s.buf k (slot new s i) new new
                  (ground (arith, v.fits, v.tail_at, v.head_in)))
              ∙ ap (λ j. get_or (set s.buf k new) j new) (ground (arith, length-set s.buf k new)))
            (ap (λ j. get_or s.buf j new) (ground (arith, v.fits, v.tail_at, v.head_in))),
  )
    where
      k : ℕ
      k = prev (length s.buf) s.tail

      t : Ring A
      t = record s { buf = set s.buf k new; tail = k; len = s.len - 1 }

  -- After `incTail` the slot that `tailSub1` names is the tail before it.
  inc_tail_lem :
      (s : Ring A)
      → IsValid s
      → s.len < length s.buf
      → (prev (length s.buf) (next (length s.buf) s.tail) ≡ s.tail) × (s.tail < length s.buf)
  inc_tail_lem s v room =
      (ground (arith, v.tail_at, v.head_in), ground (arith, v.tail_at, v.head_in))

  store_lem : (xs : List A) (i : ℕ) (x : A) → i < length xs → store xs i x ≡ some (set xs i x)
  store_lem xs i x h = ground arith

  -- Pushing at the back of a valid ring does not panic, keeps it valid, and appends the value.
  pub push_back-Holds :
      (r : Ring A) (x : A)
      → IsValid r
      → (s : Ring A) × (push_back new x r ≡ some s) × Holds s (contents new r ++ (x ∷ []))
  unfolding push_back inc_tail tail_sub1
  push_back-Holds r x v =
      let m = make_room_lem new r v in
      let s : Ring A = make_room new r in
      let (back, inside) = inc_tail_lem s m.valid m.room in
      (
        record s { buf = set s.buf s.tail x; tail = next (length s.buf) s.tail; len = s.len + 1 },
        rw (back, store_lem s.buf s.tail x inside) refl,
        rw (← m.same) (append_at_tail s x m.valid m.room),
      )

  -- Pushing at the front of a valid ring does not panic, keeps it valid, and prepends the value.
  pub push_front-Holds :
      (r : Ring A) (x : A)
      → IsValid r
      → (s : Ring A) × (push_front new x r ≡ some s) × Holds s (x ∷ contents new r)
  unfolding push_front dec_head
  push_front-Holds r x v =
      let m = make_room_lem new r v in
      let s : Ring A = make_room new r in
      (
        record s {
          buf = set s.buf (prev (length s.buf) s.head) x;
          head = prev (length s.buf) s.head;
          len = s.len + 1;
        },
        rw
            (store_lem s.buf (prev (length s.buf) s.head) x
              (ground (arith, m.valid.head_in, m.room)))
            refl,
        rw (← m.same) (prepend_at_head s x m.valid m.room),
      )

  -- What a pop returns: nothing and the same ring, or a value and a valid ring of the others, where
  -- `split y ys` are the values before.
  abbrev pub Pops : (A → List A → List A) → Ring A → Option (Option A × Ring A) → Type ℓ
  Pops split r result =
      ((contents new r ≡ []) × (result ≡ some (none, r)))
      ⊎ ((y : A) × (s : Ring A) × (result ≡ some (some y, s))
          × (contents new r ≡ split y (contents new s))
          × IsValid s)

  contents_of_len_zero : (r : Ring A) → r.len ≡ 0 → contents new r ≡ []
  unfolding contents
  contents_of_len_zero r e = ap (λ n. tabulate n (at new r)) e

  -- Popping at the front of a valid ring does not panic, and splits off the first value.
  pub pop_front-Pops : (r : Ring A) → IsValid r → Pops (λ y ys. y ∷ ys) r (pop_front new r)
  unfolding pop_front inc_head
  pop_front-Pops r v = elim (Bool-cases (r.len == 0)) [
    | inl e ↦ rw e (inl (contents_of_len_zero r ((==_iff r.len 0).0 e), refl))
    | inr e ↦
        let d = drop_head r v (ground arith) in
        rw e (
          inr (
            get_or r.buf r.head new,
            record r {
              buf = set r.buf r.head new;
              head = next (length r.buf) r.head;
              len = r.len - 1;
            },
            rw
                (
                  get_elem?-eq-get_or r.buf r.head new (ground (arith, v.fits, v.head_in)),
                  store_lem r.buf r.head new (ground (arith, v.fits, v.head_in)),
                  length-set r.buf r.head new,
                )
                refl,
            d.1,
            d.0,
          ))
  ]

  -- Popping at the back of a valid ring does not panic, and splits off the last value.
  pub pop_back-Pops : (r : Ring A) → IsValid r → Pops (λ y ys. ys ++ (y ∷ [])) r (pop_back new r)
  unfolding pop_back dec_tail
  pop_back-Pops r v = elim (Bool-cases (r.len == 0)) [
    | inl e ↦ rw e (inl (contents_of_len_zero r ((==_iff r.len 0).0 e), refl))
    | inr e ↦
        let d = drop_tail r v (ground arith) in
        let k : ℕ = prev (length r.buf) r.tail in
        rw e (
          inr (
            get_or r.buf k new,
            record r { buf = set r.buf k new; tail = k; len = r.len - 1 },
            rw
                (
                  get_elem?-eq-get_or r.buf k new (ground (arith, v.fits, v.tail_at, v.head_in)),
                  store_lem r.buf k new (ground (arith, v.fits, v.tail_at, v.head_in)),
                )
                refl,
            d.1,
            d.0,
          ))
  ]

  -- `Get n` is the n-th value of the contents, and panics past the end.
  pub get-contents : (r : Ring A) (n : ℕ) → IsValid r → get r n ≡ get_elem? (contents new r) n
  unfolding get contents
  get-contents r n v = elim (Bool-cases (leb r.len n)) [
    | inl out ↦ rw out (sym (get_elem?-tabulate_ge r.len (at new r) n (ground arith)))
    | inr inside ↦ rw inside (
        get_elem?-eq-get_or r.buf (slot new r n) new (ground (arith, v.fits, v.head_in))
        ∙ sym (get_elem?-tabulate r.len (at new r) n (ground arith)))
  ]
