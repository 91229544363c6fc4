-- ===== src/Ring/Grow.antt =====
-- `grow` of lib/util/ring/ring.go, and the step `make_room` of `decHead` and `incTail`.
use pggat.Base.{
  ℕ, ◌+◌, ◌-◌, ◌≤◌, ◌<◌, ◌≡◌, refl, List, ◌++◌, length, get_or, take, drop, replicate, arith,
  length-append, length-drop, length-take, length-replicate, get_or-append_left,
  get_or-append_right, get_or-drop, get_or-take, tabulate_congr, ◌∙◌, ap, ltb, ◌==◌, Bool-cases,
  inl, inr, ltb→lt,
}
use pggat.Ring.{Ring, wrap, grow, grown, make_room}
use pggat.Ring.Contents.{IsValid, at, contents}

module _ {ℓ} {A : Type ℓ} (new : A) where
  pub length-grow : (r : Ring A) → IsValid r → length (grow new r).buf ≡ grown (length r.buf)
  unfolding grow
  length-grow r v =
      rw
        (
          length-append (drop r.head r.buf)
              (take r.head r.buf ++ replicate (grown (length r.buf) - length r.buf) new),
          length-append (take r.head r.buf) (replicate (grown (length r.buf) - length r.buf) new),
          length-drop r.head r.buf,
          length-take r.head r.buf (ground (arith, v.head_in)),
          length-replicate (grown (length r.buf) - length r.buf) new,
        )
        (ground (arith, v.head_in))

  -- A rotation of the buffer, padded on the right, holds the values of the ring in order.
  get_or-rotate :
      (buf pad : List A) (h i : ℕ)
      → h ≤ length buf - 1
      → i < length buf
      → get_or (drop h buf ++ (take h buf ++ pad)) i new
        ≡ get_or buf (wrap (length buf) (h + i)) new
  get_or-rotate buf pad h i hh hi = elim (Bool-cases (ltb i (length buf - h))) [
    | inl low ↦
        get_or-append_left (drop h buf) (take h buf ++ pad) i new
          (omega (arith, length-drop h buf, ltb→lt i (length buf - h) low))
        ∙ get_or-drop h buf i new
        ∙ ap (λ k. get_or buf k new) (ground arith)
    | inr high ↦
        ap (λ k. get_or (drop h buf ++ (take h buf ++ pad)) k new)
          (ground (arith, length-drop h buf))
        ∙ get_or-append_right (drop h buf) (take h buf ++ pad) (h + i - length buf) new
        ∙ get_or-append_left (take h buf) pad (h + i - length buf) new
            (ground (arith, length-take h buf))
        ∙ get_or-take h buf (h + i - length buf) new (ground arith)
        ∙ ap (λ k. get_or buf k new) (ground arith)
  ]

  pub contents-grow : (r : Ring A) → IsValid r → contents new (grow new r) ≡ contents new r
  unfolding contents grow
  contents-grow r v = tabulate_congr r.len (at new (grow new r)) (at new r) λ i p.
      ap (λ k. get_or (grow new r).buf k new) (ground (arith, length-grow r v))
      ∙ get_or-rotate r.buf (replicate (grown (length r.buf) - length r.buf) new) r.head i v.head_in
          (omega (arith, v.fits))

  pub grow-IsValid : (r : Ring A) → IsValid r → IsValid (grow new r)
  unfolding grow
  grow-IsValid r v = record {
    fits = ground (arith, v.fits, length-grow r v);
    head_in = omega arith;
    tail_at = ground (arith, length-grow r v);
  }

  len-grow : (r : Ring A) → (grow new r).len ≡ r.len
  unfolding grow
  len-grow r = refl

  -- After `make_room` there is a free slot, and the ring holds what it held.
  pub record HasRoom (r s : Ring A) : Type ℓ where
    pub valid : IsValid s
    pub room : s.len < length s.buf
    pub same_len : s.len ≡ r.len
    pub same : contents new s ≡ contents new r

  pub make_room_lem : (r : Ring A) → IsValid r → HasRoom r (make_room new r)
  unfolding make_room
  make_room_lem r v = elim (Bool-cases (r.len == length r.buf)) [
    | inl full ↦ rw full (record {
      valid = grow-IsValid r v;
      room = ground (arith, length-grow r v, len-grow r);
      same_len = len-grow r;
      same = contents-grow r v;
    })
    | inr free ↦
        rw free (record { valid = v; room = ground (arith, v.fits); same_len = refl; same = refl })
  ]
