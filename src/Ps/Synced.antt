-- ===== src/Ps/Synced.antt =====
-- The loops of `Sync` (lib/fed/middlewares/ps/sync.go) as a whole.
use Prim.Native.String.{String}
use pggat.Base.{
  ◌≡◌, ◌⊎◌, refl, ap, sym, ◌∙◌, true, true≢false, Option, none, some, List, [], ◌∷◌, ◌&&◌, not,
  if◌then◌else◌, Bool-cases, inl, inr,
}
use pggat.Base.Eq.{string_eq, ◌=?◌}
use pggat.Base.Maps.{has_key}
use pggat.Slices.{contains}
use pggat.Fed.Conn.{Error}
use pggat.Ps.Sides.{Parameters}
use pggat.Ps.Sync.{Sides, Errors, is_some, client_loop, server_loop}
use pggat.Ps.Others.{Has, AllLower, SetsParameter}
use pggat.Ps.Loops.{
  Good, unless_error-Good, Settled, Still, step-Settled, step-Still, reach_step, head_low, tail_low,
  apart,
}

module _ (to_lower : String → String)
    (set_parameter : String → String → Parameters → Option Error × Parameters)
    (tracking : List String) (sets : SetsParameter to_lower set_parameter) (n : String) where
  abbrev pub Agreed : Sides → Type 0
  Agreed = Settled to_lower set_parameter tracking sets n

  abbrev pub Same : Option String → Option String → Sides → Type 0
  Same = Still to_lower set_parameter tracking sets n

  abbrev pub clients : List String → Sides → Errors × Sides
  clients = client_loop to_lower set_parameter tracking true

  abbrev pub servers : List String → Sides → Errors × Sides
  servers = server_loop to_lower set_parameter tracking true

  pub clients-Agreed :
      (ks : List String)
      → AllLower to_lower ks
      → (t : Sides) → Agreed t
      → Good Agreed (clients ks t)
  unfolding client_loop
  clients-Agreed [] low t h = λ _. h
  clients-Agreed (k ∷ ks) low t h = elim (Bool-cases (is_some (t.client.parameters.at k))) [
    | inl b ↦ rw b (
        unless_error-Good Agreed Agreed _ (clients ks)
          (step-Settled to_lower set_parameter tracking sets n k
            (head_low to_lower set_parameter tracking sets n k ks low) t h)
          (clients-Agreed ks (tail_low to_lower set_parameter tracking sets n k ks low)))
    | inr b ↦
        rw b (clients-Agreed ks (tail_low to_lower set_parameter tracking sets n k ks low) t h)
  ]

  pub servers-Agreed :
      (ks : List String)
      → AllLower to_lower ks
      → (t : Sides) → Agreed t
      → Good Agreed (servers ks t)
  unfolding server_loop
  servers-Agreed [] low t h = λ _. h
  servers-Agreed (k ∷ ks) low t h =
      elim (Bool-cases (is_some (t.server.at k) && not (is_some (t.client.parameters.at k)))) [
        | inl b ↦ rw b (
            unless_error-Good Agreed Agreed _ (servers ks)
              (step-Settled to_lower set_parameter tracking sets n k
                (head_low to_lower set_parameter tracking sets n k ks low) t h)
              (servers-Agreed ks (tail_low to_lower set_parameter tracking sets n k ks low)))
        | inr b ↦
            rw b (servers-Agreed ks (tail_low to_lower set_parameter tracking sets n k ks low) t h)
      ]

  -- The first loop does not touch a name that the client has not.
  pub clients-Same :
      (s : Option String) (ks : List String)
      → AllLower to_lower ks
      → (t : Sides) → Same none s t
      → Good (Same none s) (clients ks t)
  unfolding client_loop Has
  clients-Same s [] low t h = λ _. h
  clients-Same s (k ∷ ks) low t (keys, h) = elim (Bool-cases (is_some (t.client.parameters.at k))) [
    | inl b ↦ rw b (
        unless_error-Good (Same none s) (Same none s) _ (clients ks)
          (λ _.
            step-Still to_lower set_parameter tracking sets n k
              (head_low to_lower set_parameter tracking sets n k ks low)
              (λ e.
                true≢false
                  (sym b ∙ (ap (λ j. is_some (t.client.parameters.at j)) e ∙ ap is_some h.0)))
              none s t (keys, h))
          (clients-Same s ks (tail_low to_lower set_parameter tracking sets n k ks low)))
    | inr b ↦
        rw b
          (clients-Same s ks (tail_low to_lower set_parameter tracking sets n k ks low) t (keys, h))
  ]

  pub clients-reach :
      (v : String) (s : Option String)
      → (contains tracking n ≡ true) ⊎ (is_some s ≡ true)
      → (ks : List String) → AllLower to_lower ks
      → has_key ks n ≡ true
      → (t : Sides) → Same (some v) s t
      → Good Agreed (clients ks t)
  unfolding client_loop has_key Has
  clients-reach v s cond [] low found t h = λ _. absurd (true≢false (sym found))
  clients-reach v s cond (k ∷ ks) low found t (keys, h) = elim (Bool-cases (k =? n)) [
    | inl e ↦
        let kn = (string_eq.beq_iff k n).0 e in
        rw (ap (λ j. is_some (t.client.parameters.at j)) kn ∙ ap is_some h.0) (
          unless_error-Good Agreed Agreed _ (clients ks)
            (reach_step to_lower set_parameter tracking sets n k
              (head_low to_lower set_parameter tracking sets n k ks low) kn (some v) s cond t
              (keys, h))
            (clients-Agreed ks (tail_low to_lower set_parameter tracking sets n k ks low)))
    | inr e ↦
        let low_rest = tail_low to_lower set_parameter tracking sets n k ks low in
        let found_rest = ap (λ b. if b then true else has_key ks n) (sym e) ∙ found in
        elim (Bool-cases (is_some (t.client.parameters.at k))) [
          | inl b ↦ rw b (
              unless_error-Good (Same (some v) s) Agreed _ (clients ks)
                (λ _.
                  step-Still to_lower set_parameter tracking sets n k
                    (head_low to_lower set_parameter tracking sets n k ks low)
                    (apart to_lower set_parameter tracking sets n k e) (some v) s t (keys, h))
                (clients-reach v s cond ks low_rest found_rest))
          | inr b ↦ rw b (clients-reach v s cond ks low_rest found_rest t (keys, h))
        ]
  ]

  pub servers-reach :
      (w : String) (ks : List String)
      → AllLower to_lower ks
      → has_key ks n ≡ true
      → (t : Sides) → Same none (some w) t
      → Good Agreed (servers ks t)
  unfolding server_loop has_key Has
  servers-reach w [] low found t h = λ _. absurd (true≢false (sym found))
  servers-reach w (k ∷ ks) low found t (keys, h) = elim (Bool-cases (k =? n)) [
    | inl e ↦
        let kn = (string_eq.beq_iff k n).0 e in
        rw
          (ap (λ j. is_some (t.server.at j) && not (is_some (t.client.parameters.at j))) kn
            ∙ (ap (λ o. is_some o && not (is_some (t.client.parameters.at n))) h.1
                ∙ ap (λ o. not (is_some o)) h.0))
          (unless_error-Good Agreed Agreed _ (servers ks)
            (reach_step to_lower set_parameter tracking sets n k
              (head_low to_lower set_parameter tracking sets n k ks low) kn none (some w) (inr refl)
              t (keys, h))
            (servers-Agreed ks (tail_low to_lower set_parameter tracking sets n k ks low)))
    | inr e ↦
        let low_rest = tail_low to_lower set_parameter tracking sets n k ks low in
        let found_rest = ap (λ b. if b then true else has_key ks n) (sym e) ∙ found in
        elim (Bool-cases (is_some (t.server.at k) && not (is_some (t.client.parameters.at k)))) [
          | inl b ↦ rw b (
              unless_error-Good (Same none (some w)) Agreed _ (servers ks)
                (λ _.
                  step-Still to_lower set_parameter tracking sets n k
                    (head_low to_lower set_parameter tracking sets n k ks low)
                    (apart to_lower set_parameter tracking sets n k e) none (some w) t (keys, h))
                (servers-reach w ks low_rest found_rest))
          | inr b ↦ rw b (servers-reach w ks low_rest found_rest t (keys, h))
        ]
  ]
