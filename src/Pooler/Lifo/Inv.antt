-- ===== src/Pooler/Lifo/Inv.antt =====
-- What holds between the critical sections of lib/gat/handlers/pool/poolers/lifo/pooler.go.
use pggat.Base.{
  ℕ, ◌+◌, ◌≤◌, ◌<◌, ◌≡◌, ◌≢◌, ◌⊎◌, ◌∙◌, inl, inr, true, false, none, some, List, [], ◌==◌, ==_iff,
  Bool-cases, arith,
}
use mathlib.Core.Path.{subst}
use pggat.Base.Count.{count}
use pggat.Pooler.Chan.{Chan, made}
use pggat.Pooler.Lifo.{Pooler}
use pggat.Pooler.Lifo.System.{World}

-- The stages of the channel at address `c`, by how often it stands among the waiters, the pending
-- goroutines and the spare channels, and by its state.
pub data Lives (c fresh waiting pending spare : ℕ) (ch : Chan) : Type 0 where
  not_made :
      fresh ≤ c → waiting ≡ 0 → pending ≡ 0 → spare ≡ 0 → Lives c fresh waiting pending spare ch
  kept :
      0 < c
      → c < fresh
      → waiting ≡ 0
      → pending ≡ 0
      → spare ≡ 1
      → ch ≡ made
      → Lives c fresh waiting pending spare ch
  waited_on :
      0 < c
      → c < fresh
      → waiting ≡ 1
      → pending ≡ 1
      → spare ≡ 0
      → ch ≡ made
      → Lives c fresh waiting pending spare ch
  served :
      (server : ℕ)
      → 0 < c
      → c < fresh
      → waiting ≡ 0
      → pending ≡ 1
      → spare ≡ 0
      → ch ≡ record { buffer = some server; closed = false }
      → Lives c fresh waiting pending spare ch
  ended :
      0 < c
      → c < fresh
      → waiting ≡ 0
      → pending ≡ 1
      → spare ≡ 0
      → ch ≡ record { buffer = none; closed = true }
      → Lives c fresh waiting pending spare ch
  done : c < fresh → waiting ≡ 0 → pending ≡ 0 → spare ≡ 0 → Lives c fresh waiting pending spare ch

pub Lives-eq :
    {c f w b p w' b' p' : ℕ} {ch ch' : Chan}
    → Lives c f w b p ch
    → w' ≡ w
    → b' ≡ b
    → p' ≡ p
    → ch' ≡ ch
    → Lives c f w' b' p' ch'
Lives-eq (not_made h w b p) ew eb ep e = not_made h (ew ∙ w) (eb ∙ b) (ep ∙ p)
Lives-eq (kept z h w b p s) ew eb ep e = kept z h (ew ∙ w) (eb ∙ b) (ep ∙ p) (e ∙ s)
Lives-eq (waited_on z h w b p s) ew eb ep e = waited_on z h (ew ∙ w) (eb ∙ b) (ep ∙ p) (e ∙ s)
Lives-eq (served v z h w b p s) ew eb ep e = served v z h (ew ∙ w) (eb ∙ b) (ep ∙ p) (e ∙ s)
Lives-eq (ended z h w b p s) ew eb ep e = ended z h (ew ∙ w) (eb ∙ b) (ep ∙ p) (e ∙ s)
Lives-eq (done h w b p) ew eb ep e = done h (ew ∙ w) (eb ∙ b) (ep ∙ p)

pub Lives-made : {c f w b p : ℕ} {ch : Chan} → f ≢ c → Lives c f w b p ch → Lives c (f + 1) w b p ch
Lives-made ne (not_made h w b p) = not_made (omega arith) w b p
Lives-made ne (kept z h w b p s) = kept z (omega arith) w b p s
Lives-made ne (waited_on z h w b p s) = waited_on z (omega arith) w b p s
Lives-made ne (served v z h w b p s) = served v z (omega arith) w b p s
Lives-made ne (ended z h w b p s) = ended z (omega arith) w b p s
Lives-made ne (done h w b p) = done (omega arith) w b p

-- What a channel that stands somewhere has gone through.
pub record Waiting (c f w b p : ℕ) (ch : Chan) : Type 0 where
  pub real : 0 < c
  pub old : c < f
  pub once : w ≡ 1
  pub held : b ≡ 1
  pub not_spare : p ≡ 0
  pub made_chan : ch ≡ made

pub Lives-Waiting : {c f w b p : ℕ} {ch : Chan} → Lives c f w b p ch → 0 < w → Waiting c f w b p ch
Lives-Waiting (not_made h w b p) pos = absurd (omega arith)
Lives-Waiting (kept z h w b p s) pos = absurd (omega arith)
Lives-Waiting (waited_on z h w b p s) pos = record {
  real = z;
  old = h;
  once = w;
  held = b;
  not_spare = p;
  made_chan = s;
}
Lives-Waiting (served v z h w b p s) pos = absurd (omega arith)
Lives-Waiting (ended z h w b p s) pos = absurd (omega arith)
Lives-Waiting (done h w b p) pos = absurd (omega arith)

pub record Spare (c f w b p : ℕ) (ch : Chan) : Type 0 where
  pub real : 0 < c
  pub old : c < f
  pub not_waiting : w ≡ 0
  pub not_held : b ≡ 0
  pub once : p ≡ 1
  pub made_chan : ch ≡ made

pub Lives-Spare : {c f w b p : ℕ} {ch : Chan} → Lives c f w b p ch → 0 < p → Spare c f w b p ch
Lives-Spare (not_made h w b p) pos = absurd (omega arith)
Lives-Spare (kept z h w b p s) pos = record {
  real = z;
  old = h;
  not_waiting = w;
  not_held = b;
  once = p;
  made_chan = s;
}
Lives-Spare (waited_on z h w b p s) pos = absurd (omega arith)
Lives-Spare (served v z h w b p s) pos = absurd (omega arith)
Lives-Spare (ended z h w b p s) pos = absurd (omega arith)
Lives-Spare (done h w b p) pos = absurd (omega arith)

-- A channel at an address that is not given out yet stands nowhere.
pub Lives-none :
    {c f w b p : ℕ} {ch : Chan} → Lives c f w b p ch → f ≤ c → (w ≡ 0) × (b ≡ 0) × (p ≡ 0)
Lives-none (not_made h w b p) le = (w, b, p)
Lives-none (kept z h w b p s) le = absurd (omega arith)
Lives-none (waited_on z h w b p s) le = absurd (omega arith)
Lives-none (served v z h w b p s) le = absurd (omega arith)
Lives-none (ended z h w b p s) le = absurd (omega arith)
Lives-none (done h w b p) le = absurd (omega arith)

abbrev pub ChanInv : Pooler → List ℕ → ℕ → Type 0
ChanInv p pending c =
    Lives c p.fresh (count c p.waiters) (count c pending) (count c p.pool) (p.chan c)

-- Nobody waits while a server is idle.
abbrev pub IsFair : Pooler → Type 0
IsFair p = (p.waiters ≡ []) ⊎ (p.queue ≡ [])

pub record Inv (w : World) : Type 0 where
  pub live : 0 < w.pooler.fresh
  pub chans : (c : ℕ) → ChanInv w.pooler w.pending c
  pub fair : IsFair w.pooler

-- A statement about every address, from the one that an operation touches and the others.
pub split_at : (c : ℕ) (P : ℕ → Type 0) → P c → ((d : ℕ) → (c == d) ≡ false → P d) → (d : ℕ) → P d
split_at c P here others d = elim (Bool-cases (c == d)) [
  | inl e ↦ subst P ((==_iff c d).0 e) here
  | inr e ↦ others d e
]
