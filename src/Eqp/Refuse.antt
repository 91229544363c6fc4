-- ===== src/Eqp/Refuse.antt =====
-- A server that refuses to prepare a statement under a name that is in use, as what
-- lib/fed/middlewares/eqp/sync.go calls to synchronise.
use Prim.Native.String.{String}
use pggat.Base.{
  ◌≡◌, refl, Bool, true, false, Option, none, some, List, [], ◌∷◌, ◌++◌, ◌&&◌, not, map,
  if◌then◌else◌, Bool-cases, inl, inr,
}
use pggat.Base.Eq.{nat_eq, string_eq, ◌=?◌}
use pggat.Base.Maps.{Map, has_key}
use pggat.Fed.Conn.{Error, ok, io}
use pggat.Eqp.State.{Parse, Bind, Message, parse_packet, ready_for_query_packet, State, s2c}
use pggat.Eqp.Sync.{Server, keeps_statement}
use pggat.Eqp.Writes.{
  Command, message, each, visited, portal_closes, statement_closes, portal_binds,
}
use pggat.Eqp.Replies.{answer, waiting, read_one, accept, accept_portal, accept_all}

abbrev pub is_some : {A : Type 0} → Option A → Bool
is_some none = false
is_some (some a) = true

-- A Parse of a name other than "" that the server has is an error. A Bind is not checked.
unfoldable pub refuses : Message → Map String Parse → Bool
refuses (parse_packet (ok p)) ps = not (p.destination =? "") && is_some (ps.at p.destination)
refuses m ps = false

-- Each packet is completed or refused in its turn, by what the server has at that time.
unfoldable pub strict_read : List Message → State → Option State
strict_read [] t = some t
strict_read (m ∷ ms) t =
    let rest = strict_read ms (s2c (answer m) t).1 in
    if refuses m t.prepared_statements then none else rest

unfoldable pub strict_end : Server → Option State → Option Error × Server
strict_end s none = (some (io 0), s)
strict_end s (some t) =
    (none, record s { state = (s2c (ready_for_query_packet (ok b'I')) t).1; unanswered = [] })

-- `backends.Sync` with such a server, which is idle then.
unfoldable pub strict_sync : Server → Option Error × Server
unfolding strict_end
strict_sync s = strict_end s (strict_read s.unanswered s.state)

-- None of the commands is refused.
unfoldable pub Allowed : List Command → Map String Parse → Type 0
Allowed [] ps = Unit
Allowed (w ∷ ws) ps = (refuses (message w) ps ≡ false) × Allowed ws (accept w ps)

pub Allowed-append :
    (us vs : List Command) (ps : Map String Parse)
    → Allowed us ps
    → Allowed vs (accept_all us ps)
    → Allowed (us ++ vs) ps
unfolding Allowed accept_all
Allowed-append [] vs ps a b = b
Allowed-append (u ∷ us) vs ps a b = (a.0, Allowed-append us vs (accept u ps) a.1 b)

pub strict_read-Allowed :
    (ws : List Command) (ps : Map String Parse) (qs : Map String Bind)
    → Allowed ws ps
    → (t : State) × (strict_read (map message ws) (waiting ws ps qs) ≡ some t)
unfolding Allowed strict_read
strict_read-Allowed [] ps qs a = (waiting [] ps qs, refl)
strict_read-Allowed (w ∷ ws) ps qs a =
    let rest = strict_read-Allowed ws (accept w ps) (accept_portal w qs) a.1 in
    (rest.0, rw (a.0, read_one w ws ps qs) rest.1)

-- A range over a map whose body is never refused.
module _ {V : Type 0} (m : Map String V) (f : String → V → List Command)
    (h : (k : String) (v : V) (ps : Map String Parse) → Allowed (f k v) ps) where
  visited-Allowed :
      (k : String) (o : Option V) (ws : List Command)
      → ((ps : Map String Parse) → Allowed ws ps)
      → (ps : Map String Parse) → Allowed (visited o (f k) ws) ps
  unfolding visited
  visited-Allowed k none ws rest ps = rest ps
  visited-Allowed k (some v) ws rest ps = Allowed-append (f k v) ws ps (h k v ps) (rest _)

  pub each-Allowed : (ks : List String) (ps : Map String Parse) → Allowed (each m f ks) ps
  unfolding each Allowed
  each-Allowed [] ps = tt
  each-Allowed (k ∷ ks) ps = visited-Allowed k (m.at k) (each m f ks) (each-Allowed ks) ps

pub closes-Allowed :
    (c : State) (k : String) (v : Parse) (ps : Map String Parse)
    → Allowed (statement_closes c k v) ps
unfolding Allowed refuses message
closes-Allowed c k v ps = elim (Bool-cases (keeps_statement k (c.prepared_statements.at k) v)) [
  | inl e ↦ rw e tt
  | inr e ↦ rw e (refl, tt)
]

pub closes_portal-Allowed :
    (k : String) (v : Bind) (ps : Map String Parse) → Allowed (portal_closes k v) ps
unfolding Allowed refuses message
closes_portal-Allowed k v ps = (refl, tt)

pub binds-Allowed : (k : String) (v : Bind) (ps : Map String Parse) → Allowed (portal_binds k v) ps
unfolding Allowed refuses message
binds-Allowed k v ps = (refl, tt)

-- Each key is visited once, as a range over a Go map does.
unfoldable pub IsDistinct : List String → Type 0
IsDistinct [] = Unit
IsDistinct (k ∷ ks) = (has_key ks k ≡ false) × IsDistinct ks
