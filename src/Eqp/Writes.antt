-- ===== src/Eqp/Writes.antt =====
-- What the loops of lib/fed/middlewares/eqp/sync.go write, as a list of commands.
use Prim.Native.String.{String}
use mathlib.Core.List.{append_assoc, append-nil, map-append}
use pggat.Base.{
  ◌≡◌, refl, ap, sym, ◌∙◌, Bool, true, false, Option, none, some, List, [], ◌∷◌, ◌++◌, ◌||◌, map,
  if◌then◌else◌, Bool-cases, inl, inr,
}
use pggat.Base.Maps.{Map}
use pggat.Fed.Conn.{Error, ok}
use pggat.Eqp.State.{
  Parse, Bind, Message, close_packet, parse_packet, bind_packet, State, c2s, close, push_close,
  parse, bind,
}
use pggat.Eqp.Sync.{
  Server, write_out, after_c2s, server_write, Loop, note_write, writing, then_run, visit, range,
  close_portal, keeps_statement, close_statement, on_server, parse_statement, bind_portal,
  sync_loops,
}

pub data Command : Type 0 where
  closes_portal closes_statement : String → Command
  parses : Parse → Command
  binds : Bind → Command

unfoldable pub message : Command → Message
message (closes_portal k) = close_packet (ok (b'P', k))
message (closes_statement k) = close_packet (ok (b'S', k))
message (parses p) = parse_packet (ok p)
message (binds p) = bind_packet (ok p)

-- The state of the server's middleware after it has passed the commands on.
unfoldable pub pend_all : List Command → State → State
pend_all [] t = t
pend_all (w ∷ ws) t = pend_all ws (c2s (message w) t).1

pub pend_all-append :
    (us vs : List Command) (t : State) → pend_all (us ++ vs) t ≡ pend_all vs (pend_all us t)
unfolding pend_all
pend_all-append [] vs t = refl
pend_all-append (u ∷ us) vs t = pend_all-append us vs (c2s (message u) t).1

abbrev pub nonempty : List Command → Bool
nonempty [] = false
nonempty (w ∷ ws) = true

nonempty-append : (us vs : List Command) → nonempty (us ++ vs) ≡ (nonempty us || nonempty vs)
nonempty-append [] vs = refl
nonempty-append (u ∷ us) vs = refl

pub record Wrote (ws : List Command) (a b : Bool × Server) : Type 0 where
  pub state : b.1.state ≡ pend_all ws a.1.state
  pub unanswered : b.1.unanswered ≡ a.1.unanswered ++ map message ws
  pub needs : b.0 ≡ (a.0 || nonempty ws)

-- A loop that returns no error has written the commands.
unfoldable pub Writes : List Command → Bool × Server → Option Error × (Bool × Server) → Type 0
Writes ws a (none, b) = Wrote ws a b
Writes ws a (some e, b) = Unit

or_assoc : (a b c : Bool) → ((a || b) || c) ≡ (a || (b || c))
or_assoc true b c = refl
or_assoc false b c = refl

or_false : (a : Bool) → (a || false) ≡ a
or_false true = refl
or_false false = refl

or_true : (a : Bool) → (a || true) ≡ true
or_true true = refl
or_true false = refl

Wrote-nothing : (a : Bool × Server) → Wrote [] a a
unfolding pend_all
Wrote-nothing a = record {
  state = refl;
  unanswered = sym (append-nil a.1.unanswered);
  needs = sym (or_false a.0);
}

Wrote-both :
    (us vs : List Command) (a b d : Bool × Server)
    → Wrote us a b
    → Wrote vs b d
    → Wrote (us ++ vs) a d
Wrote-both us vs a b d p q = record {
  state = q.state ∙ (ap (pend_all vs) p.state ∙ sym (pend_all-append us vs a.1.state));
  unanswered =
      q.unanswered
      ∙ (ap (λ l. l ++ map message vs) p.unanswered
          ∙ (append_assoc a.1.unanswered (map message us) (map message vs)
              ∙ ap (λ l. a.1.unanswered ++ l) (sym (map-append message us vs))));
  needs =
      q.needs
      ∙ (ap (λ n. n || nonempty vs) p.needs
          ∙ (or_assoc a.0 (nonempty us) (nonempty vs)
              ∙ ap (λ n. a.0 || n) (sym (nonempty-append us vs))));
}

then_run-Writes :
    (us vs : List Command) (a : Bool × Server) (r : Option Error × (Bool × Server)) (k : Loop)
    → Writes us a r
    → ((b : Bool × Server) → Writes vs b (k b))
    → Writes (us ++ vs) a (then_run r k)
unfolding Writes
then_run-Writes us vs a (some e, b) k p q = tt
then_run-Writes us vs a (none, b) k p q = both (k b) (q b)
  where
    both : (r : Option Error × (Bool × Server)) → Writes vs b r → Writes (us ++ vs) a r
    both (none, d) w = Wrote-both us vs a b d p w
    both (some e, d) w = tt

write_out-Writes :
    (w : Command) (needs : Bool) (s : Server) (t : State) (faults : List (Option Error))
    → t ≡ pend_all (w ∷ []) s.state
    → Writes
        (w ∷ [])
        (needs, s)
        (note_write needs (write_out faults (message w) (record s { state = t })))
unfolding Writes write_out note_write
write_out-Writes w needs s t [] h = record {
  state = h;
  unanswered = refl;
  needs = sym (or_true needs);
}
write_out-Writes w needs s t (none ∷ rest) h = record {
  state = h;
  unanswered = refl;
  needs = sym (or_true needs);
}
write_out-Writes w needs s t (some e ∷ rest) h = tt

writing-Writes : (w : Command) (a : Bool × Server) → Writes (w ∷ []) a (writing (message w) a)
unfolding writing server_write after_c2s message c2s close push_close parse bind pend_all
writing-Writes (closes_portal k) (needs, s) =
    write_out-Writes (closes_portal k) needs s _ s.faults refl
writing-Writes (closes_statement k) (needs, s) =
    write_out-Writes (closes_statement k) needs s _ s.faults refl
writing-Writes (parses p) (needs, s) = write_out-Writes (parses p) needs s _ s.faults refl
writing-Writes (binds p) (needs, s) = write_out-Writes (binds p) needs s _ s.faults refl

Writes-nothing : (a : Bool × Server) → Writes [] a (none, a)
unfolding Writes
Writes-nothing a = Wrote-nothing a

module _ {V : Type 0} where
  -- The commands of a range whose body writes `f name value`.
  unfoldable pub visited : Option V → (V → List Command) → List Command → List Command
  visited none f rest = rest
  visited (some v) f rest = f v ++ rest

  visit-Writes :
      (o : Option V) (f : V → List Command) (ws : List Command) (body : V → Loop) (rest : Loop)
      → ((v : V) (a : Bool × Server) → Writes (f v) a (body v a))
      → ((a : Bool × Server) → Writes ws a (rest a))
      → (a : Bool × Server) → Writes (visited o f ws) a (visit o body rest a)
  unfolding visited visit
  visit-Writes none f ws body rest p q a = q a
  visit-Writes (some v) f ws body rest p q a = then_run-Writes (f v) ws a (body v a) rest (p v a) q

module _ {V : Type 0} (m : Map String V) (f : String → V → List Command) where
  unfoldable pub each : List String → List Command
  each [] = []
  each (k ∷ ks) = visited (m.at k) (f k) (each ks)

  range-Writes :
      (body : String → V → Loop)
      → ((k : String) (v : V) (a : Bool × Server) → Writes (f k v) a (body k v a))
      → (ks : List String) (a : Bool × Server) → Writes (each ks) a (range ks m body a)
  unfolding each range
  range-Writes body h [] a = Writes-nothing a
  range-Writes body h (k ∷ ks) a =
      visit-Writes (m.at k) (f k) (each ks) (body k) (range ks m body) (h k)
        (range-Writes body h ks) a

abbrev pub portal_closes : String → Bind → List Command
portal_closes k _ = closes_portal k ∷ []

abbrev pub statement_closes : State → String → Parse → List Command
statement_closes c k p =
    if keeps_statement k (c.prepared_statements.at k) p then [] else closes_statement k ∷ []

abbrev pub statement_parses : State → String → Parse → List Command
statement_parses s k p = if on_server (s.prepared_statements.at k) p then [] else parses p ∷ []

abbrev pub portal_binds : String → Bind → List Command
portal_binds _ p = binds p ∷ []

close_statement-Writes :
    (c : State) (k : String) (p : Parse) (a : Bool × Server)
    → Writes (statement_closes c k p) a (close_statement c k p a)
unfolding close_statement message
close_statement-Writes c k p a =
    elim (Bool-cases (keeps_statement k (c.prepared_statements.at k) p)) [
      | inl e ↦ rw e (Writes-nothing a)
      | inr e ↦ rw e (writing-Writes (closes_statement k) a)
    ]

parse_statement-Writes :
    (s : State) (k : String) (p : Parse) (a : Bool × Server)
    → Writes (statement_parses s k p) a (parse_statement s k p a)
unfolding parse_statement message
parse_statement-Writes s k p a = elim (Bool-cases (on_server (s.prepared_statements.at k) p)) [
  | inl e ↦ rw e (Writes-nothing a)
  | inr e ↦ rw e (writing-Writes (parses p) a)
]

-- All that the four loops write.
abbrev pub sync_commands : State → State → List Command
sync_commands c s =
    each s.portals portal_closes s.portals.keys
    ++ (each s.prepared_statements (statement_closes c) s.prepared_statements.keys
        ++ (each c.prepared_statements (statement_parses s) c.prepared_statements.keys
            ++ each c.portals portal_binds c.portals.keys))

pub sync_loops-Writes :
    (c : State) (s : Server) → Writes (sync_commands c s.state) (false, s) (sync_loops c s)
unfolding sync_loops close_portal bind_portal message
sync_loops-Writes c s =
    then_run-Writes _ _ (false, s) _ _
      (range-Writes s.state.portals portal_closes close_portal
        (λ k v. writing-Writes (closes_portal k)) s.state.portals.keys (false, s))
      λ a.
        then_run-Writes _ _ a _ _
          (range-Writes s.state.prepared_statements (statement_closes c) (close_statement c)
            (close_statement-Writes c) s.state.prepared_statements.keys a)
          λ b.
            then_run-Writes _ _ b _ _
              (range-Writes c.prepared_statements (statement_parses s.state)
                (parse_statement s.state) (parse_statement-Writes s.state)
                c.prepared_statements.keys b)
              (range-Writes c.portals portal_binds bind_portal (λ k v. writing-Writes (binds v))
                c.portals.keys)
