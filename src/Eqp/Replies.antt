-- ===== src/Eqp/Replies.antt =====
-- A server that accepts every command of lib/fed/middlewares/eqp/sync.go, and what its answers make
-- of the tables that the middleware keeps.
use Prim.Native.String.{String}
use mathlib.Core.List.{append_assoc, append-nil}
use pggat.Base.{◌≡◌, refl, ap, sym, ◌∙◌, Option, none, some, List, [], ◌∷◌, ◌++◌, map}
use pggat.Base.Eq.{string_eq}
use pggat.Base.Maps.{Map, put, del}
use pggat.Fed.Conn.{Error, ok}
use pggat.Eqp.State.{
  Parse, Bind, Close, close_variant_portal, close_variant_prepared_statement, Message, close_packet,
  parse_packet, bind_packet, close_complete_packet, parse_complete_packet, bind_complete_packet,
  ready_for_query_packet, State, c2s, close, push_close, parse, bind, s2c, close_complete,
  close_front, close_target, parse_complete, parse_front, bind_complete, bind_front,
}
use pggat.Eqp.Sync.{Server}
use pggat.Eqp.Writes.{Command, closes_portal, closes_statement, parses, binds, message, pend_all}

unfoldable pub answer : Message → Message
answer (close_packet r) = close_complete_packet
answer (parse_packet r) = parse_complete_packet
answer (bind_packet r) = bind_complete_packet
answer m = m

unfoldable pub read_all : List Message → State → State
read_all [] t = t
read_all (m ∷ ms) t = read_all ms (s2c m t).1

-- `backends.Sync` with a server that completes whatever it was sent and is idle then.
unfoldable pub accepting_sync : Server → Option Error × Server
accepting_sync s = (
  none,
  record s {
    state = read_all (map answer s.unanswered ++ (ready_for_query_packet (ok b'I') ∷ [])) s.state;
    unanswered = [];
  },
)

abbrev keep : {A : Type 0} → Option A → List A → List A
keep none rest = rest
keep (some a) rest = a ∷ rest

keep-append : {A : Type 0} (o : Option A) (xs ys : List A) → keep o (xs ++ ys) ≡ keep o xs ++ ys
keep-append none xs ys = refl
keep-append (some a) xs ys = refl

abbrev pub collect : {A : Type 0} → (Command → Option A) → List Command → List A
collect f [] = []
collect f (w ∷ ws) = keep (f w) (collect f ws)

collect-append :
    {A : Type 0} (f : Command → Option A) (us vs : List Command)
    → collect f us ++ collect f vs ≡ collect f (us ++ vs)
collect-append f [] vs = refl
collect-append f (u ∷ us) vs =
    sym (keep-append (f u) (collect f us) (collect f vs)) ∙ ap (keep (f u)) (collect-append f us vs)

-- A command that `f` does not collect.
collect_skip :
    {A : Type 0} (f : Command → Option A) (us : List Command) (w : Command)
    → f w ≡ none
    → collect f us ≡ collect f (us ++ (w ∷ []))
collect_skip f us w h =
    sym (append-nil (collect f us))
    ∙ (ap (λ o. collect f us ++ keep o []) (sym h) ∙ collect-append f us (w ∷ []))

abbrev pub parse_of : Command → Option Parse
parse_of (parses p) = some p
parse_of (binds p) = none
parse_of (closes_portal k) = none
parse_of (closes_statement k) = none

abbrev pub bind_of : Command → Option Bind
bind_of (binds p) = some p
bind_of (parses p) = none
bind_of (closes_portal k) = none
bind_of (closes_statement k) = none

abbrev pub close_of : Command → Option Close
close_of (closes_portal k) = some (record { variant = close_variant_portal; target = k })
close_of (closes_statement k) =
    some (record { variant = close_variant_prepared_statement; target = k })
close_of (parses p) = none
close_of (binds p) = none

-- The tables `ps` and `qs` with the commands waiting for their answers.
abbrev pub waiting : List Command → Map String Parse → Map String Bind → State
waiting ws ps qs = record {
  prepared_statements = ps;
  portals = qs;
  pending_prepared_statements = collect parse_of ws;
  pending_portals = collect bind_of ws;
  pending_closes = collect close_of ws;
}

module _ (ps : Map String Parse) (qs : Map String Bind) where
  pub same_pending :
      (a a' : List Parse) (b b' : List Bind) (c c' : List Close)
      → a ≡ a'
      → b ≡ b'
      → c ≡ c'
      → ◌≡◌ {A = State}
          (record {
            prepared_statements = ps;
            portals = qs;
            pending_prepared_statements = a;
            pending_portals = b;
            pending_closes = c;
          })
          (record {
            prepared_statements = ps;
            portals = qs;
            pending_prepared_statements = a';
            pending_portals = b';
            pending_closes = c';
          })
  same_pending a a' b b' c c' p q r = λ i. record {
    prepared_statements = ps;
    portals = qs;
    pending_prepared_statements = p i;
    pending_portals = q i;
    pending_closes = r i;
  }

  pub pend_one :
      (us : List Command) (w : Command)
      → (c2s (message w) (waiting us ps qs)).1 ≡ waiting (us ++ (w ∷ [])) ps qs
  unfolding c2s message close push_close parse bind
  pend_one us (parses p) =
      let w = parses p in
      same_pending _ _ _ _ _ _ (collect-append parse_of us (w ∷ []))
        (collect_skip bind_of us w refl) (collect_skip close_of us w refl)
  pend_one us (binds p) =
      let w = binds p in
      same_pending _ _ _ _ _ _ (collect_skip parse_of us w refl)
        (collect-append bind_of us (w ∷ [])) (collect_skip close_of us w refl)
  pend_one us (closes_portal k) =
      let w = closes_portal k in
      same_pending _ _ _ _ _ _ (collect_skip parse_of us w refl) (collect_skip bind_of us w refl)
        (collect-append close_of us (w ∷ []))
  pend_one us (closes_statement k) =
      let w = closes_statement k in
      same_pending _ _ _ _ _ _ (collect_skip parse_of us w refl) (collect_skip bind_of us w refl)
        (collect-append close_of us (w ∷ []))

  pub pend_all-waiting :
      (us ws : List Command) → pend_all ws (waiting us ps qs) ≡ waiting (us ++ ws) ps qs
  unfolding pend_all
  pend_all-waiting us [] = ap (λ l. waiting l ps qs) (sym (append-nil us))
  pend_all-waiting us (w ∷ ws) =
      ap (pend_all ws) (pend_one us w)
      ∙ (pend_all-waiting (us ++ (w ∷ [])) ws
          ∙ ap (λ l. waiting l ps qs) (append_assoc us (w ∷ []) ws))

-- What an accepted command does to the table of statements, and to that of portals.
unfoldable pub accept : Command → Map String Parse → Map String Parse
accept (closes_statement k) ps = del k ps
accept (parses p) ps = put p.destination p ps
accept (closes_portal k) ps = ps
accept (binds p) ps = ps

unfoldable pub accept_portal : Command → Map String Bind → Map String Bind
accept_portal (closes_portal k) qs = del k qs
accept_portal (binds p) qs = put p.destination p qs
accept_portal (closes_statement k) qs = qs
accept_portal (parses p) qs = qs

unfoldable pub accept_all : List Command → Map String Parse → Map String Parse
accept_all [] ps = ps
accept_all (w ∷ ws) ps = accept_all ws (accept w ps)

unfoldable pub accept_portals : List Command → Map String Bind → Map String Bind
accept_portals [] qs = qs
accept_portals (w ∷ ws) qs = accept_portals ws (accept_portal w qs)

pub read_one :
    (w : Command) (ws : List Command) (ps : Map String Parse) (qs : Map String Bind)
    → (s2c (answer (message w)) (waiting (w ∷ ws) ps qs)).1
      ≡ waiting ws (accept w ps) (accept_portal w qs)
unfolding s2c answer message close_complete close_front close_target parse_complete parse_front
    bind_complete bind_front accept accept_portal
read_one (parses p) ws ps qs = refl
read_one (binds p) ws ps qs = refl
read_one (closes_portal k) ws ps qs = refl
read_one (closes_statement k) ws ps qs = refl

read_all-answers :
    (ws : List Command) (ms : List Message) (ps : Map String Parse) (qs : Map String Bind)
    → read_all (map answer (map message ws) ++ ms) (waiting ws ps qs)
      ≡ read_all ms (waiting [] (accept_all ws ps) (accept_portals ws qs))
unfolding read_all accept_all accept_portals
read_all-answers [] ms ps qs = refl
read_all-answers (w ∷ ws) ms ps qs =
    ap (read_all (map answer (map message ws) ++ ms)) (read_one w ws ps qs)
    ∙ read_all-answers ws ms (accept w ps) (accept_portal w qs)

-- Commands sent one after the other and then answered are the commands accepted one by one.
pub pend_all-answers :
    (ws : List Command) (ms : List Message) (ps : Map String Parse) (qs : Map String Bind)
    → read_all (map answer (map message ws) ++ ms) (pend_all ws (waiting [] ps qs))
      ≡ read_all ms (waiting [] (accept_all ws ps) (accept_portals ws qs))
pend_all-answers ws ms ps qs =
    ap (read_all (map answer (map message ws) ++ ms)) (pend_all-waiting ps qs [] ws)
    ∙ read_all-answers ws ms ps qs
