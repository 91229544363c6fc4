-- ===== src/Eqp/Valid.antt =====
-- Every packet keeps the tables of a state in order.
use Prim.Native.String.{String}
use pggat.Base.{ℕ, ◌≡◌, refl, List, [], ◌∷◌, ◌==◌, Bool-cases, inl, inr}
use pggat.Base.Eq.{string_eq, ◌=?◌}
use pggat.Base.Maps.{
  Map, put, del, delete_keys, IsComplete, put-IsComplete, del-IsComplete, AllNamed, put-AllNamed,
  del-AllNamed, delete_keys-keeps,
}
use pggat.Fed.Conn.{Result, ok, err}
use pggat.Eqp.State.{
  Parse, Bind, Close, close_variant_prepared_statement, close_variant_portal, Message, State,
  push_close, close, close_target, close_front, parse_front, bind_front, CloseVariant,
  close_complete, parse, parse_complete, bind, bind_complete, query, clear_pending, clear_maps,
  command_complete, clobber_portals, ready_for_query, c2s, s2c, new_state, close_packet,
  parse_packet, bind_packet, query_packet, close_complete_packet, parse_complete_packet,
  bind_complete_packet, command_complete_packet, ready_for_query_packet, other_packet,
}

abbrev pub NamesStatement : String → Parse → Type 0
NamesStatement k p = p.destination ≡ k

abbrev pub NamesPortal : String → Bind → Type 0
NamesPortal k p = p.destination ≡ k

-- A range visits every entry, and an entry stands under the name that its packet gives.
pub record Tables (prepared : Map String Parse) (bound : Map String Bind) : Type 0 where
  pub statements : IsComplete prepared
  pub portals : IsComplete bound
  pub statement_names : AllNamed NamesStatement prepared
  pub portal_names : AllNamed NamesPortal bound

abbrev pub IsValid : State → Type 0
IsValid t = Tables t.prepared_statements t.portals

pub new_state-IsValid : IsValid new_state
unfolding IsComplete AllNamed
new_state-IsValid = record {
  statements = λ k h. absurd (h refl);
  portals = λ k h. absurd (h refl);
  statement_names = λ k v h. cc;
  portal_names = λ k v h. cc;
}

module _ (ps : Map String Parse) (qs : Map String Bind) where
  del_statement-Tables : (k : String) → Tables ps qs → Tables (del k ps) qs
  del_statement-Tables k v = record {
    statements = del-IsComplete k ps v.statements;
    portals = v.portals;
    statement_names = del-AllNamed NamesStatement k ps v.statement_names;
    portal_names = v.portal_names;
  }

  del_portal-Tables : (k : String) → Tables ps qs → Tables ps (del k qs)
  del_portal-Tables k v = record {
    statements = v.statements;
    portals = del-IsComplete k qs v.portals;
    statement_names = v.statement_names;
    portal_names = del-AllNamed NamesPortal k qs v.portal_names;
  }

  put_statement-Tables : (p : Parse) → Tables ps qs → Tables (put p.destination p ps) qs
  put_statement-Tables p v = record {
    statements = put-IsComplete p.destination p ps v.statements;
    portals = v.portals;
    statement_names = put-AllNamed NamesStatement p.destination p ps refl v.statement_names;
    portal_names = v.portal_names;
  }

  put_portal-Tables : (p : Bind) → Tables ps qs → Tables ps (put p.destination p qs)
  put_portal-Tables p v = record {
    statements = v.statements;
    portals = put-IsComplete p.destination p qs v.portals;
    statement_names = v.statement_names;
    portal_names = put-AllNamed NamesPortal p.destination p qs refl v.portal_names;
  }

clear_statements-Tables :
    (ps : Map String Parse) (qs : Map String Bind)
    → Tables ps qs
    → Tables (delete_keys ps.keys ps) qs
clear_statements-Tables ps qs =
    delete_keys-keeps (λ m. Tables m qs) (λ k m. del_statement-Tables m qs k) ps.keys ps

clear_portals-Tables :
    (ps : Map String Parse) (qs : Map String Bind)
    → Tables ps qs
    → Tables ps (delete_keys qs.keys qs)
clear_portals-Tables ps qs =
    delete_keys-keeps (Tables ps) (λ k m. del_portal-Tables ps m k) qs.keys qs

close-IsValid : (p : Result (ℕ × String)) (t : State) → IsValid t → IsValid (close p t).1
unfolding close push_close
close-IsValid (err e) t v = v
close-IsValid (ok (which, name)) t v = elim (Bool-cases (which == b'S')) [
  | inl s ↦ rw s v
  | inr s ↦ rw s (elim (Bool-cases (which == b'P')) [ inl p ↦ rw p v | inr p ↦ rw p v ])
]

close_target-IsValid :
    (c : CloseVariant) (k : String) (t : State) → IsValid t → IsValid (close_target c k t)
unfolding close_target
close_target-IsValid close_variant_portal k t = del_portal-Tables t.prepared_statements t.portals k
close_target-IsValid close_variant_prepared_statement k t =
    del_statement-Tables t.prepared_statements t.portals k

close_front-IsValid : (cs : List Close) (t : State) → IsValid t → IsValid (close_front cs t)
unfolding close_front
close_front-IsValid [] t v = v
close_front-IsValid (c ∷ rest) t v =
    close_target-IsValid c.variant c.target (record t { pending_closes = rest }) v

parse_front-IsValid : (ps : List Parse) (t : State) → IsValid t → IsValid (parse_front ps t)
unfolding parse_front
parse_front-IsValid [] t v = v
parse_front-IsValid (p ∷ rest) t v = put_statement-Tables t.prepared_statements t.portals p v

bind_front-IsValid : (ps : List Bind) (t : State) → IsValid t → IsValid (bind_front ps t)
unfolding bind_front
bind_front-IsValid [] t v = v
bind_front-IsValid (p ∷ rest) t v = put_portal-Tables t.prepared_statements t.portals p v

command_complete-IsValid :
    (r : Result String) (t : State) → IsValid t → IsValid (command_complete r t).1
unfolding command_complete clear_pending clear_maps
command_complete-IsValid (err e) t v = v
command_complete-IsValid (ok p) t v = elim (Bool-cases (p =? "DISCARD ALL")) [
  | inl all ↦
      rw all (
        clear_portals-Tables _ t.portals
          (clear_statements-Tables t.prepared_statements t.portals v))
  | inr other ↦ rw other v
]

ready_for_query-IsValid : (r : Result ℕ) (t : State) → IsValid t → IsValid (ready_for_query r t).1
unfolding ready_for_query clear_pending clobber_portals
ready_for_query-IsValid (err e) t v = v
ready_for_query-IsValid (ok p) t v = elim (Bool-cases (p == b'I')) [
  | inl idle ↦ rw idle (clear_portals-Tables t.prepared_statements t.portals v)
  | inr busy ↦ rw busy v
]

-- A packet from the client to the server keeps the tables of the state in order: a range visits
-- every entry, and an entry stands under the name that its packet gives.
pub c2s-IsValid : (m : Message) (t : State) → IsValid t → IsValid (c2s m t).1
unfolding c2s parse bind query
c2s-IsValid (close_packet p) t v = close-IsValid p t v
c2s-IsValid (parse_packet (ok p)) t v = v
c2s-IsValid (parse_packet (err e)) t v = v
c2s-IsValid (bind_packet (ok p)) t v = v
c2s-IsValid (bind_packet (err e)) t v = v
c2s-IsValid query_packet t v =
    del_statement-Tables t.prepared_statements (del "" t.portals) ""
      (del_portal-Tables t.prepared_statements t.portals "" v)
c2s-IsValid close_complete_packet t v = v
c2s-IsValid parse_complete_packet t v = v
c2s-IsValid bind_complete_packet t v = v
c2s-IsValid (command_complete_packet r) t v = v
c2s-IsValid (ready_for_query_packet r) t v = v
c2s-IsValid (other_packet n) t v = v

-- A packet from the server to the client keeps the tables of the state in order as well.
pub s2c-IsValid : (m : Message) (t : State) → IsValid t → IsValid (s2c m t).1
unfolding s2c close_complete parse_complete bind_complete
s2c-IsValid (close_packet p) t v = v
s2c-IsValid (parse_packet r) t v = v
s2c-IsValid (bind_packet r) t v = v
s2c-IsValid query_packet t v = v
s2c-IsValid close_complete_packet t v = close_front-IsValid t.pending_closes t v
s2c-IsValid parse_complete_packet t v = parse_front-IsValid t.pending_prepared_statements t v
s2c-IsValid bind_complete_packet t v = bind_front-IsValid t.pending_portals t v
s2c-IsValid (command_complete_packet r) t v = command_complete-IsValid r t v
s2c-IsValid (ready_for_query_packet r) t v = ready_for_query-IsValid r t v
s2c-IsValid (other_packet n) t v = v
