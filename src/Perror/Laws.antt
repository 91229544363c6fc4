-- ===== src/Perror/Laws.antt =====
-- An error survives the way through an ErrorResponse.
use mathlib.Core.List.{append_assoc, append-nil}
use pggat.Base.{◌≡◌, ◌≢◌, ap, sym, ◌∙◌, List, [], ◌∷◌, ◌++◌, map, arith}
use pggat.Perror.{
  ExtraField, ErrorFields, take_field, take_fields, from_packet, extra_field, to_packet,
}

-- The extra fields have none of the codes of the three fixed fields.
unfoldable pub IsExtra : ExtraField → Type 0
IsExtra f = (f.typ ≢ b'S') × (f.typ ≢ b'C') × (f.typ ≢ b'M')

pub data AllExtra : List ExtraField → Type 0 where
  no_extra : AllExtra []
  more_extra : (f : ExtraField) (fs : List ExtraField) → IsExtra f → AllExtra fs → AllExtra (f ∷ fs)

take_extra :
    (f : ExtraField) (e : ErrorFields)
    → IsExtra f
    → take_field (extra_field f) e ≡ record e { extra = e.extra ++ (f ∷ []) }
unfolding take_field IsExtra
take_extra f e (s, c, m) = ground (arith, s, c, m)

take_extras :
    (fs : List ExtraField) (e : ErrorFields)
    → AllExtra fs
    → take_fields (map extra_field fs) e ≡ record e { extra = e.extra ++ fs }
unfolding take_fields
take_extras [] e h = ap (λ l. record e { extra = l }) (sym (append-nil e.extra))
take_extras (f ∷ fs) e (more_extra _ _ x h) =
    ap (take_fields (map extra_field fs)) (take_extra f e x)
    ∙ (take_extras fs (record e { extra = e.extra ++ (f ∷ []) }) h
        ∙ ap (λ l. record e { extra = l }) (append_assoc e.extra (f ∷ []) fs))

-- An error whose extra fields have codes of their own is read back from its packet unchanged.
pub from_packet-to_packet : (e : ErrorFields) → AllExtra e.extra → from_packet (to_packet e) ≡ e
unfolding from_packet to_packet take_fields take_field
from_packet-to_packet e h =
    take_extras e.extra
      (record { severity = e.severity; code = e.code; message = e.message; extra = [] }) h
