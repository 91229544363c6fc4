-- ===== src/Perror/Tests.antt =====
-- lib/perror at an error with a hint and a position.
use pggat.Base.{◌≡◌, [], ◌∷◌, arith}
use pggat.Perror.{ExtraField, ErrorFields, from_packet, to_packet}
use pggat.Perror.Laws.{IsExtra, AllExtra, no_extra, more_extra, from_packet-to_packet}

abbrev hint : ExtraField
hint = record { typ = b'H'; value = "end the transaction" }

abbrev position : ExtraField
position = record { typ = b'P'; value = "15" }

abbrev failure : ErrorFields
failure = record {
  severity = "ERROR";
  code = "25P02";
  message = "current transaction is aborted";
  extra = hint ∷ position ∷ [];
}

failure-AllExtra : AllExtra failure.extra
unfolding IsExtra
failure-AllExtra =
    more_extra hint (position ∷ [])
      (λ h. omega (arith, h), λ h. omega (arith, h), λ h. omega (arith, h))
      (more_extra position [] (λ h. omega (arith, h), λ h. omega (arith, h), λ h. omega (arith, h))
        no_extra)

from_packet-to_packet_example : from_packet (to_packet failure) ≡ failure
from_packet-to_packet_example = from_packet-to_packet failure failure-AllExtra
