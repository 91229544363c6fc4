-- ===== src/Perror.antt =====
-- lib/perror: an error as the pooler sees it, and as the fields of an ErrorResponse.
pub mod Laws
mod Tests
use Prim.Native.String.{String}
use pggat.Base.{ℕ, List, [], ◌∷◌, ◌++◌, ◌==◌, if◌then◌else◌, map}

pub record ExtraField : Type 0 where
  pub typ : ℕ
  pub value : String

-- The struct `err` behind the interface `Error`.
pub record ErrorFields : Type 0 where
  pub severity : String
  pub code : String
  pub message : String
  pub extra : List ExtraField

-- A field of an ErrorResponse.
pub record ResponseField : Type 0 where
  pub code : ℕ
  pub value : String

-- The zero values of the variables.
abbrev no_fields : ErrorFields
no_fields = record { severity = ""; code = ""; message = ""; extra = [] }

unfoldable pub take_field : ResponseField → ErrorFields → ErrorFields
take_field field e =
    if field.code == b'S'
    then record e { severity = field.value }
    else (if field.code == b'C'
        then record e { code = field.value }
        else (if field.code == b'M' then record e { message = field.value } else record e {
          extra = e.extra ++ (record { typ = field.code; value = field.value } ∷ []);
        }))

unfoldable pub take_fields : List ResponseField → ErrorFields → ErrorFields
take_fields [] e = e
take_fields (field ∷ fields) e = take_fields fields (take_field field e)

unfoldable pub from_packet : List ResponseField → ErrorFields
from_packet packet = take_fields packet no_fields

abbrev pub extra_field : ExtraField → ResponseField
extra_field f = record { code = f.typ; value = f.value }

unfoldable pub to_packet : ErrorFields → List ResponseField
to_packet e =
    record { code = b'S'; value = e.severity }
    ∷ record { code = b'C'; value = e.code }
    ∷ record { code = b'M'; value = e.message }
    ∷ map extra_field e.extra
