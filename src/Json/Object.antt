-- ===== src/Json/Object.antt =====
-- Objects as maps: what `set_field` leaves to be read, and objects without a repeated key.
use esp32_sequencer.Base.{◌≡◌, refl, ap, none, some, str_eq}
use esp32_sequencer.Base.{String, if◌then◌else◌, arith, eq_iff}
use esp32_sequencer.Json.{Json, Fields, end, field, find_field, set_field}

pub find_field-set_field :
    (j k : String) (v : Json) (fs : Fields)
    → find_field j (set_field k v fs) ≡ (if str_eq k j then some v else find_field j fs)
unfolding set_field
find_field-set_field j k v end = refl
find_field-set_field j k v (field i w fs) =
    ground (arith, eq_iff k j, eq_iff i j, eq_iff i k, find_field-set_field j k v fs)

abbrev pub append : Fields → Fields → Fields
append end gs = gs
append (field k v fs) gs = field k v (append fs gs)

-- A new key goes to the end.
pub set_field_new :
    (k : String) (v : Json) (fs : Fields)
    → find_field k fs ≡ none
    → set_field k v fs ≡ append fs (field k v end)
unfolding set_field
set_field_new k v end h = refl
set_field_new k v (field i w fs) h = ground (arith, set_field_new k v fs)

pub append_assoc : (fs gs hs : Fields) → append (append fs gs) hs ≡ append fs (append gs hs)
append_assoc end gs hs = refl
append_assoc (field k v fs) gs hs = ap (field k v) (append_assoc fs gs hs)

pub append-end : (fs : Fields) → append fs end ≡ fs
append-end end = refl
append-end (field k v fs) = ap (field k v) (append-end fs)
