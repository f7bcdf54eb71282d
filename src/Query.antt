-- ===== src/Query.antt =====
-- src/adapters/triggers/QueryCoerce.{h,cpp}: the parameters of an HTTP request as arguments of a
-- sequence. `long` is the 32 bits of the ESP32.
pub mod Numbers
pub mod Priority
pub mod Tests
use Prim.Native.Char.{Char, code}
use Prim.Native.String.{◌++◌ as cat}
use Prim.Native.String
use esp32_sequencer.Base.{
  ℕ, ◌+◌, ◌-◌, ◌*◌, ◌^◌, String, Bool, true, false, Option, none, some, List, [], ◌∷◌, str_eq, ◌==◌,
  ltb, leb, ◌&&◌, ◌||◌, if◌then◌else◌, contains,
}
use esp32_sequencer.Base.Int.{ℤ, pos, negsuc}
use esp32_sequencer.Base.Result.{Result, ok, err, ◌>>=◌, map_ok}
use esp32_sequencer.Base.Map.{Map, find}
use esp32_sequencer.Json.{
  Json, bool, int, str, arr, obj, Items, Fields, end, field, is_null, as_fields, set_field,
}
use esp32_sequencer.Model.{FieldType, ParamDef}

-- `lower`, by character numbers.
unfoldable pub lower : String → List ℕ
lower String.[] = []
lower (String.◌∷◌ c s) =
    (if leb b'A' (code c) && leb (code c) b'Z' then code c + 32 else code c) ∷ lower s

abbrev pub codes : String → List ℕ
codes String.[] = []
codes (String.◌∷◌ c s) = code c ∷ codes s

abbrev pub same_codes : List ℕ → List ℕ → Bool
same_codes [] [] = true
same_codes [] (d ∷ ds) = false
same_codes (c ∷ cs) [] = false
same_codes (c ∷ cs) (d ∷ ds) = c == d && same_codes cs ds

abbrev pub is_digit : ℕ → Bool
is_digit c = leb b'0' c && leb c b'9'

-- `isspace`
abbrev pub is_space : ℕ → Bool
is_space c = c == 32 || (leb 9 c && leb c 13)

-- Digits up to the end of the text, behind the number `n` of the digits before.
unfoldable pub digits : String → ℕ → Option ℕ
digits String.[] n = some n
digits (String.◌∷◌ c s) n =
    let rest = digits s (n * 10 + (code c - b'0')) in if is_digit (code c) then rest else none

-- `strtol` wants one digit at least.
unfoldable pub magnitude : String → Option ℕ
magnitude String.[] = none
magnitude (String.◌∷◌ c s) = digits (String.◌∷◌ c s) 0

-- `strtol` stays in the range of `long`.
unfoldable pub signed : Bool → ℕ → ℤ
signed negative n =
    if negative
    then (if n == 0 then pos 0 else if ltb (2 ^ 31) n then negsuc (2 ^ 31 - 1) else negsuc (n - 1))
    else if ltb n (2 ^ 31)
    then pos n
    else pos (2 ^ 31 - 1)

abbrev pub with_sign : Bool → Option ℕ → Option ℤ
with_sign negative none = none
with_sign negative (some n) = some (signed negative n)

-- The sign, and the digits behind it.
unfoldable pub after_spaces : String → Option ℤ
after_spaces String.[] = none
after_spaces (String.◌∷◌ c s) =
    if code c == b'-'
    then with_sign true (magnitude s)
    else if code c == b'+'
    then with_sign false (magnitude s)
    else with_sign false (magnitude (String.◌∷◌ c s))

-- `parseIntStrict`: the whole text is a number.
unfoldable pub parse_int_strict : String → Option ℤ
parse_int_strict String.[] = none
parse_int_strict (String.◌∷◌ c s) =
    let rest = parse_int_strict s in
    if is_space (code c) then rest else after_spaces (String.◌∷◌ c s)

abbrev pub onto_first : Char → List String → List String
onto_first c [] = String.◌∷◌ c String.[] ∷ []
onto_first c (piece ∷ pieces) = String.◌∷◌ c piece ∷ pieces

-- The loop over `find(',', i)`: the pieces between commas, of which there is one at least.
unfoldable pub split : String → List String
split String.[] = String.[] ∷ []
split (String.◌∷◌ c s) =
    let pieces = split s in if code c == b',' then String.[] ∷ pieces else onto_first c pieces

unfoldable pub enum_contains : String → String → Bool
enum_contains csv v = contains v (split csv)

abbrev pub text_items : List String → Items
text_items [] = Items.nil
text_items (s ∷ ss) = Items.cons (str s) (text_items ss)

-- The Boolean of a query, if it is one.
unfoldable pub coerce_bool : String → Option Bool
coerce_bool v =
    let l = lower v in
    if same_codes l (codes "1")
      || same_codes l (codes "true")
      || same_codes l (codes "yes")
      || same_codes l (codes "on")
    then some true
    else if same_codes l (codes "0")
        || same_codes l (codes "false")
        || same_codes l (codes "no")
        || same_codes l (codes "off")
    then some false
    else none

abbrev pub invalid : String → String → String
invalid key why = cat "invalid param '" (cat key (cat "': " why))

abbrev pub or_invalid {ℓ} :
    {A : Type ℓ} → (A → Json) → String → String → Option A → Result (Option Json)
or_invalid f key why none = err (invalid key why)
or_invalid f key why (some a) = ok (some (f a))

-- The `switch`: the value of a parameter for a query's text; `ok none` leaves it as it is.
unfoldable pub coerce : FieldType → String → String → String → Result (Option Json)
coerce FieldType.string key csv v = ok (some (str v))
coerce FieldType.mac_address key csv v = ok (some (str v))
coerce FieldType.string_list key csv v = ok (some (arr (text_items (split v))))
coerce FieldType.int key csv v = or_invalid int key "not int" (parse_int_strict v)
coerce FieldType.bool key csv v = or_invalid bool key "not bool" (coerce_bool v)
coerce FieldType.enum key csv v =
    if enum_contains csv v then ok (some (str v)) else err (invalid key "not in enum")
coerce FieldType.predicate_ref key csv v = ok none

unfoldable pub seed : List ParamDef → Fields → Fields
seed [] fs = fs
seed (p ∷ ps) fs =
    seed ps (if is_null p.default_value then fs else set_field p.key p.default_value fs)

unfoldable pub overlay : Fields → Fields → Fields
overlay end fs = fs
overlay (field k v gs) fs = overlay gs (set_field k v fs)

abbrev pub write : String → Option Json → Fields → Fields
write key none fs = fs
write key (some v) fs = set_field key v fs

-- What the query says of a parameter.
abbrev pub queried : ParamDef → Option String → Result (Option Json)
queried p none = ok none
queried p (some v) = coerce p.type p.key p.enum_values v

unfoldable pub override : List ParamDef → Map String → Fields → Result Fields
override [] query fs = ok fs
override (p ∷ ps) query fs =
    queried p (find p.key query) >>= λ o. override ps query (write p.key o fs)

unfoldable pub coerce_query_args : Json → List ParamDef → Map String → Result Fields
coerce_query_args default_args params query =
    override params query (overlay (as_fields default_args) (seed params end))
