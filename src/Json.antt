-- ===== src/Json.antt =====
-- `JsonDocument` and the views of it (ArduinoJson): a document is the tree of its value. What the
-- library decides about numbers, conversions and text is the record `ArduinoJson`, a parameter of
-- the definitions that use it; `IsLawful` is the part of its documentation that is relied on.
pub mod Object
use esp32_sequencer.Base.{ℕ, ◌<◌, ◌^◌, ◌≡◌, Bool, true, false, Option, none, some, str_eq}
use esp32_sequencer.Base.{String, if◌then◌else◌}
use esp32_sequencer.Base.Int.{ℤ, pos, IsInt32}

-- `float` is a number that is not an integer, by its text.
mutual
  pub data Json : Type 0 where
    null : Json
    bool : Bool → Json
    int : ℤ → Json
    float : String → Json
    str : String → Json
    arr : Items → Json
    obj : Fields → Json

  pub data Items : Type 0 where
    nil : Items
    cons : Json → Items → Items

  pub data Fields : Type 0 where
    end : Fields
    field : String → Json → Fields → Fields

-- `v.isNull()`
abbrev pub is_null : Json → Bool
is_null null = true
is_null _ = false

-- `v.as<const char*>()`: the null pointer where `v` is no text.
abbrev pub as_text : Json → Option String
as_text (str s) = some s
as_text _ = none

-- `v.as<const char*>() ? v.as<const char*>() : ""`
abbrev pub text_or_empty : Json → String
text_or_empty (str s) = s
text_or_empty _ = ""

-- `v.as<JsonArrayConst>()`: iterating over what is no array does nothing.
abbrev pub as_items : Json → Items
as_items (arr xs) = xs
as_items _ = nil

-- `v.as<JsonObjectConst>()`
abbrev pub as_fields : Json → Fields
as_fields (obj fs) = fs
as_fields _ = end

-- The member of a key: `none` where there is no such key, an unbound variant.
abbrev pub find_field : String → Fields → Option Json
find_field k end = none
find_field k (field j v fs) = if str_eq j k then some v else find_field k fs

abbrev pub member : Json → String → Option Json
member v k = find_field k (as_fields v)

-- `v[k]`: an unbound variant reads as null.
abbrev pub or_null : Option Json → Json
or_null none = null
or_null (some v) = v

abbrev pub get : Json → String → Json
get v k = or_null (member v k)

-- `o[k].set(v)`: a new key goes to the end.
unfoldable pub set_field : String → Json → Fields → Fields
set_field k v end = field k v end
set_field k v (field j w fs) = if str_eq j k then field j v fs else field j w (set_field k v fs)

-- What the library decides.
pub record ArduinoJson : Type 0 where
  -- `v.as<bool>()`
  pub as_bool : Json → Bool
  -- `v.as<int>()` where `v.is<int>()`
  pub as_int : Json → Option ℤ
  -- `v.as<uint32_t>()` where `v.is<uint32_t>()`
  pub as_uint : Json → Option ℕ
  -- `v.is<JsonVariantConst>()`, where `none` is an unbound variant
  pub is_variant : Option Json → Bool
  -- `serializeJson`
  pub serialize : Json → String
  -- `deserializeJson`, with `none` for any error
  pub deserialize : String → Option Json

pub record IsLawful (lib : ArduinoJson) : Type 0 where
  pub as_bool-bool : (b : Bool) → lib.as_bool (bool b) ≡ b
  pub as_bool-null : lib.as_bool null ≡ false
  pub is_variant-none : lib.is_variant none ≡ false
  pub is_variant-some : (v : Json) → is_null v ≡ false → lib.is_variant (some v) ≡ true
  pub as_int-int : (z : ℤ) → IsInt32 z → lib.as_int (int z) ≡ some z
  pub as_uint-pos : (n : ℕ) → n < 2 ^ 32 → lib.as_uint (int (pos n)) ≡ some n

-- `v | z`, at `int` and at `uint32_t`: the default where the value is not of the type.
abbrev pub or_default {ℓ} : {A : Type ℓ} → Option A → A → A
or_default none d = d
or_default (some a) d = a

-- `v | b`, at `bool`.
abbrev pub bool_or : Json → Bool → Bool
bool_or (bool b) d = b
bool_or _ d = d

-- `v | s`, at `const char*`.
abbrev pub text_or : Json → String → String
text_or (str s) d = s
text_or _ d = d
