-- ===== src/Resolve.antt =====
-- src/core/ResolveParams.cpp: parameters of a node, resolved against the current scope.
pub mod Refs
pub mod Closed
pub mod Template
use Prim.Native.Nat.{ℕ, zero, suc, ◌+◌}
use Prim.Native.Char.{Char, code}
use Prim.Native.String.{String, [], ◌∷◌, ◌++◌, count}
use mathlib.Core.Option
use esp32_sequencer.Base.{Bool, true, false, ◌&&◌, ◌||◌, Option, none, some, str_eq, ◌==◌}
use esp32_sequencer.Base.{if◌then◌else◌}
use esp32_sequencer.Base.Int.{ℤ}
use esp32_sequencer.Base.Decimal.{to_string}
use esp32_sequencer.Base.Result.{Result, ok, err, ◌>>=◌, map_ok, or_err}
use esp32_sequencer.Base.Map.{find}
use esp32_sequencer.Json.{
  Json, null, bool, int, float, str, arr, obj, Items, nil, cons, Fields, end, field, ArduinoJson,
  set_field,
}
use esp32_sequencer.Model.{ParamScope}

-- The name in an object that is exactly `{"$param": "name"}`.
unfoldable pub param_name : Fields → Option String
param_name (field k (str name) end) = if str_eq k "$param" then some name else none
param_name _ = none

-- The text before the first `}`, if there is one: `strchr(p + 2, '}')`.
unfoldable pub before_brace : String → Option String
before_brace [] = none
before_brace (c ∷ s) = if code c == b'}' then some [] else Option.map (λ t. c ∷ t) (before_brace s)

abbrev pub after_open : String → Option String
after_open [] = none
after_open (c ∷ s) = if code c == b'{' then some s else none

-- The name of a placeholder `${name}` that begins with the character `c` before `s`.
unfoldable pub placeholder : Char → String → Option String
unfolding before_brace
placeholder c s =
    if code c == b'$' then elim (after_open s) [ none ↦ none | some t ↦ before_brace t ] else none

abbrev pub opens : String → Bool
opens [] = false
opens (c ∷ s) = code c == b'{'

-- `strstr(s, "${")`
unfoldable pub has_open : String → Bool
has_open [] = false
has_open (c ∷ s) = (code c == b'$' && opens s) || has_open s

abbrev pub unknown_param : String → String
unknown_param name = "unknown param: " ++ name

-- `scope.values.find(name)`, or the error.
abbrev pub lookup : String → ParamScope → Result Json
lookup name scope = or_err (find name scope) (unknown_param name)

-- The value of a parameter object, or else the members' result.
abbrev pub param_or : ParamScope → Option String → Result Json → Result Json
param_or scope none members = members
param_or scope (some name) members = lookup name scope

module _ (lib : ArduinoJson) where
  unfoldable pub number_text : Option ℤ → Json → String
  unfolding to_string
  number_text (some z) v = to_string z
  number_text none v = lib.serialize v

  -- What `appendStringified` appends.
  unfoldable pub stringify : Json → String
  unfolding number_text
  stringify (str s) = s
  stringify (bool true) = "true"
  stringify (bool false) = "false"
  stringify v = number_text (lib.as_int v) v

  -- The loop over the characters of `in`. The pointer `p` is the rest of the text; `skip` is how
  -- far `p` stands behind its first character, since a placeholder moves `p` past its `}`.
  unfoldable pub interpolate : ParamScope → String → ℕ → Result String
  interpolate scope [] skip = ok []
  interpolate scope (c ∷ s) (suc skip) = interpolate scope s skip
  interpolate scope (c ∷ s) zero =
      let plain = map_ok (λ out. c ∷ out) (interpolate scope s 0) in
      let replaced = λ (name : String).
        (lookup name scope >>= λ v.
        map_ok (λ out. stringify v ++ out) (interpolate scope s (count name + 2))) in
      elim (placeholder c s) [ none ↦ plain | some name ↦ replaced name ]

  unfoldable pub resolve_text : ParamScope → String → Result Json
  resolve_text scope s = if has_open s then map_ok str (interpolate scope s 0) else ok (str s)

  -- `resolveInto`. What was written to the destination before an error is dropped by the caller.
  unfoldable mutual
    pub resolve : ParamScope → Json → Result Json
    resolve scope (obj fs) =
        param_or scope (param_name fs) (map_ok obj (resolve_fields scope fs end))
    resolve scope (arr xs) = map_ok arr (resolve_items scope xs)
    resolve scope (str s) = resolve_text scope s
    resolve scope null = ok null
    resolve scope (bool b) = ok (bool b)
    resolve scope (int z) = ok (int z)
    resolve scope (float t) = ok (float t)

    pub resolve_items : ParamScope → Items → Result Items
    resolve_items scope nil = ok nil
    resolve_items scope (cons v xs) =
        resolve scope v >>= λ w. map_ok (cons w) (resolve_items scope xs)

    pub resolve_fields : ParamScope → Fields → Fields → Result Fields
    resolve_fields scope end done = ok done
    resolve_fields scope (field k v fs) done =
        resolve scope v >>= λ w. resolve_fields scope fs (set_field k w done)
