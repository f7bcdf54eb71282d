-- ===== src/Query/Tests.antt =====
-- Numbers and arguments in queries, at concrete inputs.
use esp32_sequencer.Base.{◌≡◌, some, [], ◌∷◌, arith, false}
use esp32_sequencer.Base.Int.{pos, negsuc}
use esp32_sequencer.Base.Decimal.{to_string}
use esp32_sequencer.Base.Map.{find}
use esp32_sequencer.Base.Result.{ok, map_ok}
use esp32_sequencer.Json.{int, obj, end, field, find_field}
use esp32_sequencer.Model.{ParamDef, FieldType}
use esp32_sequencer.Query.{
  parse_int_strict, after_spaces, magnitude, digits, signed, coerce, coerce_query_args,
}
use esp32_sequencer.Query.Numbers.{parse_int_strict-to_string}
use esp32_sequencer.Query.Priority.{argument, coerce_query_args-argument}

parse_int_strict-to_string_example : parse_int_strict (to_string (negsuc 40)) ≡ some (negsuc 40)
parse_int_strict-to_string_example = parse_int_strict-to_string (negsuc 40) (omega arith)

abbrev volume : ParamDef
volume = record {
  key = "volume";
  type = FieldType.int;
  label = "";
  default_value = int (pos 5);
  enum_values = "";
  required = false;
}

-- The query's value is taken, above the binding's argument and the default.
coerce_query_args-argument_example :
    map_ok (find_field "volume") (
      coerce_query_args
        (obj (field "volume" (int (pos 7)) end))
        (volume ∷ [])
        (("volume", "12") ∷ []))
    ≡ ok (some (int (pos 12)))
unfolding argument coerce parse_int_strict after_spaces magnitude digits signed find
coerce_query_args-argument_example =
    coerce_query_args-argument "volume" (obj (field "volume" (int (pos 7)) end)) (volume ∷ [])
      (("volume", "12") ∷ [])
