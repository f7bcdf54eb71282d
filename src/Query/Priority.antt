-- ===== src/Query/Priority.antt =====
-- Which layer an argument comes from (src/adapters/triggers/QueryCoerce.cpp): the query, the
-- binding's arguments, or the parameters' defaults.
use esp32_sequencer.Base.{
  String, ◌≡◌, refl, ap, ◌∙◌, Option, none, some, List, [], ◌∷◌, str_eq, if◌then◌else◌, arith,
}
use esp32_sequencer.Base.Result.{Result, ok, err, ◌>>=◌, map_ok}
use esp32_sequencer.Base.Map.{Map, find}
use esp32_sequencer.Json.{Json, Fields, end, field, is_null, as_fields, find_field, set_field}
use esp32_sequencer.Json.Object.{find_field-set_field}
use esp32_sequencer.Model.{ParamDef}
use esp32_sequencer.Interp.Scope.{or_else, or_else-none, last_member, last_default}
use esp32_sequencer.Query.{seed, overlay, write, queried, override, coerce_query_args}

find_field-overlay :
    (k : String) (fs gs : Fields)
    → find_field k (overlay fs gs) ≡ or_else (last_member k fs) (find_field k gs)
unfolding overlay
find_field-overlay k end gs = refl
find_field-overlay k (field j v fs) gs =
    ground (arith, find_field-overlay k fs (set_field j v gs), find_field-set_field k j v gs)

find_field-seed :
    (k : String) (ps : List ParamDef) (gs : Fields)
    → find_field k (seed ps gs) ≡ or_else (last_default k ps) (find_field k gs)
unfolding seed
find_field-seed k [] gs = refl
find_field-seed k (p ∷ ps) gs =
    find_field-seed k ps
      (if is_null p.default_value then gs else set_field p.key p.default_value gs)
    ∙ ground (arith, find_field-set_field k p.key p.default_value gs)

-- The argument `k` after the query, from the argument `o` before it: the parameters in turn, of
-- which each that the query names must be of its type, and one with the name `k` sets the argument.
unfoldable pub argument : String → List ParamDef → Map String → Option Json → Result (Option Json)
argument k [] query o = ok o
argument k (p ∷ ps) query o = queried p (find p.key query) >>= λ w.
    argument k ps query (if str_eq p.key k then or_else w o else o)

find_field-write :
    (k j : String) (w : Option Json) (fs : Fields)
    → find_field k (write j w fs)
      ≡ (if str_eq j k then or_else w (find_field k fs) else find_field k fs)
find_field-write k j none fs = ground arith
find_field-write k j (some v) fs = find_field-set_field k j v fs ∙ ground arith

step :
    (k : String) (q : Result (Option Json)) (f : Option Json → Result Fields)
    (g : Option Json → Result (Option Json))
    → ((w : Option Json) → map_ok (find_field k) (f w) ≡ g w)
    → map_ok (find_field k) (q >>= f) ≡ (q >>= g)
step k (err e) f g h = refl
step k (ok w) f g h = h w

map_ok-override :
    (k : String) (ps : List ParamDef) (query : Map String) (fs : Fields)
    → map_ok (find_field k) (override ps query fs) ≡ argument k ps query (find_field k fs)
unfolding override argument
map_ok-override k [] query fs = refl
map_ok-override k (p ∷ ps) query fs = step k (queried p (find p.key query)) _ _ (λ w.
    map_ok-override k ps query (write p.key w fs)
    ∙ ap (argument k ps query) (find_field-write k p.key w fs))

-- The argument of a name is the query's value of a parameter of that name, or else the binding's last
-- argument of the name, or else the last default of the name that is not null; the coercion fails
-- just where the query's value of some parameter is not of its type.
pub coerce_query_args-argument :
    (k : String) (default_args : Json) (ps : List ParamDef) (query : Map String)
    → map_ok (find_field k) (coerce_query_args default_args ps query)
      ≡ argument k ps query (or_else (last_member k (as_fields default_args)) (last_default k ps))
unfolding coerce_query_args
coerce_query_args-argument k default_args ps query =
    map_ok-override k ps query (overlay (as_fields default_args) (seed ps end))
    ∙ ap (argument k ps query) (
        find_field-overlay k (as_fields default_args) (seed ps end)
        ∙ ap (or_else (last_member k (as_fields default_args)))
            (find_field-seed k ps end ∙ or_else-none (last_default k ps)))
