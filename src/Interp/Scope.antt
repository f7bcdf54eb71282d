-- ===== src/Interp/Scope.antt =====
-- The frame that src/core/Interpreter.cpp (`buildScope`) makes of a sequence's defaults and the
-- call's arguments.
use esp32_sequencer.Base.{
  String, ◌≡◌, refl, ap, ◌∙◌, Option, none, some, List, [], ◌∷◌, str_eq, if◌then◌else◌, arith,
}
use esp32_sequencer.Base.Map.{find, insert, find-insert}
use esp32_sequencer.Json.{Json, Fields, end, field, is_null, as_fields}
use esp32_sequencer.Model.{ParamScope, ParamDef, Sequence}
use esp32_sequencer.Interp.{seed_defaults, overlay, build_scope}

abbrev pub or_else : Option Json → Option Json → Option Json
or_else (some v) o = some v
or_else none o = o

-- The last member of a key.
abbrev pub last_member : String → Fields → Option Json
last_member k end = none
last_member k (field j v fs) = or_else (last_member k fs) (if str_eq j k then some v else none)

-- The last default of a key.
abbrev pub last_default : String → List ParamDef → Option Json
last_default k [] = none
last_default k (p ∷ ps) = or_else (last_default k ps) (
    if is_null p.default_value then none else if str_eq p.key k then some p.default_value else none)

find-overlay :
    (k : String) (fs : Fields) (sc : ParamScope)
    → find k (overlay fs sc) ≡ or_else (last_member k fs) (find k sc)
unfolding overlay
find-overlay k end sc = refl
find-overlay k (field j v fs) sc =
    ground (arith, find-overlay k fs (insert j v sc), find-insert k j v sc)

find-seed_defaults :
    (k : String) (ps : List ParamDef) (sc : ParamScope)
    → find k (seed_defaults ps sc) ≡ or_else (last_default k ps) (find k sc)
unfolding seed_defaults
find-seed_defaults k [] sc = refl
find-seed_defaults k (p ∷ ps) sc =
    find-seed_defaults k ps
      (if is_null p.default_value then sc else insert p.key p.default_value sc)
    ∙ ground (arith, find-insert k p.key p.default_value sc)

pub or_else-none : (o : Option Json) → or_else o none ≡ o
or_else-none none = refl
or_else-none (some v) = refl

-- A parameter's value in a new frame is the call's argument of its name, if there is one, and else
-- its default, if that is not null; arguments that the sequence does not declare are bound too.
pub find-build_scope :
    (k : String) (s : Sequence) (args : Json)
    → find k (build_scope s args)
      ≡ or_else (last_member k (as_fields args)) (last_default k s.params)
unfolding build_scope find
find-build_scope k s args =
    find-overlay k (as_fields args) (seed_defaults s.params [])
    ∙ ap (or_else (last_member k (as_fields args)))
        (find-seed_defaults k s.params [] ∙ or_else-none (last_default k s.params))
