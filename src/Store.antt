-- ===== src/Store.antt =====
-- src/core/SequenceStore.{h,cpp}, Persistence.h and TriggerStore.{h,cpp}: the stored sequences and
-- bindings.
pub mod Validate
pub mod Lookup
pub mod Reload
pub mod Order
pub mod Nvs
pub mod Tests
use Prim.Native.Char.{Char}
use Prim.Native.String
use Prim.Native.String.{◌++◌ as cat}
use esp32_sequencer.Base.{
  ◌≡◌, ℕ, zero, suc, ◌%◌, ◌-◌, ltb, String, Bool, true, false, Option, none, some, List, [], ◌∷◌,
  ◌++◌, str_eq, ◌==◌, if◌then◌else◌, not,
}
use esp32_sequencer.Base.Decimal.{digit}
use esp32_sequencer.Json.{Json, ArduinoJson, is_null, as_text, get, member}
use esp32_sequencer.Model.{
  ParamDef, Sequence, TriggerBinding, Node, node, Nodes, nil, cons, Slots, slot,
}
use esp32_sequencer.Codec.{decode_list_text, encode_list, decode_triggers_text, encode_triggers}

-- The first sequence of an id: `findById`, and `findCallee` of the validation.
unfoldable pub find_by_id : String → List Sequence → Option Sequence
find_by_id id [] = none
find_by_id id (s ∷ ss) = if str_eq s.id id then some s else find_by_id id ss

-- The table of `newId`.
unfoldable pub hex_digit : ℕ → Char
hex_digit d =
    if ltb d 10
    then digit d
    else if d == 10
    then "a"
    else if d == 11
    then "b"
    else if d == 12
    then "c"
    else if d == 13
    then "d"
    else if d == 14
    then "e"
    else "f"

-- `walkNodes`: each node before its children.
module _ {S : Type 0} (visit : Node → S → S) where
  unfoldable mutual
    pub walk_node : Node → S → S
    walk_node (node type params kids) st = walk_slots kids (visit (node type params kids) st)

    pub walk_nodes : Nodes → S → S
    walk_nodes nil st = st
    walk_nodes (cons n ns) st = walk_nodes ns (walk_node n st)

    pub walk_slots : Slots → S → S
    walk_slots Slots.end st = st
    walk_slots (slot k ns rest) st = walk_slots rest (walk_nodes ns st)

-- The declared parameters of the callee that is found.
abbrev pub params_of : Option Sequence → Option (List ParamDef)
params_of none = none
params_of (some s) = some s.params

unfoldable pub callees_in : List Sequence → String → Option (List ParamDef)
callees_in all id = params_of (find_by_id id all)

-- Replaced in place, or added at the end.
unfoldable pub put : Sequence → List Sequence → List Sequence
put seq [] = seq ∷ []
put seq (s ∷ ss) = if str_eq s.id seq.id then seq ∷ ss else s ∷ put seq ss

unfoldable pub erase_by_id : String → List Sequence → List Sequence
erase_by_id id [] = []
erase_by_id id (s ∷ ss) = if str_eq s.id id then ss else s ∷ erase_by_id id ss

-- `std::rand` is a parameter, with its state.
module _ {G : Type 0} (rand : G → ℕ × G) where
  unfoldable pub hex_digits : ℕ → G → String × G
  hex_digits zero g = (String.[], g)
  hex_digits (suc n) g =
      let (r, g') = rand g in
      let (s, g'') = hex_digits n g' in (String.◌∷◌ (hex_digit (r % 16)) s, g'')

  -- `newId`
  unfoldable pub new_id : G → String × G
  new_id g = hex_digits 8 g

  abbrev pub with_id : Sequence → G → Sequence × G
  with_id s g =
      if str_eq s.id "" then (let (id, g') = new_id g in (record s { id = id }, g')) else (s, g)

  unfoldable pub assign_ids : List Sequence → G → List Sequence × G
  assign_ids [] g = ([], g)
  assign_ids (s ∷ ss) g =
      let (s', g') = with_id s g in let (ss', g'') = assign_ids ss g' in (s' ∷ ss', g'')

abbrev pub missing_reason : String → Option String → Option String
missing_reason cid none = none
missing_reason cid (some key) =
    some (cat "call-sequence to " (cat cid (cat " missing required arg '" (cat key "'"))))

abbrev pub marked : Sequence → Option String → Sequence
marked s none = s
marked s (some reason) = record s { broken = true; broken_reason = reason }

module _ (lib : ArduinoJson) where
  -- The first parameter that a call has to give and does not.
  unfoldable pub missing_arg : Json → List ParamDef → Option String
  missing_arg args [] = none
  missing_arg args (p ∷ ps) =
      let rest = missing_arg args ps in
      if not p.required
      then rest
      else if not (is_null p.default_value)
      then rest
      else if is_null args
      then some p.key
      else if lib.is_variant (member args p.key)
      then rest
      else some p.key

  abbrev pub callee_fault : String → Json → Option (List ParamDef) → Option String
  callee_fault cid args none = some (cat "unknown sequence: " cid)
  callee_fault cid args (some ps) = missing_reason cid (missing_arg args ps)

  abbrev pub call_fault : (String → Option (List ParamDef)) → Json → Option String → Option String
  call_fault callees params none = some "call-sequence: missing sequenceId"
  call_fault callees params (some cid) = callee_fault cid (get params "args") (callees cid)

  -- What the validation does at a node; `some reason` is a caller that is broken by now.
  unfoldable pub visit : (String → Option (List ParamDef)) → Node → Option String → Option String
  visit callees n (some reason) = some reason
  visit callees (node type params kids) none =
      if str_eq type "call-sequence"
      then call_fault callees params (as_text (get params "sequenceId"))
      else none

  unfoldable pub mark : (String → Option (List ParamDef)) → Sequence → Sequence
  mark callees s = if s.broken then s else marked s (walk_nodes (visit callees) s.nodes none)

  -- `validateCallSequenceArgs`: the callers in turn, with the list as it is then.
  unfoldable pub validate_from : List Sequence → List Sequence → List Sequence
  validate_from done [] = done
  validate_from done (s ∷ rest) =
      validate_from (done ++ mark (callees_in (done ++ s ∷ rest)) s ∷ []) rest

  unfoldable pub validate : List Sequence → List Sequence
  validate all = validate_from [] all

  -- `removeById`
  unfoldable pub remove_by_id : String → List Sequence → Bool × List Sequence
  remove_by_id id all = elim (find_by_id id all) [
    | none ↦ (false, all)
    | some _ ↦ (true, validate (erase_by_id id all))
  ]

  module _ {G : Type 0} (rand : G → ℕ × G) where
    -- `upsert`
    unfoldable pub upsert : Sequence → List Sequence → G → String × List Sequence × G
    upsert seq all g = let (s, g') = with_id rand seq g in (s.id, validate (put s all), g')

    -- `replaceAll`
    unfoldable pub replace_all : List Sequence → G → List Sequence × G
    replace_all ss g = let (ss', g') = assign_ids rand ss g in (validate ss', g')

-- `Persistence` (src/core/Persistence.h). The storage may be too small for a text, and a save that
-- fails is not reported: `holds` is for the texts that it is sure to take, and what such a text is
-- saved under is loaded as that text. Of a save of another text nothing is known.
pub record Persistence (P : Type 0) : Type 0 where
  pub load : String → P → String
  pub save : String → String → P → P
  pub holds : String → Bool
  pub load-save : (k blob : String) (p : P) → holds blob ≡ true → load k (save k blob p) ≡ blob

module _ (lib : ArduinoJson) {P : Type 0} (persistence : Persistence P) where
  abbrev pub or_empty_list : String → String
  or_empty_list blob = if str_eq blob "" then "[]" else blob

  -- `SequenceStore::load` and `save`
  unfoldable pub load_sequences : (String → Bool) → P → List Sequence
  load_sequences known p =
      validate lib (decode_list_text lib known (or_empty_list (persistence.load "sequences" p)))

  unfoldable pub save_sequences : List Sequence → P → P
  save_sequences ss p = persistence.save "sequences" (lib.serialize (encode_list ss)) p

  -- `TriggerStore::load` and `save`
  unfoldable pub load_triggers : P → List TriggerBinding
  load_triggers p = decode_triggers_text lib (or_empty_list (persistence.load "triggers" p))

  unfoldable pub save_triggers : List TriggerBinding → P → P
  save_triggers ts p = persistence.save "triggers" (lib.serialize (encode_triggers ts)) p

-- `TriggerStore::replaceAll`
module _ {G : Type 0} (rand : G → ℕ × G) where
  abbrev pub with_trigger_id : TriggerBinding → G → TriggerBinding × G
  with_trigger_id t g =
      if str_eq t.id ""
      then (let (id, g') = new_id rand g in (record t { id = id }, g'))
      else (t, g)

  unfoldable pub replace_triggers : List TriggerBinding → G → List TriggerBinding × G
  replace_triggers [] g = ([], g)
  replace_triggers (t ∷ ts) g =
      let (t', g') = with_trigger_id t g in
      let (ts', g'') = replace_triggers ts g' in (t' ∷ ts', g'')
