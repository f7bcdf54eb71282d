-- ===== src/Codec.antt =====
-- src/core/SequenceCodec.{h,cpp}: sequences and bindings as JSON. The texts of the source are one
-- step further: `serializeJson` and `deserializeJson` of the library.
pub mod Trees
pub mod RoundTrip
pub mod Again
pub mod Keys
pub mod Ordered
pub mod Known
use Prim.Native.Nat.{Ordering}
use Prim.Native.String.{◌++◌ as cat, compare}
use esp32_sequencer.Base.{
  ℕ, String, Bool, true, false, Option, none, some, List, [], ◌∷◌, str_eq, ◌||◌, ◌&&◌, not,
  if◌then◌else◌,
}
use esp32_sequencer.Base.Int.{pos}
use esp32_sequencer.Json.{
  Json, null, bool, int, str, arr, obj, Items, Fields, end, field, ArduinoJson, is_null, as_text,
  text_or_empty, as_items, as_fields, member, get, or_null, or_default, bool_or,
}
use esp32_sequencer.Model.{
  FieldType, ParamDef, Sequence, TriggerBinding, Node, node, Nodes, nil, cons, Slots, slot,
}

-- `parseFieldType`; `none` is the null pointer.
unfoldable pub parse_field_type : Option String → FieldType
parse_field_type none = FieldType.string
parse_field_type (some s) =
    if str_eq s "bool"
    then FieldType.bool
    else if str_eq s "int"
    then FieldType.int
    else if str_eq s "string"
    then FieldType.string
    else if str_eq s "stringlist"
    then FieldType.string_list
    else if str_eq s "mac"
    then FieldType.mac_address
    else if str_eq s "enum"
    then FieldType.enum
    else if str_eq s "predicate"
    then FieldType.predicate_ref
    else FieldType.string

unfoldable pub field_type_name : FieldType → String
field_type_name FieldType.bool = "bool"
field_type_name FieldType.int = "int"
field_type_name FieldType.string = "string"
field_type_name FieldType.string_list = "stringlist"
field_type_name FieldType.mac_address = "mac"
field_type_name FieldType.enum = "enum"
field_type_name FieldType.predicate_ref = "predicate"

-- `if (v.is<JsonVariantConst>()) copyJson(dst, v)` for a `dst` that is null.
unfoldable pub copied : ArduinoJson → Option Json → Json
copied lib m = if lib.is_variant m then or_null m else null

-- The interpreter knows these types itself.
abbrev pub is_control : String → Bool
is_control t = str_eq t "if" || str_eq t "repeat" || str_eq t "call-sequence" || str_eq t "divider"

-- The reason after a node of type `t`: the first unknown type is kept.
unfoldable pub blame : (String → Bool) → String → String → String
blame known t reason =
    if not (is_control t) && not (known t) && str_eq reason ""
    then cat "unknown block type: " t
    else reason

-- `dst.children[k]`, and a `push_back` of each node.
abbrev pub append_nodes : Nodes → Nodes → Nodes
append_nodes nil ms = ms
append_nodes (cons n ns) ms = cons n (append_nodes ns ms)

unfoldable pub add_slot : String → Nodes → Slots → Slots
add_slot k ns Slots.end = slot k ns Slots.end
add_slot k ns (slot j ms rest) = elim (compare k j) [
  | Ordering.lt ↦ slot k ns (slot j ms rest)
  | Ordering.eq ↦ slot j (append_nodes ms ns) rest
  | Ordering.gt ↦ slot j ms (add_slot k ns rest)
]

module _ (lib : ArduinoJson) where
  unfoldable pub decode_param : Json → ParamDef
  decode_param pv = record {
    key = text_or_empty (get pv "key");
    type = parse_field_type (as_text (get pv "type"));
    label = text_or_empty (get pv "label");
    enum_values = text_or_empty (get pv "enumValues");
    required = lib.as_bool (get pv "required");
    default_value = get pv "default";
  }

  unfoldable pub decode_params : Items → List ParamDef
  decode_params Items.nil = []
  decode_params (Items.cons v xs) = decode_param v ∷ decode_params xs

module _ (lib : ArduinoJson) (known : String → Bool) where
  unfoldable pub finish : Fields → Slots × String → Node × String
  finish fs (kids, reason) =
      let type = text_or_empty (get (obj fs) "type") in
      (node type (copied lib (member (obj fs) "params")) kids, blame known type reason)

  abbrev pub push_node : Node → Nodes × String → Nodes × String
  push_node n (ns, reason) = (cons n ns, reason)

  -- `decodeNode`, and its loops over the children and over an array of nodes. The reason is passed
  -- along, as the reference `brokenReason` is.
  unfoldable mutual
    pub decode_node : Json → String → Node × String
    decode_node (obj fs) reason = finish fs (decode_children fs reason)
    decode_node _ reason = finish end (Slots.end, reason)

    pub decode_children : Fields → String → Slots × String
    decode_children end reason = (Slots.end, reason)
    decode_children (field k v fs) reason =
        let this = decode_slots v reason in
        let later = decode_children fs reason in if str_eq k "children" then this else later

    pub decode_slots : Json → String → Slots × String
    decode_slots (obj fs) reason = decode_slot_fields fs Slots.end reason
    decode_slots _ reason = (Slots.end, reason)

    pub decode_slot_fields : Fields → Slots → String → Slots × String
    decode_slot_fields end done reason = (done, reason)
    decode_slot_fields (field k v fs) done reason =
        let (ns, reason') = decode_nodes v reason in
        decode_slot_fields fs (add_slot k ns done) reason'

    pub decode_nodes : Json → String → Nodes × String
    decode_nodes (arr xs) reason = decode_items xs reason
    decode_nodes _ reason = (nil, reason)

    pub decode_items : Items → String → Nodes × String
    decode_items Items.nil reason = (nil, reason)
    decode_items (Items.cons v xs) reason =
        let (n, reason') = decode_node v reason in push_node n (decode_items xs reason')

  unfoldable pub decode_sequence : Json → Sequence
  decode_sequence sv =
      let (nodes, reason) = decode_nodes (get sv "nodes") "" in
      record {
        id = text_or_empty (get sv "id");
        name = text_or_empty (get sv "name");
        cooldown_ms = or_default (lib.as_uint (get sv "cooldownMs")) 60000;
        params = decode_params lib (as_items (get sv "params"));
        nodes = nodes;
        broken = not (str_eq reason "");
        broken_reason = reason;
      }

  unfoldable pub decode_sequences : Items → List Sequence
  decode_sequences Items.nil = []
  decode_sequences (Items.cons v xs) = decode_sequence v ∷ decode_sequences xs

  -- `decodeList(JsonVariantConst)`
  unfoldable pub decode_list : Json → List Sequence
  decode_list v = decode_sequences (as_items v)

  -- `decodeList(const char*)`
  unfoldable pub decode_list_text : String → List Sequence
  decode_list_text text = elim (lib.deserialize text) [ none ↦ [] | some doc ↦ decode_list doc ]

unfoldable mutual
  pub encode_node : Node → Json
  encode_node (node type params kids) = obj (
      field "type" (str type) (
        field "params" (if is_null params then obj end else params)
          (field "children" (obj (encode_slots kids)) end)))

  pub encode_slots : Slots → Fields
  encode_slots Slots.end = end
  encode_slots (slot k ns rest) = field k (arr (encode_nodes ns)) (encode_slots rest)

  pub encode_nodes : Nodes → Items
  encode_nodes nil = Items.nil
  encode_nodes (cons n ns) = Items.cons (encode_node n) (encode_nodes ns)

unfoldable pub encode_param : ParamDef → Json
encode_param p =
    let default = if is_null p.default_value then end else field "default" p.default_value end in
    let rest = field "required" (bool p.required) default in
    obj (
      field "key" (str p.key) (
        field "type" (str (field_type_name p.type)) (
          field "label" (str p.label) (
            if str_eq p.enum_values ""
            then rest
            else field "enumValues" (str p.enum_values) rest))))

unfoldable pub encode_params : List ParamDef → Items
encode_params [] = Items.nil
encode_params (p ∷ ps) = Items.cons (encode_param p) (encode_params ps)

unfoldable pub encode_sequence : Sequence → Json
encode_sequence s = obj (
    field "id" (str s.id) (
      field "name" (str s.name) (
        field "cooldownMs" (int (pos s.cooldown_ms)) (
          field "params" (arr (encode_params s.params))
            (field "nodes" (arr (encode_nodes s.nodes)) end)))))

unfoldable pub encode_sequences : List Sequence → Items
encode_sequences [] = Items.nil
encode_sequences (s ∷ ss) = Items.cons (encode_sequence s) (encode_sequences ss)

-- `encodeList`, before it is printed.
unfoldable pub encode_list : List Sequence → Json
encode_list ss = arr (encode_sequences ss)

module _ (lib : ArduinoJson) where
  unfoldable pub decode_trigger : Json → TriggerBinding
  decode_trigger tv = record {
    id = text_or_empty (get tv "id");
    type = text_or_empty (get tv "type");
    sequence_id = text_or_empty (get tv "sequenceId");
    enabled = bool_or (get tv "enabled") true;
    params = copied lib (member tv "params");
    args = get tv "args";
  }

  unfoldable pub decode_trigger_items : Items → List TriggerBinding
  decode_trigger_items Items.nil = []
  decode_trigger_items (Items.cons v xs) = decode_trigger v ∷ decode_trigger_items xs

  -- `decodeTriggers(JsonVariantConst)`
  unfoldable pub decode_triggers : Json → List TriggerBinding
  decode_triggers v = decode_trigger_items (as_items v)

  -- `decodeTriggers(const char*)`
  unfoldable pub decode_triggers_text : String → List TriggerBinding
  decode_triggers_text text = elim (lib.deserialize text) [
    | none ↦ []
    | some doc ↦ decode_triggers doc
  ]

unfoldable pub encode_trigger : TriggerBinding → Json
encode_trigger t = obj (
    field "id" (str t.id) (
      field "type" (str t.type) (
        field "sequenceId" (str t.sequence_id) (
          field "enabled" (bool t.enabled)
            (field "params" t.params (if is_null t.args then end else field "args" t.args end))))))

unfoldable pub encode_trigger_items : List TriggerBinding → Items
encode_trigger_items [] = Items.nil
encode_trigger_items (t ∷ ts) = Items.cons (encode_trigger t) (encode_trigger_items ts)

-- `encodeTriggers`, before it is printed.
unfoldable pub encode_triggers : List TriggerBinding → Json
encode_triggers ts = arr (encode_trigger_items ts)
