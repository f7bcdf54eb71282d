-- ===== src/Codec/RoundTrip.antt =====
-- Lists of sequences and of bindings there and back through src/core/SequenceCodec.cpp.
use esp32_sequencer.Base.{
  ◌<◌, ◌^◌, String, ◌≡◌, refl, Bool, not, List, [], ◌∷◌, map, some, arith, str_eq, eq_iff, All,
}
use esp32_sequencer.Json.{ArduinoJson, IsLawful}
use esp32_sequencer.Model.{FieldType, ParamDef, Sequence, TriggerBinding}
use esp32_sequencer.Codec.{
  parse_field_type, field_type_name, copied, decode_param, decode_params, decode_sequence,
  decode_sequences, decode_list, encode_param, encode_params, encode_sequence, encode_sequences,
  encode_list, decode_node, decode_trigger, decode_trigger_items, decode_triggers, encode_trigger,
  encode_trigger_items, encode_triggers,
}
use esp32_sequencer.Codec.Trees.{NodesOrdered, filled_nodes, blamed_nodes, decode-encode_nodes}

-- What a reader knows of a sequence: null parameters are objects, and it is broken if a block type
-- is unknown.
abbrev pub reread : (String → Bool) → Sequence → Sequence
reread known s =
    let reason = blamed_nodes known s.nodes "" in
    record s {
      nodes = filled_nodes s.nodes;
      broken = not (str_eq reason "");
      broken_reason = reason;
    }

-- A sequence whose numbers and maps are those of the source's types.
abbrev pub IsSequence : Sequence → Type 0
IsSequence s = (s.cooldown_ms < 2 ^ 32) × NodesOrdered s.nodes

field_type_lem : (t : FieldType) → parse_field_type (some (field_type_name t)) ≡ t
unfolding parse_field_type field_type_name
field_type_lem FieldType.bool = refl
field_type_lem FieldType.int = refl
field_type_lem FieldType.string = refl
field_type_lem FieldType.string_list = refl
field_type_lem FieldType.mac_address = refl
field_type_lem FieldType.enum = refl
field_type_lem FieldType.predicate_ref = refl

module _ (lib : ArduinoJson) (lawful : IsLawful lib) where
  decode-encode_param : (p : ParamDef) → decode_param lib (encode_param p) ≡ p
  unfolding decode_param encode_param
  decode-encode_param p =
      ground (arith, field_type_lem p.type, lawful.as_bool-bool p.required, eq_iff p.enum_values "")

  decode-encode_params : (ps : List ParamDef) → decode_params lib (encode_params ps) ≡ ps
  unfolding decode_params encode_params
  decode-encode_params [] = refl
  decode-encode_params (p ∷ ps) = rw (decode-encode_param p, decode-encode_params ps)

  decode-encode_sequence :
      (known : String → Bool) (s : Sequence)
      → IsSequence s
      → decode_sequence lib known (encode_sequence s) ≡ reread known s
  unfolding decode_sequence encode_sequence decode_node
  decode-encode_sequence known s h = rw (
    decode-encode_nodes lib lawful known s.nodes "" h.1,
    decode-encode_params s.params,
    lawful.as_uint-pos s.cooldown_ms h.0,
  )

  decode-encode_sequences :
      (known : String → Bool) (ss : List Sequence)
      → All IsSequence ss
      → decode_sequences lib known (encode_sequences ss) ≡ map (reread known) ss
  unfolding decode_sequences encode_sequences
  decode-encode_sequences known [] h = refl
  decode-encode_sequences known (s ∷ ss) h =
      rw (decode-encode_sequence known s h.0, decode-encode_sequences known ss h.1)

  -- With a library that reads values as documented, and for sequences whose cooldowns are 32-bit
  -- numbers and whose child slots are in the order of their keys, reading what was written gives
  -- the sequences back, with the marks that a reader makes: every
  -- field, parameter and node is kept, null parameters become `{}`, and a sequence is broken
  -- exactly if one of its nodes has a type that is not known, the first of these its reason.
  pub decode_list-encode_list :
      (known : String → Bool) (ss : List Sequence)
      → All IsSequence ss
      → decode_list lib known (encode_list ss) ≡ map (reread known) ss
  unfolding decode_list encode_list
  decode_list-encode_list known ss h = decode-encode_sequences known ss h

  decode-encode_trigger : (t : TriggerBinding) → decode_trigger lib (encode_trigger t) ≡ t
  unfolding decode_trigger encode_trigger copied
  decode-encode_trigger t = ground (arith, lawful.is_variant-some t.params)

  decode-encode_trigger_items :
      (ts : List TriggerBinding) → decode_trigger_items lib (encode_trigger_items ts) ≡ ts
  unfolding decode_trigger_items encode_trigger_items
  decode-encode_trigger_items [] = refl
  decode-encode_trigger_items (t ∷ ts) =
      rw (decode-encode_trigger t, decode-encode_trigger_items ts)

  -- With a library that reads values as documented, reading the bindings that were written gives the
  -- same bindings.
  pub decode_triggers-encode_triggers :
      (ts : List TriggerBinding) → decode_triggers lib (encode_triggers ts) ≡ ts
  unfolding decode_triggers encode_triggers
  decode_triggers-encode_triggers ts = decode-encode_trigger_items ts
