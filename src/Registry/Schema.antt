-- ===== src/Registry/Schema.antt =====
-- `dumpSchemaJson` (src/core/Registry.cpp): the registered schemas as a document.
use esp32_sequencer.Base.{String, Option, none, some, List, [], ◌∷◌}
use esp32_sequencer.Base.Map.{Map}
use esp32_sequencer.Json.{Json, bool, str, arr, obj, Items, Fields, end, field, ArduinoJson}
use esp32_sequencer.Model.{FieldType, FieldDef, TriggerSchema}
use esp32_sequencer.Registry.{Block, Predicate, Registry}

unfoldable pub schema_type_name : FieldType → String
schema_type_name FieldType.bool = "bool"
schema_type_name FieldType.int = "int"
schema_type_name FieldType.string = "string"
schema_type_name FieldType.string_list = "stringList"
schema_type_name FieldType.mac_address = "mac"
schema_type_name FieldType.enum = "enum"
schema_type_name FieldType.predicate_ref = "predicateRef"

-- A member that is written only where the pointer is not null.
abbrev pub optional : String → Option String → Fields → Fields
optional k none fs = fs
optional k (some s) fs = field k (str s) fs

unfoldable pub write_fields : List FieldDef → Items
write_fields [] = Items.nil
write_fields (f ∷ fs) =
    Items.cons
      (obj (
        field "key" (str f.key) (
          field "type" (str (schema_type_name f.type)) (
            field "label" (str f.label) (
              optional "default" f.default_value
                (optional "enum" f.enum_values (field "required" (bool f.required) end)))))))
      (write_fields fs)

abbrev pub slot_names : List String → Items
slot_names [] = Items.nil
slot_names (s ∷ ss) = Items.cons (str s) (slot_names ss)

unfoldable pub dump_triggers : Map TriggerSchema → Items
dump_triggers [] = Items.nil
dump_triggers ((k, t) ∷ m) =
    Items.cons
      (obj (
        field "type" (str t.type) (
          field "label" (str t.label) (
            field "pausesBleScan" (bool t.pauses_ble_scan)
              (field "fields" (arr (write_fields t.fields)) end)))))
      (dump_triggers m)

module _ {W : Type 0} where
  unfoldable pub dump_blocks : Map (Block W) → Items
  dump_blocks [] = Items.nil
  dump_blocks ((k, b) ∷ m) =
      Items.cons
        (obj (
          field "type" (str b.schema.type) (
            field "label" (str b.schema.label) (
              field "category" (str b.schema.category) (
                field "fields" (arr (write_fields b.schema.fields))
                  (field "childSlots" (arr (slot_names b.schema.child_slots)) end))))))
        (dump_blocks m)

  unfoldable pub dump_predicates : Map (Predicate W) → Items
  dump_predicates [] = Items.nil
  dump_predicates ((k, p) ∷ m) =
      Items.cons
        (obj (
          field "type" (str p.schema.type) (
            field "label" (str p.schema.label)
              (field "fields" (arr (write_fields p.schema.fields)) end))))
        (dump_predicates m)

  unfoldable pub dump_schema : Registry W → Json
  dump_schema r = obj (
      field "blocks" (arr (dump_blocks r.blocks)) (
        field "predicates" (arr (dump_predicates r.predicates))
          (field "triggers" (arr (dump_triggers r.triggers)) end)))

  -- `dumpSchemaJson`
  unfoldable pub dump_schema_json : ArduinoJson → Registry W → String
  dump_schema_json lib r = lib.serialize (dump_schema r)
