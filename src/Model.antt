-- ===== src/Model.antt =====
-- src/core/Schema.h, Sequence.h and ParamScope.h: schemas, nodes, sequences, bindings, scopes.
use esp32_sequencer.Base.{ℕ, Bool, Option, List, String}
use esp32_sequencer.Base.Map.{Map}
use esp32_sequencer.Json.{Json}

pub data FieldType : Type 0 where
  bool int string string_list mac_address enum predicate_ref : FieldType

pub record FieldDef : Type 0 where
  pub key : String
  pub type : FieldType
  pub label : String
  pub default_value : Option String
  pub enum_values : Option String
  pub required : Bool

pub record BlockSchema : Type 0 where
  pub type : String
  pub label : String
  pub category : String
  pub fields : List FieldDef
  pub child_slots : List String

pub record PredicateSchema : Type 0 where
  pub type : String
  pub label : String
  pub fields : List FieldDef

pub record TriggerSchema : Type 0 where
  pub type : String
  pub label : String
  pub fields : List FieldDef
  pub pauses_ble_scan : Bool

-- The map of a node's children is `Slots`, a list in the order of the keys.
mutual
  pub data Node : Type 0 where
    node : (type : String) (params : Json) (children : Slots) → Node

  pub data Nodes : Type 0 where
    nil : Nodes
    cons : Node → Nodes → Nodes

  pub data Slots : Type 0 where
    end : Slots
    slot : String → Nodes → Slots → Slots

pub record ParamDef : Type 0 where
  pub key : String
  pub type : FieldType
  pub label : String
  pub default_value : Json
  pub enum_values : String
  pub required : Bool

pub record Sequence : Type 0 where
  pub id : String
  pub name : String
  pub cooldown_ms : ℕ
  pub params : List ParamDef
  pub nodes : Nodes
  pub broken : Bool
  pub broken_reason : String

pub record TriggerBinding : Type 0 where
  pub id : String
  pub type : String
  pub params : Json
  pub sequence_id : String
  pub args : Json
  pub enabled : Bool

-- One activation frame's parameter values.
abbrev pub ParamScope : Type 0
ParamScope = Map Json
