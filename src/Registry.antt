-- ===== src/Registry.antt =====
-- src/core/Block.h, Predicate.h, Trigger.h and Registry.{h,cpp}: what is registered, by type.
-- A block or a predicate is a function over the world `W` that the adapters act on (network, clock,
-- display, configuration).
pub mod Schema
use esp32_sequencer.Base.{Bool, Option, String}
use esp32_sequencer.Base.Map.{Map, find, insert}
use esp32_sequencer.Json.{Json}
use esp32_sequencer.Model.{BlockSchema, PredicateSchema, TriggerSchema, Slots}

pub data RunResult : Type 0 where
  ok : RunResult
  failed : String → RunResult

pub record Block (W : Type 0) : Type 0 where
  pub schema : BlockSchema
  pub run : Json → Slots → W → RunResult × W

pub record Predicate (W : Type 0) : Type 0 where
  pub schema : PredicateSchema
  pub test : Json → W → Bool × W

pub record Registry (W : Type 0) : Type 0 where
  pub blocks : Map (Block W)
  pub predicates : Map (Predicate W)
  pub triggers : Map TriggerSchema

module _ {W : Type 0} where
  unfoldable pub register_block : Block W → Registry W → Registry W
  register_block b r = record r { blocks = insert b.schema.type b r.blocks }

  unfoldable pub register_predicate : Predicate W → Registry W → Registry W
  register_predicate p r = record r { predicates = insert p.schema.type p r.predicates }

  unfoldable pub register_trigger : TriggerSchema → Registry W → Registry W
  register_trigger t r = record r { triggers = insert t.type t r.triggers }

  unfoldable pub resolve_block : String → Registry W → Option (Block W)
  resolve_block t r = find t r.blocks

  unfoldable pub resolve_predicate : String → Registry W → Option (Predicate W)
  resolve_predicate t r = find t r.predicates

  unfoldable pub resolve_trigger : String → Registry W → Option TriggerSchema
  resolve_trigger t r = find t r.triggers
