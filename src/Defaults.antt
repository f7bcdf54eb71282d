-- ===== src/Defaults.antt =====
-- src/core/DefaultSequences.{h,cpp}: what a device without sequences or bindings is given.
use esp32_sequencer.Base.{String, true, false, List, [], ◌∷◌}
use esp32_sequencer.Base.Int.{pos}
use esp32_sequencer.Json.{null, int, str, obj, Fields, end, field}
use esp32_sequencer.Model.{Sequence, TriggerBinding, Node, node, nil, cons, Slots, slot}

unfoldable pub leaf : String → Fields → Node
leaf type params = node type (obj params) Slots.end

abbrev pub example : Sequence
example = record {
  id = "example";
  name = "Example sequence";
  cooldown_ms = 30000;
  params = [];
  nodes = cons (leaf "divider" (field "text" (str "Demo — edit, delete, or build your own") end)) (
      cons (leaf "wait" (field "ms" (int (pos 500)) (field "_label" (str "Pause briefly") end))) (
        cons
          (node "repeat"
            (obj (
              field "count" (int (pos 3)) (
                field "interval_ms" (int (pos 250))
                  (field "_label" (str "Three short pulses, 250ms apart") end))))
            (slot "body" (cons (leaf "wait" (field "ms" (int (pos 50)) end)) nil) Slots.end))
          (cons
            (leaf "divider" (
              field "text" (str "Add real blocks (wol, wifi-hop, samsung-key, …) to drive hardware")
                end))
            nil)));
  broken = false;
  broken_reason = "";
}

abbrev default_trigger : TriggerBinding
default_trigger = record {
  id = "default-trigger";
  type = "http-route";
  params = obj (field "path" (str "/trigger") end);
  sequence_id = "example";
  args = null;
  enabled = true;
}

-- `buildDefaults`: the sequences and the bindings of its result.
unfoldable pub default_sequences : List Sequence
default_sequences = example ∷ []

unfoldable pub default_triggers : List TriggerBinding
default_triggers = default_trigger ∷ []
