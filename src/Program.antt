-- ===== src/Program.antt =====
-- What the program registers before `setup`: a static object `_reg` in each file of
-- src/adapters/blocks, src/adapters/predicates and src/adapters/triggers. The order in which the
-- objects of different files are made is not determined.
pub mod Order
pub mod Demo
pub mod Tests
use esp32_sequencer.Base.{String, Bool, true, false, Option, none, some, List, [], ◌∷◌}
use esp32_sequencer.Json.{Json, ArduinoJson}
use esp32_sequencer.Model.{FieldType, BlockSchema, TriggerSchema}
use esp32_sequencer.Registry.{
  RunResult, Block, Predicate, Registry, register_block, register_predicate, register_trigger,
}
use esp32_sequencer.Blocks.{
  Board, field_def, divider_block, repeat_block, if_block, wait_for_trigger_block, log_block,
  wait_block, wol_block,
}
use esp32_sequencer.Blocks.Wifi.{wifi_hop_schema, on_wifi_schema, host_reachable_schema}
use esp32_sequencer.Blocks.Ws.{ws_send_schema}
use esp32_sequencer.Blocks.Http.{http_request_schema}
use esp32_sequencer.Blocks.Samsung.{samsung_schema}

-- `SCH` of BleMacTrigger.cpp and of HttpRouteTrigger.cpp.
unfoldable pub ble_mac_schema : TriggerSchema
ble_mac_schema = record {
  type = "ble-mac";
  label = "BLE MAC detected";
  fields =
      field_def "mac" FieldType.mac_address "Device MAC" none none true
      ∷ field_def "cooldown_ms" FieldType.int "Cooldown (ms)" (some "60000") none false
      ∷ [];
  pauses_ble_scan = true;
}

unfoldable pub http_route_schema : TriggerSchema
http_route_schema = record {
  type = "http-route";
  label = "HTTP route";
  fields = field_def "path" FieldType.string "HTTP path (e.g. /play)" (some "/play") none true ∷ [];
  pauses_ble_scan = true;
}

-- The runs of the blocks that use the network, and the predicates' tests, over one world.
pub record Network (W : Type 0) : Type 0 where
  pub http_request : Json → W → RunResult × W
  pub ws_send : Json → W → RunResult × W
  pub wifi_hop : Json → W → RunResult × W
  pub samsung_key : Json → W → RunResult × W
  pub on_wifi : Json → W → Bool × W
  pub host_reachable : Json → W → Bool × W

module _ {W : Type 0} where
  abbrev pub network_block : BlockSchema → (Json → W → RunResult × W) → Block W
  network_block schema run = record { schema = schema; run = λ params kids w. run params w }

  -- The blocks of src/adapters/blocks.
  unfoldable pub blocks : ArduinoJson → Board W → Network W → List (Block W)
  blocks lib board net =
      divider_block
      ∷ network_block http_request_schema net.http_request
      ∷ if_block
      ∷ log_block board
      ∷ repeat_block
      ∷ network_block samsung_schema net.samsung_key
      ∷ wait_block board lib
      ∷ wait_for_trigger_block board
      ∷ network_block wifi_hop_schema net.wifi_hop
      ∷ wol_block board
      ∷ network_block ws_send_schema net.ws_send
      ∷ []

  -- The predicates of src/adapters/predicates.
  unfoldable pub predicates : Network W → List (Predicate W)
  predicates net =
      record { schema = host_reachable_schema; test = net.host_reachable }
      ∷ record { schema = on_wifi_schema; test = net.on_wifi }
      ∷ []

  abbrev pub empty_registry : Registry W
  empty_registry = record { blocks = []; predicates = []; triggers = [] }

  -- The constructors of the objects `_reg` in an order.
  unfoldable pub register_blocks : List (Block W) → Registry W → Registry W
  register_blocks [] r = r
  register_blocks (b ∷ bs) r = register_blocks bs (register_block b r)

  unfoldable pub register_predicates : List (Predicate W) → Registry W → Registry W
  register_predicates [] r = r
  register_predicates (p ∷ ps) r = register_predicates ps (register_predicate p r)

  -- The registry as `setup` finds it.
  unfoldable pub program_registry : ArduinoJson → Board W → Network W → Registry W
  program_registry lib board net = register_trigger http_route_schema (
      register_trigger ble_mac_schema (
        register_predicates (predicates net)
          (register_blocks (blocks lib board net) empty_registry)))
