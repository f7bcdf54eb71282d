-- ===== src/Lib.antt =====
-- Verification of esp32-sequencer: a device that runs sequences of blocks when triggers fire.
--
-- A sequence is a tree of nodes with JSON parameters. The interpreter runs it, with one frame of
-- parameters and one entry of the call stack for each sequence that is active. The codec reads and
-- writes sequences and bindings, the stores keep them and check the calls between them, the trigger
-- manager binds triggers, and the main loop takes runs from a queue of one.
--
-- Base          what the parts share: tests, lists, maps, integers, decimal texts, results
-- Json          documents of ArduinoJson; what the library decides is the record `ArduinoJson`
-- Model         src/core/Schema.h, Sequence.h, ParamScope.h
-- Resolve       src/core/ResolveParams.cpp: `resolve` is resolveParams, `interpolate` its templates
-- Registry      src/core/Registry.cpp, Block.h, Predicate.h: registration and lookup by type;
--               Registry/Schema is dumpSchemaJson
-- Interp        src/core/Interpreter.cpp: run_sequence, run_slot, run_node are runSequence, runSlot,
--               runNode, whose branches are run_if, run_repeat, run_call and run_block
-- Codec         src/core/SequenceCodec.cpp: decode_list, encode_list and the same of the triggers
-- Store         src/core/SequenceStore.cpp, TriggerStore.cpp, Persistence.h; `validate` is
--               validateCallSequenceArgs, `visit` what it does at a node
-- Triggers      src/core/TriggerManager.cpp and src/adapters/triggers: apply_bindings, the BLE
--               trigger's on_hit, the HTTP route's handle
-- Query         src/adapters/triggers/QueryCoerce.cpp: coerce_query_args, parse_int_strict
-- Led           src/StatusLed.cpp
-- Wol           src/Wol.cpp: parse_mac, build_magic_packet
-- Blocks        src/adapters/blocks: wait, log, divider, repeat, if, wait-for-trigger, wol, and
--               sendBroadcast of src/Wol.cpp
-- Defaults      src/core/DefaultSequences.cpp
-- Device        src/main.cpp: the globals as a record, enqueue_run, seed_defaults_if_empty, and
--               loop_step with its branches
-- Settings      src/Config.cpp: load, save and the request for the setup mode; Settings/Form is
--               src/ConfigForm.cpp, Settings/Page its page, Settings/Setup src/SetupServer.cpp
-- Clock         millis() of the Arduino core on 32 bits, and the loops until a time is over
-- Net           src/NetworkManager.cpp: connect with its loop await_join
-- Tv            src/TvController.cpp: connect_with_retry, send_key, pump and the events
-- Scanner       src/BleScanner.cpp: looks_like_dualsense, on_result
-- Store/Nvs     src/adapters/persistence/NvsPersistence.cpp, which fills the stores' `Persistence`
-- Blocks/Wifi   src/adapters/blocks/WifiHopBlock.cpp and src/adapters/predicates
-- Blocks/Ws     src/adapters/blocks/WsSendBlock.cpp: parse_ws_url, the callback and the three loops
-- Blocks/Http   src/adapters/blocks/HttpRequestBlock.cpp: add_headers, method_of, status_result
-- Blocks/Samsung  src/adapters/blocks/SamsungTizenKeysBlock.cpp, over Tv and Settings
-- Device/Boot   setup, enterRuntimeMode and enterSetupMode of src/main.cpp, and its pages that
--               change the settings
-- System        the steps of a device that runs: a relation over the handlers, hits, routes and the
--               loop
-- Api           src/ApiServer.cpp: a function for each handler, from a device to a reply and a device
-- Web           the routes that src/main.cpp, src/ApiServer.cpp and the route trigger attach, and
--               `serve`: the handler that a request is given to, whether it gets its content, and
--               what it does
-- Program       what the files of src/adapters register before `setup`
-- Device/Requests  a run of src/main.cpp with requests that come in during its blocks and waits, of
--               which a log is kept
--
-- State is passed explicitly; errors are values of `Result` or of `RunResult`. Blocks, predicates,
-- waits and the hardware are functions over an abstract world, a parameter. The bindings' callbacks
-- are the runs that a handler returns. Times are 32-bit milliseconds that wrap.
--
-- Fuel: run_sequence takes fuel for nested calls only, each of which makes the call stack longer; at
-- eight entries the code refuses, so nine are enough from an empty stack. The loops of `repeat` and
-- over nodes are structural. The printing of a number takes fuel above the number. A loop that waits
-- takes fuel for a round each millisecond: a round takes some time, and never 2 ^ 30 ms, so that the
-- 32-bit difference of two times is the time that passed.
--
-- Interfaces: the stores take a `Persistence`, which Store/Nvs fills from the `Preferences` of
-- Settings; the loops take a `Clock`, and the theorems about them `IsClock`; the Arduino and network
-- libraries are the records Radio, Socket, WsClient, HttpClient and Hardware. The web server is the
-- record `Server`, and `IsServer` what it documents: handlers are asked in the order in which they are
-- attached, and a JSON handler answers 413 or 400 itself where the content is too long or no JSON.
-- A `Persistence` is sure to hold only some texts (`holds`): the strings of the flash have a limit, and
-- the code does not look at the answer of a save.
--
-- Not modelled: the pages of the editor, which are generated; the radio, socket, HTTP, Bluetooth and
-- flash libraries, which are parameters; the access point and its name server; and requests during
-- a run that change the sequences, the bindings or the settings (requests for runs that come in during
-- a run are in Device/Requests).
pub mod Base
pub mod Json
pub mod Model
pub mod Resolve
pub mod Registry
pub mod Interp
pub mod Codec
pub mod Store
pub mod Led
pub mod Query
pub mod Wol
pub mod Triggers
pub mod Defaults
pub mod Device
pub mod Api
pub mod Blocks
pub mod Settings
pub mod Clock
pub mod Net
pub mod Tv
pub mod Scanner
pub mod System
pub mod Web
pub mod Program
