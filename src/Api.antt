-- ===== src/Api.antt =====
-- src/ApiServer.{h,cpp}: the handlers of `registerRoutes`, over the device. A request's `id` is
-- `none` where it has no such parameter; the hook of a run is `enqueueRun` (src/main.cpp).
pub mod Running
pub mod Storing
pub mod Tests
use Prim.Native.String.{◌++◌ as cat}
use esp32_sequencer.Base.{
  ℕ, String, Bool, true, false, Option, none, some, List, [], ◌∷◌, if◌then◌else◌,
}
use esp32_sequencer.Json.{Json, null, arr, Items, ArduinoJson, get}
use esp32_sequencer.Model.{Sequence, TriggerBinding}
use esp32_sequencer.Registry.{Registry}
use esp32_sequencer.Registry.Schema.{dump_schema_json}
use esp32_sequencer.Codec.{decode_list, encode_list, decode_triggers, encode_triggers}
use esp32_sequencer.Store.{
  Persistence, find_by_id, upsert, remove_by_id, save_sequences, replace_all,
}
use esp32_sequencer.Triggers.{adapters, apply_bindings, Reply}
use esp32_sequencer.Device.{Device, enqueue_run, status_json, store_sequences, store_triggers}

abbrev pub ok_body : String
ok_body = "{\"status\":\"ok\"}"

abbrev pub missing_id : Reply
missing_id = (400, "{\"error\":\"missing id\"}")

abbrev pub unknown_sequence : Reply
unknown_sequence = (404, "{\"error\":\"unknown sequence\"}")

abbrev pub broken_sequence : Reply
broken_sequence = (422, "{\"error\":\"sequence is broken\"}")

-- GET /api/schema
unfoldable pub get_schema : {W : Type 0} → ArduinoJson → Registry W → Reply
get_schema lib registry = (200, dump_schema_json lib registry)

module _ {W P G : Type 0} where
  abbrev pub queue_found : Option Sequence → Json → Device W P G → Reply × Device W P G
  queue_found none args d = (unknown_sequence, d)
  queue_found (some s) args d =
      if s.broken
      then (broken_sequence, d)
      else ((200, "{\"status\":\"queued\"}"), enqueue_run s.id args d)

  abbrev pub queue_id : Option String → Json → Device W P G → Reply × Device W P G
  queue_id none args d = (missing_id, d)
  queue_id (some id) args d = queue_found (find_by_id id d.sequences) args d

  -- POST /api/run without a body, and with one.
  unfoldable pub post_run : Option String → Device W P G → Reply × Device W P G
  post_run id d = queue_id id null d

  unfoldable pub post_run_json : Option String → Json → Device W P G → Reply × Device W P G
  post_run_json id json d = queue_id id (get json "args") d

  module _ (lib : ArduinoJson) where
    -- GET /api/status
    unfoldable pub get_status : Device W P G → Reply
    get_status d = (200, status_json lib d)

    -- GET /api/sequences and GET /api/triggers.
    unfoldable pub get_sequences : Device W P G → Reply
    get_sequences d = (200, lib.serialize (encode_list d.sequences))

    unfoldable pub get_triggers : Device W P G → Reply
    get_triggers d = (200, lib.serialize (encode_triggers d.triggers))

    module _ (persistence : Persistence P) (rand : G → ℕ × G) where
      -- PUT /api/sequences; the list is emptied first.
      unfoldable pub put_sequences : (String → Bool) → Json → Device W P G → Reply × Device W P G
      put_sequences known json d =
          let (_, g) = replace_all lib rand [] d.random in
          (
            (200, ok_body),
            store_sequences lib persistence rand (decode_list lib known json)
                (record d { sequences = []; random = g }),
          )

      abbrev pub upsert_first : List Sequence → Device W P G → Reply × Device W P G
      upsert_first [] d = ((400, "{\"error\":\"invalid sequence\"}"), d)
      upsert_first (s ∷ ss) d =
          let (id, all, g) = upsert lib rand s d.sequences d.random in
          (
            (200, cat "{\"status\":\"ok\",\"id\":\"" (cat id "\"}")),
            record d {
              sequences = all;
              random = g;
              flash = save_sequences lib persistence all d.flash;
            },
          )

      -- PUT /api/sequence: the decoder reads a list of the one object.
      unfoldable pub put_sequence : (String → Bool) → Json → Device W P G → Reply × Device W P G
      put_sequence known json d =
          upsert_first (decode_list lib known (arr (Items.cons json Items.nil))) d

      abbrev pub removed : Bool × List Sequence → Device W P G → Reply × Device W P G
      removed (false, all) d = (unknown_sequence, record d { sequences = all })
      removed (true, all) d = (
        (200, ok_body),
        record d { sequences = all; flash = save_sequences lib persistence all d.flash },
      )

      -- DELETE /api/sequence
      unfoldable pub delete_sequence : Option String → Device W P G → Reply × Device W P G
      delete_sequence none d = (missing_id, d)
      delete_sequence (some id) d = removed (remove_by_id lib id d.sequences) d

      -- PUT /api/triggers; the new bindings are applied.
      unfoldable pub put_triggers : Registry W → Json → Device W P G → Reply × Device W P G
      put_triggers registry json d =
          let d' = store_triggers lib persistence rand (decode_triggers lib json) d in
          (
            (200, ok_body),
            record d' { manager = apply_bindings registry (adapters lib) d'.triggers d'.manager },
          )
