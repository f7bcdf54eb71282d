-- ===== src/System/Sound.antt =====
-- The types in the device's sequences, from the start of src/main.cpp on through the requests of
-- src/ApiServer.cpp.
use esp32_sequencer.Base.{ℕ, String, Bool, true, false, Option, none, some, List, [], ◌∷◌, All}
use esp32_sequencer.Json.{Json, arr, Items, ArduinoJson}
use esp32_sequencer.Model.{Sequence}
use esp32_sequencer.Registry.{Registry}
use esp32_sequencer.Codec.{decode_list}
use esp32_sequencer.Codec.Known.{IsSound, decode_list-IsSound}
use esp32_sequencer.Store.{Persistence, with_id, remove_by_id, upsert, replace_all}
use esp32_sequencer.Store.Order.{
  IsSound-Stable, validate-All, put-All, remove_by_id-All, with_id-Stable, replace_all-All,
}
use esp32_sequencer.Device.{Hardware, Device}
use esp32_sequencer.Api.{
  upsert_first, removed, post_run, post_run_json, put_sequences, put_sequence, delete_sequence,
  put_triggers,
}
use esp32_sequencer.System.{
  ble_hit, route_request, Step, sequences_put, sequence_put, sequence_deleted, triggers_put,
  run_posted, run_posted_json, hit, requested, looped, Reach, here, next,
}
use esp32_sequencer.System.Unchanged.{
  Unchanged, ble_hit-Unchanged, route_request-Unchanged, post_run-Unchanged,
  post_run_json-Unchanged, loop_step-Unchanged,
}

module _ {W P G : Type 0} (known : String → Bool) where
  -- Of the device's sequences, those that are not broken have known types only.
  abbrev pub AllSound : Device W P G → Type 0
  AllSound d = All (IsSound known) d.sequences

  Unchanged-AllSound : (d d' : Device W P G) → Unchanged d d' → AllSound d → AllSound d'
  Unchanged-AllSound d d' u h = rw (u.0) h

  module _ (lib : ArduinoJson) (persistence : Persistence P) (rand : G → ℕ × G) where
    removed-AllSound :
        (o : Bool × List Sequence) (d : Device W P G)
        → All (IsSound known) o.1
        → AllSound (removed lib persistence rand o d).1
    removed-AllSound (false, all) d h = h
    removed-AllSound (true, all) d h = h

    delete_sequence-AllSound :
        (id : Option String) (d : Device W P G)
        → AllSound d
        → AllSound (delete_sequence lib persistence rand id d).1
    unfolding delete_sequence
    delete_sequence-AllSound none d h = h
    delete_sequence-AllSound (some id) d h =
        removed-AllSound (remove_by_id lib id d.sequences) d
          (remove_by_id-All (IsSound known) (IsSound-Stable known) lib id d.sequences h)

    upsert_first-AllSound :
        (ss : List Sequence) (d : Device W P G)
        → All (IsSound known) ss
        → AllSound d
        → AllSound (upsert_first lib persistence rand ss d).1
    unfolding upsert
    upsert_first-AllSound [] d a h = h
    upsert_first-AllSound (s ∷ ss) d a h =
        validate-All (IsSound known) (IsSound-Stable known) lib _ (
          put-All (IsSound known) (IsSound-Stable known) (with_id rand s d.random).0 d.sequences
            (with_id-Stable (IsSound known) (IsSound-Stable known) rand s d.random a.0) h)

    put_sequence-AllSound :
        (json : Json) (d : Device W P G)
        → AllSound d
        → AllSound (put_sequence lib persistence rand known json d).1
    unfolding put_sequence
    put_sequence-AllSound json d h =
        upsert_first-AllSound _ d (decode_list-IsSound known lib (arr (Items.cons json Items.nil)))
          h

    put_sequences-AllSound :
        (json : Json) (d : Device W P G)
        → AllSound (put_sequences lib persistence rand known json d).1
    unfolding put_sequences
    put_sequences-AllSound json d =
        replace_all-All (IsSound known) (IsSound-Stable known) rand lib (decode_list lib known json)
          (replace_all lib rand [] d.random).1 (decode_list-IsSound known lib json)

    put_triggers-AllSound :
        (registry : Registry W) (json : Json) (d : Device W P G)
        → AllSound d
        → AllSound (put_triggers lib persistence rand registry json d).1
    unfolding put_triggers
    put_triggers-AllSound registry json d h = h

    Step-AllSound :
        (hw : Hardware W) (registry : Registry W) {d d' : Device W P G}
        → Step hw lib registry persistence rand known d d'
        → AllSound d
        → AllSound d'
    Step-AllSound hw registry (sequences_put json d) h = put_sequences-AllSound json d
    Step-AllSound hw registry (sequence_put json d) h = put_sequence-AllSound json d h
    Step-AllSound hw registry (sequence_deleted id d) h = delete_sequence-AllSound id d h
    Step-AllSound hw registry (triggers_put json d) h = put_triggers-AllSound registry json d h
    Step-AllSound hw registry (run_posted id d) h =
        Unchanged-AllSound d (post_run id d).1 (post_run-Unchanged id d) h
    Step-AllSound hw registry (run_posted_json id json d) h =
        Unchanged-AllSound d (post_run_json id json d).1 (post_run_json-Unchanged id json d) h
    Step-AllSound hw registry (hit now mac d) h =
        Unchanged-AllSound d (ble_hit now mac d) (ble_hit-Unchanged now mac d) h
    Step-AllSound hw registry (requested params id d) h =
        Unchanged-AllSound d (route_request params id d).1 (route_request-Unchanged params id d) h
    Step-AllSound hw registry (looped fuel d d' e) h =
        Unchanged-AllSound d d' (loop_step-Unchanged hw lib registry fuel d d' e) h

    -- From a device whose sequences that are not broken have known types only, requests, hits and
    -- rounds of the loop lead only to devices of which that holds.
    pub Reach-AllSound :
        (hw : Hardware W) (registry : Registry W) {d d' : Device W P G}
        → Reach hw lib registry persistence rand known d d'
        → AllSound d
        → AllSound d'
    Reach-AllSound hw registry here h = h
    Reach-AllSound hw registry (next r s) h =
        Step-AllSound hw registry s (Reach-AllSound hw registry r h)
