-- ===== src/Api/Storing.antt =====
-- Requests of src/ApiServer.cpp one after the other.
use esp32_sequencer.Base.{
  ℕ, String, ◌≡◌, refl, ◌∙◌, ap, inl, inr, Bool, true, false, none, some, List, Option-cases,
  eq_refl, if◌then◌else◌,
}
use mathlib.Core.Option
use esp32_sequencer.Json.{Json, ArduinoJson}
use esp32_sequencer.Model.{Sequence}
use esp32_sequencer.Store.{Persistence, find_by_id, remove_by_id, mark, callees_in, erase_by_id}
use esp32_sequencer.Store.Lookup.{HasIdsOnce, remove_by_id-find_by_id}
use esp32_sequencer.Device.{Device}
use esp32_sequencer.Api.{queue_id, removed, unknown_sequence, delete_sequence, post_run_json}

remove_by_id_gone :
    (lib : ArduinoJson) (id : String) (all : List Sequence)
    → HasIdsOnce all
    → find_by_id id (remove_by_id lib id all).1 ≡ none
unfolding remove_by_id
remove_by_id_gone lib id all once = elim (Option-cases (find_by_id id all)) [
  | inl absent ↦ rw (absent, remove_by_id) absent
  | inr found ↦
      (remove_by_id-find_by_id lib id id all found.0 once found.1).1
      ∙ ap
          (λ b.
            Option.map (mark lib (callees_in (erase_by_id id all)))
              (if b then none else find_by_id id all))
          (eq_refl id)
]

module _ {W P G : Type 0} (lib : ArduinoJson) (persistence : Persistence P) (rand : G → ℕ × G) where
  queue_id-removed :
      (id : String) (args : Json) (r : Bool × List Sequence) (d : Device W P G)
      → find_by_id id r.1 ≡ none
      → (queue_id (some id) args (removed lib persistence rand r d).1).0 ≡ unknown_sequence
  queue_id-removed id args (false, all) d gone = rw gone refl
  queue_id-removed id args (true, all) d gone = rw gone refl

  -- Where ids stand once in the store, a run of a sequence that was just deleted is refused as of an
  -- unknown sequence.
  pub post_run_json-delete_sequence :
      (id : String) (json : Json) (d : Device W P G)
      → HasIdsOnce d.sequences
      → (post_run_json (some id) json (delete_sequence lib persistence rand (some id) d).1).0
        ≡ unknown_sequence
  unfolding post_run_json delete_sequence
  post_run_json-delete_sequence id json d once =
      queue_id-removed id _ (remove_by_id lib id d.sequences) d
        (remove_by_id_gone lib id d.sequences once)
