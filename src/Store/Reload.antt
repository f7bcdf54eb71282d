-- ===== src/Store/Reload.antt =====
-- A restart: what src/core/SequenceStore.cpp and TriggerStore.cpp load after a save.
use esp32_sequencer.Base.{
  String, ◌≡◌, ◌≢◌, Bool, some, List, map, All, true, str_eq, eq_iff, arith, if◌then◌else◌,
}
use esp32_sequencer.Json.{Json, ArduinoJson, IsLawful}
use esp32_sequencer.Model.{Sequence, TriggerBinding}
use esp32_sequencer.Codec.{encode_list, encode_triggers, decode_list_text, decode_triggers_text}
use esp32_sequencer.Codec.RoundTrip.{
  reread, IsSequence, decode_list-encode_list, decode_triggers-encode_triggers,
}
use esp32_sequencer.Store.{
  Persistence, validate, load_sequences, save_sequences, load_triggers, save_triggers,
}

-- The library prints the document as a text that it parses back.
abbrev pub PrintsBack : ArduinoJson → Json → Type 0
PrintsBack lib doc = (lib.serialize doc ≢ "") × (lib.deserialize (lib.serialize doc) ≡ some doc)

not_empty_blob : (blob : String) → blob ≢ "" → (if str_eq blob "" then "[]" else blob) ≡ blob
not_empty_blob blob h = ground (arith, eq_iff blob "")

module _ (lib : ArduinoJson) (lawful : IsLawful lib) {P : Type 0}
    (persistence : Persistence P) where
  -- What is loaded where the flash holds the text of some sequences, or of some bindings.
  pub load_sequences_lem :
      (known : String → Bool) (ss : List Sequence) (p : P)
      → persistence.load "sequences" p ≡ lib.serialize (encode_list ss)
      → All IsSequence ss
      → PrintsBack lib (encode_list ss)
      → load_sequences lib persistence known p ≡ validate lib (map (reread known) ss)
  unfolding load_sequences decode_list_text
  load_sequences_lem known ss p held whole prints = rw (
    held,
    not_empty_blob (lib.serialize (encode_list ss)) prints.0,
    prints.1,
    decode_list_text,
    decode_list-encode_list lib lawful known ss whole,
  )

  pub load_triggers_lem :
      (ts : List TriggerBinding) (p : P)
      → persistence.load "triggers" p ≡ lib.serialize (encode_triggers ts)
      → PrintsBack lib (encode_triggers ts)
      → load_triggers lib persistence p ≡ ts
  unfolding load_triggers decode_triggers_text
  load_triggers_lem ts p held prints =
      rw
        (
          held,
          not_empty_blob (lib.serialize (encode_triggers ts)) prints.0,
          prints.1,
          decode_triggers_text,
        )
        (decode_triggers-encode_triggers lib lawful ts)

  -- Where the library parses the text that it printed of the sequences, and that text is not empty
  -- and fits in the storage, after a save and a restart the store holds the sequences, if their cooldowns are 32-bit
  -- numbers and their child slots in the order of their keys, as a reader of them sees them, marked
  -- by the validation.
  pub load_sequences-save_sequences :
      (known : String → Bool) (ss : List Sequence) (p : P)
      → persistence.holds (lib.serialize (encode_list ss)) ≡ true
      → All IsSequence ss
      → PrintsBack lib (encode_list ss)
      → load_sequences lib persistence known (save_sequences lib persistence ss p)
        ≡ validate lib (map (reread known) ss)
  unfolding save_sequences
  load_sequences-save_sequences known ss p fits =
      load_sequences_lem known ss (save_sequences lib persistence ss p)
        (persistence.load-save "sequences" (lib.serialize (encode_list ss)) p fits)

  -- Where the library parses the text that it printed of the bindings, and that text is not empty
  -- and fits in the storage, after a save and a restart the bindings are those that were saved.
  pub load_triggers-save_triggers :
      (ts : List TriggerBinding) (p : P)
      → persistence.holds (lib.serialize (encode_triggers ts)) ≡ true
      → PrintsBack lib (encode_triggers ts)
      → load_triggers lib persistence (save_triggers lib persistence ts p) ≡ ts
  unfolding save_triggers
  load_triggers-save_triggers ts p fits =
      load_triggers_lem ts (save_triggers lib persistence ts p)
        (persistence.load-save "triggers" (lib.serialize (encode_triggers ts)) p fits)
