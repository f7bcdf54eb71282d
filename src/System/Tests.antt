-- ===== src/System/Tests.antt =====
-- A small device through a deletion, another storing of its binding, and a restart (src/main.cpp,
-- src/ApiServer.cpp).
use esp32_sequencer.Base.{
  ℕ, zero, suc, Bool-cases, ◌<◌, ◌+◌, ◌^◌, String, ◌≡◌, refl, inl, inr, Bool, true, false, Option,
  none, some, [], ◌∷◌, ltb, map, str_eq, eq_iff, arith, if◌then◌else◌,
}
use mathlib.Core.Bool.{false≢true}
use esp32_sequencer.Base.Int.{pos, negsuc}
use esp32_sequencer.Base.Map.{Map, find, insert, find-insert}
use esp32_sequencer.Json.{
  Json, null, bool, int, str, arr, obj, Items, end, field, ArduinoJson, IsLawful, get, text_or,
}
use esp32_sequencer.Model.{Sequence, TriggerBinding, nil}
use esp32_sequencer.Codec.{
  decode_list_text, decode_triggers_text, encode_list, encode_sequences, encode_sequence,
  encode_triggers, encode_trigger_items, encode_trigger, decode_triggers, decode_trigger,
  decode_trigger_items, copied,
}
use esp32_sequencer.Codec.RoundTrip.{reread}
use esp32_sequencer.Store.{
  Persistence, validate, validate_from, mark, walk_nodes, visit, replace_all, assign_ids,
  load_sequences, load_triggers, find_by_id, replace_triggers,
}
use esp32_sequencer.Store.Reload.{PrintsBack}
use esp32_sequencer.Device.{Device}
use esp32_sequencer.Device.Boot.{powered, enter_runtime_mode}
use esp32_sequencer.Device.Tests.{board, registry, flash, device}
use esp32_sequencer.Api.{delete_sequence, put_triggers}
use esp32_sequencer.System.{here, next, sequence_deleted, triggers_put}
use esp32_sequencer.System.Started.{run_of-registered}
use esp32_sequencer.Interp.Known.{registered}
use esp32_sequencer.Interp.Tests.{test_lib}
use esp32_sequencer.Registry.{RunResult, Block, Registry, resolve_block}
use esp32_sequencer.Defaults.{leaf, example, default_sequences, default_triggers}
use esp32_sequencer.Device.{seed_defaults_if_empty}
use esp32_sequencer.Device.Runs.{run_of}
use esp32_sequencer.Triggers.{apply_bindings}
use esp32_sequencer.System.Saved.{Saved, Kept, Reach-Kept}
use esp32_sequencer.System.Restart.{enter_runtime_mode-Saved, enter_runtime_mode-Reach}

abbrev sequence : String → Sequence
sequence id = record {
  id = id;
  name = "x";
  cooldown_ms = 60000;
  params = [];
  nodes = nil;
  broken = false;
  broken_reason = "";
}

abbrev binding : TriggerBinding
binding = record {
  id = "t";
  type = "http-route";
  params = obj (field "path" (str "/play") end);
  sequence_id = "abc";
  args = null;
  enabled = true;
}

abbrev below : ℕ → Option ℕ
below n = if ltb n (2 ^ 32) then some n else none

abbrev as_uint : Json → Option ℕ
as_uint (int (pos n)) = below n
as_uint _ = none

below-lt : (n m : ℕ) → below n ≡ some m → m < 2 ^ 32
below-lt n m h = ground arith

as_uint-lt : (v : Json) (m : ℕ) → as_uint v ≡ some m → m < 2 ^ 32
as_uint-lt (int (pos n)) m h = below-lt n m h
as_uint-lt (int (negsuc n)) m h = cc
as_uint-lt null m h = cc
as_uint-lt (bool b) m h = cc
as_uint-lt (Json.float s) m h = cc
as_uint-lt (str s) m h = cc
as_uint-lt (arr xs) m h = cc
as_uint-lt (obj fs) m h = cc

abbrev first : Json → Json
first (arr (Items.cons v xs)) = v
first _ = null

-- A library that tells the device's bindings from its sequences.
abbrev pub lib : ArduinoJson
lib = record {
  as_bool = λ v. elim v [ bool b ↦ b | _ ↦ false ];
  as_int = λ v. elim v [ int z ↦ some z | _ ↦ none ];
  as_uint = as_uint;
  is_variant = λ o. elim o [ none ↦ false | some _ ↦ true ];
  serialize = λ v. if str_eq (text_or (get (first v) "type") "") "" then "S" else "T";
  deserialize = λ s.
      if str_eq s "S"
      then some (encode_list (sequence "abc" ∷ []))
      else some (encode_triggers (binding ∷ []));
}

pub lib-IsLawful : IsLawful lib
lib-IsLawful = record {
  as_bool-bool = λ b. refl;
  as_bool-null = refl;
  is_variant-none = refl;
  is_variant-some = λ v h. refl;
  as_int-int = λ z h. refl;
  as_uint-pos = λ n h. ground arith;
}

abbrev saved : Device ℕ (Map String) ℕ
saved = record device {
  sequences = sequence "abc" ∷ [];
  triggers = binding ∷ [];
  flash = ("sequences", "S") ∷ ("triggers", "T") ∷ [];
}

saved-Saved : Saved lib flash saved
unfolding find encode_list encode_sequences encode_sequence encode_triggers encode_trigger_items
    encode_trigger
saved-Saved = (refl, refl, ((omega arith, tt), tt))

abbrev rand : ℕ → ℕ × ℕ
rand g = (g, g)

abbrev known : String → Bool
known t = true

-- A flash whose texts end at 4000 characters, where a save of a longer one does nothing.
abbrev has_room : ℕ → String → Bool
has_room n String.[] = true
has_room zero (String.◌∷◌ c s) = false
has_room (suc n) (String.◌∷◌ c s) = has_room n s

abbrev small_flash : Persistence (Map String)
small_flash = record {
  load = flash.load;
  save = λ k s p. if has_room 4000 s then insert k s p else p;
  holds = has_room 4000;
  load-save = load_saved;
}
  where
    load_saved :
        (k s : String) (p : Map String)
        → has_room 4000 s ≡ true
        → flash.load k (if has_room 4000 s then insert k s p else p) ≡ s
    load_saved k s p h = rw h (flash.load-save k s p refl)

small_flash_apart :
    (j k s : String) (p : Map String)
    → str_eq k j ≡ false
    → small_flash.load j (small_flash.save k s p) ≡ small_flash.load j p
small_flash_apart j k s p h = elim (Bool-cases (has_room 4000 s)) [
  | inl e ↦ rw e (ground (arith, h, find-insert j k s p))
  | inr e ↦ rw e refl
]

saved-Kept : Kept lib small_flash saved
saved-Kept = (inr saved-Saved.0, inr saved-Saved.1, saved-Saved.2)

Reach-Kept_example :
    Kept lib small_flash (delete_sequence lib small_flash rand (some "abc") saved).1
Reach-Kept_example =
    Reach-Kept lib small_flash small_flash_apart rand known as_uint-lt board registry
      (next here (sequence_deleted (some "abc") saved)) saved-Kept

prints : PrintsBack lib (encode_list (sequence "abc" ∷ []))
unfolding encode_list encode_sequences encode_sequence
prints = ((λ p. false≢true ((eq_iff "S" "").1 p)), refl)

prints_triggers : PrintsBack lib (encode_triggers (binding ∷ []))
unfolding encode_triggers encode_trigger_items encode_trigger
prints_triggers = ((λ p. false≢true ((eq_iff "T" "").1 p)), refl)

abbrev restarted : Device ℕ (Map String) ℕ
restarted = enter_runtime_mode lib flash rand known (powered saved.flash 7 0)

enter_runtime_mode-Saved_example :
    (restarted.sequences ≡ validate lib (map (reread known) (sequence "abc" ∷ [])))
    × (restarted.triggers ≡ binding ∷ [])
    × Saved lib flash restarted
enter_runtime_mode-Saved_example =
    enter_runtime_mode-Saved lib flash rand known saved 7 0 lib-IsLawful as_uint-lt saved-Saved refl
      refl prints prints_triggers

-- The binding is stored again, which saves it, and the device restarts.
abbrev stored : Device ℕ (Map String) ℕ
stored = (put_triggers lib flash rand registry (encode_triggers (binding ∷ [])) saved).1

abbrev stored_again : Device ℕ (Map String) ℕ
stored_again = enter_runtime_mode lib flash rand known (powered stored.flash 7 0)

enter_runtime_mode-Reach_example :
    (stored_again.sequences ≡ validate lib (map (reread known) (sequence "abc" ∷ [])))
    × (stored_again.triggers ≡ binding ∷ [])
unfolding put_triggers encode_triggers encode_trigger_items encode_trigger decode_triggers
    decode_trigger decode_trigger_items replace_triggers apply_bindings copied
enter_runtime_mode-Reach_example =
    enter_runtime_mode-Reach lib flash rand known board registry saved stored 7 0
      (λ j k blob p h. ground (arith, h, find-insert j k blob p)) lib-IsLawful as_uint-lt
      saved-Saved (next here (triggers_put (encode_triggers (binding ∷ [])) saved)) refl refl refl
      refl prints prints_triggers

-- A device without a flash starts with the default sequence, over a registry with the block `wait`.
abbrev wait : Block ℕ
wait = record {
  schema = record { type = "wait"; label = ""; category = ""; fields = []; child_slots = [] };
  run = λ doc kids w. (RunResult.ok, w + 1);
}

abbrev waiting : Registry ℕ
waiting = record { blocks = ("wait", wait) ∷ []; predicates = []; triggers = [] }

abbrev with_wol : Registry ℕ
with_wol = record waiting { blocks = ("wait", wait) ∷ ("wol", wait) ∷ [] }

abbrev started : Device ℕ (Map String) ℕ
started = enter_runtime_mode test_lib flash rand (registered waiting) (powered [] 7 0)

run_of-registered_example :
    run_of board test_lib waiting 9 started example
    ≡ run_of board test_lib with_wol 9 started example
unfolding resolve_block find enter_runtime_mode powered load_sequences load_triggers
    decode_list_text decode_triggers_text validate validate_from mark walk_nodes visit
    seed_defaults_if_empty replace_all assign_ids default_sequences default_triggers leaf find_by_id
run_of-registered_example =
    run_of-registered test_lib flash rand board waiting 9 (powered [] 7 0) started "example" example
      (("wait", wait) ∷ ("wol", wait) ∷ []) refl here refl refl extends
  where
    extends :
        (t : String) (b : Block ℕ)
        → resolve_block t waiting ≡ some b
        → resolve_block t with_wol ≡ some b
    extends t b h = ground (arith, h)
