-- ===== src/Store/Tests.antt =====
-- Runs of src/core/SequenceStore.cpp and SequenceCodec.cpp after test/test_store and
-- test/test_codec, and the theorems about them at concrete data.
use esp32_sequencer.Base.{
  ℕ, String, ◌≡◌, refl, Bool, true, false, Option, none, some, [], ◌∷◌, map, str_eq, eq_iff,
  eq_refl, arith, ◌↔◌,
}
use mathlib.Core.Option
use mathlib.Core.Bool.{false≢true}
use esp32_sequencer.Base.Int.{pos, negsuc}
use esp32_sequencer.Base.Map.{Map, find, insert, find-insert}
use esp32_sequencer.Json.{Json, null, bool, int, str, obj, end, field, ArduinoJson, IsLawful}
use esp32_sequencer.Model.{Sequence, TriggerBinding, Node, node, Nodes, nil, cons, Slots, slot}
use esp32_sequencer.Codec.{decode_list, encode_list}
use esp32_sequencer.Codec.RoundTrip.{reread, decode_list-encode_list}
use esp32_sequencer.Store.{
  Persistence, find_by_id, put, mark, callees_in, validate, validate_from, upsert, remove_by_id,
  walk_node, visit, missing_arg,
}
use esp32_sequencer.Store.Validate.{NodesFit, mark-broken_iff}
use esp32_sequencer.Store.Lookup.{
  HasIdsOnce, upsert-find_by_id, upsert_keeps_broken, remove_by_id-find_by_id,
}

-- A library that parses one document, whatever the text.
abbrev lib_of : Json → ArduinoJson
lib_of doc = record {
  as_bool = λ v. elim v [ bool b ↦ b | _ ↦ false ];
  as_int = λ v. elim v [ int z ↦ some z | _ ↦ none ];
  as_uint = λ v. elim v [ int z ↦ (elim z [ pos n ↦ some n | negsuc n ↦ none ]) | _ ↦ none ];
  is_variant = λ o. elim o [ none ↦ false | some _ ↦ true ];
  serialize = λ _. "[{}]";
  deserialize = λ _. some doc;
}

lib_of-IsLawful : (doc : Json) → IsLawful (lib_of doc)
lib_of-IsLawful doc = record {
  as_bool-bool = λ b. refl;
  as_bool-null = refl;
  is_variant-none = refl;
  is_variant-some = λ v h. refl;
  as_int-int = λ z h. refl;
  as_uint-pos = λ n h. refl;
}

abbrev lib : ArduinoJson
lib = lib_of null

abbrev known : String → Bool
known t = str_eq t "wait"

abbrev wait : Node
wait = node "wait" (obj (field "ms" (int (pos 100)) end)) Slots.end

abbrev call_to : String → Node
call_to id = node "call-sequence" (obj (field "sequenceId" (str id) end)) Slots.end

abbrev sequence : String → Nodes → Sequence
sequence id ns = record {
  id = id;
  name = "x";
  cooldown_ms = 60000;
  params = [];
  nodes = ns;
  broken = false;
  broken_reason = "";
}

abbrev abc : Sequence
abc = sequence "abc" (cons (node "repeat" null (slot "body" (cons wait nil) Slots.end)) nil)

abbrev caller : Sequence
caller = sequence "caller" (cons (call_to "abc") nil)

decode_list-encode_list_example :
    decode_list lib known (encode_list (abc ∷ [])) ≡ map (reread known) (abc ∷ [])
decode_list-encode_list_example =
    decode_list-encode_list lib (lib_of-IsLawful null) known (abc ∷ [])
      ((omega arith, (((tt, tt), ((((tt, tt), tt), tt))), tt)), tt)

abbrev binding : TriggerBinding
binding = record {
  id = "t";
  type = "http-route";
  params = obj (field "path" (str "/play") end);
  sequence_id = "abc";
  args = null;
  enabled = true;
}

-- test/fakes/FakePersistence.h
abbrev or_empty : Option String → String
or_empty none = ""
or_empty (some s) = s

fake_law : (k blob : String) (p : Map String) → or_empty (find k (insert k blob p)) ≡ blob
fake_law k blob p = rw (find-insert k k blob p, eq_refl k)

abbrev fake : Persistence (Map String)
fake = record {
  load = λ k p. or_empty (find k p);
  save = insert;
  holds = λ blob. true;
  load-save = λ k blob p h. fake_law k blob p;
}

mark-broken_iff_example :
    ((mark lib (callees_in []) caller).broken ≡ false) ↔ NodesFit lib (callees_in []) caller.nodes
mark-broken_iff_example = mark-broken_iff lib (callees_in []) caller refl

abbrev zeros : ℕ → ℕ × ℕ
zeros g = (0, g)

upsert-find_by_id_example :
    (find_by_id "abc" (upsert lib zeros abc (caller ∷ []) 0).1
      ≡ Option.map (mark lib (callees_in (put abc (caller ∷ [])))) (some abc))
    × HasIdsOnce (upsert lib zeros abc (caller ∷ []) 0).1
unfolding find_by_id
upsert-find_by_id_example =
    upsert-find_by_id lib zeros abc (caller ∷ []) 0 "abc" (λ p. false≢true ((eq_iff "abc" "").1 p))
      (refl, tt)

remove_by_id-find_by_id_example :
    ((remove_by_id lib "abc" (caller ∷ abc ∷ [])).0 ≡ true)
    × (find_by_id "abc" (remove_by_id lib "abc" (caller ∷ abc ∷ [])).1 ≡ none)
    × HasIdsOnce (remove_by_id lib "abc" (caller ∷ abc ∷ [])).1
unfolding find_by_id
remove_by_id-find_by_id_example =
    remove_by_id-find_by_id lib "abc" "abc" (caller ∷ abc ∷ []) abc (refl, (refl, tt)) refl

-- A caller of a missing sequence is marked, and stays so when the sequence is added.
abbrev marked_caller : Sequence
marked_caller = record caller { broken = true; broken_reason = "unknown sequence: abc" }

marked_on_load : validate lib (caller ∷ []) ≡ marked_caller ∷ []
unfolding find_by_id mark callees_in validate validate_from walk_node visit missing_arg
marked_on_load = refl

upsert_keeps_broken_example :
    find_by_id "caller" (upsert lib zeros abc (marked_caller ∷ []) 0).1 ≡ some marked_caller
unfolding find_by_id
upsert_keeps_broken_example =
    upsert_keeps_broken lib zeros abc (marked_caller ∷ []) 0 "caller" marked_caller
      (λ p. false≢true ((eq_iff "abc" "").1 p)) (λ p. false≢true ((eq_iff "abc" "caller").1 p)) refl
      refl
