-- ===== src/Blocks.antt =====
-- src/adapters/blocks: the blocks of the flow and Wake-on-LAN, over a world of clock, console and UDP.
pub mod Text
pub mod Wifi
pub mod Hop
pub mod Ws
pub mod Http
pub mod Samsung
pub mod Wake
use Prim.Native.Char.{code}
use Prim.Native.String
use Prim.Native.String.{◌++◌ as cat}
use esp32_sequencer.Base.{
  ℕ, zero, suc, String, Bool, true, false, Option, none, some, List, [], ◌∷◌, ◌==◌, ◌||◌, str_eq,
  if◌then◌else◌,
}
use esp32_sequencer.Base.Int.{pos, to_uint32}
use esp32_sequencer.Json.{Json, ArduinoJson, as_text, text_or_empty, text_or, get, or_default}
use esp32_sequencer.Model.{FieldType, FieldDef, BlockSchema, Slots}
use esp32_sequencer.Registry.{RunResult, failed, Block}
use esp32_sequencer.Wol.{at, parse_mac, build_magic_packet}
use esp32_sequencer.Query.{codes}

-- What the blocks call: `delay`, a line on `Serial`, and `sendOne` to the global or the subnet broadcast.
pub record Board (W : Type 0) : Type 0 where
  pub delay : ℕ → W → W
  pub print : String → W → W
  pub send_one : (ℕ → ℕ) → Bool → ℕ → W → Bool × W

abbrev pub field_def : String → FieldType → String → Option String → Option String → Bool → FieldDef
field_def k t l d e r = record {
  key = k;
  type = t;
  label = l;
  default_value = d;
  enum_values = e;
  required = r;
}

abbrev pub flow : String → String → List FieldDef → List String → BlockSchema
flow t l fs slots = record {
  type = t;
  label = l;
  category = "Flow";
  fields = fs;
  child_slots = slots;
}

module _ {W : Type 0} where
  -- A block that the interpreter never calls, since it runs its type itself.
  abbrev pub intrinsic : BlockSchema → Block W
  intrinsic s = record { schema = s; run = λ params kids w. (RunResult.ok, w) }

  unfoldable pub divider_block : Block W
  divider_block = intrinsic (
      flow "divider" "Divider"
        (field_def "text" FieldType.string "Caption" (some "—") none false ∷ []) [])

  unfoldable pub repeat_block : Block W
  repeat_block = intrinsic (
      flow "repeat" "Repeat"
        (field_def "count" FieldType.int "Iterations" (some "1") none true
          ∷ field_def "interval_ms" FieldType.int "Wait between iterations (ms)" (some "0") none
              false
          ∷ [])
        ("body" ∷ []))

  unfoldable pub if_block : Block W
  if_block = intrinsic (
      flow "if" "If" (field_def "predicate" FieldType.predicate_ref "Condition" none none true ∷ [])
        ("then" ∷ "else" ∷ []))

  module _ (board : Board W) where
    unfoldable pub wait_for_trigger_block : Block W
    wait_for_trigger_block = record {
      schema = flow "wait-for-trigger" "Wait for trigger (no-op in v1)" [] [];
      run = λ params kids w. (RunResult.ok, board.print "[seq] wait-for-trigger: noop in v1" w);
    }

    unfoldable pub log_block : Block W
    log_block = record {
      schema =
          flow "log" "Log message"
            (field_def "text" FieldType.string "Message" (some "") none true
              ∷ field_def "level" FieldType.enum "Level" (some "info") (some "info,warn,error")
                  false
              ∷ [])
            [];
      run = λ params kids w. (
        RunResult.ok,
        board.print
            (cat "[seq:" (
              cat (text_or (get params "level") "info")
                (cat "] " (text_or_empty (get params "text")))))
            w,
      );
    }

    abbrev pub waited : ℕ → W → W
    waited ms w = if ms == 0 then w else board.delay ms w

    unfoldable pub wait_block : ArduinoJson → Block W
    wait_block lib = record {
      schema =
          flow "wait" "Wait"
            (field_def "ms" FieldType.int "Milliseconds" (some "1000") none true ∷ []) [];
      run = λ params kids w.
          (RunResult.ok, waited (to_uint32 (or_default (lib.as_int (get params "ms")) (pos 0))) w);
    }

    -- The four sends of a round: the global broadcast, then the subnet's, each to ports 9 and 7.
    unfoldable pub send_round : (ℕ → ℕ) → W → Bool × W
    send_round pkt w =
        let (a, w1) = board.send_one pkt true 9 w in
        let (b, w2) = board.send_one pkt true 7 w1 in
        let (c, w3) = board.send_one pkt false 9 w2 in
        let (d, w4) = board.send_one pkt false 7 w3 in (a || b || c || d, board.delay 150 w4)

    unfoldable pub send_rounds : ℕ → (ℕ → ℕ) → W → Bool × W
    send_rounds zero pkt w = (false, w)
    send_rounds (suc n) pkt w =
        let (a, w1) = send_round pkt w in let (b, w2) = send_rounds n pkt w1 in (a || b, w2)

    abbrev pub send_parsed : Option (List ℕ) → W → Bool × W
    send_parsed none w = (false, w)
    send_parsed (some mac) w = send_rounds 5 (build_magic_packet (at mac) (λ k. 0)) w

    -- `Wol::sendBroadcast`
    unfoldable pub send_broadcast : String → W → Bool × W
    send_broadcast mac w = send_parsed (parse_mac (codes mac)) w

    abbrev pub sent : Bool × W → RunResult × W
    sent (true, w) = (RunResult.ok, w)
    sent (false, w) = (failed "wol: send failed", w)

    abbrev pub wake : Option String → W → RunResult × W
    wake none w = (failed "wol: missing mac", w)
    wake (some mac) w =
        if str_eq mac "" then (failed "wol: missing mac", w) else sent (send_broadcast mac w)

    unfoldable pub wol_block : Block W
    wol_block = record {
      schema = record {
        type = "wol";
        label = "Wake-on-LAN";
        category = "Network";
        fields = field_def "mac" FieldType.mac_address "Target MAC" none none true ∷ [];
        child_slots = [];
      };
      run = λ params kids w. wake (as_text (get params "mac")) w;
    }
