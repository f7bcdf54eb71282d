-- ===== src/Blocks/Samsung/Tests.antt =====
-- A television that answers at once (src/adapters/blocks/SamsungTizenKeysBlock.cpp).
use esp32_sequencer.Base.{ℕ, suc, refl, true, some, [], ◌∷◌, arith}
use esp32_sequencer.Base.Int.{pos}
use esp32_sequencer.Json.{Json, int, str, obj, field, end, ArduinoJson}
use esp32_sequencer.Clock.Tests.{clock, ticking}
use esp32_sequencer.Clock.Ends.{Gives}
use esp32_sequencer.Settings.Tests.{Flash, prefs, blank, home}
use esp32_sequencer.Interp.Tests.{test_lib}
use esp32_sequencer.Tv.{Event, Socket}
use esp32_sequencer.Blocks.Samsung.{Remote, run_samsung_key}
use esp32_sequencer.Blocks.Samsung.Session.{After, run_samsung_key-After}

-- The one text that the television sends.
abbrev lib : ArduinoJson
lib = record test_lib {
  deserialize = λ _. some (
      obj (
        field "event" (str "ms.channel.connect")
          (field "data" (obj (field "token" (str "42") end)) end)));
}

abbrev socket : Socket ℕ
socket = record {
  probe = λ ip port w. (true, w);
  begin_ssl = λ ip port path w. w;
  loop = λ w. (Event.message "{}" ∷ [], w);
  send_text = λ s w. (true, w);
  disconnect = λ w. w;
  encoded_name = "RVNQMzI=";
}

-- A session with another television.
abbrev session : Remote (Flash) ℕ
session = record {
  line = record {
    tv = record { ip = "10.0.0.7"; token = ""; connected = true };
    client = (home, blank);
    world = 0;
  };
  tv_ip = "10.0.0.7";
  tv_last_ms = 0;
}

abbrev params : Json
params = obj (
    field "ip" (str "10.0.0.8")
      (field "key" (str "KEY_POWER") (field "connect_timeout_ms" (int (pos 5000)) end)))

run_samsung_key-After_example :
    Gives (After "10.0.0.8") (run_samsung_key lib prefs clock socket (suc 5000) params session)
run_samsung_key-After_example =
    run_samsung_key-After lib prefs clock ticking socket
      (record {
        probe_takes = λ ip port w. (omega arith, omega arith);
        begin_takes = λ ip port path w. (omega arith, omega arith);
        loop_takes = λ w. (omega arith, omega arith);
      })
      5000 (omega arith) params "10.0.0.8" session refl (omega arith) (omega arith) (λ _. refl)
