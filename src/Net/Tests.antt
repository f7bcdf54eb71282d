-- ===== src/Net/Tests.antt =====
-- A radio that joins after three seconds (src/NetworkManager.cpp).
use esp32_sequencer.Base.{
  ℕ, suc, ◌+◌, ◌≡◌, refl, Bool, false, Option, none, some, leb, arith, if◌then◌else◌,
}
use esp32_sequencer.Json.{obj, field, end, str}
use esp32_sequencer.Registry.{RunResult}
use esp32_sequencer.Clock.{Clock}
use esp32_sequencer.Net.{Radio, NetworkManager, connect}
use esp32_sequencer.Interp.Tests.{test_lib}
use esp32_sequencer.Blocks.Wifi.{run_wifi_hop, on_wifi}
use esp32_sequencer.Blocks.Hop.{Agrees, run_wifi_hop-on_wifi}
use esp32_sequencer.Net.Joining.{connect_ends}

-- The time, and when the network is there.
pub record Air : Type 0 where
  pub now : ℕ
  pub there : Option ℕ

abbrev after : ℕ → Option ℕ → Bool
after now none = false
after now (some t) = leb t now

abbrev clock : Clock Air
clock = record { elapsed = λ w. w.now; delay = λ ms w. record w { now = w.now + ms } }

abbrev radio : Radio Air
radio = record {
  connected = λ w. after w.now w.there;
  disconnect = λ w. record w { there = none };
  station_mode = λ w. w;
  configure = λ c w. w;
  begin = λ ssid pass w. record w { there = some (w.now + 3000) };
  no_sleep = λ w. w;
  parse_ip = λ s. none;
}

connect_ends_example :
    (b : Bool) × (n : NetworkManager) × (w : Air) × (connect clock radio
        (suc 15000)
        "home"
        "secret"
        ""
        ""
        15000
        (record { current = "" })
        (record { now = 0; there = none })
      ≡ some (b, n, w))
    × (n.current ≡ (if b then "home" else ""))
    × (radio.connected w ≡ b)
connect_ends_example =
    connect_ends clock (record { delay_takes = λ ms w. (omega arith, omega arith) }) radio
      (record { no_sleep_connected = λ w. refl; disconnect_connected = λ w. refl }) 15000 "home"
      "secret" "" "" 15000 (record { current = "" }) (record { now = 0; there = none })
      (omega arith) (omega arith)

run_wifi_hop-on_wifi_example :
    (r : RunResult) × (n : NetworkManager) × (w : Air) × (run_wifi_hop test_lib clock radio
        (suc 15000)
        (obj (field "ssid" (str "home") end))
        (record { current = "" })
        (record { now = 0; there = none })
      ≡ some (r, n, w))
    × Agrees r (on_wifi test_lib radio (obj (field "ssid" (str "home") end)) n w)
run_wifi_hop-on_wifi_example =
    run_wifi_hop-on_wifi test_lib clock
      (record { delay_takes = λ ms w. (omega arith, omega arith) }) radio
      (record { no_sleep_connected = λ w. refl; disconnect_connected = λ w. refl }) 15000
      (obj (field "ssid" (str "home") end)) "home" (record { current = "" })
      (record { now = 0; there = none }) refl refl (omega arith) (omega arith)
