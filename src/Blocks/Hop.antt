-- ===== src/Blocks/Hop.antt =====
-- After a hop (src/adapters/blocks/WifiHopBlock.cpp) the device is on the network.
use esp32_sequencer.Base.{
  ℕ, suc, ◌≤◌, ◌^◌, String, ◌≡◌, refl, Bool, true, false, ◌&&◌, Option, some, str_eq, eq_refl,
  arith, if◌then◌else◌, Bool-cases, inl, inr,
}
use esp32_sequencer.Json.{Json, ArduinoJson, as_text, text_or_empty, get}
use esp32_sequencer.Registry.{RunResult, failed}
use esp32_sequencer.Clock.{Clock, IsClock}
use esp32_sequencer.Net.{Radio, NetworkManager, connect}
use esp32_sequencer.Net.Joining.{IsRadio, connect_ends}
use esp32_sequencer.Blocks.Wifi.{hopped, hop_timeout, hop_to, run_wifi_hop, on_network, on_wifi}

-- What the result says of the predicate.
abbrev pub Agrees : RunResult → Bool → Type 0
Agrees RunResult.ok b = b ≡ true
Agrees (failed e) b = b ≡ false

module _ {W : Type 0} (lib : ArduinoJson) (clock : Clock W) (ticking : IsClock clock)
    (radio : Radio W) (lawful : IsRadio radio) where
  hopped_lem :
      (ssid : String) (o : Option (Bool × NetworkManager × W)) (b : Bool) (n : NetworkManager)
      (w : W)
      → o ≡ some (b, n, w)
      → n.current ≡ (if b then ssid else "")
      → radio.connected w ≡ b
      → (r : RunResult) × (n' : NetworkManager) × (w' : W) × (hopped lib clock radio o
          ≡ some (r, n', w'))
        × Agrees r (on_network lib radio (some ssid) n' w')
  hopped_lem ssid o true n w e current up =
      rw e (RunResult.ok, n, w, refl, rw (up, current) (eq_refl ssid))
  hopped_lem ssid o false n w e current up =
      rw e (failed "wifi-hop: connect failed", n, w, refl, rw up refl)

  hop_to_lem :
      (fuel : ℕ) (params : Json) (ssid : String) (n : NetworkManager) (w : W)
      → hop_timeout lib clock radio params ≤ 2 ^ 31
      → hop_timeout lib clock radio params ≤ fuel
      → (r : RunResult) × (n' : NetworkManager) × (w' : W) × (hop_to lib clock radio
            (suc fuel)
            params
            (some ssid)
            n
            w
          ≡ some (r, n', w'))
        × Agrees r (on_network lib radio (some ssid) n' w')
  hop_to_lem fuel params ssid n w small enough =
      elim (Bool-cases (str_eq n.current ssid && radio.connected w)) [
        | inl there ↦ rw there (RunResult.ok, n, w, refl, ground (arith, there))
        | inr away ↦
            let pass = text_or_empty (get params "password") in
            let ip = text_or_empty (get params "static_ip") in
            let gateway = text_or_empty (get params "gateway") in
            let c =
              connect_ends clock ticking radio lawful fuel ssid pass ip gateway
                (hop_timeout lib clock radio params) n w small enough in
            rw away (
              hopped_lem ssid
                (connect clock radio (suc fuel) ssid pass ip gateway
                  (hop_timeout lib clock radio params) n w)
                c.0 c.1 c.2 c.3 c.4 c.5)
      ]

  -- With fuel of a round for each millisecond and one, a timeout of 2 ^ 31 ms at most, and a network
  -- name that is given and not empty: a hop ends; it is ok just if the predicate `on-wifi` holds
  -- afterwards for that network.
  pub run_wifi_hop-on_wifi :
      (fuel : ℕ) (params : Json) (ssid : String) (n : NetworkManager) (w : W)
      → as_text (get params "ssid") ≡ some ssid
      → str_eq ssid "" ≡ false
      → hop_timeout lib clock radio params ≤ 2 ^ 31
      → hop_timeout lib clock radio params ≤ fuel
      → (r : RunResult) × (n' : NetworkManager) × (w' : W) × (run_wifi_hop lib clock radio
            (suc fuel)
            params
            n
            w
          ≡ some (r, n', w'))
        × Agrees r (on_wifi lib radio params n' w')
  unfolding run_wifi_hop on_wifi
  run_wifi_hop-on_wifi fuel params ssid n w named full small enough =
      rw (named, full) (hop_to_lem fuel params ssid n w small enough)
