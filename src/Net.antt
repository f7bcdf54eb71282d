-- ===== src/Net.antt =====
-- src/NetworkManager.{h,cpp}: joining a network. Lines on the console are left out.
pub mod Joining
pub mod Tests
use esp32_sequencer.Base.{
  ℕ, zero, suc, String, Bool, true, false, ◌&&◌, Option, none, some, str_eq, ltb, if◌then◌else◌,
}
use esp32_sequencer.Settings.{non_empty}
use esp32_sequencer.Clock.{Clock, millis, Round, again, stop, while_below}

-- `WiFi` of the Arduino core. `configure none` is the configuration by DHCP; a static one is the
-- address and the gateway.
pub record Radio (W : Type 0) : Type 0 where
  pub connected : W → Bool
  pub disconnect : W → W
  pub station_mode : W → W
  pub configure : Option (ℕ × ℕ) → W → W
  pub begin : String → String → W → W
  pub no_sleep : W → W
  -- `IPAddress::fromString`
  pub parse_ip : String → Option ℕ

pub record NetworkManager : Type 0 where
  pub current : String

abbrev pub both : Option ℕ → Option ℕ → Option (ℕ × ℕ)
both none gw = none
both (some ip) none = none
both (some ip) (some gw) = some (ip, gw)

module _ {W : Type 0} (clock : Clock W) (radio : Radio W) where
  -- The configuration for the texts of an address and a gateway; DHCP if either is empty or invalid.
  unfoldable pub address_config : String → String → Option (ℕ × ℕ)
  address_config static_ip gateway =
      if non_empty static_ip && non_empty gateway
      then both (radio.parse_ip static_ip) (radio.parse_ip gateway)
      else none

  abbrev pub join_round : W → Round W (Bool × W)
  join_round w = if radio.connected w then stop (true, w) else again (clock.delay 100 w)

  -- The loop that waits for the network.
  unfoldable pub await_join : ℕ → ℕ → ℕ → W → Option (Bool × W)
  await_join = while_below clock (λ w. w) join_round (λ w. (false, w))

  abbrev pub joined : String → Option (Bool × W) → Option (Bool × NetworkManager × W)
  joined ssid none = none
  joined ssid (some (true, w)) = some (true, record { current = ssid }, radio.no_sleep w)
  joined ssid (some (false, w)) = some (false, record { current = "" }, radio.disconnect w)

  -- The radio when the waiting begins.
  abbrev pub started : String → String → String → String → W → W
  started ssid pass static_ip gateway w = radio.begin ssid pass (
      radio.configure (address_config static_ip gateway) (
        radio.station_mode (clock.delay 200 (if radio.connected w then radio.disconnect w else w))))

  -- `connect`; `none` where the fuel of the waiting ran out.
  unfoldable pub connect :
      ℕ
      → String
      → String
      → String
      → String
      → ℕ
      → NetworkManager
      → W
      → Option (Bool × NetworkManager × W)
  connect fuel ssid pass static_ip gateway timeout n w =
      let w' = started ssid pass static_ip gateway w in
      if str_eq n.current ssid && radio.connected w
      then some (true, n, w)
      else joined ssid (await_join fuel (millis clock w') timeout w')

  -- `connectIdle`
  unfoldable pub connect_idle :
      ℕ → String → String → NetworkManager → W → Option (Bool × NetworkManager × W)
  connect_idle fuel ssid pass n w = connect fuel ssid pass "" "" 15000 n w

  -- `disconnect`
  unfoldable pub disconnect : NetworkManager → W → NetworkManager × W
  disconnect n w = (record { current = "" }, if radio.connected w then radio.disconnect w else w)
