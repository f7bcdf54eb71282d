-- ===== src/Scanner.antt =====
-- src/BleScanner.{h,cpp}: what the scanner makes of an advertisement. The Bluetooth library is a
-- parameter.
use esp32_sequencer.Base.{
  ℕ, String, Bool, true, false, ◌||◌, ◌&&◌, Option, none, some, List, [], ◌∷◌, ◌==◌, if◌then◌else◌,
}
use esp32_sequencer.Base.Int.{ℤ}
use esp32_sequencer.Settings.Form.{strip_prefix}
use esp32_sequencer.Triggers.{to_lower}

-- `BleHit`; a MAC is given by the codes of its characters, in lower case.
pub record BleHit : Type 0 where
  pub mac : List ℕ
  pub rssi : ℤ
  pub name : String

-- What the library reports of a device; `manufacturer_data` is `none` where it has none.
pub record Advertised : Type 0 where
  pub name : String
  pub address : String
  pub rssi : ℤ
  pub manufacturer_data : Option (List ℕ)

abbrev pub is_found : Option String → Bool
is_found none = false
is_found (some s) = true

-- `s.indexOf(t) >= 0`
unfoldable pub contains_text : String → String → Bool
contains_text t String.[] = is_found (strip_prefix t String.[])
contains_text t (String.◌∷◌ c s) = is_found (strip_prefix t (String.◌∷◌ c s)) || contains_text t s

abbrev pub is_sony : Option (List ℕ) → Bool
is_sony none = false
is_sony (some []) = false
is_sony (some (a ∷ [])) = false
is_sony (some (a ∷ b ∷ bytes)) = a == 0x4C && b == 0x05

-- `looksLikeDualSense`
unfoldable pub looks_like_dualsense : String → Option (List ℕ) → Bool
looks_like_dualsense name bytes = contains_text "Wireless Controller" name || is_sony bytes

-- `onResult`, with the hit that it passes on.
unfoldable pub on_result : Advertised → Option BleHit
on_result dev =
    if looks_like_dualsense dev.name dev.manufacturer_data
    then some (record { mac = to_lower dev.address; rssi = dev.rssi; name = dev.name })
    else none

-- `started_`, and the world; `scan` and `halt` are the library's.
module _ {W : Type 0} (scan : ℕ → W → W) (halt : W → W) where
  unfoldable pub start : ℕ → Bool × W → Bool × W
  start seconds (true, w) = (true, w)
  start seconds (false, w) = (true, scan seconds w)

  unfoldable pub stop : Bool × W → Bool × W
  stop (false, w) = (false, w)
  stop (true, w) = (false, halt w)
