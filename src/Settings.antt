-- ===== src/Settings.antt =====
-- src/Config.{h,cpp}: the settings in the flash. `Preferences` is the Arduino library, at the
-- namespace that the settings are kept in.
pub mod Form
pub mod Page
pub mod Escape
pub mod Setup
pub mod Kept
pub mod Tests
use Prim.Native.String
use esp32_sequencer.Base.{
  String, ◌≡◌, ◌≢◌, Bool, true, false, not, ◌&&◌, Option, none, some, str_eq, if◌then◌else◌,
}

-- `getString` and `getBool` give `none` where the key is not there, and their default is taken.
pub record Preferences (P : Type 0) : Type 0 where
  pub get_string : String → P → Option String
  pub put_string : String → String → P → P
  pub get_bool : String → P → Option Bool
  pub put_bool : String → Bool → P → P
  pub remove : String → P → P
  pub clear : P → P

-- What the library documents: a key holds what was put there last.
pub record IsStorage {P : Type 0} (prefs : Preferences P) : Type 0 where
  pub get_string-put_string :
      (j k v : String) (p : P)
      → prefs.get_string j (prefs.put_string k v p)
        ≡ (if str_eq k j then some v else prefs.get_string j p)
  pub get_string-put_bool :
      (j k : String) (b : Bool) (p : P)
      → str_eq k j ≡ false
      → prefs.get_string j (prefs.put_bool k b p) ≡ prefs.get_string j p
  pub get_bool-put_bool :
      (j k : String) (b : Bool) (p : P)
      → prefs.get_bool j (prefs.put_bool k b p)
        ≡ (if str_eq k j then some b else prefs.get_bool j p)
  pub get_bool-put_string :
      (j k v : String) (p : P)
      → str_eq k j ≡ false
      → prefs.get_bool j (prefs.put_string k v p) ≡ prefs.get_bool j p
  pub get_bool-remove :
      (j k : String) (p : P)
      → prefs.get_bool j (prefs.remove k p) ≡ (if str_eq k j then none else prefs.get_bool j p)
  pub get_string-clear : (j : String) (p : P) → prefs.get_string j (prefs.clear p) ≡ none
  pub get_bool-clear : (j : String) (p : P) → prefs.get_bool j (prefs.clear p) ≡ none

pub record Config : Type 0 where
  pub idle_ssid : String
  pub idle_pass : String
  pub tv_token : String
  pub setup_fallback : Bool

-- A text's `length()` as a condition.
abbrev pub non_empty : String → Bool
non_empty s = not (str_eq s "")

-- `hasAll`
unfoldable pub has_all : Config → Bool
has_all c = non_empty c.idle_ssid && non_empty c.idle_pass

-- The default of a `get`.
abbrev pub or_value {ℓ} : {A : Type ℓ} → Option A → A → A
or_value none d = d
or_value (some a) d = a

module _ {P : Type 0} (prefs : Preferences P) where
  unfoldable pub load : P → Config
  load p = record {
    idle_ssid = or_value (prefs.get_string "idleSsid" p) "";
    idle_pass = or_value (prefs.get_string "idlePass" p) "";
    tv_token = or_value (prefs.get_string "tvTok" p) "";
    setup_fallback = or_value (prefs.get_bool "sFb" p) false;
  }

  unfoldable pub save : Config → P → P
  save c p = prefs.put_bool "sFb" c.setup_fallback (
      prefs.put_string "tvTok" c.tv_token
        (prefs.put_string "idlePass" c.idle_pass (prefs.put_string "idleSsid" c.idle_ssid p)))

  unfoldable pub clear : P → P
  clear p = prefs.clear p

  unfoldable pub request_setup_on_next_boot : P → P
  request_setup_on_next_boot p = prefs.put_bool "forceSetup" true p

  unfoldable pub consume_setup_request : P → Bool × P
  consume_setup_request p =
      let v = or_value (prefs.get_bool "forceSetup" p) false in
      (v, if v then prefs.remove "forceSetup" p else p)
