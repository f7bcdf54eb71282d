-- ===== src/Settings/Tests.antt =====
-- The settings of src/Config.cpp on a flash of two maps.
use esp32_sequencer.Base.{
  All, String, ◌≡◌, refl, Bool, true, false, Option, none, some, str_eq, if◌then◌else◌,
}
use esp32_sequencer.Query.{codes}
use esp32_sequencer.Settings.{
  Preferences, IsStorage, Config, save, request_setup_on_next_boot, consume_setup_request,
}
use esp32_sequencer.Settings.Kept.{consume_setup_request_once}
use esp32_sequencer.Settings.Form.{html_attr_escape}
use esp32_sequencer.Settings.Escape.{unescape, IsInert, html_attr_escape_lem}

-- The texts and the flags of a flash.
pub record Flash : Type 0 where
  pub texts : String → Option String
  pub flags : String → Option Bool

abbrev pub prefs : Preferences Flash
prefs = record {
  get_string = λ k p. p.texts k;
  put_string = λ k v p. record p { texts = λ j. if str_eq k j then some v else p.texts j };
  get_bool = λ k p. p.flags k;
  put_bool = λ k b p. record p { flags = λ j. if str_eq k j then some b else p.flags j };
  remove = λ k p. record {
    texts = λ j. if str_eq k j then none else p.texts j;
    flags = λ j. if str_eq k j then none else p.flags j;
  };
  clear = λ p. record { texts = λ _. none; flags = λ _. none };
}

pub storage : IsStorage prefs
storage = record {
  get_string-put_string = λ j k v p. refl;
  get_string-put_bool = λ j k b p other. refl;
  get_bool-put_bool = λ j k b p. refl;
  get_bool-put_string = λ j k v p other. refl;
  get_bool-remove = λ j k p. refl;
  get_string-clear = λ j p. refl;
  get_bool-clear = λ j p. refl;
}

abbrev pub blank : Flash
blank = record { texts = λ _. none; flags = λ _. none }

abbrev pub home : Config
home = record { idle_ssid = "home"; idle_pass = "secret"; tv_token = "t<1>"; setup_fallback = true }

consume_setup_request_once_example :
    let p' = save prefs home (request_setup_on_next_boot prefs blank) in
    ((consume_setup_request prefs p').0 ≡ true)
    × ((consume_setup_request prefs (consume_setup_request prefs p').1).0 ≡ false)
consume_setup_request_once_example = consume_setup_request_once prefs storage home blank

html_attr_escape_lem_example :
    All IsInert (codes (html_attr_escape "a<b & 'c'"))
    × (unescape 0 (codes (html_attr_escape "a<b & 'c'")) ≡ codes "a<b & 'c'")
html_attr_escape_lem_example = html_attr_escape_lem "a<b & 'c'"
