-- ===== src/Blocks/Wake.antt =====
-- The Wake-on-LAN block (src/adapters/blocks/WolBlock.cpp) and src/Wol.cpp.
use esp32_sequencer.Base.{String, ◌≡◌, refl, none, some, Bool-cases, Option-cases, str_eq, inl, inr}
use esp32_sequencer.Json.{Json, as_text, get}
use esp32_sequencer.Model.{Slots}
use esp32_sequencer.Registry.{failed}
use esp32_sequencer.Wol.{parse_mac}
use esp32_sequencer.Query.{codes}
use esp32_sequencer.Blocks.{Board, send_broadcast, wake, wol_block}

module _ {W : Type 0} (board : Board W) where
  wake-parse_mac :
      (mac : String) (w : W)
      → parse_mac (codes mac) ≡ none
      → (e : String) × (wake board (some mac) w ≡ (failed e, w))
  unfolding send_broadcast
  wake-parse_mac mac w bad = elim (Bool-cases (str_eq mac "")) [
    | inl empty ↦ ("wol: missing mac", rw empty refl)
    | inr named ↦ ("wol: send failed", rw (named, bad) refl)
  ]

  -- Where its address is missing or does not parse, the block fails, and sends and waits nothing.
  pub wol_block-parse_mac :
      (params : Json) (kids : Slots) (w : W)
      → ((mac : String) → as_text (get params "mac") ≡ some mac → parse_mac (codes mac) ≡ none)
      → (e : String) × ((wol_block board).run params kids w ≡ (failed e, w))
  unfolding wol_block
  wol_block-parse_mac params kids w bad = elim (Option-cases (as_text (get params "mac"))) [
    | inl absent ↦ ("wol: missing mac", rw absent refl)
    | inr found ↦
        let woken = wake-parse_mac found.0 w (bad found.0 found.1) in (woken.0, rw found.1 woken.1)
  ]
