-- ===== src/Wol/Tests.antt =====
-- Addresses and packets of src/Wol.cpp, after test/test_wol_packet.
use esp32_sequencer.Base.{ℕ, ◌≡◌, refl, inl, some, [], ◌∷◌, true, arith, ◌*◌}
use esp32_sequencer.Wol.{parse_mac, build_magic_packet}
use esp32_sequencer.Wol.Mac.{print_mac, parse_mac-print_mac}
use esp32_sequencer.Wol.Packet.{build_magic_packet_at}

parse_mac-print_mac_example :
    parse_mac (print_mac true 58 170 187 204 0 1 255) ≡ some (170 ∷ 187 ∷ 204 ∷ 0 ∷ 1 ∷ 255 ∷ [])
parse_mac-print_mac_example =
    parse_mac-print_mac true 58 170 187 204 0 1 255 (inl refl) (omega arith) (omega arith)
      (omega arith) (omega arith) (omega arith) (omega arith)

abbrev address : ℕ → ℕ
address i = i * 17

build_magic_packet_at_example : build_magic_packet address (λ k. 0) 101 ≡ 85
build_magic_packet_at_example = build_magic_packet_at address (λ k. 0) 101
