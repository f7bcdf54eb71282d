-- ===== src/Wol/Mac.antt =====
-- `parseMac` (src/Wol.cpp) on printed addresses.
use esp32_sequencer.Base.{
  ℕ, ◌+◌, ◌/◌, ◌%◌, ◌<◌, ◌≡◌, refl, ap, ◌⊎◌, inl, inr, Bool, some, List, [], ◌∷◌, ltb,
  if◌then◌else◌, arith,
}
use esp32_sequencer.Wol.{hex_nibble, byte, pairs, parse_mac}

-- The digit of a nibble, in lower case or in upper case.
abbrev pub hex_code : Bool → ℕ → ℕ
hex_code upper n = if ltb n 10 then 48 + n else if upper then 55 + n else 87 + n

-- Two digits of a byte, with what follows them.
abbrev pub pair : Bool → ℕ → List ℕ → List ℕ
pair upper b rest = hex_code upper (b / 16) ∷ hex_code upper (b % 16) ∷ rest

abbrev pub print_mac : Bool → ℕ → ℕ → ℕ → ℕ → ℕ → ℕ → ℕ → List ℕ
print_mac upper sep a b c d e f = pair upper a (
    sep
    ∷ pair upper b
        (sep ∷ pair upper c (sep ∷ pair upper d (sep ∷ pair upper e (sep ∷ pair upper f [])))))

hex_nibble-hex_code : (upper : Bool) (n : ℕ) → n < 16 → hex_nibble (hex_code upper n) ≡ some n
unfolding hex_nibble
hex_nibble-hex_code upper n h = ground arith

byte-pair :
    (upper : Bool) (b : ℕ)
    → b < 256
    → byte (hex_nibble (hex_code upper (b / 16))) (hex_nibble (hex_code upper (b % 16))) ≡ some b
byte-pair upper b h =
    rw
      (
        hex_nibble-hex_code upper (b / 16) (omega arith),
        hex_nibble-hex_code upper (b % 16) (omega arith),
      )
      (ap some (omega arith))

-- Six bytes printed with colons or with dashes between them, in lower or in upper case, are parsed
-- back.
pub parse_mac-print_mac :
    (upper : Bool) (sep a b c d e f : ℕ)
    → (sep ≡ 58) ⊎ (sep ≡ 45)
    → a < 256
    → b < 256
    → c < 256
    → d < 256
    → e < 256
    → f < 256
    → parse_mac (print_mac upper sep a b c d e f) ≡ some (a ∷ b ∷ c ∷ d ∷ e ∷ f ∷ [])
unfolding parse_mac pairs
parse_mac-print_mac upper sep a b c d e f hs ha hb hc hd he hf =
    rw
      (
        byte-pair upper a ha,
        byte-pair upper b hb,
        byte-pair upper c hc,
        byte-pair upper d hd,
        byte-pair upper e he,
        byte-pair upper f hf,
      )
      (elim hs [ inl h ↦ rw h refl | inr h ↦ rw h refl ])
