-- ===== src/Wol.antt =====
-- src/Wol.{h,cpp}: MAC addresses and magic packets. A text is the list of its characters' numbers, a
-- byte array is a function of the index.
pub mod Mac
pub mod Packet
pub mod Tests
use esp32_sequencer.Base.{
  ℕ, zero, suc, ◌+◌, ◌-◌, ◌*◌, Bool, true, false, not, ◌&&◌, ◌||◌, Option, none, some, List, [],
  ◌∷◌, ◌==◌, ltb, leb, if◌then◌else◌, length,
}

abbrev pub to_lower : ℕ → ℕ
to_lower c = if leb b'A' c && leb c b'Z' then c + 32 else c

-- `hexNibble`, with `none` for -1.
unfoldable pub hex_nibble : ℕ → Option ℕ
hex_nibble c =
    let l = to_lower c in
    if leb b'0' c && leb c b'9'
    then some (c - b'0')
    else if leb b'a' l && leb l b'f'
    then some (10 + (l - b'a'))
    else none

-- `mac_str[i]`; the indices used are in range.
abbrev pub at : List ℕ → ℕ → ℕ
at [] i = 0
at (c ∷ cs) zero = c
at (c ∷ cs) (suc i) = at cs i

-- The byte of two digits.
abbrev pub byte : Option ℕ → Option ℕ → Option ℕ
byte none lo = none
byte (some hi) none = none
byte (some hi) (some lo) = some (hi * 16 + lo)

abbrev pub onto : Option ℕ → Option (List ℕ) → Option (List ℕ)
onto none bs = none
onto (some b) none = none
onto (some b) (some bs) = some (b ∷ bs)

-- The loop over the pairs `i` and on.
unfoldable pub pairs : List ℕ → ℕ → ℕ → ℕ → Option (List ℕ)
pairs mac sep zero i = some []
pairs mac sep (suc left) i =
    let rest = pairs mac sep left (suc i) in
    let b = byte (hex_nibble (at mac (i * 3))) (hex_nibble (at mac (i * 3 + 1))) in
    if ltb i 5 && not (at mac (i * 3 + 2) == sep) then none else onto b rest

-- `parseMac`, with `none` for false.
unfoldable pub parse_mac : List ℕ → Option (List ℕ)
parse_mac mac =
    let sep = at mac 2 in
    let bytes = pairs mac sep 6 0 in
    if not (length mac == 17)
    then none
    else if not (sep == b':') && not (sep == b'-')
    then none
    else bytes

-- `out[i] = b`
unfoldable pub store : ℕ → ℕ → (ℕ → ℕ) → ℕ → ℕ
store i b out k = if i == k then b else out k

-- The first `n` rounds of the loops of `buildMagicPacket`.
unfoldable pub fill : ℕ → (ℕ → ℕ) → ℕ → ℕ
fill zero out = out
fill (suc n) out = store n 255 (fill n out)

unfoldable pub copy : (ℕ → ℕ) → ℕ → ℕ → (ℕ → ℕ) → ℕ → ℕ
copy mac rep zero out = out
copy mac rep (suc n) out = store (6 + rep * 6 + n) (mac n) (copy mac rep n out)

unfoldable pub repeat : (ℕ → ℕ) → ℕ → (ℕ → ℕ) → ℕ → ℕ
repeat mac zero out = out
repeat mac (suc n) out = copy mac n 6 (repeat mac n out)

unfoldable pub build_magic_packet : (ℕ → ℕ) → (ℕ → ℕ) → ℕ → ℕ
build_magic_packet mac out = repeat mac 16 (fill 6 out)
