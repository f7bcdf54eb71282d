-- ===== src/Base/Decimal.antt =====
-- `std::to_string` of an integer.
use Prim.Native.Nat.{ℕ, zero, suc, ◌/◌, ◌%◌}
use Prim.Native.Char.{Char}
use Prim.Native.String.{String, []}
use esp32_sequencer.Base.Tests.{◌==◌, ltb, if◌then◌else◌}
use esp32_sequencer.Base.Int.{ℤ, pos, negsuc}

-- The character of a number below ten.
unfoldable pub digit : ℕ → Char
digit d =
    if d == 0
    then "0"
    else if d == 1
    then "1"
    else if d == 2
    then "2"
    else if d == 3
    then "3"
    else if d == 4
    then "4"
    else if d == 5
    then "5"
    else if d == 6
    then "6"
    else if d == 7
    then "7"
    else if d == 8
    then "8"
    else "9"

-- The digits of `n` in front of a text; more fuel than `n` is enough.
unfoldable pub decimal_before : ℕ → ℕ → String → String
unfolding digit
decimal_before zero n text = text
decimal_before (suc fuel) n text =
    let more = decimal_before fuel (n / 10) (String.◌∷◌ (digit (n % 10)) text) in
    if ltb n 10 then String.◌∷◌ (digit n) text else more

unfoldable pub decimal : ℕ → String
unfolding decimal_before
decimal n = decimal_before (suc n) n []

unfoldable pub to_string : ℤ → String
unfolding decimal
to_string (pos n) = decimal n
to_string (negsuc n) = String.◌∷◌ "-" (decimal (suc n))
