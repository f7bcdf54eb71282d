-- ===== src/Query/Numbers.antt =====
-- Numbers in a query (src/adapters/triggers/QueryCoerce.cpp): what is printed is parsed back.
use Prim.Native.Char.{Char, code}
use esp32_sequencer.Base.{
  ℕ, zero, suc, ◌+◌, ◌*◌, ◌/◌, ◌%◌, ◌^◌, ◌<◌, ◌≡◌, refl, ◌∙◌, ap, String, true, false, some, ltb,
  arith, Bool-cases, inl, inr,
}
use esp32_sequencer.Base.Int.{ℤ, pos, negsuc, IsInt32}
use esp32_sequencer.Base.Decimal.{digit, decimal_before, decimal, to_string}
use esp32_sequencer.Query.{
  is_digit, digits, magnitude, signed, with_sign, after_spaces, parse_int_strict,
}

code-digit : (d : ℕ) → d < 10 → code (digit d) ≡ 48 + d
unfolding digit
code-digit zero h = refl
code-digit (suc zero) h = refl
code-digit (suc (suc zero)) h = refl
code-digit (suc (suc (suc zero))) h = refl
code-digit (suc (suc (suc (suc zero)))) h = refl
code-digit (suc (suc (suc (suc (suc zero))))) h = refl
code-digit (suc (suc (suc (suc (suc (suc zero)))))) h = refl
code-digit (suc (suc (suc (suc (suc (suc (suc zero))))))) h = refl
code-digit (suc (suc (suc (suc (suc (suc (suc (suc zero)))))))) h = refl
code-digit (suc (suc (suc (suc (suc (suc (suc (suc (suc zero))))))))) h = refl
code-digit (suc (suc (suc (suc (suc (suc (suc (suc (suc (suc d)))))))))) h = absurd (omega arith)

is_digit-digit : (d : ℕ) → d < 10 → is_digit (code (digit d)) ≡ true
is_digit-digit d h = rw (code-digit d h) (ground arith)

digits-digit :
    (d n : ℕ) (s : String) → d < 10 → digits (String.◌∷◌ (digit d) s) n ≡ digits s (n * 10 + d)
unfolding digits
digits-digit d n s h =
    rw (is_digit-digit d h) (ap (λ k. digits s (n * 10 + k)) (rw (code-digit d h) (omega arith)))

digits-decimal_before :
    (fuel n : ℕ) (s : String) → n < fuel → digits (decimal_before fuel n s) 0 ≡ digits s n
unfolding decimal_before
digits-decimal_before zero n s h = absurd (omega arith)
digits-decimal_before (suc fuel) n s h = elim (Bool-cases (ltb n 10)) [
  | inl e ↦ rw e (digits-digit n 0 s (ground arith) ∙ ap (digits s) (omega arith))
  | inr e ↦ rw e (
      digits-decimal_before fuel (n / 10) (String.◌∷◌ (digit (n % 10)) s) (ground arith)
      ∙ digits-digit (n % 10) (n / 10) s (omega arith)
      ∙ ap (digits s) (omega arith))
]

-- A text that starts with a digit is a number without a sign.
unsigned :
    (c : Char) (s : String)
    → is_digit (code c) ≡ true
    → parse_int_strict (String.◌∷◌ c s) ≡ with_sign false (digits (String.◌∷◌ c s) 0)
unfolding parse_int_strict after_spaces magnitude
unsigned c s h = ground arith

parse_int_strict-decimal_before :
    (fuel n : ℕ) (s : String)
    → n < fuel
    → parse_int_strict (decimal_before fuel n s)
      ≡ with_sign false (digits (decimal_before fuel n s) 0)
unfolding decimal_before
parse_int_strict-decimal_before zero n s h = absurd (omega arith)
parse_int_strict-decimal_before (suc fuel) n s h = elim (Bool-cases (ltb n 10)) [
  | inl e ↦ rw e (unsigned (digit n) s (is_digit-digit n (ground arith)))
  | inr e ↦
      rw e (
        parse_int_strict-decimal_before fuel (n / 10) (String.◌∷◌ (digit (n % 10)) s)
          (ground arith))
]

magnitude-decimal_before :
    (fuel n : ℕ) (s : String)
    → n < fuel
    → magnitude (decimal_before fuel n s) ≡ digits (decimal_before fuel n s) 0
unfolding decimal_before magnitude
magnitude-decimal_before zero n s h = absurd (omega arith)
magnitude-decimal_before (suc fuel) n s h = elim (Bool-cases (ltb n 10)) [
  | inl e ↦ rw e refl
  | inr e ↦
      rw e (magnitude-decimal_before fuel (n / 10) (String.◌∷◌ (digit (n % 10)) s) (ground arith))
]

digits-decimal : (n : ℕ) → digits (decimal n) 0 ≡ some n
unfolding decimal digits
digits-decimal n = digits-decimal_before (suc n) n String.[] (omega arith)

parse_int_strict-decimal : (n : ℕ) → parse_int_strict (decimal n) ≡ some (signed false n)
unfolding decimal
parse_int_strict-decimal n =
    parse_int_strict-decimal_before (suc n) n String.[] (omega arith)
    ∙ ap (with_sign false) (digits-decimal n)

negative : (s : String) → parse_int_strict (String.◌∷◌ "-" s) ≡ with_sign true (magnitude s)
unfolding parse_int_strict after_spaces
negative s = refl

parse_int_strict-negative :
    (n : ℕ) → parse_int_strict (String.◌∷◌ "-" (decimal n)) ≡ some (signed true n)
unfolding decimal
parse_int_strict-negative n =
    negative (decimal n)
    ∙ ap (with_sign true)
        (magnitude-decimal_before (suc n) n String.[] (omega arith) ∙ digits-decimal n)

signed_positive : (n : ℕ) → n < 2 ^ 31 → signed false n ≡ pos n
unfolding signed
signed_positive n h = ground arith

signed_negative : (n : ℕ) → n < 2 ^ 31 → signed true (suc n) ≡ negsuc n
unfolding signed
signed_negative n h = ground arith

-- `parseIntStrict` reads the text that `std::to_string` prints of a 32-bit integer, and gives that
-- integer back.
pub parse_int_strict-to_string : (z : ℤ) → IsInt32 z → parse_int_strict (to_string z) ≡ some z
unfolding to_string
parse_int_strict-to_string (pos n) h = parse_int_strict-decimal n ∙ ap some (signed_positive n h)
parse_int_strict-to_string (negsuc n) h =
    parse_int_strict-negative (suc n) ∙ ap some (signed_negative n h)
