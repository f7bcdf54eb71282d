-- ===== src/Led/Pattern.antt =====
-- What the light of src/StatusLed.cpp shows from tick to tick.
use esp32_sequencer.Base.{
  ℕ, ◌+◌, ◌%◌, ◌^◌, ◌≤◌, ◌<◌, ◌≡◌, refl, Bool, true, false, ◌⊎◌, ◌↔◌, arith, if◌then◌else◌, ◌∙◌,
}
use esp32_sequencer.Led.{
  LedState, setup, idle, running, success, error, StatusLed, set_state, compute_is_on, since,
  is_over, tick, currently_on,
}

-- The time since the start is right however the clock has wrapped.
since_wrap : (start d : ℕ) → start < 2 ^ 32 → d < 2 ^ 32 → since ((start + d) % 2 ^ 32) start ≡ d
unfolding since
since_wrap start d h k = omega arith

-- How long a state shows before it gives way to Idle; `none` in the others.
abbrev pub Lasts : LedState → ℕ → Type 0
Lasts success d = d < 2000
Lasts error d = d < 600
Lasts _ d = Unit

abbrev pub Ends : LedState → ℕ → Type 0
Ends success d = 2000 ≤ d
Ends error d = 600 ≤ d
Ends _ d = ⊥

since_self : (now : ℕ) → now < 2 ^ 32 → since now now ≡ 0
unfolding since
since_self now h = omega arith

abbrev showing : LedState → ℕ → Bool → StatusLed
showing s start on = record { state = s; entered_at = start; entered = true; last_written = on }

first_tick :
    (s : LedState) (led : StatusLed) (start : ℕ)
    → start < 2 ^ 32
    → tick start (set_state s led) ≡ showing s start (compute_is_on s 0)
unfolding tick set_state
first_tick setup led start h = rw (since_self start h)
first_tick idle led start h = rw (since_self start h)
first_tick running led start h = rw (since_self start h)
first_tick success led start h = rw (since_self start h)
first_tick error led start h = rw (since_self start h)

later_tick :
    (s : LedState) (start now : ℕ) (on : Bool)
    → tick now (showing s start on) ≡ (
        if is_over s (since now start)
        then showing idle now (compute_is_on idle 0)
        else showing s start (compute_is_on s (since now start)))
unfolding tick
later_tick s start now on = refl

two_ticks :
    (s : LedState) (led : StatusLed) (start d : ℕ)
    → start < 2 ^ 32
    → d < 2 ^ 32
    → tick ((start + d) % 2 ^ 32) (tick start (set_state s led)) ≡ (
        if is_over s d
        then showing idle ((start + d) % 2 ^ 32) (compute_is_on idle 0)
        else showing s start (compute_is_on s d))
two_ticks s led start d h k =
    rw (first_tick s led start h)
      (later_tick s start ((start + d) % 2 ^ 32) (compute_is_on s 0) ∙ rw (since_wrap start d h k))

lasts : (s : LedState) (d : ℕ) → Lasts s d → is_over s d ≡ false
lasts setup d h = refl
lasts idle d h = refl
lasts running d h = refl
lasts success d h = ground arith
lasts error d h = ground arith

ends : (s : LedState) (d : ℕ) → Ends s d → is_over s d ≡ true
ends success d h = ground arith
ends error d h = ground arith
ends setup d h = absurd h
ends idle d h = absurd h
ends running d h = absurd h

-- A state that was set is entered at the next tick, at `start`. A tick `d` ms later, fewer than
-- 2 ^ 32 and the clock wrapped or not, shows the state's own pattern at `d` while the state lasts.
pub tick_shows :
    (s : LedState) (led : StatusLed) (start d : ℕ)
    → start < 2 ^ 32
    → d < 2 ^ 32
    → Lasts s d
    → let led' = tick ((start + d) % 2 ^ 32) (tick start (set_state s led)) in
      (led'.state ≡ s) × (currently_on led' ≡ compute_is_on s d)
unfolding currently_on
tick_shows s led start d h k l = rw (two_ticks s led start d h k, lasts s d l) (refl, refl)

-- Success ends 2000 ms and Error 600 ms after the tick that entered it: a tick then or later, up
-- to 2 ^ 32 ms and the clock wrapped or not, is the beginning of Idle, which shows its light.
pub tick_over :
    (s : LedState) (led : StatusLed) (start d : ℕ)
    → start < 2 ^ 32
    → d < 2 ^ 32
    → Ends s d
    → let now = (start + d) % 2 ^ 32 in
      let led' = tick now (tick start (set_state s led)) in
      (led'.state ≡ idle) × (led'.entered_at ≡ now) × (currently_on led' ≡ true)
unfolding currently_on compute_is_on
tick_over s led start d h k e = rw (two_ticks s led start d h k, ends s d e) (refl, refl, refl)

-- The pulses of Error: three of 100 ms, from 0, 200 and 400 ms.
abbrev IsPulse : ℕ → Type 0
IsPulse t = (t < 100) ⊎ ((200 ≤ t) × (t < 300)) ⊎ ((400 ≤ t) × (t < 500))

-- In Error the light is on exactly during the three pulses.
error_pulses : (t : ℕ) → (compute_is_on error t ≡ true) ↔ IsPulse t
unfolding compute_is_on
error_pulses t = (λ h. ground arith, λ h. ground arith)
