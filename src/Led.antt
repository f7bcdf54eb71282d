-- ===== src/Led.antt =====
-- src/StatusLed.{h,cpp}. Times are `uint32_t` milliseconds, which wrap.
pub mod Pattern
pub mod Tests
use esp32_sequencer.Base.{
  ℕ, ◌+◌, ◌-◌, ◌/◌, ◌%◌, ◌^◌, Bool, true, false, ltb, leb, ◌==◌, ◌&&◌, if◌then◌else◌,
}

pub data LedState : Type 0 where
  setup idle running success error : LedState

-- `last_written` is the last answer of a tick; the pin itself is not modelled.
pub record StatusLed : Type 0 where
  pub state : LedState
  pub entered_at : ℕ
  pub entered : Bool
  pub last_written : Bool

-- The constructor.
abbrev pub initial : StatusLed
initial = record { state = LedState.setup; entered_at = 0; entered = false; last_written = false }

unfoldable pub set_state : LedState → StatusLed → StatusLed
set_state s led = record led { state = s; entered_at = 0; entered = false }

unfoldable pub compute_is_on : LedState → ℕ → Bool
compute_is_on LedState.setup t = ltb (t % 1000) 500
compute_is_on LedState.idle t = ltb (t % 3000) 100
compute_is_on LedState.running t = ltb (t % 200) 100
compute_is_on LedState.success t = ltb t 2000
compute_is_on LedState.error t = if leb 600 t then false else (t / 100) % 2 == 0

unfoldable pub is_on_at : StatusLed → ℕ → Bool
is_on_at led t = compute_is_on led.state t

-- `now - state_entered_at_`, on `uint32_t`.
unfoldable pub since : ℕ → ℕ → ℕ
since now start = (now + 2 ^ 32 - start) % 2 ^ 32

-- The first tick behind `setState` is the state's beginning.
unfoldable pub anchor : ℕ → StatusLed → StatusLed
anchor now led = if led.entered then led else record led { entered_at = now; entered = true }

-- Success and Error end by themselves.
abbrev pub is_over : LedState → ℕ → Bool
is_over LedState.success elapsed = leb 2000 elapsed
is_over LedState.error elapsed = leb 600 elapsed
is_over _ elapsed = false

unfoldable pub tick : ℕ → StatusLed → StatusLed
unfolding anchor set_state
tick now led =
    let led' = anchor now led in
    let elapsed = since now led'.entered_at in
    let next = record (set_state LedState.idle led') { entered_at = now; entered = true } in
    if is_over led'.state elapsed
    then record next { last_written = compute_is_on LedState.idle 0 }
    else record led' { last_written = compute_is_on led'.state elapsed }

unfoldable pub currently_on : StatusLed → Bool
currently_on led = led.last_written
