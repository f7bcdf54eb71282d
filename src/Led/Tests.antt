-- ===== src/Led/Tests.antt =====
-- The theorems about src/StatusLed.cpp at concrete times, after test/test_status_led.
use esp32_sequencer.Base.{◌+◌, ◌%◌, ◌^◌, ◌≡◌, arith}
use esp32_sequencer.Led.{success, initial, set_state, compute_is_on, tick, currently_on}
use esp32_sequencer.Led.Pattern.{tick_shows}

-- The clock wraps between the two ticks.
tick_shows_example :
    let led' = tick ((4294967290 + 1000) % 2 ^ 32) (tick 4294967290 (set_state success initial)) in
    (led'.state ≡ success) × (currently_on led' ≡ compute_is_on success 1000)
tick_shows_example =
    tick_shows success initial 4294967290 1000 (omega arith) (omega arith) (omega arith)
