-- ===== src/Clock/Tests.antt =====
-- A world that is the time alone, for the loops that wait.
use esp32_sequencer.Base.{ℕ, ◌+◌, arith}
use esp32_sequencer.Clock.{Clock, IsClock}

abbrev pub clock : Clock ℕ
clock = record { elapsed = λ w. w; delay = λ ms w. w + ms }

pub ticking : IsClock clock
ticking = record { delay_takes = λ ms w. (omega arith, omega arith) }
