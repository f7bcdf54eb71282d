-- ===== src/Clock.antt =====
-- `millis` and `delay` of the Arduino core, over the world that the program acts in: `elapsed` is the
-- time since the start, of which `millis` shows 32 bits.
pub mod Ends
pub mod Tests
use esp32_sequencer.Base.{
  ℕ, zero, suc, ◌+◌, ◌-◌, ◌%◌, ◌^◌, ◌≤◌, ◌<◌, Bool, true, false, Option, none, some, ltb,
  if◌then◌else◌,
}

pub record Clock (W : Type 0) : Type 0 where
  pub elapsed : W → ℕ
  pub delay : ℕ → W → W

-- What an operation of the program's world takes: no time less than `ms`, and no 2 ^ 28 ms more.
abbrev pub Takes : {W : Type 0} → Clock W → ℕ → W → W → Type 0
Takes clock ms w w' =
    (clock.elapsed w + ms ≤ clock.elapsed w') × (clock.elapsed w' < clock.elapsed w + ms + 2 ^ 28)

pub record IsClock {W : Type 0} (clock : Clock W) : Type 0 where
  pub delay_takes : (ms : ℕ) (w : W) → Takes clock ms w (clock.delay ms w)

-- `millis()`
abbrev pub millis : {W : Type 0} → Clock W → W → ℕ
millis clock w = clock.elapsed w % 2 ^ 32

-- `millis() - start`, on `uint32_t`.
abbrev pub since : {W : Type 0} → Clock W → ℕ → W → ℕ
since clock start w = (millis clock w + 2 ^ 32 - start) % 2 ^ 32

-- What a round of a loop comes to: another round, or the loop's result.
pub data Round (S R : Type 0) : Type 0 where
  again : S → Round S R
  stop : R → Round S R

abbrev pub proceed : {S R : Type 0} → (S → Option R) → Round S R → Option R
proceed k (again s) = k s
proceed k (stop r) = some r

-- `while (millis() - start < budget) …`, with the result of a loop that is over. `none` means that
-- the fuel ran out.
module _ {W S R : Type 0} (clock : Clock W) (world : S → W) (body : S → Round S R)
    (over : S → R) where
  unfoldable pub while_below : ℕ → ℕ → ℕ → S → Option R
  while_below zero start budget s = none
  while_below (suc fuel) start budget s =
      let next = proceed (while_below fuel start budget) (body s) in
      if ltb (since clock start (world s)) budget then next else some (over s)

-- `while (millis() < until) …`
module _ {W S R : Type 0} (clock : Clock W) (world : S → W) (body : S → Round S R)
    (over : S → R) where
  unfoldable pub while_until : ℕ → ℕ → S → Option R
  while_until zero until s = none
  while_until (suc fuel) until s =
      let next = proceed (while_until fuel until) (body s) in
      if ltb (millis clock (world s)) until then next else some (over s)
