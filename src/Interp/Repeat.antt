-- ===== src/Interp/Repeat.antt =====
-- The loop of `repeat` in src/core/Interpreter.cpp.
use esp32_sequencer.Base.{ℕ, zero, suc, ◌≡◌, ◌<◌, arith}
use esp32_sequencer.Interp.{Env, Ctx, Outcome, done, rounds, pause}

module _ {W : Type 0} (env : Env W) (interval : ℕ) where
  unfoldable pub wait : Ctx W → Ctx W
  wait c = record c { world = env.delay interval c.world }

  -- The body once, and then a wait and the body for each further round.
  unfoldable pub again : (Ctx W → Ctx W) → ℕ → Ctx W → Ctx W
  unfolding wait
  again step zero c = c
  again step (suc n) c = again step n (step (wait c))

  -- A body that always succeeds is run as often as a positive count says, with a wait, if the interval
  -- is positive, between two rounds and none behind the last.
  pub rounds-again :
      (body : Ctx W → Outcome W) (step : Ctx W → Ctx W) (n : ℕ) (c : Ctx W)
      → 0 < interval
      → ((d : Ctx W) → body d ≡ done (step d))
      → rounds env interval body (suc n) c ≡ done (again step n (step c))
  unfolding rounds again pause wait
  rounds-again body step zero c h total = rw (total c) (ground arith)
  rounds-again body step (suc n) c h total =
      rw (total c) (ground (arith, rounds-again body step n (wait (step c)) h total))
