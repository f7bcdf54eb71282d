-- ===== src/Clock/Ends.antt =====
-- A loop until a time is over ends, with the fuel of one round for each millisecond.
use esp32_sequencer.Base.{
  ℕ, zero, suc, ◌+◌, ◌-◌, ◌%◌, ◌^◌, ◌≤◌, ◌<◌, ◌≡◌, refl, true, false, Option, some, ltb, ltb→lt,
  arith, Bool-cases, inl, inr,
}
use esp32_sequencer.Clock.{Clock, since, Round, again, stop, proceed, while_below}

module _ {W : Type 0} (clock : Clock W) where
  -- The time since `begun` as the 32 bits show it.
  since_lem :
      (begun : ℕ) (w : W)
      → begun ≤ clock.elapsed w
      → clock.elapsed w < begun + 2 ^ 32
      → since clock (begun % 2 ^ 32) w ≡ clock.elapsed w - begun
  since_lem begun w low high = omega arith

  early_lem :
      (begun budget : ℕ) (w : W)
      → begun ≤ clock.elapsed w
      → clock.elapsed w < begun + 2 ^ 32
      → ltb (since clock (begun % 2 ^ 32) w) budget ≡ true
      → clock.elapsed w < begun + budget
  early_lem begun budget w low high h =
      omega (arith, since_lem begun w low high, ltb→lt (since clock (begun % 2 ^ 32) w) budget h)

  late_lem :
      (begun budget : ℕ) (w : W)
      → begun ≤ clock.elapsed w
      → clock.elapsed w < begun + 2 ^ 32
      → begun + budget ≤ clock.elapsed w
      → ltb (since clock (begun % 2 ^ 32) w) budget ≡ false
  late_lem begun budget w low high h = rw (since_lem begun w low high) (ground arith)

-- There is a result, and it is good.
abbrev pub Gives : {R : Type 0} → (R → Type 0) → Option R → Type 0
Gives {R} Q o = (r : R) × (o ≡ some r) × Q r

module _ {W S R : Type 0} (clock : Clock W) (world : S → W) (body : S → Round S R) (over : S → R)
    (P : S → Type 0) (Q : R → Type 0) where
  -- A round keeps the invariant and takes some time, but no 2 ^ 30 ms; or it gives a good result.
  abbrev pub Proceeds : S → Round S R → Type 0
  Proceeds s (again s') =
      P s'
      × (clock.elapsed (world s) < clock.elapsed (world s'))
      × (clock.elapsed (world s') < clock.elapsed (world s) + 2 ^ 30)
  Proceeds s (stop r) = Q r

  module _ (begun budget : ℕ) (good_over : (s : S) → P s → Q (over s))
      (proceeds : (s : S)
        → P s
        → begun ≤ clock.elapsed (world s)
        → clock.elapsed (world s) < begun + budget
        → Proceeds s (body s))
      (small : budget ≤ 2 ^ 31) where
    next-Gives :
        (fuel : ℕ) (s : S) (next : Round S R)
        → Proceeds s next
        → ((s' : S)
            → P s'
            → clock.elapsed (world s) < clock.elapsed (world s')
            → clock.elapsed (world s') < clock.elapsed (world s) + 2 ^ 30
            → Gives Q (while_below clock world body over fuel (begun % 2 ^ 32) budget s'))
        → Gives Q (proceed (while_below clock world body over fuel (begun % 2 ^ 32) budget) next)
    next-Gives fuel s (again s') h k = k s' h.0 h.1 h.2
    next-Gives fuel s (stop r) h k = (r, refl, h)

    pub while_below_ends :
        (fuel : ℕ) (s : S)
        → P s
        → begun ≤ clock.elapsed (world s)
        → clock.elapsed (world s) < begun + budget + 2 ^ 30
        → begun + budget ≤ clock.elapsed (world s) + fuel
        → Gives Q (while_below clock world body over (suc fuel) (begun % 2 ^ 32) budget s)
    unfolding while_below
    while_below_ends zero s p low high enough =
        rw (late_lem clock begun budget (world s) low (omega arith) (omega arith))
          (over s, refl, good_over s p)
    while_below_ends (suc fuel) s p low high enough =
        elim (Bool-cases (ltb (since clock (begun % 2 ^ 32) (world s)) budget)) [
          | inr late ↦ rw late (over s, refl, good_over s p)
          | inl early ↦
              let e = early_lem clock begun budget (world s) low (omega arith) early in
              rw early (
                next-Gives (suc fuel) s (body s) (proceeds s p low e) (λ s' p' more less.
                  while_below_ends fuel s' p' (omega arith) (omega arith) (omega arith)))
        ]
