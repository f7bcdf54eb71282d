-- ===== src/Net/Joining.antt =====
-- The end of a connection attempt (src/NetworkManager.cpp).
use esp32_sequencer.Base.{
  ℕ, suc, ◌^◌, ◌≤◌, String, ◌≡◌, refl, ◌∙◌, Bool, true, false, ◌&&◌, Option, some, str_eq,
  if◌then◌else◌, arith, Bool-cases, inl, inr, eq_iff,
}
use esp32_sequencer.Clock.{Clock, IsClock}
use esp32_sequencer.Clock.Ends.{Proceeds, while_below_ends}
use esp32_sequencer.Net.{Radio, NetworkManager, join_round, await_join, joined, started, connect}

-- Leaving the power saving keeps the connection, and a disconnection ends it.
pub record IsRadio {W : Type 0} (radio : Radio W) : Type 0 where
  pub no_sleep_connected : (w : W) → radio.connected (radio.no_sleep w) ≡ radio.connected w
  pub disconnect_connected : (w : W) → radio.connected (radio.disconnect w) ≡ false

module _ {W : Type 0} (clock : Clock W) (ticking : IsClock clock) (radio : Radio W)
    (lawful : IsRadio radio) where
  -- What is known when the waiting ends.
  abbrev Waited : Bool × W → Type 0
  Waited (true, w) = radio.connected w ≡ true
  Waited (false, w) = Unit

  join_round-Proceeds :
      (w : W)
      → Proceeds clock
          (λ w'. w')
          (join_round clock radio)
          (λ w'. (false, w'))
          (λ _. Unit {0})
          Waited
          w
          (join_round clock radio w)
  join_round-Proceeds w = elim (Bool-cases (radio.connected w)) [
    | inl up ↦ rw up up
    | inr down ↦
        rw down
          (tt, omega (arith, ticking.delay_takes 100 w), omega (arith, ticking.delay_takes 100 w))
  ]

  -- What `joined` makes of the waiting's end.
  abbrev Joined : String → Option (Bool × NetworkManager × W) → Type 0
  Joined ssid o =
      (b : Bool) × (n : NetworkManager) × (w : W) × (o ≡ some (b, n, w))
      × (n.current ≡ (if b then ssid else ""))
      × (radio.connected w ≡ b)

  joined_lem :
      (ssid : String) (o : Option (Bool × W)) (r : Bool × W)
      → o ≡ some r
      → Waited r
      → Joined ssid (joined clock radio ssid o)
  joined_lem ssid o (true, w) e h = rw e (
    true,
    record { current = ssid },
    radio.no_sleep w,
    refl,
    refl,
    lawful.no_sleep_connected w ∙ h,
  )
  joined_lem ssid o (false, w) e h = rw e (
    false,
    record { current = "" },
    radio.disconnect w,
    refl,
    refl,
    lawful.disconnect_connected w,
  )

  -- With fuel of a round for each millisecond, and a timeout of 2 ^ 31 ms at most, a connection attempt
  -- ends. It succeeds with the network it was for, connected, or it fails with no network,
  -- disconnected.
  pub connect_ends :
      (fuel : ℕ) (ssid pass static_ip gateway : String) (timeout : ℕ) (n : NetworkManager) (w : W)
      → timeout ≤ 2 ^ 31
      → timeout ≤ fuel
      → (b : Bool) × (n' : NetworkManager) × (w' : W) × (connect clock radio
            (suc fuel)
            ssid
            pass
            static_ip
            gateway
            timeout
            n
            w
          ≡ some (b, n', w'))
        × (n'.current ≡ (if b then ssid else ""))
        × (radio.connected w' ≡ b)
  unfolding connect await_join
  connect_ends fuel ssid pass static_ip gateway timeout n w small enough =
      elim (Bool-cases (str_eq n.current ssid && radio.connected w)) [
        | inl there ↦
            rw there (true, n, w, refl, ground (arith, eq_iff n.current ssid), ground arith)
        | inr away ↦
            let w' = started clock radio ssid pass static_ip gateway w in
            let waited =
              while_below_ends clock (λ v. v) (join_round clock radio) (λ v. (false, v))
                (λ _. Unit {0}) Waited (clock.elapsed w') timeout (λ _ _. tt)
                (λ v _ _ _. join_round-Proceeds v) small fuel w' tt (omega arith) (omega arith)
                (omega arith) in
            rw away (joined_lem ssid _ waited.0 waited.1 waited.2)
      ]
