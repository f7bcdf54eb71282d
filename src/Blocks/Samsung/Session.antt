-- ===== src/Blocks/Samsung/Session.antt =====
-- Which television the session of src/adapters/blocks/SamsungTizenKeysBlock.cpp is with.
use esp32_sequencer.Base.{
  ℕ, suc, ◌^◌, ◌≤◌, String, ◌≡◌, ◌≢◌, refl, ◌∙◌, Bool, true, false, Option, none, some, arith,
  str_eq, eq_iff, Bool-cases, inl, inr,
}
use esp32_sequencer.Base.Int.{pos, to_uint32}
use esp32_sequencer.Json.{Json, ArduinoJson, as_text, get, or_default}
use esp32_sequencer.Registry.{RunResult, failed}
use esp32_sequencer.Settings.{Preferences, Config}
use esp32_sequencer.Clock.{Clock, IsClock}
use esp32_sequencer.Clock.Ends.{Gives}
use esp32_sequencer.Tv.{Socket, Line, configure, pump}
use esp32_sequencer.Tv.Address.{IsSocket, connect_with_retry-Gives, send_key_ip, pump-Gives}
use esp32_sequencer.Blocks.Samsung.{
  Remote, keep_token, need_connect, sent, send_on, connected_to, opened, press, with_key,
  run_samsung_key,
}

module _ {P W : Type 0} where
  -- A session that is open is with the television that the controller is for.
  abbrev pub IsSession : Remote P W → Type 0
  IsSession r = r.tv_ip ≢ "" → r.line.tv.ip ≡ r.tv_ip

  -- What holds at the end of a run for `ip`: the session is in order, and after a key that was sent it
  -- is open with `ip`.
  abbrev pub After : String → RunResult × Remote P W → Type 0
  After ip (RunResult.ok, r) = (r.line.tv.ip ≡ ip) × (r.tv_ip ≡ ip)
  After ip (failed e, r) = IsSession r

  module _ (lib : ArduinoJson) (prefs : Preferences P) (clock : Clock W) (ticking : IsClock clock)
      (socket : Socket W) (timely : IsSocket clock socket) where
    -- A session that is reused is open with the television that is asked for.
    reused :
        (ip : String) (r : Remote P W)
        → need_connect lib prefs clock socket ip r ≡ false
        → (r.tv_ip ≡ ip) × (r.tv_ip ≢ "")
    unfolding need_connect
    reused ip r h = ground (arith, eq_iff r.tv_ip ip, eq_iff r.tv_ip "")

    opened_ip :
        (ip : String) (r : Remote P W) → (opened lib prefs clock socket ip r).line.tv.ip ≡ ip
    unfolding configure
    opened_ip ip r = ground arith

    module _ (fuel : ℕ) (enough : 200 ≤ fuel) where
      pump_at :
          (ip : String) (ms : ℕ) (l : Line (Config × P) W)
          → ms ≤ 200
          → l.tv.ip ≡ ip
          → Gives
              (λ l'. l'.tv.ip ≡ ip)
              (pump lib clock socket (keep_token lib prefs clock socket) (suc fuel) ms l)
      pump_at ip ms l short h =
          pump-Gives lib clock ticking socket timely (keep_token lib prefs clock socket) ip fuel ms
            l (omega arith) (omega arith) h

      sent-After :
          (ip : String) (r : Remote P W) (o : Bool × Line (Config × P) W)
          → r.tv_ip ≡ ip
          → o.1.tv.ip ≡ ip
          → Gives (After ip) (sent lib prefs clock socket (suc fuel) r o)
      sent-After ip r (false, l) e h = (_, refl, λ open_session. absurd (open_session refl))
      sent-After ip r (true, l) e h =
          let l' = pump_at ip 80 l (omega arith) h in rw l'.1 (_, refl, (l'.2, e))

      send_on-After :
          (ip key : String) (r : Remote P W) (o : Option (Line (Config × P) W))
          → r.tv_ip ≡ ip
          → Gives (λ l. l.tv.ip ≡ ip) o
          → Gives (After ip) (send_on lib prefs clock socket (suc fuel) key r o)
      send_on-After ip key r o e (l, there, h) = rw there (
          sent-After ip r _ e (
            send_key_ip lib clock ticking socket timely (keep_token lib prefs clock socket) ip key l
              h))

      connected_to-After :
          (ip key : String) (r : Remote P W) (o : Option (Bool × Line (Config × P) W))
          (b : Bool × Line (Config × P) W)
          → r.tv_ip ≡ ""
          → o ≡ some b
          → b.1.tv.ip ≡ ip
          → Gives (After ip) (connected_to lib prefs clock socket (suc fuel) ip key r o)
      connected_to-After ip key r o (false, l) e there h =
          rw there (_, refl, λ open_session. absurd (open_session e))
      connected_to-After ip key r o (true, l) e there h =
          rw there (
            send_on-After ip key (record r { tv_ip = ip }) _ refl
              (pump_at ip 200 l (omega arith) h))

      press-After :
          (timeout : ℕ) (ip key : String) (r : Remote P W)
          → timeout ≤ 2 ^ 31
          → timeout ≤ fuel
          → IsSession r
          → Gives (After ip) (press lib prefs clock socket (suc fuel) timeout ip key r)
      press-After timeout ip key r small long session =
          elim (Bool-cases (need_connect lib prefs clock socket ip r)) [
            | inl fresh ↦
                let r' = opened lib prefs clock socket ip r in
                let o =
                  connect_with_retry-Gives lib clock ticking socket timely
                    (keep_token lib prefs clock socket) ip fuel timeout r'.line small long
                    (opened_ip ip r) in
                rw fresh (connected_to-After ip key r' _ o.0 refl o.1 o.2)
            | inr again ↦
                let same = reused ip r again in
                rw again (
                  send_on-After ip key r _ same.0
                    (pump_at ip 20 r.line (omega arith) (session same.1 ∙ same.0)))
          ]

      with_key-After :
          (timeout : ℕ) (ip : String) (key : Option String) (r : Remote P W)
          → timeout ≤ 2 ^ 31
          → timeout ≤ fuel
          → IsSession r
          → Gives (After ip) (with_key lib prefs clock socket (suc fuel) timeout ip key r)
      with_key-After timeout ip none r small long session = (_, refl, session)
      with_key-After timeout ip (some key) r small long session =
          elim (Bool-cases (str_eq key "")) [
            | inl empty ↦ rw empty (_, refl, session)
            | inr full ↦ rw full (press-After timeout ip key r small long session)
          ]

      -- `connect_timeout_ms`, as the loops take it.
      abbrev timeout_of : Json → ℕ
      timeout_of params =
          to_uint32 (or_default (lib.as_int (get params "connect_timeout_ms")) (pos 60000))

      -- A run for the television `ip` ends where the timeout is 2 ^ 31 ms at most and the fuel is a
      -- round for each of its milliseconds, 200 and one. From a session that is in order, where the key
      -- is sent the session is open with `ip` and the controller is for `ip`, whichever television the
      -- session was with; where the run fails the session is in order.
      pub run_samsung_key-After :
          (params : Json) (ip : String) (r : Remote P W)
          → as_text (get params "ip") ≡ some ip
          → timeout_of params ≤ 2 ^ 31
          → timeout_of params ≤ fuel
          → IsSession r
          → Gives (After ip) (run_samsung_key lib prefs clock socket (suc fuel) params r)
      unfolding run_samsung_key
      run_samsung_key-After params ip r named small long session =
          let timeout = timeout_of params in
          elim (Bool-cases (str_eq ip "")) [
            | inl empty ↦ rw (named, empty) (_, refl, session)
            | inr full ↦
                rw (named, full)
                  (with_key-After timeout ip (as_text (get params "key")) r small long session)
          ]
