-- ===== src/Tv/Address.antt =====
-- The loops of src/TvController.cpp end, and no event and no waiting changes the television that a
-- controller is for.
use esp32_sequencer.Base.{
  ℕ, suc, ◌+◌, ◌^◌, ◌%◌, ◌≤◌, ◌<◌, String, ◌≡◌, refl, ◌∙◌, Bool, true, false, Option, none, some,
  List, [], ◌∷◌, arith, Bool-cases, inl, inr,
}
use esp32_sequencer.Json.{ArduinoJson, Json}
use esp32_sequencer.Clock.{Clock, IsClock, Takes}
use esp32_sequencer.Clock.Ends.{Proceeds, Gives, while_below_ends}
use esp32_sequencer.Tv.{
  Event, Socket, Line, on_document, on_event, on_events, service, probed, tcp_round, await_tcp,
  open_round, await_open, open_line, connect_with_retry, send_key, pump_round, pump, build_path,
}

-- The library's calls are not late by 2 ^ 28 ms.
pub record IsSocket {W : Type 0} (clock : Clock W) (socket : Socket W) : Type 0 where
  pub probe_takes : (ip : String) (port : ℕ) (w : W) → Takes clock 0 w (socket.probe ip port w).1
  pub begin_takes :
      (ip : String) (port : ℕ) (path : String) (w : W)
      → Takes clock 0 w (socket.begin_ssl ip port path w)
  pub loop_takes : (w : W) → Takes clock 0 w (socket.loop w).1

module _ {C W : Type 0} (lib : ArduinoJson) (clock : Clock W) (ticking : IsClock clock)
    (socket : Socket W) (timely : IsSocket clock socket) (on_token : String → C → C) where
  -- The same television and the same world.
  abbrev Kept : Line C W → Line C W → Type 0
  Kept l l' = (l'.tv.ip ≡ l.tv.ip) × (l'.world ≡ l.world)

  on_document-Kept :
      (o : Option Json) (l : Line C W) → Kept l (on_document lib clock socket on_token o l)
  on_document-Kept none l = (refl, refl)
  on_document-Kept (some doc) l = (ground arith, ground arith)

  on_event-Kept : (e : Event) (l : Line C W) → Kept l (on_event lib clock socket on_token e l)
  unfolding on_event
  on_event-Kept Event.opened l = (refl, refl)
  on_event-Kept Event.closed l = (refl, refl)
  on_event-Kept (Event.message s) l = on_document-Kept (lib.deserialize s) l
  on_event-Kept Event.other l = (refl, refl)

  on_events-Kept :
      (es : List Event) (l : Line C W) → Kept l (on_events lib clock socket on_token es l)
  unfolding on_events
  on_events-Kept [] l = (refl, refl)
  on_events-Kept (e ∷ es) l =
      let first = on_event-Kept e l in
      let rest = on_events-Kept es (on_event lib clock socket on_token e l) in
      (rest.0 ∙ first.0, rest.1 ∙ first.1)

  service_lem :
      (l : Line C W)
      → ((service lib clock socket on_token l).tv.ip ≡ l.tv.ip)
        × Takes clock 0 l.world (service lib clock socket on_token l).world
  unfolding service
  service_lem l =
      let (es, w) = socket.loop l.world in
      let kept = on_events-Kept es (record l { world = w }) in
      (kept.0, rw kept.1 (timely.loop_takes l.world))

  module _ (ip : String) where
    abbrev AtIp : Line C W → Type 0
    AtIp l = l.tv.ip ≡ ip

    -- The end of the probing, in time for what follows.
    abbrev Probed : ℕ → ℕ → Bool × Line C W → Type 0
    Probed begun budget (false, l) = AtIp l
    Probed begun budget (true, l) =
        AtIp l × (begun ≤ clock.elapsed l.world) × (clock.elapsed l.world < begun + budget + 2 ^ 28)

    probed-Proceeds :
        (begun budget : ℕ) (l : Line C W) (o : Bool × W)
        → AtIp l
        → begun ≤ clock.elapsed l.world
        → clock.elapsed l.world < begun + budget
        → Takes clock 0 l.world o.1
        → Proceeds clock
            (λ k. k.world)
            (tcp_round lib clock socket on_token)
            (λ k. (false, k))
            AtIp
            (Probed begun budget)
            l
            (probed lib clock socket on_token o l)
    probed-Proceeds begun budget l (true, w) h low high t = (h, omega arith, omega arith)
    probed-Proceeds begun budget l (false, w) h low high t =
        let d = ticking.delay_takes 2000 w in (h, omega arith, omega arith)

    open_round-Proceeds :
        (l : Line C W)
        → AtIp l
        → Proceeds clock
            (λ k. k.world)
            (open_round lib clock socket on_token)
            (λ k. (false, k))
            AtIp
            (λ r. AtIp r.1)
            l
            (open_round lib clock socket on_token l)
    open_round-Proceeds l h =
        let l' = service lib clock socket on_token l in
        let served = service_lem l in
        let d = ticking.delay_takes 50 l'.world in
        elim (Bool-cases l'.tv.connected) [
          | inl up ↦ rw up (served.0 ∙ h)
          | inr down ↦ rw down (served.0 ∙ h, omega arith, omega arith)
        ]

    pump_round-Proceeds :
        (l : Line C W)
        → AtIp l
        → Proceeds clock
            (λ k. k.world)
            (pump_round lib clock socket on_token)
            (λ k. k)
            AtIp
            AtIp
            l
            (pump_round lib clock socket on_token l)
    pump_round-Proceeds l h =
        let l' = service lib clock socket on_token l in
        let served = service_lem l in
        let d = ticking.delay_takes 10 l'.world in (served.0 ∙ h, omega arith, omega arith)

    -- The connection attempt after the probing, and the whole of it.
    open_line-Gives :
        (fuel begun budget : ℕ) (r : Bool × Line C W)
        → budget ≤ 2 ^ 31
        → budget ≤ fuel
        → Probed begun budget r
        → Gives
            (λ r'. AtIp r'.1)
            (open_line lib clock socket on_token (suc fuel) (begun % 2 ^ 32) budget (some r))
    unfolding await_open
    open_line-Gives fuel begun budget (false, l) small enough h = ((false, l), refl, h)
    open_line-Gives fuel begun budget (true, l) small enough h =
        let path = build_path socket.encoded_name l.tv in
        let t = timely.begin_takes l.tv.ip 8002 path l.world in
        while_below_ends clock (λ k. k.world) (open_round lib clock socket on_token)
          (λ k. (false, k)) AtIp (λ r'. AtIp r'.1) begun budget (λ _ k. k)
          (λ l' k _ _. open_round-Proceeds l' k) small fuel
          (record l { world = socket.begin_ssl l.tv.ip 8002 path l.world }) h.0 (omega arith)
          (omega arith) (omega arith)

    pub connect_with_retry-Gives :
        (fuel budget : ℕ) (l : Line C W)
        → budget ≤ 2 ^ 31
        → budget ≤ fuel
        → AtIp l
        → Gives (λ r. AtIp r.1) (connect_with_retry lib clock socket on_token (suc fuel) budget l)
    unfolding connect_with_retry await_tcp
    connect_with_retry-Gives fuel budget l small enough h =
        let begun = clock.elapsed l.world in
        let waited =
          while_below_ends clock (λ k. k.world) (tcp_round lib clock socket on_token)
            (λ k. (false, k)) AtIp (Probed begun budget) begun budget (λ _ k. k)
            (λ l' k low high.
              probed-Proceeds begun budget l' (socket.probe l'.tv.ip 8002 l'.world) k low high
                (timely.probe_takes l'.tv.ip 8002 l'.world))
            small fuel l h (omega arith) (omega arith) (omega arith) in
        rw waited.1 (open_line-Gives fuel begun budget waited.0 small enough waited.2)

    pub pump-Gives :
        (fuel ms : ℕ) (l : Line C W)
        → ms ≤ 2 ^ 31
        → ms ≤ fuel
        → AtIp l
        → Gives AtIp (pump lib clock socket on_token (suc fuel) ms l)
    unfolding pump
    pump-Gives fuel ms l small enough h =
        while_below_ends clock (λ k. k.world) (pump_round lib clock socket on_token) (λ k. k) AtIp
          AtIp (clock.elapsed l.world) ms (λ _ k. k) (λ l' k _ _. pump_round-Proceeds l' k) small
          fuel l h (omega arith) (omega arith) (omega arith)

    pub send_key_ip :
        (key : String) (l : Line C W) → AtIp l → AtIp (send_key lib clock socket on_token key l).1
    unfolding send_key
    send_key_ip key l h = elim (Bool-cases l.tv.connected) [
      | inl up ↦ rw up h
      | inr down ↦ rw down h
    ]
