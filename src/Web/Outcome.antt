-- ===== src/Web/Outcome.antt =====
-- What the server does with a request for a fixed route (src/main.cpp, src/ApiServer.cpp).
use mathlib.Core.Bool.{false≢true}
use esp32_sequencer.Base.{
  ℕ, String, ◌≡◌, refl, ap, ◌∙◌, ◌⊎◌, inl, inr, Bool, true, false, none, some, Option, ltb, ◌≤◌,
  ◌<◌, if◌then◌else◌, arith, Bool-cases,
}
use esp32_sequencer.Web.{
  Method, Handler, Route, Request, fixed_routes, routes, Server, IsServer, Site, limit, passed,
  responded, answer, answered, serve, on,
}
use esp32_sequencer.Json.{Json, null, ArduinoJson}
use esp32_sequencer.Registry.{Registry}
use esp32_sequencer.Store.{Persistence}
use esp32_sequencer.Settings.{Preferences}
use esp32_sequencer.Triggers.{Reply}
use esp32_sequencer.Api.{post_run}
use esp32_sequencer.Api.Running.{Handled, runnable, named, post_run-Handled}
use esp32_sequencer.Web.Choice.{is_run_json, In, IsFor, select-fixed_routes}

abbrev run_route : Route
run_route = on "/api/run" Method.http_post Handler.run

module _ (server : Server) (lawful : IsServer server) where
  module _ {W P G F : Type 0} (lib : ArduinoJson) (persistence : Persistence P)
      (prefs : Preferences F) (rand : G → ℕ × G) (known : String → Bool) (registry : Registry W)
      (page : Handler → String) where
    abbrev pub served : Request → Site W P G F → Option Reply × Site W P G F
    served req s = serve lib persistence prefs rand known registry page server req s

    abbrev pub by_handler : Route → Json → Request → Site W P G F → Option Reply × Site W P G F
    by_handler x doc req s = (
      some (answer lib persistence prefs rand known registry page x.handler doc req s).0,
      (answer lib persistence prefs rand known registry page x.handler doc req s).1,
    )

    -- The server answers with the status, and the site is the same.
    abbrev pub Refuses : ℕ → Request → Site W P G F → Type 0
    Refuses status req s = (reply : Reply) × (reply.0 ≡ status) × (served req s ≡ (some reply, s))

    -- What a JSON handler does: it refuses a content that is longer than its limit, and one that is
    -- no document, and it passes on the document else.
    abbrev pub JsonServed : Route → Request → Site W P G F → Type 0
    JsonServed x req s =
        ((limit server x < req.length) × Refuses 413 req s)
        ⊎ ((req.length ≤ limit server x) × (req.json ≡ none) × Refuses 400 req s)
        ⊎ ((req.length ≤ limit server x)
            × (doc : Json) × (req.json ≡ some doc)
            × (served req s ≡ by_handler x doc req s))

    -- What the server does with a request for a route.
    abbrev pub ServedBy : Route → Request → Site W P G F → Type 0
    ServedBy x req s =
        ((x.is_json ≡ false) × (served req s ≡ by_handler x null req s))
        ⊎ ((x.is_json ≡ true) × JsonServed x req s)

    abbrev respond : Route → Request → Site W P G F → Reply × Site W P G F
    respond x req s = responded lib persistence prefs rand known registry page server x req s

    abbrev pass : Route → Reply ⊎ Json → Request → Site W P G F → Reply × Site W P G F
    pass x o req s = passed lib persistence prefs rand known registry page x o req s

    chosen_lem :
        (x : Route) (req : Request) (s : Site W P G F)
        → server.select (routes s.device.manager.triggers.handlers) req ≡ some x
        → served req s ≡ (some (respond x req s).0, (respond x req s).1)
    unfolding serve
    chosen_lem x req s h =
        ap (λ o. answered lib persistence prefs rand known registry page server o req s) h

    plain_lem :
        (x : Route) (req : Request) (s : Site W P G F)
        → server.select (routes s.device.manager.triggers.handlers) req ≡ some x
        → x.is_json ≡ false
        → served req s ≡ by_handler x null req s
    plain_lem x req s h plain =
        chosen_lem x req s h
        ∙ ap
            (λ b.
              let v =
                if b
                then pass x (server.read (limit server x) req) req s
                else answer lib persistence prefs rand known registry page x.handler null req s in
              (some v.0, v.1))
            plain

    read_lem :
        (x : Route) (req : Request) (s : Site W P G F) (o : Reply ⊎ Json)
        → server.select (routes s.device.manager.triggers.handlers) req ≡ some x
        → x.is_json ≡ true
        → server.read (limit server x) req ≡ o
        → served req s ≡ (some (pass x o req s).0, (pass x o req s).1)
    read_lem x req s o h is_json e =
        chosen_lem x req s h
        ∙ ap
            (λ b.
              let v =
                if b
                then pass x (server.read (limit server x) req) req s
                else answer lib persistence prefs rand known registry page x.handler null req s in
              (some v.0, v.1))
            is_json
        ∙ ap (λ r. (some (pass x r req s).0, (pass x r req s).1)) e

    short_lem :
        (x : Route) (req : Request) (s : Site W P G F) (o : Option Json)
        → server.select (routes s.device.manager.triggers.handlers) req ≡ some x
        → x.is_json ≡ true
        → req.length ≤ limit server x
        → req.json ≡ o
        → JsonServed x req s
    short_lem x req s none h j short e =
        let r = lawful.no_document (limit server x) req short e in
        inr (inl (short, e, (r.0, r.2, read_lem x req s (inl r.0) h j r.1)))
    short_lem x req s (some doc) h j short e =
        let r = lawful.passes (limit server x) req doc short e in
        inr (inr (short, doc, e, read_lem x req s (inr doc) h j r))

    chosen-ServedBy :
        (x : Route) (req : Request) (s : Site W P G F)
        → server.select (routes s.device.manager.triggers.handlers) req ≡ some x
        → ServedBy x req s
    chosen-ServedBy x req s h = elim (Bool-cases x.is_json) [
      | inr plain ↦ inl (plain, plain_lem x req s h plain)
      | inl j ↦ inr (
        j,
        elim (Bool-cases (ltb (limit server x) req.length)) [
          | inl long ↦
              let lt : limit server x < req.length = ground (arith, long) in
              let r = lawful.too_long (limit server x) req lt in
              inl (lt, (r.0, r.2, read_lem x req s (inl r.0) h j r.1))
          | inr short ↦ short_lem x req s req.json h j (ground (arith, short)) refl
        ],
      )
    ]

    -- With a server that asks the handlers in the order in which they are attached, and reads JSON
    -- within a handler's limit: whichever routes the bindings have attached, a request of the method
    -- and path of a fixed route, declared as JSON where its handler is for JSON, is for that route,
    -- for all of the fixed routes but that of a run with arguments. A plain handler answers it. At a
    -- JSON handler a content that is longer than the handler's limit is answered 413, and one that
    -- is no document 400, and nothing changes; any other is answered by the handler, which is given
    -- the document.
    pub serve-ServedBy :
        (x : Route) (req : Request) (s : Site W P G F)
        → In x fixed_routes
        → is_run_json x.handler ≡ false
        → IsFor x req
        → ServedBy x req s
    serve-ServedBy x req s i other h =
        chosen-ServedBy x req s
          (select-fixed_routes server lawful x s.device.manager.triggers.handlers req i other h)

    -- With a server that asks the handlers in the order in which they are attached: a POST on
    -- /api/run, whatever its body and the kind of its content, is answered as one without arguments.
    -- Where its id is that of a stored sequence that is not broken, the answer is 200, and the run
    -- without arguments is in the queue after, if the queue is free; if a run is waiting, the new
    -- one is dropped and the device is the same, and the answer is 200 too. Else the answer is an
    -- error and the device is the same.
    pub serve-post_run :
        (req : Request) (s : Site W P G F)
        → req.method ≡ Method.http_post
        → req.path ≡ "/api/run"
        → (served req s ≡ (
          some (post_run req.id s.device).0,
          record s { device = (post_run req.id s.device).1 },
        ))
          × Handled (runnable (named req.id s.device)) null s.device (post_run req.id s.device)
    unfolding answer
    serve-post_run req s m p = (
      plain_lem run_route req s
          (select-fixed_routes server lawful run_route s.device.manager.triggers.handlers req
            is_fixed refl (m, p, λ e. absurd (false≢true e)))
          refl,
      post_run-Handled req.id s.device,
    )
      where
        is_fixed : In run_route fixed_routes
        is_fixed = inr (
            inr (
              inr
                (inr (inr (inr (inr (inr (inr (inr (inr (inr (inr (inr (inr (inl refl)))))))))))))))
