-- ===== src/Web/Firing.antt =====
-- What a request to a binding's path does, through the server's choice of a handler
-- (src/adapters/triggers/HttpRouteTrigger.cpp).
use mathlib.Core.Bool.{false≢true}
use esp32_sequencer.Base.{
  ℕ, String, ◌≡◌, refl, sym, ap, ◌∙◌, ◌⊎◌, inl, inr, Bool, true, false, Option, none, some, List,
  [], ◌∷◌, ◌++◌, All, Bool-cases, if◌then◌else◌,
}
use esp32_sequencer.Base.Result.{Result, ok, err}
use esp32_sequencer.Base.Map.{find}
use esp32_sequencer.Json.{Fields, obj, ArduinoJson}
use esp32_sequencer.Model.{Sequence}
use esp32_sequencer.Registry.{Registry}
use esp32_sequencer.Store.{Persistence, find_by_id}
use esp32_sequencer.Settings.{Preferences}
use esp32_sequencer.Triggers.{RouteActive, Reply, error_body, answer as reply_to, respond, handle}
use esp32_sequencer.Triggers.Replies.{coerced}
use esp32_sequencer.Device.{Device, enqueue_run}
use esp32_sequencer.Device.Runs.{Offered, enqueue_run-Offered}
use esp32_sequencer.System.{routed, route_request}
use esp32_sequencer.Web.{
  Method, Handler, Route, Request, on, fixed_routes, binding_routes, routes, Server,
  first_accepting, IsServer, Site, answer, answered, serve,
}
use esp32_sequencer.Web.Bindings.{IsAttached, Attached}

module _ (server : Server) (lawful : IsServer server) (req : Request) where
  -- None of the routes takes the request.
  abbrev pub Refused : List Route → Type 0
  Refused rs = All (λ r. server.accepts r req ≡ false) rs

  abbrev pub route_of : String × String → Route
  route_of (path, id) = on path Method.http_post (Handler.binding id)

  -- Only handlers of the binding take the request.
  abbrev pub OnlyFrom : String → List (String × String) → Type 0
  OnlyFrom id hs = All (λ h. server.accepts (route_of h) req ≡ true → h.1 ≡ id) hs

  abbrev chosen : List Route → Option Route
  chosen rs = first_accepting server.accepts rs req

  chosen-Refused : (rs rest : List Route) → Refused rs → chosen (rs ++ rest) ≡ chosen rest
  unfolding first_accepting
  chosen-Refused [] rest h = refl
  chosen-Refused (r ∷ rs) rest h = rw (h.0) (chosen-Refused rs rest h.1)

  chosen-append_none : (rs rest : List Route) → chosen rs ≡ none → chosen (rs ++ rest) ≡ chosen rest
  unfolding first_accepting
  chosen-append_none [] rest h = refl
  chosen-append_none (r ∷ rs) rest h = elim (Bool-cases (server.accepts r req)) [
    | inl e ↦ absurd (some_is_none (sym (ap (λ b. if b then some r else chosen rs) e) ∙ h))
    | inr e ↦
        rw e (chosen-append_none rs rest (sym (ap (λ b. if b then some r else chosen rs) e) ∙ h))
  ]
    where
      some_is_none : some r ≡ none → ⊥
      some_is_none q = cc

  chosen-append_some :
      (rs rest : List Route) (k : Route) → chosen rs ≡ some k → chosen (rs ++ rest) ≡ some k
  unfolding first_accepting
  chosen-append_some [] rest k h = absurd (none_is_some h)
    where
      none_is_some : none ≡ some k → ⊥
      none_is_some q = cc
  chosen-append_some (r ∷ rs) rest k h = elim (Bool-cases (server.accepts r req)) [
    | inl e ↦ rw e (sym (ap (λ b. if b then some r else chosen rs) e) ∙ h)
    | inr e ↦
        rw e (chosen-append_some rs rest k (sym (ap (λ b. if b then some r else chosen rs) e) ∙ h))
  ]

  -- The handler that is chosen, if any, is one of the binding.
  chosen-OnlyFrom :
      (id : String) (hs : List (String × String))
      → OnlyFrom id hs
      → (chosen (binding_routes hs) ≡ none)
        ⊎ ((path : String) × (chosen (binding_routes hs) ≡ some (route_of (path, id))))
  unfolding binding_routes first_accepting
  chosen-OnlyFrom id [] h = inl refl
  chosen-OnlyFrom id ((p, i) ∷ hs) h = elim (chosen-OnlyFrom id hs h.1) [
    | inr (path, e) ↦ inr (path, chosen-append_some (binding_routes hs) _ _ e)
    | inl e ↦
        let skip = chosen-append_none (binding_routes hs) (route_of (p, i) ∷ []) e in
        elim (Bool-cases (server.accepts (route_of (p, i)) req)) [
          | inr not_it ↦ inl (skip ∙ rw not_it refl)
          | inl it ↦ inr (p, skip ∙ rw it (ap (λ x. some (route_of (p, x))) (h.0 it)))
        ]
  ]

  chosen-IsAttached :
      (path id : String) (hs : List (String × String))
      → IsAttached path id hs
      → OnlyFrom id hs
      → req.method ≡ Method.http_post
      → req.path ≡ path
      → (path' : String) × (chosen (binding_routes hs) ≡ some (route_of (path', id)))
  unfolding binding_routes first_accepting
  chosen-IsAttached path id [] a h m e = absurd a
  chosen-IsAttached path id ((p, i) ∷ hs) (inr a) h m e =
      let r = chosen-IsAttached path id hs a h.1 m e in
      (r.0, chosen-append_some (binding_routes hs) _ _ r.1)
  chosen-IsAttached path id ((p, i) ∷ hs) (inl a) h m e = elim (chosen-OnlyFrom id hs h.1) [
    | inr (q, f) ↦ (q, chosen-append_some (binding_routes hs) _ _ f)
    | inl f ↦
        let taken =
          lawful.takes (route_of (p, i)) req m (e ∙ sym a.0) (λ q. absurd (false≢true q)) in
        (
          p,
          chosen-append_none (binding_routes hs) (route_of (p, i) ∷ []) f
              ∙ rw taken (ap (λ x. some (route_of (p, x))) a.1),
        )
  ]

  -- Behind handlers that refuse the request, the one that is attached next is chosen.
  chosen-next :
      (newer older : List (String × String)) (path id : String)
      → Refused (binding_routes older)
      → req.method ≡ Method.http_post
      → req.path ≡ path
      → chosen (binding_routes (newer ++ (path, id) ∷ older)) ≡ some (route_of (path, id))
  unfolding binding_routes first_accepting
  chosen-next [] older path id h m e =
      let taken = lawful.takes (route_of (path, id)) req m e (λ q. absurd (false≢true q)) in
      chosen-Refused (binding_routes older) (route_of (path, id) ∷ []) h ∙ rw taken refl
  chosen-next ((p, i) ∷ newer) older path id h m e =
      chosen-append_some (binding_routes (newer ++ (path, id) ∷ older)) _ _
        (chosen-next newer older path id h m e)

  module _ {W P G F : Type 0} (lib : ArduinoJson) (persistence : Persistence P)
      (prefs : Preferences F) (rand : G → ℕ × G) (known : String → Bool) (registry : Registry W)
      (page : Handler → String) where
    abbrev pub served : Site W P G F → Option Reply × Site W P G F
    served s = serve lib persistence prefs rand known registry page server req s

    served-binding :
        (path id : String) (s : Site W P G F)
        → Refused fixed_routes
        → chosen (binding_routes s.device.manager.triggers.handlers) ≡ some (route_of (path, id))
        → served s ≡ (
          some (route_request req.params id s.device).0,
          record s { device = (route_request req.params id s.device).1 },
        )
    unfolding serve answer
    served-binding path id s refused h =
        let hs = s.device.manager.triggers.handlers in
        ap (λ o. answered lib persistence prefs rand known registry page server o req s)
          (lawful.in_order (routes hs) req
            ∙ chosen-Refused fixed_routes (binding_routes hs) refused
            ∙ h)

    -- What the coercion of the query's arguments leads to.
    abbrev pub Fired : RouteActive → Result Fields → Site W P G F → Type 0
    Fired a (ok fs) s =
        (d : Device W P G) × (served s ≡ (some (200, "queued"), record s { device = d }))
        × Offered a.sequence_id (obj fs) s.device d
    Fired a (err e) s = served s ≡ (some (400, error_body e), s)

    abbrev lookup : Site W P G F → String → Option Sequence
    lookup s = λ sid. find_by_id sid s.device.sequences

    reply_to-Fired :
        (id : String) (a : RouteActive) (r : Result Fields) (s : Site W P G F)
        → served s ≡ (
          some (routed (reply_to a.sequence_id r) s.device).0,
          record s { device = (routed (reply_to a.sequence_id r) s.device).1 },
        )
        → Fired a r s
    reply_to-Fired id a (ok fs) s h = (
      enqueue_run a.sequence_id (obj fs) s.device,
      h,
      enqueue_run-Offered a.sequence_id (obj fs) s.device,
    )
    reply_to-Fired id a (err e) s h = h

    -- With a server that asks the handlers in the order in which they are attached: where every route
    -- that is bound has a handler, and of all handlers only those of one binding take the request, a
    -- POST on the path of that binding answers 200 and offers the queue the run of its sequence with
    -- the arguments that the coercion gives, which is dropped where a run is waiting, or, where the
    -- coercion fails, answers 400 with its error and changes nothing.
    pub served-Fired :
        (id : String) (a : RouteActive) (s : Site W P G F)
        → Attached s.device.manager.triggers
        → find id s.device.manager.triggers.routes ≡ some a
        → req.method ≡ Method.http_post
        → req.path ≡ a.path
        → Refused fixed_routes
        → OnlyFrom id s.device.manager.triggers.handlers
        → Fired a (coerced (lookup s) req.params a) s
    unfolding route_request handle
    served-Fired id a s attached bound m p refused only =
        let r =
          chosen-IsAttached a.path id s.device.manager.triggers.handlers (attached id a bound) only
            m p in
        reply_to-Fired id a (coerced (lookup s) req.params a) s (
          served-binding r.0 id s refused r.1
          ∙ ap
              (λ o. (
                some (routed (respond (lookup s) req.params o) s.device).0,
                record s { device = (routed (respond (lookup s) req.params o) s.device).1 },
              ))
              bound)

    -- With a server that asks the handlers in the order in which they are attached: where neither a
    -- fixed route nor an older handler of a binding takes the request, a POST on the path of a
    -- handler whose binding is gone is answered 410, and changes nothing, whichever handlers, of that
    -- path too, have been attached since.
    pub served-gone :
        (newer older : List (String × String)) (path id : String) (s : Site W P G F)
        → s.device.manager.triggers.handlers ≡ newer ++ (path, id) ∷ older
        → find id s.device.manager.triggers.routes ≡ none
        → req.method ≡ Method.http_post
        → req.path ≡ path
        → Refused fixed_routes
        → Refused (binding_routes older)
        → served s ≡ (some (410, "{\"error\":\"binding gone\"}"), s)
    unfolding route_request handle
    served-gone newer older path id s split gone m p refused earlier =
        served-binding path id s refused (
          ap (λ hs. chosen (binding_routes hs)) split ∙ chosen-next newer older path id earlier m p)
        ∙ ap
            (λ o. (
              some (routed (respond (lookup s) req.params o) s.device).0,
              record s { device = (routed (respond (lookup s) req.params o) s.device).1 },
            ))
            gone
