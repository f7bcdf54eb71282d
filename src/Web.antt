-- ===== src/Web.antt =====
-- The device's web server: the routes that `startRuntimeHttp` (src/main.cpp), `registerRoutes`
-- (src/ApiServer.cpp) and the route trigger (src/adapters/triggers/HttpRouteTrigger.cpp) attach, in
-- the order in which they do, and what a request does. The server library is the record `Server`.
pub mod Choice
pub mod Outcome
pub mod Bindings
pub mod Firing
pub mod Reached
pub mod Tests
use Prim.Native.Char.{code}
use Prim.Native.String.{◌++◌ as cat}
use esp32_sequencer.Base.{
  ℕ, String, ◌≡◌, Bool, true, false, Option, none, some, List, [], ◌∷◌, ◌++◌, ◌||◌, ◌&&◌, not, ◌==◌,
  str_eq, if◌then◌else◌, ◌⊎◌, inl, inr, ◌≤◌, ◌<◌, ◌*◌,
}
use esp32_sequencer.Json.{Json, null, ArduinoJson}
use esp32_sequencer.Registry.{Registry}
use esp32_sequencer.Store.{Persistence}
use esp32_sequencer.Settings.{Preferences, Config}
use esp32_sequencer.Settings.Form.{Params, strip_prefix}
use esp32_sequencer.Settings.Setup.{Served}
use esp32_sequencer.Triggers.{Reply}
use esp32_sequencer.Device.{Device}
use esp32_sequencer.Device.Boot.{get_settings, post_save, post_reset, post_setup}
use esp32_sequencer.Api.{
  get_schema, get_sequences, get_triggers, get_status, put_sequences, put_sequence, delete_sequence,
  put_triggers, post_run, post_run_json,
}
use esp32_sequencer.System.{route_request}

pub data Method : Type 0 where
  http_get http_post http_put http_delete : Method

-- The handlers, each one lambda of the source; that of a binding's route has captured its id.
pub data Handler : Type 0 where
  reset setup landing edit bindings settings save : Handler
  schema sequences triggers status : Handler
  sequences_put sequence_put sequence_delete triggers_put : Handler
  run run_json : Handler
  binding : String → Handler

-- A handler as it is attached: by `on`, or as an `AsyncCallbackJsonWebHandler`, which may be given a
-- limit for the length of the content by `setMaxContentLength`.
pub record Route : Type 0 where
  pub is_json : Bool
  pub method : Method
  pub path : String
  pub handler : Handler
  pub max_content : Option ℕ

-- What the library makes of a request: `has_json` is whether the content is declared as JSON,
-- `length` is its length, and `json` the document that it is, if it is one.
pub record Request : Type 0 where
  pub method : Method
  pub path : String
  pub has_json : Bool
  pub id : Option String
  pub params : List (String × String)
  pub form : Params
  pub length : ℕ
  pub json : Option Json

abbrev pub on : String → Method → Handler → Route
on p m h = record { is_json = false; method = m; path = p; handler = h; max_content = none }

abbrev pub json_handler : String → Method → Handler → Option ℕ → Route
json_handler p m h max = record {
  is_json = true;
  method = m;
  path = p;
  handler = h;
  max_content = max;
}

-- The routes of `startRuntimeHttp`.
abbrev pub main_routes : List Route
main_routes =
    on "/reset" Method.http_post Handler.reset
    ∷ on "/setup" Method.http_post Handler.setup
    ∷ on "/" Method.http_get Handler.landing
    ∷ on "/edit" Method.http_get Handler.edit
    ∷ on "/triggers" Method.http_get Handler.bindings
    ∷ on "/settings" Method.http_get Handler.settings
    ∷ on "/save" Method.http_post Handler.save
    ∷ []

-- The routes of `ApiServer::registerRoutes`.
abbrev pub api_routes : List Route
api_routes =
    on "/api/schema" Method.http_get Handler.schema
    ∷ on "/api/sequences" Method.http_get Handler.sequences
    ∷ on "/api/triggers" Method.http_get Handler.triggers
    ∷ on "/api/status" Method.http_get Handler.status
    ∷ json_handler "/api/sequences" Method.http_put Handler.sequences_put (some (64 * 1024))
    ∷ json_handler "/api/sequence" Method.http_put Handler.sequence_put (some (32 * 1024))
    ∷ on "/api/sequence" Method.http_delete Handler.sequence_delete
    ∷ json_handler "/api/triggers" Method.http_put Handler.triggers_put (some (32 * 1024))
    ∷ on "/api/run" Method.http_post Handler.run
    ∷ json_handler "/api/run" Method.http_post Handler.run_json none
    ∷ []

abbrev pub fixed_routes : List Route
fixed_routes = main_routes ++ api_routes

-- The routes of `registerHandler`; the list of the bindings' handlers has the last one first.
unfoldable pub binding_routes : List (String × String) → List Route
binding_routes [] = []
binding_routes ((path, id) ∷ hs) =
    binding_routes hs ++ on path Method.http_post (Handler.binding id) ∷ []

abbrev pub routes : List (String × String) → List Route
routes handlers = fixed_routes ++ binding_routes handlers

-- ESPAsyncWebServer: whether a handler takes a request, and the handler it is given to; what a JSON
-- handler with a limit makes of the content, which is a reply of its own or the document for the
-- function it was made with; and the limit of a JSON handler that was given none.
pub record Server : Type 0 where
  pub accepts : Route → Request → Bool
  pub select : List Route → Request → Option Route
  pub read : ℕ → Request → Reply ⊎ Json
  pub default_max : ℕ

unfoldable pub first_accepting : (Route → Request → Bool) → List Route → Request → Option Route
first_accepting accepts [] req = none
first_accepting accepts (r ∷ rs) req =
    if accepts r req then some r else first_accepting accepts rs req

-- The path of the request is that of the route, or is below it.
abbrev pub covers : String → String → Bool
covers p path = str_eq p path || (elim (strip_prefix (cat p "/") path) [ none ↦ false | _ ↦ true ])

-- The path of a route has no `*`.
abbrev pub no_wildcard : String → Bool
no_wildcard String.[] = true
no_wildcard (String.◌∷◌ c s) = not (code c == b'*') && no_wildcard s

-- What the server documents: handlers are asked in the order in which they are attached; one that is
-- attached by `on` takes the requests of its method and path, and a JSON handler those of them whose
-- content is JSON; the fixed routes, which have no wildcard, take only requests of their method
-- with their path or one below it; and a JSON handler answers 413 to a content beyond its limit and
-- 400 to one within it that is no JSON document, and passes on the document else.
pub record IsServer (server : Server) : Type 0 where
  pub in_order :
      (rs : List Route) (req : Request)
      → server.select rs req ≡ first_accepting server.accepts rs req
  pub takes :
      (r : Route) (req : Request)
      → req.method ≡ r.method
      → req.path ≡ r.path
      → (r.is_json ≡ true → req.has_json ≡ true)
      → server.accepts r req ≡ true
  pub own_method : (r : Route) (req : Request) → server.accepts r req ≡ true → req.method ≡ r.method
  pub own_path :
      (r : Route) (req : Request)
      → no_wildcard r.path ≡ true
      → server.accepts r req ≡ true
      → covers r.path req.path ≡ true
  pub too_long :
      (max : ℕ) (req : Request)
      → max < req.length
      → (reply : Reply) × (server.read max req ≡ inl reply) × (reply.0 ≡ 413)
  pub no_document :
      (max : ℕ) (req : Request)
      → req.length ≤ max
      → req.json ≡ none
      → (reply : Reply) × (server.read max req ≡ inl reply) × (reply.0 ≡ 400)
  pub passes :
      (max : ℕ) (req : Request) (doc : Json)
      → req.length ≤ max
      → req.json ≡ some doc
      → server.read max req ≡ inr doc

-- The limit of a JSON handler.
abbrev pub limit : Server → Route → ℕ
limit server r = elim r.max_content [ none ↦ server.default_max | some n ↦ n ]

-- The device, its settings, and their flash.
pub record Site (W P G F : Type 0) : Type 0 where
  pub device : Device W P G
  pub config : Config
  pub prefs : F
  pub restarts : Bool

module _ {W P G F : Type 0} where
  abbrev pub on_device : Site W P G F → Reply × Device W P G → Reply × Site W P G F
  on_device s (reply, d) = (reply, record s { device = d })

  abbrev pub on_settings : Site W P G F → Served F → Reply × Site W P G F
  on_settings s v =
      ((v.status, v.body), record s { config = v.config; prefs = v.prefs; restarts = v.restarts })

  -- The pages are made by the build; `page` gives them by the handler.
  module _ (lib : ArduinoJson) (persistence : Persistence P) (prefs : Preferences F)
      (rand : G → ℕ × G) (known : String → Bool) (registry : Registry W)
      (page : Handler → String) where
    -- The handlers; `doc` is the document that a JSON handler passes on.
    unfoldable pub answer : Handler → Json → Request → Site W P G F → Reply × Site W P G F
    answer Handler.reset doc req s = on_settings s (post_reset prefs s.config s.prefs)
    answer Handler.setup doc req s = on_settings s (post_setup prefs s.config s.prefs)
    answer Handler.landing doc req s = ((200, page Handler.landing), s)
    answer Handler.edit doc req s = ((200, page Handler.edit), s)
    answer Handler.bindings doc req s = ((200, page Handler.bindings), s)
    answer Handler.settings doc req s = on_settings s (get_settings prefs s.config s.prefs)
    answer Handler.save doc req s = on_settings s (post_save prefs req.form s.config s.prefs)
    answer Handler.schema doc req s = (get_schema lib registry, s)
    answer Handler.sequences doc req s = (get_sequences lib s.device, s)
    answer Handler.triggers doc req s = (get_triggers lib s.device, s)
    answer Handler.status doc req s = (get_status lib s.device, s)
    answer Handler.sequences_put doc req s =
        on_device s (put_sequences lib persistence rand known doc s.device)
    answer Handler.sequence_put doc req s =
        on_device s (put_sequence lib persistence rand known doc s.device)
    answer Handler.sequence_delete doc req s =
        on_device s (delete_sequence lib persistence rand req.id s.device)
    answer Handler.triggers_put doc req s =
        on_device s (put_triggers lib persistence rand registry doc s.device)
    answer Handler.run doc req s = on_device s (post_run req.id s.device)
    answer Handler.run_json doc req s = on_device s (post_run_json req.id doc s.device)
    answer (Handler.binding id) doc req s = on_device s (route_request req.params id s.device)

    -- What is done with the content by a JSON handler.
    abbrev pub passed : Route → Reply ⊎ Json → Request → Site W P G F → Reply × Site W P G F
    passed r (inl reply) req s = (reply, s)
    passed r (inr doc) req s = answer r.handler doc req s

    abbrev pub responded : Server → Route → Request → Site W P G F → Reply × Site W P G F
    responded server r req s =
        if r.is_json
        then passed r (server.read (limit server r) req) req s
        else answer r.handler null req s

    -- What the library does where no handler takes a request changes nothing here.
    abbrev pub answered :
        Server → Option Route → Request → Site W P G F → Option Reply × Site W P G F
    answered server none req s = (none, s)
    answered server (some r) req s = let (reply, s') = responded server r req s in (some reply, s')

    unfoldable pub serve : Server → Request → Site W P G F → Option Reply × Site W P G F
    serve server req s =
        answered server (server.select (routes s.device.manager.triggers.handlers) req) req s
