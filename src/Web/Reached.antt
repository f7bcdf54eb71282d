-- ===== src/Web/Reached.antt =====
-- A request to a binding's path on a device that has started and run (src/main.cpp,
-- src/adapters/triggers/HttpRouteTrigger.cpp).
use esp32_sequencer.Base.{ℕ, String, ◌≡◌, Bool, some}
use esp32_sequencer.Base.Map.{find}
use esp32_sequencer.Json.{ArduinoJson}
use esp32_sequencer.Registry.{Registry}
use esp32_sequencer.Store.{Persistence, find_by_id}
use esp32_sequencer.Settings.{Preferences}
use esp32_sequencer.Triggers.{RouteActive}
use esp32_sequencer.Triggers.Replies.{coerced}
use esp32_sequencer.Device.{Hardware}
use esp32_sequencer.Device.Boot.{powered, enter_runtime_mode}
use esp32_sequencer.System.{Reach}
use esp32_sequencer.System.Routed.{Reach-HasRoutes, enter_runtime_mode-HasRoutes}
use esp32_sequencer.Web.{Method, Handler, Request, fixed_routes, Server, IsServer, Site}
use esp32_sequencer.Web.Firing.{Refused, OnlyFrom, Fired, served-Fired}

module _ (server : Server) (lawful : IsServer server) (req : Request) {W P G F : Type 0}
    (hw : Hardware W) (lib : ArduinoJson) (persistence : Persistence P) (prefs : Preferences F)
    (rand : G → ℕ × G) (known : String → Bool) (registry : Registry W)
    (page : Handler → String) where
  -- With a server that asks the handlers in the order in which they are attached, on a device that
  -- has started, behind any requests, hits and rounds of the loop: take a POST on the path of a
  -- route that is bound, which of all handlers only those of its binding take. Where the coercion of
  -- the query fails, the answer is 400 with its error, and nothing changes. Else the answer is 200,
  -- and the run of the binding's sequence with the arguments that the coercion gives is in the queue
  -- after, if the queue is free; if a run is waiting, the new one is dropped and nothing changes,
  -- and the answer is 200 too.
  pub served-Reach :
      (p : P) (g : G) (w : W) (s : Site W P G F) (id : String) (a : RouteActive)
      → Reach hw lib registry persistence rand known
          (enter_runtime_mode lib persistence rand known (powered p g w))
          s.device
      → find id s.device.manager.triggers.routes ≡ some a
      → req.method ≡ Method.http_post
      → req.path ≡ a.path
      → Refused server lawful req fixed_routes
      → OnlyFrom server lawful req id s.device.manager.triggers.handlers
      → Fired server lawful req lib persistence prefs rand known registry page a
          (coerced (λ sid. find_by_id sid s.device.sequences) req.params a)
          s
  served-Reach p g w s id a reach bound method path refused only =
      served-Fired server lawful req lib persistence prefs rand known registry page id a s
        (Reach-HasRoutes lib persistence rand known hw registry reach
          (enter_runtime_mode-HasRoutes lib persistence rand known p g w))
        bound method path refused only
