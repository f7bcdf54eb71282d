-- ===== src/Web/Tests.antt =====
-- A small web server with the documented choice of a handler, and requests to it.
use mathlib.Core.Path.{subst}
use esp32_sequencer.Base.{
  ℕ, String, ◌≡◌, refl, sym, inl, inr, Bool, true, false, ◌&&◌, ◌||◌, not, none, some, List, [],
  ◌∷◌, str_eq, eq_refl, ltb, Option, ◌⊎◌, ap, ◌∙◌, ◌≤◌, ◌<◌, ◌*◌, if◌then◌else◌, arith,
}
use esp32_sequencer.Base.Map.{Map, find, insert}
use esp32_sequencer.Base.Int.{pos}
use esp32_sequencer.Json.{Json, null, obj, field, end, int, str}
use esp32_sequencer.Model.{TriggerBinding}
use esp32_sequencer.Registry.{Registry, resolve_trigger}
use esp32_sequencer.Store.{
  find_by_id, replace_triggers, load_sequences, validate, validate_from, load_triggers,
}
use esp32_sequencer.Web.{
  Method, Handler, Route, Request, Server, IsServer, first_accepting, covers, json_handler, Site,
  serve, fixed_routes, binding_routes,
}
use esp32_sequencer.Web.Choice.{same_method, same_method_refl}
use esp32_sequencer.Web.Outcome.{ServedBy, serve-ServedBy, serve-post_run}
use esp32_sequencer.Web.Firing.{Refused, Fired, served-gone}
use esp32_sequencer.Device.{Device, seed_defaults_if_empty}
use esp32_sequencer.Device.Tests.{device, flash, board, registry}
use esp32_sequencer.Interp.Tests.{test_lib}
use esp32_sequencer.Settings.Tests.{Flash, prefs, blank, home}
use esp32_sequencer.System.{here, next, triggers_put}
use esp32_sequencer.Codec.{
  encode_triggers, encode_trigger_items, encode_trigger, decode_triggers, decode_trigger,
  decode_trigger_items, copied, decode_list_text, decode_triggers_text,
}
use esp32_sequencer.Device.Boot.{powered, enter_runtime_mode}
use esp32_sequencer.Web.Reached.{served-Reach}
use esp32_sequencer.Api.{post_run, put_triggers}
use esp32_sequencer.Device.Runs.{Offered}
use esp32_sequencer.Triggers.{
  Reply, RouteActive, apply_bindings, apply_all, apply_binding, bind_route,
}
use esp32_sequencer.Triggers.Replies.{coerced}

-- The handler takes the requests of its method with its path or one below it.
abbrev takes_it : Route → Request → Bool
takes_it r req =
    same_method req.method r.method && covers r.path req.path && (not r.is_json || req.has_json)

abbrev parsed : Option Json → Reply ⊎ Json
parsed none = inl (400, "")
parsed (some doc) = inr doc

abbrev small_server : Server
small_server = record {
  accepts = takes_it;
  select = first_accepting takes_it;
  read = λ max req. if ltb max req.length then inl (413, "") else parsed req.json;
  default_max = 16384;
}

same_method→≡ : (m n : Method) → same_method m n ≡ true → m ≡ n
same_method→≡ Method.http_get Method.http_get h = refl
same_method→≡ Method.http_get Method.http_post h = cc
same_method→≡ Method.http_get Method.http_put h = cc
same_method→≡ Method.http_get Method.http_delete h = cc
same_method→≡ Method.http_post Method.http_get h = cc
same_method→≡ Method.http_post Method.http_post h = refl
same_method→≡ Method.http_post Method.http_put h = cc
same_method→≡ Method.http_post Method.http_delete h = cc
same_method→≡ Method.http_put Method.http_get h = cc
same_method→≡ Method.http_put Method.http_post h = cc
same_method→≡ Method.http_put Method.http_put h = refl
same_method→≡ Method.http_put Method.http_delete h = cc
same_method→≡ Method.http_delete Method.http_get h = cc
same_method→≡ Method.http_delete Method.http_post h = cc
same_method→≡ Method.http_delete Method.http_put h = cc
same_method→≡ Method.http_delete Method.http_delete h = refl

and_both : (a b c : Bool) → a ≡ true → b ≡ true → c ≡ true → (a && b && c) ≡ true
and_both a b c h k l = rw (h, k, l) refl

or_left : (a b : Bool) → a ≡ true → (a || b) ≡ true
or_left a b h = rw h refl

json_taken : (a b : Bool) → (a ≡ true → b ≡ true) → (not a || b) ≡ true
json_taken true b h = h refl
json_taken false b h = refl

and_first : (a b c : Bool) → (a && b && c) ≡ true → a ≡ true
and_first true b c h = refl
and_first false b c h = h

and_second : (a b c : Bool) → (a && b && c) ≡ true → b ≡ true
and_second true true c h = refl
and_second true false c h = h
and_second false b c h = cc

read_long : (max n : ℕ) (x y : Reply ⊎ Json) → max < n → (if ltb max n then x else y) ≡ x
read_long max n x y h = ground (arith, h)

read_short : (max n : ℕ) (x y : Reply ⊎ Json) → n ≤ max → (if ltb max n then x else y) ≡ y
read_short max n x y h = ground (arith, h)

small_server-IsServer : IsServer small_server
small_server-IsServer = record {
  in_order = λ rs req. refl;
  takes = λ r req m p j.
      and_both (same_method req.method r.method) (covers r.path req.path) _
        (subst (λ x. same_method req.method x ≡ true) m (same_method_refl req.method))
        (or_left (str_eq r.path req.path) _
          (subst (λ x. str_eq r.path x ≡ true) (sym p) (eq_refl r.path)))
        (json_taken r.is_json req.has_json j);
  own_method = λ r req h.
      same_method→≡ req.method r.method
        (and_first (same_method req.method r.method) (covers r.path req.path) _ h);
  own_path = λ r req w h. and_second (same_method req.method r.method) (covers r.path req.path) _ h;
  too_long = λ max req long. ((413, ""), read_long max req.length _ _ long, refl);
  no_document =
      λ max req short e. ((400, ""), read_short max req.length _ _ short ∙ ap parsed e, refl);
  passes = λ max req doc short e. read_short max req.length _ _ short ∙ ap parsed e;
}

abbrev request : Method → String → Request
request m path = record {
  method = m;
  path = path;
  has_json = true;
  id = some "nothing";
  params = [];
  form = [];
  length = 24;
  json = some (obj (field "args" (obj (field "x" (int (pos 1)) end)) end));
}

abbrev known : String → Bool
known t = true

abbrev no_page : Handler → String
no_page h = ""

abbrev next_random : ℕ → ℕ × ℕ
next_random g = (g, g)

abbrev site_of : Device ℕ (Map String) ℕ → Site ℕ (Map String) ℕ Flash
site_of d = record { device = d; config = home; prefs = blank; restarts = false }

abbrev free : Device ℕ (Map String) ℕ
free = record device { pending = false }

-- The route of the sequences' PUT, and a request that is too long for it.
abbrev put_all : Route
put_all = json_handler "/api/sequences" Method.http_put Handler.sequences_put (some (64 * 1024))

abbrev long_put : Request
long_put = record (request Method.http_put "/api/sequences") { length = 65537 }

serve-ServedBy_example :
    ServedBy small_server small_server-IsServer test_lib flash prefs next_random known registry
      no_page put_all long_put
      (site_of device)
serve-ServedBy_example =
    serve-ServedBy small_server small_server-IsServer test_lib flash prefs next_random known
      registry no_page put_all long_put (site_of device)
      (inr (inr (inr (inr (inr (inr (inr (inr (inr (inr (inr (inl refl)))))))))))) refl
      (refl, refl, λ e. refl)

serve-post_run_example :
    (serve test_lib flash prefs next_random known registry no_page small_server
        (request Method.http_post "/api/run")
        (site_of free)
      ≡ (some (post_run (some "nothing") free).0, site_of (post_run (some "nothing") free).1))
    × (((post_run (some "nothing") free).0.0 ≡ 200)
        × Offered "nothing" null free (post_run (some "nothing") free).1)
unfolding find_by_id
serve-post_run_example =
    serve-post_run small_server small_server-IsServer test_lib flash prefs next_random known
      registry no_page (request Method.http_post "/api/run") (site_of free) refl refl

abbrev play : TriggerBinding
play = record {
  id = "t";
  type = "http-route";
  params = obj (field "path" (str "/play") end);
  sequence_id = "nothing";
  args = null;
  enabled = true;
}

abbrev with_routes : Registry ℕ
with_routes = record registry {
  triggers =
      (
        "http-route",
        record { type = "http-route"; label = "HTTP route"; fields = []; pauses_ble_scan = true },
      )
      ∷ [];
}

abbrev the_route : RouteActive
the_route = record { path = "/play"; sequence_id = "nothing"; default_args = null }

abbrev post_play : Request
post_play = request Method.http_post "/play"

fixed_routes-Refused : Refused small_server small_server-IsServer post_play fixed_routes
fixed_routes-Refused = (
  refl,
  (
    refl,
    (
      refl,
      (
        refl,
        (
          refl,
          (
            refl,
            (
              refl,
              (refl, (refl, (refl, (refl, (refl, (refl, (refl, (refl, (refl, (refl, tt)))))))))),
            ),
          ),
        ),
      ),
    ),
  ),
)

-- The device with the route of a binding, behind another handler of its path.
abbrev routed_site : List (String × String) → Site ℕ (Map String) ℕ Flash
routed_site older = site_of (record free {
  manager = record {
    active = ("t", "http-route") ∷ [];
    any_pauses = true;
    triggers = record {
      ble = [];
      routes = ("t", the_route) ∷ [];
      handlers = ("/play", "t") ∷ older;
    };
  };
})

-- A device that has started is given the binding.
abbrev bound_site : Site ℕ (Map String) ℕ Flash
bound_site =
    site_of
      (put_triggers test_lib flash next_random with_routes (encode_triggers (play ∷ []))
        (enter_runtime_mode test_lib flash next_random known (powered [] 7 0))).1

served-Reach_example :
    Fired small_server small_server-IsServer post_play test_lib flash prefs next_random known
      with_routes no_page the_route
      (coerced (λ sid. find_by_id sid bound_site.device.sequences) [] the_route)
      bound_site
unfolding find put_triggers encode_triggers encode_trigger_items encode_trigger decode_triggers
    decode_trigger decode_trigger_items replace_triggers apply_bindings apply_all apply_binding
    resolve_trigger insert bind_route enter_runtime_mode powered seed_defaults_if_empty copied
    load_sequences validate validate_from decode_list_text load_triggers decode_triggers_text
served-Reach_example =
    served-Reach small_server small_server-IsServer post_play board test_lib flash prefs next_random
      known with_routes no_page [] 7 0 bound_site "t" the_route
      (next here (
        triggers_put (encode_triggers (play ∷ []))
          (enter_runtime_mode test_lib flash next_random known (powered [] 7 0))))
      refl refl refl fixed_routes-Refused (λ h. refl, tt)

-- The route of `old` is gone; that of `t` has its path, and is attached later.
served-gone_example :
    serve test_lib flash prefs next_random known registry no_page small_server post_play
      (routed_site (("/play", "old") ∷ []))
    ≡ (some (410, "{\"error\":\"binding gone\"}"), routed_site (("/play", "old") ∷ []))
unfolding find binding_routes
served-gone_example =
    served-gone small_server small_server-IsServer post_play test_lib flash prefs next_random known
      registry no_page (("/play", "t") ∷ []) [] "/play" "old" (routed_site (("/play", "old") ∷ []))
      refl gone refl refl fixed_routes-Refused none_earlier
  where
    gone : find "old" (routed_site []).device.manager.triggers.routes ≡ none
    gone = refl

    none_earlier : Refused small_server small_server-IsServer post_play (binding_routes [])
    none_earlier = tt
