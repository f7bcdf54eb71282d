-- ===== src/Triggers/Replies.antt =====
-- The replies of src/adapters/triggers/HttpRouteTrigger.cpp.
use esp32_sequencer.Base.{String, ◌≡◌, refl, ◌⊎◌, inl, inr, Option, none, some, List, []}
use esp32_sequencer.Base.Result.{Result, ok, err}
use esp32_sequencer.Base.Map.{Map, find}
use esp32_sequencer.Json.{Fields, obj}
use esp32_sequencer.Model.{Sequence}
use esp32_sequencer.Query.{coerce_query_args}
use esp32_sequencer.Triggers.{RouteActive, params_of, emplace_all, answer, respond, handle}

answer_code :
    (sid : String) (r : Result Fields)
    → (((answer sid r).0.0 ≡ 200)
        × ((fs : Fields) × (r ≡ ok fs) × ((answer sid r).1 ≡ some (sid, obj fs))))
      ⊎ (((answer sid r).0.0 ≡ 400) × (((e : String) × (r ≡ err e)) × ((answer sid r).1 ≡ none)))
answer_code sid (err e) = inr (refl, ((e, refl), refl))
answer_code sid (ok fs) = inl (refl, (fs, refl, refl))

abbrev pub coerced :
    (String → Option Sequence) → List (String × String) → RouteActive → Result Fields
coerced lookup params a =
    coerce_query_args a.default_args (params_of (lookup a.sequence_id)) (emplace_all params [])

respond_code :
    (lookup : String → Option Sequence) (params : List (String × String)) (o : Option RouteActive)
    → ((o ≡ none) × ((respond lookup params o).0.0 ≡ 410) × ((respond lookup params o).1 ≡ none))
      ⊎ ((a : RouteActive) × (o ≡ some a)
          × ((((respond lookup params o).0.0 ≡ 200)
                × ((fs : Fields) × (coerced lookup params a ≡ ok fs)
                    × ((respond lookup params o).1 ≡ some (a.sequence_id, obj fs))))
              ⊎ (((respond lookup params o).0.0 ≡ 400)
                  × (((e : String) × (coerced lookup params a ≡ err e))
                      × ((respond lookup params o).1 ≡ none)))))
respond_code lookup params none = inl (refl, refl, refl)
respond_code lookup params (some a) =
    inr (a, refl, answer_code a.sequence_id (coerced lookup params a))

-- A route replies 410 and runs nothing where its binding is gone. Else it replies 200, and hands a run
-- of the binding's sequence over with the arguments that the coercion gives, or the coercion fails,
-- and it replies 400 and runs nothing.
pub handle_code :
    (lookup : String → Option Sequence) (params : List (String × String)) (id : String)
    (routes : Map RouteActive)
    → ((find id routes ≡ none)
        × ((handle lookup params id routes).0.0 ≡ 410)
        × ((handle lookup params id routes).1 ≡ none))
      ⊎ ((a : RouteActive) × (find id routes ≡ some a)
          × ((((handle lookup params id routes).0.0 ≡ 200)
                × ((fs : Fields) × (coerced lookup params a ≡ ok fs)
                    × ((handle lookup params id routes).1 ≡ some (a.sequence_id, obj fs))))
              ⊎ (((handle lookup params id routes).0.0 ≡ 400)
                  × (((e : String) × (coerced lookup params a ≡ err e))
                      × ((handle lookup params id routes).1 ≡ none)))))
unfolding handle
handle_code lookup params id routes = respond_code lookup params (find id routes)
