-- ===== src/Device/Requests/Beside.antt =====
-- The world and the device of a run beside which requests come in (src/main.cpp).
use esp32_sequencer.Base.{
  ℕ, String, ◌≡◌, refl, ap, ◌∙◌, sym, Bool, false, true, ◌++◌, Option, none, some, List, [], ◌∷◌,
  if◌then◌else◌,
}
use mathlib.Core.Option.{map}
use esp32_sequencer.Base.Map.{find, find-map_values}
use esp32_sequencer.Json.{Json}
use esp32_sequencer.Registry.{Block, Predicate, Registry, resolve_block, resolve_predicate}
use esp32_sequencer.Interp.Simulation.{BlocksAgree, PredicatesAgree}
use esp32_sequencer.Device.{Device, enqueue_run}
use esp32_sequencer.Device.Requests.{
  Request, enqueue_all, Traffic, Busy, busy_block, busy_predicate, busy_registry, busy_delay,
}

module _ {W P G : Type 0} where
  -- The device with a request in its queue.
  abbrev pub queued : String → Json → Device W P G → Device W P G
  queued id args d = record d { pending_seq_id = id; pending_args = args; pending = true }

  enqueue_all-++ :
      (rs rs' : List Request) (d : Device W P G)
      → enqueue_all (rs ++ rs') d ≡ enqueue_all rs' (enqueue_all rs d)
  unfolding enqueue_all
  enqueue_all-++ [] rs' d = refl
  enqueue_all-++ ((id, args) ∷ rs) rs' d = enqueue_all-++ rs rs' (enqueue_run id args d)

  -- A queue that holds a request keeps it.
  enqueue_all-queued :
      (rs : List Request) (id : String) (args : Json) (d : Device W P G)
      → enqueue_all rs (queued id args d) ≡ queued id args d
  unfolding enqueue_all enqueue_run
  enqueue_all-queued [] id args d = refl
  enqueue_all-queued ((id', args') ∷ rs) id args d = enqueue_all-queued rs id args d

  -- The first request that came in is in the queue.
  abbrev pub after : List Request → Device W P G → Device W P G
  after [] d = d
  after ((id, args) ∷ rs) d = queued id args d

  pub enqueue_all-after :
      (rs : List Request) (d : Device W P G) → d.pending ≡ false → enqueue_all rs d ≡ after rs d
  unfolding enqueue_all enqueue_run
  enqueue_all-after [] d free = refl
  enqueue_all-after ((id, args) ∷ rs) d free =
      ap (enqueue_all rs) (when_free d.pending d (queued id args d) free)
      ∙ enqueue_all-queued rs id args d
    where
      when_free : (b : Bool) (x y : Device W P G) → b ≡ false → (if b then x else y) ≡ y
      when_free b x y h = rw h refl

  module _ (d : Device W P G) where
    -- The world of a busy run is that of the quiet run, and the device is `d` with the requests of
    -- the log enqueued.
    abbrev pub Beside : Busy W P G → W → Type 0
    Beside v w = (v.0 ≡ w) × (v.2 ≡ enqueue_all v.1 d)

    arrive-Beside :
        (rs : List Request) (log : List Request) (e : Device W P G)
        → e ≡ enqueue_all log d
        → enqueue_all rs e ≡ enqueue_all (log ++ rs) d
    arrive-Beside rs log e h = ap (enqueue_all rs) h ∙ sym (enqueue_all-++ log rs d)

    module _ (traffic : Traffic W) where
      busy_block-Agree : (o : Option (Block W)) → BlocksAgree Beside (map (busy_block traffic) o) o
      busy_block-Agree none = refl
      busy_block-Agree (some b) = (
        b,
        refl,
        λ doc kids v w rel. (
          ap (λ x. (b.run doc kids x).0) (sym rel.0),
          (ap (λ x. (b.run doc kids x).1) rel.0, arrive-Beside _ _ _ rel.1),
        ),
      )

      busy_predicate-Agree :
          (o : Option (Predicate W)) → PredicatesAgree Beside (map (busy_predicate traffic) o) o
      busy_predicate-Agree none = refl
      busy_predicate-Agree (some p) = (
        p,
        refl,
        λ doc v w rel. (
          ap (λ x. (p.test doc x).0) (sym rel.0),
          (ap (λ x. (p.test doc x).1) rel.0, arrive-Beside _ _ _ rel.1),
        ),
      )

      pub blocks-Agree :
          (r : Registry W) (t : String)
          → BlocksAgree Beside (resolve_block t (busy_registry traffic r)) (resolve_block t r)
      unfolding resolve_block
      blocks-Agree r t =
          rw (find-map_values (busy_block traffic) t r.blocks) (busy_block-Agree (find t r.blocks))

      pub predicates-Agree :
          (r : Registry W) (t : String)
          → PredicatesAgree Beside
              (resolve_predicate t (busy_registry traffic r))
              (resolve_predicate t r)
      unfolding resolve_predicate
      predicates-Agree r t =
          rw (find-map_values (busy_predicate traffic) t r.predicates)
            (busy_predicate-Agree (find t r.predicates))

      pub delay-Beside :
          (delay : ℕ → W → W) (ms : ℕ) (v : Busy W P G) (w : W)
          → Beside v w
          → Beside (busy_delay traffic delay ms v) (delay ms w)
      delay-Beside delay ms v w rel = (ap (delay ms) rel.0, arrive-Beside _ _ _ rel.1)
