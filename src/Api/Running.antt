-- ===== src/Api/Running.antt =====
-- When /api/run (src/ApiServer.cpp) hands a run over.
use esp32_sequencer.Base.{
  String, ◌≡◌, refl, inl, inr, Option, none, some, if◌then◌else◌, Bool-cases, arith,
}
use esp32_sequencer.Json.{Json, null}
use esp32_sequencer.Model.{Sequence}
use esp32_sequencer.Store.{find_by_id}
use esp32_sequencer.Device.{Device}
use esp32_sequencer.Device.Runs.{Offered, enqueue_run-Offered}
use esp32_sequencer.Api.{queue_found, queue_id, post_run}
use esp32_sequencer.Triggers.{Reply}

-- The stored sequence of the request's id, if it may run.
abbrev pub runnable : Option Sequence → Option Sequence
runnable none = none
runnable (some s) = if s.broken then none else some s

module _ {W P G : Type 0} where
  abbrev pub named : Option String → Device W P G → Option Sequence
  named none d = none
  named (some id) d = find_by_id id d.sequences

  -- What a request for a run of a sequence does: offer it to the queue, and answer 200 whether it
  -- is taken or dropped; or refuse it and leave the device.
  abbrev pub Handled : Option Sequence → Json → Device W P G → Reply × Device W P G → Type 0
  Handled none args d (r, d') = (d' ≡ d) × ((r.0 ≡ 200) → ⊥)
  Handled (some s) args d (r, d') = (r.0 ≡ 200) × Offered s.id args d d'

  queue_found-Handled :
      (o : Option Sequence) (args : Json) (d : Device W P G)
      → Handled (runnable o) args d (queue_found o args d)
  queue_found-Handled none args d = (refl, λ h. omega (arith, h))
  queue_found-Handled (some s) args d = elim (Bool-cases s.broken) [
    | inl e ↦ rw e (refl, λ h. omega (arith, h))
    | inr e ↦ rw e (refl, enqueue_run-Offered s.id args d)
  ]

  queue_id-Handled :
      (id : Option String) (args : Json) (d : Device W P G)
      → Handled (runnable (named id d)) args d (queue_id id args d)
  queue_id-Handled none args d = (refl, λ h. omega (arith, h))
  queue_id-Handled (some id) args d = queue_found-Handled (find_by_id id d.sequences) args d

  pub post_run-Handled :
      (id : Option String) (d : Device W P G)
      → Handled (runnable (named id d)) null d (post_run id d)
  unfolding post_run
  post_run-Handled id d = queue_id-Handled id null d
