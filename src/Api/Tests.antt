-- ===== src/Api/Tests.antt =====
-- Requests to src/ApiServer.cpp on a small device.
use esp32_sequencer.Base.{◌≡◌, refl, some}
use esp32_sequencer.Json.{null}
use esp32_sequencer.Device.Tests.{device, flash}
use esp32_sequencer.Interp.Tests.{test_lib}
use esp32_sequencer.Store.{find_by_id}
use esp32_sequencer.Api.{post_run_json, delete_sequence, unknown_sequence}
use esp32_sequencer.Api.Storing.{post_run_json-delete_sequence}

post_run_json-delete_sequence_example :
    (post_run_json
      (some "nothing")
      null
      (delete_sequence test_lib flash (λ g. (g, g)) (some "nothing") device).1).0
    ≡ unknown_sequence
unfolding find_by_id
post_run_json-delete_sequence_example =
    post_run_json-delete_sequence test_lib flash (λ g. (g, g)) "nothing" null device (refl, tt)
