-- ===== src/Program/Tests.antt =====
-- The program's registry over a world that counts the milliseconds that were waited.
use esp32_sequencer.Base.{ℕ, ◌+◌, ◌≡◌, refl, inl, inr, true, false, none, List, [], ◌∷◌, arith}
use esp32_sequencer.Json.{null}
use esp32_sequencer.Registry.{RunResult, Block, resolve_block}
use esp32_sequencer.Defaults.{example}
use esp32_sequencer.Interp.{Ctx, done, run_sequence}
use esp32_sequencer.Interp.Tests.{test_lib}
use esp32_sequencer.System.Tests.{lib, lib-IsLawful}
use esp32_sequencer.Blocks.{
  Board, divider_block, repeat_block, if_block, wait_for_trigger_block, log_block, wait_block,
  wol_block,
}
use esp32_sequencer.Blocks.Wifi.{wifi_hop_schema}
use esp32_sequencer.Blocks.Ws.{ws_send_schema}
use esp32_sequencer.Blocks.Http.{http_request_schema}
use esp32_sequencer.Blocks.Samsung.{samsung_schema}
use esp32_sequencer.Program.{Network, blocks, empty_registry, register_blocks, program_registry}
use esp32_sequencer.Program.Order.{
  In, HasTypesOnce, has_types_once-HasTypesOnce, program_registry_order,
}
use esp32_sequencer.Program.Demo.{demo_env, run_sequence-example}

abbrev counting : Board ℕ
counting = record { delay = λ ms w. w + ms; print = λ s w. w; send_one = λ f b port w. (true, w) }

abbrev offline : Network ℕ
offline = record {
  http_request = λ params w. (RunResult.ok, w);
  ws_send = λ params w. (RunResult.ok, w);
  wifi_hop = λ params w. (RunResult.ok, w);
  samsung_key = λ params w. (RunResult.ok, w);
  on_wifi = λ params w. (false, w);
  host_reachable = λ params w. (false, w);
}

-- The first two are registered the other way round.
abbrev swapped : List (Block ℕ) → List (Block ℕ)
swapped [] = []
swapped (a ∷ []) = a ∷ []
swapped (a ∷ b ∷ bs) = b ∷ a ∷ bs

swapped-In : (b : Block ℕ) (bs : List (Block ℕ)) → In b bs → In b (swapped bs)
swapped-In b [] i = i
swapped-In b (a ∷ []) i = i
swapped-In b (a ∷ c ∷ bs) (inl e) = inr (inl e)
swapped-In b (a ∷ c ∷ bs) (inr (inl e)) = inl e
swapped-In b (a ∷ c ∷ bs) (inr (inr i)) = inr (inr i)

In-swapped : (b : Block ℕ) (bs : List (Block ℕ)) → In b (swapped bs) → In b bs
In-swapped b [] i = i
In-swapped b (a ∷ []) i = i
In-swapped b (a ∷ c ∷ bs) (inl e) = inr (inl e)
In-swapped b (a ∷ c ∷ bs) (inr (inl e)) = inl e
In-swapped b (a ∷ c ∷ bs) (inr (inr i)) = inr (inr i)

swapped-HasTypesOnce : HasTypesOnce (swapped (blocks test_lib counting offline))
unfolding blocks divider_block http_request_schema if_block log_block repeat_block samsung_schema
    wait_block wait_for_trigger_block wifi_hop_schema wol_block ws_send_schema
swapped-HasTypesOnce = has_types_once-HasTypesOnce (swapped (blocks test_lib counting offline)) refl

program_registry_order_example :
    resolve_block "wol"
      (register_blocks (swapped (blocks test_lib counting offline)) empty_registry)
    ≡ resolve_block "wol" (program_registry test_lib counting offline)
program_registry_order_example =
    program_registry_order test_lib counting offline (swapped (blocks test_lib counting offline))
      "wol" swapped-HasTypesOnce (λ b i. In-swapped b (blocks test_lib counting offline) i)
      (λ b i. swapped-In b (blocks test_lib counting offline) i)

abbrev fresh : Ctx ℕ
fresh = record { world = 0; scope_stack = []; call_stack = [] }

run_sequence-example_example :
    run_sequence 1
      (demo_env lib lib-IsLawful counting offline (λ ms w. w + ms) none)
      example
      null
      fresh
    ≡ done (record fresh { world = 1150 })
run_sequence-example_example =
    run_sequence-example lib lib-IsLawful counting offline (λ ms w. w + ms) none 0 fresh
      (omega arith)
