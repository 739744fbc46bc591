-- ===== src/Tests/Simulations.antt =====
-- Runs of the simulator against an extension that answers with continuations.
use lc_extension.Base.{◌+◌, ◌≡◌, refl, [], ◌∷◌, ◌++◌, map, none, arith}
use lc_extension.Base.Effect.{err}
use lc_extension.Common.Schema.{pos}
use lc_extension.Common.Messages.{ContinuationRequest}
use lc_extension.Simulator.{Simulator, ContinuationRecord, mode_immediate, new}
use lc_extension.Simulator.Continue.{Execute, handle_continuations, execute_continuation}
use lc_extension.Simulator.Requests.{fuel, no_request_options, send_request_full}
use lc_extension.Simulator.Fuel.{execute_continuation-fuel}
use lc_extension.Simulator.Growth.{Grows}
use lc_extension.Simulator.Growth.Calls.{
  SendGrows, execute_continuation-Grows, send_request_full-Grows,
}
use lc_extension.Simulator.Records.{planned, plan, capped, handle_continuations-record}
use lc_extension.Tests.Services.{backend}

abbrev next : ContinuationRequest
next = record { in_delay_seconds = 1; action = "next"; state = none }

abbrev queued : ContinuationRecord
queued = record { oid = "org-1"; idempotency_key = "key"; level = 8; request = next; queued_at = 5 }

abbrev recording : Simulator backend
recording = new backend "secret" 0

abbrev running : Simulator backend
running = record recording { continuation_mode = mode_immediate; world = 1 }

execute_continuation-fuel_example :
    execute_continuation backend (3 + fuel) queued running
    ≡ execute_continuation backend fuel queued running
execute_continuation-fuel_example = execute_continuation-fuel backend 3 queued running

execute_continuation-Grows_example :
    Grows backend running (execute_continuation backend fuel queued running).1
execute_continuation-Grows_example = execute_continuation-Grows backend fuel queued running

send_request_full-Grows_example :
    SendGrows backend running
      (send_request_full backend "org-1" "scan" none no_request_options running).1
send_request_full-Grows_example =
    send_request_full-Grows backend "org-1" "scan" none no_request_options running

abbrev refusing : Execute backend
refusing r s = (err "not now", s)

handle_continuations-record_example :
    let t = handle_continuations backend refusing "org-1" "key" 4 (next ∷ next ∷ []) recording in
    (map planned t.continuations
      ≡ map planned recording.continuations
        ++ map (plan "org-1" "key" 4) (capped (pos 0) (next ∷ next ∷ [])))
    × (handle_continuations backend
          (execute_continuation backend fuel)
          "org-1"
          "key"
          4
          (next ∷ next ∷ [])
          recording
        ≡ t)
unfolding new
handle_continuations-record_example =
    handle_continuations-record backend refusing (execute_continuation backend fuel) "org-1" "key" 4
      (next ∷ next ∷ []) recording refl (omega arith)
