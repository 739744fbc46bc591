-- ===== src/Simulator/Continue.antt =====
-- What the simulator does with a response: processResponse, handleContinuations and
-- ExecuteContinuation. They call one another, once for each level of continuations: fuel counts the
-- levels, and `Simulator.Fuel` shows that it never runs out.
use lc_extension.Base.{
  ℕ, zero, suc, String, ◌<>◌, ◌+◌, ◌%◌, ◌^◌, ◌==◌, ◌&&◌, Bool, not, List, [], ◌∷◌, ◌++◌, Option,
  none, some, ltb, length, take, decimal, if◌then◌else◌,
}
use lc_extension.Base.Effect.{Result, ok, err}
use lc_extension.Common.Messages.{
  Response, ContinuationRequest, MetricReport, Message, empty_message,
}
use lc_extension.Simulator.{
  Backend, Simulator, ContinuationRecord, ContinuationMode, mode_record, mode_immediate,
  max_continuation_delay, max_continuation_level, protocol_version, add_error, get_config,
  make_org_access, get_max_continuations_per_response,
}
use lc_extension.Simulator.Send.{Parsed, parsed, unparsed, send_and_parse}

-- `level + 1` in uint64
abbrev pub next_level : ℕ → ℕ
next_level level = (level + 1) % 2 ^ 64

abbrev pub level_message : ℕ → String
level_message level =
    "max continuation level reached: " <> decimal level <> " > " <> decimal max_continuation_level

module _ (B : Backend) where
  -- ExecuteContinuation, as the loop calls it
  abbrev pub Execute : Type 0
  Execute = ContinuationRecord → Simulator B → Result Response × Simulator B

  -- The error of a delay that is too long. The record keeps the delay as it was asked for.
  unfoldable pub check_delay : String → ContinuationRequest → Simulator B → Simulator B
  check_delay oid cont s =
      if ltb max_continuation_delay cont.in_delay_seconds
      then add_error B oid
          ("continuation delay "
            <> decimal cont.in_delay_seconds
            <> " exceeds max "
            <> decimal max_continuation_delay
            <> ", clamped")
          s
      else s

  -- `s.continuations = append(s.continuations, record)`, with the record and its time
  unfoldable pub queue :
      String → String → ℕ → ContinuationRequest → Simulator B → ContinuationRecord × Simulator B
  queue oid key level cont s =
      let (t, w) = B.now s.world in
      let r : ContinuationRecord = record {
        oid = oid;
        idempotency_key = key;
        level = level;
        request = cont;
        queued_at = t;
      } in
      (r, record s { world = w; continuations = s.continuations ++ (r ∷ []) })

  -- `if _, err := ...; err != nil`: the error of a continuation is recorded.
  unfoldable pub note_failure : String → Result Response × Simulator B → Simulator B
  note_failure oid (ok _, s) = s
  note_failure oid (err e, s) = add_error B oid ("continuation execution failed: " <> e) s

  -- In immediate mode the continuation is run at once.
  unfoldable pub run_now :
      Execute → String → ContinuationRecord → ContinuationMode → Simulator B → Simulator B
  run_now execute oid r mode_record s = s
  run_now execute oid r mode_immediate s = note_failure oid (execute r s)

  -- The body of the loop of handleContinuations.
  unfoldable pub handle_one :
      Execute → String → String → ℕ → ContinuationRequest → Simulator B → Simulator B
  unfolding check_delay queue run_now
  handle_one execute oid key level cont s =
      let (r, s') = queue oid key level cont (check_delay oid cont s) in
      run_now execute oid r s'.continuation_mode s'

  unfoldable pub handle_each :
      Execute → String → String → ℕ → List ContinuationRequest → Simulator B → Simulator B
  handle_each execute oid key level [] s = s
  handle_each execute oid key level (cont ∷ conts) s =
      handle_each execute oid key level conts (handle_one execute oid key level cont s)

  -- The fan-out limit: an error, and the continuations that are left.
  unfoldable pub exceeds_fan_out : List ContinuationRequest → Simulator B → Bool
  exceeds_fan_out conts s =
      let max = get_max_continuations_per_response B s in ltb 0 max && ltb max (length conts)

  unfoldable pub limit_fan_out :
      String → List ContinuationRequest → Simulator B → List ContinuationRequest × Simulator B
  unfolding exceeds_fan_out
  limit_fan_out oid conts s =
      let max = get_max_continuations_per_response B s in
      if exceeds_fan_out conts s
      then (
        take max conts,
        add_error B oid
            ("continuation count "
              <> decimal (length conts)
              <> " exceeds max "
              <> decimal max
              <> ", truncating")
            s,
      )
      else (conts, s)

  -- handleContinuations
  unfoldable pub handle_continuations :
      Execute → String → String → ℕ → List ContinuationRequest → Simulator B → Simulator B
  unfolding limit_fan_out
  handle_continuations execute oid key level conts s =
      if ltb max_continuation_level (next_level level)
      then add_error B oid (level_message (next_level level)) s
      else let (kept, s') = limit_fan_out oid conts s in handle_each execute oid key level kept s'

  unfoldable pub record_error : String → Response → Simulator B → Simulator B
  record_error oid r s = if not (r.error == "") then add_error B oid r.error s else s

  unfoldable pub record_metrics : String → Option MetricReport → Simulator B → Simulator B
  record_metrics oid none s = s
  record_metrics oid (some report) s =
      let (t, w) = B.now s.world in
      record s {
        world = w;
        metrics =
            s.metrics
            ++ (record {
              oid = oid;
              idempotency_key = report.idempotent_key;
              metrics = report.metrics;
              time = t;
            }
                ∷ []);
      }

  -- processResponse
  unfoldable pub process_response :
      Execute → String → String → ℕ → Response → Simulator B → Simulator B
  unfolding record_error record_metrics
  process_response execute oid key level r s =
      let s' = record_metrics oid r.metrics (record_error oid r s) in
      if ltb 0 (length r.continuations)
      then handle_continuations execute oid key level r.continuations s'
      else s'

  -- The request that a continuation becomes.
  abbrev pub continuation_key : ContinuationRecord → String
  continuation_key cont = cont.idempotency_key <> ":" <> decimal (next_level cont.level)

  abbrev pub continuation_message : ContinuationRecord → Simulator B → Message
  continuation_message cont s = record (empty_message protocol_version (continuation_key cont)) {
    request = some (record {
      org = make_org_access B s cont.oid "";
      action = cont.request.action;
      payload = cont.request.state;
      config = get_config B s cont.oid;
      resource_state = [];
      investigation_id = "";
    });
  }

  -- The end of ExecuteContinuation, behind `sendAndParse`.
  unfoldable pub follow_up :
      Execute → ContinuationRecord → Parsed → Simulator B → Result Response × Simulator B
  follow_up execute cont (unparsed _ e) s = (err e, s)
  follow_up execute cont (parsed r _) s =
      (ok r, process_response execute cont.oid (continuation_key cont) (next_level cont.level) r s)

  -- ExecuteContinuation
  unfoldable pub execute_continuation :
      ℕ → ContinuationRecord → Simulator B → Result Response × Simulator B
  execute_continuation zero cont s = (err "out of fuel", s)
  execute_continuation (suc fuel) cont s =
      if ltb max_continuation_level (next_level cont.level)
      then (err (level_message (next_level cont.level)), s)
      else let (p, s') = send_and_parse B (continuation_message cont s) s in
        follow_up (execute_continuation fuel) cont p s'
