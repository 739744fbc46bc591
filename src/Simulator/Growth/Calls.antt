-- ===== src/Simulator/Growth/Calls.antt =====
-- The calls that process responses and send requests and events let the logs grow, level by level.
use lc_extension.Base.{
  ℕ, zero, suc, ◌+◌, ◌%◌, ◌^◌, ◌⊎◌, String, ◌==◌, ◌+◌, ◌≤◌, ◌≡◌, refl, ap, sym, ◌∙◌, List, [], ◌∷◌,
  inl, inr, arith, ltb, length,
}
use mathlib.Core.Path.{subst}
use lc_extension.Base.Effect.{Result}
use lc_extension.Common.Messages.{Response, ContinuationRequest, Message}
use lc_extension.Simulator.{
  Backend, Simulator, ContinuationRecord, ContinuationMode, mode_record, mode_immediate,
  max_continuation_level,
}
use lc_extension.Simulator.Requests.{
  fuel, RequestOptions, EventOptions, choose_key, process_parsed, send_and_process,
  send_request_full, send_event_full,
}
use lc_extension.Simulator.Send.{Parsed, parsed, unparsed, generate_idempotency_key, send_and_parse}
use lc_extension.Simulator.Continue.{
  next_level, Execute, check_delay, queue, run_now, handle_one, handle_each, handle_continuations,
  exceeds_fan_out, limit_fan_out, record_metrics, record_error, follow_up, continuation_message,
  continuation_key, process_response, execute_continuation,
}
use lc_extension.Simulator.Growth.{
  Grows, if-intro, Grows-refl, Grows-trans, add_error-Grows, with_world-Grows, check_delay-Grows,
  queue-Grows, record_error-Grows, record_metrics-Grows, note_failure-Grows, send_and_parse-Grows,
}
use lc_extension.Common.Value.{Dict}

module _ (B : Backend) where
  -- Executions under which every state grows.
  abbrev Growing : Execute B → Type 0
  Growing execute = (r : ContinuationRecord) (s : Simulator B) → Grows B s (execute r s).1

  module _ (execute : Execute B) (grow : Growing execute) (oid key : String) (level : ℕ) where
    run_now-Grows :
        (mode : ContinuationMode) (r : ContinuationRecord) (s : Simulator B)
        → Grows B s (run_now B execute oid r mode s)
    unfolding run_now
    run_now-Grows mode_record r s = Grows-refl B s
    run_now-Grows mode_immediate r s = note_failure-Grows B oid s (execute r s) (grow r s)

    handle_one-Grows :
        (cont : ContinuationRequest) (s : Simulator B)
        → level ≤ 9
        → Grows B s (handle_one B execute oid key level cont s)
    unfolding handle_one
    handle_one-Grows cont s low =
        let s' = check_delay B oid cont s in
        let (r, t) = queue B oid key level cont s' in
        Grows-trans B (check_delay-Grows B oid cont s) (
          Grows-trans B (queue-Grows B oid key level cont s' low)
            (run_now-Grows t.continuation_mode r t))

    handle_each-Grows :
        (conts : List ContinuationRequest) (s : Simulator B)
        → level ≤ 9
        → Grows B s (handle_each B execute oid key level conts s)
    unfolding handle_each
    handle_each-Grows [] s low = Grows-refl B s
    handle_each-Grows (cont ∷ conts) s low =
        Grows-trans B (handle_one-Grows cont s low)
          (handle_each-Grows conts (handle_one B execute oid key level cont s) low)

    limit_fan_out-Grows :
        (conts : List ContinuationRequest) (s : Simulator B)
        → Grows B s (limit_fan_out B oid conts s).1
    unfolding limit_fan_out
    limit_fan_out-Grows conts s =
        if-intro (λ (out : List ContinuationRequest × Simulator B). Grows B s out.1)
          (exceeds_fan_out B conts s) (λ _. add_error-Grows B oid _ s) (λ _. Grows-refl B s)

    handle_continuations-Grows :
        (conts : List ContinuationRequest) (s : Simulator B)
        → level ≤ 10
        → Grows B s (handle_continuations B execute oid key level conts s)
    unfolding handle_continuations
    handle_continuations-Grows conts s low =
        if-intro (λ t. Grows B s t) (ltb max_continuation_level (next_level level))
          (λ _. add_error-Grows B oid _ s)
          (λ fits. Grows-trans B (limit_fan_out-Grows conts s) (
            handle_each-Grows (limit_fan_out B oid conts s).0 (limit_fan_out B oid conts s).1
              (ground arith)))

    process_response-Grows :
        (r : Response) (s : Simulator B)
        → level ≤ 10
        → Grows B s (process_response B execute oid key level r s)
    unfolding process_response
    process_response-Grows r s low =
        let s' = record_metrics B oid r.metrics (record_error B oid r s) in
        let before =
          Grows-trans B (record_error-Grows B oid r s)
            (record_metrics-Grows B oid r.metrics (record_error B oid r s)) in
        if-intro (λ t. Grows B s t) (ltb 0 (length r.continuations))
          (λ _. Grows-trans B before (handle_continuations-Grows r.continuations s' low))
          (λ _. before)

  follow_up-Grows :
      (execute : Execute B)
      → Growing execute
      → (cont : ContinuationRecord) (p : Parsed) (s : Simulator B) → next_level cont.level ≤ 10
      → Grows B s (follow_up B execute cont p s).1
  unfolding follow_up
  follow_up-Grows execute grow cont (unparsed status m) s low = Grows-refl B s
  follow_up-Grows execute grow cont (parsed r status) s low =
      process_response-Grows execute grow cont.oid (continuation_key B cont) (next_level cont.level)
        r s low

  -- Executing a continuation, with any fuel, only appends to the logs of continuations, errors and
  -- metrics; the appended continuations have levels up to 9, and of the other fields of the state
  -- only the world changes.
  pub execute_continuation-Grows : (fuel : ℕ) → Growing (execute_continuation B fuel)
  unfolding execute_continuation
  execute_continuation-Grows zero cont s = Grows-refl B s
  execute_continuation-Grows (suc fuel) cont s =
      let (p, s') = send_and_parse B (continuation_message B cont s) s in
      if-intro (λ (out : Result Response × Simulator B). Grows B s out.1)
        (ltb max_continuation_level (next_level cont.level)) (λ _. Grows-refl B s)
        (λ fits. Grows-trans B (send_and_parse-Grows B (continuation_message B cont s) s) (
          follow_up-Grows (execute_continuation B fuel) (execute_continuation-Grows fuel) cont p s'
            (ground arith)))

  -- The state with another counter of idempotency keys.
  abbrev with_counter : ℕ → Simulator B → Simulator B
  with_counter n s = record s { counter = n }

  -- What a sender leaves: one key at most was drawn, and the logs have grown.
  pub SendGrows : (s s' : Simulator B) → Type 0
  SendGrows s s' =
      ((s'.counter ≡ s.counter) ⊎ (s'.counter ≡ (s.counter + 1) % 2 ^ 64))
      × Grows B (with_counter s'.counter s) s'

  choose_key-SendGrows : (key : String) (s : Simulator B) → SendGrows s (choose_key B key s).1
  unfolding choose_key SendGrows generate_idempotency_key
  choose_key-SendGrows key s =
      if-intro (λ (out : String × Simulator B). SendGrows s out.1) (key == "")
        (λ _. (inr refl, with_world-Grows B _ (with_counter ((s.counter + 1) % 2 ^ 64) s)))
        (λ _. (inl refl, Grows-refl B s))

  Grows-SendGrows : (s s' s'' : Simulator B) → SendGrows s s' → Grows B s' s'' → SendGrows s s''
  unfolding SendGrows
  Grows-SendGrows s s' s'' (drawn, g) h =
      let same_counter = ap (λ (t : Simulator B). t.counter) h.others_kept in
      (
        elim drawn [ inl e ↦ inl (same_counter ∙ e) | inr e ↦ inr (same_counter ∙ e) ],
        subst (λ (n : ℕ). Grows B (with_counter n s) s'') (sym same_counter) (Grows-trans B g h),
      )

  process_parsed-Grows :
      (oid key : String) (p : Parsed) (s : Simulator B) → Grows B s (process_parsed B oid key p s).1
  unfolding process_parsed
  process_parsed-Grows oid key (unparsed status e) s = Grows-refl B s
  process_parsed-Grows oid key (parsed r status) s =
      process_response-Grows (execute_continuation B fuel) (execute_continuation-Grows fuel) oid key
        0 r s (omega arith)

  send_and_process-Grows :
      (oid key : String) (m : Message) (s : Simulator B)
      → Grows B s (send_and_process B oid key m s).1
  unfolding send_and_process
  send_and_process-Grows oid key m s =
      Grows-trans B (send_and_parse-Grows B m s)
        (process_parsed-Grows oid key (send_and_parse B m s).0 (send_and_parse B m s).1)

  -- Sending a request, with all the continuations that it may start, advances the counter of
  -- idempotency keys at most once, only appends to the logs of continuations, errors and metrics,
  -- the continuations at levels up to 9, and changes nothing else of the state but the world.
  pub send_request_full-Grows :
      (oid action : String) (payload : Dict) (opts : RequestOptions) (s : Simulator B)
      → SendGrows s (send_request_full B oid action payload opts s).1
  unfolding send_request_full
  send_request_full-Grows oid action payload opts s =
      Grows-SendGrows s _ _ (choose_key-SendGrows opts.idempotency_key s) (
        send_and_process-Grows oid (choose_key B opts.idempotency_key s).0 _
          (choose_key B opts.idempotency_key s).1)

  -- Sending an event, with all the continuations that it may start, advances the counter of
  -- idempotency keys at most once, only appends to the logs of continuations, errors and metrics,
  -- the continuations at levels up to 9, and changes nothing else of the state but the world.
  send_event_full-Grows :
      (oid event_name : String) (opts : EventOptions) (s : Simulator B)
      → SendGrows s (send_event_full B oid event_name opts s).1
  unfolding send_event_full
  send_event_full-Grows oid event_name opts s =
      Grows-SendGrows s _ _ (choose_key-SendGrows opts.idempotency_key s) (
        send_and_process-Grows oid (choose_key B opts.idempotency_key s).0 _
          (choose_key B opts.idempotency_key s).1)
