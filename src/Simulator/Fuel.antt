-- ===== src/Simulator/Fuel.antt =====
-- Continuations go at most ten levels deep, so the fuel of the model never runs out.
use lc_extension.Base.{
  ℕ, zero, suc, String, ◌+◌, ◌≤◌, ◌<◌, ◌≡◌, refl, sym, ap, ◌∙◌, List, [], ◌∷◌, Bool-cases, inl, inr,
  arith, ltb, length, if◌then◌else◌,
}
use lc_extension.Base.Effect.{ok}
use lc_extension.Common.Messages.{Response, ContinuationRequest}
use lc_extension.Simulator.{
  Backend, Simulator, ContinuationRecord, ContinuationMode, mode_record, mode_immediate, add_error,
  max_continuation_level,
}
use lc_extension.Simulator.Requests.{fuel}
use lc_extension.Simulator.Send.{Parsed, parsed, unparsed, send_and_parse}
use lc_extension.Simulator.Continue.{
  next_level, level_message, Execute, check_delay, queue, run_now, handle_one, handle_each,
  handle_continuations, limit_fan_out, record_metrics, record_error, note_failure, follow_up,
  continuation_message, continuation_key, process_response, execute_continuation,
}

module _ (B : Backend) where
  -- Two ways to execute continuations that agree on those of one level.
  abbrev Agree : ℕ → Execute B → Execute B → Type 0
  Agree level e e' = (r : ContinuationRecord) (s : Simulator B) → r.level ≡ level → e r s ≡ e' r s

  module _ (e e' : Execute B) (oid key : String) (level : ℕ) (agree : Agree level e e') where
    run_now-congr :
        (mode : ContinuationMode) (r : ContinuationRecord) (s : Simulator B)
        → r.level ≡ level
        → run_now B e oid r mode s ≡ run_now B e' oid r mode s
    unfolding run_now
    run_now-congr mode_record r s h = refl
    run_now-congr mode_immediate r s h = ap (note_failure B oid) (agree r s h)

    handle_one-congr :
        (cont : ContinuationRequest) (s : Simulator B)
        → handle_one B e oid key level cont s ≡ handle_one B e' oid key level cont s
    unfolding handle_one queue
    handle_one-congr cont s =
        let q = queue B oid key level cont (check_delay B oid cont s) in
        run_now-congr q.1.continuation_mode q.0 q.1 refl

    handle_each-congr :
        (conts : List ContinuationRequest) (s : Simulator B)
        → handle_each B e oid key level conts s ≡ handle_each B e' oid key level conts s
    unfolding handle_each
    handle_each-congr [] s = refl
    handle_each-congr (cont ∷ conts) s =
        handle_each-congr conts (handle_one B e oid key level cont s)
        ∙ ap (handle_each B e' oid key level conts) (handle_one-congr cont s)

    handle_continuations-congr :
        (conts : List ContinuationRequest) (s : Simulator B)
        → handle_continuations B e oid key level conts s
          ≡ handle_continuations B e' oid key level conts s
    unfolding handle_continuations
    handle_continuations-congr conts s =
        ap
          (λ (t : Simulator B).
            if ltb max_continuation_level (next_level level)
            then add_error B oid (level_message (next_level level)) s
            else t)
          (handle_each-congr (limit_fan_out B oid conts s).0 (limit_fan_out B oid conts s).1)

    process_response-congr :
        (r : Response) (s : Simulator B)
        → process_response B e oid key level r s ≡ process_response B e' oid key level r s
    unfolding process_response
    process_response-congr r s =
        let s' = record_metrics B oid r.metrics (record_error B oid r s) in
        ap (λ (t : Simulator B). if ltb 0 (length r.continuations) then t else s')
          (handle_continuations-congr r.continuations s')

  follow_up-congr :
      (e e' : Execute B) (cont : ContinuationRecord)
      → Agree (next_level cont.level) e e'
      → (p : Parsed) (s : Simulator B) → follow_up B e cont p s ≡ follow_up B e' cont p s
  unfolding follow_up
  follow_up-congr e e' cont agree (unparsed status m) s = refl
  follow_up-congr e e' cont agree (parsed r status) s =
      ap (λ (t : Simulator B). (ok r, t))
        (process_response-congr e e' cont.oid (continuation_key B cont) (next_level cont.level)
          agree r s)

  module _ (cont : ContinuationRecord) (s : Simulator B) where
    -- The step from the executions of the next level to those of this one.
    execute-congr :
        (fuel fuel' : ℕ)
        → (next_level cont.level ≤ 10
            → Agree
                (next_level cont.level)
                (execute_continuation B fuel)
                (execute_continuation B fuel'))
        → execute_continuation B (suc fuel) cont s ≡ execute_continuation B (suc fuel') cont s
    unfolding execute_continuation
    execute-congr fuel fuel' agree =
        let (p, s') = send_and_parse B (continuation_message B cont s) s in
        elim (Bool-cases (ltb max_continuation_level (next_level cont.level))) [
          | inl too_deep ↦ ground arith
          | inr fits ↦ ground (
            arith,
            follow_up-congr (execute_continuation B fuel) (execute_continuation B fuel') cont
                (agree (ground arith)) p s',
          )
        ]

  -- One more level of fuel changes nothing where the fuel covers the levels that are left.
  one_more :
      (fuel : ℕ) (cont : ContinuationRecord) (s : Simulator B)
      → (next_level cont.level ≤ 10 → 10 < fuel + next_level cont.level)
      → execute_continuation B (suc fuel) cont s ≡ execute_continuation B (suc (suc fuel)) cont s
  one_more zero cont s enough =
      execute-congr cont s 0 1 (λ low r t h. absurd (omega (arith, enough low)))
  one_more (suc fuel) cont s enough =
      execute-congr cont s (suc fuel) (suc (suc fuel))
        (λ low r t h. one_more fuel r t (λ low'. omega (arith, enough low)))

  -- Executing a continuation gives the same result and the same state with any fuel of 12 or more:
  -- at every level, also at one whose successor wraps around, the calls stop at the limit of ten
  -- levels before the fuel of the model does.
  pub execute_continuation-fuel :
      (more : ℕ) (cont : ContinuationRecord) (s : Simulator B)
      → execute_continuation B (more + fuel) cont s ≡ execute_continuation B fuel cont s
  execute_continuation-fuel zero cont s = refl
  execute_continuation-fuel (suc more) cont s =
      let step = one_more (more + 11) cont s (omega arith) in
      ap (λ (n : ℕ). execute_continuation B n cont s) (omega arith)
      ∙ sym step
      ∙ ap (λ (n : ℕ). execute_continuation B n cont s) (omega arith)
      ∙ execute_continuation-fuel more cont s
