-- ===== src/Simulator/Immediate.antt =====
-- Immediate mode, for answers with at most one continuation.
use lc_extension.Base.{ℕ, String, ◌&&◌, ◌≡◌, refl, true, false, [], ◌∷◌, none, ltb, arith, ◌==◌}
use lc_extension.Common.Messages.{Response, ContinuationRequest}
use lc_extension.Simulator.{
  Backend, Simulator, mode_immediate, max_continuation_delay, max_continuation_level,
  get_max_continuations_per_response,
}
use lc_extension.Simulator.Continue.{
  next_level, Execute, check_delay, queue, note_failure, run_now, handle_one, handle_each,
  exceeds_fan_out, limit_fan_out, handle_continuations, record_error, record_metrics,
  process_response,
}

module _ (B : Backend) where
  one_fits : (max : ℕ) → (ltb 0 max && ltb max 1) ≡ false
  one_fits max = ground arith

  one-exceeds_fan_out :
      (cont : ContinuationRequest) (s : Simulator B) → exceeds_fan_out B (cont ∷ []) s ≡ false
  unfolding exceeds_fan_out
  one-exceeds_fan_out cont s = one_fits (get_max_continuations_per_response B s)

  module _ (execute : Execute B) (oid key : String) (level : ℕ) (s : Simulator B) where
    pub process_response-quiet :
        (r : Response)
        → (r.error == "") ≡ true
        → r.metrics ≡ none
        → r.continuations ≡ []
        → process_response B execute oid key level r s ≡ s
    unfolding process_response record_error record_metrics
    process_response-quiet r no_error no_metrics ends = rw (no_error, no_metrics, ends) refl

    pub process_response-one :
        (r : Response) (cont : ContinuationRequest)
        → (r.error == "") ≡ true
        → r.metrics ≡ none
        → r.continuations ≡ cont ∷ []
        → ltb max_continuation_level (next_level level) ≡ false
        → ltb max_continuation_delay cont.in_delay_seconds ≡ false
        → s.continuation_mode ≡ mode_immediate
        → process_response B execute oid key level r s ≡ (
            let (queued, s') = queue B oid key level cont s in
            note_failure B oid (execute queued s'))
    unfolding process_response record_error record_metrics handle_continuations limit_fan_out
        handle_each handle_one check_delay run_now queue
    process_response-one r cont no_error no_metrics continues level_fits delay_fits immediate =
        rw
          (
            no_error,
            no_metrics,
            continues,
            level_fits,
            one-exceeds_fan_out cont s,
            delay_fits,
            immediate,
          )
          refl
