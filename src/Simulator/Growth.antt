-- ===== src/Simulator/Growth.antt =====
-- What processing responses does to the simulator's state: its logs grow at their ends, no deeper
-- than the limit of continuation levels, and everything else stays.
pub mod Calls
use lc_extension.Base.{
  ℕ, zero, suc, String, ◌==◌, not, ◌+◌, ◌≤◌, ◌≡◌, refl, ap, sym, ◌∙◌, List, [], ◌∷◌, ◌++◌, Bool,
  true, false, Bool-cases, Option, none, some, All, All-append, extend, inl, inr, arith, ltb,
  length, take, if◌then◌else◌,
}
use mathlib.Core.List.{append-nil}
use lc_extension.Base.Effect.{Result, ok, err}
use lc_extension.Common.Messages.{Response, ContinuationRequest, MetricReport, Message}
use lc_extension.Simulator.{
  Backend, Simulator, ContinuationRecord, ContinuationMode, ErrorRecord, MetricRecord, mode_record,
  mode_immediate, add_error, max_continuation_level, max_continuation_delay,
}
use lc_extension.Simulator.Requests.{fuel}
use lc_extension.Simulator.Send.{Parsed, parsed, unparsed, send_raw, send_payload, send_and_parse}
use lc_extension.Simulator.Continue.{
  next_level, level_message, Execute, check_delay, queue, run_now, handle_one, handle_each,
  handle_continuations, exceeds_fan_out, limit_fan_out, record_metrics, record_error, note_failure,
  follow_up, continuation_message, continuation_key, process_response, execute_continuation,
}

-- What holds of each branch under its test holds of the conditional.
pub if-intro {ℓ κ} :
    {A : Type ℓ} (P : A → Type κ) (b : Bool) {t u : A}
    → (b ≡ true → P t)
    → (b ≡ false → P u)
    → P (if b then t else u)
if-intro P true f g = f refl
if-intro P false f g = g refl

module _ (B : Backend) where
  -- Between two states records were added at the ends of the logs, the continuations among them at
  -- levels up to 9, and no other field but the world was changed.
  pub record Grows (s s' : Simulator B) : Type 0 where
    pub continuations : List ContinuationRecord
    pub errors : List ErrorRecord
    pub metrics : List MetricRecord
    pub continuations_appended : s'.continuations ≡ s.continuations ++ continuations
    pub errors_appended : s'.errors ≡ s.errors ++ errors
    pub metrics_appended : s'.metrics ≡ s.metrics ++ metrics
    pub shallow : All (λ (r : ContinuationRecord). r.level ≤ 9) continuations
    pub others_kept :
        record s' {
          world = s.world;
          continuations = s.continuations;
          errors = s.errors;
          metrics = s.metrics;
        }
        ≡ s

  pub Grows-refl : (s : Simulator B) → Grows s s
  Grows-refl s = record {
    continuations = [];
    errors = [];
    metrics = [];
    continuations_appended = sym (append-nil _);
    errors_appended = sym (append-nil _);
    metrics_appended = sym (append-nil _);
    shallow = tt;
    others_kept = refl;
  }

  pub Grows-trans : {s s' s'' : Simulator B} → Grows s s' → Grows s' s'' → Grows s s''
  Grows-trans {s} {s'} {s''} g h = record {
    continuations = g.continuations ++ h.continuations;
    errors = g.errors ++ h.errors;
    metrics = g.metrics ++ h.metrics;
    continuations_appended =
        extend s.continuations g.continuations h.continuations g.continuations_appended
          h.continuations_appended;
    errors_appended = extend s.errors g.errors h.errors g.errors_appended h.errors_appended;
    metrics_appended = extend s.metrics g.metrics h.metrics g.metrics_appended h.metrics_appended;
    shallow =
        All-append (λ (r : ContinuationRecord). r.level ≤ 9) g.continuations h.continuations
          g.shallow h.shallow;
    others_kept =
        ap
          (λ (t : Simulator B). record t {
            world = s.world;
            continuations = s.continuations;
            errors = s.errors;
            metrics = s.metrics;
          })
          h.others_kept
        ∙ g.others_kept;
  }

  pub add_error-Grows :
      (oid message : String) (s : Simulator B) → Grows s (add_error B oid message s)
  unfolding add_error
  add_error-Grows oid message s = record {
    continuations = [];
    errors = record { oid = oid; message = message; time = (B.now s.world).0 } ∷ [];
    metrics = [];
    continuations_appended = sym (append-nil _);
    errors_appended = refl;
    metrics_appended = sym (append-nil _);
    shallow = tt;
    others_kept = refl;
  }

  -- A step that leaves the logs and everything else but the world.
  abbrev pub with_world : B.World → Simulator B → Simulator B
  with_world w s = record s { world = w }

  pub with_world-Grows : (w : B.World) (s : Simulator B) → Grows s (with_world w s)
  with_world-Grows w s = record {
    continuations = [];
    errors = [];
    metrics = [];
    continuations_appended = sym (append-nil _);
    errors_appended = sym (append-nil _);
    metrics_appended = sym (append-nil _);
    shallow = tt;
    others_kept = refl;
  }

  pub check_delay-Grows :
      (oid : String) (cont : ContinuationRequest) (s : Simulator B)
      → Grows s (check_delay B oid cont s)
  unfolding check_delay
  check_delay-Grows oid cont s =
      if-intro (λ t. Grows s t) (ltb max_continuation_delay cont.in_delay_seconds)
        (λ _. add_error-Grows oid _ s) (λ _. Grows-refl s)

  pub queue-Grows :
      (oid key : String) (level : ℕ) (cont : ContinuationRequest) (s : Simulator B)
      → level ≤ 9
      → Grows s (queue B oid key level cont s).1
  unfolding queue
  queue-Grows oid key level cont s low = record {
    continuations = (queue B oid key level cont s).0 ∷ [];
    errors = [];
    metrics = [];
    continuations_appended = refl;
    errors_appended = sym (append-nil _);
    metrics_appended = sym (append-nil _);
    shallow = (low, tt);
    others_kept = refl;
  }

  pub record_error-Grows :
      (oid : String) (r : Response) (s : Simulator B) → Grows s (record_error B oid r s)
  unfolding record_error
  record_error-Grows oid r s =
      if-intro (λ t. Grows s t) (not (r.error == "")) (λ _. add_error-Grows oid r.error s)
        (λ _. Grows-refl s)

  pub record_metrics-Grows :
      (oid : String) (report : Option MetricReport) (s : Simulator B)
      → Grows s (record_metrics B oid report s)
  unfolding record_metrics
  record_metrics-Grows oid none s = Grows-refl s
  record_metrics-Grows oid (some report) s = record {
    continuations = [];
    errors = [];
    metrics =
        record {
          oid = oid;
          idempotency_key = report.idempotent_key;
          metrics = report.metrics;
          time = (B.now s.world).0;
        }
        ∷ [];
    continuations_appended = sym (append-nil _);
    errors_appended = sym (append-nil _);
    metrics_appended = refl;
    shallow = tt;
    others_kept = refl;
  }

  pub note_failure-Grows :
      (oid : String) (s : Simulator B) (out : Result Response × Simulator B)
      → Grows s out.1
      → Grows s (note_failure B oid out)
  unfolding note_failure
  note_failure-Grows oid s (ok _, t) g = g
  note_failure-Grows oid s (err e, t) g = Grows-trans g (add_error-Grows oid _ t)

  pub send_and_parse-Grows : (m : Message) (s : Simulator B) → Grows s (send_and_parse B m s).1
  unfolding send_and_parse send_raw
  send_and_parse-Grows m s = elim (B.marshal m) as (λ out. Grows s (send_payload B out s).1) [
    | err e ↦ Grows-refl s
    | ok payload ↦ with_world-Grows _ s
  ]
