-- ===== src/Core/Extension/Answers.antt =====
-- How many answers an exchange writes.
use lc_extension.Base.{◌≡◌, String, ℕ, ◌+◌, ◌≤◌, Option, [], ◌∷◌, arith, length, length-append}
use lc_extension.Common.Messages.{
  ErrorReportMessage, Message, Response, EventMessage, RequestMessage, ConfigValidationMessage,
}
use lc_extension.Core.Platform.{Platform, Reply}
use lc_extension.Core.Extension.{ExtensionOf, Called, returned, crashed}
use lc_extension.Core.Extension.Exchange.{
  Exchange, Outcome, finished, panicked, Serve, pure, panic, call, ended_call, call_back, write,
  Written, report, respond_and_log, ◌>>=◌,
}
use lc_extension.Core.Extension.Serve.{
  HttpRequest, conclude, on_event, on_request, on_config_validation, dispatch, decode_and_dispatch,
  authenticate, serve_http,
}
use lc_extension.Core.Extension.Ends.{
  Relation, Ended, Ends, Ends-option, Ends-result, Ends-if, Ends-bind,
}

abbrev Wrote : (W : Type 0) → ℕ → Relation W
Wrote W n x y = length y.written ≡ length x.written + n

abbrev WroteAtMost : (W : Type 0) → ℕ → Relation W
WroteAtMost W n x y = length y.written ≤ length x.written + n

-- `n` answers at a normal end, and no more at a panic.
abbrev pub Writes : {W A : Type 0} → ℕ → Serve W A → Type 0
Writes {W} n m = Ends (Wrote W n) (WroteAtMost W n) m

module _ {W A B : Type 0} where
  Writes-bind :
      (j k n : ℕ) (m : Serve W A) (f : A → Serve W B)
      → j + k ≡ n
      → Writes j m
      → ((a : A) → Writes k (f a))
      → Writes n (m >>= f)
  Writes-bind j k n m f e q h =
      Ends-bind {First = Wrote W j} {Rest = Wrote W k} {RestDead = WroteAtMost W k}
        (λ x y z p d. omega arith) (λ x y z p d. omega arith) m f
        (record { at = λ x. weaken x (m x) (q.at x) }) h
    where
      weaken :
          (x : Exchange W) (o : Outcome W A)
          → Ended (Wrote W j) (WroteAtMost W j) x o
          → Ended (Wrote W j) (WroteAtMost W n) x o
      weaken x (finished a y) d = d
      weaken x (panicked y) d = omega arith

  -- A step that writes nothing, and the rest.
  Writes-skip :
      (n : ℕ) (m : Serve W A) (f : A → Serve W B)
      → Writes 0 m
      → ((a : A) → Writes n (f a))
      → Writes n (m >>= f)
  Writes-skip n m f = Writes-bind 0 n n m f (omega arith)

  -- The one answer, and what follows it.
  Writes-last :
      (m : Serve W A) (f : A → Serve W B)
      → Writes 1 m
      → ((a : A) → Writes 0 (f a))
      → Writes 1 (m >>= f)
  Writes-last m f = Writes-bind 1 0 1 m f (omega arith)

module _ {W : Type 0} where
  ended_call-Writes :
      (c : Called W) (x : Exchange W) → Ended (Wrote W 0) (WroteAtMost W 0) x (ended_call c x)
  ended_call-Writes (returned r w) x = omega arith
  ended_call-Writes (crashed w) x = omega arith

  call_back-Writes : (m : W → Called W) → Writes 0 (call_back m)
  call_back-Writes m = record { at = λ x. ended_call-Writes (m x.world) x }

module _ {W A : Type 0} where
  call-Writes : (m : W → A × W) → Writes 0 (call m)
  call-Writes m = record { at = λ x. omega arith }

  panic-Writes : (n : ℕ) → Writes {W = W} n (panic {A = A})
  panic-Writes n = record { at = λ x. omega arith }

  pure-Writes : (a : A) → Writes {W = W} 0 (pure a)
  pure-Writes a = record { at = λ x. omega arith }

module _ (P : Platform) (e : ExtensionOf P) where
  report-Writes : (m : ErrorReportMessage) → Writes 0 (report P e m)
  unfolding report
  report-Writes m = record { at = λ x. ground arith }

  write-Writes : (line : Written) → Writes 1 (write P e line)
  unfolding write
  write-Writes line = record { at = λ x. omega (arith, length-append x.written (line ∷ [])) }

  ruleset step_rules = (
    Ends-option, Ends-result, Ends-if, Writes-skip, call-Writes, call_back-Writes, panic-Writes,
    pure-Writes, report-Writes,
  )

  respond_and_log-Writes : (status : ℕ) (r : Option Reply) → Writes 1 (respond_and_log P e status r)
  unfolding respond_and_log
  respond_and_log-Writes status r = search (step_rules, write-Writes, Writes-last)

  ruleset answer_rules = (step_rules, respond_and_log-Writes)

  conclude-Writes : (r : Response) → Writes 1 (conclude P e r)
  unfolding conclude
  conclude-Writes r = search answer_rules

  on_event-Writes : (m : Message) (ev : EventMessage) → Writes 1 (on_event P e m ev)
  unfolding on_event
  on_event-Writes m ev = search (answer_rules, conclude-Writes)

  on_request-Writes : (m : Message) (rq : RequestMessage) → Writes 1 (on_request P e m rq)
  unfolding on_request
  on_request-Writes m rq = search (answer_rules, conclude-Writes) depth 9

  on_config_validation-Writes :
      (m : Message) (cv : ConfigValidationMessage) → Writes 1 (on_config_validation P e m cv)
  unfolding on_config_validation
  on_config_validation-Writes m cv = search (answer_rules, conclude-Writes) depth 7

  ruleset dispatch_rules = (
    answer_rules, conclude-Writes, on_event-Writes, on_request-Writes, on_config_validation-Writes,
  )

  dispatch-Writes : (content : String) (m : Message) → Writes 1 (dispatch P e content m)
  unfolding dispatch
  dispatch-Writes content m = search dispatch_rules depth 9

  authenticate-Writes : (signature content : String) → Writes 1 (authenticate P e signature content)
  unfolding authenticate decode_and_dispatch
  authenticate-Writes signature content = search (answer_rules, dispatch-Writes)

  -- An exchange that ends normally has written exactly one answer, whatever the request; one that
  -- panics has written one at most.
  pub serve_http-Writes : (r : HttpRequest) → Writes 1 (serve_http P e r)
  unfolding serve_http
  serve_http-Writes r = search (answer_rules, authenticate-Writes) depth 7
