-- ===== src/Core/Extension/Panics.antt =====
-- When the handler panics.
use lc_extension.Base.{◌∙◌, String, ℕ, ◌≡◌, refl, ◌≢◌, true, Option, none, some, arith, eq_iff}
use lc_extension.Base.Effect.{Result, ok, err}
use lc_extension.Common.Messages.{
  ErrorReportMessage, Message, Response, OrgAccessData, EventMessage, RequestMessage,
  ConfigValidationMessage,
}
use lc_extension.Base.GoMap.{lookup}
use lc_extension.Common.Value.{Dict}
use lc_extension.Core.Platform.{Platform, Reply}
use lc_extension.Core.Extension.{
  ExtensionOf, Called, returned, crashed, EventCallback, EventCallbackParams, RequestCallback,
  RequestCallbackParams, generate_sdk, verify_origin,
}
use lc_extension.Core.Extension.Exchange.{
  Exchange, panicked, Serve, pure, call, ended_call, call_back, write, Written, report,
  respond_and_log, ◌>>=◌, on_result,
}
use lc_extension.Core.Extension.Serve.{
  HttpRequest, conclude, on_event, on_request, on_config_validation, dispatch, decode_and_dispatch,
  authenticate, serve_http, open_body,
}
use lc_extension.Core.Extension.Delivery.{serve_http-dispatch}
use lc_extension.Core.Extension.Ends.{
  Relation, Ended, Ends, Ends-option, Ends-option_at, Ends-result, Ends-if, Ends-bind,
}

abbrev Always : (W : Type 0) → Relation W
Always W x y = Unit {0}

abbrev Never : (W : Type 0) → Relation W
Never W x y = ⊥

-- It ends normally, from every state.
abbrev pub Finishes : {W A : Type 0} → Serve W A → Type 0
Finishes {W} m = Ends (Always W) (Never W) m

-- A callback that never panics
abbrev pub Returns : {W : Type 0} → (W → Called W) → Type 0
Returns {W} m = (w v : W) → m w ≢ crashed v

module _ {W A B : Type 0} where
  Finishes-bind :
      (m : Serve W A) (f : A → Serve W B)
      → Finishes m
      → ((a : A) → Finishes (f a))
      → Finishes (m >>= f)
  Finishes-bind =
      Ends-bind {First = Always W} {Rest = Always W} {RestDead = Never W} {Done = Always W}
        {Dead = Never W} (λ x y z p d. tt) (λ x y z p d. d)

module _ {W : Type 0} where
  ended_call-Finishes :
      (c : Called W) (x : Exchange W)
      → ((w : W) → c ≢ crashed w)
      → Ended (Always W) (Never W) x (ended_call c x)
  ended_call-Finishes (returned r w) x h = tt
  ended_call-Finishes (crashed w) x h = h w refl

  call_back-Finishes : (m : W → Called W) → Returns m → Finishes (call_back m)
  call_back-Finishes m h = record { at = λ x. ended_call-Finishes (m x.world) x (h x.world) }

module _ {W A : Type 0} where
  call-Finishes : (m : W → A × W) → Finishes (call m)
  call-Finishes m = record { at = λ x. tt }

  pure-Finishes : (a : A) → Finishes {W = W} (pure a)
  pure-Finishes a = record { at = λ x. tt }

  Finishes-on_result_ok :
      {B : Type 0} (r : Result B) (g : String → Serve W A) (f : B → Serve W A) (x : Exchange W)
      → ((cause : String) → r ≢ err cause)
      → ((b : B) → Finishes (f b))
      → Ended (Always W) (Never W) x (on_result r g f x)
  Finishes-on_result_ok (err cause) g f x h k = absurd (h cause refl)
  Finishes-on_result_ok (ok b) g f x h k = (k b).at x

module _ (P : Platform) (e : ExtensionOf P) {handler : ErrorReportMessage → P.World → P.World}
    (has_handler : e.callbacks.error_handler ≡ some handler) where
  report-Finishes : (m : ErrorReportMessage) → Finishes (report P e m)
  unfolding report
  report-Finishes m = record { at = λ x. ground arith }

  write-Finishes : (line : Written) → Finishes (write P e line)
  unfolding write
  write-Finishes line = record { at = λ x. tt }

  ruleset finish_rules = (
    Ends-option, Ends-result, Ends-if, Finishes-bind, call-Finishes, pure-Finishes, report-Finishes,
    write-Finishes,
  )

  respond_and_log-Finishes :
      (status : ℕ) (r : Option Reply) → Finishes (respond_and_log P e status r)
  unfolding respond_and_log
  respond_and_log-Finishes status r = search finish_rules

  ruleset answer_rules = (finish_rules, respond_and_log-Finishes)

  conclude-Finishes : (r : Response) → Finishes (conclude P e r)
  unfolding conclude
  conclude-Finishes r = search answer_rules

  ruleset callback_rules = (
    Ends-option_at, Ends-result, Ends-if, Finishes-bind, call-Finishes, pure-Finishes,
    report-Finishes, respond_and_log-Finishes, conclude-Finishes, call_back-Finishes,
  )

  module _
      (events : (name : String) (callback : EventCallback P.World P.Org)
        → lookup name e.callbacks.event_handlers ≡ some callback
        → (params : EventCallbackParams P.Org) → Returns (callback params))
      (requests : (name : String) (rcb : RequestCallback P.World P.Org)
        → lookup name e.callbacks.request_handlers ≡ some rcb
        → (params : RequestCallbackParams P.Org) → Returns (rcb.callback params))
      (validates : (validate : P.Org → Dict → P.World → Called P.World)
        → e.callbacks.validate_config ≡ some validate
        → (org : P.Org) (config : Dict) → Returns (validate org config)) where
    on_event-Finishes : (m : Message) (ev : EventMessage) → Finishes (on_event P e m ev)
    unfolding on_event
    on_event-Finishes m ev = search (callback_rules, events) depth 8

    on_request-Finishes : (m : Message) (rq : RequestMessage) → Finishes (on_request P e m rq)
    unfolding on_request
    on_request-Finishes m rq = search (callback_rules, requests) depth 9

    module _
        (sdk_works : (oad : OrgAccessData) (w : P.World) (cause : String)
          → (generate_sdk P e oad w).0 ≢ err cause) where
      on_config_validation-Finishes :
          (m : Message) (cv : ConfigValidationMessage) → Finishes (on_config_validation P e m cv)
      unfolding on_config_validation
      on_config_validation-Finishes m cv = record {
        at = λ x.
            Finishes-on_result_ok (generate_sdk P e cv.org x.world).0 _ _ _
              (sdk_works cv.org x.world) (λ org. search (callback_rules, validates));
      }

      dispatch-Finishes : (content : String) (m : Message) → Finishes (dispatch P e content m)
      unfolding dispatch
      dispatch-Finishes content m =
          search
            (callback_rules, on_event-Finishes, on_request-Finishes, on_config_validation-Finishes)
            depth 9

      authenticate-Finishes :
          (signature content : String) → Finishes (authenticate P e signature content)
      unfolding authenticate decode_and_dispatch
      authenticate-Finishes signature content = search (callback_rules, dispatch-Finishes)

      -- With an ErrorHandler, an SDK that can be set up for every organization, and callbacks that do
      -- not panic, the handler ends normally on every request, from every state.
      pub serve_http-Finishes : (r : HttpRequest) → Finishes (serve_http P e r)
      unfolding serve_http
      serve_http-Finishes r = search (callback_rules, authenticate-Finishes) depth 7

module _ (P : Platform) (e : ExtensionOf P) where
  -- A rightly signed message that has a config validation, and no heartbeat, event, request or
  -- error report, panics if the SDK cannot be set up for the organization: nothing is written and
  -- ErrorHandler hears nothing, though the code means to answer 500.
  pub config_validation_panics :
      (r : HttpRequest) (x : Exchange P.World) (content cause : String) (m : Message)
      (cv : ConfigValidationMessage) (w : P.World)
      → r.signature ≢ ""
      → open_body P e r ≡ ok (ok content)
      → verify_origin P content r.signature e.secret_key ≡ true
      → P.unmarshal_message content ≡ ok m
      → m.heart_beat ≡ none
      → m.event ≡ none
      → m.request ≡ none
      → m.error_report ≡ none
      → m.config_validation ≡ some cv
      → generate_sdk P e cv.org x.world ≡ (err cause, w)
      → serve_http P e r x ≡ panicked (record x { world = w })
  unfolding serve_http authenticate decode_and_dispatch dispatch on_config_validation
  config_validation_panics r x content cause m cv w signed body right json h1 h2 h3 h4 h5 sdk =
      ground (arith, eq_iff r.signature "")

  -- A callback of an event that panics
  pub serve_http-crashed :
      (r : HttpRequest) (x : Exchange P.World) (ev : EventMessage) {content : String} {m : Message}
      {org : P.Org} {callback : EventCallback P.World P.Org} {w v : P.World}
      → r.signature ≢ ""
      → open_body P e r ≡ ok (ok content)
      → verify_origin P content r.signature e.secret_key ≡ true
      → P.unmarshal_message content ≡ ok m
      → m.heart_beat ≡ none
      → m.event ≡ some ev
      → generate_sdk P e ev.org x.world ≡ (ok org, w)
      → lookup ev.event_name e.callbacks.event_handlers ≡ some callback
      → callback
          (record {
            org = org;
            payload = ev.payload;
            conf = ev.config;
            idempotent_key = m.idempotency_key;
          })
          w
        ≡ crashed v
      → serve_http P e r x ≡ panicked (record x { world = v })
  unfolding dispatch on_event
  serve_http-crashed r x ev signed body fits json quiet event sdk known crashes =
      serve_http-dispatch P e r signed body fits json x ∙ ground arith
