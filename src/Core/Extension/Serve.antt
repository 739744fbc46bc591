-- ===== src/Core/Extension/Serve.antt =====
-- `ServeHTTP`: authentication, decoding, dispatch and the answer. Every `return` of the source is
-- the end of a branch here; a panic ends the exchange where it happens.
use lc_extension.Base.{ℕ, String, ◌<>◌, ◌==◌, not, Option, none, some, if◌then◌else◌}
use lc_extension.Base.GoMap.{lookup, keys}
use lc_extension.Base.Effect.{Result, ok, err}
use lc_extension.Common.Value.{Value, Dict}
use lc_extension.Common.Messages.{
  ConfigValidationMessage, EventMessage, RequestMessage, Message, Response, schema, empty_response,
  is_retriable,
}
use lc_extension.Core.Platform.{Platform, response, heart_beat_response}
use lc_extension.Core.Extension.{
  ExtensionOf, RequestData, plain, decoded, protocol_version, verify_origin, generate_sdk,
  unmarshal_to_struct,
}
use lc_extension.Core.Extension.Exchange.{
  Serve, panic, call, call_back, on_result, on_option, report, respond_and_log, ◌>>=◌, ◌>>◌,
}

-- The two headers that the handler reads, "" where one is missing, and what reading the body to
-- its end gives.
pub record HttpRequest : Type 0 where
  pub signature : String
  pub content_encoding : String
  pub body : Result String

-- `response := common.Response{Version: PROTOCOL_VERSION}`
abbrev pub initial_response : Response
initial_response = record empty_response { version = protocol_version }

abbrev pub error_response : String → Response
error_response text = record initial_response { error = text }

-- `response.Data = &common.SchemaRequestResponse{...}`
abbrev pub schema_response : (P : Platform) → ExtensionOf P → Response
schema_response P e = record initial_response {
  payload = some (
      schema (record {
        views = e.views_schema;
        config = e.config_schema;
        request = e.request_schema;
        required_events = keys e.callbacks.event_handlers;
      }));
}

module _ (P : Platform) (e : ExtensionOf P) where
  abbrev answer : ℕ → Response → Serve P.World (Unit {0})
  answer status r = respond_and_log P e status (some (response r))

  -- An error that ErrorHandler hears of before the client does.
  abbrev report_and_answer : ℕ → String → String → Serve P.World (Unit {0})
  report_and_answer status text oid = do
    report P e (record { error = text; oid = oid })
    answer status (error_response text)

  -- The code behind the dispatch: the status is read off the response.
  unfoldable pub conclude : Response → Serve P.World (Unit {0})
  conclude r =
      if r.error == ""
      then answer 200 (record r { version = protocol_version })
      else if is_retriable r
      then answer 500 r
      else answer 400 r

  sdk_failed : String → String
  sdk_failed cause = "failed initializing sdk: " <> cause

  -- The branch of `message.Event`.
  unfoldable pub on_event : Message → EventMessage → Serve P.World (Unit {0})
  unfolding sdk_failed
  on_event m ev = do
    sdk ← call (generate_sdk P e ev.org)
    on_result sdk (λ cause. report_and_answer 500 (sdk_failed cause) ev.org.oid)
        (λ org.
          on_option (lookup ev.event_name e.callbacks.event_handlers)
            (report_and_answer 400 ("unknown event: " <> ev.event_name) ev.org.oid)
            (λ handler. do
              r ← call_back (
                  handler (record {
                    org = org;
                    payload = ev.payload;
                    conf = ev.config;
                    idempotent_key = m.idempotency_key;
                  }))
              conclude r))

  -- The data for the callback: a nil RequestStruct asks for the dictionary itself.
  unfoldable pub request_data : Option (Dict → Result Value) → Dict → Result RequestData
  unfolding unmarshal_to_struct
  request_data none d = ok (plain d)
  request_data (some decode) d = elim (unmarshal_to_struct d decode) [
    | ok v ↦ ok (decoded v)
    | err cause ↦ err cause
  ]

  -- The branch of `message.Request`.
  unfoldable pub on_request : Message → RequestMessage → Serve P.World (Unit {0})
  unfolding sdk_failed
  on_request m rq = do
    sdk ← call (generate_sdk P e rq.org)
    on_result sdk (λ cause. report_and_answer 500 (sdk_failed cause) rq.org.oid)
        (λ org.
          on_option (lookup rq.action e.callbacks.request_handlers)
            (report_and_answer 400 ("unknown request action: " <> rq.action) rq.org.oid)
            (λ rcb.
              on_result (request_data rcb.request_struct rq.payload)
                (λ cause.
                  answer 400 (error_response ("failed to unmarshal request data: " <> cause)))
                (λ request. do
                  r ← call_back (
                      rcb.callback (record {
                        org = org;
                        ident = rq.org.ident;
                        request = request;
                        config = rq.config;
                        idempotent_key = m.idempotency_key;
                        resource_state = rq.resource_state;
                        investigation_id = rq.investigation_id;
                      }))
                  conclude r)))

  -- The branch of `message.ConfigValidation`. Where the SDK fails, the source reads
  -- `message.Request.Org.OID`, and a nil `message.Request` panics.
  unfoldable pub on_config_validation : Message → ConfigValidationMessage → Serve P.World (Unit {0})
  unfolding sdk_failed
  on_config_validation m cv = do
    sdk ← call (generate_sdk P e cv.org)
    on_result sdk
        (λ cause.
          on_option m.request panic (λ rq. report_and_answer 500 (sdk_failed cause) rq.org.oid))
        (λ org.
          on_option e.callbacks.validate_config (conclude initial_response)
            (λ validate. do r ← call_back (validate org cv.config); conclude r))

  -- The dispatch on the first member that is there, in the order of the source.
  unfoldable pub dispatch : String → Message → Serve P.World (Unit {0})
  dispatch content m =
      on_option m.heart_beat
        (on_option m.event
          (on_option m.request
            (on_option m.error_report
              (on_option m.config_validation
                (on_option m.schema_request
                  (answer 400 (error_response ("no data in request: " <> content)))
                  (λ _. conclude (schema_response P e)))
                (on_config_validation m))
              (λ er. do report P e er; conclude initial_response))
            (on_request m))
          (on_event m))
        (λ _. respond_and_log P e 200 (some heart_beat_response))

  -- Behind the signature check.
  unfoldable pub decode_and_dispatch : String → Serve P.World (Unit {0})
  decode_and_dispatch content =
      on_result (P.unmarshal_message content)
        (λ cause. answer 400 (error_response ("invalid json body: " <> cause))) (dispatch content)

  -- `body`: the request's body, decompressed where the header says so.
  unfoldable pub open_body : HttpRequest → Result (Result String)
  open_body r = if r.content_encoding == "gzip" then P.gunzip r.body else ok r.body

  -- Behind the reading of the body.
  unfoldable pub authenticate : String → String → Serve P.World (Unit {0})
  authenticate signature content =
      if not (verify_origin P content signature e.secret_key)
      then (do
        report P e (record { error = "invalid signature"; oid = "" })
        respond_and_log P e 401 none)
      else decode_and_dispatch content

  -- Extension.ServeHTTP
  unfoldable pub serve_http : HttpRequest → Serve P.World (Unit {0})
  serve_http r =
      if r.signature == ""
      then respond_and_log P e 200 none
      else on_result (open_body r) (λ cause. answer 400 (error_response cause))
          (λ body.
            on_result body (λ cause. answer 204 (error_response ("failed reading body: " <> cause)))
              (authenticate r.signature))
