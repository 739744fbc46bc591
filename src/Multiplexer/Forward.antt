-- ===== src/Multiplexer/Forward.antt =====
-- forwardRequest, forwardConfigValidation, forwardEvent and forwardHTTP.
use lc_extension.Base.{ℕ, String, ◌<>◌, [], Option, none, some}
use lc_extension.Base.Effect.{Result, ok, err, Action, pure, context, ◌>>=◌, ◌>>◌}
use lc_extension.Common.Value.{Dict}
use lc_extension.Common.Messages.{
  EventName, ActionName, OrgAccessData, Message, Response, empty_message,
}
use lc_extension.Core.Extension.{RequestCallbackParams, EventCallbackParams, protocol_version}
use lc_extension.Multiplexer.{Cloud, Settings, Multiplexer, outside}
use lc_extension.Multiplexer.Services.{get_service}

module _ (C : Cloud) where
  -- signForSelf
  unfoldable pub sign_for_self : String → String → String
  sign_for_self secret body = C.hmac_hex secret body

  -- A result that is there already
  abbrev pub given {ℓ} : {A : Type ℓ} → Result A → Action C.World A
  given r w = (r, w)

  unfoldable pub decoded_answer : String → Result Response → Result Response
  decoded_answer received (ok r) = ok r
  decoded_answer received (err e) =
      err ("json.Unmarshal: " <> (e <> (" (received: " <> (received <> ")"))))

  -- forwardHTTP
  unfoldable pub forward_http : String → String → String → Action C.World Response
  unfolding sign_for_self decoded_answer
  forward_http secret service_url body = do
    context "http.NewRequestWithContext: " (given (C.new_request service_url))
    answer ← context "http.Do: " (C.do_request service_url (sign_for_self secret body) body)
    text ← context "io.ReadAll: " (given answer)
    given (decoded_answer text (C.unmarshal_response text))

  -- `if e.HookSendMessage != nil`
  unfoldable pub hooked_message :
      Option (C.Org → Message → Action C.World Message) → C.Org → Message → Action C.World Message
  hooked_message none o m = pure m
  hooked_message (some hook) o m = context "HookSendMessage: " (hook o m)

  unfoldable pub hooked_response :
      Option (C.Org → Message → Response → ℕ → Action C.World Response)
      → C.Org
      → Message
      → Response
      → ℕ
      → Action C.World Response
  hooked_response none o m r start = pure r
  hooked_response (some hook) o m r start = context "HookResponse: " (hook o m r start)

  unfoldable pub posted : C.Org → String → String → Message → String → Action C.World Response
  unfolding hooked_response
  posted o service_url secret m body w =
      (do
        r ← context "forwardHTTP: " (forward_http secret service_url body)
        hooked_response C.hook_response o m r (C.now w))
        w

  -- What the three kinds of forwarding have in common: the hooks, the encoding and the POST
  unfoldable pub forward_message : C.Org → String → String → Message → Action C.World Response
  unfolding hooked_message posted
  forward_message o service_url secret message = do
    m ← hooked_message C.hook_send_message o message
    body ← context "json.Marshal: " (given (C.marshal m))
    posted o service_url secret m body

  -- The organization as the worker is told of it: no ident
  abbrev pub worker_access : C.Org → OrgAccessData
  worker_access o = record { oid = C.get_oid o; jwt = C.get_current_jwt o; ident = "" }

  abbrev pub worker_request : ActionName → RequestCallbackParams C.Org → Dict → Message
  worker_request action params request =
      record (empty_message protocol_version params.idempotent_key) {
        request = some (record {
          org = worker_access params.org;
          action = action;
          payload = request;
          config = params.config;
          resource_state = [];
          investigation_id = "";
        });
      }

  abbrev pub worker_event : EventName → EventCallbackParams C.Org → Message
  worker_event event_name params = record (empty_message protocol_version params.idempotent_key) {
    event = some (record {
      org = worker_access params.org;
      event_name = event_name;
      payload = params.payload;
      config = params.conf;
    });
  }

  abbrev pub worker_validation : C.Org → Dict → Message
  worker_validation o config = record (empty_message protocol_version "") {
    config_validation = some (record { org = worker_access o; config = config });
  }

  module _ (e : Settings) where
    abbrev State : Type 0
    State = Multiplexer C.World

    -- Multiplexer.forwardRequest, of a request that is a dictionary
    unfoldable pub forward_request :
        ActionName → RequestCallbackParams C.Org → Dict → Action State Response
    forward_request action params request = do
      def ← context "failed to get service: " (get_service C e (C.get_oid params.org))
      outside (forward_message params.org def.url def.secret (worker_request action params request))

    -- Multiplexer.forwardConfigValidation
    unfoldable pub forward_config_validation :
        C.Org → String → String → Dict → Action State Response
    forward_config_validation o service_url secret config =
        outside (forward_message o service_url secret (worker_validation o config))

    -- Multiplexer.forwardEvent
    unfoldable pub forward_event : EventName → EventCallbackParams C.Org → Action State Response
    forward_event event_name params = do
      def ← context "failed to get service: " (get_service C e (C.get_oid params.org))
      outside (forward_message params.org def.url def.secret (worker_event event_name params))
