-- ===== src/Multiplexer/Signed.antt =====
-- A multiplexer and the worker behind it: the handler of core/extension.go takes what forwardEvent
-- sends, signed with the secret that createService gave to the worker.
use lc_extension.Base.{
  ℕ, String, ◌≡◌, ◌≢◌, refl, sym, ap, ◌∙◌, List, [], ◌∷◌, Option, none, some, eq_refl, ◌==◌,
}
use lc_extension.Base.GoMap.{lookup}
use lc_extension.Base.Effect.{Result, ok, err, Action, context, >>=-of_ok, context-of_ok}
use lc_extension.Common.Messages.{ErrorReportMessage, EventName, Message, Response}
use lc_extension.Core.Platform.{Platform, response}
use lc_extension.Core.Extension.{
  ExtensionOf, EventCallback, EventCallbackParams, returned, verify_origin, generate_sdk,
}
use lc_extension.Core.Extension.Exchange.{Exchange, Written, Outcome, finished, panicked}
use lc_extension.Core.Extension.Serve.{HttpRequest, open_body, serve_http}
use lc_extension.Core.Extension.Delivery.{sent, answered, serve_http-event}
use lc_extension.Multiplexer.{ServiceDefinition, Cloud, Settings, Multiplexer, outside}
use lc_extension.Multiplexer.Services.{get_service}
use lc_extension.Multiplexer.Forward.{
  given, sign_for_self, decoded_answer, forward_http, hooked_message, hooked_response, posted,
  forward_message, worker_access, worker_event, forward_event,
}

-- A POST of forwardHTTP as the worker's server hands it on
abbrev pub arriving : String → String → HttpRequest
arriving signature body = record { signature = signature; content_encoding = ""; body = ok body }

-- What the client reads of an exchange; a handler that panics ends the connection.
abbrev pub first_body : List Written → String
first_body [] = ""
first_body (line ∷ _) = line.body

abbrev pub begin : {W : Type 0} → W → Exchange W
begin w = record { world = w; reports = []; written = [] }

module _ (C : Cloud) (P : Platform) (seen : C.World → P.World)
    (changed : P.World → C.World → C.World) where
  abbrev pub read_by : Outcome P.World (Unit {0}) → C.World → Result (Result String) × C.World
  read_by (finished _ x) w = (ok (ok (first_body x.written)), changed x.world w)
  read_by (panicked x) w = (err "EOF", changed x.world w)

  -- The worker runs behind a URL: its handler answers every POST there.
  abbrev pub RunsAt : ExtensionOf P → String → Type 0
  RunsAt worker url =
      (signature body : String) (w : C.World)
      → C.do_request url signature body w
        ≡ read_by (serve_http P worker (arriving signature body) (begin (seen w))) w

  unhooked_message :
      (hook : Option (C.Org → Message → Action C.World Message)) (o : C.Org) (m : Message)
      (w : C.World)
      → hook ≡ none
      → hooked_message C hook o m w ≡ (ok m, w)
  unfolding hooked_message
  unhooked_message hook o m w no_hook = rw no_hook refl

  unhooked_response :
      (hook : Option (C.Org → Message → Response → ℕ → Action C.World Response)) (o : C.Org)
      (m : Message) (r : Response) (began : ℕ) (w : C.World)
      → hook ≡ none
      → hooked_response C hook o m r began w ≡ (ok r, w)
  unfolding hooked_response
  unhooked_response hook o m r began w no_hook = rw no_hook refl

  module _ (worker : ExtensionOf P) (url : String) (runs : RunsAt worker url)
      (well_formed : C.new_request url ≡ ok tt) where
    forward_http-read :
        (secret body text : String) (r : Response) (w : C.World) (x : Exchange P.World)
        → serve_http P worker (arriving (sign_for_self C secret body) body) (begin (seen w))
          ≡ finished tt x
        → first_body x.written ≡ text
        → C.unmarshal_response text ≡ ok r
        → forward_http C secret url body w ≡ (ok r, changed x.world w)
    unfolding forward_http decoded_answer
    forward_http-read secret body text r w x served reads json =
        let answer : C.do_request url (C.hmac_hex secret body) body w
            ≡ (ok (ok text), changed x.world w) =
          runs (C.hmac_hex secret body) body w
          ∙ ap (λ o. read_by o w) served
          ∙ ap (λ t. (ok (ok t), changed x.world w)) reads in
        rw (well_formed, answer, json) refl

    forward_message-read :
        (o : C.Org) (secret body text : String) (m : Message) (r : Response) (w : C.World)
        (x : Exchange P.World)
        → C.hook_send_message ≡ none
        → C.hook_response ≡ none
        → C.marshal m ≡ ok body
        → serve_http P worker (arriving (sign_for_self C secret body) body) (begin (seen w))
          ≡ finished tt x
        → first_body x.written ≡ text
        → C.unmarshal_response text ≡ ok r
        → forward_message C o url secret m w ≡ (ok r, changed x.world w)
    unfolding forward_message posted
    forward_message-read o secret body text m r w x no_hook no_other_hook marshals served reads
          json =
        >>=-of_ok (hooked_message C C.hook_send_message o m) _ w
          (unhooked_message C.hook_send_message o m w no_hook)
        ∙ >>=-of_ok (context "json.Marshal: " (given C (C.marshal m))) _ w
            (context-of_ok "json.Marshal: " (given C (C.marshal m)) w (ap (λ b. (b, w)) marshals))
        ∙ >>=-of_ok (context "forwardHTTP: " (forward_http C secret url body)) _ w (
            context-of_ok "forwardHTTP: " (forward_http C secret url body) w
              (forward_http-read secret body text r w x served reads json))
        ∙ unhooked_response C.hook_response o m r (C.now w) (changed x.world w) no_other_hook

    -- A worker with an ErrorHandler runs behind a well-formed URL with the secret that Datastore has
    -- for the organization, both sides compute the same HMAC, which is never empty, there are no
    -- hooks, and the message can be encoded and decodes to itself: then forwardEvent runs the worker's
    -- handler of the event once, on the event's data and configuration under its idempotency key,
    -- and gives the response that the worker's answer decodes to; the cache stays as getService
    -- left it.
    pub forward_event-runs :
        (e : Settings) (event_name : EventName) (params : EventCallbackParams C.Org)
        (s t : Multiplexer C.World) {def : ServiceDefinition}
        {handler : ErrorReportMessage → P.World → P.World} {body text : String} {org : P.Org}
        {callback : EventCallback P.World P.Org} {v v' : P.World} {reply r : Response}
        → ((key payload : String) → C.hmac_hex key payload ≡ P.hmac_hex key payload)
        → ((key payload : String) → P.hmac_hex key payload ≢ "")
        → C.hook_send_message ≡ none
        → C.hook_response ≡ none
        → get_service C e (C.get_oid params.org) s ≡ (ok def, t)
        → def.url ≡ url
        → def.secret ≡ worker.secret_key
        → worker.callbacks.error_handler ≡ some handler
        → C.marshal (worker_event C event_name params) ≡ ok body
        → P.unmarshal_message body ≡ ok (worker_event C event_name params)
        → generate_sdk P worker (worker_access C params.org) (seen t.world) ≡ (ok org, v)
        → lookup event_name worker.callbacks.event_handlers ≡ some callback
        → callback
            (record {
              org = org;
              payload = params.payload;
              conf = params.conf;
              idempotent_key = params.idempotent_key;
            })
            v
          ≡ returned reply v'
        → P.encode (response (sent reply)) ≡ ok text
        → C.unmarshal_response text ≡ ok r
        → forward_event C e event_name params s ≡ (
          ok r,
          record t {
            world =
                changed
                  (answered P worker handler reply text
                    (record (begin (seen t.world)) { world = v' })).world
                  t.world;
          },
        )
    unfolding forward_event sign_for_self verify_origin open_body
    forward_event-runs e event_name params s t {def} {handler} {body} {text} {v' = v'} {reply} {r}
          same_mac not_empty no_hook no_other_hook found at_url same_secret has_handler marshals
          decodes sdk known handles encodes json =
        let request = arriving (sign_for_self C def.secret body) body in
        let same : C.hmac_hex def.secret body ≡ P.hmac_hex worker.secret_key body =
          same_mac def.secret body ∙ ap (λ k. P.hmac_hex k body) same_secret in
        let served =
          serve_http-event P worker has_handler request
            (λ empty. not_empty worker.secret_key body (sym same ∙ empty)) refl
            (ap (λ t. P.hmac_hex worker.secret_key body == t) same ∙ eq_refl _) decodes
            (begin (seen t.world))
            (record {
              org = worker_access C params.org;
              event_name = event_name;
              payload = params.payload;
              config = params.conf;
            })
            {w' = v'} {reply = reply} {text = text} refl refl sdk known handles encodes in
        >>=-of_ok (context "failed to get service: " (get_service C e (C.get_oid params.org))) _ s
          (context-of_ok "failed to get service: " (get_service C e (C.get_oid params.org)) s found)
        ∙ ap
            (λ u.
              outside (forward_message C params.org u def.secret (worker_event C event_name params))
                t)
            at_url
        ∙ ap (λ x. (x.0, record t { world = x.1 }))
            (forward_message-read params.org def.secret body text (worker_event C event_name params)
              r t.world
              (answered P worker handler reply text (record (begin (seen t.world)) { world = v' }))
              no_hook no_other_hook marshals served refl json)
