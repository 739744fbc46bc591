-- ===== src/Simulator/Served.antt =====
-- A simulator with the extension behind its test server.
use lc_extension.Base.{
  String, ◌≡◌, ◌≢◌, refl, sym, ap, ◌∙◌, List, [], ◌∷◌, none, some, arith, eq_refl, eq_iff, ◌==◌,
  true, false,
}
use lc_extension.Base.GoMap.{lookup}
use lc_extension.Base.Effect.{ok}
use lc_extension.Common.Messages.{
  ErrorReportMessage, EventMessage, Message, RequestMessage, Response,
}
use lc_extension.Core.Platform.{Platform, response}
use lc_extension.Core.Extension.{
  ExtensionOf, EventCallback, RequestCallback, returned, RequestData, verify_origin, generate_sdk,
}
use lc_extension.Core.Extension.Exchange.{Exchange, Written, Outcome, finished, panicked}
use lc_extension.Core.Extension.Serve.{request_data, serve_http}
use lc_extension.Core.Extension.Delivery.{sent, answered, serve_http-event, serve_http-request}
use lc_extension.Simulator.{Backend, Simulator, Posted, Reception, no_response, received}
use lc_extension.Simulator.Send.{parsed, prepare, send_payload, send_raw, parse_raw, send_and_parse}
use lc_extension.Simulator.Signed.{delivered, prepare-signature, prepare-open_body}

-- What the simulator's HTTP client reads of an exchange
abbrev pub first_line : List Written → Reception
first_line [] = received 200 ""
first_line (line ∷ _) = received line.status line.body

abbrev begin : {W : Type 0} → W → Exchange W
begin w = record { world = w; reports = []; written = [] }

module _ (B : Backend) (P : Platform) (seen : B.World → P.World)
    (changed : P.World → B.World → B.World) where
  abbrev pub read_by : Outcome P.World (Unit {0}) → B.World → Reception × B.World
  read_by (finished _ x) w = (first_line x.written, changed x.world w)
  read_by (panicked x) w = (no_response "EOF", changed x.world w)

  -- The test server runs the extension's handler.
  abbrev pub Runs : ExtensionOf P → Type 0
  Runs e =
      (p : Posted) (w : B.World)
      → B.post p w ≡ read_by (serve_http P e (delivered p) (begin (seen w))) w

  module _ (e : ExtensionOf P) (runs : Runs e)
      (same_mac : (key payload : String) → B.hmac_hex key payload ≡ P.hmac_hex key payload)
      (mac_not_empty : (key payload : String) → P.hmac_hex key payload ≢ "")
      (gunzip-gzip : (text : String) → P.gunzip (ok (B.gzip text)) ≡ ok (ok text))
      {handler : ErrorReportMessage → P.World → P.World}
      (has_handler : e.callbacks.error_handler ≡ some handler) where
    -- The signature of what the simulator sends
    module _ (s : Simulator B) (same_secret : s.secret_key ≡ e.secret_key) (body : String) where
      has_signature : (delivered (prepare B s body)).signature ≢ ""
      has_signature empty = mac_not_empty e.secret_key body (
          sym (prepare-signature B P e same_mac mac_not_empty gunzip-gzip s same_secret body)
          ∙ empty)

      has_fitting_signature :
          verify_origin P body (delivered (prepare B s body)).signature e.secret_key ≡ true
      unfolding verify_origin
      has_fitting_signature =
          ap (λ t. P.hmac_hex e.secret_key body == t)
            (prepare-signature B P e same_mac mac_not_empty gunzip-gzip s same_secret body)
          ∙ eq_refl _

    -- A reply without error
    module _ (s : Simulator B) (m : Message) (reply : Response) {body text : String} {v : P.World}
        (marshals : B.marshal m ≡ ok body) (no_error : (reply.error == "") ≡ true)
        (encodes : B.unmarshal_response text ≡ ok (sent reply)) (has_text : text ≢ "") where
      send_and_parse-answered :
          serve_http P e (delivered (prepare B s body)) (begin (seen s.world))
            ≡ finished tt
                (answered P e handler reply text (record (begin (seen s.world)) { world = v }))
          → send_and_parse B m s ≡ (parsed (sent reply) 200, record s { world = changed v s.world })
      unfolding send_and_parse send_raw send_payload parse_raw
      send_and_parse-answered served =
          let read : B.post (prepare B s body) s.world ≡ (received 200 text, changed v s.world) =
            runs (prepare B s body) s.world ∙ ap (λ o. read_by o s.world) served ∙ ground arith in
          let not_empty : (text == "") ≡ false = ground (arith, eq_iff text "") in
          rw (marshals, read, not_empty, encodes) refl

      -- Behind a reply to an event, and behind one to a request
      module _ (same_secret : s.secret_key ≡ e.secret_key)
          (decodes : P.unmarshal_message body ≡ ok m) where
        pub send_and_parse-event :
            (ev : EventMessage) {org : P.Org} {callback : EventCallback P.World P.Org} {w : P.World}
            → m.heart_beat ≡ none
            → m.event ≡ some ev
            → generate_sdk P e ev.org (seen s.world) ≡ (ok org, w)
            → lookup ev.event_name e.callbacks.event_handlers ≡ some callback
            → callback
                (record {
                  org = org;
                  payload = ev.payload;
                  conf = ev.config;
                  idempotent_key = m.idempotency_key;
                })
                w
              ≡ returned reply v
            → P.encode (response (sent reply)) ≡ ok text
            → send_and_parse B m s
              ≡ (parsed (sent reply) 200, record s { world = changed v s.world })
        send_and_parse-event ev quiet event sdk known runs_callback writes =
            send_and_parse-answered (
              serve_http-event P e has_handler (delivered (prepare B s body))
                (has_signature s same_secret body)
                (prepare-open_body B P e same_mac mac_not_empty gunzip-gzip s same_secret body)
                (has_fitting_signature s same_secret body) decodes (begin (seen s.world)) ev quiet
                event sdk known runs_callback writes)

        pub send_and_parse-request :
            (rq : RequestMessage) {org : P.Org} {rcb : RequestCallback P.World P.Org}
            {request : RequestData} {w : P.World}
            → m.heart_beat ≡ none
            → m.event ≡ none
            → m.request ≡ some rq
            → generate_sdk P e rq.org (seen s.world) ≡ (ok org, w)
            → lookup rq.action e.callbacks.request_handlers ≡ some rcb
            → request_data P e rcb.request_struct rq.payload ≡ ok request
            → rcb.callback
                (record {
                  org = org;
                  ident = rq.org.ident;
                  request = request;
                  config = rq.config;
                  idempotent_key = m.idempotency_key;
                  resource_state = rq.resource_state;
                  investigation_id = rq.investigation_id;
                })
                w
              ≡ returned reply v
            → P.encode (response (sent reply)) ≡ ok text
            → send_and_parse B m s
              ≡ (parsed (sent reply) 200, record s { world = changed v s.world })
        send_and_parse-request rq quiet no_event is_request sdk known struct runs_callback writes =
            send_and_parse-answered (
              serve_http-request P e has_handler (delivered (prepare B s body))
                (has_signature s same_secret body)
                (prepare-open_body B P e same_mac mac_not_empty gunzip-gzip s same_secret body)
                (has_fitting_signature s same_secret body) decodes (begin (seen s.world)) rq quiet
                no_event is_request sdk known struct runs_callback writes)
