-- ===== src/Core/Extension/Delivery.antt =====
-- What a callback is handed, and how its response becomes the answer.
use lc_extension.Base.{
  ℕ, String, ◌≡◌, ◌∙◌, ◌≢◌, true, ◌&&◌, not, [], ◌∷◌, ◌++◌, none, some, arith, eq_iff, ◌==◌,
  if◌then◌else◌,
}
use lc_extension.Base.GoMap.{lookup}
use lc_extension.Base.Effect.{ok}
use lc_extension.Common.Messages.{
  ErrorReportMessage, Message, EventMessage, RequestMessage, Response, is_retriable,
}
use lc_extension.Core.Platform.{Platform, response}
use lc_extension.Core.Extension.{
  ExtensionOf, EventCallback, RequestCallback, returned, RequestData, verify_origin, generate_sdk,
  protocol_version,
}
use lc_extension.Core.Extension.Exchange.{Exchange, finished, respond_and_log}
use lc_extension.Core.Extension.Serve.{
  HttpRequest, open_body, authenticate, conclude, request_data, on_event, on_request, dispatch,
  decode_and_dispatch, serve_http,
}

-- The status that a response stands for: 200 without an error, 500 for an error that may be
-- retried, 400 for one that may not.
abbrev pub status_of : Response → ℕ
status_of r = if r.error == "" then 200 else if is_retriable r then 500 else 400

-- The response as it is sent: the protocol's version stands in it if it has no error.
abbrev pub sent : Response → Response
sent r = if r.error == "" then record r { version = protocol_version } else r

module _ (P : Platform) (e : ExtensionOf P) (handler : ErrorReportMessage → P.World → P.World) where
  -- With `isLogAllErrors`, ErrorHandler hears the error of a response.
  abbrev pub noticed : Response → Exchange P.World → Exchange P.World
  noticed r x =
      let m : ErrorReportMessage = record { error = r.error; oid = "" } in
      if e.is_log_all_errors && not (r.error == "")
      then record x { world = handler m x.world; reports = x.reports ++ (m ∷ []) }
      else x

  -- The exchange after the response `r` of a callback, sent as `text`.
  abbrev pub answered : Response → String → Exchange P.World → Exchange P.World
  answered r text x = record (noticed r x) {
    written = x.written ++ (record { status = status_of r; body = text } ∷ []);
  }

module _ (P : Platform) (e : ExtensionOf P) (r : HttpRequest) {content : String} {m : Message}
    (signed : r.signature ≢ "") (body : open_body P e r ≡ ok (ok content))
    (fits : verify_origin P content r.signature e.secret_key ≡ true)
    (json : P.unmarshal_message content ≡ ok m) (x : Exchange P.World) where
  pub serve_http-dispatch : serve_http P e r x ≡ dispatch P e content m x
  unfolding serve_http authenticate decode_and_dispatch
  serve_http-dispatch = ground (arith, eq_iff r.signature "")

module _ (P : Platform) (e : ExtensionOf P) {handler : ErrorReportMessage → P.World → P.World}
    (has_handler : e.callbacks.error_handler ≡ some handler) where
  conclude_lem :
      (r : Response) (text : String) (x : Exchange P.World)
      → P.encode (response (sent r)) ≡ ok text
      → conclude P e r x ≡ finished tt (answered P e handler r text x)
  unfolding conclude respond_and_log
  conclude_lem r text x encodes = ground arith

  module _ (r : HttpRequest) {content : String} {m : Message} (signed : r.signature ≢ "")
      (body : open_body P e r ≡ ok (ok content))
      (fits : verify_origin P content r.signature e.secret_key ≡ true)
      (json : P.unmarshal_message content ≡ ok m) (x : Exchange P.World) where
    -- With an ErrorHandler: a rightly signed message with an event and no heartbeat, for whose
    -- organization the SDK can be set up and for which a handler is registered, runs that handler
    -- once, on its data and configuration under the message's idempotency key; where the response
    -- can be encoded it is the answer, with the status that it stands for, and with isLogAllErrors
    -- ErrorHandler hears its error.
    pub serve_http-event :
        (ev : EventMessage) {org : P.Org} {callback : EventCallback P.World P.Org} {w w' : P.World}
        {reply : Response} {text : String}
        → m.heart_beat ≡ none
        → m.event ≡ some ev
        → generate_sdk P e ev.org x.world ≡ (ok org, w)
        → lookup ev.event_name e.callbacks.event_handlers ≡ some callback
        → callback
            (record {
              org = org;
              payload = ev.payload;
              conf = ev.config;
              idempotent_key = m.idempotency_key;
            })
            w
          ≡ returned reply w'
        → P.encode (response (sent reply)) ≡ ok text
        → serve_http P e r x
          ≡ finished tt (answered P e handler reply text (record x { world = w' }))
    unfolding dispatch on_event
    serve_http-event ev {w' = w'} {reply = reply} {text = text} quiet event sdk known runs encodes =
        serve_http-dispatch P e r signed body fits json x
        ∙ ground (arith, conclude_lem reply text (record x { world = w' }) encodes)

    -- With an ErrorHandler: a rightly signed message with a request and no heartbeat or event, for
    -- whose organization the SDK can be set up, for which a callback is registered and whose data
    -- decodes, runs that callback once, on the data, configuration, identity, resource state and
    -- investigation of the request under the message's idempotency key; where the response can be
    -- encoded it is the answer, with the status that it stands for, and with isLogAllErrors
    -- ErrorHandler hears its error.
    pub serve_http-request :
        (rq : RequestMessage) {org : P.Org} {rcb : RequestCallback P.World P.Org}
        {request : RequestData} {w w' : P.World} {reply : Response} {text : String}
        → m.heart_beat ≡ none
        → m.event ≡ none
        → m.request ≡ some rq
        → generate_sdk P e rq.org x.world ≡ (ok org, w)
        → lookup rq.action e.callbacks.request_handlers ≡ some rcb
        → request_data P e rcb.request_struct rq.payload ≡ ok request
        → rcb.callback
            (record {
              org = org;
              ident = rq.org.ident;
              request = request;
              config = rq.config;
              idempotent_key = m.idempotency_key;
              resource_state = rq.resource_state;
              investigation_id = rq.investigation_id;
            })
            w
          ≡ returned reply w'
        → P.encode (response (sent reply)) ≡ ok text
        → serve_http P e r x
          ≡ finished tt (answered P e handler reply text (record x { world = w' }))
    unfolding dispatch on_request
    serve_http-request rq {w' = w'} {reply = reply} {text = text} quiet no_event is_request sdk
          known decodes runs encodes =
        serve_http-dispatch P e r signed body fits json x
        ∙ ground (arith, conclude_lem reply text (record x { world = w' }) encodes)
