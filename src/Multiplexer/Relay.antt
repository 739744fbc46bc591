-- ===== src/Multiplexer/Relay.antt =====
-- The webhook handler of a multiplexer, after Init: the events that the reference service asks for.
use lc_extension.Base.{
  String, ◌==◌, ◌≡◌, ◌≢◌, refl, ap, ◌∙◌, true, false, List, [], ◌∷◌, none, some, inl, inr,
  Bool-cases, has_text, arith, eq_iff, if◌then◌else◌,
}
use lc_extension.Base.GoMap.{GoMap, lookup, insert, lookup-insert}
use lc_extension.Base.Effect.{Result, ok, err, Action}
use lc_extension.Common.Messages.{
  EventMessage, EventName, Message, OrgAccessData, Response, SchemaRequestResponse, subscribe,
  unsubscribe,
}
use lc_extension.Core.Platform.{Wire, platform_over, response}
use lc_extension.Core.Extension.{
  Extension, EventCallback, EventCallbackParams, init, return_of, verify_origin, generate_sdk,
}
use lc_extension.Core.Extension.Exchange.{Exchange, finished}
use lc_extension.Core.Extension.Serve.{HttpRequest, open_body, serve_http}
use lc_extension.Core.Extension.Delivery.{sent, answered, serve_http-event}
use lc_extension.Multiplexer.{Cloud, Settings, Multiplexer}
use lc_extension.Multiplexer.Forward.{forward_event}
use lc_extension.Multiplexer.Events.{answer_or, forwarded, on_generic_event}
use lc_extension.Multiplexer.Init.{
  generic_event, generic_events, lifecycle_events, multiplexer_extension,
}

-- (e *Multiplexer) Init, which is the Init of the extension
unfoldable pub init_extension :
    (C : Cloud)
    → String
    → Extension (Multiplexer C.World) C.Org
    → Extension (Multiplexer C.World) C.Org
init_extension C log_all_errors extension = init log_all_errors extension

module _ (C : Cloud) (e : Settings) where
  lookup-insert_generic :
      (name event : EventName) (handlers : GoMap (EventCallback (Multiplexer C.World) C.Org))
      → lookup event (insert name (generic_event C e name) handlers)
        ≡ (if name == event then some (generic_event C e event) else lookup event handlers)
  lookup-insert_generic name event handlers =
      lookup-insert name event (generic_event C e name) handlers
      ∙ elim (Bool-cases (name == event)) [
        | inl here ↦
            let name_is : name ≡ event = ground (arith, eq_iff name event) in
            rw here (ap (λ n. some (generic_event C e n)) name_is)
        | inr other ↦ rw other refl
      ]

  -- A handler that is there stays, or is written again.
  lookup-generic_events :
      (events : List EventName) (event : EventName)
      (handlers : GoMap (EventCallback (Multiplexer C.World) C.Org))
      → lookup event handlers ≡ some (generic_event C e event)
      → lookup event (generic_events C e events handlers) ≡ some (generic_event C e event)
  unfolding generic_events
  lookup-generic_events [] event handlers h = h
  lookup-generic_events (name ∷ events) event handlers h =
      lookup-generic_events events event (insert name (generic_event C e name) handlers) (
        lookup-insert_generic name event handlers
        ∙ elim (Bool-cases (name == event)) [ inl here ↦ rw here refl | inr other ↦ rw other h ])

  required-generic_events :
      (events : List EventName) (event : EventName)
      (handlers : GoMap (EventCallback (Multiplexer C.World) C.Org))
      → has_text events event ≡ true
      → lookup event (generic_events C e events handlers) ≡ some (generic_event C e event)
  unfolding generic_events
  required-generic_events [] event handlers h = cc
  required-generic_events (name ∷ events) event handlers h = elim (Bool-cases (name == event)) [
    | inl here ↦
        lookup-generic_events events event (insert name (generic_event C e name) handlers)
          (lookup-insert_generic name event handlers ∙ rw here refl)
    | inr other ↦
        required-generic_events events event (insert name (generic_event C e name) handlers)
          (rw other at h)
  ]

  forwarded-relayed :
      (event : EventName) (params : EventCallbackParams C.Org)
      (a : Result Response × Multiplexer C.World)
      → (event == subscribe) ≡ false
      → (event == unsubscribe) ≡ false
      → forwarded C e event params a ≡ answer_or C e "failed to forward event: " a
  unfolding forwarded answer_or
  forwarded-relayed event params (err cause, s) not_subscribe not_unsubscribe =
      rw not_subscribe refl
  forwarded-relayed event params (ok r, s) not_subscribe not_unsubscribe = rw not_unsubscribe refl

  relayed :
      (event : EventName) (params : EventCallbackParams C.Org) (s : Multiplexer C.World)
      → (event == subscribe) ≡ false
      → (event == unsubscribe) ≡ false
      → on_generic_event C e event params s
        ≡ answer_or C e "failed to forward event: " (forward_event C e event params s)
  unfolding on_generic_event
  relayed event params s not_subscribe not_unsubscribe = rw not_subscribe (
      forwarded-relayed event params (forward_event C e event params s) not_subscribe
        not_unsubscribe)

  -- A rightly signed message with an event that the reference service requires, other than subscribe
  -- and unsubscribe, and no heartbeat, for whose organization the SDK can be set up, is forwarded
  -- once, and the answer is what forwardEvent gives, its error with a text in front; where that can
  -- be encoded.
  pub serve_http-relays :
      (wire : Wire) (from_access : OrgAccessData → Action (Multiplexer C.World) C.Org)
      (secret_key log_all_errors : String) (schema : SchemaRequestResponse) (r : HttpRequest)
      (x : Exchange (Multiplexer C.World)) (ev : EventMessage) {content text : String} {m : Message}
      {org : C.Org} {s : Multiplexer C.World}
      → let P = platform_over (Multiplexer C.World) C.Org from_access wire in
        let extension =
          init_extension C log_all_errors (multiplexer_extension C e secret_key schema) in
        let params : EventCallbackParams C.Org = record {
          org = org;
          payload = ev.payload;
          conf = ev.config;
          idempotent_key = m.idempotency_key;
        } in
        let (reply, t) =
          answer_or C e "failed to forward event: " (forward_event C e ev.event_name params s) in
        r.signature ≢ ""
        → open_body P extension r ≡ ok (ok content)
        → verify_origin P content r.signature secret_key ≡ true
        → wire.unmarshal_message content ≡ ok m
        → m.heart_beat ≡ none
        → m.event ≡ some ev
        → has_text schema.required_events ev.event_name ≡ true
        → (ev.event_name == subscribe) ≡ false
        → (ev.event_name == unsubscribe) ≡ false
        → from_access ev.org x.world ≡ (ok org, s)
        → wire.encode (response (sent reply)) ≡ ok text
        → serve_http P extension r x
          ≡ finished tt (answered P extension (λ m s. s) reply text (record x { world = t }))
  unfolding init_extension init multiplexer_extension generate_sdk generic_event
  serve_http-relays wire from_access secret_key log_all_errors schema r x ev {m = m} {org = org}
        {s = s} signed body fits json quiet event is_required not_subscribe not_unsubscribe opens
        encodes =
      let P = platform_over (Multiplexer C.World) C.Org from_access wire in
      let extension =
        init_extension C log_all_errors (multiplexer_extension C e secret_key schema) in
      let params : EventCallbackParams C.Org = record {
        org = org;
        payload = ev.payload;
        conf = ev.config;
        idempotent_key = m.idempotency_key;
      } in
      serve_http-event P extension refl r signed body fits json x ev quiet event opens
        (required-generic_events schema.required_events ev.event_name (lifecycle_events C e)
          is_required)
        (ap return_of (relayed ev.event_name params s not_subscribe not_unsubscribe)) encodes
