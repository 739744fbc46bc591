-- ===== src/Simplified/Lookups/Simulated.antt =====
-- A lookup extension under the simulator: the messages of a subscription and of the update that it
-- asks for, and what comes back.
pub mod Subscription
use lc_extension.Base.{
  ℕ, String, ◌<>◌, ◌+◌, suc, decimal, ◌==◌, ◌≡◌, ◌≢◌, refl, sym, ap, ◌∙◌, List, [], ◌∷◌, ◌++◌, map,
  map-append, none, some,
}
use lc_extension.Base.GoMap.{lookup}
use lc_extension.Base.Effect.{Result, ok, err, Action}
use lc_extension.Common.Value.{Value, empty_dict, end}
use lc_extension.Common.Messages.{
  ContinuationRequest, Message, OrgAccessData, Response, empty_message, empty_response, subscribe,
}
use lc_extension.Core.Platform.{Platform, Wire, platform_over, Reply, response}
use lc_extension.Core.Extension.{
  ExtensionOf, EventCallbackParams, decoded, return_of, generate_sdk, init, unmarshal_to_struct,
}
use lc_extension.Core.Extension.Serve.{request_data}
use lc_extension.Core.Extension.Delivery.{sent}
use lc_extension.Simplified.Handlers.{continue, handled}
use lc_extension.Simplified.Lookups.{
  LookupData, LookupService, update_rule_id, update_rule, first_lookup_update, rule_added,
  subscribe_lookups, push_lookups, update_with, update_lookups, lookup_extension,
}
use lc_extension.Simulator.{
  Backend, Simulator, ContinuationRecord, mode_immediate, get_config, make_org_access,
  protocol_version,
}
use lc_extension.Simulator.Send.{Parsed, parsed, send_and_parse, generate_idempotency_key}
use lc_extension.Simulator.Continue.{
  queue, note_failure, process_response, continuation_key, continuation_message, follow_up,
  execute_continuation,
}
use lc_extension.Simulator.Requests.{
  fuel, no_event_options, choose_key, process_parsed, send_and_process, send_event_full,
  response_of, send_event, send_subscribe,
}
use lc_extension.Simulator.Served.{Runs, send_and_parse-event, send_and_parse-request}
use lc_extension.Simulator.Immediate.{process_response-quiet, process_response-one}

-- The continuation that subscribe asks for
abbrev pub asked : ContinuationRequest
asked = record { in_delay_seconds = 1; action = "update_lookup"; state = some end }

module _ (B : Backend) where
  -- The message of SendSubscribe
  abbrev pub subscription : String → Simulator B → Message
  subscription oid s =
      let (key, s1) = generate_idempotency_key B s in
      record (empty_message protocol_version key) {
        event = some (record {
          org = make_org_access B s1 oid "";
          event_name = subscribe;
          payload = empty_dict;
          config = get_config B s oid;
        });
      }

  -- The message that the continuation becomes
  abbrev pub follow_up_message : String → Simulator B → Message
  follow_up_message oid s =
      record (empty_message protocol_version
        ((generate_idempotency_key B s).0 <> ":" <> decimal 1)) {
          request = some (record {
            org = make_org_access B s oid "";
            action = "update_lookup";
            payload = some end;
            config = get_config B s oid;
            resource_state = [];
            investigation_id = "";
          });
        }

  module _ (wire : Wire) where
    -- A message that decodes to itself, and an answer that does
    abbrev pub Sendable : Message → Type 0
    Sendable m = (body : String) × (B.marshal m ≡ ok body) × (wire.unmarshal_message body ≡ ok m)

    abbrev pub Readable : Response → Type 0
    Readable r =
        (text : String) × (wire.encode (response r) ≡ ok text)
        × (text ≢ "")
        × (B.unmarshal_response text ≡ ok r)

module _ (S : LookupService) (wire : Wire)
    -- the hook that New puts into the extension
    (from_access : OrgAccessData → Action S.World S.Org) where
  abbrev pub platform : Platform
  platform = platform_over S.World S.Org from_access wire

  subscribe_lookups-first :
      (name : String) (params : EventCallbackParams S.Org) {v1 v2 : S.World}
      → lookup subscribe S.event_handlers ≡ none
      → S.add_record params.org (update_rule_id S name params.org) (update_rule S name) v1
        ≡ (ok tt, v2)
      → subscribe_lookups S name params v1 ≡ (first_lookup_update S name, v2)
  unfolding subscribe_lookups rule_added handled
  subscribe_lookups-first name params no_handler adds = rw (adds, no_handler) refl

  module _ (name secret_key log_all_errors : String) (schedule : LookupData → LookupData) where
    abbrev pub simulated : ExtensionOf platform
    simulated = record (lookup_extension S name schedule secret_key log_all_errors) {
      org_from_access = some from_access;
    }

    module _ (B : Backend) (seen : B.World → S.World) (changed : S.World → B.World → B.World) where
      module _ (runs : Runs B platform seen changed simulated)
          (same_mac : (key payload : String) → B.hmac_hex key payload ≡ wire.hmac_hex key payload)
          (mac_not_empty : (key payload : String) → wire.hmac_hex key payload ≢ "")
          (gunzip-gzip : (text : String) → wire.gunzip (ok (B.gzip text)) ≡ ok (ok text))
          (seen-now : (w : B.World) → seen (B.now w).1 ≡ seen w)
          (seen-changed : (v : S.World) (w : B.World) → seen (changed v w) ≡ v) where
        pub send_and_parse-subscription :
            (oid : String) (s : Simulator B) {org : S.Org} {v1 v2 : S.World}
            → s.secret_key ≡ secret_key
            → lookup subscribe S.event_handlers ≡ none
            → Sendable B wire (subscription B oid s)
            → Readable B wire (sent (first_lookup_update S name))
            → from_access (make_org_access B s oid "") (seen s.world) ≡ (ok org, v1)
            → S.add_record org (update_rule_id S name org) (update_rule S name) v1 ≡ (ok tt, v2)
            → (let s1 = (generate_idempotency_key B s).1 in
                send_and_parse B (subscription B oid s) s1 ≡ (
                  parsed (sent (first_lookup_update S name)) 200,
                  record s1 { world = changed v2 s1.world },
                ))
        unfolding generate_idempotency_key make_org_access generate_sdk lookup_extension init lookup
        send_and_parse-subscription oid s same_secret no_handler (body, marshals, decodes)
              (text, encodes, has_text, reads) opens adds =
            send_and_parse-event B platform seen changed simulated runs same_mac mac_not_empty
              gunzip-gzip refl (generate_idempotency_key B s).1 (subscription B oid s)
              (first_lookup_update S name) marshals refl reads has_text same_secret decodes
              (record {
                org = make_org_access B s oid "";
                event_name = subscribe;
                payload = empty_dict;
                config = get_config B s oid;
              })
              refl refl (ap (from_access (make_org_access B s oid "")) (seen-now s.world) ∙ opens)
              refl (ap return_of (subscribe_lookups-first name _ no_handler adds)) encodes

        pub send_and_parse-follow_up :
            (oid : String) (s s3 : Simulator B) {org : S.Org} {v3 v4 : S.World} {request : Value}
            {lookups : LookupData}
            → s3.secret_key ≡ secret_key
            → Sendable B wire (follow_up_message B oid s)
            → Readable B wire (sent empty_response)
            → from_access (make_org_access B s oid "") (seen s3.world) ≡ (ok org, v3)
            → S.lookup_update_request (some end) ≡ ok request
            → S.get_lookup v3 ≡ (ok lookups, v4)
            → send_and_parse B (follow_up_message B oid s) s3 ≡ (
              parsed (sent empty_response) 200,
              record s3 {
                world = changed (push_lookups S name org (schedule lookups) v4).1 s3.world;
              },
            )
        unfolding generate_sdk lookup_extension init lookup request_data unmarshal_to_struct
            update_lookups update_with
        send_and_parse-follow_up oid s s3 {request = request} same_secret (body, marshals, decodes)
              (text, encodes, has_text, reads) opens struct gets =
            send_and_parse-request B platform seen changed simulated runs same_mac mac_not_empty
              gunzip-gzip refl s3 (follow_up_message B oid s) empty_response marshals refl reads
              has_text same_secret decodes
              (record {
                org = make_org_access B s oid "";
                action = "update_lookup";
                payload = some end;
                config = get_config B s oid;
                resource_state = [];
                investigation_id = "";
              })
              {request = decoded request} refl refl refl opens refl (rw (struct, request_data) refl)
              (rw gets refl) encodes
