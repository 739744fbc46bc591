-- ===== src/Simplified/Lookups/Simulated/Subscription.antt =====
-- The whole run of SendSubscribe against a lookup extension, the update included.
use lc_extension.Base.{
  ℕ, String, suc, ◌≡◌, ◌≢◌, refl, ap, ◌∙◌, List, [], ◌∷◌, ◌++◌, map, map-append, false, none, some,
  has_text,
}
use lc_extension.Base.GoMap.{lookup}
use lc_extension.Base.MapKeys.{UniqueKeys}
use lc_extension.Simplified.Lookups.Stored.{Stores}
use lc_extension.Simplified.Lookups.Pushed.{wanted_at, push_lookups-stores, push_lookups-not_given}
use lc_extension.Base.Effect.{ok, Action}
use lc_extension.Common.Value.{Value, end}
use lc_extension.Common.Messages.{OrgAccessData, empty_response, subscribe}
use lc_extension.Core.Extension.Delivery.{sent}
use lc_extension.Simplified.Lookups.{
  LookupData, LookupService, update_rule_id, update_rule, first_lookup_update, push_lookups,
}
use lc_extension.Simulator.{
  Backend, Simulator, ContinuationRecord, mode_immediate, get_config, make_org_access,
}
use lc_extension.Simulator.Send.{generate_idempotency_key}
use lc_extension.Simulator.Continue.{
  queue, note_failure, process_response, follow_up, execute_continuation,
}
use lc_extension.Simulator.Requests.{
  fuel, no_event_options, choose_key, process_parsed, send_and_process, send_event_full,
  response_of, send_event, send_subscribe,
}
use lc_extension.Simulator.Served.{Runs}
use lc_extension.Simulator.Immediate.{process_response-quiet, process_response-one}
use lc_extension.Core.Platform.{Wire}
use lc_extension.Simplified.Lookups.Simulated.{
  platform, simulated, subscription, asked, follow_up_message, Sendable, Readable,
  send_and_parse-subscription, send_and_parse-follow_up,
}

module _ (S : LookupService) (wire : Wire) (from_access : OrgAccessData → Action S.World S.Org)
    (name secret_key log_all_errors : String) (schedule : LookupData → LookupData) (B : Backend)
    (seen : B.World → S.World) (changed : S.World → B.World → B.World)
    (runs : Runs B
      (platform S wire from_access)
      seen
      changed
      (simulated S wire from_access name secret_key log_all_errors schedule))
    (same_mac : (key payload : String) → B.hmac_hex key payload ≡ wire.hmac_hex key payload)
    (mac_not_empty : (key payload : String) → wire.hmac_hex key payload ≢ "")
    (gunzip-gzip : (text : String) → wire.gunzip (ok (B.gzip text)) ≡ ok (ok text))
    (seen-now : (w : B.World) → seen (B.now w).1 ≡ seen w)
    (seen-changed : (v : S.World) (w : B.World) → seen (changed v w) ≡ v) where
  -- The run of the continuation that subscribe asked for
  execute-follow_up :
      (oid : String) (s : Simulator B) (w : B.World) (counter : ℕ)
      (continuations : List ContinuationRecord) (rest queued_at : ℕ) {org : S.Org} {v3 v4 : S.World}
      {request : Value} {lookups : LookupData}
      → s.secret_key ≡ secret_key
      → Sendable B wire (follow_up_message B oid s)
      → Readable B wire (sent empty_response)
      → from_access (make_org_access B s oid "") (seen w) ≡ (ok org, v3)
      → S.lookup_update_request (some end) ≡ ok request
      → S.get_lookup v3 ≡ (ok lookups, v4)
      → execute_continuation B
          (suc rest)
          (record {
            oid = oid;
            idempotency_key = (generate_idempotency_key B s).0;
            level = 0;
            request = asked;
            queued_at = queued_at;
          })
          (record s { world = w; counter = counter; continuations = continuations })
        ≡ (
          ok (sent empty_response),
          record s {
            world = changed (push_lookups S name org (schedule lookups) v4).1 w;
            counter = counter;
            continuations = continuations;
          },
        )
  unfolding execute_continuation follow_up make_org_access get_config
  execute-follow_up oid s w counter continuations rest queued_at same_secret sends reads opens
        struct gets =
      let s3 : Simulator B = record s {
        world = w;
        counter = counter;
        continuations = continuations;
      } in
      ap
        (λ x.
          follow_up B (execute_continuation B rest)
            (record {
              oid = oid;
              idempotency_key = (generate_idempotency_key B s).0;
              level = 0;
              request = asked;
              queued_at = queued_at;
            })
            x.0 x.1)
        (send_and_parse-follow_up S wire from_access name secret_key log_all_errors schedule B seen
          changed runs same_mac mac_not_empty gunzip-gzip seen-now seen-changed oid s s3 same_secret
          sends reads opens struct gets)
      ∙ ap (λ t. (ok (sent empty_response), t))
          (process_response-quiet B (execute_continuation B rest) oid _ 1 _ (sent empty_response)
            refl refl refl)

  process-subscription :
      (oid : String) (s : Simulator B) (v2 : S.World) {org : S.Org} {v3 v4 : S.World}
      {request : Value} {lookups : LookupData}
      → s.secret_key ≡ secret_key
      → s.continuation_mode ≡ mode_immediate
      → Sendable B wire (follow_up_message B oid s)
      → Readable B wire (sent empty_response)
      → from_access (make_org_access B s oid "") v2 ≡ (ok org, v3)
      → S.lookup_update_request (some end) ≡ ok request
      → S.get_lookup v3 ≡ (ok lookups, v4)
      → (let (key, s1) = generate_idempotency_key B s in
          let s2 : Simulator B = record s1 { world = changed v2 s1.world } in
          let (queued, s3) = queue B oid key 0 asked s2 in
          process_response B
            (execute_continuation B fuel)
            oid
            key
            0
            (sent (first_lookup_update S name))
            s2
          ≡ record s3 {
            world = changed (push_lookups S name org (schedule lookups) v4).1 s3.world;
          })
  unfolding generate_idempotency_key queue note_failure
  process-subscription oid s v2 same_secret immediate sends reads opens struct gets =
      let (key, s1) = generate_idempotency_key B s in
      let s2 : Simulator B = record s1 { world = changed v2 s1.world } in
      let (queued, s3) = queue B oid key 0 asked s2 in
      process_response-one B (execute_continuation B fuel) oid key 0 s2
        (sent (first_lookup_update S name)) asked refl refl refl refl refl immediate
      ∙ ap (note_failure B oid) (
          execute-follow_up oid s s3.world s3.counter s3.continuations 11 queued.queued_at
            same_secret sends reads
            (ap (from_access (make_org_access B s oid ""))
                (seen-now (changed v2 s1.world) ∙ seen-changed v2 s1.world)
              ∙ opens)
            struct gets)

  -- The test server runs the extension, signatures and compression fit, time does not change
  -- what the extension sees, and the messages and answers of the run decode to what they were;
  -- the simulator has the extension's secret and runs continuations at once, the extension has
  -- no handler of its own for subscribe, the SDK can be set up both times, the rule can be
  -- added, and the lookups can be had; the goroutines of the update take every lookup that the
  -- callback gave once, in whatever order. Then SendSubscribe gives the answer that asks for an
  -- update, and when it returns, the update has happened: under the name of every lookup for which
  -- no error is logged stands the lookup with its imported content, enabled and with the
  -- extension's tag, a name that was not given is as it was, what the extension sees is what the
  -- pushes left, and the simulator has recorded the continuation and no error.
  pub send_subscribe-updates :
      (L : Stores S) (oid : String) (s : Simulator B) {org org' : S.Org} {v1 v2 v3 v4 : S.World}
      {request : Value} {lookups : LookupData}
      → s.secret_key ≡ secret_key
      → s.continuation_mode ≡ mode_immediate
      → lookup subscribe S.event_handlers ≡ none
      → Sendable B wire (subscription B oid s)
      → Sendable B wire (follow_up_message B oid s)
      → Readable B wire (sent (first_lookup_update S name))
      → Readable B wire (sent empty_response)
      → from_access (make_org_access B s oid "") (seen s.world) ≡ (ok org, v1)
      → S.add_record org (update_rule_id S name org) (update_rule S name) v1 ≡ (ok tt, v2)
      → from_access (make_org_access B s oid "") v2 ≡ (ok org', v3)
      → S.lookup_update_request (some end) ≡ ok request
      → S.get_lookup v3 ≡ (ok lookups, v4)
      → UniqueKeys (schedule lookups)
      → ((key : String) → lookup key (schedule lookups) ≡ lookup key lookups)
      → (let (r, t) = send_subscribe B oid no_event_options s in
          (r ≡ ok (sent (first_lookup_update S name)))
          × ((key : String)
              → has_text (push_lookups S name org' (schedule lookups) v4).0 key ≡ false
              → L.record_at org' (seen t.world) "lookup" key
                ≡ wanted_at S L name (lookup key lookups) (L.record_at org' v4 "lookup" key))
          × ((key : String)
              → lookup key lookups ≡ none
              → L.record_at org' (seen t.world) "lookup" key ≡ L.record_at org' v4 "lookup" key)
          × (seen t.world ≡ (push_lookups S name org' (schedule lookups) v4).1)
          × (map (λ c. c.request) t.continuations
              ≡ map (λ c. c.request) s.continuations ++ (asked ∷ []))
          × (t.errors ≡ s.errors))
  unfolding send_subscribe send_event response_of send_event_full choose_key send_and_process
      process_parsed generate_idempotency_key queue
  send_subscribe-updates L oid s {org' = org'} {v2 = v2} {v4 = v4} {lookups = lookups} same_secret
        immediate no_handler sends sends_more reads reads_more opens adds opens_again struct gets
        unique same =
      let (key, s1) = generate_idempotency_key B s in
      let done =
        ap (λ x. response_of B (process_parsed B oid key x.0 x.1))
          (send_and_parse-subscription S wire from_access name secret_key log_all_errors schedule B
            seen changed runs same_mac mac_not_empty gunzip-gzip seen-now seen-changed oid s
            same_secret no_handler sends reads opens adds)
        ∙ ap (λ t. (ok (sent (first_lookup_update S name)), t))
            (process-subscription oid s v2 same_secret immediate sends_more reads_more opens_again
              struct gets) in
      let pushed_world = ap (λ x. seen x.1.world) done ∙ seen-changed _ _ in
      (
        ap (λ x. x.0) done,
        λ k quiet.
            ap (λ w. L.record_at org' w "lookup" k) pushed_world
            ∙ push_lookups-stores S L name org' (schedule lookups) v4 unique k quiet
            ∙ ap (λ v. wanted_at S L name v (L.record_at org' v4 "lookup" k)) (same k),
        λ k missing.
            ap (λ w. L.record_at org' w "lookup" k) pushed_world
            ∙ push_lookups-not_given S L name org' (schedule lookups) v4 unique k
                (same k ∙ missing),
        pushed_world,
        ap (λ x. map (λ c. c.request) x.1.continuations) done
            ∙ map-append (λ c. c.request) s.continuations _,
        ap (λ x. x.1.errors) done,
      )
