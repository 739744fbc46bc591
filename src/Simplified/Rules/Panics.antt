-- ===== src/Simplified/Rules/Panics.antt =====
-- Where unsubscribing from a rule extension panics.
use lc_extension.Base.{◌≢◌, ◌∙◌, ap, refl, some, String, ◌≡◌, true, List, any, none, arith}
use lc_extension.Base.Effect.{ok, Action}
use lc_extension.Base.GoMap.{lookup}
use lc_extension.Common.Messages.{EventMessage, Message, OrgAccessData, unsubscribe}
use lc_extension.Core.Platform.{Wire, platform_over}
use lc_extension.Core.Extension.Exchange.{Exchange, panicked}
use lc_extension.Core.Extension.Serve.{HttpRequest, open_body, serve_http}
use lc_extension.Core.Extension.Panics.{serve_http-crashed}
use lc_extension.Simplified.Rules.Described.{rule_extension}
use lc_extension.Core.Extension.{init, generate_sdk, verify_origin, EventCallbackParams, crashed}
use lc_extension.Simplified.Rules.Update.{RuleService}
use lc_extension.Simplified.Rules.Events.{
  simplified_rule_namespaces, scheduling_id, gather_removals, is_logged, removed, on_unsubscribe,
}

module _ (S : RuleService) (name : String) where
  -- If Hive executes the batch of unsubscribe but reports an error for one of the deletions that is
  -- not RECORD_NOT_FOUND, the handler panics: it reads the text of an error that is nil.
  on_unsubscribe_panics :
      (params : EventCallbackParams S.Org) (w w1 w2 w3 : S.World) (errors : List String)
      → (S.remove_record params.org (scheduling_id S name params.org) w).1 ≡ w1
      → (gather_removals S name params.org simplified_rule_namespaces w1).1 ≡ w2
      → S.execute params.org (gather_removals S name params.org simplified_rule_namespaces w1).0 w2
        ≡ (ok errors, w3)
      → any is_logged errors ≡ true
      → on_unsubscribe S name params w ≡ crashed w3
  unfolding on_unsubscribe removed
  on_unsubscribe_panics params w w1 w2 w3 errors first second batch failed = ground arith

  -- A rightly signed message with the event unsubscribe and no heartbeat, for whose organization the
  -- SDK can be set up, ends in a panic of the webhook handler and is not answered, if Hive executes
  -- the batch of unsubscribe but reports an error for one of the deletions that is not
  -- RECORD_NOT_FOUND; what was deleted stays deleted.
  pub serve_http-unsubscribe_panics :
      (wire : Wire) (from_access : OrgAccessData → Action S.World S.Org)
      (secret_key log_all_errors : String) (r : HttpRequest) (x : Exchange S.World)
      (ev : EventMessage) {content : String} {m : Message} {org : S.Org} {w w1 w2 w3 : S.World}
      {errors : List String}
      → let P = platform_over S.World S.Org from_access wire in
        let e = rule_extension S name secret_key log_all_errors in
        r.signature ≢ ""
        → open_body P e r ≡ ok (ok content)
        → verify_origin P content r.signature secret_key ≡ true
        → wire.unmarshal_message content ≡ ok m
        → m.heart_beat ≡ none
        → m.event ≡ some ev
        → ev.event_name ≡ unsubscribe
        → from_access ev.org x.world ≡ (ok org, w)
        → (S.remove_record org (scheduling_id S name org) w).1 ≡ w1
        → (gather_removals S name org simplified_rule_namespaces w1).1 ≡ w2
        → S.execute org (gather_removals S name org simplified_rule_namespaces w1).0 w2
          ≡ (ok errors, w3)
        → any is_logged errors ≡ true
        → serve_http P e r x ≡ panicked (record x { world = w3 })
  unfolding rule_extension init generate_sdk lookup
  serve_http-unsubscribe_panics wire from_access secret_key log_all_errors r x ev {m = m}
        {org = org} {w = w} {w1 = w1} {w2 = w2} {w3 = w3} {errors = errors} signed body fits json
        quiet event leaves opens first second batch failed =
      let P = platform_over S.World S.Org from_access wire in
      let e = rule_extension S name secret_key log_all_errors in
      serve_http-crashed P e r x ev signed body fits json quiet event opens
        (ap (λ n. lookup n e.callbacks.event_handlers) leaves ∙ refl)
        (on_unsubscribe_panics _ w w1 w2 w3 errors first second batch failed)
