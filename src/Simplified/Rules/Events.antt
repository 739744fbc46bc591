-- ===== src/Simplified/Rules/Events.antt =====
-- The events subscribe, unsubscribe and update of a rule extension.
use lc_extension.Base.{
  String, ◌<>◌, ◌==◌, ◌&&◌, not, Bool, true, List, [], ◌∷◌, ◌++◌, any, some, contains, has_text,
  if◌then◌else◌,
}
use lc_extension.Base.GoMap.{GoMap, lookup}
use lc_extension.Base.Effect.{Result, ok, err}
use lc_extension.Common.Value.{text, dicts, dict, empty, item, end, field}
use lc_extension.Common.Messages.{Response, empty_response, subscribe, unsubscribe, update}
use lc_extension.Core.Extension.{
  Handler, EventCallback, EventCallbackParams, Called, crashed, return_of,
}
use lc_extension.Simplified.Handlers.{continue, handled}
use lc_extension.Simplified.Rules.{HiveRecord, RecordId, Operation, del_record}
use lc_extension.Simplified.Rules.Update.{RuleService, Tags, error_only, own_tag}

-- updateRuleHive
abbrev pub update_rule_hive : String
update_rule_hive = "dr-managed"

-- An operation whose error is neither "" nor RECORD_NOT_FOUND. The source logs `err.Error()` for
-- it, and `err` is nil there.
abbrev pub is_logged : String → Bool
is_logged e = not (e == "") && not (contains e "RECORD_NOT_FOUND")

-- simplifiedRuleNamespaces
abbrev pub simplified_rule_namespaces : List String
simplified_rule_namespaces = "general" ∷ "managed" ∷ "service" ∷ []

module _ (S : RuleService) (name : String) where
  -- `l.ruleName`
  abbrev pub rule_name : String
  rule_name = "ext-" <> name <> "-update"

  -- The rule that asks for an update every 12 hours
  abbrev pub scheduling_rule : HiveRecord
  scheduling_rule = record {
    payload = some (
        field "detect"
          (dict (
            field "target" (text "schedule") (
              field "event" (text "12h_per_org")
                (field "op" (text "exists") (field "path" (text "event") end)))))
          (field "respond"
            (dicts (
              item
                (dict (
                  field "action" (text "extension request") (
                    field "extension name" (text name) (
                      field "extension action" (text "update_rules")
                        (field "extension request" (dict end) end)))))
                empty))
            end));
    enabled = true;
    tags = own_tag S name ∷ [];
  }

  abbrev pub scheduling_id : S.Org → RecordId
  scheduling_id o = record { hive = update_rule_hive; partition = S.get_oid o; name = rule_name }

  abbrev pub first_update : Response
  first_update = record empty_response {
    continuations = record { in_delay_seconds = 1; action = "update_rules"; state = some end } ∷ [];
  }

  scheduled : EventCallbackParams S.Org → Result (Unit {0}) × S.World → Response × S.World
  scheduled params (err e, w) = (error_only e, w)
  scheduled params (ok _, w) = handled first_update (lookup subscribe S.event_handlers) params w

  -- The events subscribe and update
  unfoldable pub on_subscribe : Handler S.World S.Org
  unfolding scheduled handled continue
  on_subscribe params w =
      scheduled params (S.add_record params.org (scheduling_id params.org) scheduling_rule w)

  unfoldable pub on_update_event : Handler S.World S.Org
  unfolding handled continue
  on_update_event params w = handled empty_response (lookup update S.event_handlers) params w

  -- The inner loop of unsubscribe: the rules with the tag are deleted.
  unfoldable pub removals : String → String → GoMap Tags → List Operation
  removals oid hive [] = []
  removals oid hive ((rule, tags) ∷ rules) =
      let rest = removals oid hive rules in
      if has_text tags (own_tag S name)
      then del_record (record { hive = hive; partition = oid; name = rule }) ∷ rest
      else rest

  removals_of : S.Org → String → Result (GoMap Tags) → List Operation
  removals_of o hive (err e) = []
  removals_of o hive (ok rules) = removals (S.get_oid o) hive rules

  -- The loop over the namespaces. Go leaves their order open.
  unfoldable pub gather_removals : S.Org → List String → S.World → List Operation × S.World
  unfolding removals_of
  gather_removals o [] w = ([], w)
  gather_removals o (namespace ∷ more) w =
      let (rules, w') = S.list_tags o ("dr-" <> namespace) w in
      let (rest, w'') = gather_removals o more w' in
      (removals_of o ("dr-" <> namespace) rules ++ rest, w'')

  unfoldable pub removed :
      EventCallbackParams S.Org → Result (List String) × S.World → Called S.World
  removed params (err e, w) =
      return_of (handled empty_response (lookup unsubscribe S.event_handlers) params w)
  removed params (ok errors, w) =
      if any is_logged errors
      then crashed w
      else return_of (handled empty_response (lookup unsubscribe S.event_handlers) params w)

  -- The event unsubscribe. Whether the scheduling rule could be removed makes no difference.
  unfoldable pub on_unsubscribe : EventCallback S.World S.Org
  unfolding removed handled continue
  on_unsubscribe params w =
      let o = params.org in
      let (_, w1) = S.remove_record o (scheduling_id o) w in
      let (ops, w2) = gather_removals o simplified_rule_namespaces w1 in
      removed params (S.execute o ops w2)
