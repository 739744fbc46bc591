-- ===== src/Simplified/Lookups.antt =====
-- simplified/lookup.go: an extension that keeps lookups in Hive as a callback wants them. The
-- logger is a list of the lookups for which an error is logged.
pub mod Removal
pub mod Pushed
pub mod Stored
pub mod Simulated
use lc_extension.Base.{
  String, ◌<>◌, ◌==◌, true, false, List, [], ◌∷◌, Option, none, some, has_text, if◌then◌else◌,
}
use lc_extension.Base.GoMap.{GoMap, lookup}
use lc_extension.Base.Effect.{Result, ok, err, Action, pure, attempt, ◌>>=◌, ◌>>◌}
use lc_extension.Common.Value.{Value, Fields, Dict, text, dicts, dict, empty, item, end, field}
use lc_extension.Common.Schema.{RequestSchema, no_schema, no_messages}
use lc_extension.Common.Messages.{Response, empty_response, subscribe, unsubscribe, update}
use lc_extension.Core.Extension.{
  Extension, ExtensionCallbacks, Handler, EventCallbackParams, RequestCallback, returned, return_of,
  RequestCallbackParams, init,
}
use lc_extension.Simplified.Handlers.{continue, handled}
use lc_extension.Simplified.Rules.{HiveRecord, RecordId}
use lc_extension.Simplified.Rules.Update.{Tags, error_only}
use lc_extension.Simplified.Rules.Events.{update_rule_hive}

-- LookupData: the lookups by name
abbrev pub LookupData : Type 0
LookupData = GoMap Value

-- The SDK's Hive of an organization, Dict.ImportFromStruct into an empty dictionary and
-- UnMarshalToStruct into a `lookupUpdateRequest`, and what the extension was described with.
pub record LookupService : Type 1 where
  pub World : Type 0
  pub Org : Type 0
  pub get_oid : Org → String
  pub import_from_struct : Value → Result Fields
  pub lookup_update_request : Dict → Result Value
  pub list_tags : Org → String → Action World (GoMap Tags)
  pub add_record : Org → RecordId → HiveRecord → Action World (Unit {0})
  pub remove_record : Org → RecordId → Action World (Unit {0})
  pub get_lookup : Action World LookupData
  pub event_handlers : GoMap (Handler World Org)

-- The lookups whose update failed, when one more goroutine has run
unfoldable pub noted : String → Option String → List String → List String
noted lookup_name none failed = failed
noted lookup_name (some e) failed = lookup_name ∷ failed

module _ (S : LookupService) (name : String) where
  -- `l.tag` and `l.ruleName`
  abbrev pub lookup_tag : String
  lookup_tag = "ext:" <> name

  abbrev pub update_rule_name : String
  update_rule_name = "ext-" <> name <> "-update"

  abbrev pub update_rule_id : S.Org → RecordId
  update_rule_id o = record {
    hive = update_rule_hive;
    partition = S.get_oid o;
    name = update_rule_name;
  }

  -- The rule that asks for an update every 12 hours
  abbrev pub update_rule : HiveRecord
  update_rule = record {
    payload = some (
        field "detect"
          (dict (
            field "target" (text "schedule") (
              field "event" (text "12h_per_org")
                (field "op" (text "exists") (field "path" (text "event") end)))))
          (field "respond"
            (dicts (
              item
                (dict (
                  field "action" (text "extension request") (
                    field "extension name" (text name) (
                      field "extension action" (text "update_lookup")
                        (field "extension request" (dict end) end)))))
                empty))
            end));
    enabled = true;
    tags = lookup_tag ∷ [];
  }

  -- What subscribe answers: the first update comes a second later.
  abbrev pub first_lookup_update : Response
  first_lookup_update = record empty_response {
    continuations =
        record { in_delay_seconds = 1; action = "update_lookup"; state = some end } ∷ [];
  }

  rule_added : EventCallbackParams S.Org → Result (Unit {0}) × S.World → Response × S.World
  rule_added params (err e, w) = (error_only e, w)
  rule_added params (ok _, w) =
      handled first_lookup_update (lookup subscribe S.event_handlers) params w

  -- The events subscribe and update
  unfoldable pub subscribe_lookups : Handler S.World S.Org
  unfolding rule_added handled continue
  subscribe_lookups params w =
      rule_added params (S.add_record params.org (update_rule_id params.org) update_rule w)

  unfoldable pub update_lookups_event : Handler S.World S.Org
  unfolding handled continue
  update_lookups_event params w = handled empty_response (lookup update S.event_handlers) params w

  -- A record of the Hive of lookups
  abbrev pub lookup_id : S.Org → String → RecordId
  lookup_id o lookup_name = record { hive = "lookup"; partition = S.get_oid o; name = lookup_name }

  -- The loop of unsubscribe: the lookups with the tag are removed, and the first error ends it.
  unfoldable pub remove_tagged : S.Org → GoMap Tags → Action S.World (Unit {0})
  remove_tagged o [] = pure tt
  remove_tagged o ((lookup_name, tags) ∷ lookups) =
      let rest = remove_tagged o lookups in
      if has_text tags lookup_tag
      then (do S.remove_record o (lookup_id o lookup_name); rest)
      else rest

  -- The scheduling rule and the lookups; an error ends the event.
  unfoldable pub remove_all : S.Org → Action S.World (Unit {0})
  unfolding remove_tagged
  remove_all o = do
    S.remove_record o (update_rule_id o)
    lookups ← S.list_tags o "lookup"
    remove_tagged o lookups

  removed_all : EventCallbackParams S.Org → Result (Unit {0}) × S.World → Response × S.World
  removed_all params (err e, w) = (error_only e, w)
  removed_all params (ok _, w) =
      handled empty_response (lookup unsubscribe S.event_handlers) params w

  -- The event unsubscribe
  unfoldable pub unsubscribe_lookups : Handler S.World S.Org
  unfolding removed_all handled continue
  unsubscribe_lookups params w = removed_all params (remove_all params.org w)

  -- What onUpdate stores of a lookup
  abbrev pub lookup_record : Fields → HiveRecord
  lookup_record d = record {
    payload = some (field "lookup_data" (dict d) end);
    enabled = true;
    tags = lookup_tag ∷ [];
  }

  -- One goroutine of onUpdate: is an error logged?
  pushed : Result (Unit {0}) × S.World → Option String × S.World
  pushed (ok _, w) = (none, w)
  pushed (err e, w) = (some e, w)

  push_imported : S.Org → String → Result Fields → S.World → Option String × S.World
  unfolding pushed
  push_imported o lookup_name (err e) w = (some e, w)
  push_imported o lookup_name (ok d) w =
      pushed (S.add_record o (lookup_id o lookup_name) (lookup_record d) w)

  unfoldable pub push_lookup : S.Org → String → Value → S.World → Option String × S.World
  unfolding push_imported
  push_lookup o lookup_name content w = push_imported o lookup_name (S.import_from_struct content) w

  -- The goroutines of onUpdate in the order in which they reach Hive
  unfoldable pub push_lookups : S.Org → LookupData → S.World → List String × S.World
  unfolding noted
  push_lookups o [] w = ([], w)
  push_lookups o ((lookup_name, content) ∷ lookups) w =
      let (logged, w1) = push_lookup o lookup_name content w in
      let (failed, w2) = push_lookups o lookups w1 in (noted lookup_name logged failed, w2)

  module _ (schedule : LookupData → LookupData) where
    update_with : S.Org → Result LookupData × S.World → Response × S.World
    update_with o (err e, w) = (error_only e, w)
    update_with o (ok lookups, w) = (empty_response, (push_lookups o (schedule lookups) w).1)

    -- LookupExtension.onUpdate
    unfoldable pub update_lookups : RequestCallbackParams S.Org → S.World → Response × S.World
    unfolding update_with
    update_lookups params w = update_with params.org (S.get_lookup w)

    -- The callbacks of LookupExtension.Init
    abbrev pub lookup_callbacks : ExtensionCallbacks S.World S.Org
    lookup_callbacks = record {
      validate_config = some (λ o config w. returned empty_response w);
      request_handlers =
          (
            "update_lookup",
            record {
              request_struct = some S.lookup_update_request;
              callback = λ params w. return_of (update_lookups params w);
            },
          )
          ∷ [];
      event_handlers =
          (subscribe, λ params w. return_of (subscribe_lookups params w))
          ∷ (unsubscribe, λ params w. return_of (unsubscribe_lookups params w))
          ∷ (update, λ params w. return_of (update_lookups_event params w))
          ∷ [];
      error_handler = some (λ message w. w);
    }

    abbrev pub update_lookup_schema : RequestSchema
    update_lookup_schema = record {
      is_default_request = false;
      label = "";
      is_user_facing = false;
      short_description = "update the lookup";
      long_description = "";
      messages = no_messages;
      is_impersonated = false;
      parameter_definitions = no_schema;
      response_definition = some no_schema;
    }

    -- LookupExtension.Init, with what stands in LC_EXTENSION_LOG_ALL_ERRORS
    unfoldable pub lookup_extension : String → String → Extension S.World S.Org
    unfolding init
    lookup_extension secret_key log_all_errors = init log_all_errors (record {
      extension_name = name;
      secret_key = secret_key;
      callbacks = lookup_callbacks;
      views_schema = [];
      config_schema = no_schema;
      request_schema = ("update_lookup", update_lookup_schema) ∷ [];
      required_events = subscribe ∷ unsubscribe ∷ update ∷ [];
      org_from_access = none;
      is_log_all_errors = false;
    })
