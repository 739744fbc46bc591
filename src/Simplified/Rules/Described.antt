-- ===== src/Simplified/Rules/Described.antt =====
-- RuleExtension.Init: the schemas and the callbacks. What ErrorHandler logs is not modelled.
use lc_extension.Base.{String, none, List, [], ◌∷◌, false, some}
use lc_extension.Common.Value.{bool, text}
use lc_extension.Common.Schema
use lc_extension.Common.Schema.{
  SchemaObject, RequestSchema, RequestSchemas, element, absent, pos, no_schema, no_messages,
  no_filter, with_fields,
}
use lc_extension.Common.DataTypes.{schema_data_types}
use lc_extension.Common.Messages.{EventName, subscribe, unsubscribe, update}
use lc_extension.Core.Extension.{Extension, ExtensionCallbacks, returned, return_of, init}
use lc_extension.Simplified.Rules.Update.{RuleService, validate_config, on_update}
use lc_extension.Simplified.Rules.Events.{on_subscribe, on_unsubscribe, on_update_event}

abbrev rule_events : List EventName
rule_events = subscribe ∷ unsubscribe ∷ update ∷ []

abbrev rule_config_schema : SchemaObject
rule_config_schema =
    with_fields
      (Schema.field "disable_by_default"
        (element "Disable new rules by default"
          "disable new rules by default after the initial subscription" "" schema_data_types.boolean
          false (pos 0) (bool false) absent [] [] no_filter)
        (Schema.field "global_suppression_time"
          (element "Global suppression time"
            "global suppression period for all detections for rules created by this extension like \"30m\" or \"1h\", with a max of \"24h\"."
            "24h" schema_data_types.string false (pos 0) (text "") absent [] [] no_filter)
          Schema.end))
      []

abbrev rule_request_schema : RequestSchemas
rule_request_schema =
    (
      "update_rules",
      record {
        is_default_request = false;
        label = "";
        is_user_facing = false;
        short_description = "update the rules";
        long_description = "";
        messages = no_messages;
        is_impersonated = false;
        parameter_definitions = no_schema;
        response_definition = some no_schema;
      },
    )
    ∷ []

module _ (S : RuleService) (name : String) where
  -- The callbacks of RuleExtension.Init
  abbrev pub rule_callbacks : ExtensionCallbacks S.World S.Org
  rule_callbacks = record {
    validate_config = some (λ o config w. returned (validate_config S name config) w);
    request_handlers =
        (
          "update_rules",
          record {
            request_struct = some S.rule_update_request;
            callback = λ params w. on_update S name params.org params.config w;
          },
        )
        ∷ [];
    event_handlers =
        (subscribe, λ params w. return_of (on_subscribe S name params w))
        ∷ (unsubscribe, on_unsubscribe S name)
        ∷ (update, λ params w. return_of (on_update_event S name params w))
        ∷ [];
    error_handler = some (λ message w. w);
  }

  -- RuleExtension.Init, with what stands in LC_EXTENSION_LOG_ALL_ERRORS
  unfoldable pub rule_extension : String → String → Extension S.World S.Org
  unfolding init
  rule_extension secret_key log_all_errors = init log_all_errors (record {
    extension_name = name;
    secret_key = secret_key;
    callbacks = rule_callbacks;
    views_schema = [];
    config_schema = rule_config_schema;
    request_schema = rule_request_schema;
    required_events = rule_events;
    org_from_access = none;
    is_log_all_errors = false;
  })
