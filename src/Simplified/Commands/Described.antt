-- ===== src/Simplified/Commands/Described.antt =====
-- CLIExtension.Init: the schemas, the events and the run as a request.
use lc_extension.Base.{String, ◌<>◌, Bool, true, false, List, [], ◌∷◌, ◌++◌, some, if◌then◌else◌}
use lc_extension.Base.Effect.{Result, ok, err}
use lc_extension.Common.Value.{Value, nil, text, end, field}
use lc_extension.Common.Schema.{
  SchemaElement, SchemaFields, SchemaObject, RequestSchema, RequiredFields, Validator, element,
  schema_object, absent, pos, no_filter, with_fields, no_messages,
}
use lc_extension.Common.Schema
use lc_extension.Common.DataTypes.{schema_data_types}
use lc_extension.Common.Messages.{Response, View, empty_response}
use lc_extension.Core.Api.{OrgApi}
use lc_extension.Core.Adapter.{create_extension_adapter, delete_extension_adapter}
use lc_extension.Core.Extension.{Handler}
use lc_extension.Simplified.Rules.Update.{error_only}

-- An element with a type, a label, a description, `IsList`, a place and the values of an enum
abbrev simple_element : String → String → String → Bool → Schema.ℤ → List Value → SchemaElement
simple_element data_type label description is_list display_index enum_values =
    element label description "" data_type is_list display_index nil absent enum_values [] no_filter

-- `isSingleTool`
unfoldable pub is_single_tool : List String → Bool
is_single_tool (tool ∷ []) = true
is_single_tool _ = false

unfoldable pub required_fields : Bool → List RequiredFields
required_fields single =
    let always : List RequiredFields =
      ("command_tokens" ∷ "command_line" ∷ []) ∷ ("credentials" ∷ []) ∷ [] in
    if single then always else always ++ (("tool" ∷ []) ∷ [])

tool_values : List String → List Value
tool_values [] = []
tool_values (tool ∷ tools) = text tool ∷ tool_values tools

unfoldable pub tool_field : List String → SchemaElement
unfolding tool_values
tool_field tools =
    simple_element schema_data_types.enum "Tool" "The tool provider to use." false (pos 2)
      (tool_values tools)

unfoldable pub long_description : List String → String
long_description (tool ∷ []) =
    "Run a CLI command using the "
    <> (tool <> " tool by providing a list of command line parameters to provide to it.")
long_description _ =
    "Run a CLI command by choosing a CLI tool, a set of credentials to authenticate with, and a list of command line parameters to provide to the CLI tool."

-- The fields of a request; the tool is only asked for where there is a choice.
unfoldable pub run_fields : List String → SchemaFields
unfolding tool_field is_single_tool
run_fields tools =
    Schema.field "command_line"
      (simple_element schema_data_types.string "Command Line" "The command to run." false (pos 3)
        [])
      (Schema.field "command_tokens"
        (simple_element schema_data_types.string "Command Parameters"
          "The command parameters to run as a tokenized list." true (pos 4) [])
        (Schema.field "credentials"
          (simple_element schema_data_types.secret "Credentials"
            "The credentials to use for the command. A GCP JSON key, a DigitalOcean Access Token or an AWS \"accessKeyID/secretAccessKey\" pair."
            false (pos 1) [])
          (if is_single_tool tools
            then Schema.end
            else Schema.field "tool" (tool_field tools) Schema.end)))

abbrev pub output_fields : SchemaFields
output_fields =
    Schema.field "output_list"
      (simple_element schema_data_types.object "Outputs" "The output JSON objects of the command."
        true (pos 0) [])
      (Schema.field "output_dict"
        (simple_element schema_data_types.object "Output" "The output JSON object of the command."
          false (pos 0) [])
        (Schema.field "output_string"
          (simple_element schema_data_types.string "Raw Output"
            "The non-JSON output of the command." false (pos 0) [])
          (Schema.field "status_code"
            (simple_element schema_data_types.integer "Status Code" "The status of the command."
              false (pos 0) [])
            Schema.end)))

-- The schema of "run", of the names of the descriptors
unfoldable pub run_schema : List String → RequestSchema
unfolding run_fields required_fields is_single_tool long_description
run_schema tools = record {
  is_default_request = false;
  label = "Run a CLI command";
  is_user_facing = true;
  short_description = "Run a CLI command for a supported tool.";
  long_description = long_description tools;
  messages = no_messages;
  is_impersonated = false;
  parameter_definitions = with_fields (run_fields tools) (required_fields (is_single_tool tools));
  response_definition = some (with_fields output_fields []);
}

abbrev pub run_view : View
run_view = record { name = ""; layout_type = "action"; default_requests = "run" ∷ [] }

module _ (A : OrgApi) (name secret_key : String) where
  done_or_error : Result (Unit {0}) × A.World → Response × A.World
  done_or_error (ok _, w) = (empty_response, w)
  done_or_error (err e, w) = (error_only e, w)

  -- The event subscribe, with installRulesIfNeeded
  unfoldable pub install_rules : Handler A.World A.Org
  unfolding done_or_error
  install_rules params w = done_or_error (
      create_extension_adapter A name secret_key params.org
        (some (
          field "event_type_path" (text "action")
            (field "investigation_id_path" (text "inv_id") end)))
        w)

  -- The event unsubscribe, with uninstallAllRules
  unfoldable pub uninstall_all_rules : Handler A.World A.Org
  unfolding done_or_error
  uninstall_all_rules params w =
      done_or_error (delete_extension_adapter A name secret_key params.org w)
