-- ===== src/Common/Schema.antt =====
-- common/config_schema.go and common/request_schema.go: what an extension says of its
-- configuration and of its requests.
use lc_extension.Base.{ℕ, ◌+◌, ◌<>◌, decimal, String, Bool, List, [], Option}
use lc_extension.Base.GoMap.{GoMap}
use lc_extension.Common.Value.{Value}

-- A Go `int`: `negsuc n` is -(n + 1).
pub data ℤ : Type 0 where
  pos : ℕ → ℤ
  negsuc : ℕ → ℤ

-- `%d` of a Go `int`
abbrev pub decimal_int : ℤ → String
decimal_int (pos n) = decimal n
decimal_int (negsuc n) = "-" <> decimal (n + 1)

abbrev pub SchemaKey : Type 0
SchemaKey = String

abbrev pub SchemaDataType : Type 0
SchemaDataType = String

abbrev pub RequiredFields : Type 0
RequiredFields = List SchemaKey

pub record RecordKey : Type 0 where
  pub name : String
  pub label : String
  pub description : String
  pub data_type : SchemaDataType
  pub display_index : ℤ
  pub place_holder : String

pub record Validator : Type 0 where
  pub white_list : List String
  pub blacklist : List String
  pub valid_re : String
  pub invalid_re : String
  pub min : ℤ
  pub max : ℤ
  pub platforms : List String

pub record ComplexEnumValues : Type 0 where
  pub label : String
  pub value : String
  pub category_key : String
  pub reference_link : String

mutual
  -- Fields, Key, ElementName, ElementDescription, Requirements, SupportedActions
  pub data SchemaObject : Type 0 where
    schema_object :
        SchemaFields
        → RecordKey
        → String
        → String
        → List RequiredFields
        → List String
        → SchemaObject

  pub data SchemaFields : Type 0 where
    end : SchemaFields
    field : SchemaKey → SchemaElement → SchemaFields → SchemaFields

  -- Label, Description, PlaceHolder, DataType, IsList, DisplayIndex, DefaultValue, Object,
  -- EnumValues, ComplexEnumValues, Filter
  pub data SchemaElement : Type 0 where
    element :
        String
        → String
        → String
        → SchemaDataType
        → Bool
        → ℤ
        → Value
        → OptionalObject
        → List Value
        → List ComplexEnumValues
        → Validator
        → SchemaElement

  pub data OptionalObject : Type 0 where
    absent : OptionalObject
    present : SchemaObject → OptionalObject

pub record StatusMessages : Type 0 where
  pub in_progress_message : String
  pub success_message : String
  pub error_message : String

pub record RequestSchema : Type 0 where
  pub is_default_request : Bool
  pub label : String
  pub is_user_facing : Bool
  pub short_description : String
  pub long_description : String
  pub messages : StatusMessages
  pub is_impersonated : Bool
  pub parameter_definitions : SchemaObject
  pub response_definition : Option SchemaObject

abbrev pub RequestSchemas : Type 0
RequestSchemas = GoMap RequestSchema

-- `common.SchemaObject{}` and `StatusMessages{}`
abbrev pub no_schema : SchemaObject
no_schema =
    schema_object end
      (record {
        name = "";
        label = "";
        description = "";
        data_type = "";
        display_index = pos 0;
        place_holder = "";
      })
      "" "" [] []

abbrev pub no_messages : StatusMessages
no_messages = record { in_progress_message = ""; success_message = ""; error_message = "" }

-- `Validator{}`
abbrev pub no_filter : Validator
no_filter = record {
  white_list = [];
  blacklist = [];
  valid_re = "";
  invalid_re = "";
  min = pos 0;
  max = pos 0;
  platforms = [];
}

-- `no_schema` with fields and requirements
abbrev pub with_fields : SchemaFields → List RequiredFields → SchemaObject
with_fields fields requirements =
    schema_object fields
      (record {
        name = "";
        label = "";
        description = "";
        data_type = "";
        display_index = pos 0;
        place_holder = "";
      })
      "" "" requirements []
