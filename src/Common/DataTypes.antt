-- ===== src/Common/DataTypes.antt =====
-- SchemaDataTypes of common/request_schema.go: the names of the types of data that a schema uses.
use lc_extension.Base.{String}

pub record DataTypes : Type 0 where
  pub string : String
  pub integer : String
  pub boolean : String
  pub enum : String
  pub complex_enum : String
  pub secret : String
  pub sensor_id : String
  pub org_id : String
  pub platform : String
  pub architecture : String
  pub sensor_selector : String
  pub event_name : String
  pub tag : String
  pub duration : String
  pub time : String
  pub url : String
  pub domain : String
  pub text : String
  pub json : String
  pub yaml : String
  pub code : String
  pub yara_rule : String
  pub yara_rule_name : String
  pub object : String
  pub record_type : String

-- `record_type` is the member `Record`.
abbrev pub schema_data_types : DataTypes
schema_data_types = record {
  string = "string";
  integer = "integer";
  boolean = "bool";
  enum = "enum";
  complex_enum = "complex_enum";
  secret = "secret";
  sensor_id = "sid";
  org_id = "oid";
  platform = "platform";
  architecture = "architecture";
  sensor_selector = "sensor_selector";
  event_name = "event_name";
  tag = "tag";
  duration = "duration";
  time = "time";
  url = "url";
  domain = "domain";
  text = "text";
  json = "json";
  yaml = "yaml";
  code = "code";
  yara_rule = "yara_rule";
  yara_rule_name = "yara_rule_name";
  object = "object";
  record_type = "record";
}
