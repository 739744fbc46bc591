-- ===== src/Common/Messages.antt =====
-- common/messages.go and common/metrics.go: the messages that LimaCharlie sends to an extension,
-- and the responses that come back.
use lc_extension.Base.{ℕ, String, Bool, true, List, [], Option, none, some}
use lc_extension.Base.GoMap.{GoMap}
use lc_extension.Common.Value.{Value, Dict}
use lc_extension.Common.Schema.{ℤ, SchemaObject, RequestSchemas}

abbrev pub ActionName : Type 0
ActionName = String

abbrev pub EventName : Type 0
EventName = String

pub record ErrorReportMessage : Type 0 where
  pub error : String
  pub oid : String

pub record OrgAccessData : Type 0 where
  pub oid : String
  pub jwt : String
  pub ident : String

pub record ConfigValidationMessage : Type 0 where
  pub org : OrgAccessData
  pub config : Dict

pub record View : Type 0 where
  pub name : String
  pub layout_type : String
  pub default_requests : List String

pub record SchemaRequestResponse : Type 0 where
  pub views : List View
  pub config : SchemaObject
  pub request : RequestSchemas
  pub required_events : List EventName

pub record ResourceState : Type 0 where
  pub last_modified : ℤ

pub record RequestMessage : Type 0 where
  pub org : OrgAccessData
  pub action : ActionName
  pub payload : Dict
  pub config : Dict
  pub resource_state : GoMap ResourceState
  pub investigation_id : String

pub record ContinuationRequest : Type 0 where
  pub in_delay_seconds : ℕ
  pub action : ActionName
  pub state : Dict

pub record EventMessage : Type 0 where
  pub org : OrgAccessData
  pub event_name : EventName
  pub payload : Dict
  pub config : Dict

-- A pointer to a message is an `Option`; a message without fields is `Unit`.
pub record Message : Type 0 where
  pub version : ℕ
  pub idempotency_key : String
  pub heart_beat : Option (Unit {0})
  pub error_report : Option ErrorReportMessage
  pub config_validation : Option ConfigValidationMessage
  pub schema_request : Option (Unit {0})
  pub request : Option RequestMessage
  pub event : Option EventMessage

pub record Metric : Type 0 where
  pub sku : String
  pub value : ℕ

pub record MetricReport : Type 0 where
  pub idempotent_key : String
  pub metrics : List Metric

pub record SensorUpdate : Type 0 where
  pub sid : String
  pub collector_id : ℕ
  pub update_ts : ℕ
  pub payload : Dict

-- `Response.Data`: any value, or the pointer that the schema request puts there.
pub data Payload : Type 0 where
  value : Value → Payload
  schema : SchemaRequestResponse → Payload

pub record Response : Type 0 where
  pub error : String
  pub retriable : Option Bool
  pub version : ℕ
  pub payload : Option Payload
  pub sensor_state_change : Option SensorUpdate
  pub continuations : List ContinuationRequest
  pub metrics : Option MetricReport

-- `common.Response{}`
abbrev pub empty_response : Response
empty_response = record {
  error = "";
  retriable = none;
  version = 0;
  payload = none;
  sensor_state_change = none;
  continuations = [];
  metrics = none;
}

-- `common.Message{}` with the two header fields
abbrev pub empty_message : ℕ → String → Message
empty_message version idempotency_key = record {
  version = version;
  idempotency_key = idempotency_key;
  heart_beat = none;
  error_report = none;
  config_validation = none;
  schema_request = none;
  request = none;
  event = none;
}

-- `Response.IsRetriable`
unfoldable pub is_retriable : Response → Bool
is_retriable r = elim (r.retriable) [ none ↦ true | some b ↦ b ]

-- EventTypes
abbrev pub subscribe : EventName
subscribe = "subscribe"

abbrev pub unsubscribe : EventName
unsubscribe = "unsubscribe"

abbrev pub update : EventName
update = "update"
