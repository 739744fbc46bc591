-- ===== src/Core/Extension.antt =====
-- core/extension.go: an extension and its webhook handler, `ServeHTTP`.
pub mod Exchange
pub mod Serve
mod Ends
pub mod Answers
pub mod Panics
pub mod Access
pub mod Delivery
use lc_extension.Base.{ℕ, String, Bool, not, List, Option, none, some, ◌<>◌, ◌==◌}
use lc_extension.Base.GoMap.{GoMap}
use lc_extension.Base.Effect.{Result, Action}
use lc_extension.Common.Value.{Value, Dict}
use lc_extension.Common.Schema.{SchemaObject, RequestSchemas}
use lc_extension.Common.Messages.{
  ErrorReportMessage, OrgAccessData, ResourceState, Response, View, EventName,
}
use lc_extension.Core.Platform.{Platform}

-- PROTOCOL_VERSION
abbrev pub protocol_version : ℕ
protocol_version = 20221218

-- The request's data: the dictionary as it came, or the struct that it was decoded into.
pub data RequestData : Type 0 where
  plain : Dict → RequestData
  decoded : Value → RequestData

pub record RequestCallbackParams (Org : Type 0) : Type 0 where
  pub org : Org
  pub ident : String
  pub request : RequestData
  pub config : Dict
  pub idempotent_key : String
  pub resource_state : GoMap ResourceState
  pub investigation_id : String

pub record EventCallbackParams (Org : Type 0) : Type 0 where
  pub org : Org
  pub payload : Dict
  pub conf : Dict
  pub idempotent_key : String

-- How a callback ends: with a response, or in a panic. What it has done stays done.
pub data Called (W : Type 0) : Type 0 where
  returned : Response → W → Called W
  crashed : W → Called W

abbrev pub return_of : {W : Type 0} → Response × W → Called W
return_of (r, w) = returned r w

abbrev pub state_after : {W : Type 0} → Called W → W
state_after (returned r w) = w
state_after (crashed w) = w

-- A `RequestStruct` is `UnMarshalToStruct` into a fresh copy of it; `none` is nil.
pub record RequestCallback (W Org : Type 0) : Type 0 where
  pub request_struct : Option (Dict → Result Value)
  pub callback : RequestCallbackParams Org → W → Called W

abbrev pub EventCallback : Type 0 → Type 0 → Type 0
EventCallback W Org = EventCallbackParams Org → W → Called W

-- An event handler that does not panic
abbrev pub Handler : Type 0 → Type 0 → Type 0
Handler W Org = EventCallbackParams Org → W → Response × W

-- Optional callbacks are `Option`s. A nil `ErrorHandler` panics when it is called.
pub record ExtensionCallbacks (W Org : Type 0) : Type 0 where
  pub validate_config : Option (Org → Dict → W → Called W)
  pub request_handlers : GoMap (RequestCallback W Org)
  pub event_handlers : GoMap (EventCallback W Org)
  pub error_handler : Option (ErrorReportMessage → W → W)

pub record Extension (W Org : Type 0) : Type 0 where
  pub extension_name : String
  pub secret_key : String
  pub callbacks : ExtensionCallbacks W Org
  pub views_schema : List View
  pub config_schema : SchemaObject
  pub request_schema : RequestSchemas
  pub required_events : List EventName
  pub org_from_access : Option (OrgAccessData → Action W Org)
  pub is_log_all_errors : Bool

-- The extension over a platform.
abbrev pub ExtensionOf : Platform → Type 0
ExtensionOf P = Extension P.World P.Org

-- Extension.Init, with what stands in LC_EXTENSION_LOG_ALL_ERRORS; `whClients` is the state of
-- Core.Webhooks.
unfoldable pub init : {W Org : Type 0} → String → Extension W Org → Extension W Org
init log_all_errors e = record e { is_log_all_errors = not (log_all_errors == "") }

module _ (P : Platform) where
  -- verifyOrigin; hmac.Equal is equality
  unfoldable pub verify_origin : String → String → String → Bool
  verify_origin content sig secret_key = P.hmac_hex secret_key content == sig

  -- Extension.generateSDK
  unfoldable pub generate_sdk : ExtensionOf P → OrgAccessData → Action P.World P.Org
  generate_sdk e oad = elim (e.org_from_access) [
    | some from_access ↦ from_access oad
    | none ↦ P.new_organization oad
  ]

-- GetExtensionPrivateTag
unfoldable pub get_extension_private_tag : String → String
get_extension_private_tag extension_name = "ext:" <> extension_name

-- unmarshalToStruct
unfoldable pub unmarshal_to_struct : Dict → (Dict → Result Value) → Result Value
unmarshal_to_struct d decode = decode d
