-- ===== src/Multiplexer.antt =====
-- multiplexer/multiplexer.go: an extension that runs a Cloud Run service for each organization and
-- forwards what it is asked to that service.
pub mod Worker
pub mod Services
pub mod Forward
pub mod Events
pub mod Init
pub mod Environment
pub mod Uncached
pub mod CloudLaws
pub mod Lifecycle
pub mod Deletion
pub mod Signed
pub mod Relay
use lc_extension.Base.{ℕ, String, List, [], Option}
use lc_extension.Base.GoMap.{GoMap}
use lc_extension.Base.Effect.{Result, Action}
use lc_extension.Common.Value.{Value}
use lc_extension.Common.Schema.{ℤ}
use lc_extension.Common.Messages.{Message, Response}

pub record CloudRunServiceDefinition : Type 0 where
  pub image : String
  pub env : List String
  pub cpu : String
  pub memory : String
  pub min_instances : ℤ
  pub max_instances : ℤ
  pub timeout : ℤ
  pub service_account : String
  pub labels : GoMap String

pub record ServiceDefinition : Type 0 where
  pub project_id : String
  pub region : String
  pub url : String
  pub secret : String

-- runpb.EnvVar, and runpb.Service with the members that the program sets; an entry of `env` may be
-- a nil pointer
pub record EnvVar : Type 0 where
  pub name : String
  pub value : String

pub record CloudService : Type 0 where
  pub image : String
  pub limits : GoMap String
  pub env : List (Option EnvVar)
  pub timeout_seconds : ℤ
  pub min_instance_count : ℤ
  pub max_instance_count : ℤ
  pub service_account : String
  pub labels : GoMap String

-- iampb.Binding, and iampb.Policy with what the program does not touch
pub record Binding : Type 0 where
  pub role : String
  pub members : List String

pub record Policy : Type 0 where
  pub bindings : List Binding
  pub rest : Value

-- runpb.Service as the creation returns it
pub record CreatedService : Type 0 where
  pub name : String
  pub uri : String

-- Cloud Run, its policies, Datastore, net/http, encoding/json, UUIDs, the clock in nanoseconds since
-- Go's zero time, the SDK and the hooks. A Cloud Run client has no state that the program sees.
pub record Cloud : Type 1 where
  pub World : Type 0
  pub Org : Type 0
  pub Creation : Type 0
  pub get_oid : Org → String
  pub get_current_jwt : Org → String
  pub now : World → ℕ
  pub new_uuid : World → String × World
  pub new_services_client : Action World (Unit {0})
  -- the parent, the service's ID and the service
  pub run_create_service : String → String → CloudService → Action World Creation
  pub wait : Creation → Action World CreatedService
  pub run_delete_service : String → Action World (Unit {0})
  pub get_iam_policy : String → Action World Policy
  pub set_iam_policy : String → Policy → Action World (Unit {0})
  -- the kind "service", under the OID; an entity has all four properties, since Put writes them
  -- all, so nothing is left of what the struct held before Get fills it
  pub datastore_get : String → Action World ServiceDefinition
  pub datastore_put : String → ServiceDefinition → Action World (Unit {0})
  pub datastore_delete : String → Action World (Unit {0})
  pub marshal : Message → Result String
  pub unmarshal_response : String → Result Response
  -- http.NewRequestWithContext, and client.Do of a POST with its URL, `lc-ext-sig` and body; the
  -- inner result is that of reading the answer to its end
  pub new_request : String → Result (Unit {0})
  pub do_request : String → String → String → Action World (Result String)
  pub hmac_hex : String → String → String
  pub hook_send_message : Option (Org → Message → Action World Message)
  pub hook_response : Option (Org → Message → Response → ℕ → Action World Response)

-- The members of a Multiplexer that stay as they are
pub record Settings : Type 0 where
  pub extension_name : String
  pub provision_project_id : String
  pub provision_region : String
  pub service_definition : CloudRunServiceDefinition

-- The world, and the members that change
pub record Multiplexer (W : Type 0) : Type 0 where
  pub world : W
  pub service_cache : GoMap ServiceDefinition
  pub last_service_update : ℕ

-- The state behind `init`
abbrev pub initial_state : {W : Type 0} → W → Multiplexer W
initial_state w = record { world = w; service_cache = []; last_service_update = 0 }

-- A call that leaves the cache alone
abbrev pub outside {ℓ} : {W : Type 0} {B : Type ℓ} → Action W B → Action (Multiplexer W) B
outside m s = let (r, w) = m s.world in (r, record s { world = w })
