-- ===== src/Simulator.antt =====
-- simulator/simulator.go: a mock of the LimaCharlie backend that sends signed messages to an
-- extension and follows its continuations. This module has the simulator's state, its options and
-- the operations that only set or read the state.
pub mod Send
pub mod Continue
pub mod Requests
pub mod Fuel
pub mod Growth
pub mod Records
pub mod Signed
pub mod Served
pub mod Immediate
use lc_extension.Base.{
  ℕ, zero, suc, String, ◌<>◌, ◌==◌, Bool, true, false, List, [], ◌∷◌, ◌++◌, Option, none, some, eqb,
  ltb, if◌then◌else◌,
}
use lc_extension.Base.GoMap.{GoMap, lookup, insert}
use lc_extension.Base.Effect.{Result, ok, err, Action}
use lc_extension.Common.Value.{Dict, empty_dict}
use lc_extension.Common.Schema.{ℤ, pos, negsuc}
use lc_extension.Common.Messages.{
  Message, Response, OrgAccessData, ContinuationRequest, Metric, Payload, SchemaRequestResponse,
}

abbrev pub max_continuation_delay : ℕ
max_continuation_delay = 300

abbrev pub max_continuation_level : ℕ
max_continuation_level = 10

abbrev pub default_max_continuations_per_req : ℕ
default_max_continuations_per_req = 100

-- protocolVersion of the simulator
abbrev pub protocol_version : ℕ
protocol_version = 20221218

pub record ContinuationRecord : Type 0 where
  pub oid : String
  pub idempotency_key : String
  pub level : ℕ
  pub request : ContinuationRequest
  pub queued_at : ℕ

pub data ContinuationMode : Type 0 where
  mode_record mode_immediate : ContinuationMode

pub record ErrorRecord : Type 0 where
  pub oid : String
  pub message : String
  pub time : ℕ

pub record MetricRecord : Type 0 where
  pub oid : String
  pub idempotency_key : String
  pub metrics : List Metric
  pub time : ℕ

-- A POST to the test server.
pub record Posted : Type 0 where
  pub signature : String
  pub content_encoding : String
  pub body : String

-- What came back: no response, a response whose body broke off, or a response.
pub data Reception : Type 0 where
  no_response : String → Reception
  unreadable : ℕ → String → Reception
  received : ℕ → String → Reception

-- What the simulator calls: the clock, in nanoseconds, JSON, gzip, HMAC-SHA256, the HTTP client with the
-- test server behind it, and the SDK's mock servers.
pub record Backend : Type 1 where
  pub World : Type 0
  pub MockServer : Type 0
  pub Org : Type 0
  pub now : World → ℕ × World
  pub marshal : Message → Result String
  pub unmarshal_response : String → Result Response
  pub marshal_data : Option Payload → Result String
  pub unmarshal_schema : String → Result SchemaRequestResponse
  pub gzip : String → String
  pub hmac_hex : String → String → String
  pub post : Posted → World → Reception × World
  pub mock_organization : MockServer → Action World Org
  pub new_organization : OrgAccessData → Action World Org

-- The simulator with the extension's secret, and with the counter behind the idempotency keys and
-- the world, which it shares with others.
pub record Simulator (B : Backend) : Type 0 where
  pub world : B.World
  pub counter : ℕ
  pub secret_key : String
  pub continuation_mode : ContinuationMode
  pub continuations : List ContinuationRecord
  pub errors : List ErrorRecord
  pub metrics : List MetricRecord
  pub configs : GoMap Dict
  pub mock_servers : GoMap B.MockServer
  pub use_gzip : Bool
  pub max_continuations_per_response : ℤ

-- What the option WithMaxContinuationsPerResponse means: a negative number no limit, 0 the default.
unfoldable pub limit_of : ℤ → ℕ
limit_of (negsuc _) = 0
limit_of (pos zero) = default_max_continuations_per_req
limit_of (pos (suc n)) = suc n

module _ (B : Backend) where
  -- New, before its options, over the secret of the extension
  unfoldable pub new : String → B.World → Simulator B
  new secret_key w = record {
    world = w;
    counter = 0;
    secret_key = secret_key;
    continuation_mode = mode_record;
    continuations = [];
    errors = [];
    metrics = [];
    configs = [];
    mock_servers = [];
    use_gzip = false;
    max_continuations_per_response = pos 0;
  }

  -- WithGzip, WithMockServer (and AddMockServer), WithConfig (and SetConfig),
  -- WithMaxContinuationsPerResponse
  unfoldable pub with_gzip : Simulator B → Simulator B
  with_gzip s = record s { use_gzip = true }

  unfoldable pub with_mock_server : String → B.MockServer → Simulator B → Simulator B
  with_mock_server oid ms s = record s { mock_servers = insert oid ms s.mock_servers }

  unfoldable pub with_config : String → Dict → Simulator B → Simulator B
  with_config oid config s = record s { configs = insert oid config s.configs }

  unfoldable pub with_max_continuations_per_response : ℤ → Simulator B → Simulator B
  with_max_continuations_per_response max s = record s { max_continuations_per_response = max }

  unfoldable pub set_continuation_mode : ContinuationMode → Simulator B → Simulator B
  set_continuation_mode mode s = record s { continuation_mode = mode }

  unfoldable pub reset_continuations : Simulator B → Simulator B
  reset_continuations s = record s { continuations = [] }

  unfoldable pub reset_errors : Simulator B → Simulator B
  reset_errors s = record s { errors = [] }

  unfoldable pub reset_metrics : Simulator B → Simulator B
  reset_metrics s = record s { metrics = [] }

  -- The hook that New puts into the extension as `OrgFromAccess`.
  unfoldable pub org_from_access : Simulator B → OrgAccessData → Action B.World B.Org
  org_from_access s oad = elim (lookup oad.oid s.mock_servers) [
    | some ms ↦ B.mock_organization ms
    | none ↦ B.new_organization oad
  ]

  -- NewOrganization
  unfoldable pub new_organization : Simulator B → String → Action B.World B.Org
  new_organization s oid = elim (lookup oid s.mock_servers) [
    | some ms ↦ B.mock_organization ms
    | none ↦ λ w. (
      err (
          "no MockServer registered for OID " <> oid
          <> "; use WithMockServer option or AddMockServer"),
      w,
    )
  ]

  -- getConfig
  unfoldable pub get_config : Simulator B → String → Dict
  get_config s oid = elim (lookup oid s.configs) [ some c ↦ c | none ↦ empty_dict ]

  -- makeOrgAccess
  unfoldable pub make_org_access : Simulator B → String → String → OrgAccessData
  make_org_access s oid ident = record {
    oid = oid;
    jwt = elim (lookup oid s.mock_servers) [ some _ ↦ "mock-jwt-token" | none ↦ "sim-jwt-" <> oid ];
    ident = if ident == "" then "simulator@limacharlie.io" else ident;
  }

  -- getMaxContinuationsPerResponse: 0 stands for no limit
  unfoldable pub get_max_continuations_per_response : Simulator B → ℕ
  unfolding limit_of
  get_max_continuations_per_response s = limit_of s.max_continuations_per_response

  -- `s.errors = append(s.errors, ErrorRecord{...})`, at the time of the clock
  unfoldable pub add_error : String → String → Simulator B → Simulator B
  add_error oid message s =
      let (t, w) = B.now s.world in
      record s {
        world = w;
        errors = s.errors ++ (record { oid = oid; message = message; time = t } ∷ []);
      }
