-- ===== src/Core/Platform.antt =====
-- What core/extension.go calls and does not implement: the SDK, HMAC-SHA256, gzip and JSON.
use lc_extension.Base.{String}
use lc_extension.Base.Effect.{Result, Action}
use lc_extension.Common.Messages.{Message, Response, OrgAccessData}

-- What a handler sends back: a response, `HeartBeatResponse{}`, or nothing.
pub data Reply : Type 0 where
  response : Response → Reply
  heart_beat_response : Reply

-- A byte string is a `String`: it is only handed from one of these functions to another. `World`
-- is all that lies outside of the extension.
pub record Platform : Type 1 where
  pub World : Type 0
  -- limacharlie.Organization
  pub Org : Type 0
  -- NewOrganizationFromClientOptions, with the OID and the JWT
  pub new_organization : OrgAccessData → Action World Org
  -- hex.EncodeToString of HMAC-SHA256, of a key and of data
  pub hmac_hex : String → String → String
  -- gzip.NewReader: an error, or what reading the decompressed body to its end gives
  pub gunzip : Result String → Result (Result String)
  -- json.Unmarshal into a `Message`, and json.Encoder.Encode
  pub unmarshal_message : String → Result Message
  pub encode : Reply → Result String

-- What the webhook handler calls besides the SDK
pub record Wire : Type 0 where
  pub hmac_hex : String → String → String
  pub gunzip : Result String → Result (Result String)
  pub unmarshal_message : String → Result Message
  pub encode : Reply → Result String

-- A platform over a state and an SDK
abbrev pub platform_over : (W Org : Type 0) → (OrgAccessData → Action W Org) → Wire → Platform
platform_over W Org new_organization wire = record {
  World = W;
  Org = Org;
  new_organization = new_organization;
  hmac_hex = wire.hmac_hex;
  gunzip = wire.gunzip;
  unmarshal_message = wire.unmarshal_message;
  encode = wire.encode;
}
