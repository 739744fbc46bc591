-- ===== src/Tests/Services.antt =====
-- A platform for the webhook handler, and a backend for the simulator.
use Prim.Native.String.{[], ◌∷◌}
use lc_extension.Base.{ℕ, zero, suc, List, String, ◌<>◌, ◌+◌, ◌==◌, ◌≢◌, none, some, if◌then◌else◌}
use lc_extension.Base.Effect.{Result, ok, err, Action}
use lc_extension.Common.Value.{empty_dict}
use lc_extension.Common.Messages.{
  ConfigValidationMessage, EventMessage, RequestMessage, Message, OrgAccessData, Response,
  empty_message, empty_response,
}
use lc_extension.Core.Platform.{Platform, Reply, response, heart_beat_response}
use lc_extension.Core.Extension.{protocol_version}
use lc_extension.Simulator.{Backend, Reception, no_response, received}

abbrev pub access : OrgAccessData
access = record { oid = "org-1"; jwt = "jwt"; ident = "ops@example.com" }

-- The SDK refuses this token.
abbrev pub revoked : OrgAccessData
revoked = record { oid = "org-2"; jwt = "revoked"; ident = "" }

abbrev pub signup : EventMessage
signup = record { org = access; event_name = "subscribe"; payload = empty_dict; config = none }

abbrev pub scan : RequestMessage
scan = record {
  org = access;
  action = "scan";
  payload = empty_dict;
  config = none;
  resource_state = List.[];
  investigation_id = "inv";
}

abbrev pub event_message : Message
event_message = record (empty_message protocol_version "key-1") { event = some signup }

abbrev pub request_message : Message
request_message = record (empty_message protocol_version "key-2") { request = some scan }

abbrev pub revoked_validation : ConfigValidationMessage
revoked_validation = record { org = revoked; config = none }

abbrev pub validation_message : Message
validation_message = record (empty_message protocol_version "key-3") {
  config_validation = some revoked_validation;
}

-- Message bodies and their meaning.
abbrev pub message_of : String → Result Message
message_of body =
    if body == "event"
    then ok event_message
    else if body == "request"
    then ok request_message
    else if body == "validation"
    then ok validation_message
    else err "no such message"

abbrev pub text_of : Reply → String
text_of (response r) = "{" <> r.error <> "}"
text_of heart_beat_response = "{}"

-- Compression puts a mark in front of the text.
abbrev pub compress : String → String
compress text = "z" ∷ text

abbrev pub decompress : Result String → Result (Result String)
decompress (ok (c ∷ text)) = ok (ok text)
decompress (ok []) = err "EOF"
decompress (err e) = err e

abbrev pub mac : String → String → String
mac key text = "m" ∷ (key <> ":" <> text)

pub has_mac : (key body : String) → mac key body ≢ ""
has_mac key body h = cc

-- The world counts the organizations that were opened.
abbrev pub open_organization : OrgAccessData → Action ℕ String
open_organization oad w = if oad.jwt == "revoked" then (err "401", w) else (ok oad.oid, w + 1)

abbrev pub platform : Platform
platform = record {
  World = ℕ;
  Org = String;
  new_organization = open_organization;
  hmac_hex = mac;
  gunzip = decompress;
  unmarshal_message = message_of;
  encode = λ r. ok (text_of r);
}

-- An answer with two continuations, a metric and an error, to every message but the first, which is
-- lost.
abbrev pub busy : Response
busy = record empty_response {
  error = "later";
  continuations =
      List.◌∷◌ (record { in_delay_seconds = 1000; action = "next"; state = none })
        (List.◌∷◌ (record { in_delay_seconds = 1; action = "last"; state = none }) List.[]);
  metrics = some (record {
    idempotent_key = "m";
    metrics = List.◌∷◌ (record { sku = "scan"; value = 1 }) List.[];
  });
}

abbrev pub reception : ℕ → Reception
reception zero = no_response "refused"
reception (suc n) = received 200 "busy"

-- Its world is its clock: the first POST is refused.
abbrev pub backend : Backend
backend = record {
  World = ℕ;
  MockServer = String;
  Org = String;
  now = λ t. (t, t + 1);
  marshal = λ m. ok m.idempotency_key;
  unmarshal_response = λ body. if body == "busy" then ok busy else err "no such response";
  marshal_data = λ p. ok "{}";
  unmarshal_schema = λ text. err "no schema";
  gzip = compress;
  hmac_hex = mac;
  post = λ p t. (reception t, t + 1);
  mock_organization = λ ms t. (ok ms, t);
  new_organization = open_organization;
}
