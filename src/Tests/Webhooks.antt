-- ===== src/Tests/Webhooks.antt =====
-- Requests to a webhook handler.
use mathlib.Core.Path.{subst}
use lc_extension.Base.{
  ◌==◌, Bool-cases, inl, some_inj, ℕ, String, ◌+◌, ◌≡◌, ◌≢◌, refl, true, false, [], ◌∷◌, inr, none,
  some,
}
use lc_extension.Base.Effect.{ok, err}
use lc_extension.Base.GoMap.{lookup}
use lc_extension.Common.Schema.{no_schema}
use lc_extension.Common.Messages.{Response, ErrorReportMessage, OrgAccessData, empty_response}
use lc_extension.Core.Extension.{
  ExtensionOf, EventCallback, EventCallbackParams, RequestCallback, RequestCallbackParams, returned,
  verify_origin, generate_sdk,
}
use lc_extension.Core.Extension.Exchange.{Exchange, finished, panicked}
use lc_extension.Core.Extension.Serve.{HttpRequest, open_body, dispatch, serve_http, request_data}
use lc_extension.Core.Extension.Answers.{Writes, serve_http-Writes}
use lc_extension.Core.Extension.Panics.{
  Finishes, Returns, serve_http-Finishes, config_validation_panics,
}
use lc_extension.Core.Extension.Access.{
  without_sdk, without_callbacks, serve_http-unauthentic, serve_http-rejects,
}
use lc_extension.Core.Extension.Delivery.{answered, serve_http-event, serve_http-request}
use lc_extension.Simulator.{Simulator, new}
use lc_extension.Simulator.Send.{prepare}
use lc_extension.Simulator.Signed.{delivered, serve_http-prepare}
use lc_extension.Tests.Services.{
  platform, backend, mac, has_mac, signup, scan, event_message, validation_message,
  revoked_validation,
}

abbrev failed : Response
failed = record empty_response { error = "not now"; retriable = some false }

abbrev on_subscribe : EventCallback ℕ String
on_subscribe p w = returned failed (w + 10)

abbrev on_scan : RequestCallback ℕ String
on_scan = record { request_struct = none; callback = λ p w. returned empty_response (w + 20) }

abbrev handle_error : ErrorReportMessage → ℕ → ℕ
handle_error m w = w + 100

abbrev extension : ExtensionOf platform
extension = record {
  extension_name = "scanner";
  secret_key = "secret";
  callbacks = record {
    validate_config = none;
    request_handlers = ("scan", on_scan) ∷ [];
    event_handlers = ("subscribe", on_subscribe) ∷ [];
    error_handler = some handle_error;
  };
  views_schema = [];
  config_schema = no_schema;
  request_schema = [];
  required_events = [];
  org_from_access = none;
  is_log_all_errors = true;
}

-- The same without the SDK's refusals.
abbrev trusting : ExtensionOf platform
trusting = record extension { org_from_access = some (λ oad w. (ok oad.oid, w)) }

abbrev signed : String → HttpRequest
signed body = record { signature = mac "secret" body; content_encoding = ""; body = ok body }

abbrev forged : HttpRequest
forged = record (signed "event") { signature = "mguess:event" }

abbrev start : Exchange ℕ
start = record { world = 0; reports = []; written = [] }

serve_http-Writes_example : Writes 1 (serve_http platform extension (signed "event"))
serve_http-Writes_example = serve_http-Writes platform extension (signed "event")

sdk_works :
    (oad : OrgAccessData) (w : ℕ) (cause : String)
    → (generate_sdk platform trusting oad w).0 ≢ err cause
unfolding generate_sdk
sdk_works oad w cause h = cc

only_entry : {A : Type 0} (k name : String) (a b : A) → lookup name ((k, a) ∷ []) ≡ some b → a ≡ b
unfolding lookup
only_entry k name a b h = elim (Bool-cases (k == name)) [
  | inl here ↦ some_inj (rw here at h)
  | inr other ↦ cc
]

on_subscribe-Returns :
    (name : String) (callback : EventCallback ℕ String)
    → lookup name extension.callbacks.event_handlers ≡ some callback
    → (params : EventCallbackParams String) → Returns (callback params)
on_subscribe-Returns name callback h params =
    subst (λ c. Returns (c params)) (only_entry "subscribe" name on_subscribe callback h)
      (λ w v p. cc)

on_scan-Returns :
    (name : String) (rcb : RequestCallback ℕ String)
    → lookup name extension.callbacks.request_handlers ≡ some rcb
    → (params : RequestCallbackParams String) → Returns (rcb.callback params)
on_scan-Returns name rcb h params =
    subst (λ c. Returns (c.callback params)) (only_entry "scan" name on_scan rcb h) (λ w v p. cc)

serve_http-Finishes_example : Finishes (serve_http platform trusting (signed "validation"))
serve_http-Finishes_example =
    serve_http-Finishes platform trusting refl on_subscribe-Returns on_scan-Returns
      (λ validate h. cc) sdk_works (signed "validation")

has_signature : (body : String) → mac "secret" body ≢ ""
has_signature body = has_mac "secret" body

forged_signature : forged.signature ≢ ""
forged_signature h = cc

config_validation_panics_example :
    serve_http platform extension (signed "validation") start ≡ panicked start
unfolding open_body verify_origin generate_sdk
config_validation_panics_example =
    config_validation_panics platform extension (signed "validation") start "validation" "401"
      validation_message revoked_validation 0 (has_signature "validation") refl refl refl refl refl
      refl refl refl refl

misfit :
    (content : String)
    → "event" ≡ content
    → verify_origin platform content forged.signature extension.secret_key ≡ false
unfolding verify_origin
misfit content h =
    subst (λ c. verify_origin platform c forged.signature extension.secret_key ≡ false) h refl

no_fit :
    (content : String)
    → open_body platform extension forged ≡ ok (ok content)
    → verify_origin platform content forged.signature extension.secret_key ≡ false
unfolding open_body verify_origin
no_fit content h = misfit content cc

serve_http-unauthentic_example :
    serve_http platform extension forged start
    ≡ serve_http (without_sdk platform) (without_callbacks platform extension) forged start
serve_http-unauthentic_example = serve_http-unauthentic platform extension forged start (inr no_fit)

serve_http-rejects_example :
    serve_http platform extension forged start
    ≡ finished tt (record {
      world = 100;
      reports = record { error = "invalid signature"; oid = "" } ∷ [];
      written = record { status = 401; body = "" } ∷ [];
    })
unfolding open_body verify_origin
serve_http-rejects_example =
    serve_http-rejects platform extension forged start {content = "event"} refl forged_signature
      refl refl

serve_http-event_example :
    serve_http platform extension (signed "event") start
    ≡ finished tt
        (answered platform extension handle_error failed "{not now}" (record start { world = 11 }))
unfolding open_body verify_origin generate_sdk lookup
serve_http-event_example =
    serve_http-event platform extension refl (signed "event") {content = "event"}
      (has_signature "event") refl refl refl start signup refl refl refl refl refl refl

serve_http-request_example :
    serve_http platform extension (signed "request") start
    ≡ finished tt
        (answered platform extension handle_error empty_response "{}" (record start { world = 21 }))
unfolding open_body verify_origin generate_sdk lookup request_data
serve_http-request_example =
    serve_http-request platform extension refl (signed "request") {content = "request"}
      (has_signature "request") refl refl refl start scan refl refl refl refl refl refl refl refl

abbrev simulator : Simulator backend
simulator = record (new backend "secret" 0) { use_gzip = true }

serve_http-prepare_example :
    serve_http platform extension (delivered (prepare backend simulator "event")) start
    ≡ dispatch platform extension "event" event_message start
unfolding new
serve_http-prepare_example =
    serve_http-prepare backend platform extension (λ key payload. refl) has_mac (λ text. refl)
      simulator refl "event" refl start
