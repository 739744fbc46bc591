-- ===== src/Tests/Relays.antt =====
-- A multiplexer that is sent an event for a worker.
use lc_extension.Base.{String, ◌≡◌, refl, [], ◌∷◌, none, some}
use lc_extension.Base.Effect.{Result, ok}
use lc_extension.Common.Schema.{no_schema}
use lc_extension.Common.Messages.{
  EventMessage, OrgAccessData, Response, SchemaRequestResponse, empty_message,
}
use lc_extension.Core.Platform.{Wire, platform_over}
use lc_extension.Core.Extension.{EventCallbackParams, verify_origin}
use lc_extension.Core.Extension.Exchange.{Exchange, finished}
use lc_extension.Core.Extension.Serve.{HttpRequest, open_body, serve_http}
use lc_extension.Core.Extension.Delivery.{answered}
use lc_extension.Multiplexer.{Multiplexer, initial_state}
use lc_extension.Multiplexer.Forward.{forward_event}
use lc_extension.Multiplexer.Events.{answer_or}
use lc_extension.Multiplexer.Init.{multiplexer_extension}
use lc_extension.Multiplexer.Relay.{init_extension, serve_http-relays}
use lc_extension.Tests.Services.{access, mac, has_mac, decompress}
use lc_extension.Tests.Multiplexers.{Site, cloud, settings, subscribed}

abbrev changed : EventMessage
changed = record { org = access; event_name = "update"; payload = none; config = none }

abbrev wire : Wire
wire = record {
  hmac_hex = mac;
  gunzip = decompress;
  unmarshal_message = λ body. ok (record (empty_message 20221218 "key") { event = some changed });
  encode = λ r. ok "{}";
}

abbrev schema : SchemaRequestResponse
schema = record { views = []; config = no_schema; request = []; required_events = "update" ∷ [] }

abbrev from_access : OrgAccessData → Multiplexer Site → Result String × Multiplexer Site
from_access oad s = (ok oad.oid, s)

abbrev start : Exchange (Multiplexer Site)
start = record { world = initial_state subscribed; reports = []; written = [] }

abbrev arrived : HttpRequest
arrived = record { signature = mac "secret" "update"; content_encoding = ""; body = ok "update" }

abbrev given : EventCallbackParams String
given = record { org = "org-1"; payload = none; conf = none; idempotent_key = "key" }

abbrev outcome : Response × Multiplexer Site
outcome =
    answer_or cloud settings "failed to forward event: "
      (forward_event cloud settings "update" given (initial_state subscribed))

serve_http-relays_example :
    serve_http
      (platform_over (Multiplexer Site) String from_access wire)
      (init_extension cloud "yes" (multiplexer_extension cloud settings "secret" schema))
      arrived
      start
    ≡ finished tt (
        answered
          (platform_over (Multiplexer Site) String from_access wire)
          (init_extension cloud "yes" (multiplexer_extension cloud settings "secret" schema))
          (λ m s. s)
          outcome.0
          "{}"
          (record start { world = outcome.1 }))
unfolding open_body verify_origin
serve_http-relays_example =
    serve_http-relays cloud settings wire from_access "secret" "yes" schema arrived start changed
      {content = "update"} (has_mac "secret" "update") refl refl refl refl refl refl refl refl refl
      refl
