-- ===== src/Tests/Subscriptions.antt =====
-- A subscription to a lookup extension under the simulator. The Hive is a map, and
-- the goroutines of the update reach it in another order than the callback has the lookups in.
use lc_extension.Base.{
  ℕ, String, ◌+◌, ◌==◌, ◌≡◌, refl, [], ◌∷◌, map, none, some, false, has_text, decimal,
  if◌then◌else◌,
}
use lc_extension.Base.GoMap.{lookup}
use lc_extension.Base.Effect.{Result, ok, err}
use lc_extension.Common.Value.{empty_dict, end}
use lc_extension.Common.Messages.{Message, OrgAccessData, empty_message, empty_response, subscribe}
use lc_extension.Core.Platform.{Wire, Reply, response, heart_beat_response}
use lc_extension.Core.Extension.Exchange.{Outcome, finished, panicked}
use lc_extension.Core.Extension.Serve.{serve_http}
use lc_extension.Core.Extension.Delivery.{sent}
use lc_extension.Simplified.Lookups.{first_lookup_update, push_lookups}
use lc_extension.Simplified.Lookups.Simulated.{
  asked, subscription, follow_up_message, platform, simulated,
}
use lc_extension.Simplified.Lookups.Simulated.Subscription.{send_subscribe-updates}
use lc_extension.Simulator.{
  Backend, Simulator, Posted, Reception, no_response, mode_immediate, new, protocol_version,
  get_config, make_org_access,
}
use lc_extension.Simulator.Requests.{no_event_options, send_subscribe}
use lc_extension.Simulator.Send.{generate_idempotency_key}
use lc_extension.Simulator.Signed.{delivered}
use lc_extension.Simulator.Served.{first_line, read_by}
use lc_extension.Simplified.Lookups.{update_rule_id, update_rule}
use lc_extension.Simplified.Lookups.Pushed.{wanted_at}
use lc_extension.Tests.LookupSets.{
  Hive, record_in, service, stores, there, wanted, backwards, wanted-backwards, unique_backwards,
}
use lc_extension.Tests.Services.{mac, has_mac, compress, decompress}

-- What the subscription leaves in Hive, before the update
abbrev ruled : Hive
ruled =
    (service.add_record "org-1" (update_rule_id service "ips" "org-1") (update_rule service "ips")
      there).1

abbrev access : OrgAccessData
access = record { oid = "org-1"; jwt = "sim-jwt-org-1"; ident = "simulator@limacharlie.io" }

-- The two messages of the run
abbrev subscribed : Message
subscribed = record (empty_message protocol_version "sim-0-1") {
  event =
      some (record {
        org = access;
        event_name = subscribe;
        payload = empty_dict;
        config = empty_dict;
      });
}

abbrev updating : Message
updating = record (empty_message protocol_version "sim-0-1:1") {
  request = some (record {
    org = access;
    action = "update_lookup";
    payload = some end;
    config = empty_dict;
    resource_state = [];
    investigation_id = "";
  });
}

abbrev message_of : String → Result Message
message_of body =
    if body == "sim-0-1"
    then ok subscribed
    else if body == "sim-0-1:1"
    then ok updating
    else err "no such message"

abbrev text_of : Reply → String
text_of heart_beat_response = "{}"
text_of (response r) = elim (r.continuations) [ [] ↦ "done" | _ ∷ _ ↦ "later" ]

abbrev wire : Wire
wire = record {
  hmac_hex = mac;
  gunzip = decompress;
  unmarshal_message = message_of;
  encode = λ r. ok (text_of r);
}

-- The test server: the time, and what is stored
abbrev read : Outcome Hive (Unit {0}) → ℕ → Reception × (ℕ × Hive)
read (finished _ x) t = (first_line x.written, (t, x.world))
read (panicked x) t = (no_response "EOF", (t, x.world))

abbrev from_access : OrgAccessData → Hive → Result String × Hive
from_access oad w = (ok oad.oid, w)

abbrev post : Posted → ℕ × Hive → Reception × (ℕ × Hive)
post p w =
    read
      (serve_http (platform service wire from_access)
        (simulated service wire from_access "ips" "secret" "" backwards) (delivered p)
        (record { world = w.1; reports = []; written = [] }))
      w.0

abbrev backend : Backend
backend = record {
  World = ℕ × Hive;
  MockServer = String;
  Org = String;
  now = λ w. (w.0, (w.0 + 1, w.1));
  marshal = λ m. ok m.idempotency_key;
  unmarshal_response = λ body.
      if body == "later"
      then ok (sent (first_lookup_update service "ips"))
      else ok (sent empty_response);
  marshal_data = λ p. ok "{}";
  unmarshal_schema = λ text. err "no schema";
  gzip = compress;
  hmac_hex = mac;
  post = post;
  mock_organization = λ ms w. (ok ms, w);
  new_organization = λ oad w. (ok oad.oid, w);
}

abbrev simulator : Simulator backend
simulator = record (new backend "secret" (0, there)) { continuation_mode = mode_immediate }

read-read_by :
    (o : Outcome Hive (Unit {0})) (w : ℕ × Hive)
    → read o w.0
      ≡ read_by backend (platform service wire from_access) (λ w. w.1) (λ v w. (w.0, v)) o w
read-read_by (finished _ x) w = refl
read-read_by (panicked x) w = refl

subscription-subscribed : subscription backend "org-1" simulator ≡ subscribed
unfolding generate_idempotency_key make_org_access get_config lookup new decimal
subscription-subscribed = refl

follow_up-updating : follow_up_message backend "org-1" simulator ≡ updating
unfolding generate_idempotency_key make_org_access get_config lookup new decimal
follow_up-updating = refl

send_subscribe-updates_example :
    (let (r, t) = send_subscribe backend "org-1" no_event_options simulator in
      (r ≡ ok (sent (first_lookup_update service "ips")))
      × ((key : String)
          → has_text (push_lookups service "ips" "org-1" (backwards wanted) ruled).0 key ≡ false
          → record_in t.world.1 "lookup" key
            ≡ wanted_at service stores "ips" (lookup key wanted) (record_in ruled "lookup" key))
      × ((key : String)
          → lookup key wanted ≡ none
          → record_in t.world.1 "lookup" key ≡ record_in ruled "lookup" key)
      × (t.world.1 ≡ (push_lookups service "ips" "org-1" (backwards wanted) ruled).1)
      × (map (λ c. c.request) t.continuations ≡ asked ∷ [])
      × (t.errors ≡ []))
unfolding new make_org_access lookup generate_idempotency_key get_config decimal
send_subscribe-updates_example =
    send_subscribe-updates service wire from_access "ips" "secret" "" backwards backend (λ w. w.1)
      (λ v w. (w.0, v)) (λ p w. read-read_by _ w) (λ key payload. refl) has_mac (λ text. refl)
      (λ w. refl) (λ v w. refl) stores "org-1" simulator refl refl refl ("sim-0-1", refl, refl)
      ("sim-0-1:1", refl, refl) ("later", refl, (λ p. cc), refl) ("done", refl, (λ p. cc), refl)
      refl refl refl refl refl unique_backwards wanted-backwards
