-- ===== src/Tests/Multiplexers.antt =====
-- A Cloud Run and a Datastore that are maps, and a worker behind a multiplexer.
use lc_extension.Base.{
  ℕ, ◌+◌, String, ◌<>◌, ◌==◌, ◌≡◌, refl, sym, ap, ◌∙◌, true, List, [], ◌∷◌, ◌++◌, Option, none,
  some, arith, eq_refl, if◌then◌else◌,
}
use lc_extension.Base.GoMap.{lookup}
use lc_extension.Base.Effect.{Result, ok, err, ok_inj, wrap}
use lc_extension.Common.Value.{nil}
use lc_extension.Common.Schema.{pos, no_schema}
use lc_extension.Common.Messages.{empty_response}
use lc_extension.Core.Extension.{EventCallbackParams}
use lc_extension.Multiplexer.{
  ServiceDefinition, CloudService, Binding, CreatedService, Cloud, Settings, Multiplexer,
  initial_state, outside,
}
use lc_extension.Multiplexer.CloudLaws.{CloudLaws}
use lc_extension.Multiplexer.Services.{
  generate_service_name, get_service, create_with, create_service, store_service,
  make_service_public, delete_service,
}
use lc_extension.Multiplexer.Forward.{forward_http, forward_message, forward_event}
use lc_extension.Multiplexer.Events.{failed_with, on_generic_event}
use lc_extension.Multiplexer.Uncached.{start, meanwhile, get_service-uncached}
use lc_extension.Multiplexer.Lifecycle.{IsUp, create_service-IsUp}
use lc_extension.Multiplexer.Deletion.{
  IsLeaving, on_generic_event-rolls_back, on_generic_event-unsubscribes,
}
use lc_extension.Core.Platform.{Platform}
use lc_extension.Core.Extension.{ExtensionOf, returned, generate_sdk}
use lc_extension.Core.Extension.Serve.{serve_http}
use lc_extension.Multiplexer.Forward.{worker_event}
use lc_extension.Multiplexer.Signed.{arriving, begin, read_by, forward_event-runs}
use lc_extension.Tests.Services.{platform, mac}

pub put_at : {A : Type 0} → String → A → (String → A) → String → A
put_at k a f j = if k == j then a else f j

put_at_self : {A : Type 0} (k : String) (a : A) (f : String → A) → put_at k a f k ≡ a
unfolding put_at
put_at_self k a f = rw (eq_refl k) refl

pub record Site : Type 0 where
  services : String → Option CloudService
  bindings : String → List Binding
  records : String → Option ServiceDefinition
  clock : ℕ
  -- the services whose deletion has begun
  deletions : List String

pub found : Option ServiceDefinition → Result ServiceDefinition
found none = err "no such entity"
found (some def) = ok def

found_record :
    (o : Option ServiceDefinition) {def : ServiceDefinition} → found o ≡ ok def → o ≡ some def
unfolding found
found_record none h = cc
found_record (some d) h = cc

-- Nothing answers at any URL but `https://here`.
abbrev pub cloud : Cloud
cloud = record {
  World = Site;
  Org = String;
  Creation = CreatedService;
  get_oid = λ o. o;
  get_current_jwt = λ o. "jwt";
  now = λ w. w.clock;
  new_uuid = λ w. ("uuid-7", w);
  new_services_client = λ w. (ok tt, w);
  run_create_service = λ parent id service w. (
    ok (record { name = parent <> ("/services/" <> id); uri = "https://" <> id }),
    record w { services = put_at (parent <> ("/services/" <> id)) (some service) w.services },
  );
  wait = λ op w. (ok op, w);
  run_delete_service = λ name w. (ok tt, record w { deletions = w.deletions ++ (name ∷ []) });
  get_iam_policy = λ name w. (ok (record { bindings = w.bindings name; rest = nil }), w);
  set_iam_policy =
      λ name policy w. (ok tt, record w { bindings = put_at name policy.bindings w.bindings });
  datastore_get = λ oid w. (found (w.records oid), w);
  datastore_put = λ oid def w. (ok tt, record w { records = put_at oid (some def) w.records });
  datastore_delete = λ oid w. (ok tt, record w { records = put_at oid none w.records });
  marshal = λ m. ok m.idempotency_key;
  unmarshal_response = λ text. ok (record empty_response { error = text });
  new_request = λ url. ok tt;
  do_request =
      λ url signature body w. (if url == "https://here" then ok (ok "") else err "no route", w);
  hmac_hex = mac;
  hook_send_message = none;
  hook_response = none;
}

same_world : {A : Type 0} {x : A × Site} {a : A} {w : Site} → x ≡ (a, w) → x.1 ≡ w
same_world h = ap (λ y. y.1) h

abbrev laws : CloudLaws cloud
laws = record {
  service_at = λ w. w.services;
  bindings_at = λ w. w.bindings;
  record_of = λ w. w.records;
  client-services = λ w. refl;
  client-records = λ w. refl;
  create-service = λ parent id service op created w w1 w2 begun waited. (
    ap (λ v. v.services (parent <> ("/services/" <> id)))
          (sym (same_world begun ∙ same_world waited))
        ∙ put_at_self (parent <> ("/services/" <> id)) (some service) w.services,
    sym (
        ap (λ (c : CreatedService). c.name)
          (ok_inj (ap (λ y. y.0) begun) ∙ ok_inj (ap (λ y. y.0) waited))),
  );
  deletions_at = λ w. w.deletions;
  delete-service = λ name w w' done. ap (λ v. v.deletions) (sym (same_world done));
  client-deletions = λ w. refl;
  put-record = λ oid def w w' done.
      ap (λ v. v.records oid) (sym (same_world done)) ∙ put_at_self oid (some def) w.records;
  put-services = λ oid def w. refl;
  erase-record = λ oid w w' done.
      ap (λ v. v.records oid) (sym (same_world done)) ∙ put_at_self oid none w.records;
  erase-deletions = λ oid w. refl;
  get-deletions = λ oid w. refl;
  get-record = λ oid def w w' got. found_record (w.records oid) (ap (λ y. y.0) got);
  policy-services = λ name w. refl;
  policy-records = λ name w. refl;
  set-bindings = λ name policy w w' done.
      ap (λ v. v.bindings name) (sym (same_world done))
      ∙ put_at_self name policy.bindings w.bindings;
  set-services = λ name policy w. refl;
  set-records = λ name policy w. refl;
}

abbrev pub settings : Settings
settings = record {
  extension_name = "scanner";
  provision_project_id = "p1";
  provision_region = "eu";
  service_definition = record {
    image = "img";
    env = "MODE=a=b" ∷ "LC_SHARED_SECRET=old" ∷ "BROKEN" ∷ [];
    cpu = "1";
    memory = "1Gi";
    min_instances = pos 0;
    max_instances = pos 1;
    timeout = pos 60;
    service_account = "sa";
    labels = [];
  };
}

-- No service yet; and one behind the URL that answers
abbrev empty_site : Site
empty_site = record {
  services = λ name. none;
  bindings = λ name. [];
  records = λ oid. none;
  clock = 63000000000000000000;
  deletions = [];
}

abbrev pub subscribed : Site
subscribed = record empty_site {
  records =
      put_at "org-1"
        (some
          (record { project_id = "p1"; region = "eu"; url = "https://here"; secret = "uuid-7" }))
        (λ oid. none);
}

create_service-IsUp_example :
    IsUp cloud laws settings "org-1" (create_service cloud settings "org-1" empty_site).1
unfolding create_service create_with store_service make_service_public
create_service-IsUp_example = create_service-IsUp cloud laws settings "org-1" empty_site refl

get_service-uncached_example :
    ((get_service cloud settings "org-1" (initial_state subscribed)).0
      ≡ wrap "failed to get service: " (cloud.datastore_get "org-1" subscribed).0)
    × ((get_service cloud settings "org-1" (initial_state subscribed)).1.world ≡ subscribed)
get_service-uncached_example =
    get_service-uncached cloud settings empty_site "org-1" (meanwhile subscribed start)
      (omega arith)

abbrev params : EventCallbackParams String
params = record { org = "org-1"; payload = none; conf = none; idempotent_key = "key-1" }

-- The new worker does not answer.
abbrev no_route : String
no_route = "forwardHTTP: http.Do: no route"

abbrev creation : Result (String × String) × Multiplexer Site
creation = outside (create_service cloud settings "org-1") (initial_state empty_site)

abbrev not_forwarded : Multiplexer Site
not_forwarded = (forward_event cloud settings "subscribe" params creation.1).1

on_generic_event-rolls_back_example :
    (on_generic_event cloud settings "subscribe" params (initial_state empty_site) ≡ (
      failed_with ("failed to forward event: " <> no_route),
      (delete_service cloud settings "org-1" not_forwarded).1,
    ))
    × ((def : ServiceDefinition) × (not_forwarded.world.records "org-1" ≡ some def)
        × IsLeaving cloud laws settings "org-1" def not_forwarded
            (delete_service cloud settings "org-1" not_forwarded).1)
unfolding create_service create_with store_service make_service_public forward_event get_service
    forward_message forward_http delete_service found put_at generate_service_name
on_generic_event-rolls_back_example =
    on_generic_event-rolls_back cloud laws settings params creation.0 no_route
      (initial_state empty_site) creation.1 not_forwarded
      (delete_service cloud settings "org-1" not_forwarded).1 refl refl refl refl (omega arith) refl

abbrev parting : Multiplexer Site
parting = (forward_event cloud settings "unsubscribe" params (initial_state subscribed)).1

on_generic_event-unsubscribes_example :
    (on_generic_event cloud settings "unsubscribe" params (initial_state subscribed)
      ≡ (empty_response, (delete_service cloud settings "org-1" parting).1))
    × ((def : ServiceDefinition) × (parting.world.records "org-1" ≡ some def)
        × IsLeaving cloud laws settings "org-1" def parting
            (delete_service cloud settings "org-1" parting).1)
unfolding forward_event get_service forward_message forward_http delete_service found put_at
    generate_service_name
on_generic_event-unsubscribes_example =
    on_generic_event-unsubscribes cloud laws settings params empty_response
      (initial_state subscribed) parting (delete_service cloud settings "org-1" parting).1 refl refl
      (omega arith) refl

-- The worker has the same secret, and answers a subscription with the text of its response.
abbrev worker_platform : Platform
worker_platform = record platform {
  unmarshal_message = λ body. ok (worker_event cloud "subscribe" params);
}

abbrev behind : ExtensionOf worker_platform
behind = record {
  extension_name = "scanner";
  secret_key = "uuid-7";
  callbacks = record {
    validate_config = none;
    request_handlers = [];
    event_handlers = ("subscribe", λ p w. returned empty_response (w + 10)) ∷ [];
    error_handler = some (λ m w. w);
  };
  views_schema = [];
  config_schema = no_schema;
  request_schema = [];
  required_events = [];
  org_from_access = none;
  is_log_all_errors = true;
}

abbrev at_clock : ℕ → Site → Site
at_clock n w = record w { clock = n }

abbrev connected : Cloud
connected = record cloud {
  do_request = λ url signature body w.
      read_by cloud worker_platform (λ v. v.clock) at_clock
        (serve_http worker_platform behind (arriving signature body) (begin w.clock)) w;
}

abbrev asked : Multiplexer Site
asked = (get_service connected settings "org-1" (initial_state subscribed)).1

forward_event-runs_example :
    forward_event connected settings "subscribe" params (initial_state subscribed) ≡ (
      ok (record empty_response { error = "{}" }),
      record asked { world = at_clock 63000000000000000011 asked.world },
    )
unfolding get_service found put_at generate_sdk lookup
forward_event-runs_example =
    forward_event-runs connected worker_platform (λ v. v.clock) at_clock behind "https://here"
      (λ signature body w. refl) refl settings "subscribe" params (initial_state subscribed) asked
      (λ key text. refl) (λ key text p. cc) refl refl refl refl refl refl refl refl refl refl refl
      refl refl
