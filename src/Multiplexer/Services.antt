-- ===== src/Multiplexer/Services.antt =====
-- getService, createService, makeServicePublic and deleteService.
use lc_extension.Base.{
  ℕ, ◌+◌, ◌*◌, String, ◌<>◌, [], ◌∷◌, ◌++◌, Option, none, some, ltb, if◌then◌else◌,
}
use lc_extension.Base.GoMap.{lookup, insert, erase}
use lc_extension.Base.Effect.{ok, Action, pure, fail, context, attempt, ◌>>=◌, ◌>>◌}
use lc_extension.Multiplexer.{
  ServiceDefinition, Binding, CreatedService, Cloud, Settings, Multiplexer, outside,
}
use lc_extension.Multiplexer.Worker.{worker}

-- serviceCacheTTL, in nanoseconds
abbrev pub service_cache_ttl : ℕ
service_cache_ttl = 10 * 1000000000

-- `roles/run.invoker` for `allUsers`
abbrev pub everyone : Binding
everyone = record { role = "roles/run.invoker"; members = "allUsers" ∷ [] }

module _ (C : Cloud) (e : Settings) where
  abbrev State : Type 0
  State = Multiplexer C.World

  -- Multiplexer.generateServiceName
  unfoldable pub generate_service_name : String → String
  generate_service_name oid = e.extension_name <> ("-" <> oid)

  abbrev pub location : String → String → String
  location project_id region = "projects/" <> (project_id <> ("/locations/" <> region))

  abbrev pub full_name : String → String → String → String
  full_name project_id region service_name =
      location project_id region <> ("/services/" <> service_name)

  -- Multiplexer.getService, behind the look into the cache
  unfoldable pub remember : String → ServiceDefinition → Action State ServiceDefinition
  remember oid def s = (ok def, record s { service_cache = insert oid def s.service_cache })

  unfoldable pub cached : String → Option ServiceDefinition → Action State ServiceDefinition
  cached oid (some def) s = (ok def, s)
  cached oid none s =
      (context "failed to get service: " (outside (C.datastore_get oid)) >>= remember oid) s

  -- Multiplexer.getService; a cache that is too old is emptied
  unfoldable pub get_service : String → Action State ServiceDefinition
  unfolding cached remember
  get_service oid s =
      if ltb (s.last_service_update + service_cache_ttl) (C.now s.world)
      then cached oid none (record s { service_cache = []; last_service_update = 0 })
      else cached oid (lookup oid s.service_cache) s

  -- makeServicePublic
  unfoldable pub make_service_public : String → Action C.World (Unit {0})
  make_service_public service_name = do
    policy ← context "failed to get IAM policy: " (C.get_iam_policy service_name)
    context "failed to set IAM policy: " (
        C.set_iam_policy service_name
          (record policy { bindings = policy.bindings ++ (everyone ∷ []) }))

  -- What Datastore is to hold of a service
  abbrev pub definition_of : CreatedService → String → ServiceDefinition
  definition_of created new_secret = record {
    project_id = e.provision_project_id;
    region = e.provision_region;
    url = created.uri;
    secret = new_secret;
  }

  -- A service that cannot be recorded is deleted again, and the error of that is only logged.
  unfoldable pub store_service : String → CreatedService → String → Action C.World (Unit {0})
  store_service oid created new_secret =
      attempt (C.datastore_put oid (definition_of created new_secret)) pure (λ cause.
        attempt (C.run_delete_service created.name)
          (λ _. fail ("failed to store service in Datastore: " <> cause))
          (λ _. fail ("failed to store service in Datastore: " <> cause)))

  abbrev pub own_name : String → String
  own_name oid = full_name e.provision_project_id e.provision_region (generate_service_name oid)

  -- Multiplexer.createService behind the new secret
  unfoldable pub create_with : String → String → Action C.World (String × String)
  create_with oid new_secret = do
    op ← context "CreateService(): " (
        C.run_create_service (location e.provision_project_id e.provision_region)
          (generate_service_name oid) (worker e oid new_secret))
    created ← context "failed to wait for service creation: " (C.wait op)
    store_service oid created new_secret
    context "failed to make service public: " (make_service_public (own_name oid))
    pure (e.provision_project_id, generate_service_name oid)

  -- uuid.New().String()
  unfoldable pub with_uuid :
      (String → Action C.World (String × String)) → Action C.World (String × String)
  with_uuid f w = let (id, w') = C.new_uuid w in f id w'

  -- Multiplexer.createService
  unfoldable pub create_service : String → Action C.World (String × String)
  unfolding with_uuid
  create_service oid = do
    context "NewServicesClient(): " C.new_services_client
    with_uuid (create_with oid)

  -- `delete(e.serviceCache, oid)`
  unfoldable pub forget : String → Action State (Unit {0})
  forget oid s = (ok tt, record s { service_cache = erase oid s.service_cache })

  -- Multiplexer.deleteService
  unfoldable pub delete_service : String → Action State (Unit {0})
  unfolding forget
  delete_service oid = do
    def ← get_service oid
    outside C.new_services_client
    context "failed to delete service: " (
        outside
          (C.run_delete_service (full_name def.project_id def.region (generate_service_name oid))))
    context "failed to delete service from Datastore: " (outside (C.datastore_delete oid))
    forget oid
