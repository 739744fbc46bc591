-- ===== src/Multiplexer/Lifecycle.antt =====
-- The service of an organization, from its creation to its deletion.
use mathlib.Core.Path.{subst}
use mathlib.Core.List.{append-nil}
use lc_extension.Base.{
  String, map, ◌<>◌, ◌≡◌, ◌⊎◌, inl, inr, refl, sym, ap, ◌∙◌, List, [], ◌∷◌, ◌++◌, some,
}
use lc_extension.Base.Effect.{
  Result, ok, err, pure, fail, on_result, attempt, >>=-eq-ok, context->>=-eq-ok, context-eq-ok,
}
use lc_extension.Multiplexer.{Binding, CreatedService, Cloud, Settings}
use lc_extension.Multiplexer.Worker.{worker}
use lc_extension.Multiplexer.Environment.{values_of, static_values, worker_env_lem}
use lc_extension.Multiplexer.CloudLaws.{CloudLaws}
use lc_extension.Multiplexer.Services.{
  everyone, generate_service_name, location, definition_of, store_service, own_name,
  make_service_public, create_with, with_uuid, create_service,
}

-- The values of LC_SHARED_SECRET in a worker's environment, by those in the definition's: the
-- secret takes the place of each, and where there is none the worker is not given the secret.
abbrev pub SecretIsGiven : String → List String → List String → Type 0
SecretIsGiven secret configured values =
    ((configured ≡ []) × (values ≡ []))
    ⊎ ((first : String) × (more : List String) × (configured ≡ first ∷ more)
        × (values ≡ secret ∷ map (λ _. secret) more))

map-SecretIsGiven :
    (secret : String) (configured values : List String)
    → values ≡ map (λ _. secret) configured
    → SecretIsGiven secret configured values
map-SecretIsGiven secret [] values h = inl (refl, h)
map-SecretIsGiven secret (first ∷ more) values h = inr (first, more, refl, h)

module _ (C : Cloud) (L : CloudLaws C) (e : Settings) where
  -- Recording a service succeeds only where Datastore took the record.
  cleaned_up :
      (oid : String) (created : CreatedService) (new_secret cause : String) (r : Result (Unit {0}))
      (v : C.World) {w' : C.World} {b : Unit {0}}
      → on_result r
          (λ _. fail ("failed to store service in Datastore: " <> cause))
          (λ _. fail ("failed to store service in Datastore: " <> cause))
          v
        ≡ (ok b, w')
      → ⊥
  cleaned_up oid created new_secret cause (ok tt) v h = cc
  cleaned_up oid created new_secret cause (err e') v h = cc

  stored_by :
      (oid : String) (created : CreatedService) (new_secret : String)
      (x : Result (Unit {0}) × C.World) {w' : C.World}
      → on_result x.0 pure
          (λ cause.
            attempt
              (C.run_delete_service created.name)
              (λ _. fail ("failed to store service in Datastore: " <> cause))
              (λ _. fail ("failed to store service in Datastore: " <> cause)))
          x.1
        ≡ (ok tt, w')
      → x ≡ (ok tt, w')
  stored_by oid created new_secret (ok tt, v) h = h
  stored_by oid created new_secret (err cause, v) h =
      absurd (cleaned_up oid created new_secret cause (C.run_delete_service created.name v).0 _ h)

  store_service-eq-ok :
      (oid : String) (created : CreatedService) (new_secret : String) (w : C.World) {w' : C.World}
      → store_service C e oid created new_secret w ≡ (ok tt, w')
      → C.datastore_put oid (definition_of C e created new_secret) w ≡ (ok tt, w')
  unfolding store_service
  store_service-eq-ok oid created new_secret w h = stored_by oid created new_secret _ h

  -- What a service is public by.
  make_service_public-eq-ok :
      (name : String) (w : C.World) {w' : C.World}
      → make_service_public C e name w ≡ (ok tt, w')
      → ((before : List Binding) × (L.bindings_at w' name ≡ before ++ (everyone ∷ [])))
        × (L.service_at w' ≡ L.service_at w)
        × (L.record_of w' ≡ L.record_of w)
  unfolding make_service_public
  make_service_public-eq-ok name w h =
      let (policy, v, got, rest) =
        context->>=-eq-ok "failed to get IAM policy: " (C.get_iam_policy name) _ w h in
      let public = record policy { bindings = policy.bindings ++ (everyone ∷ []) } in
      let put = context-eq-ok "failed to set IAM policy: " (C.set_iam_policy name public) v rest in
      (
        (policy.bindings, L.set-bindings name public v _ put),
        ap (λ x. L.service_at x.1) (sym put)
            ∙ L.set-services name public v
            ∙ ap (λ x. L.service_at x.1) (sym got)
            ∙ L.policy-services name w,
        ap (λ x. L.record_of x.1) (sym put)
            ∙ L.set-records name public v
            ∙ ap (λ x. L.record_of x.1) (sym got)
            ∙ L.policy-records name w,
      )

  -- The service that a creation leaves behind, with its new secret
  abbrev pub IsUp : String → C.World → Type 0
  IsUp oid w =
      (new_secret url : String) × (L.record_of w oid
        ≡ some (record {
          project_id = e.provision_project_id;
          region = e.provision_region;
          url = url;
          secret = new_secret;
        }))
      × (L.service_at w (own_name C e oid) ≡ some (worker e oid new_secret))
      × SecretIsGiven new_secret (static_values "LC_SHARED_SECRET" e.service_definition.env)
          (values_of "LC_SHARED_SECRET" (worker e oid new_secret).env)
      × ((before : List Binding) × (L.bindings_at w (own_name C e oid) ≡ before ++ (everyone ∷ [])))

  worker_secret :
      (oid new_secret : String)
      → SecretIsGiven new_secret
          (static_values "LC_SHARED_SECRET" e.service_definition.env)
          (values_of "LC_SHARED_SECRET" (worker e oid new_secret).env)
  unfolding worker
  worker_secret oid new_secret =
      map-SecretIsGiven new_secret _ _ (
        (worker_env_lem oid new_secret "LC_SHARED_SECRET" e.service_definition.env).1
        ∙ append-nil _)

  create_with-IsUp :
      (oid new_secret : String) (w : C.World) {r : String × String} {w' : C.World}
      → create_with C e oid new_secret w ≡ (ok r, w')
      → IsUp oid w'
  unfolding create_with
  create_with-IsUp oid new_secret w h =
      let (op, w1, begun, rest) =
        context->>=-eq-ok "CreateService(): "
          (C.run_create_service (location C e e.provision_project_id e.provision_region)
            (generate_service_name C e oid) (worker e oid new_secret))
          _ w h in
      let (created, w2, waited, rest2) =
        context->>=-eq-ok "failed to wait for service creation: " (C.wait op) _ w1 rest in
      let (_, w3, stored, rest3) =
        >>=-eq-ok (store_service C e oid created new_secret) _ w2 rest2 in
      let (_, w4, shown, end) =
        context->>=-eq-ok "failed to make service public: "
          (make_service_public C e (own_name C e oid)) _ w3 rest3 in
      let put = store_service-eq-ok oid created new_secret w2 stored in
      let (bound, same_services, same_records) =
        make_service_public-eq-ok (own_name C e oid) w3 shown in
      let made = (L.create-service _ _ _ op created w w1 w2 begun waited).0 in
      let last : w4 ≡ _ = ap (λ x. x.1) end in
      subst (IsUp oid) last (
        new_secret,
        created.uri,
        ap (λ f. f oid) same_records ∙ L.put-record oid _ w2 w3 put,
        ap (λ f. f (own_name C e oid))
              (same_services ∙ ap (λ x. L.service_at x.1) (sym put) ∙ L.put-services oid _ w2)
            ∙ made,
        worker_secret oid new_secret,
        bound,
      )

  -- Where createService succeeds: Datastore has a record for the OID, with the provisioning project
  -- and region, a URL and a secret; the service stands in that project and region under its name,
  -- as the worker with that same secret; and its last binding lets everyone call it. If the
  -- environment of the service's definition sets LC_SHARED_SECRET, that of the worker has the secret
  -- there, each time; if it does not, as in the README's example, the worker gets no
  -- LC_SHARED_SECRET at all, though the README says that it is set.
  pub create_service-IsUp :
      (oid : String) (w : C.World) {r : String × String} {w' : C.World}
      → create_service C e oid w ≡ (ok r, w')
      → IsUp oid w'
  unfolding create_service with_uuid
  create_service-IsUp oid w h =
      let (_, v, _, rest) = context->>=-eq-ok "NewServicesClient(): " C.new_services_client _ w h in
      create_with-IsUp oid (C.new_uuid v).0 (C.new_uuid v).1 rest
