-- ===== src/Multiplexer/Uncached.antt =====
-- The cache of services is never read: `lastServiceUpdate` keeps Go's zero time.
use lc_extension.Base.{
  ◌+◌, ◌<◌, String, ◌≡◌, refl, ap, ◌∙◌, ◌==◌, true, Bool-cases, inl, inr, Option, none, some, ltb,
  arith, contains,
}
use lc_extension.Base.GoMap.{lookup}
use lc_extension.Base.Effect.{Result, ok, err, Action, wrap, fail, on_result, context, ◌>>=◌}
use lc_extension.Common.Value.{Dict}
use lc_extension.Common.Messages.{ActionName, EventName, Response, subscribe, unsubscribe}
use lc_extension.Core.Extension.{
  state_after, RequestCallbackParams, EventCallbackParams, RequestData, plain, decoded,
}
use lc_extension.Multiplexer.{
  ServiceDefinition, Cloud, Settings, Multiplexer, initial_state, outside,
}
use lc_extension.Multiplexer.Services.{
  service_cache_ttl, cached, remember, forget, get_service, create_service, delete_service,
  generate_service_name, full_name,
}
use lc_extension.Multiplexer.Forward.{forward_request, forward_event, forward_config_validation}
use lc_extension.Multiplexer.Events.{
  answer_or, requested, on_generic_request, with_service, on_validate_config, deleted, forwarded,
  service_created, on_generic_event,
}

-- The cache has never been refreshed.
abbrev pub IsUncached : {W : Type 0} → Multiplexer W → Type 0
IsUncached s = s.last_service_update ≡ 0

module _ {W : Type 0} where
  abbrev Keeps {ℓ} : {A : Type ℓ} → Action (Multiplexer W) A → Type 0
  Keeps m = (s : Multiplexer W) → IsUncached s → IsUncached (m s).1

  on_result-Keeps {ℓ κ} :
      {A : Type ℓ} {B : Type κ} (r : Result A) (f : A → Action (Multiplexer W) B)
      → ((a : A) → Keeps (f a))
      → Keeps (on_result r f fail)
  on_result-Keeps (ok a) f k s h = k a s h
  on_result-Keeps (err e) f k s h = h

  >>=-Keeps {ℓ κ} :
      {A : Type ℓ} {B : Type κ} (m : Action (Multiplexer W) A) (f : A → Action (Multiplexer W) B)
      → Keeps m
      → ((a : A) → Keeps (f a))
      → Keeps (m >>= f)
  >>=-Keeps m f h k s u = on_result-Keeps (m s).0 f k (m s).1 (h s u)

module _ (C : Cloud) (e : Settings) where
  cached-Keeps : (oid : String) (found : Option ServiceDefinition) → Keeps (cached C e oid found)
  unfolding cached remember
  cached-Keeps oid (some def) s h = h
  cached-Keeps oid none s h =
      >>=-Keeps (context "failed to get service: " (outside (C.datastore_get oid)))
        (remember C e oid) (λ s h. h) (λ def s h. h) s h

  get_service-Keeps : (oid : String) → Keeps (get_service C e oid)
  unfolding get_service
  get_service-Keeps oid s h =
      elim (Bool-cases (ltb (s.last_service_update + service_cache_ttl) (C.now s.world))) [
        | inl old ↦ rw old (cached-Keeps oid none _ refl)
        | inr young ↦ rw young (cached-Keeps oid (lookup oid s.service_cache) s h)
      ]

  delete_service-Keeps : (oid : String) → Keeps (delete_service C e oid)
  unfolding delete_service forget
  delete_service-Keeps oid = >>=-Keeps (get_service C e oid) _ (get_service-Keeps oid) (λ def.
      >>=-Keeps (outside C.new_services_client) _ (λ s h. h)
        (λ _.
          >>=-Keeps
            (context "failed to delete service: " (
              outside (
                C.run_delete_service
                  (full_name C e def.project_id def.region (generate_service_name C e oid)))))
            _ (λ s h. h)
            (λ _.
              >>=-Keeps
                (context "failed to delete service from Datastore: "
                  (outside (C.datastore_delete oid)))
                (λ _. forget C e oid) (λ s h. h) (λ _ s h. h))))

  forward_event-Keeps :
      (event_name : EventName) (params : EventCallbackParams C.Org)
      → Keeps (forward_event C e event_name params)
  unfolding forward_event
  forward_event-Keeps event_name params =
      >>=-Keeps (context "failed to get service: " (get_service C e (C.get_oid params.org))) _
        (get_service-Keeps (C.get_oid params.org)) (λ def s h. h)

  forward_request-Keeps :
      (action : ActionName) (params : RequestCallbackParams C.Org) (request : Dict)
      → Keeps (forward_request C e action params request)
  unfolding forward_request
  forward_request-Keeps action params request =
      >>=-Keeps (context "failed to get service: " (get_service C e (C.get_oid params.org))) _
        (get_service-Keeps (C.get_oid params.org)) (λ def s h. h)

  module _ (event_name : EventName) (params : EventCallbackParams C.Org) where
    deleted-state :
        (r : Response) (x : Result (Unit {0}) × Multiplexer C.World)
        → (deleted C e event_name params r x).1 ≡ x.1
    unfolding deleted
    deleted-state r (ok _, s) = refl
    deleted-state r (err cause, s) = refl

    forwarded-Keeps :
        (x : Result Response × Multiplexer C.World)
        → IsUncached x.1
        → IsUncached (forwarded C e event_name params x).1
    unfolding forwarded
    forwarded-Keeps (err cause, s) h = elim (Bool-cases (event_name == subscribe)) [
      | inl start ↦ rw start (delete_service-Keeps (C.get_oid params.org) s h)
      | inr other ↦ rw other h
    ]
    forwarded-Keeps (ok r, s) h = elim (Bool-cases (event_name == unsubscribe)) [
      | inl stop ↦ rw stop (
          ap (λ t. t.last_service_update)
            (deleted-state r (delete_service C e (C.get_oid params.org) s))
          ∙ delete_service-Keeps (C.get_oid params.org) s h)
      | inr other ↦ rw other h
    ]

    service_created-Keeps :
        (x : Result (String × String) × Multiplexer C.World)
        → IsUncached x.1
        → IsUncached (service_created C e event_name params x).1
    unfolding service_created
    service_created-Keeps (ok _, s) h =
        forwarded-Keeps (forward_event C e event_name params s)
          (forward_event-Keeps event_name params s h)
    service_created-Keeps (err cause, s) h = elim (Bool-cases (contains cause "AlreadyExists")) [
      | inl there ↦ rw there (
          forwarded-Keeps (forward_event C e event_name params s)
            (forward_event-Keeps event_name params s h))
      | inr failed ↦ rw failed h
    ]

    on_generic_event-Keeps :
        (s : Multiplexer C.World)
        → IsUncached s
        → IsUncached (on_generic_event C e event_name params s).1
    unfolding on_generic_event
    on_generic_event-Keeps s h = elim (Bool-cases (event_name == subscribe)) [
      | inl start ↦
          rw start (service_created-Keeps (outside (create_service C e (C.get_oid params.org)) s) h)
      | inr other ↦ rw other (
          forwarded-Keeps (forward_event C e event_name params s)
            (forward_event-Keeps event_name params s h))
    ]

  answer_or-state :
      (text : String) (x : Result Response × Multiplexer C.World) → (answer_or C e text x).1 ≡ x.1
  unfolding answer_or
  answer_or-state text (ok r, s) = refl
  answer_or-state text (err cause, s) = refl

  with_service-Keeps :
      (o : C.Org) (config : Dict) (x : Result ServiceDefinition × Multiplexer C.World)
      → IsUncached x.1
      → IsUncached (with_service C e o config x).1
  unfolding with_service forward_config_validation
  with_service-Keeps o config (err cause, s) h = h
  with_service-Keeps o config (ok def, s) h =
      ap (λ t. t.last_service_update) (answer_or-state _ _) ∙ h

  -- What a multiplexer does, one call after another, a panic included, with the world changing in
  -- between
  pub data Serves (s : Multiplexer C.World) : Multiplexer C.World → Type 0 where
    start : Serves s s
    meanwhile :
        {t : Multiplexer C.World} (w : C.World) → Serves s t → Serves s (record t { world = w })
    handle_event :
        {t : Multiplexer C.World} (event_name : EventName) (params : EventCallbackParams C.Org)
        → Serves s t
        → Serves s (on_generic_event C e event_name params t).1
    handle_request :
        {t : Multiplexer C.World} (action : ActionName) (params : RequestCallbackParams C.Org)
        → Serves s t
        → Serves s (state_after (on_generic_request C e action params t))
    validate :
        {t : Multiplexer C.World} (o : C.Org) (config : Dict)
        → Serves s t
        → Serves s (on_validate_config C e o config t).1

  requested-Keeps :
      (action : ActionName) (params : RequestCallbackParams C.Org) (asked : RequestData)
      (t : Multiplexer C.World)
      → IsUncached t
      → IsUncached (state_after (requested C e action params asked t))
  unfolding requested
  requested-Keeps action params (plain asked) t h =
      ap (λ v. v.last_service_update) (answer_or-state _ _)
      ∙ forward_request-Keeps action params asked t h
  requested-Keeps action params (decoded v) t h = h

  Serves-IsUncached : {s t : Multiplexer C.World} → Serves s t → IsUncached s → IsUncached t
  unfolding on_validate_config on_generic_request
  Serves-IsUncached start h = h
  Serves-IsUncached (meanwhile w run) h = Serves-IsUncached run h
  Serves-IsUncached (handle_event {t} event_name params run) h =
      on_generic_event-Keeps event_name params t (Serves-IsUncached run h)
  Serves-IsUncached (handle_request {t} action params run) h =
      requested-Keeps action params params.request t (Serves-IsUncached run h)
  Serves-IsUncached (validate {t} o config run) h =
      with_service-Keeps o config (get_service C e (C.get_oid o) t)
        (get_service-Keeps (C.get_oid o) t (Serves-IsUncached run h))

  remembered :
      (oid : String) (r : Result ServiceDefinition) (s : Multiplexer C.World)
      → ((on_result (wrap "failed to get service: " r) (remember C e oid) fail s).0
          ≡ wrap "failed to get service: " r)
        × ((on_result (wrap "failed to get service: " r) (remember C e oid) fail s).1.world
            ≡ s.world)
  unfolding remember
  remembered oid (ok def) s = (refl, refl)
  remembered oid (err cause) s = (refl, refl)

  -- A multiplexer that has only done what a run from its start can do never answers from its cache:
  -- once the clock is ten seconds past Go's zero time, getService gives what Datastore gives for the
  -- OID at that moment, whatever was cached before, and asks Datastore every time.
  pub get_service-uncached :
      (w : C.World) {s : Multiplexer C.World} (oid : String)
      → Serves (initial_state w) s
      → service_cache_ttl < C.now s.world
      → ((get_service C e oid s).0 ≡ wrap "failed to get service: " (C.datastore_get oid s.world).0)
        × ((get_service C e oid s).1.world ≡ (C.datastore_get oid s.world).1)
  unfolding get_service cached
  get_service-uncached w {s} oid run late =
      let old : ltb (s.last_service_update + service_cache_ttl) (C.now s.world) ≡ true =
        let zero_time : s.last_service_update ≡ 0 = Serves-IsUncached run refl in ground arith in
      rw old (remembered oid (C.datastore_get oid s.world).0 _)
