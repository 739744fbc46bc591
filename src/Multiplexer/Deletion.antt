-- ===== src/Multiplexer/Deletion.antt =====
-- What deleteService takes away, and the events that come to it.
use mathlib.Core.Path.{subst}
use lc_extension.Base.{
  String, List, [], ◌∷◌, ◌++◌, ◌<>◌, ◌≡◌, refl, sym, ap, ◌∙◌, ◌<◌, ◌+◌, Bool, true, none, some, ltb,
  arith, eq_refl, contains,
}
use lc_extension.Base.GoMap.{lookup, erase, lookup-erase}
use lc_extension.Base.Effect.{
  Result, ok, err, Action, ok_inj, context, ◌>>◌, >>=-eq-ok, context->>=-eq-ok,
}
use lc_extension.Common.Messages.{Response, subscribe, unsubscribe}
use lc_extension.Core.Extension.{EventCallbackParams}
use lc_extension.Multiplexer.{ServiceDefinition, Cloud, Settings, Multiplexer, outside}
use lc_extension.Multiplexer.CloudLaws.{CloudLaws}
use lc_extension.Multiplexer.Services.{
  generate_service_name, full_name, get_service, cached, remember, forget, create_service,
  delete_service, service_cache_ttl,
}
use lc_extension.Multiplexer.Uncached.{IsUncached}
use lc_extension.Multiplexer.Forward.{forward_event}
use lc_extension.Multiplexer.Events.{
  failed_with, deleted, forwarded, service_created, on_generic_event,
}

outside-eq-ok :
    {W A : Type 0} (m : Action W A) (s : Multiplexer W) {a : A} {t : Multiplexer W}
    → outside m s ≡ (ok a, t)
    → m s.world ≡ (ok a, t.world)
outside-eq-ok m s h = ap (λ x. (x.0, x.1.world)) h

-- A creation that a subscription goes on behind: one that succeeded, or the service is there.
abbrev pub goes_on : Result (String × String) → Bool
goes_on (ok _) = true
goes_on (err cause) = contains cause "AlreadyExists"

module _ (C : Cloud) (L : CloudLaws C) (e : Settings) where
  get_service-eq-ok :
      (oid : String) (s : Multiplexer C.World) {def : ServiceDefinition} {t : Multiplexer C.World}
      → IsUncached s
      → service_cache_ttl < C.now s.world
      → get_service C e oid s ≡ (ok def, t)
      → (L.record_of s.world oid ≡ some def) × (L.deletions_at t.world ≡ L.deletions_at s.world)
  unfolding get_service cached remember
  get_service-eq-ok oid s zero_time late h =
      let old : ltb (s.last_service_update + service_cache_ttl) (C.now s.world) ≡ true =
        ground arith in
      let (found, u, got, kept) =
        context->>=-eq-ok "failed to get service: " (outside (C.datastore_get oid))
          (remember C e oid) (record s { service_cache = []; last_service_update = 0 })
          (rw old at h) in
      let read = outside-eq-ok (C.datastore_get oid) _ got in
      (
        L.get-record oid found s.world u.world read ∙ ap some (ok_inj (ap (λ x. x.0) kept)),
        ap (λ x. L.deletions_at x.1.world) (sym kept)
            ∙ ap (λ x. L.deletions_at x.1) (sym read)
            ∙ L.get-deletions oid s.world,
      )

  -- The deletion of an organization's service, that Datastore had as `def`, has begun, no other has,
  -- and the multiplexer has forgotten the service.
  abbrev pub IsLeaving :
      String → ServiceDefinition → Multiplexer C.World → Multiplexer C.World → Type 0
  IsLeaving oid def s t =
      (L.deletions_at t.world
        ≡ L.deletions_at s.world
          ++ (full_name C e def.project_id def.region (generate_service_name C e oid) ∷ []))
      × (L.record_of t.world oid ≡ none)
      × (lookup oid t.service_cache ≡ none)

  -- The three calls of deleteService behind getService
  abbrev rest_of : String → ServiceDefinition → Action (Multiplexer C.World) (Unit {0})
  rest_of oid def = do
    context "failed to delete service: " (
        outside (
          C.run_delete_service
            (full_name C e def.project_id def.region (generate_service_name C e oid))))
    context "failed to delete service from Datastore: " (outside (C.datastore_delete oid))
    forget C e oid

  rest_of-IsLeaving :
      (oid : String) (def : ServiceDefinition) (s : Multiplexer C.World) {t : Multiplexer C.World}
      → rest_of oid def s ≡ (ok tt, t)
      → IsLeaving oid def s t
  unfolding forget
  rest_of-IsLeaving oid def s h =
      let name = full_name C e def.project_id def.region (generate_service_name C e oid) in
      let (_, u, first, then_erased) =
        context->>=-eq-ok "failed to delete service: " (outside (C.run_delete_service name)) _ s
          h in
      let (_, v, second, forgotten) =
        context->>=-eq-ok "failed to delete service from Datastore: "
          (outside (C.datastore_delete oid)) (λ _. forget C e oid) u then_erased in
      let begun = outside-eq-ok (C.run_delete_service name) s first in
      let erased = outside-eq-ok (C.datastore_delete oid) u second in
      let same : record v { service_cache = erase oid v.service_cache } ≡ _ =
        ap (λ x. x.1) forgotten in
      subst (IsLeaving oid def s) same (
        ap (λ x. L.deletions_at x.1) (sym erased)
            ∙ L.erase-deletions oid u.world
            ∙ L.delete-service name s.world u.world begun,
        L.erase-record oid u.world v.world erased,
        lookup-erase oid oid v.service_cache ∙ ground (arith, eq_refl oid),
      )

  delete_service-IsLeaving :
      (oid : String) (s : Multiplexer C.World) {t : Multiplexer C.World}
      → IsUncached s
      → service_cache_ttl < C.now s.world
      → delete_service C e oid s ≡ (ok tt, t)
      → (def : ServiceDefinition) × (L.record_of s.world oid ≡ some def) × IsLeaving oid def s t
  unfolding delete_service
  delete_service-IsLeaving oid s zero_time late h =
      let (def, u, got, rest) = >>=-eq-ok (get_service C e oid) _ s h in
      let (_, v, client, deletions) =
        >>=-eq-ok (outside C.new_services_client) (λ _. rest_of oid def) u rest in
      let (recorded, same) = get_service-eq-ok oid s zero_time late got in
      let (begun, erased, forgotten) = rest_of-IsLeaving oid def v deletions in
      let unchanged : L.deletions_at v.world ≡ L.deletions_at s.world =
        ap (λ x. L.deletions_at x.1) (sym (outside-eq-ok C.new_services_client u client))
        ∙ L.client-deletions u.world
        ∙ same in
      let name = full_name C e def.project_id def.region (generate_service_name C e oid) in
      (
        def,
        recorded,
        (begun ∙ ap (λ (ds : List String). ds ++ (name ∷ [])) unchanged, erased, forgotten),
      )

  module _ (params : EventCallbackParams C.Org) where
    service_created-forwards :
        (x : Result (String × String)) (t : Multiplexer C.World)
        → goes_on x ≡ true
        → service_created C e subscribe params (x, t)
          ≡ forwarded C e subscribe params (forward_event C e subscribe params t)
    unfolding service_created
    service_created-forwards (ok _) t on = refl
    service_created-forwards (err cause) t there = rw there refl

    -- If a subscription cannot be forwarded to its service, whether that was created just now or
    -- was there already, and deleteService succeeds: the answer is the error of the forwarding, the
    -- deletion of just this service has begun (the code does not wait for its end), and its record
    -- in Datastore and its place in the cache are gone. The cache's time is the zero time, and the
    -- clock ten seconds past it.
    pub on_generic_event-rolls_back :
        (x : Result (String × String)) (cause : String) (s t u v : Multiplexer C.World)
        → outside (create_service C e (C.get_oid params.org)) s ≡ (x, t)
        → goes_on x ≡ true
        → forward_event C e subscribe params t ≡ (err cause, u)
        → IsUncached u
        → service_cache_ttl < C.now u.world
        → delete_service C e (C.get_oid params.org) u ≡ (ok tt, v)
        → (on_generic_event C e subscribe params s
            ≡ (failed_with ("failed to forward event: " <> cause), v))
          × ((def : ServiceDefinition) × (L.record_of u.world (C.get_oid params.org) ≡ some def)
              × IsLeaving (C.get_oid params.org) def u v)
    unfolding on_generic_event forwarded
    on_generic_event-rolls_back x cause s t u v creation on failed zero_time late deletion = (
      ap (service_created C e subscribe params) creation
          ∙ service_created-forwards x t on
          ∙ ap (forwarded C e subscribe params) failed
          ∙ ap (λ y. (failed_with ("failed to forward event: " <> cause), y.1)) deletion,
      delete_service-IsLeaving (C.get_oid params.org) u zero_time late deletion,
    )

    -- If an unsubscription is forwarded, and deleteService succeeds: the answer is that of the
    -- service, the deletion of just this service has begun (the code does not wait for its end), and
    -- its record in Datastore and its place in the cache are gone. The cache's time is the zero
    -- time, and the clock ten seconds past it.
    pub on_generic_event-unsubscribes :
        (r : Response) (s u v : Multiplexer C.World)
        → forward_event C e unsubscribe params s ≡ (ok r, u)
        → IsUncached u
        → service_cache_ttl < C.now u.world
        → delete_service C e (C.get_oid params.org) u ≡ (ok tt, v)
        → (on_generic_event C e unsubscribe params s ≡ (r, v))
          × ((def : ServiceDefinition) × (L.record_of u.world (C.get_oid params.org) ≡ some def)
              × IsLeaving (C.get_oid params.org) def u v)
    unfolding on_generic_event forwarded deleted
    on_generic_event-unsubscribes r s u v sent zero_time late deletion = (
      ap (forwarded C e unsubscribe params) sent ∙ ap (deleted C e unsubscribe params r) deletion,
      delete_service-IsLeaving (C.get_oid params.org) u zero_time late deletion,
    )
