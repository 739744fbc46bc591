-- ===== src/Multiplexer/CloudLaws.antt =====
-- What the multiplexer relies on of Cloud Run and Datastore: what they hold, and what calls that
-- succeed do to it. A call that fails may have done anything to what it names.
use lc_extension.Base.{String, ◌<>◌, ◌≡◌, List, [], ◌∷◌, ◌++◌, Option, none, some}
use lc_extension.Base.Effect.{ok}
use lc_extension.Multiplexer.{
  ServiceDefinition, CloudService, Binding, Policy, CreatedService, Cloud,
}

pub record CloudLaws (C : Cloud) : Type 0 where
  -- the services and their bindings by full name, and the records by OID
  pub service_at : C.World → String → Option CloudService
  pub bindings_at : C.World → String → List Binding
  pub record_of : C.World → String → Option ServiceDefinition
  -- the services whose deletion Cloud Run was asked for and has accepted, in that order
  pub deletions_at : C.World → List String
  pub client-services : (w : C.World) → service_at (C.new_services_client w).1 ≡ service_at w
  pub client-records : (w : C.World) → record_of (C.new_services_client w).1 ≡ record_of w
  pub create-service :
      (parent id : String) (service : CloudService) (op : C.Creation) (created : CreatedService)
      (w w1 w2 : C.World)
      → C.run_create_service parent id service w ≡ (ok op, w1)
      → C.wait op w1 ≡ (ok created, w2)
      → (service_at w2 (parent <> ("/services/" <> id)) ≡ some service)
        × (created.name ≡ parent <> ("/services/" <> id))
  -- DeleteService begins a long-running operation; that it is accepted says nothing of its end.
  pub delete-service :
      (name : String) (w w' : C.World)
      → C.run_delete_service name w ≡ (ok tt, w')
      → deletions_at w' ≡ deletions_at w ++ (name ∷ [])
  pub client-deletions : (w : C.World) → deletions_at (C.new_services_client w).1 ≡ deletions_at w
  pub put-record :
      (oid : String) (def : ServiceDefinition) (w w' : C.World)
      → C.datastore_put oid def w ≡ (ok tt, w')
      → record_of w' oid ≡ some def
  pub put-services :
      (oid : String) (def : ServiceDefinition) (w : C.World)
      → service_at (C.datastore_put oid def w).1 ≡ service_at w
  pub erase-record :
      (oid : String) (w w' : C.World)
      → C.datastore_delete oid w ≡ (ok tt, w')
      → record_of w' oid ≡ none
  pub erase-deletions :
      (oid : String) (w : C.World) → deletions_at (C.datastore_delete oid w).1 ≡ deletions_at w
  pub get-record :
      (oid : String) (def : ServiceDefinition) (w w' : C.World)
      → C.datastore_get oid w ≡ (ok def, w')
      → record_of w oid ≡ some def
  pub get-deletions :
      (oid : String) (w : C.World) → deletions_at (C.datastore_get oid w).1 ≡ deletions_at w
  pub policy-services :
      (name : String) (w : C.World) → service_at (C.get_iam_policy name w).1 ≡ service_at w
  pub policy-records :
      (name : String) (w : C.World) → record_of (C.get_iam_policy name w).1 ≡ record_of w
  pub set-bindings :
      (name : String) (policy : Policy) (w w' : C.World)
      → C.set_iam_policy name policy w ≡ (ok tt, w')
      → bindings_at w' name ≡ policy.bindings
  pub set-services :
      (name : String) (policy : Policy) (w : C.World)
      → service_at (C.set_iam_policy name policy w).1 ≡ service_at w
  pub set-records :
      (name : String) (policy : Policy) (w : C.World)
      → record_of (C.set_iam_policy name policy w).1 ≡ record_of w
