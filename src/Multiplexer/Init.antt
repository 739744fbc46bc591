-- ===== src/Multiplexer/Init.antt =====
-- The package's `init`: a multiplexer is described by its environment and by a reference service.
use lc_extension.Base.{String, ◌<>◌, ◌==◌, false, List, [], ◌∷◌, Option, none, some, if◌then◌else◌}
use lc_extension.Base.GoMap.{GoMap, insert, keys}
use lc_extension.Base.Effect.{Result, ok, Action, pure, fail, context, ◌>>=◌, ◌>>◌}
use lc_extension.Common.Messages.{
  ActionName, EventName, Message, Response, Payload, SchemaRequestResponse, empty_message,
  subscribe, unsubscribe,
}
use lc_extension.Core.Extension.{
  Extension, RequestCallback, EventCallback, return_of, protocol_version,
}
use lc_extension.Multiplexer.{
  CloudRunServiceDefinition, Cloud, Settings, Multiplexer, initial_state,
}
use lc_extension.Multiplexer.Forward.{given, forward_http}
use lc_extension.Multiplexer.Events.{on_generic_request, on_generic_event, on_validate_config}

-- os.Getenv; the Datastore project of the metadata server, datastore.NewClient, the response's data
-- through encoding/json, and the definition of the service
pub record Surroundings (C : Cloud) : Type 0 where
  pub getenv : String → String
  pub metadata_project : Action C.World String
  pub datastore_client : String → Action C.World (Unit {0})
  pub decode_schema : Option Payload → Result SchemaRequestResponse
  pub decode_definition : String → Result CloudRunServiceDefinition

-- What `init` leaves in `Extension`
pub record Described (C : Cloud) : Type 0 where
  pub settings : Settings
  pub extension : Extension (Multiplexer C.World) C.Org
  pub reference_shared_secret : String
  pub state : Multiplexer C.World

module _ (C : Cloud) where
  -- The loop over RequestSchema
  unfoldable pub generic_requests :
      Settings → List ActionName → GoMap (RequestCallback (Multiplexer C.World) C.Org)
  generic_requests e [] = []
  generic_requests e (name ∷ names) =
      insert name (record { request_struct = none; callback = on_generic_request C e name })
        (generic_requests e names)

  unfoldable pub generic_event : Settings → EventName → EventCallback (Multiplexer C.World) C.Org
  generic_event e event params s = return_of (on_generic_event C e event params s)

  -- The loop over RequiredEvents
  unfoldable pub generic_events :
      Settings
      → List EventName
      → GoMap (EventCallback (Multiplexer C.World) C.Org)
      → GoMap (EventCallback (Multiplexer C.World) C.Org)
  generic_events e [] handlers = handlers
  generic_events e (event ∷ events) handlers =
      generic_events e events (insert event (generic_event e event) handlers)

  -- Subscribe and Unsubscribe are always there.
  unfoldable pub lifecycle_events : Settings → GoMap (EventCallback (Multiplexer C.World) C.Org)
  lifecycle_events e =
      (subscribe, generic_event e subscribe) ∷ (unsubscribe, generic_event e unsubscribe) ∷ []

  -- The extension with callbacks that pass everything on
  unfoldable pub multiplexer_extension :
      Settings → String → SchemaRequestResponse → Extension (Multiplexer C.World) C.Org
  unfolding generic_requests generic_events lifecycle_events generic_event
  multiplexer_extension e secret schema = record {
    extension_name = e.extension_name;
    secret_key = secret;
    callbacks = record {
      validate_config = some (λ o config s. return_of (on_validate_config C e o config s));
      request_handlers = generic_requests e (keys schema.request);
      event_handlers = generic_events e schema.required_events (lifecycle_events e);
      error_handler = some (λ message s. s);
    };
    views_schema = schema.views;
    config_schema = schema.config;
    request_schema = schema.request;
    required_events = schema.required_events;
    org_from_access = none;
    is_log_all_errors = false;
  }

  module _ (S : Surroundings C) where
    -- A variable that has to be set; a panic is an error here.
    unfoldable pub required : String → Action C.World String
    required name =
        if S.getenv name == "" then fail (name <> " is not set") else pure (S.getenv name)

    unfoldable pub datastore_project : Action C.World String
    datastore_project =
        if S.getenv "DATASTORE_PROJECT_ID" == ""
        then context "DATASTORE_PROJECT_ID not set and failed to auto-detect project ID: "
            S.metadata_project
        else pure (S.getenv "DATASTORE_PROJECT_ID")

    -- `if resp.Error != "" { panic(resp.Error) }`
    unfoldable pub check_answer : Response → Action C.World (Unit {0})
    check_answer r = if r.error == "" then pure tt else fail r.error

    abbrev schema_message : Message
    schema_message = record (empty_message protocol_version "") { schema_request = some tt }

    describe : String → String → Settings → SchemaRequestResponse → C.World → Described C
    describe secret ws e schema w = record {
      settings = e;
      extension = multiplexer_extension e secret schema;
      reference_shared_secret = ws;
      state = initial_state w;
    }

    -- The package's `init`
    unfoldable pub init : Action C.World (Described C)
    unfolding required datastore_project check_answer describe
    init = do
      rs ← required "LC_REFERENCE_SERVICE_URL"
      ws ← required "LC_REFERENCE_SHARED_SECRET"
      en ← required "LC_EXTENSION_NAME"
      secret ← required "LC_SHARED_SECRET"
      project ← required "PROVISION_PROJECT_ID"
      region ← required "PROVISION_REGION"
      ds ← datastore_project
      S.datastore_client ds
      body ← given C (C.marshal schema_message)
      r ← forward_http C ws rs body
      check_answer r
      schema ← given C (S.decode_schema r.payload)
      definition ← given C (S.decode_definition (S.getenv "SERVICE_DEFINITION"))
      λ w. (
        ok (
            describe secret ws
              (record {
                extension_name = en;
                provision_project_id = project;
                provision_region = region;
                service_definition = definition;
              })
              schema w),
        w,
      )
