-- ===== src/Multiplexer/Events.antt =====
-- OnGenericRequest, OnGenericEvent and the callback ValidateConfig.
use lc_extension.Base.{String, ◌<>◌, ◌==◌, contains, if◌then◌else◌}
use lc_extension.Base.Effect.{Result, ok, err}
use lc_extension.Common.Value.{Dict}
use lc_extension.Common.Messages.{
  ActionName, EventName, Response, subscribe, unsubscribe, empty_response,
}
use lc_extension.Core.Extension.{
  RequestCallbackParams, EventCallbackParams, RequestData, Called, crashed, return_of, plain,
  decoded,
}
use lc_extension.Multiplexer.{ServiceDefinition, Cloud, Settings, Multiplexer, outside}
use lc_extension.Multiplexer.Services.{get_service, create_service, delete_service}
use lc_extension.Multiplexer.Forward.{forward_request, forward_event, forward_config_validation}

abbrev pub failed_with : String → Response
failed_with text = record empty_response { error = text }

module _ (C : Cloud) (e : Settings) where
  abbrev State : Type 0
  State = Multiplexer C.World

  -- The response, or the error as the response's
  unfoldable pub answer_or : String → Result Response × State → Response × State
  answer_or text (ok r, s) = (r, s)
  answer_or text (err cause, s) = (failed_with (text <> cause), s)

  -- Multiplexer.OnGenericRequest, by its request; one that is not a dictionary makes it panic.
  unfoldable pub requested :
      ActionName → RequestCallbackParams C.Org → RequestData → State → Called State
  unfolding answer_or
  requested action params (plain request) s =
      return_of
        (answer_or "failed to forward request: " (forward_request C e action params request s))
  requested action params (decoded v) s = crashed s

  unfoldable pub on_generic_request :
      ActionName → RequestCallbackParams C.Org → State → Called State
  unfolding requested
  on_generic_request action params s = requested action params params.request s

  unfoldable pub with_service : C.Org → Dict → Result ServiceDefinition × State → Response × State
  unfolding answer_or
  with_service o config (err cause, s) = (failed_with ("failed to get service: " <> cause), s)
  with_service o config (ok def, s) =
      answer_or "failed to forward config validation: "
        (forward_config_validation C e o def.url def.secret config s)

  -- The callback ValidateConfig
  unfoldable pub on_validate_config : C.Org → Dict → State → Response × State
  unfolding with_service
  on_validate_config o config s = with_service o config (get_service C e (C.get_oid o) s)

  module _ (event_name : EventName) (params : EventCallbackParams C.Org) where
    abbrev oid : String
    oid = C.get_oid params.org

    -- The end of an event: an unsubscription deletes the service.
    unfoldable pub deleted : Response → Result (Unit {0}) × State → Response × State
    deleted r (ok _, s) = (r, s)
    deleted r (err cause, s) = (failed_with ("failed to delete service: " <> cause), s)

    -- Behind the forwarding. Where a subscription cannot be forwarded, the service is deleted, and
    -- an error of that is passed over.
    unfoldable pub forwarded : Result Response × State → Response × State
    unfolding deleted
    forwarded (err cause, s) = (
      failed_with ("failed to forward event: " <> cause),
      if event_name == subscribe then (delete_service C e oid s).1 else s,
    )
    forwarded (ok r, s) =
        if event_name == unsubscribe then deleted r (delete_service C e oid s) else (r, s)

    -- Behind the creation of a service; one that is there already is no error.
    unfoldable pub service_created : Result (String × String) × State → Response × State
    unfolding forwarded
    service_created (ok _, s) = forwarded (forward_event C e event_name params s)
    service_created (err cause, s) =
        if contains cause "AlreadyExists"
        then forwarded (forward_event C e event_name params s)
        else (failed_with ("failed to create service: " <> cause), s)

    -- Multiplexer.OnGenericEvent
    unfoldable pub on_generic_event : State → Response × State
    unfolding service_created forwarded
    on_generic_event s =
        if event_name == subscribe
        then service_created (outside (create_service C e oid) s)
        else forwarded (forward_event C e event_name params s)
