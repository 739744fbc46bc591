-- ===== src/Simulator/Requests.antt =====
-- The senders of the simulator, one for each kind of message.
use lc_extension.Base.{ℕ, String, ◌<>◌, ◌==◌, Option, none, some, List, if◌then◌else◌}
use lc_extension.Base.GoMap.{GoMap}
use lc_extension.Base.Effect.{Result, ok, err}
use lc_extension.Common.Value.{Dict, empty_dict}
use lc_extension.Common.Messages.{
  Message, Response, ResourceState, SchemaRequestResponse, empty_message, subscribe, unsubscribe,
  update,
}
use lc_extension.Simulator.{
  Backend, Simulator, Reception, no_response, unreadable, received, protocol_version, get_config,
  make_org_access,
}
use lc_extension.Simulator.Send.{
  Raw, answer, failure, Parsed, parsed, unparsed, send_raw, send_and_parse,
  generate_idempotency_key,
}
use lc_extension.Simulator.Continue.{process_response, execute_continuation}

pub record RequestOptions : Type 0 where
  pub ident : String
  pub idempotency_key : String
  pub config : Dict
  pub resource_state : GoMap ResourceState
  pub investigation_id : String

pub record EventOptions : Type 0 where
  pub ident : String
  pub config : Dict
  pub payload : Dict
  pub idempotency_key : String

-- RequestResult, EventResult
pub record FullResult : Type 0 where
  pub response : Response
  pub status_code : ℕ

-- `&RequestOptions{}`, `&EventOptions{}`
abbrev pub no_request_options : RequestOptions
no_request_options = record {
  ident = "";
  idempotency_key = "";
  config = none;
  resource_state = List.[];
  investigation_id = "";
}

abbrev pub no_event_options : EventOptions
no_event_options = record { ident = ""; config = none; payload = none; idempotency_key = "" }

-- The levels of continuations: 0 to 10 from a new request, and one that may wrap around.
abbrev pub fuel : ℕ
fuel = 12

-- `if a != nil { a } else { b }`
abbrev pub or_else : Dict → Dict → Dict
or_else none d = d
or_else (some fs) d = some fs

module _ (B : Backend) where
  -- The key of the options, or a new one.
  unfoldable pub choose_key : String → Simulator B → String × Simulator B
  choose_key key s = if key == "" then generate_idempotency_key B s else (key, s)

  -- A message is sent, its response processed at level 0 and returned.
  unfoldable pub process_parsed :
      String → String → Parsed → Simulator B → Result FullResult × Simulator B
  process_parsed oid key (unparsed _ e) s = (err e, s)
  process_parsed oid key (parsed r status) s = (
    ok (record { response = r; status_code = status }),
    process_response B (execute_continuation B fuel) oid key 0 r s,
  )

  unfoldable pub send_and_process :
      String → String → Message → Simulator B → Result FullResult × Simulator B
  unfolding process_parsed
  send_and_process oid key m s = let (p, s') = send_and_parse B m s in process_parsed oid key p s'

  -- SendRequestFull
  unfoldable pub send_request_full :
      String → String → Dict → RequestOptions → Simulator B → Result FullResult × Simulator B
  unfolding choose_key send_and_process
  send_request_full oid action payload opts s =
      let config = or_else opts.config (get_config B s oid) in
      let (key, s') = choose_key opts.idempotency_key s in
      send_and_process oid key
        (record (empty_message protocol_version key) {
          request = some (record {
            org = make_org_access B s' oid opts.ident;
            action = action;
            payload = payload;
            config = config;
            resource_state = opts.resource_state;
            investigation_id = opts.investigation_id;
          });
        })
        s'

  -- SendEventFull
  unfoldable pub send_event_full :
      String → String → EventOptions → Simulator B → Result FullResult × Simulator B
  unfolding choose_key send_and_process
  send_event_full oid event_name opts s =
      let config = or_else opts.config (get_config B s oid) in
      let (key, s') = choose_key opts.idempotency_key s in
      send_and_process oid key
        (record (empty_message protocol_version key) {
          event = some (record {
            org = make_org_access B s' oid opts.ident;
            event_name = event_name;
            payload = or_else opts.payload empty_dict;
            config = config;
          });
        })
        s'

  unfoldable pub response_of : Result FullResult × Simulator B → Result Response × Simulator B
  response_of (ok r, s) = (ok r.response, s)
  response_of (err e, s) = (err e, s)

  -- SendRequest, SendEvent, and SendSubscribe, SendUnsubscribe, SendUpdate
  unfoldable pub send_request :
      String → String → Dict → RequestOptions → Simulator B → Result Response × Simulator B
  unfolding response_of
  send_request oid action payload opts s = response_of (send_request_full oid action payload opts s)

  unfoldable pub send_event :
      String → String → EventOptions → Simulator B → Result Response × Simulator B
  unfolding response_of
  send_event oid event_name opts s = response_of (send_event_full oid event_name opts s)

  unfoldable pub send_subscribe :
      String → EventOptions → Simulator B → Result Response × Simulator B
  unfolding send_event
  send_subscribe oid opts = send_event oid subscribe opts

  unfoldable pub send_unsubscribe :
      String → EventOptions → Simulator B → Result Response × Simulator B
  unfolding send_event
  send_unsubscribe oid opts = send_event oid unsubscribe opts

  unfoldable pub send_update : String → EventOptions → Simulator B → Result Response × Simulator B
  unfolding send_event
  send_update oid opts = send_event oid update opts

  -- `(status, err)` of a sender that does not read the answer
  unfoldable pub status_of_raw : Raw → ℕ × Option String
  status_of_raw (answer _ status) = (status, none)
  status_of_raw (failure status e) = (status, some e)

  -- SendHeartbeat
  unfoldable pub send_heartbeat : Simulator B → (ℕ × Option String) × Simulator B
  unfolding status_of_raw
  send_heartbeat s =
      let (key, s') = generate_idempotency_key B s in
      let (r, s'') =
        send_raw B (record (empty_message protocol_version key) { heart_beat = some tt }) s' in
      (status_of_raw r, s'')

  -- SendErrorReport
  unfoldable pub send_error_report :
      String → String → Simulator B → (ℕ × Option String) × Simulator B
  unfolding status_of_raw
  send_error_report oid error s =
      let (key, s') = generate_idempotency_key B s in
      let (r, s'') =
        send_raw B
          (record (empty_message protocol_version key) {
            error_report = some (record { error = error; oid = oid });
          })
          s' in
      (status_of_raw r, s'')

  -- SendConfigValidation; its response is not processed
  unfoldable pub send_config_validation :
      String → Dict → Simulator B → Result Response × Simulator B
  send_config_validation oid config s =
      let (key, s') = generate_idempotency_key B s in
      let (p, s'') =
        send_and_parse B
          (record (empty_message protocol_version key) {
            config_validation =
                some (record { org = make_org_access B s' oid ""; config = config });
          })
          s' in
      elim p [ unparsed _ e ↦ (err e, s'') | parsed r _ ↦ (ok r, s'') ]

  -- What SendSchemaRequest makes of a response.
  schema_of : Response → Result SchemaRequestResponse
  schema_of r =
      if r.error == ""
      then (elim (B.marshal_data r.payload) [
        | err e ↦ err ("failed to marshal schema data: " <> e)
        | ok raw ↦ elim (B.unmarshal_schema raw) [
          | err e ↦ err ("failed to unmarshal schema response: " <> e)
          | ok schema ↦ ok schema
        ]
      ])
      else err ("extension error: " <> r.error)

  -- SendSchemaRequest
  unfoldable pub send_schema_request : Simulator B → Result SchemaRequestResponse × Simulator B
  unfolding schema_of
  send_schema_request s =
      let (key, s') = generate_idempotency_key B s in
      let (p, s'') =
        send_and_parse B (record (empty_message protocol_version key) { schema_request = some tt })
          s' in
      elim p [ unparsed _ e ↦ (err e, s'') | parsed r _ ↦ (schema_of r, s'') ]

  status_of_reception : Reception → Result ℕ
  status_of_reception (no_response e) = err ("failed to send request: " <> e)
  status_of_reception (unreadable status _) = ok status
  status_of_reception (received status _) = ok status

  -- SendWithBadSignature; the body is not compressed, and what comes back is not read
  unfoldable pub send_with_bad_signature : Simulator B → Result ℕ × Simulator B
  unfolding status_of_reception
  send_with_bad_signature s =
      let (key, s') = generate_idempotency_key B s in
      elim (B.marshal (record (empty_message protocol_version key) { heart_beat = some tt })) [
        | err e ↦ (err ("failed to marshal message: " <> e), s')
        | ok payload ↦
            let (r, w) =
              B.post
                (record {
                  signature = "0000000000000000000000000000000000000000000000000000000000000000";
                  content_encoding = "";
                  body = payload;
                })
                s'.world in
            (status_of_reception r, record s' { world = w })
      ]
