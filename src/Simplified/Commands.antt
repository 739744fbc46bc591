-- ===== src/Simplified/Commands.antt =====
-- simplified/cli.go: an extension that runs command line tools. This module has the run of a
-- command; the instance stops after each run, which is a list of the errors that it stops with.
pub mod Output
pub mod Described
pub mod Ran
pub mod Anonymous
use Prim.Native.Char.{code}
use Prim.Native.String.{[], ◌∷◌}
use lc_extension.Base.{
  ℕ, ◌+◌, ◌*◌, String, ◌<>◌, ◌==◌, ◌&&◌, ◌||◌, not, Bool, true, false, List, ◌++◌, Option, none,
  some, ltb, decimal, length, contains, if◌then◌else◌,
}
use lc_extension.Base.GoMap.{GoMap, lookup}
use lc_extension.Base.Effect.{Result, ok, err}
use lc_extension.Common.Value.{
  Value, Values, Fields, Dict, nil, number, text, texts, list, dicts, object, dict, empty, item,
  end, field,
}
use lc_extension.Common.Schema.{ℤ}
use lc_extension.Common.Schema.{decimal_int}
use lc_extension.Common.Messages.{Response, value, empty_response}
use lc_extension.Core.Mask.{mask_secrets, mask_secrets_in_slice}
use lc_extension.Core.Webhooks.{Senders, Clients, send_to_webhook_adapter}

pub record CliReturnData : Type 0 where
  pub status_code : ℤ
  pub output_string : String
  pub output_dict : Dict
  pub output_list : List Dict

pub record CliRunRequest : Type 0 where
  pub command_line : String
  pub command_tokens : List String
  pub credentials : String
  pub tool : String

-- What a tool's error is: its text, whether it is errUnknownTool, and what errors.Is and errors.As
-- find in it
pub record ToolError : Type 0 where
  pub message : String
  pub is_unknown_tool : Bool
  pub is_deadline_exceeded : Bool
  pub is_canceled : Bool
  pub is_invalid_credentials : Bool
  pub is_command_error : Bool

abbrev pub plain_error : String → ToolError
plain_error message = record {
  message = message;
  is_unknown_tool = false;
  is_deadline_exceeded = false;
  is_canceled = false;
  is_invalid_credentials = false;
  is_command_error = false;
}

abbrev pub err_unknown_tool : ToolError
err_unknown_tool = record (plain_error "unknown tool") { is_unknown_tool = true }

-- NewCommandError, and ErrInvalidCredentials
unfoldable pub new_command_error : String → ToolError
new_command_error command = record (plain_error (command <> " command not allowed")) {
  is_command_error = true;
}

abbrev pub err_invalid_credentials : ToolError
err_invalid_credentials = record (plain_error "invalid credentials") {
  is_invalid_credentials = true;
}

-- commandArgumentsMaxSize and commandArgumentsMaxCount
abbrev pub command_arguments_max_size : ℕ
command_arguments_max_size = 1024 * 10

abbrev pub command_arguments_max_count : ℕ
command_arguments_max_count = 50

-- `len` of a Go string: its bytes in UTF-8
unfoldable pub byte_length : String → ℕ
byte_length [] = 0
byte_length (c ∷ t) =
    (if ltb (code c) 128
      then 1
      else if ltb (code c) 2048
      then 2
      else if ltb (code c) 65536
      then 3
      else 4)
    + byte_length t

-- isErrorRetriable, of an error that is not nil
unfoldable pub is_error_retriable : ToolError → Bool
is_error_retriable e =
    if e.is_deadline_exceeded
    then false
    else if e.is_canceled
    then false
    else if e.is_invalid_credentials
    then false
    else if e.is_command_error
    then false
    else if contains e.message "401"
    then false
    else if contains e.message "auth"
    then false
    else not (contains e.message "creds" || contains e.message "credentials")

-- Both structs as encoding/json writes them
abbrev pub dict_value : Dict → Value
dict_value none = nil
dict_value (some fs) = dict fs

unfoldable pub dict_values : List Dict → Values
dict_values List.[] = empty
dict_values (List.◌∷◌ d ds) = item (dict_value d) (dict_values ds)

abbrev pub return_value : CliReturnData → Value
return_value r = object (
    field "status_code" (number (decimal_int r.status_code)) (
      field "output_string" (text r.output_string) (
        field "output_dict" (dict_value r.output_dict)
          (field "output_list" (dicts (dict_values r.output_list)) end))))

abbrev pub request_value : CliRunRequest → Value
request_value r = object (
    field "command_line" (text r.command_line) (
      field "command_tokens" (texts r.command_tokens)
        (field "credentials" (text r.credentials) (field "tool" (text r.tool) end))))

-- The request as it is logged
unfoldable pub anonymized : CliRunRequest → CliRunRequest
anonymized r = record r {
  credentials = "REDACTED";
  command_line = mask_secrets r.command_line (List.◌∷◌ r.credentials List.[]);
  command_tokens = mask_secrets_in_slice r.command_tokens (List.◌∷◌ r.credentials List.[]);
}

-- What an error adds to the hook
unfoldable pub error_fields : CliReturnData → Option ToolError → Fields
error_fields r none = end
error_fields r (some e) =
    field "error" (text e.message)
      (if not e.is_unknown_tool then field "response" (return_value r) end else end)

unfoldable pub hook : CliRunRequest → String → String → CliReturnData → Option ToolError → Fields
unfolding anonymized error_fields
hook request ident inv_id r e = field "action" (text "run") (
    field "request" (request_value (anonymized request))
      (field "by" (text ident) (field "inv_id" (text inv_id) (error_fields r e))))

abbrev pub refused : String → Response
refused message = record empty_response { error = message; retriable = some false }

-- The answer to what a tool gave
unfoldable pub tool_response : CliReturnData → Option ToolError → Response
tool_response r none = record empty_response { payload = some (value (return_value r)) }
tool_response r (some e) = record empty_response {
  payload = some (value (return_value r));
  error = e.message;
  retriable = some (is_error_retriable e);
}

-- `len(request.CommandTokens) == 0`
abbrev pub no_tokens : List String → Bool
no_tokens List.[] = true
no_tokens _ = false

module _ (A : Senders) where
  -- ProcessCommand gives a value along with an error.
  abbrev pub CliHandler : Type 0
  CliHandler = List String → String → Clients A → (CliReturnData × Option ToolError) × Clients A

  -- A run changes the clients of the webhook adapter, and ends the instance.
  pub record Instance : Type 0 where
    pub clients : Clients A
    pub stops : List String

  -- The only tool, or the one that the request names
  unfoldable pub chosen_handler : GoMap CliHandler → String → Option CliHandler
  chosen_handler (List.◌∷◌ (_, h) List.[]) tool = some h
  chosen_handler descriptors tool = lookup tool descriptors

  module _ (shlex_split : String → Result (List String)) (descriptors : GoMap CliHandler)
      (name : String) (webhook_secret : String → String) where
    -- The tokens of a request, from its command line if it has none
    unfoldable pub tokens_of : CliRunRequest → Result (List String)
    tokens_of request =
        if no_tokens request.command_tokens && not (request.command_line == "")
        then shlex_split request.command_line
        else ok request.command_tokens

    -- Behind the tool: the hook is sent, and an error of that is only logged.
    unfoldable pub log_and_answer :
        A.Org
        → CliRunRequest
        → String
        → String
        → (CliReturnData × Option ToolError) × Clients A
        → Response × Clients A
    log_and_answer o request ident inv_id ((r, e), s) = (
      tool_response r e,
      (send_to_webhook_adapter A name webhook_secret o (dict (hook request ident inv_id r e)) s).1,
    )

    unfoldable pub with_handler :
        A.Org
        → CliRunRequest
        → String
        → String
        → Option CliHandler
        → Clients A
        → Response × Clients A
    unfolding log_and_answer
    with_handler o request ident inv_id none s = (refused ("unknown tool: " <> request.tool), s)
    with_handler o request ident inv_id (some h) s =
        log_and_answer o request ident inv_id (h request.command_tokens request.credentials s)

    -- Behind the tokens: the bounds, and the tool
    unfoldable pub with_tokens :
        A.Org
        → CliRunRequest
        → String
        → String
        → Result (List String)
        → Clients A
        → Response × Clients A
    unfolding with_handler
    with_tokens o request ident inv_id (err cause) s =
        (refused ("failed to parse command line: " <> cause), s)
    with_tokens o request ident inv_id (ok tokens) s =
        if ltb command_arguments_max_size (byte_length request.command_line)
        then (refused ("command line is too long, max size is 10240 bytes"), s)
        else if ltb command_arguments_max_count (length tokens)
        then (refused ("command arguments are too long, max count is 50"), s)
        else with_handler o (record request { command_tokens = tokens }) ident inv_id
            (chosen_handler descriptors request.tool) s

    -- stopThisInstance, deferred: it reads the error of the answer.
    unfoldable pub stop_this_instance : Response × Clients A → List String → Response × Instance
    stop_this_instance (r, s) stops =
        (r, record { clients = s; stops = stops ++ List.◌∷◌ r.error List.[] })

    -- CLIExtension.doRun
    unfoldable pub do_run : A.Org → CliRunRequest → String → String → Instance → Response × Instance
    unfolding tokens_of with_tokens stop_this_instance
    do_run o request ident inv_id i =
        stop_this_instance (with_tokens o request ident inv_id (tokens_of request) i.clients)
          i.stops
