-- ===== src/Simplified/Commands/Ran.antt =====
-- Which command lines reach a tool, and what becomes of the others.
use lc_extension.Base.{
  String, ◌<>◌, ◌≡◌, refl, ◌⊎◌, inl, inr, ◌≤◌, Bool-cases, false, List, [], ◌∷◌, ◌++◌, Option, none,
  some, ltb, length, arith, ◌==◌, append_is_said,
}
use lc_extension.Base.GoMap.{GoMap}
use lc_extension.Base.Effect.{Result, ok, err}
use lc_extension.Common.Messages.{Response, is_retriable}
use lc_extension.Core.Extension.Delivery.{status_of}
use lc_extension.Core.Webhooks.{Senders, Clients}
use lc_extension.Simplified.Commands.{
  CliRunRequest, CliHandler, Instance, chosen_handler, tokens_of, log_and_answer, with_handler,
  with_tokens, stop_this_instance, do_run, byte_length, command_arguments_max_size,
  command_arguments_max_count, refused,
}

module _ (A : Senders) (shlex_split : String → Result (List String))
    (descriptors : GoMap (CliHandler A)) (name : String) (webhook_secret : String → String)
    (o : A.Org) (request : CliRunRequest) (ident inv_id : String) where
  -- The run was refused: no tool ran, no hook was sent, and LimaCharlie is told not to retry.
  abbrev pub Refuses : Clients A → Response × Clients A → Type 0
  Refuses s out = (out.1 ≡ s) × (status_of out.0 ≡ 400)

  -- The tool ran once, within the bounds, and its result was logged and answered.
  abbrev pub RanWithin : Clients A → Response × Clients A → Type 0
  RanWithin s out =
      (tokens : List String) × (h : CliHandler A) × (tokens_of A shlex_split descriptors name
          webhook_secret request
        ≡ ok tokens)
      × (chosen_handler A descriptors request.tool ≡ some h)
      × (byte_length request.command_line ≤ command_arguments_max_size)
      × (length tokens ≤ command_arguments_max_count)
      × (out
          ≡ log_and_answer A shlex_split descriptors name webhook_secret o
              (record request { command_tokens = tokens }) ident inv_id
              (h tokens request.credentials s))

  refused-Refuses :
      (message : String) (s : Clients A) → (message == "") ≡ false → Refuses s (refused message, s)
  unfolding is_retriable
  refused-Refuses message s said = (refl, rw said refl)

  with_handler-cases :
      (tokens : List String) (found : Option (CliHandler A)) (s : Clients A)
      → tokens_of A shlex_split descriptors name webhook_secret request ≡ ok tokens
      → byte_length request.command_line ≤ command_arguments_max_size
      → length tokens ≤ command_arguments_max_count
      → chosen_handler A descriptors request.tool ≡ found
      → let out =
          with_handler A shlex_split descriptors name webhook_secret o
            (record request { command_tokens = tokens })
            ident
            inv_id
            found
            s in
        Refuses s out ⊎ RanWithin s out
  unfolding with_handler
  with_handler-cases tokens none s parses short few unknown = inl (
      refused-Refuses ("unknown tool: " <> request.tool) s
        (append_is_said "u" "nknown tool: " request.tool))
  with_handler-cases tokens (some h) s parses short few known =
      inr (tokens, h, parses, known, short, few, refl)

  with_tokens-cases :
      (parsed : Result (List String)) (s : Clients A)
      → tokens_of A shlex_split descriptors name webhook_secret request ≡ parsed
      → let out =
          with_tokens A shlex_split descriptors name webhook_secret o request ident inv_id parsed
            s in
        Refuses s out ⊎ RanWithin s out
  unfolding with_tokens
  with_tokens-cases (err cause) s parses = inl (
      refused-Refuses ("failed to parse command line: " <> cause) s
        (append_is_said "f" "ailed to parse command line: " cause))
  with_tokens-cases (ok tokens) s parses =
      elim (Bool-cases (ltb command_arguments_max_size (byte_length request.command_line))) [
        | inl long ↦
            rw long
              (inl (refused-Refuses "command line is too long, max size is 10240 bytes" s refl))
        | inr short ↦
            rw short (elim (Bool-cases (ltb command_arguments_max_count (length tokens))) [
              | inl many ↦
                  rw many
                    (inl (refused-Refuses "command arguments are too long, max count is 50" s refl))
              | inr few ↦ rw few (
                  with_handler-cases tokens (chosen_handler A descriptors request.tool) s parses
                    (ground arith) (ground arith) refl)
            ])
      ]

  stop_this_instance_lem :
      (out : Response × Clients A) (i : Instance A)
      → Refuses i.clients out ⊎ RanWithin i.clients out
      → let ended = stop_this_instance A shlex_split descriptors name webhook_secret out i.stops in
        (ended.1.stops ≡ i.stops ++ (ended.0.error ∷ []))
        × (Refuses i.clients (ended.0, ended.1.clients)
            ⊎ RanWithin i.clients (ended.0, ended.1.clients))
  unfolding stop_this_instance
  stop_this_instance_lem (r, s) i cases = (refl, cases)

  -- Every run stops the instance once, with the error of its answer. Either it is refused: then
  -- nothing is sent, and the answer's status is 400, so it is not retried; or the tool that is
  -- chosen for the request runs once, on at most 50 tokens and with a command line of at most
  -- 10240 bytes, and its result is logged and answered.
  pub do_run-bounded :
      (i : Instance A)
      → let ended = do_run A shlex_split descriptors name webhook_secret o request ident inv_id i in
        (ended.1.stops ≡ i.stops ++ (ended.0.error ∷ []))
        × (Refuses i.clients (ended.0, ended.1.clients)
            ⊎ RanWithin i.clients (ended.0, ended.1.clients))
  unfolding do_run
  do_run-bounded i = stop_this_instance_lem _ i (
      with_tokens-cases (tokens_of A shlex_split descriptors name webhook_secret request) i.clients
        refl)
