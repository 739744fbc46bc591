-- ===== src/Simplified/Commands/Anonymous.antt =====
-- What the webhook adapter hears of a command's credentials.
use lc_extension.Base.{
  String, ◌≡◌, refl, true, false, List, [], ◌∷◌, Option, All, length, length-map,
}
use lc_extension.Common.Value.{get}
use lc_extension.Core.Mask.{occurs, mask_secrets_in_slice}
use lc_extension.Core.Mask.Hides.{is_maskable, mask_secrets-hides}
use lc_extension.Simplified.Commands.{
  CliReturnData, CliRunRequest, ToolError, request_value, anonymized, hook,
}

masked_slice-hides :
    (tokens : List String) (secret : String)
    → is_maskable secret ≡ true
    → All (λ t. occurs secret t ≡ false) (mask_secrets_in_slice tokens (secret ∷ []))
unfolding mask_secrets_in_slice
masked_slice-hides [] secret h = tt
masked_slice-hides (t ∷ tokens) secret h =
    ((mask_secrets-hides t (secret ∷ []) (h, tt)).0, masked_slice-hides tokens secret h)

-- The request in the hook of a run has the tool of the request and as many tokens; and if the
-- credentials are not empty and have no character of the redaction's text, they occur neither in
-- its command line nor in any of its tokens, and its credentials are the text REDACTED.
pub hook-hides :
    (request : CliRunRequest) (ident inv_id : String) (r : CliReturnData) (e : Option ToolError)
    → is_maskable request.credentials ≡ true
    → (logged : CliRunRequest) × (get "request" (hook request ident inv_id r e)
        ≡ request_value logged)
      × (logged.tool ≡ request.tool)
      × (length logged.command_tokens ≡ length request.command_tokens)
      × (logged.credentials ≡ "REDACTED")
      × (occurs request.credentials logged.command_line ≡ false)
      × All (λ t. occurs request.credentials t ≡ false) logged.command_tokens
unfolding hook anonymized get mask_secrets_in_slice
hook-hides request ident inv_id r e h = (
  anonymized request,
  refl,
  refl,
  length-map _ request.command_tokens,
  refl,
  (mask_secrets-hides request.command_line (request.credentials ∷ []) (h, tt)).0,
  masked_slice-hides request.command_tokens request.credentials h,
)
