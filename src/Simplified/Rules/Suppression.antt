-- ===== src/Simplified/Rules/Suppression.antt =====
-- The time of suppression, between the validation of a configuration and its use.
use lc_extension.Base.{
  String, ap, if◌then◌else◌, ◌*◌, ◌==◌, ◌≡◌, refl, Bool, true, false, inl, inr, Bool-cases, arith,
  eq_iff, append_not_empty,
}
use lc_extension.Base.Effect.{Result, ok, err}
use lc_extension.Common.Schema.{ℤ}
use lc_extension.Common.Value.{Dict}
use lc_extension.Common.Messages.{empty_response}
use lc_extension.Simplified.Rules.{RuleConfig}
use lc_extension.Simplified.Rules.Update.{
  RuleService, error_only, is_above, is_below, second, shim_parsed, shim_suppression_time,
  validate_duration, validate_parsed, validate_config,
}

-- The two tests of a duration, where no error comes of them
not_short :
    (long short : Bool)
    → (if long
        then error_only "global suppression time cannot be more than 24h"
        else if short
        then error_only "global suppression time cannot be less than 1s"
        else empty_response).error
      ≡ ""
    → short ≡ false
not_short true short h = cc
not_short false true h = cc
not_short false false h = refl

module _ (S : RuleService) (name : String) where
  shim_parsed-valid :
      (st : String) (d : Result ℤ)
      → (validate_duration S name d).error ≡ ""
      → shim_parsed S name st d ≡ st
  unfolding validate_duration shim_parsed
  shim_parsed-valid st (err e) h =
      absurd (append_not_empty "i" "nvalid global suppression time: " e h)
  shim_parsed-valid st (ok d) h =
      ap (λ b. if b then "" else st)
        (not_short (is_above (24 * 3600 * second) d) (is_below second d) h)

  -- A configuration that ValidateConfig accepts has its suppression time used just as it stands
  -- there: shimSuppressionTime neither drops it nor reads it as hours.
  pub validate_config-shim :
      (config : Dict) (c : RuleConfig)
      → S.rule_config config ≡ ok c
      → (validate_config S name config).error ≡ ""
      → shim_suppression_time S name c.global_suppression_time ≡ c.global_suppression_time
  unfolding validate_config validate_parsed shim_suppression_time
  validate_config-shim config c is accepted = elim (Bool-cases (c.global_suppression_time == "")) [
    | inl none ↦ ground (arith, eq_iff c.global_suppression_time "")
    | inr some ↦ ground (
      arith,
      shim_parsed-valid c.global_suppression_time (S.parse_duration c.global_suppression_time),
    )
  ]
