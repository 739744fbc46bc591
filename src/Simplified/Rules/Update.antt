-- ===== src/Simplified/Rules/Update.antt =====
-- The callbacks of a rule extension: onUpdate, and the validation of its configuration. The logger
-- is not modelled.
use lc_extension.Base.{
  ℕ, String, ◌<>◌, ◌==◌, ◌*◌, Bool, true, false, List, [], ◌∷◌, ◌++◌, Option, none, some, ltb,
  if◌then◌else◌,
}
use lc_extension.Base.GoMap.{GoMap}
use lc_extension.Base.Effect.{Result, ok, err, Action}
use lc_extension.Common.Value.{Value, Dict}
use lc_extension.Common.Schema.{ℤ, pos, negsuc, decimal_int}
use lc_extension.Common.Messages.{Response, empty_response}
use lc_extension.Core.Extension.{Handler, Called, returned, crashed, return_of}
use lc_extension.Simplified.Rules.{
  RuleInfo, RuleData, RuleConfig, HiveRecord, RecordId, Operation, Json, Target, plan_update,
}

-- The metadata of a record, as ListMtd gives it
abbrev pub Tags : Type 0
Tags = List String

-- The SDK's Hive of an organization, JSON, time.ParseDuration in nanoseconds, strconv.Atoi, and the
-- callbacks that the extension was made with.
pub record RuleService : Type 1 where
  pub World : Type 0
  pub Org : Type 0
  pub get_oid : Org → String
  pub json : Json
  pub rule_config : Dict → Result RuleConfig
  -- UnMarshalToStruct into a `ruleUpdateRequest`
  pub rule_update_request : Dict → Result Value
  pub parse_duration : String → Result ℤ
  pub atoi : String → Option ℤ
  pub get_rules : Action World RuleData
  pub list_records : Org → String → Action World (GoMap HiveRecord)
  pub list_tags : Org → String → Action World (GoMap Tags)
  pub add_record : Org → RecordId → HiveRecord → Action World (Unit {0})
  pub remove_record : Org → RecordId → Action World (Unit {0})
  -- the errors of the operations, "" for none
  pub execute : Org → List Operation → Action World (List String)
  -- EventHandlers, by the name of the event
  pub event_handlers : GoMap (Handler World Org)

abbrev pub error_only : String → Response
error_only e = record empty_response { error = e }

abbrev pub second : ℕ
second = 1000000000

-- `d < n` and `d > n`, for a duration and a number that is not negative
abbrev pub is_below : ℕ → ℤ → Bool
is_below n (pos d) = ltb d n
is_below n (negsuc d) = true

abbrev pub is_above : ℕ → ℤ → Bool
is_above n (pos d) = ltb n d
is_above n (negsuc d) = false

module _ (S : RuleService) (name : String) where
  -- `l.tag`
  abbrev pub own_tag : String
  own_tag = "ext:" <> name

  -- shimSuppressionTime
  unfoldable pub hours : Option ℤ → String
  hours none = ""
  hours (some i) = decimal_int i <> "h"

  unfoldable pub shim_parsed : String → Result ℤ → String
  shim_parsed st (err _) = hours (S.atoi st)
  shim_parsed st (ok d) = if is_below second d then "" else st

  unfoldable pub shim_suppression_time : String → String
  unfolding shim_parsed hours
  shim_suppression_time st = if st == "" then "" else shim_parsed st (S.parse_duration st)

  -- The callback ValidateConfig
  unfoldable pub validate_duration : Result ℤ → Response
  validate_duration (err e) = error_only ("invalid global suppression time: " <> e)
  validate_duration (ok d) =
      if is_above (24 * 3600 * second) d
      then error_only "global suppression time cannot be more than 24h"
      else if is_below second d
      then error_only "global suppression time cannot be less than 1s"
      else empty_response

  unfoldable pub validate_parsed : Result RuleConfig → Response
  validate_parsed (err e) = error_only e
  validate_parsed (ok c) =
      if c.global_suppression_time == ""
      then empty_response
      else validate_duration (S.parse_duration c.global_suppression_time)

  unfoldable pub validate_config : Dict → Response
  unfolding validate_parsed validate_duration
  validate_config config = validate_parsed (S.rule_config config)

  -- What onUpdate plans for a namespace
  abbrev pub target : S.Org → RuleConfig → String → Target S.json
  target o c namespace = record {
    tag = own_tag;
    oid = S.get_oid o;
    hive_name = "dr-" <> namespace;
    disable_by_default = c.disable_by_default;
    suppression_time = shim_suppression_time c.global_suppression_time;
  }

  -- `none` is a panic: what follows does not happen.
  unfoldable pub before :
      S.World
      → Option (List Operation)
      → Option (List Operation) × S.World
      → Option (List Operation) × S.World
  before w none rest = (none, w)
  before w (some ops) (none, w2) = (none, w2)
  before w (some ops) (some more, w2) = (some (ops ++ more), w2)

  unfoldable pub listed :
      S.Org
      → RuleConfig
      → String
      → GoMap RuleInfo
      → Result (GoMap HiveRecord) × S.World
      → Option (List Operation) × S.World
      → Option (List Operation) × S.World
  listed o c namespace rules (err e, w) rest = rest
  listed o c namespace rules (ok existing, w) rest =
      before w (plan_update S.json (target o c namespace) rules existing) rest

  -- The loop of onUpdate over the namespaces
  unfoldable pub gather :
      S.Org → RuleConfig → RuleData → S.World → Option (List Operation) × S.World
  unfolding listed before
  gather o c [] w = (some [], w)
  gather o c ((namespace, rules) ∷ more) w =
      let existing = S.list_records o ("dr-" <> namespace) w in
      listed o c namespace rules existing (gather o c more existing.1)

  unfoldable pub executed : Result (List String) × S.World → Response × S.World
  executed (ok _, w) = (empty_response, w)
  executed (err e, w) = (error_only e, w)

  unfoldable pub run_batch : S.Org → Option (List Operation) × S.World → Called S.World
  run_batch o (none, w) = crashed w
  run_batch o (some ops, w) = return_of (executed (S.execute o ops w))

  unfoldable pub with_rules : S.Org → RuleConfig → Result RuleData × S.World → Called S.World
  with_rules o c (err e, w) = returned (error_only e) w
  with_rules o c (ok rules, w) = run_batch o (gather o c rules w)

  unfoldable pub with_rule_config : S.Org → Result RuleConfig → S.World → Called S.World
  with_rule_config o (err e) w = returned (error_only e) w
  with_rule_config o (ok c) w = with_rules o c (S.get_rules w)

  -- onUpdate
  unfoldable pub on_update : S.Org → Dict → S.World → Called S.World
  unfolding with_rule_config with_rules run_batch executed
  on_update o config w = with_rule_config o (S.rule_config config) w
