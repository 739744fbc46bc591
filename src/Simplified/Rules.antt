-- ===== src/Simplified/Rules.antt =====
-- simplified/dr.go: an extension that keeps detection and response rules in Hive as a callback
-- wants them. This module has what an update plans.
pub mod Rewriting
pub mod Update
pub mod Events
pub mod Described
pub mod Suppression
pub mod Applied
pub mod Sync
mod Elsewhere
pub mod Everywhere
pub mod TagSets
pub mod Panics
pub mod Again
pub mod Reports
use lc_extension.Base.{
  String, ◌<>◌, ◌==◌, Bool, true, false, not, List, [], ◌∷◌, ◌++◌, Option, none, some, has_text,
  if◌then◌else◌,
}
use lc_extension.Base.GoMap.{GoMap, lookup}
use lc_extension.Base.Effect.{Result, ok, err}
use lc_extension.Common.Value.{
  Value, Values, Fields, Dict, nil, bool, number, text, texts, list, object, dict, empty, item, end,
  field, get,
}
use lc_extension.Simplified.Rules.Rewriting.{
  Rewritten, not_rewritten, rewritten, panicking, add_suppression,
}

pub record RuleInfo : Type 0 where
  pub tags : List String
  pub payload : Dict

-- RuleData: the rules by namespace and name
abbrev pub RuleData : Type 0
RuleData = GoMap (GoMap RuleInfo)

-- ruleConfig
pub record RuleConfig : Type 0 where
  pub disable_by_default : Bool
  pub global_suppression_time : String

-- A record of a Hive as List gives it: the data and, of the user's metadata, the tags and `Enabled`.
pub record HiveRecord : Type 0 where
  pub payload : Dict
  pub enabled : Bool
  pub tags : List String

-- limacharlie.RecordID
pub record RecordId : Type 0 where
  pub hive : String
  pub partition : String
  pub name : String

-- What is put into a batch.
pub data Operation : Type 0 where
  set_record : RecordId → HiveRecord → Operation
  del_record : RecordId → Operation

-- encoding/json: the text of a dictionary, a copy by ImportFromStruct, and what List decodes of the
-- data of a record that Set encoded (a number comes back as a float64).
pub record Json : Type 0 where
  pub read_back : Dict → Dict
  pub marshal : Dict → Result String
  pub import_from_struct : Dict → Result Dict

-- mergeTags. Go leaves the order of the result open; here it is that of the first occurrence.
unfoldable pub add_tags : List String → List String → List String
add_tags known [] = known
add_tags known (t ∷ ts) = add_tags (if has_text known t then known else known ++ (t ∷ [])) ts

unfoldable pub merge_tags : String → List String → List String → List String
unfolding add_tags
merge_tags tag t1 t2 = add_tags (add_tags (tag ∷ []) t1) t2

module _ (J : Json) where
  -- areEqual
  unfoldable pub same_text : Result String → Result String → Bool
  same_text (ok s) (ok t) = s == t
  same_text _ _ = false

  unfoldable pub are_equal : Dict → Dict → Bool
  unfolding same_text
  are_equal d1 d2 = same_text (J.marshal d1) (J.marshal d2)

  -- `ruleToSet`; `none` is a panic.
  after_suppression : Dict → Rewritten → Option Dict
  after_suppression original not_rewritten = some original
  after_suppression original (rewritten fs) = some (some fs)
  after_suppression original panicking = none

  copied : String → Dict → Result Dict → Option Dict
  copied suppression_time original (err e) = some original
  copied suppression_time original (ok copy) =
      after_suppression original (add_suppression copy suppression_time)

  unfoldable pub rule_to_set : String → Dict → Option Dict
  unfolding after_suppression copied
  rule_to_set suppression_time payload =
      if suppression_time == ""
      then some payload
      else copied suppression_time payload (J.import_from_struct payload)

  -- What one update needs to know: the extension's tag, the organization, the Hive, whether rules
  -- are disabled by default, and the time of suppression.
  pub record Target : Type 0 where
    pub tag : String
    pub oid : String
    pub hive_name : String
    pub disable_by_default : Bool
    pub suppression_time : String

  module _ (g : Target) where
    abbrev pub record_id : String → RecordId
    record_id name = record { hive = g.hive_name; partition = g.oid; name = name }

    -- The record of a rule
    abbrev pub wanted : RuleInfo → Dict → HiveRecord
    wanted info payload = record {
      payload = payload;
      enabled = not g.disable_by_default;
      tags = merge_tags g.tag info.tags [];
    }

    -- A rule that is not in Hive is added, one that differs is updated.
    unfoldable pub consider : String → RuleInfo → Dict → Option HiveRecord → List Operation
    consider name info payload none = set_record (record_id name) (wanted info payload) ∷ []
    consider name info payload (some existing) =
        if not (are_equal payload existing.payload)
        then set_record (record_id name) (wanted info payload) ∷ []
        else []

    unfoldable pub joined : List Operation → Option (List Operation) → Option (List Operation)
    joined ops none = none
    joined ops (some more) = some (ops ++ more)

    unfoldable pub considered :
        String
        → RuleInfo
        → Option Dict
        → Option HiveRecord
        → Option (List Operation)
        → Option (List Operation)
    considered name info none existing more = none
    considered name info (some payload) existing more =
        joined (consider name info payload existing) more

    -- The loop over the rules
    unfoldable pub plan_sets : GoMap RuleInfo → GoMap HiveRecord → Option (List Operation)
    unfolding considered joined
    plan_sets [] existing = some []
    plan_sets ((name, info) ∷ rules) existing =
        considered name info (rule_to_set g.suppression_time info.payload) (lookup name existing)
          (plan_sets rules existing)

    -- The loop over what is in Hive: what is not wanted is deleted if it has the tag.
    unfoldable pub is_wanted : GoMap RuleInfo → String → Bool
    is_wanted rules name = elim (lookup name rules) [ none ↦ false | some _ ↦ true ]

    unfoldable pub plan_dels : GoMap RuleInfo → GoMap HiveRecord → List Operation
    unfolding is_wanted
    plan_dels rules [] = []
    plan_dels rules ((name, found) ∷ existing) =
        let rest = plan_dels rules existing in
        if is_wanted rules name
        then rest
        else if has_text found.tags g.tag
        then del_record (record_id name) ∷ rest
        else rest

    unfoldable pub then_dels : Option (List Operation) → List Operation → Option (List Operation)
    then_dels none dels = none
    then_dels (some sets) dels = some (sets ++ dels)

    -- What onUpdate puts into the batch for one namespace; `none` is a panic.
    unfoldable pub plan_update : GoMap RuleInfo → GoMap HiveRecord → Option (List Operation)
    unfolding then_dels
    plan_update rules existing = then_dels (plan_sets rules existing) (plan_dels rules existing)
