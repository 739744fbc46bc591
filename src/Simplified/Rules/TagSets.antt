-- ===== src/Simplified/Rules/TagSets.antt =====
-- What a rule extension deletes by its tags.
use lc_extension.Base.{String, ◌≡◌, refl, [], ◌∷◌, inl, inr, Bool-cases, has_text, arith}
use lc_extension.Base.GoMap.{GoMap, lookup}
use lc_extension.Simplified.Rules.{RuleConfig, HiveRecord, plan_dels, is_wanted}
use lc_extension.Simplified.Rules.Update.{RuleService, Tags, target, own_tag}
use lc_extension.Simplified.Rules.Events.{removals}

-- The tags of records
pub tags_of : GoMap HiveRecord → GoMap Tags
tags_of [] = []
tags_of ((name, r) ∷ m) = (name, r.tags) ∷ tags_of m

module _ (S : RuleService) (name : String) where
  -- Unsubscribing deletes from a Hive just what an update that wants no rules deletes.
  pub removals-plan_dels :
      (o : S.Org) (c : RuleConfig) (namespace : String) (existing : GoMap HiveRecord)
      → let g = target S name o c namespace in
        removals S name g.oid g.hive_name (tags_of existing) ≡ plan_dels S.json g [] existing
  unfolding removals plan_dels is_wanted lookup tags_of
  removals-plan_dels o c namespace [] = refl
  removals-plan_dels o c namespace ((rule, r) ∷ existing) =
      elim (Bool-cases (has_text r.tags (own_tag S name))) [
        | inl ours ↦ ground (arith, removals-plan_dels o c namespace existing)
        | inr others ↦ ground (arith, removals-plan_dels o c namespace existing)
      ]
