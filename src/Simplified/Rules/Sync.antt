-- ===== src/Simplified/Rules/Sync.antt =====
-- What an update leaves in the Hive of a namespace.
use mathlib.Core.Path.{subst}
use lc_extension.Base.{
  String, ◌==◌, ◌≡◌, refl, sym, ap, ◌∙◌, true, false, ◌&&◌, List, [], ◌∷◌, ◌++◌, Option, none, some,
  ◌⊎◌, inl, inr, Bool-cases, Option-cases, has_text, arith, eq_iff, if◌then◌else◌,
}
use lc_extension.Base.GoMap.{GoMap, lookup}
use lc_extension.Common.Value.{Dict}
use lc_extension.Simplified.Rules.{
  RuleInfo, HiveRecord, Operation, Json, Target, are_equal, rule_to_set, consider, considered,
  joined, plan_sets, is_wanted, plan_dels, then_dels, plan_update,
}
use lc_extension.Base.MapKeys.{UniqueKeys, lookup-absent}
use lc_extension.Simplified.Rules.Applied.{
  applied, applied-append, run, lookup-plan_dels, is_doomed_record, is_doomed-lookup, is_written,
  placed, consider-writes,
}

module _ (J : Json) (g : Target J) where
  -- The first rule of a plan that was made, and the rest of the plan
  pub plan_sets-cons :
      (name : String) (info : RuleInfo) (chosen : Option Dict) (found : Option HiveRecord)
      (more : Option (List Operation)) {sets : List Operation}
      → considered J g name info chosen found more ≡ some sets
      → (payload : Dict) × (rest : List Operation) × (chosen ≡ some payload)
        × (more ≡ some rest)
        × (consider J g name info payload found ++ rest ≡ sets)
  unfolding considered joined
  plan_sets-cons name info none found more h = cc
  plan_sets-cons name info (some payload) found none h = cc
  plan_sets-cons name info (some payload) found (some rest) h = (payload, rest, refl, refl, cc)

  run-split :
      (n : String) (first rest : List Operation) {sets : List Operation} (m : GoMap HiveRecord)
      → first ++ rest ≡ sets
      → lookup n (run J g sets m) ≡ lookup n (run J g rest (run J g first m))
  run-split n first rest m split =
      ap (λ ops. lookup n (run J g ops m)) (sym split)
      ∙ ap (λ t. lookup n t) (applied-append J.read_back g.hive_name g.oid first rest m)

  -- Names that are not wanted are not written.
  plan_sets-others :
      (rules : GoMap RuleInfo) (existing : GoMap HiveRecord) (sets : List Operation) (n : String)
      (m : GoMap HiveRecord)
      → plan_sets J g rules existing ≡ some sets
      → lookup n rules ≡ none
      → lookup n (run J g sets m) ≡ lookup n m
  unfolding plan_sets lookup applied
  plan_sets-others [] existing sets n m h absent =
      subst (λ ops. lookup n (run J g ops m) ≡ lookup n m) (let e : [] ≡ sets = cc in e) refl
  plan_sets-others ((name, info) ∷ rules) existing sets n m h absent =
      let (payload, rest, chosen, more, split) = plan_sets-cons name info _ _ _ h in
      let found = lookup name existing in
      let first = consider J g name info payload found in
      run-split n first rest m split
      ∙ plan_sets-others rules existing rest n (run J g first m) more (ground arith)
      ∙ consider-writes J g name info payload found n m
      ∙ ground arith

  -- What becomes of a name, by what is wanted under it and what was there.
  abbrev pub AsWanted : Option RuleInfo → Option HiveRecord → Option HiveRecord → Type 0
  AsWanted none none now = now ≡ none
  AsWanted none (some r) now = now ≡ (if has_text r.tags g.tag then none else some r)
  AsWanted (some info) before now =
      (payload : Dict) × (r : HiveRecord) × (rule_to_set J g.suppression_time info.payload
        ≡ some payload)
      × (now ≡ some r)
      × ((r ≡ placed J g info payload)
          ⊎ ((before ≡ some r) × (are_equal J payload r.payload ≡ true)))

  -- What a rule that is considered leaves under its name
  abbrev Left : RuleInfo → Option HiveRecord → Option HiveRecord → Type 0
  Left info before now =
      (payload : Dict) × (rule_to_set J g.suppression_time info.payload ≡ some payload)
      × (now ≡ (if is_written J g payload before then some (placed J g info payload) else before))

  Left-AsWanted :
      (info : RuleInfo) (before now : Option HiveRecord)
      → Left info before now
      → AsWanted (some info) before now
  Left-AsWanted info none now (payload, chosen, left) =
      (payload, placed J g info payload, chosen, left, inl refl)
  Left-AsWanted info (some r) now (payload, chosen, left) =
      elim (Bool-cases (are_equal J payload r.payload)) [
        | inl same ↦ (payload, r, chosen, left ∙ ground arith, inr (refl, same))
        | inr differs ↦ (payload, placed J g info payload, chosen, left ∙ ground arith, inl refl)
      ]

  -- A rule that was written under its own name
  written-here :
      (name n : String) (info' info : RuleInfo) (payload : Dict) (existing m : GoMap HiveRecord)
      → name == n ≡ true
      → name ≡ n
      → info' ≡ info
      → lookup n m ≡ lookup n existing
      → (if is_written J g payload (lookup name existing) && name == n
          then some (placed J g info' payload)
          else lookup n m)
        ≡ (if is_written J g payload (lookup n existing)
            then some (placed J g info payload)
            else lookup n existing)
  written-here name n info' info payload existing m here name_is rule_is same = ground (
    arith,
    ap (λ k. is_written J g payload (lookup k existing)) name_is,
    ap (λ i. placed J g i payload) rule_is,
  )

  plan_sets-Left :
      (rules : GoMap RuleInfo) (existing : GoMap HiveRecord) (sets : List Operation) (n : String)
      (m : GoMap HiveRecord) (info : RuleInfo)
      → UniqueKeys rules
      → plan_sets J g rules existing ≡ some sets
      → lookup n rules ≡ some info
      → lookup n m ≡ lookup n existing
      → Left info (lookup n existing) (lookup n (run J g sets m))
  unfolding plan_sets lookup
  plan_sets-Left [] existing sets n m info unique h is same = cc
  plan_sets-Left ((name, info') ∷ rules) existing sets n m info unique h is same =
      let (payload, rest, chosen, more, split) = plan_sets-cons name info' _ _ _ h in
      let found = lookup name existing in
      let first = consider J g name info' payload found in
      let writes = consider-writes J g name info' payload found n m in
      elim (Bool-cases (name == n)) [
        | inl here ↦
            let name_is : name ≡ n = ground (arith, eq_iff name n) in
            let rule_is : info' ≡ info = ground arith in
            (
              payload,
              subst (λ i. rule_to_set J g.suppression_time i.payload ≡ some payload) rule_is chosen,
              run-split n first rest m split
                  ∙ plan_sets-others rules existing rest n (run J g first m) more
                      (lookup-absent name n rules unique.0 name_is)
                  ∙ writes
                  ∙ written-here name n info' info payload existing m here name_is rule_is same,
            )
        | inr other ↦
            let (payload', chosen', left) =
              plan_sets-Left rules existing rest n (run J g first m) info unique.1 more
                (ground arith) (writes ∙ ground (arith, other, same)) in
            (payload', chosen', run-split n first rest m split ∙ left)
      ]

  is_wanted-some :
      (rules : GoMap RuleInfo) (n : String) {info : RuleInfo}
      → lookup n rules ≡ some info
      → is_wanted J g rules n ≡ true
  unfolding is_wanted
  is_wanted-some rules n h = ap (λ o. elim o [ none ↦ false | some _ ↦ true ]) h

  is_wanted-none :
      (rules : GoMap RuleInfo) (n : String) → lookup n rules ≡ none → is_wanted J g rules n ≡ false
  unfolding is_wanted
  is_wanted-none rules n h = ap (λ o. elim o [ none ↦ false | some _ ↦ true ]) h

  -- The deletions behind the rest
  pub plan-split :
      (sets : Option (List Operation)) (dels ops : List Operation)
      → then_dels J g sets dels ≡ some ops
      → (written : List Operation) × (sets ≡ some written) × (written ++ dels ≡ ops)
  unfolding then_dels
  plan-split none dels ops h = cc
  plan-split (some written) dels ops h = (written, refl, cc)

  lookup-plan :
      (rules : GoMap RuleInfo) (existing : GoMap HiveRecord) (sets ops : List Operation)
      (n : String)
      → UniqueKeys existing
      → sets ++ plan_dels J g rules existing ≡ ops
      → lookup n (run J g ops existing) ≡ (
          if is_doomed_record J g rules n (lookup n existing)
          then none
          else lookup n (run J g sets existing))
  lookup-plan rules existing sets ops n unique split =
      run-split n sets (plan_dels J g rules existing) existing split
      ∙ lookup-plan_dels J g rules existing n (run J g sets existing)
      ∙ ap (λ b. if b then none else lookup n (run J g sets existing))
          (is_doomed-lookup J g rules n existing unique)

  kept-AsWanted :
      (rules : GoMap RuleInfo) (n : String) (before now : Option HiveRecord)
      → is_wanted J g rules n ≡ false
      → now ≡ (if is_doomed_record J g rules n before then none else before)
      → AsWanted none before now
  kept-AsWanted rules n none now unwanted h = h
  kept-AsWanted rules n (some r) now unwanted h = h ∙ ground arith

  wanted-AsWanted :
      (rules : GoMap RuleInfo) (n : String) (before now left : Option HiveRecord) (info : RuleInfo)
      → is_wanted J g rules n ≡ true
      → now ≡ (if is_doomed_record J g rules n before then none else left)
      → Left info before left
      → AsWanted (some info) before now
  wanted-AsWanted rules n none now left info is h (payload, chosen, l) =
      Left-AsWanted info none now (payload, chosen, h ∙ l)
  wanted-AsWanted rules n (some r) now left info is h (payload, chosen, l) =
      Left-AsWanted info (some r) now (payload, chosen, h ∙ ground arith ∙ l)

  -- Where no name stands twice among the wanted rules or in the Hive, and planning does not panic:
  -- after the plan is executed, under every name that is wanted there is the rule that was chosen,
  -- as List gives back what was set, with the extension's tag, or the record that was there if it has the same text; a name that is
  -- not wanted is gone if its record had the extension's tag, and else as it was.
  pub plan-AsWanted :
      (rules : GoMap RuleInfo) (existing : GoMap HiveRecord) (ops : List Operation)
      → UniqueKeys rules
      → UniqueKeys existing
      → plan_update J g rules existing ≡ some ops
      → (n : String)
      → AsWanted (lookup n rules) (lookup n existing) (lookup n (run J g ops existing))
  unfolding plan_update
  plan-AsWanted rules existing ops unique_rules unique h n =
      let (sets, planned, split) = plan-split _ (plan_dels J g rules existing) ops h in
      let now = lookup-plan rules existing sets ops n unique split in
      elim (Option-cases (lookup n rules)) [
        | inl absent ↦
            subst (λ o. AsWanted o (lookup n existing) (lookup n (run J g ops existing)))
              (sym absent)
              (kept-AsWanted rules n (lookup n existing) _ (is_wanted-none rules n absent) (
                now
                ∙ ap (λ l. if is_doomed_record J g rules n (lookup n existing) then none else l)
                    (plan_sets-others rules existing sets n existing planned absent)))
        | inr (info, is) ↦
            subst (λ o. AsWanted o (lookup n existing) (lookup n (run J g ops existing))) (sym is)
              (wanted-AsWanted rules n (lookup n existing) _ _ info (is_wanted-some rules n is) now
                (plan_sets-Left rules existing sets n existing info unique_rules planned is refl))
      ]
