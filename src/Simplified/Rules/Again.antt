-- ===== src/Simplified/Rules/Again.antt =====
-- A second update, with the same wanted rules, has nothing to do.
use mathlib.Core.Path.{subst}
use lc_extension.Base.{
  String, ◌==◌, ◌≡◌, refl, sym, ap, ◌∙◌, true, false, not, ◌&&◌, List, [], ◌∷◌, ◌++◌, All, Option,
  none, some, Bool-cases, inl, inr, has_text, arith, eq_iff, eq_refl, if◌then◌else◌,
}
use lc_extension.Base.Effect.{Result, ok}
use lc_extension.Base.GoMap.{GoMap, lookup}
use lc_extension.Common.Value.{Dict}
use lc_extension.Simplified.Rules.{
  RuleInfo, HiveRecord, Operation, set_record, del_record, Json, Target, same_text, are_equal,
  rule_to_set, record_id, wanted, consider, considered, joined, plan_sets, is_wanted, plan_dels,
  then_dels, plan_update,
}
use lc_extension.Base.MapKeys.{UniqueKeys, insert-UniqueKeys, erase-UniqueKeys, entries-lookup}
use lc_extension.Simplified.Rules.Applied.{
  given_back, apply_one, applied, run, is_doomed, is_doomed_record, is_doomed-lookup,
}
use lc_extension.Simplified.Rules.Sync.{AsWanted, plan-AsWanted}

apply_one-UniqueKeys :
    (read_back : Dict → Dict) (hive oid : String) (op : Operation) (m : GoMap HiveRecord)
    → UniqueKeys m
    → UniqueKeys (apply_one read_back hive oid op m)
unfolding apply_one
apply_one-UniqueKeys read_back hive oid (set_record id r) m h =
    elim (Bool-cases (id.hive == hive && id.partition == oid)) [
      | inl here ↦ rw here (insert-UniqueKeys id.name (given_back read_back r) m h)
      | inr there ↦ rw there h
    ]
apply_one-UniqueKeys read_back hive oid (del_record id) m h =
    elim (Bool-cases (id.hive == hive && id.partition == oid)) [
      | inl here ↦ rw here (erase-UniqueKeys id.name m h)
      | inr there ↦ rw there h
    ]

applied-UniqueKeys :
    (read_back : Dict → Dict) (hive oid : String) (ops : List Operation) (m : GoMap HiveRecord)
    → UniqueKeys m
    → UniqueKeys (applied read_back hive oid ops m)
unfolding applied
applied-UniqueKeys read_back hive oid [] m h = h
applied-UniqueKeys read_back hive oid (op ∷ ops) m h =
    applied-UniqueKeys read_back hive oid ops (apply_one read_back hive oid op m)
      (apply_one-UniqueKeys read_back hive oid op m h)

module _ (J : Json) (g : Target J)
    (marshals : (d : Dict) → (text : String) × (J.marshal d ≡ ok text))
    (reads_back : (d : Dict) → J.marshal (J.read_back d) ≡ J.marshal d) where
  are_equal-read_back : (d : Dict) → are_equal J d (J.read_back d) ≡ true
  unfolding are_equal same_text
  are_equal-read_back d =
      let (text, h) = marshals d in
      ap (same_text J (J.marshal d)) (reads_back d) ∙ ap (λ t. same_text J t t) h ∙ eq_refl text

  -- Data that counts as equal has one JSON text.
  same_text-marshal :
      (x y : Result String) {s t : String} → x ≡ ok s → y ≡ ok t → same_text J x y ≡ true → x ≡ y
  unfolding same_text
  same_text-marshal x y {s} {t} x_is y_is same =
      let st : (s == t) ≡ true =
        sym (ap (λ r. same_text J r y) x_is ∙ ap (same_text J (ok s)) y_is) ∙ same in
      x_is ∙ ap ok ((eq_iff s t).0 st) ∙ sym y_is

  are_equal-marshal : (d e : Dict) → are_equal J d e ≡ true → J.marshal d ≡ J.marshal e
  unfolding are_equal
  are_equal-marshal d e same =
      same_text-marshal (J.marshal d) (J.marshal e) (marshals d).1 (marshals e).1 same

  consider-same :
      (name : String) (info : RuleInfo) (payload : Dict) (r : HiveRecord) (now : Option HiveRecord)
      → now ≡ some r
      → are_equal J payload r.payload ≡ true
      → consider J g name info payload now ≡ []
  unfolding consider
  consider-same name info payload r now there same =
      ap (consider J g name info payload) there
      ∙ ap
          (λ b.
            if not b then set_record (record_id J g name) (wanted J g info payload) ∷ [] else [])
          same

  -- A rule that is in place is not written.
  consider-nothing :
      (name : String) (info : RuleInfo) (before now : Option HiveRecord)
      → AsWanted J g (some info) before now
      → (payload : Dict) × (rule_to_set J g.suppression_time info.payload ≡ some payload)
        × (consider J g name info payload now ≡ [])
  consider-nothing name info before now (payload, r, chosen, there, inl new) = (
    payload,
    chosen,
    consider-same name info payload r now there
        (ap (λ q. are_equal J payload q.payload) new ∙ are_equal-read_back payload),
  )
  consider-nothing name info before now (payload, r, chosen, there, inr (old, same)) =
      (payload, chosen, consider-same name info payload r now there same)

  -- What stands under the name of a rule has the text of what was chosen for it.
  AsWanted-marshal :
      (info : RuleInfo) (before now : Option HiveRecord)
      → AsWanted J g (some info) before now
      → (payload : Dict) × (r : HiveRecord) × (rule_to_set J g.suppression_time info.payload
          ≡ some payload)
        × (now ≡ some r)
        × (J.marshal r.payload ≡ J.marshal payload)
  AsWanted-marshal info before now (payload, r, chosen, there, inl new) =
      (payload, r, chosen, there, ap (λ q. J.marshal q.payload) new ∙ reads_back payload)
  AsWanted-marshal info before now (payload, r, chosen, there, inr (old, same)) =
      (payload, r, chosen, there, sym (are_equal-marshal payload r.payload same))

  plan_sets-nothing :
      (rules : GoMap RuleInfo) (before now : GoMap HiveRecord)
      → All (λ e. AsWanted J g (some e.1) (lookup e.0 before) (lookup e.0 now)) rules
      → plan_sets J g rules now ≡ some []
  unfolding plan_sets considered joined
  plan_sets-nothing [] before now h = refl
  plan_sets-nothing ((name, info) ∷ rules) before now h =
      let (payload, chosen, nothing) =
        consider-nothing name info (lookup name before) (lookup name now) h.0 in
      let rest = plan_sets-nothing rules before now h.1 in
      ap (λ o. considered J g name info o (lookup name now) (plan_sets J g rules now)) chosen
      ∙ ap (joined J g (consider J g name info payload (lookup name now))) rest
      ∙ ap (λ (ops : List Operation). some (ops ++ [])) nothing

  plan_dels-nothing :
      (rules : GoMap RuleInfo) (m : GoMap HiveRecord)
      → ((n : String) → is_doomed J g rules n m ≡ false)
      → plan_dels J g rules m ≡ []
  unfolding plan_dels is_doomed
  plan_dels-nothing rules [] h = refl
  plan_dels-nothing rules ((name, r) ∷ m) h =
      ground (arith, h name, eq_refl name, plan_dels-nothing rules m (λ n. ground (arith, h n)))

  -- A record that is still there under a name that is not wanted is not ours.
  not_doomed_now :
      (rules : GoMap RuleInfo) (n : String) (wants : Option RuleInfo)
      (before now : Option HiveRecord)
      → lookup n rules ≡ wants
      → AsWanted J g wants before now
      → is_doomed_record J g rules n now ≡ false
  unfolding is_wanted
  not_doomed_now rules n (some info) before none is h = refl
  not_doomed_now rules n (some info) before (some r) is h = ground (arith, is)
  not_doomed_now rules n none none now is h = ap (is_doomed_record J g rules n) h
  not_doomed_now rules n none (some r) now is h = elim (Bool-cases (has_text r.tags g.tag)) [
    | inl ours ↦
        let gone : now ≡ none = h ∙ ap (λ b. if b then none else some r) ours in
        ap (is_doomed_record J g rules n) gone
    | inr others ↦
        let kept : now ≡ some r = h ∙ ap (λ b. if b then none else some r) others in
        ap (is_doomed_record J g rules n) kept ∙ ground arith
  ]

  -- Where every dictionary has a JSON text, and what List gives back of data that was set has the
  -- same text, no name stands twice among the wanted rules or in the Hive, and planning does not
  -- panic: after the plan is executed, the record under the name of a wanted rule has the JSON text
  -- of the data that was chosen for the rule, and a second update with the same wanted rules plans
  -- no operation at all.
  pub plan_again :
      (rules : GoMap RuleInfo) (existing : GoMap HiveRecord) (ops : List Operation) (n : String)
      {info : RuleInfo}
      → UniqueKeys rules
      → UniqueKeys existing
      → plan_update J g rules existing ≡ some ops
      → lookup n rules ≡ some info
      → ((payload : Dict) × (r : HiveRecord) × (rule_to_set J g.suppression_time info.payload
            ≡ some payload)
          × (lookup n (run J g ops existing) ≡ some r)
          × (J.marshal r.payload ≡ J.marshal payload))
        × (plan_update J g rules (run J g ops existing) ≡ some [])
  unfolding plan_update then_dels
  plan_again rules existing ops n unique_rules unique h is =
      let now = run J g ops existing in
      let placed = plan-AsWanted J g rules existing ops unique_rules unique h in
      let unique_now = applied-UniqueKeys J.read_back g.hive_name g.oid ops existing unique in
      let dels : plan_dels J g rules now ≡ [] = plan_dels-nothing rules now (λ n.
        is_doomed-lookup J g rules n now unique_now
        ∙ not_doomed_now rules n (lookup n rules) (lookup n existing) (lookup n now) refl
            (placed n)) in
      let sets : plan_sets J g rules now ≡ some [] =
        plan_sets-nothing rules existing now
          (all_placed rules rules existing now placed (entries-lookup rules unique_rules)) in
      (
        AsWanted-marshal _ (lookup n existing) (lookup n now)
            (subst (λ o. AsWanted J g o (lookup n existing) (lookup n now)) is (placed n)),
        ap (λ o. then_dels J g o (plan_dels J g rules now)) sets ∙ ap (λ ds. some ([] ++ ds)) dels,
      )
    where
      all_placed :
          (all rules : GoMap RuleInfo) (before after : GoMap HiveRecord)
          → ((n : String) → AsWanted J g (lookup n all) (lookup n before) (lookup n after))
          → All (λ e. lookup e.0 all ≡ some e.1) rules
          → All (λ e. AsWanted J g (some e.1) (lookup e.0 before) (lookup e.0 after)) rules
      all_placed all [] before after placed h = tt
      all_placed all ((name, info) ∷ rules) before after placed h = (
        subst (λ o. AsWanted J g o (lookup name before) (lookup name after)) h.0 (placed name),
        all_placed all rules before after placed h.1,
      )
