-- ===== src/Simplified/Rules/Everywhere.antt =====
-- onUpdate of a rule extension, over all namespaces.
use mathlib.Core.Path.{subst}
use lc_extension.Base.{
  String, ◌<>◌, ◌==◌, ◌≡◌, refl, sym, ap, ◌∙◌, List, [], ◌∷◌, ◌++◌, Option, none, some, inl, inr,
  Bool-cases, some_inj, arith, eq_iff,
}
use lc_extension.Base.GoMap.{GoMap, lookup}
use lc_extension.Base.MapKeys.{UniqueKeys, lookup-absent}
use lc_extension.Base.Effect.{ok}
use lc_extension.Common.Value.{Dict}
use lc_extension.Core.Extension.{return_of}
use lc_extension.Simplified.Rules.{
  RuleInfo, RuleData, RuleConfig, HiveRecord, Operation, Target, plan_update,
}
use lc_extension.Simplified.Rules.Update.{
  RuleService, target, before, listed, gather, executed, run_batch, with_rules, with_rule_config,
  on_update,
}
use lc_extension.Simplified.Rules.Applied.{applied, applied-append, run}
use lc_extension.Simplified.Rules.Sync.{AsWanted, plan-AsWanted}
use lc_extension.Simplified.Rules.Elsewhere.{append-elsewhere, plan_update-elsewhere, other_hive}

none_is_some : {A : Type 0} {a : A} → none ≡ some a → ⊥
none_is_some p = cc

module _ (S : RuleService) (name : String) (o : S.Org) (c : RuleConfig)
    (hives : String → GoMap HiveRecord)
    (lists : (hive : String) (w : S.World) → (S.list_records o hive w).0 ≡ ok (hives hive)) where
  abbrev goal : String → Target S.json
  goal namespace = target S name o c namespace

  before-eq-some :
      (v : S.World) (p : Option (List Operation)) (q : Option (List Operation) × S.World)
      {ops : List Operation} {w : S.World}
      → before S name v p q ≡ (some ops, w)
      → (plan : List Operation) × (rest : List Operation) × (p ≡ some plan)
        × (q ≡ (some rest, w))
        × (plan ++ rest ≡ ops)
  unfolding before
  before-eq-some v (some plan) (some rest, w) h =
      (plan, rest, refl, ap (λ x. (some rest, x.1)) h, some_inj (ap (λ x. x.0) h))
  before-eq-some v none q h = absurd (none_is_some (ap (λ x. x.0) h))
  before-eq-some v (some plan) (none, w) h = absurd (none_is_some (ap (λ x. x.0) h))

  gather-cons :
      (namespace : String) (rules : GoMap RuleInfo) (more : RuleData) (w : S.World)
      {ops : List Operation} {w2 : S.World}
      → gather S name o c ((namespace, rules) ∷ more) w ≡ (some ops, w2)
      → (plan : List Operation) × (rest : List Operation) × (plan_update S.json
            (goal namespace)
            rules
            (hives ("dr-" <> namespace))
          ≡ some plan)
        × (gather S name o c more (S.list_records o ("dr-" <> namespace) w).1 ≡ (some rest, w2))
        × (plan ++ rest ≡ ops)
  unfolding gather listed
  gather-cons namespace rules more w h =
      before-eq-some _ _ _ (rw (lists ("dr-" <> namespace) w) at h)

  -- What is planned for namespaces that are not wanted
  gather-elsewhere :
      (namespace : String) (rules : RuleData) (w : S.World) (m : GoMap HiveRecord)
      {ops : List Operation} {w2 : S.World}
      → lookup namespace rules ≡ none
      → gather S name o c rules w ≡ (some ops, w2)
      → run S.json (goal namespace) ops m ≡ m
  unfolding lookup gather applied
  gather-elsewhere namespace [] w m missing h =
      subst (λ ops. run S.json (goal namespace) ops m ≡ m) (some_inj (ap (λ x. x.0) h)) refl
  gather-elsewhere namespace ((k, rules) ∷ more) w m missing h =
      let (plan, rest, planned, others, split) = gather-cons k rules more w h in
      elim (Bool-cases (k == namespace)) [
        | inl here ↦ absurd (none_is_some (sym (rw here at missing)))
        | inr other ↦
            append-elsewhere S.json (goal k) ("dr-" <> namespace) (S.get_oid o)
              (other_hive k namespace other) plan rest m split
              (plan_update-elsewhere S.json (goal k) ("dr-" <> namespace) (S.get_oid o)
                (other_hive k namespace other) rules (hives ("dr-" <> k)) m plan planned)
              (gather-elsewhere namespace more _ m (rw other at missing) others)
      ]

  -- A namespace is as it is wanted.
  abbrev pub NamespaceAsWanted : String → GoMap RuleInfo → List Operation → Type 0
  NamespaceAsWanted namespace rules ops =
      let existing = hives ("dr-" <> namespace) in
      (n : String)
      → AsWanted S.json (goal namespace) (lookup n rules) (lookup n existing)
          (lookup n (run S.json (goal namespace) ops existing))

  -- The plan of a namespace, followed by what leaves its Hive alone
  plan-NamespaceAsWanted :
      (namespace : String) (rules : GoMap RuleInfo) (plan rest : List Operation)
      {ops : List Operation}
      → UniqueKeys rules
      → UniqueKeys (hives ("dr-" <> namespace))
      → plan_update S.json (goal namespace) rules (hives ("dr-" <> namespace)) ≡ some plan
      → ((m : GoMap HiveRecord) → run S.json (goal namespace) rest m ≡ m)
      → plan ++ rest ≡ ops
      → NamespaceAsWanted namespace rules ops
  plan-NamespaceAsWanted namespace rules plan rest apart unique planned same split n =
      let existing = hives ("dr-" <> namespace) in
      subst
        (λ m. AsWanted S.json (goal namespace) (lookup n rules) (lookup n existing) (lookup n m))
        (sym (
          ap (λ ops. run S.json (goal namespace) ops existing) (sym split)
          ∙ applied-append S.json.read_back ("dr-" <> namespace) (S.get_oid o) plan rest existing
          ∙ same (run S.json (goal namespace) plan existing)))
        (plan-AsWanted S.json (goal namespace) rules existing plan apart unique planned n)

  gather-NamespaceAsWanted :
      (namespace : String) (wanted : GoMap RuleInfo) (rules : RuleData) (w : S.World)
      {ops : List Operation} {w2 : S.World}
      → UniqueKeys rules
      → UniqueKeys wanted
      → UniqueKeys (hives ("dr-" <> namespace))
      → lookup namespace rules ≡ some wanted
      → gather S name o c rules w ≡ (some ops, w2)
      → NamespaceAsWanted namespace wanted ops
  unfolding lookup
  gather-NamespaceAsWanted namespace wanted [] w unique apart unique_hive is h =
      absurd (none_is_some is)
  gather-NamespaceAsWanted namespace wanted ((k, rules) ∷ more) w unique apart unique_hive is h =
      let (plan, rest, planned, others, split) = gather-cons k rules more w h in
      elim (Bool-cases (k == namespace)) [
        | inl here ↦
            let k_is : k ≡ namespace = ground (arith, eq_iff k namespace) in
            let rules_is : rules ≡ wanted = some_inj (rw here at is) in
            plan-NamespaceAsWanted namespace wanted plan rest apart unique_hive
              (subst
                (λ rs.
                  plan_update S.json (goal namespace) rs (hives ("dr-" <> namespace)) ≡ some plan)
                rules_is
                (subst (λ k. plan_update S.json (goal k) rules (hives ("dr-" <> k)) ≡ some plan)
                  k_is planned))
              (λ m.
                gather-elsewhere namespace more _ m (lookup-absent k namespace more unique.0 k_is)
                  others)
              split
        | inr other ↦ λ n.
            let existing = hives ("dr-" <> namespace) in
            let elsewhere = other_hive k namespace other in
            subst
              (λ m.
                AsWanted S.json (goal namespace) (lookup n wanted) (lookup n existing) (lookup n m))
              (sym (
                ap (λ ops. run S.json (goal namespace) ops existing) (sym split)
                ∙ applied-append S.json.read_back ("dr-" <> namespace) (S.get_oid o) plan rest
                    existing
                ∙ ap (run S.json (goal namespace) rest) (
                    plan_update-elsewhere S.json (goal k) ("dr-" <> namespace) (S.get_oid o)
                      elsewhere rules (hives ("dr-" <> k)) existing plan planned)))
              (gather-NamespaceAsWanted namespace wanted more _ unique.1 apart unique_hive
                (rw other at is) others n)
      ]

  -- What stands under a name of a namespace's Hive, by what the extension wants there.
  abbrev pub AfterUpdate : String → String → Option (GoMap RuleInfo) → List Operation → Type 0
  AfterUpdate namespace n none ops =
      let existing = hives ("dr-" <> namespace) in
      lookup n (run S.json (goal namespace) ops existing) ≡ lookup n existing
  AfterUpdate namespace n (some rules) ops =
      let existing = hives ("dr-" <> namespace) in
      AsWanted S.json (goal namespace) (lookup n rules) (lookup n existing)
        (lookup n (run S.json (goal namespace) ops existing))

  abbrev pub UniqueIn : Option (GoMap RuleInfo) → Type 0
  UniqueIn none = Unit
  UniqueIn (some rules) = UniqueKeys rules

  gather-AfterUpdate :
      (namespace n : String) (rules : RuleData) (w : S.World) {ops : List Operation} {w2 : S.World}
      → UniqueKeys rules
      → (wanted : Option (GoMap RuleInfo)) → lookup namespace rules ≡ wanted
      → UniqueIn wanted
      → UniqueKeys (hives ("dr-" <> namespace))
      → gather S name o c rules w ≡ (some ops, w2)
      → AfterUpdate namespace n wanted ops
  gather-AfterUpdate namespace n rules w unique none is apart unique_hive h =
      ap (lookup n) (gather-elsewhere namespace rules w (hives ("dr-" <> namespace)) is h)
  gather-AfterUpdate namespace n rules w unique (some wanted) is apart unique_hive h =
      gather-NamespaceAsWanted namespace wanted rules w unique apart unique_hive is h n

  -- Where the configuration and the rules can be read, every Hive can be listed, no namespace stands
  -- twice among the rules, no name twice in the rules of the namespace or in its Hive, and planning
  -- does not panic: onUpdate executes one batch; executed, it leaves the Hive of the namespace as it
  -- was when the extension has no rules for it; else there is, under every name that is wanted, the
  -- rule that was chosen, as List gives back what was set, with the extension's tag, or the record that was there if it has the same
  -- text, and a name that is not wanted is gone if its record had the extension's tag, and else as
  -- it was. The plans for the other namespaces change nothing of that.
  pub on_update-AsWanted :
      (config : Dict) (namespace n : String) {rules : RuleData} {w w1 w2 : S.World}
      {ops : List Operation}
      → UniqueKeys rules
      → UniqueIn (lookup namespace rules)
      → UniqueKeys (hives ("dr-" <> namespace))
      → S.rule_config config ≡ ok c
      → S.get_rules w ≡ (ok rules, w1)
      → gather S name o c rules w1 ≡ (some ops, w2)
      → (on_update S name o config w ≡ return_of (executed S name (S.execute o ops w2)))
        × AfterUpdate namespace n (lookup namespace rules) ops
  unfolding on_update with_rule_config with_rules run_batch
  on_update-AsWanted config namespace n {rules} {w} unique apart unique_hive has gets h = (
    ap (λ r. with_rule_config S name o r w) has
        ∙ ap (with_rules S name o c) gets
        ∙ ap (run_batch S name o) h,
    gather-AfterUpdate namespace n rules _ unique (lookup namespace rules) refl apart unique_hive h,
  )
