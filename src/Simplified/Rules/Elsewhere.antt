-- ===== src/Simplified/Rules/Elsewhere.antt =====
-- What the plan for one namespace means for the Hive of another.
use mathlib.Core.Path.{subst}
use text.Mathlib.TextLemmas.{append_cancel_left}
use lc_extension.Base.{
  String, ◌<>◌, ◌==◌, ◌≡◌, refl, sym, ap, ◌∙◌, false, List, [], ◌∷◌, ◌++◌, Option, none, some, inl,
  inr, Bool-cases, arith, eq_iff, has_text,
}
use lc_extension.Base.GoMap.{GoMap, lookup}
use lc_extension.Common.Value.{Dict}
use lc_extension.Simplified.Rules.{
  RuleInfo, HiveRecord, Operation, Json, Target, are_equal, consider, plan_sets, plan_dels,
  is_wanted, plan_update,
}
use lc_extension.Simplified.Rules.Applied.{apply_one, applied, applied-append}
use lc_extension.Simplified.Rules.Sync.{plan_sets-cons, plan-split}

-- A plan for one Hive, run on another
module _ (J : Json) (g : Target J) (hive oid : String) (other : (g.hive_name == hive) ≡ false) where
  consider-elsewhere :
      (name : String) (info : RuleInfo) (payload : Dict) (found : Option HiveRecord)
      (m : GoMap HiveRecord)
      → applied J.read_back hive oid (consider J g name info payload found) m ≡ m
  unfolding consider applied apply_one
  consider-elsewhere name info payload none m = rw other refl
  consider-elsewhere name info payload (some r) m =
      elim (Bool-cases (are_equal J payload r.payload)) [
        | inl same ↦ rw same refl
        | inr differs ↦ rw (differs, other) refl
      ]

  plan_dels-elsewhere :
      (rules : GoMap RuleInfo) (existing m : GoMap HiveRecord)
      → applied J.read_back hive oid (plan_dels J g rules existing) m ≡ m
  unfolding plan_dels applied apply_one
  plan_dels-elsewhere rules [] m = refl
  plan_dels-elsewhere rules ((name, found) ∷ existing) m =
      elim (Bool-cases (is_wanted J g rules name)) [
        | inl is ↦ rw is (plan_dels-elsewhere rules existing m)
        | inr is_not ↦ rw is_not (elim (Bool-cases (has_text found.tags g.tag)) [
          | inl ours ↦ ground (arith, plan_dels-elsewhere rules existing m)
          | inr others ↦ rw others (plan_dels-elsewhere rules existing m)
        ])
      ]

  pub append-elsewhere :
      (first rest : List Operation) {ops : List Operation} (m : GoMap HiveRecord)
      → first ++ rest ≡ ops
      → applied J.read_back hive oid first m ≡ m
      → applied J.read_back hive oid rest m ≡ m
      → applied J.read_back hive oid ops m ≡ m
  append-elsewhere first rest m split same_first same_rest =
      ap (λ ops. applied J.read_back hive oid ops m) (sym split)
      ∙ applied-append J.read_back hive oid first rest m
      ∙ ap (applied J.read_back hive oid rest) same_first
      ∙ same_rest

  plan_sets-elsewhere :
      (rules : GoMap RuleInfo) (existing m : GoMap HiveRecord) (sets : List Operation)
      → plan_sets J g rules existing ≡ some sets
      → applied J.read_back hive oid sets m ≡ m
  unfolding plan_sets applied
  plan_sets-elsewhere [] existing m sets h =
      subst (λ ops. applied J.read_back hive oid ops m ≡ m) (let e : [] ≡ sets = cc in e) refl
  plan_sets-elsewhere ((name, info) ∷ rules) existing m sets h =
      let (payload, rest, _, more, split) = plan_sets-cons J g name info _ _ _ h in
      append-elsewhere (consider J g name info payload (lookup name existing)) rest m split
        (consider-elsewhere name info payload (lookup name existing) m)
        (plan_sets-elsewhere rules existing m rest more)

  pub plan_update-elsewhere :
      (rules : GoMap RuleInfo) (existing m : GoMap HiveRecord) (ops : List Operation)
      → plan_update J g rules existing ≡ some ops
      → applied J.read_back hive oid ops m ≡ m
  unfolding plan_update
  plan_update-elsewhere rules existing m ops h =
      let (sets, planned, split) = plan-split J g _ (plan_dels J g rules existing) ops h in
      append-elsewhere sets (plan_dels J g rules existing) m split
        (plan_sets-elsewhere rules existing m sets planned) (plan_dels-elsewhere rules existing m)

pub other_hive :
    (k namespace : String) → (k == namespace) ≡ false → ("dr-" <> k == "dr-" <> namespace) ≡ false
other_hive k namespace other = ground (
  arith,
  eq_iff ("dr-" <> k) ("dr-" <> namespace),
  eq_iff k namespace,
  append_cancel_left "dr-" k namespace,
)
