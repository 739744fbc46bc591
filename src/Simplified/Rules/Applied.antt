-- ===== src/Simplified/Rules/Applied.antt =====
-- What a batch of operations does to a Hive: Hive executes them in their order, and keeps the data
-- of a record as JSON, so List gives back what it decodes.
use lc_extension.Base.{
  String, ◌==◌, ◌≡◌, refl, Bool, true, false, not, ◌&&◌, ◌||◌, List, [], ◌∷◌, ◌++◌, All, Option,
  none, some, Bool-cases, inl, inr, has_text, arith, eq_iff, eq_refl, if◌then◌else◌,
}
use lc_extension.Base.GoMap.{GoMap, lookup, insert, erase, lookup-insert, lookup-erase}
use lc_extension.Base.MapKeys.{UniqueKeys}
use lc_extension.Common.Value.{Dict}
use lc_extension.Simplified.Rules.{
  RuleInfo, HiveRecord, Operation, set_record, del_record, Json, Target, are_equal, wanted,
  consider, is_wanted, plan_dels,
}

-- A record that was set, as List gives it
abbrev pub given_back : (Dict → Dict) → HiveRecord → HiveRecord
given_back read_back r = record r { payload = read_back r.payload }

-- One operation on the records of a Hive as List gives them, and many
unfoldable pub apply_one :
    (Dict → Dict) → String → String → Operation → GoMap HiveRecord → GoMap HiveRecord
apply_one read_back hive oid (set_record id r) m =
    if id.hive == hive && id.partition == oid then insert id.name (given_back read_back r) m else m
apply_one read_back hive oid (del_record id) m =
    if id.hive == hive && id.partition == oid then erase id.name m else m

unfoldable pub applied :
    (Dict → Dict) → String → String → List Operation → GoMap HiveRecord → GoMap HiveRecord
unfolding apply_one
applied read_back hive oid [] m = m
applied read_back hive oid (op ∷ ops) m =
    applied read_back hive oid ops (apply_one read_back hive oid op m)

pub applied-append :
    (read_back : Dict → Dict) (hive oid : String) (ops more : List Operation) (m : GoMap HiveRecord)
    → applied read_back hive oid (ops ++ more) m
      ≡ applied read_back hive oid more (applied read_back hive oid ops m)
unfolding applied
applied-append read_back hive oid [] more m = refl
applied-append read_back hive oid (op ∷ ops) more m =
    applied-append read_back hive oid ops more (apply_one read_back hive oid op m)

module _ (J : Json) (g : Target J) where
  abbrev pub run : List Operation → GoMap HiveRecord → GoMap HiveRecord
  run ops m = applied J.read_back g.hive_name g.oid ops m

  -- The record of a rule, as List gives it after it was written
  abbrev pub placed : RuleInfo → Dict → HiveRecord
  placed info payload = given_back J.read_back (wanted J g info payload)

  -- Does the update delete the record of this name?
  unfoldable pub is_doomed : GoMap RuleInfo → String → GoMap HiveRecord → Bool
  is_doomed rules n [] = false
  is_doomed rules n ((name, found) ∷ existing) =
      (name == n && (not (is_wanted J g rules name) && has_text found.tags g.tag))
      || is_doomed rules n existing

  pub lookup-plan_dels :
      (rules : GoMap RuleInfo) (existing : GoMap HiveRecord) (n : String) (m : GoMap HiveRecord)
      → lookup n (run (plan_dels J g rules existing) m)
        ≡ (if is_doomed rules n existing then none else lookup n m)
  unfolding plan_dels applied apply_one is_doomed
  lookup-plan_dels rules [] n m = refl
  lookup-plan_dels rules ((name, found) ∷ existing) n m =
      elim (Bool-cases (is_wanted J g rules name)) [
        | inl is ↦ ground (arith, lookup-plan_dels rules existing n m)
        | inr is_not ↦ elim (Bool-cases (has_text found.tags g.tag)) [
          | inl ours ↦ ground (
            arith,
            eq_refl g.hive_name,
            eq_refl g.oid,
            lookup-erase name n m,
            lookup-plan_dels rules existing n (erase name m),
          )
          | inr others ↦ ground (arith, lookup-plan_dels rules existing n m)
        ]
      ]

  abbrev pub is_doomed_record : GoMap RuleInfo → String → Option HiveRecord → Bool
  is_doomed_record rules n none = false
  is_doomed_record rules n (some r) = not (is_wanted J g rules n) && has_text r.tags g.tag

  not_doomed :
      (rules : GoMap RuleInfo) (n k : String) (existing : GoMap HiveRecord)
      → All (λ e. (e.0 == k) ≡ false) existing
      → k ≡ n
      → is_doomed rules n existing ≡ false
  unfolding is_doomed
  not_doomed rules n k [] h e = refl
  not_doomed rules n k ((j, r) ∷ existing) h e =
      ground (arith, eq_iff j n, eq_iff j k, not_doomed rules n k existing h.1 e)

  pub is_doomed-lookup :
      (rules : GoMap RuleInfo) (n : String) (existing : GoMap HiveRecord)
      → UniqueKeys existing
      → is_doomed rules n existing ≡ is_doomed_record rules n (lookup n existing)
  unfolding is_doomed lookup
  is_doomed-lookup rules n [] h = refl
  is_doomed-lookup rules n ((k, r) ∷ existing) h = elim (Bool-cases (k == n)) [
    | inl here ↦ ground (arith, here, eq_iff k n, not_doomed rules n k existing h.0)
    | inr other ↦ rw other (is_doomed-lookup rules n existing h.1)
  ]

  -- Does the update write the rule?
  abbrev pub is_written : Dict → Option HiveRecord → Bool
  is_written payload none = true
  is_written payload (some r) = not (are_equal J payload r.payload)

  pub consider-writes :
      (name : String) (info : RuleInfo) (payload : Dict) (found : Option HiveRecord) (n : String)
      (m : GoMap HiveRecord)
      → lookup n (run (consider J g name info payload found) m)
        ≡ (if is_written payload found && name == n then some (placed info payload) else lookup n m)
  unfolding consider applied apply_one
  consider-writes name info payload none n m =
      ground
        (arith, eq_refl g.hive_name, eq_refl g.oid, lookup-insert name n (placed info payload) m)
  consider-writes name info payload (some r) n m =
      elim (Bool-cases (are_equal J payload r.payload)) [
        | inl same ↦ ground arith
        | inr differs ↦ ground (
          arith,
          eq_refl g.hive_name,
          eq_refl g.oid,
          lookup-insert name n (placed info payload) m,
        )
      ]
