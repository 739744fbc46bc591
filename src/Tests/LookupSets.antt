-- ===== src/Tests/LookupSets.antt =====
-- A lookup extension over a Hive that is a map of lookups, one of somebody else among them.
use mathlib.Core.Path.{subst}
use lc_extension.Base.{
  String, ◌==◌, ◌≡◌, ◌≢◌, refl, sym, ap, ◌∙◌, Bool-cases, inl, inr, All, eq_refl, true, false, ◌&&◌,
  [], ◌∷◌, Option, none, some, arith, eq_iff, if◌then◌else◌, has_text,
}
use lc_extension.Base.GoMap.{GoMap, lookup, insert, erase, lookup-insert, lookup-erase}
use lc_extension.Base.MapKeys.{UniqueKeys, insert-UniqueKeys, erase-UniqueKeys}
use lc_extension.Base.Effect.{Result, ok, err, ok_inj}
use lc_extension.Common.Value.{Value, Fields, text, object, end, field}
use lc_extension.Common.Messages.{empty_response}
use lc_extension.Core.Extension.{EventCallbackParams, RequestCallbackParams, decoded}
use lc_extension.Simplified.Rules.{HiveRecord, RecordId}
use lc_extension.Simplified.Rules.Update.{Tags}
use lc_extension.Simplified.Lookups.{
  LookupService, LookupData, push_lookup, push_lookups, remove_all, unsubscribe_lookups,
  update_lookups,
}
use lc_extension.Simplified.Lookups.Stored.{Stores, tags_at}
use lc_extension.Simplified.Lookups.Pushed.{update_lookups_lem, wanted_at}
use lc_extension.Simplified.Lookups.Removal.{unsubscribe_lookups-kept, kept}

-- The lookups, and whether the rule that asks for updates is there
pub record Hive : Type 0 where
  lookups : GoMap HiveRecord
  unique : UniqueKeys lookups
  others : String → String → Option HiveRecord

pub record_in : Hive → String → String → Option HiveRecord
record_in h hive key = if "lookup" == hive then lookup key h.lookups else h.others hive key

put_other :
    Option HiveRecord
    → RecordId
    → (String → String → Option HiveRecord)
    → String
    → String
    → Option HiveRecord
put_other r id others hive key =
    if (id.hive == hive) && (id.name == key) then r else others hive key

pub put_in : Option HiveRecord → RecordId → Hive → Hive
put_in (some r) id h =
    if "lookup" == id.hive
    then record h {
      lookups = insert id.name r h.lookups;
      unique = insert-UniqueKeys id.name r h.lookups h.unique;
    }
    else record h { others = put_other (some r) id h.others }
put_in none id h =
    if "lookup" == id.hive
    then record h {
      lookups = erase id.name h.lookups;
      unique = erase-UniqueKeys id.name h.lookups h.unique;
    }
    else record h { others = put_other none id h.others }

pub record_in-put_in :
    (r : Option HiveRecord) (id : RecordId) (h : Hive) (hive key : String)
    → record_in (put_in r id h) hive key
      ≡ (if (id.hive == hive) && (id.name == key) then r else record_in h hive key)
unfolding record_in put_in put_other
record_in-put_in (some r) id h hive key = ground (
  arith,
  eq_iff "lookup" id.hive,
  eq_iff "lookup" hive,
  eq_iff id.hive hive,
  lookup-insert id.name key r h.lookups,
)
record_in-put_in none id h hive key = ground (
  arith,
  eq_iff "lookup" id.hive,
  eq_iff "lookup" hive,
  eq_iff id.hive hive,
  lookup-erase id.name key h.lookups,
)

-- The metadata of the lookups
tags_in : GoMap HiveRecord → GoMap Tags
tags_in [] = []
tags_in ((key, r) ∷ m) = (key, r.tags) ∷ tags_in m

tags_in-apart :
    (k : String) (m : GoMap HiveRecord)
    → All (λ e. (e.0 == k) ≡ false) m
    → All (λ e. (e.0 == k) ≡ false) (tags_in m)
unfolding tags_in
tags_in-apart k [] h = tt
tags_in-apart k ((j, r) ∷ m) h = (h.0, tags_in-apart k m h.1)

tags_in-UniqueKeys : (m : GoMap HiveRecord) → UniqueKeys m → UniqueKeys (tags_in m)
unfolding tags_in
tags_in-UniqueKeys [] h = tt
tags_in-UniqueKeys ((k, r) ∷ m) h = (tags_in-apart k m h.0, tags_in-UniqueKeys m h.1)

lookup-tags_in :
    (key : String) (m : GoMap HiveRecord) → lookup key (tags_in m) ≡ tags_at (lookup key m)
unfolding lookup tags_in
lookup-tags_in key [] = refl
lookup-tags_in key ((j, r) ∷ m) = ground (arith, lookup-tags_in key m)

pub tags_listed : String → Hive → Result (GoMap Tags)
tags_listed hive h = if "lookup" == hive then ok (tags_in h.lookups) else err "no such hive"

pub wanted : LookupData
wanted = ("bad_ips", object (field "10.0.0.1" (text "seen") end)) ∷ ("broken", text "no map") ∷ []

-- Only objects can be imported.
pub imported : Value → Result Fields
imported (object fs) = ok fs
imported _ = err "not a map"

abbrev pub service : LookupService
service = record {
  World = Hive;
  Org = String;
  get_oid = λ o. o;
  import_from_struct = imported;
  lookup_update_request = λ d. ok (object end);
  list_tags = λ o hive h. (tags_listed hive h, h);
  add_record = λ o id r h. (ok tt, put_in (some r) id h);
  remove_record = λ o id h. (ok tt, put_in none id h);
  get_lookup = λ h. (ok wanted, h);
  event_handlers = [];
}

err_ne_ok : {A : Type 0} {a : A} (e : String) → err e ≡ ok a → ⊥
err_ne_ok e p = cc

pub listed_tags :
    (hive key : String) (h : Hive) (tags : GoMap Tags)
    → tags_listed hive h ≡ ok tags
    → UniqueKeys tags × (lookup key tags ≡ tags_at (record_in h hive key))
unfolding tags_listed record_in
listed_tags hive key h tags listed = elim (Bool-cases ("lookup" == hive)) [
  | inl same ↦
      let e : tags_in h.lookups ≡ tags = ok_inj (rw same at listed) in
      subst (λ (t : GoMap Tags). UniqueKeys t × (lookup key t ≡ tags_at (record_in h hive key))) e
        (tags_in-UniqueKeys h.lookups h.unique, rw same (lookup-tags_in key h.lookups))
  | inr other ↦ absurd (err_ne_ok _ (rw other at listed))
]

pub listed_speaks : (hive : String) (h : Hive) → tags_listed hive h ≢ err ""
unfolding tags_listed
listed_speaks hive h = elim (Bool-cases ("lookup" == hive)) [
  | inl same ↦ rw same (λ p. cc)
  | inr other ↦ rw other (λ p. cc)
]

abbrev pub stores : Stores service
stores = record {
  record_at = λ o h hive key. record_in h hive key;
  add-record = λ o id r w w' own done.
      ap (λ v. record_in v id.hive id.name) (sym (ap (λ x. x.1) done))
      ∙ record_in-put_in (some r) id w id.hive id.name
      ∙ ground (arith, eq_refl id.hive, eq_refl id.name);
  add-others = λ o id r w hive key other. record_in-put_in (some r) id w hive key ∙ rw other refl;
  remove-record = λ o id w w' own done.
      ap (λ v. record_in v id.hive id.name) (sym (ap (λ x. x.1) done))
      ∙ record_in-put_in none id w id.hive id.name
      ∙ ground (arith, eq_refl id.hive, eq_refl id.name);
  remove-others = λ o id w hive key other. record_in-put_in none id w hive key ∙ rw other refl;
  list-tags = λ o hive key w w' tags listed. listed_tags hive key w tags (ap (λ x. x.0) listed);
  list-records = λ o listed hive key w. refl;
  remove-speaks = λ o id w. (cc);
  list-speaks = λ o hive w. listed_speaks hive w;
}

abbrev pub there : Hive
there = record {
  lookups =
      ("old_ips", record { payload = some end; enabled = true; tags = "ext:ips" ∷ [] })
      ∷ ("theirs", record { payload = some end; enabled = true; tags = "other" ∷ [] })
      ∷ [];
  unique = ((refl, tt), (tt, tt));
  others = λ hive key. none;
}

abbrev update_params : RequestCallbackParams String
update_params = record {
  org = "org-1";
  ident = "";
  request = decoded (object end);
  config = none;
  idempotent_key = "";
  resource_state = [];
  investigation_id = "";
}

abbrev event_params : EventCallbackParams String
event_params = record { org = "org-1"; payload = none; conf = none; idempotent_key = "" }

-- The goroutines may reach Hive in the other order.
pub backwards : LookupData → LookupData
backwards [] = []
backwards ((j, v) ∷ []) = (j, v) ∷ []
backwards ((j, v) ∷ (k, u) ∷ rest) = (k, u) ∷ (j, v) ∷ rest

pub wanted-backwards : (key : String) → lookup key (backwards wanted) ≡ lookup key wanted
unfolding lookup backwards wanted
wanted-backwards key = elim (Bool-cases ("broken" == key)) [
  | inl same ↦
      subst (λ k. lookup k (backwards wanted) ≡ lookup k wanted) ((eq_iff "broken" key).0 same) refl
  | inr other ↦ rw other refl
]

pub unique_backwards : UniqueKeys (backwards wanted)
unfolding backwards wanted
unique_backwards = ((refl, tt), (tt, tt))

update_lookups_lem_example :
    ((update_lookups service "ips" backwards update_params there).0 ≡ empty_response)
    × ((key : String)
        → has_text (push_lookups service "ips" "org-1" (backwards wanted) there).0 key ≡ false
        → record_in (update_lookups service "ips" backwards update_params there).1 "lookup" key
          ≡ wanted_at service stores "ips" (lookup key wanted) (record_in there "lookup" key))
    × ((key : String)
        → lookup key wanted ≡ none
        → record_in (update_lookups service "ips" backwards update_params there).1 "lookup" key
          ≡ record_in there "lookup" key)
    × ((hive key : String)
        → ("lookup" == hive) ≡ false
        → record_in (update_lookups service "ips" backwards update_params there).1 hive key
          ≡ record_in there hive key)
update_lookups_lem_example =
    update_lookups_lem service stores "ips" backwards wanted update_params refl unique_backwards
      wanted-backwards

-- Only the lookup that cannot be imported fails.
update_fails : (push_lookups service "ips" "org-1" (backwards wanted) there).0 ≡ "broken" ∷ []
unfolding push_lookups push_lookup imported backwards wanted
update_fails = refl

unsubscribe_lookups-kept_example :
    (record_in
        (unsubscribe_lookups service "ips" event_params there).1
        "dr-managed"
        "ext-ips-update"
      ≡ none)
    × ((key : String)
        → record_in (unsubscribe_lookups service "ips" event_params there).1 "lookup" key
          ≡ kept service stores "ips"
              (tags_at (record_in there "lookup" key))
              (record_in there "lookup" key))
unfolding unsubscribe_lookups remove_all lookup tags_listed tags_in put_in
unsubscribe_lookups-kept_example =
    unsubscribe_lookups-kept service stores "ips" event_params there refl refl
