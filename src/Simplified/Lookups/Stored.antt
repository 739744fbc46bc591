-- ===== src/Simplified/Lookups/Stored.antt =====
-- The Hive that a lookup extension relies on: what stands in it, and what the calls of the service
-- do to that.
use lc_extension.Base.{String, ◌≡◌, ◌≢◌, ◌==◌, ◌&&◌, false, Option, none, some}
use lc_extension.Base.GoMap.{GoMap, lookup}
use lc_extension.Base.MapKeys.{UniqueKeys}
use lc_extension.Base.Effect.{ok, err}
use lc_extension.Simplified.Rules.{HiveRecord, RecordId}
use lc_extension.Simplified.Rules.Update.{Tags}
use lc_extension.Simplified.Lookups.{LookupService}

abbrev pub tags_at : Option HiveRecord → Option Tags
tags_at none = none
tags_at (some r) = some r.tags

-- A call that fails may have done anything to the record that it names, and nothing to the others.
pub record Stores (S : LookupService) : Type 0 where
  -- the record of a Hive under a name, in the organization's partition
  pub record_at : S.Org → S.World → String → String → Option HiveRecord
  pub add-record :
      (o : S.Org) (id : RecordId) (r : HiveRecord) (w w' : S.World)
      → id.partition ≡ S.get_oid o
      → S.add_record o id r w ≡ (ok tt, w')
      → record_at o w' id.hive id.name ≡ some r
  pub add-others :
      (o : S.Org) (id : RecordId) (r : HiveRecord) (w : S.World) (hive key : String)
      → ((id.hive == hive) && (id.name == key)) ≡ false
      → record_at o (S.add_record o id r w).1 hive key ≡ record_at o w hive key
  pub remove-record :
      (o : S.Org) (id : RecordId) (w w' : S.World)
      → id.partition ≡ S.get_oid o
      → S.remove_record o id w ≡ (ok tt, w')
      → record_at o w' id.hive id.name ≡ none
  pub remove-others :
      (o : S.Org) (id : RecordId) (w : S.World) (hive key : String)
      → ((id.hive == hive) && (id.name == key)) ≡ false
      → record_at o (S.remove_record o id w).1 hive key ≡ record_at o w hive key
  -- the metadata of every record of a Hive, which are only read
  pub list-tags :
      (o : S.Org) (hive key : String) (w w' : S.World) (tags : GoMap Tags)
      → S.list_tags o hive w ≡ (ok tags, w')
      → UniqueKeys tags × (lookup key tags ≡ tags_at (record_at o w hive key))
  pub list-records :
      (o : S.Org) (listed hive key : String) (w : S.World)
      → record_at o (S.list_tags o listed w).1 hive key ≡ record_at o w hive key
  -- no error has an empty text
  pub remove-speaks :
      (o : S.Org) (id : RecordId) (w : S.World) → (S.remove_record o id w).0 ≢ err ""
  pub list-speaks : (o : S.Org) (hive : String) (w : S.World) → (S.list_tags o hive w).0 ≢ err ""
