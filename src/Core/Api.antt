-- ===== src/Core/Api.antt =====
-- The calls of the go-limacharlie SDK that the extension makes for an organization: installation
-- keys and Hive records. What the service does is not in the repository: it is a parameter, and
-- `IsLawful` says what the program relies on.
use lc_extension.Base.{
  String, ◌≡◌, Bool, true, false, not, List, [], ◌∷◌, ◌++◌, Option, none, some, ◌==◌, ◌&&◌,
}
use lc_extension.Base.{contains, keep, All, if◌then◌else◌}
use lc_extension.Base.Effect.{ok, err, Action}
use lc_extension.Common.Value.{
  Value, Values, Fields, nil, bool, number, text, texts, list, dicts, object, dict, empty, item,
  end, field,
}

-- limacharlie.InstallationKey, with the members that the program reads or sets
pub record InstallationKey : Type 0 where
  pub id : String
  pub description : String
  pub tags : List String

-- limacharlie.HiveArgs; the optional members are not set where the call does not give them
pub record HiveArgs : Type 0 where
  pub hive_name : String
  pub partition_key : String
  pub key : String
  pub payload : Fields
  pub tags : List String
  pub enabled : Option Bool

-- `HiveArgs` that only name a record
abbrev pub record_name : String → String → String → HiveArgs
record_name hive partition key = record {
  hive_name = hive;
  partition_key = partition;
  key = key;
  payload = end;
  tags = [];
  enabled = none;
}

-- A record read back: every map comes back as a plain `map[string]interface{}` and every slice as
-- `[]interface{}`, as encoding/json decodes them.
texts_as_values : List String → Values
texts_as_values [] = empty
texts_as_values (t ∷ ts) = item (text t) (texts_as_values ts)

unfoldable mutual
  unfolding texts_as_values

  pub read_back : Value → Value
  read_back nil = nil
  read_back (bool b) = bool b
  read_back (number n) = number n
  read_back (text t) = text t
  read_back (texts ts) = list (texts_as_values ts)
  read_back (list vs) = list (read_back_values vs)
  read_back (dicts vs) = list (read_back_values vs)
  read_back (object fs) = object (read_back_fields fs)
  read_back (dict fs) = object (read_back_fields fs)

  pub read_back_values : Values → Values
  read_back_values empty = empty
  read_back_values (item v vs) = item (read_back v) (read_back_values vs)

  pub read_back_fields : Fields → Fields
  read_back_fields end = end
  read_back_fields (field k v fs) = field k (read_back v) (read_back_fields fs)

pub record OrgApi : Type 1 where
  pub World : Type 0
  -- limacharlie.Organization, and GetOID
  pub Org : Type 0
  pub get_oid : Org → String
  pub installation_keys : Org → Action World (List InstallationKey)
  pub add_installation_key : Org → InstallationKey → Action World String
  pub del_installation_key : Org → String → Action World (Unit {0})
  -- HiveClient.Get, Add and Remove; of a record only its data is read
  pub hive_get : Org → HiveArgs → Action World Fields
  pub hive_add : Org → HiveArgs → Action World (Unit {0})
  pub hive_remove : Org → HiveArgs → Action World (Unit {0})
  -- crypto/sha256 in hexadecimal
  pub sha256_hex : String → String

-- No two keys have one ID.
abbrev pub UniqueIds : List InstallationKey → Type 0
UniqueIds [] = Unit
UniqueIds (k ∷ ks) = All (λ j. (j.id == k.id) ≡ false) ks × UniqueIds ks

-- What the service holds, and what calls that succeed do to it. A call that fails may have done
-- anything, but for Hive's Get, which only reads.
pub record IsLawful (A : OrgApi) : Type 0 where
  pub keys : A.Org → A.World → List InstallationKey
  -- the record of a Hive under a key, in the organization's partition
  pub record_at : A.Org → A.World → String → String → Option HiveArgs
  pub keys_unique : (o : A.Org) (w : A.World) → UniqueIds (keys o w)
  pub list-keys :
      (o : A.Org) (w w' : A.World) (ks : List InstallationKey)
      → A.installation_keys o w ≡ (ok ks, w')
      → (ks ≡ keys o w) × (keys o w' ≡ keys o w)
  pub list-records :
      (o : A.Org) (w : A.World) (hive key : String)
      → record_at o (A.installation_keys o w).1 hive key ≡ record_at o w hive key
  pub add-keys :
      (o : A.Org) (k : InstallationKey) (w w' : A.World) (id : String)
      → A.add_installation_key o k w ≡ (ok id, w')
      → keys o w' ≡ keys o w ++ (record k { id = id } ∷ [])
  pub del-keys :
      (o : A.Org) (id : String) (w w' : A.World)
      → A.del_installation_key o id w ≡ (ok tt, w')
      → keys o w' ≡ keep (λ k. not (k.id == id)) (keys o w)
  pub del-records :
      (o : A.Org) (id : String) (w w' : A.World) (hive key : String)
      → A.del_installation_key o id w ≡ (ok tt, w')
      → record_at o w' hive key ≡ record_at o w hive key
  pub get-keys : (o : A.Org) (a : HiveArgs) (w : A.World) → keys o (A.hive_get o a w).1 ≡ keys o w
  -- a record that is there is read back
  pub get-record :
      (o : A.Org) (hive key : String) (w w' : A.World) (fs : Fields)
      → A.hive_get o (record_name hive (A.get_oid o) key) w ≡ (ok fs, w')
      → (a : HiveArgs) × (record_at o w hive key ≡ some a) × (fs ≡ read_back_fields a.payload)
  pub put-keys :
      (o : A.Org) (a : HiveArgs) (w w' : A.World)
      → A.hive_add o a w ≡ (ok tt, w')
      → keys o w' ≡ keys o w
  pub put-record :
      (o : A.Org) (a : HiveArgs) (w w' : A.World)
      → a.partition_key ≡ A.get_oid o
      → A.hive_add o a w ≡ (ok tt, w')
      → (hive key : String)
      → record_at o w' hive key
        ≡ (if (a.hive_name == hive) && (a.key == key) then some a else record_at o w hive key)
  pub remove-keys :
      (o : A.Org) (a : HiveArgs) (w : A.World) → keys o (A.hive_remove o a w).1 ≡ keys o w
  pub remove-record :
      (o : A.Org) (hive key : String) (w w' : A.World)
      → A.hive_remove o (record_name hive (A.get_oid o) key) w ≡ (ok tt, w')
      → record_at o w' hive key ≡ none
  -- the error RECORD_NOT_FOUND says that there is no such record
  pub remove-missing :
      (o : A.Org) (hive key : String) (w w' : A.World) (e : String)
      → A.hive_remove o (record_name hive (A.get_oid o) key) w ≡ (err e, w')
      → contains e "RECORD_NOT_FOUND" ≡ true
      → record_at o w' hive key ≡ none
