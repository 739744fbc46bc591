-- ===== src/Tests/Adapters.antt =====
-- A service that keeps installation keys and Hive records as the extension expects, and runs of the
-- adapter's calls on it.
use Prim.Native.Nat.{ℕ, ◌+◌}
use lc_extension.Base.{
  String, ◌<>◌, ◌==◌, ◌&&◌, ◌≡◌, ◌≢◌, refl, sym, ◌∙◌, ap, eq_refl, arith, Bool, true, false, not,
  Bool-cases, inl, inr, List, [], ◌∷◌, ◌++◌, Option, none, some, All, All-append, keep, any,
  decimal, contains, if◌then◌else◌,
}
use lc_extension.Base.Effect.{Result, ok, err, Action}
use lc_extension.Common.Value.{Fields, end}
use lc_extension.Core.Api.{
  InstallationKey, HiveArgs, record_name, read_back_fields, OrgApi, UniqueIds, IsLawful, read_back,
}
use lc_extension.Core.Extension.{get_extension_private_tag}
use lc_extension.Core.Adapter.{
  is_ours, resolve_key, current_adapter_key, key_in_record, delete_others, delete_ours, survivor,
  key_matches_adapter, adapter_key_desc, adapter_record, create_extension_adapter,
  delete_extension_adapter,
}
use lc_extension.Core.Adapter.Keys.{has_id}
use lc_extension.Core.Adapter.OneKey.{HasOneKey}
use lc_extension.Core.Adapter.Create.{create-HasOneKey}
use lc_extension.Core.Adapter.Active.{create_twice, create-keeps_active}
use lc_extension.Core.Adapter.Delete.{delete_extension_adapter_lem}

pub record World : Type 0 where
  pub keys : List InstallationKey
  pub unique : UniqueIds keys
  pub records : String → String → Option HiveArgs
  pub next : ℕ

-- Is the ID in use?
abbrev pub taken : String → List InstallationKey → Bool
taken id ks = any (λ k. id == k.id) ks

keep-All :
    (i : String) (p : InstallationKey → Bool) (ks : List InstallationKey)
    → All (λ j. (j.id == i) ≡ false) ks
    → All (λ j. (j.id == i) ≡ false) (keep p ks)
keep-All i p [] h = tt
keep-All i p (k ∷ ks) h = elim (Bool-cases (p k)) [
  | inl here ↦ rw here (h.0, keep-All i p ks h.1)
  | inr gone ↦ rw gone (keep-All i p ks h.1)
]

pub keep-UniqueIds :
    (p : InstallationKey → Bool) (ks : List InstallationKey) → UniqueIds ks → UniqueIds (keep p ks)
keep-UniqueIds p [] h = tt
keep-UniqueIds p (k ∷ ks) h = elim (Bool-cases (p k)) [
  | inl here ↦ rw here (keep-All k.id p ks h.0, keep-UniqueIds p ks h.1)
  | inr gone ↦ rw gone (keep-UniqueIds p ks h.1)
]

append-UniqueIds :
    (ks : List InstallationKey) (k : InstallationKey)
    → taken k.id ks ≡ false
    → UniqueIds ks
    → UniqueIds (ks ++ (k ∷ []))
append-UniqueIds [] k free h = (tt, tt)
append-UniqueIds (j ∷ ks) k free h = (
  All-append (λ i. (i.id == j.id) ≡ false) ks (k ∷ []) h.0 (ground arith, tt),
  append-UniqueIds ks k (ground arith) h.1,
)

-- A new key gets the next number, unless a key has it already.
pub add_under :
    (id : String)
    → InstallationKey
    → (w : World) → (b : Bool) → taken id w.keys ≡ b
    → Result String × World
add_under id k w true used = (err "ID in use", w)
add_under id k w false free = (
  ok id,
  record w {
    keys = w.keys ++ (record k { id = id } ∷ []);
    unique = append-UniqueIds w.keys (record k { id = id }) free w.unique;
    next = w.next + 1;
  },
)

abbrev add_key : InstallationKey → Action World String
add_key k w = let id = "key-" <> decimal w.next in add_under id k w (taken id w.keys) refl

abbrev del_key : String → Action World (Unit {0})
del_key id w = (
  ok tt,
  record w {
    keys = keep (λ k. not (k.id == id)) w.keys;
    unique = keep-UniqueIds (λ k. not (k.id == id)) w.keys w.unique;
  },
)

abbrev found : Option HiveArgs → Result Fields
found none = err "RECORD_NOT_FOUND"
found (some a) = ok (read_back_fields a.payload)

abbrev set_record : String → String → Option HiveArgs → World → World
set_record hive key r w = record w {
  records = λ h k. if hive == h && key == k then r else w.records h k;
}

abbrev remove : Option HiveArgs → HiveArgs → Action World (Unit {0})
remove none a w = (err "RECORD_NOT_FOUND", w)
remove (some _) a w = (ok tt, set_record a.hive_name a.key none w)

abbrev pub service : OrgApi
service = record {
  World = World;
  Org = String;
  get_oid = λ o. o;
  installation_keys = λ o w. (ok w.keys, w);
  add_installation_key = λ o k w. add_key k w;
  del_installation_key = λ o id w. del_key id w;
  hive_get = λ o a w. (found (w.records a.hive_name a.key), w);
  hive_add = λ o a w. (ok tt, set_record a.hive_name a.key (some a) w);
  hive_remove = λ o a w. remove (w.records a.hive_name a.key) a w;
  sha256_hex = λ t. "sha:" <> t;
}

add_under-keys :
    (id : String) (k : InstallationKey) (w w' : World) (b : Bool) (e : taken id w.keys ≡ b)
    (got : String)
    → add_under id k w b e ≡ (ok got, w')
    → w'.keys ≡ w.keys ++ (record k { id = got } ∷ [])
unfolding add_under
add_under-keys id k w w' true e got h = cc
add_under-keys id k w w' false e got h = cc

list-ok :
    (ks : List InstallationKey) (w w' : World)
    → (let r : Result (List InstallationKey) × World = (ok w.keys, w) in r) ≡ (ok ks, w')
    → (ks ≡ w.keys) × (w'.keys ≡ w.keys)
list-ok ks w w' h = (cc, cc)

found-ok :
    (r : Option HiveArgs) (fs : Fields)
    → found r ≡ ok fs
    → (a : HiveArgs) × (r ≡ some a) × (fs ≡ read_back_fields a.payload)
found-ok none fs h = cc
found-ok (some a) fs h = (a, refl, cc)

remove-keys : (r : Option HiveArgs) (a : HiveArgs) (w : World) → (remove r a w).1.keys ≡ w.keys
remove-keys none a w = refl
remove-keys (some _) a w = refl

remove-ok :
    (o hive key : String) (r : Option HiveArgs) (w w' : World)
    → remove r (record_name hive o key) w ≡ (ok tt, w')
    → w'.records hive key ≡ none
remove-ok o hive key none w w' h = cc
remove-ok o hive key (some _) w w' h =
    sym (ap (λ (p : Result (Unit {0}) × World). p.1.records hive key) h)
    ∙ ground (arith, eq_refl hive, eq_refl key)

remove-err :
    (o hive key : String) (r : Option HiveArgs) (w w' : World) {e : String}
    → w.records hive key ≡ r
    → remove r (record_name hive o key) w ≡ (err e, w')
    → w'.records hive key ≡ none
remove-err o hive key none w w' is h =
    sym (ap (λ (p : Result (Unit {0}) × World). p.1.records hive key) h) ∙ is
remove-err o hive key (some _) w w' is h = cc

abbrev lawful : IsLawful service
lawful = record {
  keys = λ o w. w.keys;
  record_at = λ o w hive key. w.records hive key;
  keys_unique = λ o w. w.unique;
  list-keys = λ o w w' ks h. list-ok ks w w' h;
  list-records = λ o w hive key. refl;
  add-keys = λ o k w w' id h. add_under-keys _ k w w' _ refl id h;
  del-keys = λ o id w w' h. sym (ap (λ (p : Result (Unit {0}) × World). p.1.keys) h);
  del-records =
      λ o id w w' hive key h. sym (ap (λ (p : Result (Unit {0}) × World). p.1.records hive key) h);
  get-keys = λ o a w. refl;
  get-record = λ o hive key w w' fs h.
      found-ok (w.records hive key) fs (ap (λ (p : Result Fields × World). p.0) h);
  put-keys = λ o a w w' h. sym (ap (λ (p : Result (Unit {0}) × World). p.1.keys) h);
  put-record = λ o a w w' same h hive key.
      sym (ap (λ (p : Result (Unit {0}) × World). p.1.records hive key) h);
  remove-keys = λ o a w. remove-keys (w.records a.hive_name a.key) a w;
  remove-record = λ o hive key w w' h. remove-ok o hive key (w.records hive key) w w' h;
  remove-missing =
      λ o hive key w w' e h missing. remove-err o hive key (w.records hive key) w w' refl h;
}

abbrev key_of : String → String → List String → InstallationKey
key_of id description tags = record { id = id; description = description; tags = tags }

-- Two keys of the extension, and one of somebody else, that no run has cleaned up yet; the adapter
-- uses the second.
abbrev two_keys : World
two_keys = record {
  keys =
      key_of "b" "ext scanner webhook adapter" ("lc:system" ∷ "ext:scanner" ∷ [])
      ∷ key_of "x" "laptops" []
      ∷ key_of "c" "ext scanner webhook adapter" ("lc:system" ∷ "ext:scanner" ∷ [])
      ∷ [];
  unique = ((refl, (refl, tt)), ((refl, tt), (tt, tt)));
  records = λ hive key.
      if hive == "cloud_sensor" && key == "scanner"
      then some (adapter_record service "scanner" "secret" "org-1" end "c")
      else none;
  next = 7;
}

abbrev create : World → Result (Unit {0}) × World
create = create_extension_adapter service "scanner" "secret" "org-1" none

abbrev once : World
once = (create two_keys).1

ran : (p : Result (Unit {0}) × World) → p.0 ≡ ok tt → p ≡ (ok tt, p.1)
ran p h = ap (λ (r : Result (Unit {0})). (r, p.1)) h

create_works : (create two_keys).0 ≡ ok tt
unfolding create_extension_adapter resolve_key current_adapter_key key_in_record delete_others
    survivor contains key_matches_adapter read_back get_extension_private_tag adapter_key_desc
create_works = refl

create_works_again : (create once).0 ≡ ok tt
unfolding create_extension_adapter resolve_key current_adapter_key key_in_record delete_others
    survivor contains key_matches_adapter read_back get_extension_private_tag adapter_key_desc
create_works_again = refl

create-HasOneKey_example :
    (id : String) × HasOneKey service lawful "scanner" "secret" "org-1" id two_keys once
    × (once.records "cloud_sensor" "scanner"
        ≡ some (adapter_record service "scanner" "secret" "org-1" end id))
create-HasOneKey_example =
    create-HasOneKey service lawful "scanner" "secret" "org-1" none two_keys once
      (ran (create two_keys) create_works)

create_twice_example :
    (id : String) × HasOneKey service lawful "scanner" "secret" "org-1" id two_keys once
    × HasOneKey service lawful "scanner" "secret" "org-1" id once (create once).1
create_twice_example =
    create_twice service lawful "scanner" "secret" "org-1" none none two_keys once (create once).1
      (ran (create two_keys) create_works) (ran (create once) create_works_again)

reads : (cause : String) → found (two_keys.records "cloud_sensor" "scanner") ≢ err cause
reads cause h = cc

active_key :
    key_in_record
      (read_back_fields (adapter_record service "scanner" "secret" "org-1" end "c").payload)
    ≡ "c"
unfolding key_in_record read_back
active_key = refl

active_listed : has_id "c" (keep (is_ours "scanner") two_keys.keys) ≡ true
unfolding key_matches_adapter get_extension_private_tag adapter_key_desc
active_listed = refl

create-keeps_active_example : HasOneKey service lawful "scanner" "secret" "org-1" "c" two_keys once
create-keeps_active_example =
    create-keeps_active service lawful "scanner" "secret" "org-1" none two_keys once
      (adapter_record service "scanner" "secret" "org-1" end "c") "c" (λ cause h. reads cause h)
      refl active_key (λ h. cc) active_listed (ran (create two_keys) create_works)

abbrev delete : World → Result (Unit {0}) × World
delete = delete_extension_adapter service "scanner" "secret" "org-1"

delete_works : (delete two_keys).0 ≡ ok tt
unfolding delete_extension_adapter delete_ours key_matches_adapter get_extension_private_tag
    adapter_key_desc
delete_works = refl

delete_extension_adapter_lem_example :
    let ours = is_ours "scanner" in
    let w = (delete two_keys).1 in
    (keep ours w.keys ≡ [])
    × (keep (λ k. not (ours k)) w.keys ≡ keep (λ k. not (ours k)) two_keys.keys)
    × (w.records "cloud_sensor" "scanner" ≡ none)
delete_extension_adapter_lem_example =
    delete_extension_adapter_lem service lawful "scanner" "secret" "org-1" two_keys
      (delete two_keys).1 (ran (delete two_keys) delete_works)
