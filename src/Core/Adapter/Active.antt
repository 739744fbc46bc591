-- ===== src/Core/Adapter/Active.antt =====
-- Which key CreateExtensionAdapter keeps: the one that the adapter uses, and always the same.
use mathlib.Core.Path.{subst}
use lc_extension.Base.{
  String, ◌≡◌, refl, sym, ap, ◌∙◌, ◌≢◌, ◌==◌, eq_iff, Bool, true, false, List, [], ◌∷◌, some, arith,
}
use lc_extension.Base.{keep, if◌then◌else◌}
use lc_extension.Base.Effect.{ok, err, pure, attempt, ok_of_not_err, >>=-eq-ok, ◌>>◌}
use lc_extension.Common.Value.{Dict}
use lc_extension.Core.Api.{InstallationKey, HiveArgs, OrgApi, IsLawful, read_back_fields}
use lc_extension.Core.Adapter.Keys.{has_id}
use lc_extension.Core.Adapter.OneKey.{HasOneKey}
use lc_extension.Core.Adapter.Create.{create-Created}
use lc_extension.Core.Adapter.{
  key_in_record, adapter_name, is_ours, find_current, min_id, survivor, delete_others, resolve_key,
  current_adapter_key, create_extension_adapter,
}

find_current_lem :
    (current : String) (ks : List InstallationKey)
    → has_id current ks ≡ true
    → find_current current ks ≡ current
unfolding find_current
find_current_lem current [] h = cc
find_current_lem current (k ∷ ks) h =
    ground (arith, eq_iff k.id current, find_current_lem current ks)

survivor-current :
    (current : String) (k : InstallationKey) (ks : List InstallationKey)
    → current ≢ ""
    → has_id current (k ∷ ks) ≡ true
    → survivor current k ks ≡ current
unfolding survivor
survivor-current current k ks named h =
    ground (arith, find_current_lem current (k ∷ ks), eq_iff (find_current current (k ∷ ks)) "")

-- The two branches of `survivor` at one key.
same_either_way :
    (b : Bool) (id : String)
    → (let found = if b then id else "" in if found == "" then id else found) ≡ id
same_either_way true id = ground arith
same_either_way false id = refl

-- The only key is kept, whatever the adapter uses.
survivor-singleton : (current : String) (k : InstallationKey) → survivor current k [] ≡ k.id
unfolding survivor find_current min_id
survivor-singleton current k = same_either_way (k.id == current) k.id

module _ (A : OrgApi) (L : IsLawful A) (extension_name secret_key : String) (o : A.Org) where
  abbrev ours : InstallationKey → Bool
  ours = is_ours extension_name

  -- The ID that an existing key was chosen by.
  resolve_key-survivor :
      (w w' : A.World) (id : String) (k : InstallationKey) (ks : List InstallationKey)
      → resolve_key A extension_name secret_key o (k ∷ ks) w ≡ (ok id, w')
      → (current : String) × ((attempt
            (current_adapter_key A extension_name secret_key o)
            pure
            (λ _. pure "")
            w).0
          ≡ ok current)
        × (id ≡ survivor current k ks)
  unfolding resolve_key
  resolve_key-survivor w w' id k ks h =
      let (current, v, got, rest) =
        >>=-eq-ok (attempt (current_adapter_key A extension_name secret_key o) pure (λ _. pure ""))
          (λ current.
            delete_others A extension_name secret_key o (survivor current k ks) (k ∷ ks)
            >> pure (survivor current k ks))
          w h in
      let (_, u, deleted, last) =
        >>=-eq-ok (delete_others A extension_name secret_key o (survivor current k ks) (k ∷ ks))
          (λ _. pure (survivor current k ks)) v rest in
      (current, ap (λ p. p.0) got, ground arith)

  -- Over a service that keeps the laws of `IsLawful`: when CreateExtensionAdapter succeeds twice in
  -- a row, there is one ID such that after the first run and after the second exactly one
  -- installation key of the extension is there, with that ID.
  pub create_twice :
      (mapping mapping' : Dict) (w w' w'' : A.World)
      → create_extension_adapter A extension_name secret_key o mapping w ≡ (ok tt, w')
      → create_extension_adapter A extension_name secret_key o mapping' w' ≡ (ok tt, w'')
      → (id : String) × HasOneKey A L extension_name secret_key o id w w'
        × HasOneKey A L extension_name secret_key o id w' w''
  create_twice mapping mapping' w w' w'' h h' =
      let c = create-Created A L extension_name secret_key o mapping w w' h in
      let d = create-Created A L extension_name secret_key o mapping' w' w'' h' in
      let (k, only, has, others) = c.one in
      let again =
        subst
          (λ l.
            resolve_key A extension_name secret_key o l (A.installation_keys o w').1
            ≡ (ok d.id, d.after))
          only d.resolved in
      let (current, _, chosen) =
        resolve_key-survivor (A.installation_keys o w').1 d.after d.id k [] again in
      let same : d.id ≡ c.id = chosen ∙ survivor-singleton current k ∙ has in
      (c.id, c.one, subst (λ id. HasOneKey A L extension_name secret_key o id w' w'') same d.one)

  -- Right after the keys were listed, Hive's Get of the adapter's record does not fail.
  abbrev pub ReadsRecord : A.World → Type 0
  ReadsRecord w =
      (cause : String)
      → (A.hive_get o (adapter_name A extension_name secret_key o) (A.installation_keys o w).1).0
        ≢ err cause

  -- What `currentAdapterKey` finds, right after the keys were listed.
  current-record :
      (w : A.World) (a : HiveArgs) (current : String)
      → ReadsRecord w
      → L.record_at o w "cloud_sensor" extension_name ≡ some a
      → (attempt
          (current_adapter_key A extension_name secret_key o)
          pure
          (λ _. pure "")
          (A.installation_keys o w).1).0
        ≡ ok current
      → current ≡ key_in_record (read_back_fields a.payload)
  unfolding current_adapter_key
  current-record w a current reads there got =
      let u = (A.installation_keys o w).1 in
      let name = adapter_name A extension_name secret_key o in
      let (fs, read) = ok_of_not_err (A.hive_get o name u).0 reads in
      let (b, at, back) =
        L.get-record o "cloud_sensor" extension_name u (A.hive_get o name u).1 fs (ground arith) in
      let same : some b ≡ some a =
        sym at ∙ L.list-records o w "cloud_sensor" extension_name ∙ there in
      let found : current ≡ key_in_record fs = ground arith in
      found ∙ ground (arith, ap key_in_record back)

  -- Over a service that keeps the laws of `IsLawful`: when CreateExtensionAdapter succeeds, and
  -- before it the adapter's record could be read and named, by an ID that is not empty, one of the
  -- extension's keys, then that key is the one that is left.
  pub create-keeps_active :
      (mapping : Dict) (w w' : A.World) (a : HiveArgs) (current : String)
      → ReadsRecord w
      → L.record_at o w "cloud_sensor" extension_name ≡ some a
      → key_in_record (read_back_fields a.payload) ≡ current
      → current ≢ ""
      → has_id current (keep ours (L.keys o w)) ≡ true
      → create_extension_adapter A extension_name secret_key o mapping w ≡ (ok tt, w')
      → HasOneKey A L extension_name secret_key o current w w'
  create-keeps_active mapping w w' a current reads there names named listed h =
      let c = create-Created A L extension_name secret_key o mapping w w' h in
      subst (λ id. HasOneKey A L extension_name secret_key o id w w')
        (chosen (keep ours (L.keys o w)) c.after c.id listed c.resolved) c.one
    where
      chosen :
          (matching : List InstallationKey) (v : A.World) (id : String)
          → has_id current matching ≡ true
          → resolve_key A extension_name secret_key o matching (A.installation_keys o w).1
            ≡ (ok id, v)
          → id ≡ current
      chosen [] v id l r = cc
      chosen (k ∷ ks) v id l r =
          let (used, got, by) = resolve_key-survivor (A.installation_keys o w).1 v id k ks r in
          let same : used ≡ current = current-record w a used reads there got ∙ names in
          by ∙ ap (λ s. survivor s k ks) same ∙ survivor-current current k ks named l
