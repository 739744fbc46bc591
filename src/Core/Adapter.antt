-- ===== src/Core/Adapter.antt =====
-- core/adapter.go: the webhook adapter of an extension, and its installation key.
pub mod Keys
pub mod OneKey
pub mod Create
pub mod Active
pub mod Delete
use Prim.Native.String.{compare}
use Prim.Native.Nat.{Ordering}
use lc_extension.Base.{
  ℕ, String, ◌<>◌, ◌==◌, Bool, true, false, ◌&&◌, not, List, [], ◌∷◌, Option, none, some,
}
use lc_extension.Base.{keep, has_text, contains, if◌then◌else◌}
use lc_extension.Base.Effect.{Result, ok, err, Action, pure, fail, context, attempt, ◌>>=◌, ◌>>◌}
use lc_extension.Common.Value.{Value, Fields, Dict, empty_dict, text, object, dict, end, field, get}
use lc_extension.Core.Extension.{get_extension_private_tag}
use lc_extension.Core.Api.{InstallationKey, HiveArgs, record_name, OrgApi}

-- keyMatchesAdapter
unfoldable pub key_matches_adapter : String → String → InstallationKey → Bool
key_matches_adapter desc private_tag k = k.description == desc && has_text k.tags private_tag

-- getExtensionAdapterInstallationKeyDesc
unfoldable pub adapter_key_desc : String → String
adapter_key_desc extension_name = "ext " <> extension_name <> " webhook adapter"

-- `v.(map[string]interface{})` and `v.(string)`
abbrev pub as_object : Value → Option Fields
as_object (object fs) = some fs
as_object _ = none

abbrev pub as_text : Value → String
as_text (text t) = t
as_text _ = ""

-- `data.webhook.client_options.identity.installation_key`, "" where the path breaks off
unfoldable pub key_in_record : Fields → String
unfolding get
key_in_record content = elim (as_object (get "webhook" content)) [
  | none ↦ ""
  | some webhook ↦ elim (as_object (get "client_options" webhook)) [
    | none ↦ ""
    | some client_options ↦ elim (as_object (get "identity" client_options)) [
      | none ↦ ""
      | some identity ↦ as_text (get "installation_key" identity)
    ]
  ]
]

-- The ID of the key that the adapter uses now, if it is one of the keys; "" if not.
unfoldable pub find_current : String → List InstallationKey → String
find_current current [] = ""
find_current current (k ∷ ks) = if k.id == current then k.id else find_current current ks

-- slices.MinFunc by strings.Compare of the IDs: the first of the smallest
unfoldable pub min_id : InstallationKey → List InstallationKey → String
min_id m [] = m.id
min_id m (k ∷ ks) = min_id (elim (compare k.id m.id) [ Ordering.lt ↦ k | _ ↦ m ]) ks

-- The key that is kept.
unfoldable pub survivor : String → InstallationKey → List InstallationKey → String
unfolding find_current min_id
survivor current k ks =
    let found = find_current current (k ∷ ks) in if found == "" then min_id k ks else found

-- A key that CreateExtensionAdapter makes, or may have made.
abbrev pub is_ours : String → InstallationKey → Bool
is_ours extension_name =
    key_matches_adapter (adapter_key_desc extension_name) (get_extension_private_tag extension_name)

-- `if optMapping == nil { optMapping = limacharlie.Dict{} }`
abbrev pub or_empty : Dict → Fields
or_empty none = end
or_empty (some fs) = fs

module _ (A : OrgApi) (extension_name secret_key : String) where
  abbrev private_tag : String
  private_tag = get_extension_private_tag extension_name

  abbrev pub adapter_name : A.Org → HiveArgs
  adapter_name o = record_name "cloud_sensor" (A.get_oid o) extension_name

  -- Extension.currentAdapterKey
  unfoldable pub current_adapter_key : A.Org → Action A.World String
  current_adapter_key o =
      attempt (A.hive_get o (adapter_name o)) (λ content. pure (key_in_record content))
        (λ e.
          if contains e "RECORD_NOT_FOUND"
          then pure ""
          else fail ("reading cloud_sensor record: " <> e))

  -- The loop that deletes every key but the survivor.
  unfoldable pub delete_others : A.Org → String → List InstallationKey → Action A.World (Unit {0})
  delete_others o kept [] = pure tt
  delete_others o kept (k ∷ ks) =
      let rest = delete_others o kept ks in
      if k.id == kept then rest else (do
        context "failed to delete duplicate installation key: " (A.del_installation_key o k.id)
        rest)

  -- An existing key, after the others are deleted, or a new one.
  unfoldable pub resolve_key : A.Org → List InstallationKey → Action A.World String
  resolve_key o [] = context "failed to create installation key for webhook adapter: " (
      A.add_installation_key o (record {
        id = "";
        description = adapter_key_desc extension_name;
        tags = "lc:system" ∷ private_tag ∷ [];
      }))
  resolve_key o (k ∷ ks) = do
    current ← attempt (current_adapter_key o) pure (λ _. pure "")
    delete_others o (survivor current k ks) (k ∷ ks)
    pure (survivor current k ks)

  -- Extension.generateWebhookSecretForOrg
  unfoldable pub webhook_secret_for_org : String → String
  webhook_secret_for_org oid = A.sha256_hex (secret_key <> oid)

  -- `Data` of the adapter's record
  abbrev pub adapter_data : A.Org → Fields → String → Fields
  adapter_data o mapping installation_key = field "sensor_type" (text "webhook") (
      field "webhook"
        (dict (
          field "secret" (text (webhook_secret_for_org (A.get_oid o))) (
            field "client_options"
              (dict (
                field "hostname" (text extension_name) (
                  field "identity"
                    (dict (
                      field "oid" (text (A.get_oid o))
                        (field "installation_key" (text installation_key) end)))
                    (field "platform" (text "json") (
                      field "sensor_seed_key" (text extension_name)
                        (field "mapping" (dict mapping) end))))))
              end)))
        end)

  abbrev pub adapter_record : A.Org → Fields → String → HiveArgs
  adapter_record o mapping installation_key = record {
    hive_name = "cloud_sensor";
    partition_key = A.get_oid o;
    key = extension_name;
    payload = adapter_data o mapping installation_key;
    tags = "lc:system" ∷ private_tag ∷ [];
    enabled = some true;
  }

  -- Extension.CreateExtensionAdapter
  unfoldable pub create_extension_adapter : A.Org → Dict → Action A.World (Unit {0})
  create_extension_adapter o opt_mapping = do
    keys ← context "failed to list installation keys: " (A.installation_keys o)
    installation_key ← resolve_key o (keep (is_ours extension_name) keys)
    context "failed to create webhook adapter: "
        (A.hive_add o (adapter_record o (or_empty opt_mapping) installation_key))

  -- The loop over the listed keys: those of the extension are deleted.
  unfoldable pub delete_ours : A.Org → List InstallationKey → Action A.World (Unit {0})
  delete_ours o [] = pure tt
  delete_ours o (k ∷ ks) =
      let rest = delete_ours o ks in
      if is_ours extension_name k
      then (do context "failed to delete installation key: " (A.del_installation_key o k.id); rest)
      else rest

  -- Extension.DeleteExtensionAdapter; a record that is not there is no error
  unfoldable pub delete_extension_adapter : A.Org → Action A.World (Unit {0})
  delete_extension_adapter o = do
    attempt (A.hive_remove o (adapter_name o)) pure (λ e.
        if contains e "RECORD_NOT_FOUND" then pure tt else fail ("failed to del webhook: " <> e))
    keys ← context "failed to list installation keys: " (A.installation_keys o)
    delete_ours o keys
