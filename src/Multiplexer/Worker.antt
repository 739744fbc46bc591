-- ===== src/Multiplexer/Worker.antt =====
-- The Cloud Run service that createService asks for: its labels and its environment.
use Prim.Native.Char.{code}
use Prim.Native.String.{[], ◌∷◌}
use lc_extension.Base.{
  String, ◌==◌, true, false, List, ◌++◌, Option, none, some, eqb, if◌then◌else◌,
}
use lc_extension.Base.GoMap.{GoMap, insert}
use lc_extension.Multiplexer.{EnvVar, CloudService, Settings}

-- `strings.SplitN(text, "=", 2)`, if it has two parts
unfoldable pub split_var : String → Option (String × String)
split_var [] = none
split_var (c ∷ t) = elim (eqb (code c) b'=') [
  | true ↦ some ("", t)
  | false ↦ elim (split_var t) [ none ↦ none | some (name, value) ↦ some (c ∷ name, value) ]
]

-- The shared secret is the new one, whatever the definition says.
unfoldable pub env_var : String → String × String → EnvVar
env_var new_secret (name, value) = record {
  name = name;
  value = if name == "LC_SHARED_SECRET" then new_secret else value;
}

unfoldable pub env_slot : String → String → Option EnvVar
unfolding env_var
env_slot new_secret env_str = elim (split_var env_str) [
  | none ↦ none
  | some parts ↦ some (env_var new_secret parts)
]

-- The slots of the definition, and one more with the OID
unfoldable pub static_env : String → List String → List (Option EnvVar)
unfolding env_slot
static_env new_secret List.[] = List.[]
static_env new_secret (List.◌∷◌ env_str more) =
    List.◌∷◌ (env_slot new_secret env_str) (static_env new_secret more)

unfoldable pub worker_env : String → String → List String → List (Option EnvVar)
unfolding static_env
worker_env oid new_secret env =
    static_env new_secret env
    ++ List.◌∷◌ (some (record { name = "FROM_LC_OID"; value = oid })) List.[]

-- The labels of the definition are written over those of the tenant.
unfoldable pub with_labels : GoMap String → GoMap String → GoMap String
with_labels labels List.[] = labels
with_labels labels (List.◌∷◌ (k, v) more) = with_labels (insert k v labels) more

unfoldable pub worker_labels : Settings → String → GoMap String
unfolding with_labels
worker_labels e oid =
    with_labels (List.◌∷◌ ("lc-oid", oid) (List.◌∷◌ ("lc-extension", e.extension_name) List.[]))
      e.service_definition.labels

unfoldable pub worker : Settings → String → String → CloudService
unfolding worker_env worker_labels
worker e oid new_secret =
    let d = e.service_definition in
    record {
      image = d.image;
      limits = List.◌∷◌ ("cpu", d.cpu) (List.◌∷◌ ("memory", d.memory) List.[]);
      env = worker_env oid new_secret d.env;
      timeout_seconds = d.timeout;
      min_instance_count = d.min_instances;
      max_instance_count = d.max_instances;
      service_account = d.service_account;
      labels = worker_labels e oid;
    }
