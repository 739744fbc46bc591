-- ===== src/Core/Secrets.antt =====
-- The secrets of core/utils.go: values kept in Hive, with a cache in the process.
pub mod Retry
use Prim.Native.Char.{code}
use Prim.Native.String.{[], ◌∷◌}
use lc_extension.Base.{
  ℕ, zero, suc, String, ◌<>◌, ◌==◌, ◌&&◌, Option, none, some, eqb, contains, if◌then◌else◌,
}
use lc_extension.Base.GoMap.{GoMap, lookup, insert, erase}
use lc_extension.Base.Effect.{Result, ok, err, Action, pure, fail, on_result, attempt, ◌>>=◌, ◌>>◌}
use lc_extension.Common.Value.{Value, Fields, text, get}
use lc_extension.Core.Api.{OrgApi, HiveArgs, record_name}

-- The text without the slashes at its end.
trim_slashes : String → String
trim_slashes [] = []
trim_slashes (c ∷ t) =
    let rest = trim_slashes t in if rest == "" && eqb (code c) b'/' then "" else c ∷ rest

-- What stands behind the last slash.
last_segment : String → String → String
last_segment segment [] = segment
last_segment segment (c ∷ t) =
    last_segment (if eqb (code c) b'/' then "" else segment <> (c ∷ [])) t

-- path.Base
unfoldable pub path_base : String → String
unfolding trim_slashes last_segment
path_base path =
    let trimmed = trim_slashes path in
    if path == "" then "." else if trimmed == "" then "/" else last_segment "" trimmed

-- getSecretCacheKeyName
unfoldable pub secret_cache_key_name : String → String → String
secret_cache_key_name name oid = oid <> ":" <> name

-- The world, and `secretCache`
pub record Secrets (W : Type 0) : Type 0 where
  pub world : W
  pub cache : GoMap String

-- `value, ok := v.(string)` with the test for ""
unfoldable pub secret_text : Value → Option String
secret_text (text t) = if t == "" then none else some t
secret_text _ = none

module _ (A : OrgApi) (o : A.Org) where
  abbrev State : Type 0
  State = Secrets A.World

  -- A call that leaves the cache alone.
  abbrev pub outside {ℓ} : {B : Type ℓ} → Action A.World B → Action State B
  outside m s = let (r, w) = m s.world in (r, record s { world = w })

  -- getSecretFromHive
  unfoldable pub get_secret_from_hive : String → Action A.World String
  unfolding secret_text get
  get_secret_from_hive name = do
    content ← A.hive_get o (record_name "secret" (A.get_oid o) name)
    elim (secret_text (get "secret" content)) [
      | none ↦ fail "secret not set or is not of type string"
      | some value ↦ pure value
    ]

  -- setSecretCache, deleteSecretCache
  unfoldable pub set_secret_cache : String → String → Action State (Unit {0})
  set_secret_cache name value s = (ok tt, record s { cache = insert name value s.cache })

  unfoldable pub delete_secret_cache : String → Action State (Unit {0})
  delete_secret_cache name s = (ok tt, record s { cache = erase name s.cache })

  -- The secret of a name: from the cache, or from Hive into the cache.
  unfoldable pub fetch_secret : String → Action State String
  unfolding secret_cache_key_name set_secret_cache
  fetch_secret name s =
      let key = secret_cache_key_name name (A.get_oid o) in
      elim (lookup key s.cache) [
        | some value ↦ (ok value, s)
        | none ↦
            (do value ← outside (get_secret_from_hive name); set_secret_cache key value; pure value)
              s
      ]

  -- GetSecret: the value, and the name of the secret, "" for a key that is no reference
  unfoldable pub get_secret : String → Action State (String × String)
  get_secret key =
      if contains key "hive://secret/"
      then (do value ← fetch_secret (path_base key); pure (value, path_base key))
      else pure (key, "")

  -- The loop of UseSecretValue, with the rounds that are left.
  unfoldable pub try_secret :
      ℕ → String → (String → Action A.World (Unit {0})) → Action State (Unit {0})
  unfolding delete_secret_cache secret_cache_key_name
  try_secret zero key fn = fail ("secrets function failed for org: " <> A.get_oid o)
  try_secret (suc rounds) key fn =
      let again = try_secret rounds key fn in
      do
        found ← get_secret key
        attempt (outside (fn found.0)) pure (λ e.
            if eqb rounds 0
            then fail e
            else (do delete_secret_cache (secret_cache_key_name found.1 (A.get_oid o)); again))

  -- UseSecretValue
  unfoldable pub use_secret_value :
      String → (String → Action A.World (Unit {0})) → Action State (Unit {0})
  unfolding try_secret
  use_secret_value key fn =
      if contains key "hive://secret/" then try_secret 2 key fn else outside (fn key)
