-- ===== src/Tests/Secrets.antt =====
-- Secrets that are cached, stale or new, and texts in which they stand.
use lc_extension.Base.{
  String, ◌==◌, ◌&&◌, ◌≡◌, refl, true, false, [], ◌∷◌, none, some, All, contains, if◌then◌else◌,
}
use lc_extension.Base.Effect.{ok, err, Action}
use lc_extension.Base.GoMap.{GoMap, lookup, insert, erase}
use lc_extension.Common.Value.{end, field, text, get}
use lc_extension.Core.Api.{record_name, read_back}
use lc_extension.Core.Mask.{occurs, mask_secrets}
use lc_extension.Core.Mask.Hides.{mask_secrets-hides}
use lc_extension.Core.Secrets.{
  Secrets, path_base, secret_cache_key_name, secret_text, get_secret_from_hive, use_secret_value,
}
use lc_extension.Core.Secrets.Retry.{use_secret_value-stale, use_secret_value-uncached}
use lc_extension.Tests.Adapters.{World, service}

-- Hive has the secret "api" with the value "new".
abbrev stored : World
stored = record {
  keys = [];
  unique = tt;
  records = λ hive key.
      if hive == "secret" && key == "api"
      then some (record (record_name "secret" "org-1" "api") {
        payload = field "secret" (text "new") end;
      })
      else none;
  next = 0;
}

abbrev reference : String
reference = "hive://secret/api"

abbrev caching : GoMap String → Secrets World
caching cache = record { world = stored; cache = cache }

-- A call that takes one value only.
abbrev wants : String → String → Action World (Unit {0})
wants value v w = (if v == value then ok tt else err "denied", w)

is_reference : contains reference "hive://secret/" ≡ true
unfolding contains
is_reference = refl

use_secret_value-stale_example :
    use_secret_value service "org-1" reference (wants "new") (caching (("org-1:api", "old") ∷ []))
    ≡ (ok tt, caching (("org-1:api", "new") ∷ []))
unfolding path_base secret_cache_key_name lookup insert erase get_secret_from_hive secret_text get
    read_back
use_secret_value-stale_example =
    use_secret_value-stale service "org-1" reference (wants "new")
      (caching (("org-1:api", "old") ∷ [])) is_reference "old" "new" "denied" (ok tt) stored stored
      stored refl refl refl refl

use_secret_value-uncached_example :
    use_secret_value service "org-1" reference (wants "old") (caching [])
    ≡ (err "denied", caching (("org-1:api", "new") ∷ []))
unfolding path_base secret_cache_key_name lookup insert erase get_secret_from_hive secret_text get
    read_back
use_secret_value-uncached_example =
    use_secret_value-uncached service "org-1" reference (wants "old") (caching []) is_reference
      "new" "new" "denied" (err "denied") stored stored stored stored refl refl refl refl refl

mask_secrets-hides_example :
    All (λ s. occurs s (mask_secrets "key=ab12" ("b1" ∷ "key" ∷ [])) ≡ false) ("b1" ∷ "key" ∷ [])
mask_secrets-hides_example = mask_secrets-hides "key=ab12" ("b1" ∷ "key" ∷ []) (refl, (refl, tt))
