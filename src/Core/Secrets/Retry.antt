-- ===== src/Core/Secrets/Retry.antt =====
-- How UseSecretValue tries a cached secret, and then a fresh one.
use lc_extension.Base.{String, ◌≡◌, ◌∙◌, eq_refl, true, none, some, arith, contains}
use lc_extension.Base.GoMap.{GoMap, lookup, insert, erase, lookup-erase}
use lc_extension.Base.Effect.{Result, ok, err, Action}
use lc_extension.Core.Api.{OrgApi}
use lc_extension.Core.Secrets.{
  Secrets, path_base, secret_cache_key_name, get_secret_from_hive, fetch_secret, get_secret,
  try_secret, use_secret_value,
}

module _ (A : OrgApi) (o : A.Org) where
  abbrev cache_key : String → String
  cache_key key = secret_cache_key_name (path_base key) (A.get_oid o)

  fetch_secret-cached :
      (name v : String) (s : Secrets A.World)
      → lookup (secret_cache_key_name name (A.get_oid o)) s.cache ≡ some v
      → fetch_secret A o name s ≡ (ok v, s)
  unfolding fetch_secret secret_cache_key_name
  fetch_secret-cached name v s h = ground arith

  fetch_secret-fresh :
      (name : String) (s : Secrets A.World) (r : Result String) (w : A.World)
      → lookup (secret_cache_key_name name (A.get_oid o)) s.cache ≡ none
      → get_secret_from_hive A o name s.world ≡ (r, w)
      → fetch_secret A o name s ≡ (
        r,
        elim r [
          | ok v ↦ record {
            world = w;
            cache = insert (secret_cache_key_name name (A.get_oid o)) v s.cache;
          }
          | err _ ↦ record s { world = w }
        ],
      )
  unfolding fetch_secret secret_cache_key_name
  fetch_secret-fresh name s (ok v) w h g = ground arith
  fetch_secret-fresh name s (err e) w h g = ground arith

  missing : (key : String) (cache : GoMap String) → lookup key (erase key cache) ≡ none
  missing key cache = lookup-erase key key cache ∙ ground (arith, eq_refl key)

  module _ (key : String) (fn : String → Action A.World (Unit {0})) (s : Secrets A.World)
      (reference : contains key "hive://secret/" ≡ true) where
    -- The last round: the function's result is the result.
    last_round :
        (t t' : Secrets A.World) (v : String) (r : Result (Unit {0})) (w : A.World)
        → fetch_secret A o (path_base key) t ≡ (ok v, t')
        → fn v t'.world ≡ (r, w)
        → try_secret A o 1 key fn t ≡ (r, record t' { world = w })
    unfolding try_secret get_secret
    last_round t t' v (ok u) w found runs = ground arith
    last_round t t' v (err e) w found runs = ground arith

    -- The first round, when the function fails: the next starts without the cached value.
    first_round_fails :
        (t' : Secrets A.World) (v e : String) (w : A.World)
        → fetch_secret A o (path_base key) s ≡ (ok v, t')
        → fn v t'.world ≡ (err e, w)
        → use_secret_value A o key fn s
          ≡ try_secret A o 1 key fn (record { world = w; cache = erase (cache_key key) t'.cache })
    unfolding use_secret_value get_secret
    first_round_fails t' v e w found fails = ground arith

    -- For a key that refers to a secret which is cached, and whose cached value works: the function
    -- runs on that value once, and Hive is not asked.
    use_secret_value-cached :
        (v : String) (w : A.World)
        → lookup (cache_key key) s.cache ≡ some v
        → fn v s.world ≡ (ok tt, w)
        → use_secret_value A o key fn s ≡ (ok tt, record s { world = w })
    unfolding use_secret_value get_secret
    use_secret_value-cached v w cached works =
        ground (arith, fetch_secret-cached (path_base key) v s cached)

    -- For a key that refers to a secret which is cached, and whose cached value fails: if Hive then
    -- has a value, the function is tried once more, on that value; its result is the result, and
    -- the cache holds the value.
    pub use_secret_value-stale :
        (v fresh e : String) (r : Result (Unit {0})) (w w' w'' : A.World)
        → lookup (cache_key key) s.cache ≡ some v
        → fn v s.world ≡ (err e, w)
        → get_secret_from_hive A o (path_base key) w ≡ (ok fresh, w')
        → fn fresh w' ≡ (r, w'')
        → use_secret_value A o key fn s ≡ (
          r,
          record {
            world = w'';
            cache = insert (cache_key key) fresh (erase (cache_key key) s.cache);
          },
        )
    use_secret_value-stale v fresh e r w w' w'' cached fails found again =
        first_round_fails s v e w (fetch_secret-cached (path_base key) v s cached) fails
        ∙ last_round dropped _ fresh r w''
            (fetch_secret-fresh (path_base key) dropped (ok fresh) w'
              (missing (cache_key key) s.cache) found)
            again
      where
        dropped : Secrets A.World
        dropped = record { world = w; cache = erase (cache_key key) s.cache }

    -- For a key that refers to a secret which is not cached: if the value that Hive has fails and
    -- Hive then has a value again, the function is tried once more, on that value; the second
    -- result is final, also if it is an error, and the cache holds the second value.
    pub use_secret_value-uncached :
        (first second e : String) (r : Result (Unit {0})) (w1 w2 w3 w4 : A.World)
        → lookup (cache_key key) s.cache ≡ none
        → get_secret_from_hive A o (path_base key) s.world ≡ (ok first, w1)
        → fn first w1 ≡ (err e, w2)
        → get_secret_from_hive A o (path_base key) w2 ≡ (ok second, w3)
        → fn second w3 ≡ (r, w4)
        → use_secret_value A o key fn s ≡ (
          r,
          record {
            world = w4;
            cache =
                insert
                  (cache_key key)
                  second
                  (erase (cache_key key) (insert (cache_key key) first s.cache));
          },
        )
    use_secret_value-uncached first second e r w1 w2 w3 w4 absent got fails got' again =
        first_round_fails _ first e w2
          (fetch_secret-fresh (path_base key) s (ok first) w1 absent got) fails
        ∙ last_round dropped _ second r w4
            (fetch_secret-fresh (path_base key) dropped (ok second) w3
              (missing (cache_key key) (insert (cache_key key) first s.cache)) got')
            again
      where
        dropped : Secrets A.World
        dropped = record {
          world = w2;
          cache = erase (cache_key key) (insert (cache_key key) first s.cache);
        }
