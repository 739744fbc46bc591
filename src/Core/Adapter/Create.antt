-- ===== src/Core/Adapter/Create.antt =====
-- What CreateExtensionAdapter leaves behind when it succeeds.
use mathlib.Core.Path.{subst₂}
use lc_extension.Base.{String, ◌≡◌, refl, sym, ap, ◌∙◌, eq_refl, Bool, not, some, arith}
use lc_extension.Base.{keep}
use lc_extension.Base.Effect.{
  ok, Action, context, context->>=-eq-ok, >>=-eq-ok, context-eq-ok, ◌>>=◌,
}
use lc_extension.Common.Value.{Dict}
use lc_extension.Core.Api.{InstallationKey, HiveArgs, OrgApi, IsLawful}
use lc_extension.Core.Adapter.{
  is_ours, resolve_key, adapter_record, or_empty, create_extension_adapter,
}
use lc_extension.Core.Adapter.OneKey.{HasOneKey, resolve_key-HasOneKey}

module _ (A : OrgApi) (L : IsLawful A) (extension_name secret_key : String) (o : A.Org) where
  abbrev ours : InstallationKey → Bool
  ours = is_ours extension_name

  -- What a run that succeeds has done: it listed the keys, chose one of them or made one, and put
  -- the record.
  pub record Created (opt_mapping : Dict) (w w' : A.World) : Type 0 where
    pub id : String
    pub after : A.World
    pub resolved :
        resolve_key A extension_name secret_key o
          (keep ours (L.keys o w))
          (A.installation_keys o w).1
        ≡ (ok id, after)
    pub one : HasOneKey A L extension_name secret_key o id w w'
    pub put :
        L.record_at o w' "cloud_sensor" extension_name
        ≡ some (adapter_record A extension_name secret_key o (or_empty opt_mapping) id)

  pub create-Created :
      (opt_mapping : Dict) (w w' : A.World)
      → create_extension_adapter A extension_name secret_key o opt_mapping w ≡ (ok tt, w')
      → Created opt_mapping w w'
  unfolding create_extension_adapter
  create-Created opt_mapping w w' h =
      let (ks, u, listed, rest) =
        context->>=-eq-ok "failed to list installation keys: " (A.installation_keys o)
          (λ keys. resolve_key A extension_name secret_key o (keep ours keys) >>= last) w h in
      let (id, v, resolved, added) =
        >>=-eq-ok (resolve_key A extension_name secret_key o (keep ours ks)) last u rest in
      let put : A.hive_add o (adapter id) v ≡ (ok tt, w') =
        context-eq-ok "failed to create webhook adapter: " (A.hive_add o (adapter id)) v added in
      let (now, before) = L.list-keys o w u ks listed in
      let (k, only, has, others) =
        resolve_key-HasOneKey A L extension_name secret_key o u v id (keep ours ks)
          (ap (keep ours) (before ∙ sym now)) resolved in
      let same = L.put-keys o (adapter id) v w' put in
      record {
        id = id;
        after = v;
        resolved =
            subst₂ (λ l z. resolve_key A extension_name secret_key o (keep ours l) z ≡ (ok id, v))
              now (sym (ap (λ p. p.1) listed)) resolved;
        one = (
          k,
          ap (keep ours) same ∙ only,
          has,
          ap (keep (λ j. not (ours j))) same ∙ others ∙ ap (keep (λ j. not (ours j))) before,
        );
        put =
            L.put-record o (adapter id) v w' refl put "cloud_sensor" extension_name
            ∙ ground (arith, eq_refl "cloud_sensor", eq_refl extension_name);
      }
    where
      adapter : String → HiveArgs
      adapter = adapter_record A extension_name secret_key o (or_empty opt_mapping)

      last : String → Action A.World (Unit {0})
      last id = context "failed to create webhook adapter: " (A.hive_add o (adapter id))

  -- Over a service that keeps the laws of `IsLawful`: when CreateExtensionAdapter succeeds, the
  -- organization holds exactly one installation key of the extension; the keys of others are as
  -- they were, in their order; and the adapter's record in the Hive "cloud_sensor" is the one that
  -- carries the ID of that key.
  pub create-HasOneKey :
      (opt_mapping : Dict) (w w' : A.World)
      → create_extension_adapter A extension_name secret_key o opt_mapping w ≡ (ok tt, w')
      → (id : String) × HasOneKey A L extension_name secret_key o id w w'
        × (L.record_at o w' "cloud_sensor" extension_name
            ≡ some (adapter_record A extension_name secret_key o (or_empty opt_mapping) id))
  create-HasOneKey opt_mapping w w' h =
      let c = create-Created opt_mapping w w' h in (c.id, c.one, c.put)
