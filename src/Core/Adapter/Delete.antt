-- ===== src/Core/Adapter/Delete.antt =====
-- What DeleteExtensionAdapter leaves behind when it succeeds.
use mathlib.Core.Path.{fun_ext}
use lc_extension.Base.{
  String, ◌<>◌, ◌≡◌, refl, sym, ap, ◌∙◌, ◌==◌, eq_iff, eq_refl, Bool, false, ◌&&◌, not, List, [],
  ◌∷◌, none, arith,
}
use lc_extension.Base.{keep, keep-keep, All, any, contains, if◌then◌else◌, Bool-cases, inl, inr}
use lc_extension.Base.Effect.{
  Result, ok, err, Action, on_result, pure, fail, attempt, context, >>=-eq-ok, context->>=-eq-ok,
  ◌>>=◌,
}
use lc_extension.Core.Api.{InstallationKey, OrgApi, IsLawful, UniqueIds}
use lc_extension.Core.Adapter.Keys.{keep_all, keep_and, keep-congr}
use lc_extension.Core.Adapter.{adapter_name, is_ours, delete_ours, delete_extension_adapter}

-- Does a loop over the keys `ks` delete the key `k`?
abbrev is_target : (InstallationKey → Bool) → List InstallationKey → InstallationKey → Bool
is_target ours ks k = any (λ j. ours j && (k.id == j.id)) ks

module _ (ours : InstallationKey → Bool) where
  is_target-stranger :
      (k : InstallationKey) (ks : List InstallationKey)
      → All (λ j. (j.id == k.id) ≡ false) ks
      → is_target ours ks k ≡ false
  is_target-stranger k [] h = refl
  is_target-stranger k (j ∷ ks) h =
      ground (arith, h.0, is_target-stranger k ks h.1, eq_iff k.id j.id, eq_iff j.id k.id)

  is_target-tail :
      (k : InstallationKey) (ks rest : List InstallationKey)
      → All (λ j. (j.id == k.id) ≡ false) rest
      → All (λ j. not (is_target ours ks j) ≡ not (ours j)) rest
      → All (λ j. not (is_target ours (k ∷ ks) j) ≡ not (ours j)) rest
  is_target-tail k ks [] h d = tt
  is_target-tail k ks (j ∷ rest) h d = (ground (arith, h.0, d.0), is_target-tail k ks rest h.1 d.1)

  -- With unique IDs the loop deletes the extension's keys and no other.
  is_target-ours :
      (ks : List InstallationKey)
      → UniqueIds ks
      → All (λ k. not (is_target ours ks k) ≡ not (ours k)) ks
  is_target-ours [] u = tt
  is_target-ours (k ∷ ks) u = (
    ground (arith, is_target-stranger k ks u.0, eq_refl k.id),
    is_target-tail k ks ks u.0 (is_target-ours ks u.1),
  )

  keep-ours_of_others : (ks : List InstallationKey) → keep ours (keep (λ k. not (ours k)) ks) ≡ []
  keep-ours_of_others [] = refl
  keep-ours_of_others (k ∷ ks) = ground (arith, keep-ours_of_others ks)

module _ (A : OrgApi) (L : IsLawful A) (extension_name secret_key : String) (o : A.Org) where
  abbrev ours : InstallationKey → Bool
  ours = is_ours extension_name

  keys-delete_ours :
      (ks : List InstallationKey) (w w' : A.World)
      → delete_ours A extension_name secret_key o ks w ≡ (ok tt, w')
      → L.keys o w' ≡ keep (λ k. not (is_target ours ks k)) (L.keys o w)
  unfolding delete_ours
  keys-delete_ours [] w w' h = ground (arith, keep_all (L.keys o w))
  keys-delete_ours (k ∷ ks) w w' h = elim (Bool-cases (ours k)) [
    | inl mine ↦
        let (_, v, deleted, rest) =
          context->>=-eq-ok "failed to delete installation key: " (A.del_installation_key o k.id)
            (λ _. delete_ours A extension_name secret_key o ks) w (ground arith) in
        keys-delete_ours ks v w' rest
        ∙ ap (keep (λ j. not (is_target ours ks j))) (L.del-keys o k.id w v deleted)
        ∙ keep_and _ _ (L.keys o w)
        ∙ ap (λ p. keep p (L.keys o w)) (fun_ext λ j. ground arith)
    | inr other ↦
        keys-delete_ours ks w w' (ground arith)
        ∙ ap (λ p. keep p (L.keys o w)) (fun_ext λ j. ground arith)
  ]

  records-delete_ours :
      (ks : List InstallationKey) (w w' : A.World) (hive key : String)
      → delete_ours A extension_name secret_key o ks w ≡ (ok tt, w')
      → L.record_at o w' hive key ≡ L.record_at o w hive key
  unfolding delete_ours
  records-delete_ours [] w w' hive key h = ground arith
  records-delete_ours (k ∷ ks) w w' hive key h = elim (Bool-cases (ours k)) [
    | inl mine ↦
        let (_, v, deleted, rest) =
          context->>=-eq-ok "failed to delete installation key: " (A.del_installation_key o k.id)
            (λ _. delete_ours A extension_name secret_key o ks) w (ground arith) in
        records-delete_ours ks v w' hive key rest ∙ L.del-records o k.id w v hive key deleted
    | inr other ↦ records-delete_ours ks w w' hive key (ground arith)
  ]

  -- A record that is missing is no error.
  if_missing : String → Action A.World (Unit {0})
  if_missing e =
      if contains e "RECORD_NOT_FOUND" then pure tt else fail ("failed to del webhook: " <> e)

  removed :
      (w v w' : A.World) (r : Result (Unit {0}))
      → A.hive_remove o (adapter_name A extension_name secret_key o) w ≡ (r, v)
      → on_result r pure if_missing v ≡ (ok tt, w')
      → (L.record_at o w' "cloud_sensor" extension_name ≡ none) × (L.keys o w' ≡ L.keys o w)
  unfolding if_missing
  removed w v w' (ok u) e h =
      let same : v ≡ w' = ground arith in
      (
        ap (λ z. L.record_at o z "cloud_sensor" extension_name) (sym same)
            ∙ L.remove-record o "cloud_sensor" extension_name w v e,
        ap (L.keys o) (sym same)
            ∙ ap (λ p. L.keys o p.1) (sym e)
            ∙ L.remove-keys o (adapter_name A extension_name secret_key o) w,
      )
  removed w v w' (err m) e h = elim (Bool-cases (contains m "RECORD_NOT_FOUND")) [
    | inl missing ↦
        let same : v ≡ w' = ground arith in
        (
          ap (λ z. L.record_at o z "cloud_sensor" extension_name) (sym same)
              ∙ L.remove-missing o "cloud_sensor" extension_name w v m e missing,
          ap (L.keys o) (sym same)
              ∙ ap (λ p. L.keys o p.1) (sym e)
              ∙ L.remove-keys o (adapter_name A extension_name secret_key o) w,
        )
    | inr other ↦ ground arith
  ]

  -- Over a service that keeps the laws of `IsLawful`: when DeleteExtensionAdapter succeeds, the
  -- organization holds no installation key of the extension and no record of the adapter, and the
  -- keys of others are as they were.
  pub delete_extension_adapter_lem :
      (w w' : A.World)
      → delete_extension_adapter A extension_name secret_key o w ≡ (ok tt, w')
      → (keep ours (L.keys o w') ≡ [])
        × (keep (λ k. not (ours k)) (L.keys o w') ≡ keep (λ k. not (ours k)) (L.keys o w))
        × (L.record_at o w' "cloud_sensor" extension_name ≡ none)
  unfolding delete_extension_adapter if_missing
  delete_extension_adapter_lem w w' h =
      let name = adapter_name A extension_name secret_key o in
      let (_, u, unhooked, rest) =
        >>=-eq-ok (attempt (A.hive_remove o name) pure if_missing)
          (λ _.
            context "failed to list installation keys: " (A.installation_keys o)
            >>= delete_ours A extension_name secret_key o)
          w h in
      let (ks, v, listed, deleted) =
        context->>=-eq-ok "failed to list installation keys: " (A.installation_keys o)
          (delete_ours A extension_name secret_key o) u rest in
      let (gone, kept) =
        removed w (A.hive_remove o name w).1 u (A.hive_remove o name w).0 refl unhooked in
      let (now, before) = L.list-keys o u v ks listed in
      let same : ks ≡ L.keys o v = now ∙ sym before in
      let left : L.keys o w' ≡ keep (λ k. not (ours k)) (L.keys o w) =
        keys-delete_ours ks v w' deleted
        ∙ ap (λ l. keep (λ k. not (is_target ours l k)) (L.keys o v)) same
        ∙ keep-congr (λ k. not (is_target ours (L.keys o v) k)) (λ k. not (ours k)) (L.keys o v)
            (is_target-ours ours (L.keys o v) (L.keys_unique o v))
        ∙ ap (keep (λ k. not (ours k))) (before ∙ kept) in
      (
        ap (keep ours) left ∙ keep-ours_of_others ours (L.keys o w),
        ap (keep (λ k. not (ours k))) left ∙ keep-keep (λ k. not (ours k)) (L.keys o w),
        records-delete_ours ks v w' "cloud_sensor" extension_name deleted
            ∙ ap (λ p. L.record_at o p.1 "cloud_sensor" extension_name) (sym listed)
            ∙ L.list-records o u "cloud_sensor" extension_name
            ∙ gone,
      )
