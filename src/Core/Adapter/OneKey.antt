-- ===== src/Core/Adapter/OneKey.antt =====
-- The installation key that CreateExtensionAdapter finds or makes is the only one of the extension.
use mathlib.Core.Path.{fun_ext, subst, subst₂}
use mathlib.Core.List.{append-nil}
use lc_extension.Base.{
  String, ◌≡◌, refl, sym, ap, ◌∙◌, ◌==◌, eq_refl, Bool, true, false, not, List, [], ◌∷◌, arith,
}
use lc_extension.Base.{keep, keep-append, Bool-cases, inl, inr}
use lc_extension.Base.Effect.{ok, pure, attempt, context->>=-eq-ok, >>=-eq-ok, context-eq-ok, ◌>>◌}
use lc_extension.Core.Extension.{get_extension_private_tag}
use lc_extension.Core.Api.{InstallationKey, OrgApi, IsLawful}
use lc_extension.Core.Adapter.Keys.{
  keep_all, is_doomed, has_id, keep_and, keep-kept, keep-doomed, keep-ours_survivor,
  keep-others_survivor,
}
use lc_extension.Core.Adapter.{
  adapter_name, adapter_key_desc, key_matches_adapter, is_ours, find_current, min_id, survivor,
  delete_others, resolve_key, current_adapter_key,
}

-- The key that is kept is one of the keys.
has_id-find_current :
    (current : String) (ks : List InstallationKey)
    → (find_current current ks == "") ≡ false
    → has_id (find_current current ks) ks ≡ true
unfolding find_current
has_id-find_current current [] h = cc
has_id-find_current current (k ∷ ks) h =
    ground (arith, has_id-find_current current ks, eq_refl k.id)

has_id-min_id :
    (m : InstallationKey) (ks : List InstallationKey) → has_id (min_id m ks) (m ∷ ks) ≡ true
unfolding min_id
has_id-min_id m [] = ground (arith, eq_refl m.id)
has_id-min_id m (k ∷ ks) = ground (arith, has_id-min_id m ks, has_id-min_id k ks)

has_id-survivor :
    (current : String) (k : InstallationKey) (ks : List InstallationKey)
    → has_id (survivor current k ks) (k ∷ ks) ≡ true
unfolding survivor
has_id-survivor current k ks =
    ground (arith, has_id-find_current current (k ∷ ks), has_id-min_id k ks)

module _ (A : OrgApi) (L : IsLawful A) (extension_name secret_key : String) (o : A.Org) where
  -- The deleting loop, when it succeeds.
  keys-delete_others :
      (kept : String) (ours : List InstallationKey) (w w' : A.World)
      → delete_others A extension_name secret_key o kept ours w ≡ (ok tt, w')
      → L.keys o w' ≡ keep (λ k. not (is_doomed kept ours k)) (L.keys o w)
  unfolding delete_others
  keys-delete_others kept [] w w' h = ground (arith, keep_all (L.keys o w))
  keys-delete_others kept (k ∷ ks) w w' h = elim (Bool-cases (k.id == kept)) [
    | inl same ↦
        keys-delete_others kept ks w w' (ground arith)
        ∙ ap (λ p. keep p (L.keys o w)) (fun_ext λ j. ground arith)
    | inr other ↦
        let (u, v, deleted, rest) =
          context->>=-eq-ok "failed to delete duplicate installation key: "
            (A.del_installation_key o k.id)
            (λ _. delete_others A extension_name secret_key o kept ks) w (ground arith) in
        keys-delete_others kept ks v w' rest
        ∙ ap (keep (λ j. not (is_doomed kept ks j))) (L.del-keys o k.id w v deleted)
        ∙ keep_and _ _ (L.keys o w)
        ∙ ap (λ p. keep p (L.keys o w)) (fun_ext λ j. ground arith)
  ]

  abbrev ours : InstallationKey → Bool
  ours = is_ours extension_name

  keys-current :
      (w : A.World)
      → L.keys o
          (attempt (current_adapter_key A extension_name secret_key o) pure (λ _. pure "") w).1
        ≡ L.keys o w
  unfolding current_adapter_key
  keys-current w = ground (arith, L.get-keys o (adapter_name A extension_name secret_key o) w)

  -- Exactly one key of the extension, with the ID `id`; the keys of others are as before.
  abbrev pub HasOneKey : String → A.World → A.World → Type 0
  HasOneKey id w w' =
      (k : InstallationKey) × (keep ours (L.keys o w') ≡ k ∷ [])
      × (k.id ≡ id)
      × (keep (λ j. not (ours j)) (L.keys o w') ≡ keep (λ j. not (ours j)) (L.keys o w))

  abbrev new_key : String → InstallationKey
  new_key id = record {
    id = id;
    description = adapter_key_desc extension_name;
    tags = "lc:system" ∷ get_extension_private_tag extension_name ∷ [];
  }

  new_key-ours : (id : String) → ours (new_key id) ≡ true
  unfolding key_matches_adapter
  new_key-ours id = ground (
    arith,
    eq_refl (adapter_key_desc extension_name),
    eq_refl (get_extension_private_tag extension_name),
  )

  resolve_key-new :
      (w w' : A.World) (id : String)
      → keep ours (L.keys o w) ≡ []
      → resolve_key A extension_name secret_key o [] w ≡ (ok id, w')
      → HasOneKey id w w'
  unfolding resolve_key
  resolve_key-new w w' id e h =
      let added = L.add-keys o (new_key "") w w' id (
        context-eq-ok "failed to create installation key for webhook adapter: "
          (A.add_installation_key o (new_key "")) w h) in
      (
        new_key id,
        ap (keep ours) added
            ∙ keep-append ours (L.keys o w) (new_key id ∷ [])
            ∙ ground (arith, new_key-ours id),
        refl,
        ap (keep (λ j. not (ours j))) added
            ∙ keep-append (λ j. not (ours j)) (L.keys o w) (new_key id ∷ [])
            ∙ ground (arith, new_key-ours id, append-nil (keep (λ j. not (ours j)) (L.keys o w))),
      )

  -- The keys after the loop, by the key that it spared.
  HasOneKey-delete_others :
      (w v w' : A.World) (id : String)
      → L.keys o v ≡ L.keys o w
      → has_id id (keep ours (L.keys o w)) ≡ true
      → delete_others A extension_name secret_key o id (keep ours (L.keys o w)) v ≡ (ok tt, w')
      → HasOneKey id w w'
  HasOneKey-delete_others w v w' id same found h =
      let ks = L.keys o w in
      let (k, only, kept, mine) = keep-kept id ours ks (L.keys_unique o w) found in
      let left =
        keys-delete_others id (keep ours ks) v w' h
        ∙ ap (keep (λ j. not (is_doomed id (keep ours ks) j))) same
        ∙ keep-doomed id ours ks (L.keys_unique o w) in
      (
        k,
        ap (keep ours) left ∙ keep-ours_survivor id ours ks ∙ only,
        kept,
        ap (keep (λ j. not (ours j))) left ∙ keep-others_survivor id ours ks,
      )

  resolve_key-kept :
      (w w' : A.World) (id : String) (k : InstallationKey) (ks : List InstallationKey)
      → keep ours (L.keys o w) ≡ k ∷ ks
      → resolve_key A extension_name secret_key o (k ∷ ks) w ≡ (ok id, w')
      → HasOneKey id w w'
  unfolding resolve_key
  resolve_key-kept w w' id k ks e h =
      let (current, v, got, rest) =
        >>=-eq-ok (attempt (current_adapter_key A extension_name secret_key o) pure (λ _. pure ""))
          (λ current.
            delete_others A extension_name secret_key o (survivor current k ks) (k ∷ ks)
            >> pure (survivor current k ks))
          w h in
      let (_, u, deleted, last) =
        >>=-eq-ok (delete_others A extension_name secret_key o (survivor current k ks) (k ∷ ks))
          (λ _. pure (survivor current k ks)) v rest in
      let id_eq : survivor current k ks ≡ id = ground arith in
      let end_eq : u ≡ w' = ground arith in
      HasOneKey-delete_others w v w' id (ap (λ p. L.keys o p.1) (sym got) ∙ keys-current w)
        (subst (λ s. has_id s (keep ours (L.keys o w)) ≡ true) id_eq
          (rw e (has_id-survivor current k ks)))
        (subst₂
          (λ s z.
            delete_others A extension_name secret_key o s (keep ours (L.keys o w)) v ≡ (ok tt, z))
          id_eq end_eq (rw e deleted))

  pub resolve_key-HasOneKey :
      (w w' : A.World) (id : String) (matching : List InstallationKey)
      → keep ours (L.keys o w) ≡ matching
      → resolve_key A extension_name secret_key o matching w ≡ (ok id, w')
      → HasOneKey id w w'
  resolve_key-HasOneKey w w' id [] e h = resolve_key-new w w' id e h
  resolve_key-HasOneKey w w' id (k ∷ ks) e h = resolve_key-kept w w' id k ks e h
