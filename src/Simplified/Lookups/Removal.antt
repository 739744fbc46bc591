-- ===== src/Simplified/Lookups/Removal.antt =====
-- What unsubscribing from a lookup extension removes from Hive.
use mathlib.Core.Path.{subst}
use lc_extension.Base.{
  String, ◌≡◌, refl, sym, ap, ◌∙◌, Bool-cases, inl, inr, ◌==◌, ◌&&◌, false, [], ◌∷◌, Option, none,
  some, has_text, arith, eq_iff, if◌then◌else◌,
}
use lc_extension.Base.GoMap.{GoMap, lookup}
use lc_extension.Base.MapKeys.{UniqueKeys, lookup-absent}
use lc_extension.Base.Effect.{Result, ok, err, ◌>>=◌, >>=-eq-ok, Speaks, >>=-Speaks}
use lc_extension.Common.Messages.{unsubscribe}
use lc_extension.Core.Extension.{EventCallbackParams}
use lc_extension.Simplified.Handlers.{handled}
use lc_extension.Simplified.Rules.{HiveRecord}
use lc_extension.Simplified.Rules.Update.{Tags}
use lc_extension.Simplified.Rules.Events.{update_rule_hive}
use lc_extension.Simplified.Lookups.{
  LookupService, lookup_tag, update_rule_name, update_rule_id, lookup_id, remove_tagged, remove_all,
  removed_all, unsubscribe_lookups,
}
use lc_extension.Simplified.Lookups.Stored.{Stores, tags_at}

module _ (S : LookupService) (L : Stores S) (name : String) where
  -- What is left of a record, from its tags.
  abbrev pub kept : Option Tags → Option HiveRecord → Option HiveRecord
  kept none old = old
  kept (some tags) old = if has_text tags (lookup_tag S name) then none else old

  module _ (o : S.Org) where
    abbrev at : S.World → String → Option HiveRecord
    at w key = L.record_at o w "lookup" key

    removed_elsewhere :
        (n : String) {w v : S.World} (hive key : String)
        → S.remove_record o (lookup_id S name o n) w ≡ (ok tt, v)
        → (("lookup" == hive) && (n == key)) ≡ false
        → L.record_at o v hive key ≡ L.record_at o w hive key
    removed_elsewhere n {w = w} hive key done other =
        ap (λ (u : S.World). L.record_at o u hive key) (sym (ap (λ x. x.1) done))
        ∙ L.remove-others o (lookup_id S name o n) w hive key other

    remove_tagged-others :
        (tags : GoMap Tags) (w : S.World) {w' : S.World} (hive key : String)
        → remove_tagged S name o tags w ≡ (ok tt, w')
        → ("lookup" == hive) ≡ false
        → L.record_at o w' hive key ≡ L.record_at o w hive key
    unfolding remove_tagged
    remove_tagged-others [] w hive key done other = ground arith
    remove_tagged-others ((n, ts) ∷ tags) w hive key done other =
        elim (Bool-cases (has_text ts (lookup_tag S name))) [
          | inl ours ↦
              let (_, v, first, rest) =
                >>=-eq-ok (S.remove_record o (lookup_id S name o n))
                  (λ _. remove_tagged S name o tags) w (rw ours at done) in
              remove_tagged-others tags v hive key rest other
              ∙ removed_elsewhere n hive key first (rw other refl)
          | inr theirs ↦ remove_tagged-others tags w hive key (rw theirs at done) other
        ]

    remove_tagged-kept :
        (tags : GoMap Tags) (w : S.World) {w' : S.World}
        → UniqueKeys tags
        → remove_tagged S name o tags w ≡ (ok tt, w')
        → (key : String) → at w' key ≡ kept (lookup key tags) (at w key)
    unfolding remove_tagged lookup
    remove_tagged-kept [] w unique done key = ground arith
    remove_tagged-kept ((n, ts) ∷ tags) w unique done key =
        elim (Bool-cases (has_text ts (lookup_tag S name))) [
          | inl ours ↦
              let (_, v, first, rest) =
                >>=-eq-ok (S.remove_record o (lookup_id S name o n))
                  (λ _. remove_tagged S name o tags) w (rw ours at done) in
              let ih = remove_tagged-kept tags v unique.1 rest key in
              elim (Bool-cases (n == key)) [
                | inl same ↦
                    rw (same, ours)
                      (let e : n ≡ key = (eq_iff n key).0 same in
                        ih
                        ∙ ap (λ t. kept t (at v key)) (lookup-absent n key tags unique.0 e)
                        ∙ subst (λ k. at v k ≡ none) e
                            (L.remove-record o (lookup_id S name o n) w v refl first))
                | inr other ↦ rw other (
                    ih
                    ∙ ap (kept (lookup key tags))
                        (removed_elsewhere n "lookup" key first (rw other refl)))
              ]
          | inr theirs ↦
              let ih = remove_tagged-kept tags w unique.1 (rw theirs at done) key in
              elim (Bool-cases (n == key)) [
                | inl same ↦
                    rw (same, theirs)
                      (ih
                        ∙ ap (λ t. kept t (at w key))
                            (lookup-absent n key tags unique.0 ((eq_iff n key).0 same)))
                | inr other ↦ rw other ih
              ]
        ]

    remove_tagged-Speaks : (tags : GoMap Tags) → Speaks (remove_tagged S name o tags)
    unfolding remove_tagged
    remove_tagged-Speaks [] w = cc
    remove_tagged-Speaks ((n, ts) ∷ tags) w = elim (Bool-cases (has_text ts (lookup_tag S name))) [
      | inl ours ↦ rw ours (
          >>=-Speaks (S.remove_record o (lookup_id S name o n)) (λ _. remove_tagged S name o tags)
            (L.remove-speaks o (lookup_id S name o n)) (λ _. remove_tagged-Speaks tags) w)
      | inr theirs ↦ rw theirs (remove_tagged-Speaks tags w)
    ]

    remove_all-Speaks : Speaks (remove_all S name o)
    unfolding remove_all
    remove_all-Speaks =
        >>=-Speaks (S.remove_record o (update_rule_id S name o)) _
          (L.remove-speaks o (update_rule_id S name o))
          (λ _.
            >>=-Speaks (S.list_tags o "lookup") (remove_tagged S name o) (L.list-speaks o "lookup")
              remove_tagged-Speaks)

    remove_all-kept :
        (w : S.World) {w' : S.World}
        → remove_all S name o w ≡ (ok tt, w')
        → (L.record_at o w' update_rule_hive (update_rule_name S name) ≡ none)
          × ((key : String) → at w' key ≡ kept (tags_at (at w key)) (at w key))
    unfolding remove_all
    remove_all-kept w done =
        let (_, v, rule_gone, rest) =
          >>=-eq-ok (S.remove_record o (update_rule_id S name o))
            (λ _. S.list_tags o "lookup" >>= remove_tagged S name o) w done in
        let (tags, u, listed, loop) =
          >>=-eq-ok (S.list_tags o "lookup") (remove_tagged S name o) v rest in
        let before : (hive key : String) → L.record_at o u hive key ≡ L.record_at o v hive key =
          λ hive key.
            ap (λ (t : S.World). L.record_at o t hive key) (sym (ap (λ x. x.1) listed))
            ∙ L.list-records o "lookup" hive key v in
        (
          remove_tagged-others tags u update_rule_hive (update_rule_name S name) loop refl
              ∙ before update_rule_hive (update_rule_name S name)
              ∙ L.remove-record o (update_rule_id S name o) w v refl rule_gone,
          λ key.
              let same : at v key ≡ at w key =
                ap (λ (t : S.World). at t key) (sym (ap (λ x. x.1) rule_gone))
                ∙ L.remove-others o (update_rule_id S name o) w "lookup" key refl in
              let (unique, here) = L.list-tags o "lookup" key v u tags listed in
              remove_tagged-kept tags u unique loop key
              ∙ ap (kept (lookup key tags)) (before "lookup" key)
              ∙ ap (λ t. kept t (at v key)) here
              ∙ ap (λ r. kept (tags_at r) r) same,
        )

  -- By the result of the removal; an error would be the answer's.
  after_removal :
      (params : EventCallbackParams S.Org) (w : S.World) (x : Result (Unit {0}) × S.World)
      → remove_all S name params.org w ≡ x
      → lookup unsubscribe S.event_handlers ≡ none
      → (removed_all S name params x).0.error ≡ ""
      → (L.record_at params.org
            (removed_all S name params x).1
            update_rule_hive
            (update_rule_name S name)
          ≡ none)
        × ((key : String)
            → at params.org (removed_all S name params x).1 key
              ≡ kept (tags_at (at params.org w key)) (at params.org w key))
  unfolding removed_all handled
  after_removal params w (ok tt, w') done none_asked quiet =
      rw none_asked (remove_all-kept params.org w done)
  after_removal params w (err e, w') failed none_asked quiet =
      absurd (remove_all-Speaks params.org w (ap (λ x. x.0) failed ∙ ap err quiet))

  -- If no handler of the description is asked, and the unsubscription answers without error: the
  -- rule that asks for updates is gone, every lookup with the extension's tag is gone, and every
  -- other lookup is as it was.
  pub unsubscribe_lookups-kept :
      (params : EventCallbackParams S.Org) (w : S.World)
      → lookup unsubscribe S.event_handlers ≡ none
      → (unsubscribe_lookups S name params w).0.error ≡ ""
      → (L.record_at params.org
            (unsubscribe_lookups S name params w).1
            update_rule_hive
            (update_rule_name S name)
          ≡ none)
        × ((key : String)
            → at params.org (unsubscribe_lookups S name params w).1 key
              ≡ kept (tags_at (at params.org w key)) (at params.org w key))
  unfolding unsubscribe_lookups
  unsubscribe_lookups-kept params w none_asked quiet =
      after_removal params w (remove_all S name params.org w) refl none_asked quiet
