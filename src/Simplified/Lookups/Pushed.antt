-- ===== src/Simplified/Lookups/Pushed.antt =====
-- What onUpdate of a lookup extension leaves in Hive, in whatever order its goroutines get there.
use mathlib.Core.Path.{subst}
use lc_extension.Base.{
  String, ◌≡◌, refl, ap, ◌∙◌, Bool-cases, inl, inr, ◌==◌, ◌&&◌, true, false, List, [], ◌∷◌, Option,
  none, some, has_text, arith, eq_iff,
}
use lc_extension.Base.GoMap.{lookup}
use lc_extension.Base.MapKeys.{UniqueKeys, lookup-absent}
use lc_extension.Base.Effect.{Result, ok, err}
use lc_extension.Common.Value.{Value, Fields}
use lc_extension.Common.Messages.{empty_response}
use lc_extension.Core.Extension.{RequestCallbackParams}
use lc_extension.Simplified.Rules.{HiveRecord}
use lc_extension.Simplified.Lookups.{
  LookupService, LookupData, lookup_id, lookup_record, push_imported, pushed, push_lookup, noted,
  push_lookups, update_lookups,
}
use lc_extension.Simplified.Lookups.Stored.{Stores}

module _ (S : LookupService) (L : Stores S) (name : String) where
  -- What stands under a name after an update, from the wanted lookup and the record before.
  abbrev pub stored : Result Fields → Option HiveRecord → Option HiveRecord
  stored (ok d) old = some (lookup_record S name d)
  stored (err e) old = old

  abbrev pub wanted_at : Option Value → Option HiveRecord → Option HiveRecord
  wanted_at none old = old
  wanted_at (some content) old = stored (S.import_from_struct content) old

  pushed_world : (x : Result (Unit {0}) × S.World) → (pushed S name x).1 ≡ x.1
  unfolding pushed
  pushed_world (ok _, w) = refl
  pushed_world (err e, w) = refl

  pushed-eq-none : (x : Result (Unit {0}) × S.World) → (pushed S name x).0 ≡ none → x ≡ (ok tt, x.1)
  unfolding pushed
  pushed-eq-none (ok tt, w) quiet = refl
  pushed-eq-none (err e, w) quiet = cc

  module _ (o : S.Org) where
    abbrev at : S.World → String → Option HiveRecord
    at w key = L.record_at o w "lookup" key

    push_imported-other :
        (lookup_name : String) (r : Result Fields) (w : S.World) (hive key : String)
        → (("lookup" == hive) && (lookup_name == key)) ≡ false
        → L.record_at o (push_imported S name o lookup_name r w).1 hive key
          ≡ L.record_at o w hive key
    unfolding push_imported
    push_imported-other lookup_name (err e) w hive key other = refl
    push_imported-other lookup_name (ok d) w hive key other =
        ap (λ v. L.record_at o v hive key) (pushed_world _)
        ∙ L.add-others o (lookup_id S name o lookup_name) (lookup_record S name d) w hive key other

    push_imported_self :
        (lookup_name : String) (r : Result Fields) (w : S.World)
        → (push_imported S name o lookup_name r w).0 ≡ none
        → at (push_imported S name o lookup_name r w).1 lookup_name ≡ stored r (at w lookup_name)
    unfolding push_imported
    push_imported_self lookup_name (err e) w quiet = cc
    push_imported_self lookup_name (ok d) w quiet =
        ap (λ v. at v lookup_name) (pushed_world _)
        ∙ L.add-record o (lookup_id S name o lookup_name) (lookup_record S name d) w _ refl
            (pushed-eq-none _ quiet)

    -- A lookup that was just pushed, and the others behind it
    noted-misses :
        (pushed_name key : String) (logged : Option String) (failed : List String)
        → has_text (noted pushed_name logged failed) key ≡ false
        → (has_text failed key ≡ false) × ((pushed_name == key) ≡ true → logged ≡ none)
    unfolding noted
    noted-misses pushed_name key none failed h = (h, λ _. refl)
    noted-misses pushed_name key (some e) failed h = (ground arith, λ same. ground arith)

    noted-absent :
        (pushed_name key : String) (logged : Option String) (failed : List String)
        → (pushed_name == key) ≡ false
        → has_text failed key ≡ false
        → has_text (noted pushed_name logged failed) key ≡ false
    unfolding noted
    noted-absent pushed_name key none failed other h = h
    noted-absent pushed_name key (some e) failed other h = rw other h

    push_lookups-others :
        (lookups : LookupData) (w : S.World) (hive key : String)
        → ("lookup" == hive) ≡ false
        → L.record_at o (push_lookups S name o lookups w).1 hive key ≡ L.record_at o w hive key
    unfolding push_lookups push_lookup
    push_lookups-others [] w hive key other = refl
    push_lookups-others ((lookup_name, content) ∷ lookups) w hive key other =
        push_lookups-others lookups _ hive key other
        ∙ push_imported-other lookup_name (S.import_from_struct content) w hive key (rw other refl)

    pub push_lookups-stores :
        (lookups : LookupData) (w : S.World)
        → UniqueKeys lookups
        → (key : String) → has_text (push_lookups S name o lookups w).0 key ≡ false
        → at (push_lookups S name o lookups w).1 key ≡ wanted_at (lookup key lookups) (at w key)
    unfolding push_lookups push_lookup lookup
    push_lookups-stores [] w unique key quiet = refl
    push_lookups-stores ((lookup_name, content) ∷ lookups) w unique key quiet =
        let imported = S.import_from_struct content in
        let here = push_imported S name o lookup_name imported w in
        let (later, now) =
          noted-misses lookup_name key here.0 (push_lookups S name o lookups here.1).0 quiet in
        let rest = push_lookups-stores lookups here.1 unique.1 key later in
        elim (Bool-cases (lookup_name == key)) [
          | inl same ↦ rw same (
              let e : lookup_name ≡ key = (eq_iff lookup_name key).0 same in
              rest
              ∙ ap (λ v. wanted_at v (at here.1 key))
                  (lookup-absent lookup_name key lookups unique.0 e)
              ∙ subst (λ k. at here.1 k ≡ stored imported (at w k)) e
                  (push_imported_self lookup_name imported w (now same)))
          | inr other ↦ rw other (
              rest
              ∙ ap (wanted_at (lookup key lookups))
                  (push_imported-other lookup_name imported w "lookup" key (rw other refl)))
        ]

    -- Only what was given can fail.
    push_lookups-absent :
        (lookups : LookupData) (w : S.World) (key : String)
        → lookup key lookups ≡ none
        → has_text (push_lookups S name o lookups w).0 key ≡ false
    unfolding push_lookups lookup
    push_lookups-absent [] w key missing = refl
    push_lookups-absent ((lookup_name, content) ∷ lookups) w key missing =
        let here = push_lookup S name o lookup_name content w in
        elim (Bool-cases (lookup_name == key)) [
          | inl same ↦ ground arith
          | inr other ↦
              noted-absent lookup_name key here.0 _ other
                (push_lookups-absent lookups here.1 key (rw other at missing))
        ]

    -- A name that is not given is as it was.
    pub push_lookups-not_given :
        (lookups : LookupData) (w : S.World)
        → UniqueKeys lookups
        → (key : String) → lookup key lookups ≡ none
        → at (push_lookups S name o lookups w).1 key ≡ at w key
    push_lookups-not_given lookups w unique key missing =
        push_lookups-stores lookups w unique key (push_lookups-absent lookups w key missing)
        ∙ ap (λ v. wanted_at v (at w key)) missing

  -- If the callback gives lookups, the update answers without error; and in whatever order the
  -- goroutines reach Hive, every lookup that was given and for which no error is logged is there
  -- with its imported content, enabled and with the extension's tag; a lookup that was not given, and every record of another Hive, is as it was.
  pub update_lookups_lem :
      (schedule : LookupData → LookupData) (lookups : LookupData)
      (params : RequestCallbackParams S.Org) {w w1 : S.World}
      → S.get_lookup w ≡ (ok lookups, w1)
      → UniqueKeys (schedule lookups)
      → ((key : String) → lookup key (schedule lookups) ≡ lookup key lookups)
      → ((update_lookups S name schedule params w).0 ≡ empty_response)
        × ((key : String)
            → has_text (push_lookups S name params.org (schedule lookups) w1).0 key ≡ false
            → at params.org (update_lookups S name schedule params w).1 key
              ≡ wanted_at (lookup key lookups) (at params.org w1 key))
        × ((key : String)
            → lookup key lookups ≡ none
            → at params.org (update_lookups S name schedule params w).1 key ≡ at params.org w1 key)
        × ((hive key : String)
            → ("lookup" == hive) ≡ false
            → L.record_at params.org (update_lookups S name schedule params w).1 hive key
              ≡ L.record_at params.org w1 hive key)
  unfolding update_lookups
  update_lookups_lem schedule lookups params {w1 = w1} given unique same = rw given (
    refl,
    λ key quiet.
        push_lookups-stores params.org (schedule lookups) w1 unique key quiet
        ∙ ap (λ v. wanted_at v (at params.org w1 key)) (same key),
    λ key missing.
        push_lookups-not_given params.org (schedule lookups) w1 unique key (same key ∙ missing),
    λ hive key other. push_lookups-others params.org (schedule lookups) w1 hive key other,
  )
