-- ===== src/Core/Adapter/Keys.antt =====
-- Lists of installation keys with unique IDs, and what deleting the duplicates leaves of them.
use lc_extension.Base.{
  String, ◌≡◌, refl, ap, Bool-cases, inl, inr, ◌==◌, eq_iff, eq_refl, Bool, true, false, ◌&&◌, not,
  List, [], ◌∷◌, arith,
}
use lc_extension.Base.{keep, any, All}
use lc_extension.Core.Api.{InstallationKey, UniqueIds}

module _ {ℓ} {A : Type ℓ} where
  pub keep-congr : (p q : A → Bool) (xs : List A) → All (λ x. p x ≡ q x) xs → keep p xs ≡ keep q xs
  keep-congr p q [] h = refl
  keep-congr p q (x ∷ xs) h = ground (arith, h.0, keep-congr p q xs h.1)

  pub keep_all : (xs : List A) → keep (λ _. true) xs ≡ xs
  keep_all [] = refl
  keep_all (x ∷ xs) = ap (λ l. x ∷ l) (keep_all xs)

  -- Two passes are one.
  pub keep_and : (p q : A → Bool) (xs : List A) → keep p (keep q xs) ≡ keep (λ x. q x && p x) xs
  keep_and p q [] = refl
  keep_and p q (x ∷ xs) = ground (arith, keep_and p q xs)

  pub keep-eq-nil : (p : A → Bool) (xs : List A) → All (λ x. p x ≡ false) xs → keep p xs ≡ []
  keep-eq-nil p [] h = refl
  keep-eq-nil p (x ∷ xs) h = ground (arith, h.0, keep-eq-nil p xs h.1)

module _ {ℓ} {A : Type ℓ} {P Q : A → Type ℓ} (imp : (x : A) → P x → Q x) where
  pub All-imp : (xs : List A) → All P xs → All Q xs
  All-imp [] h = tt
  All-imp (x ∷ xs) h = (imp x h.0, All-imp xs h.1)

pub eq_comm : (s t : String) → (s == t) ≡ (t == s)
eq_comm s t = ground (arith, eq_iff s t, eq_iff t s)

-- Does the loop over `ours` delete the ID, when it spares `kept`?
abbrev pub is_doomed : String → List InstallationKey → InstallationKey → Bool
is_doomed kept ours k = any (λ j. not (j.id == kept) && (k.id == j.id)) ours

abbrev pub has_id : String → List InstallationKey → Bool
has_id id = any (λ j. j.id == id)

module _ (kept : String) (ours : InstallationKey → Bool) where
  -- An ID that no key has is not deleted.
  is_doomed-stranger :
      (k : InstallationKey) (ks : List InstallationKey)
      → All (λ j. (j.id == k.id) ≡ false) ks
      → is_doomed kept (keep ours ks) k ≡ false
  is_doomed-stranger k [] h = refl
  is_doomed-stranger k (j ∷ ks) h =
      ground (arith, h.0, is_doomed-stranger k ks h.1, eq_iff k.id j.id, eq_iff j.id k.id)

  is_doomed-tail :
      (k : InstallationKey) (ks rest : List InstallationKey)
      → All (λ j. (j.id == k.id) ≡ false) rest
      → All (λ j. is_doomed kept (keep ours ks) j ≡ (ours j && not (j.id == kept))) rest
      → All (λ j. is_doomed kept (keep ours (k ∷ ks)) j ≡ (ours j && not (j.id == kept))) rest
  is_doomed-tail k ks [] h d = tt
  is_doomed-tail k ks (j ∷ rest) h d = (ground (arith, h.0, d.0), is_doomed-tail k ks rest h.1 d.1)

  -- With unique IDs the loop deletes exactly the extension's keys but the one that it spares.
  is_doomed-ours :
      (ks : List InstallationKey)
      → UniqueIds ks
      → All (λ k. is_doomed kept (keep ours ks) k ≡ (ours k && not (k.id == kept))) ks
  is_doomed-ours [] u = tt
  is_doomed-ours (k ∷ ks) u = (
    ground (arith, is_doomed-stranger k ks u.0, eq_refl k.id),
    is_doomed-tail k ks ks u.0 (is_doomed-ours ks u.1),
  )

  keep-ours_none :
      (k : InstallationKey) (ks : List InstallationKey)
      → All (λ j. (j.id == k.id) ≡ false) ks
      → k.id ≡ kept
      → All (λ j. (ours j && (j.id == kept)) ≡ false) ks
  keep-ours_none k [] h e = tt
  keep-ours_none k (j ∷ ks) h e = (ground (arith, h.0), keep-ours_none k ks h.1 e)

  -- The spared key is the only one of the extension's that has its ID.
  pub keep-kept :
      (ks : List InstallationKey)
      → UniqueIds ks
      → has_id kept (keep ours ks) ≡ true
      → (k : InstallationKey) × (keep (λ j. ours j && (j.id == kept)) ks ≡ k ∷ [])
        × (k.id ≡ kept)
        × (ours k ≡ true)
  keep-kept [] u h = cc
  keep-kept (k ∷ ks) u h = elim (Bool-cases (ours k && (k.id == kept))) [
    | inl hit ↦
        let e : k.id ≡ kept = ground (arith, eq_iff k.id kept) in
        (
          k,
          rw hit (ap (λ l. k ∷ l) (keep-eq-nil _ ks (keep-ours_none k ks u.0 e))),
          e,
          ground arith,
        )
    | inr miss ↦
        let (j, only, id, mine) = keep-kept ks u.1 (ground arith) in (j, rw miss only, id, mine)
  ]

  pub keep-doomed :
      (ks : List InstallationKey)
      → UniqueIds ks
      → keep (λ k. not (is_doomed kept (keep ours ks) k)) ks
        ≡ keep (λ k. not (ours k && not (k.id == kept))) ks
  keep-doomed ks u = keep-congr _ _ ks (All-imp (λ k e. ap not e) ks (is_doomed-ours ks u))

  -- Of the extension's keys the loop leaves the spared one; the keys of others it leaves alone.
  pub keep-ours_survivor :
      (ks : List InstallationKey)
      → keep ours (keep (λ k. not (ours k && not (k.id == kept))) ks)
        ≡ keep (λ k. ours k && (k.id == kept)) ks
  keep-ours_survivor [] = refl
  keep-ours_survivor (k ∷ ks) = ground (arith, keep-ours_survivor ks)

  pub keep-others_survivor :
      (ks : List InstallationKey)
      → keep (λ k. not (ours k)) (keep (λ k. not (ours k && not (k.id == kept))) ks)
        ≡ keep (λ k. not (ours k)) ks
  keep-others_survivor [] = refl
  keep-others_survivor (k ∷ ks) = ground (arith, keep-others_survivor ks)
