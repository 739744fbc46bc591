-- ===== src/Core/Mask/Hides.antt =====
-- A masked text shows no secret.
use Prim.Native.Char.{Char, code}
use Prim.Native.String.{[], ◌∷◌}
use text.Mathlib.TextLemmas.{cons-append, nil-append}
use lc_extension.Base.{
  ℕ, zero, suc, ◌-◌, String, ◌<>◌, ◌≡◌, refl, ap, ◌∙◌, Bool, true, false, ◌&&◌, ◌||◌, not, List,
  arith, eqb, All, Bool-cases, inl, inr,
}
use lc_extension.Core.Mask.{
  size, is_prefix, occurs, replace_from, replace_all, redacted, mask_secrets,
}

abbrev has_char : ℕ → String → Bool
has_char c [] = false
has_char c (d ∷ t) = eqb c (code d) || has_char c t

-- The two texts have no character in common.
abbrev pub are_disjoint : String → String → Bool
are_disjoint [] new = true
are_disjoint (c ∷ s) new = not (has_char (code c) new) && are_disjoint s new

-- `new` begins with a character that `s` does not have.
is_prefix-new :
    (s new rest : String) (c : Char)
    → are_disjoint (c ∷ s) new ≡ true
    → size new ≡ suc (size new - 1)
    → is_prefix (c ∷ s) (new <> rest) ≡ false
is_prefix-new s [] rest c h k = cc
is_prefix-new s (d ∷ new) rest c h k = rw cons-append (ground arith)

is_prefix-nil : (s : String) → size s ≡ suc (size s - 1) → is_prefix s [] ≡ false
is_prefix-nil [] k = cc
is_prefix-nil (a ∷ s) k = refl

are_disjoint-tail :
    (s new : String) (c : Char) → are_disjoint s (c ∷ new) ≡ true → are_disjoint s new ≡ true
are_disjoint-tail [] new c h = refl
are_disjoint-tail (a ∷ s) new c h = ground (arith, are_disjoint-tail s new c)

-- A text apart from `front` occurs behind it only where it occurs in the rest.
occurs-append :
    (s front rest : String)
    → size s ≡ suc (size s - 1)
    → are_disjoint s front ≡ true
    → occurs s rest ≡ false
    → occurs s (front <> rest) ≡ false
occurs-append s [] rest k d h = rw nil-append h
occurs-append [] (c ∷ front) rest k d h = cc
occurs-append (a ∷ s) (c ∷ front) rest k d h =
    rw cons-append
      (ground (arith, are_disjoint-tail (a ∷ s) front c, occurs-append (a ∷ s) front rest))

module _ (old new : String) (some_new : size new ≡ suc (size new - 1)) where
  -- A text apart from `new` begins the result only where it begins the original.
  is_prefix-replace_from :
      (s t : String)
      → are_disjoint s new ≡ true
      → is_prefix s (replace_from old new 0 t) ≡ true
      → is_prefix s t ≡ true
  unfolding replace_from
  is_prefix-replace_from [] t d h = refl
  is_prefix-replace_from (a ∷ s) [] d h = h
  is_prefix-replace_from (a ∷ s) (c ∷ t) d h = elim (Bool-cases (is_prefix old (c ∷ t))) [
    | inl hit ↦ ground (arith, is_prefix-new s new (replace_from old new (size old - 1) t) a)
    | inr miss ↦ ground (arith, is_prefix-replace_from s t)
  ]

  module _ (s : String) (some_s : size s ≡ suc (size s - 1))
      (apart : are_disjoint s new ≡ true) where
    -- A position where `old` is not replaced: `s` begins the result only if it begins the text.
    is_prefix-kept :
        (c : Char) (t : String)
        → is_prefix old (c ∷ t) ≡ false
        → is_prefix s (c ∷ t) ≡ false
        → is_prefix s (c ∷ replace_from old new 0 t) ≡ false
    unfolding replace_from
    is_prefix-kept c t miss h = ground (
      arith,
      is_prefix-replace_from s (c ∷ t),
      Bool-cases (is_prefix s (c ∷ replace_from old new 0 t)),
    )

    -- A text that does not occur does not come about.
    occurs-replace_from :
        (skip : ℕ) (t : String)
        → occurs s t ≡ false
        → occurs s (replace_from old new skip t) ≡ false
    unfolding replace_from
    occurs-replace_from skip [] h = h
    occurs-replace_from (suc skip) (c ∷ t) h = occurs-replace_from skip t (ground arith)
    occurs-replace_from zero (c ∷ t) h = elim (Bool-cases (is_prefix old (c ∷ t))) [
      | inl hit ↦
          rw hit (
            occurs-append s new _ some_s apart
              (occurs-replace_from (size old - 1) t (ground arith)))
      | inr miss ↦ rw miss (ground (arith, is_prefix-kept c t miss, occurs-replace_from 0 t))
    ]

module _ (old new : String) (some_new : size new ≡ suc (size new - 1))
    (some_old : size old ≡ suc (size old - 1)) (apart : are_disjoint old new ≡ true) where
  -- What is replaced does not occur in the result.
  occurs-replace_from_self :
      (skip : ℕ) (t : String) → occurs old (replace_from old new skip t) ≡ false
  unfolding replace_from
  occurs-replace_from_self skip [] = is_prefix-nil old some_old
  occurs-replace_from_self (suc skip) (c ∷ t) = occurs-replace_from_self skip t
  occurs-replace_from_self zero (c ∷ t) = elim (Bool-cases (is_prefix old (c ∷ t))) [
    | inl hit ↦
        rw hit (occurs-append old new _ some_old apart (occurs-replace_from_self (size old - 1) t))
    | inr miss ↦ rw miss (
        ground (
          arith,
          is_prefix-kept old new some_new old some_old apart c t miss miss,
          occurs-replace_from_self 0 t,
        ))
  ]

-- A secret that masking can hide: not empty, and with no character of the redaction.
abbrev pub is_maskable : String → Bool
is_maskable [] = false
is_maskable (c ∷ s) = are_disjoint (c ∷ s) redacted

occurs-replace_all_self :
    (text secret : String)
    → is_maskable secret ≡ true
    → occurs secret (replace_all text secret redacted) ≡ false
unfolding replace_all
occurs-replace_all_self text [] h = cc
occurs-replace_all_self text (c ∷ secret) h =
    occurs-replace_from_self (c ∷ secret) redacted refl (omega arith) h 0 text

occurs-replace_all :
    (text secret other : String)
    → is_maskable secret ≡ true
    → is_maskable other ≡ true
    → occurs secret text ≡ false
    → occurs secret (replace_all text other redacted) ≡ false
unfolding replace_all
occurs-replace_all text [] other h k e = cc
occurs-replace_all text (c ∷ secret) [] h k e = cc
occurs-replace_all text (c ∷ secret) (d ∷ other) h k e =
    occurs-replace_from (d ∷ other) redacted refl (c ∷ secret) (omega arith) h 0 text e

-- Masking by more secrets brings none back.
occurs-mask_secrets :
    (secrets : List String) (text secret : String)
    → is_maskable secret ≡ true
    → All (λ s. is_maskable s ≡ true) secrets
    → occurs secret text ≡ false
    → occurs secret (mask_secrets text secrets) ≡ false
unfolding mask_secrets
occurs-mask_secrets List.[] text secret h k e = e
occurs-mask_secrets (List.◌∷◌ other secrets) text secret h k e =
    occurs-mask_secrets secrets (replace_all text other redacted) secret h k.1
      (occurs-replace_all text secret other h k.0 e)

-- After MaskSecrets no secret occurs in the text, if no secret is empty and none has a character of
-- the redaction's text.
pub mask_secrets-hides :
    (text : String) (secrets : List String)
    → All (λ s. is_maskable s ≡ true) secrets
    → All (λ s. occurs s (mask_secrets text secrets) ≡ false) secrets
unfolding mask_secrets
mask_secrets-hides text List.[] h = tt
mask_secrets-hides text (List.◌∷◌ secret secrets) h = (
  occurs-mask_secrets secrets (replace_all text secret redacted) secret h.0 h.1
      (occurs-replace_all_self text secret h.0),
  mask_secrets-hides (replace_all text secret redacted) secrets h.1,
)

-- A text in which no secret occurs is left alone.
replace_from-absent : (old new t : String) → occurs old t ≡ false → replace_from old new 0 t ≡ t
unfolding replace_from
replace_from-absent old new [] h = refl
replace_from-absent old new (c ∷ t) h = ground (arith, replace_from-absent old new t)

replace_all-absent :
    (old new t : String) → is_maskable old ≡ true → occurs old t ≡ false → replace_all t old new ≡ t
unfolding replace_all
replace_all-absent [] new t h e = cc
replace_all-absent (c ∷ old) new t h e = replace_from-absent (c ∷ old) new t e

-- MaskSecrets changes nothing in a text in which no secret occurs, if no secret is empty and none
-- has a character of the redaction's text.
mask_secrets-absent :
    (text : String) (secrets : List String)
    → All (λ s. is_maskable s ≡ true) secrets
    → All (λ s. occurs s text ≡ false) secrets
    → mask_secrets text secrets ≡ text
unfolding mask_secrets
mask_secrets-absent text List.[] h e = refl
mask_secrets-absent text (List.◌∷◌ secret secrets) h e =
    ap (λ t. mask_secrets t secrets) (replace_all-absent secret redacted text h.0 e.0)
    ∙ mask_secrets-absent text secrets h.1 e.1
